-- ===== src/PathResolution/Parts.antt =====
-- The components of a path (`split_parts` of lib.rs): they are found, or the path is refused.
use agent_pane.Prelude.{
  List, [], ◌∷◌, Bool, true, false, Text, Option, none, some, if◌then◌else◌, on_some,
}
use agent_pane.Execution.{Code, Result, ok, err, ◌>>=◌}
use agent_pane.Execution.Post.{Post, returns, fails}
use agent_pane.Execution.Files.{segments}
use agent_pane.PathResolution.{
  ParentSegments, device_path, share_path, split_prefix, components, split_parts, to_slashes,
}

abbrev Found {ℓ} : {A : Type ℓ} → A → Type 0
Found a = Unit

module _ {ℓ} {A : Type ℓ} where
  test : (b : Bool) (m n : Result A) → Post Found m → Post Found n → Post Found (if b then m else n)
  test true m n h k = h
  test false m n h k = k

  option :
      {B : Type 0} (o : Option B) (f : B → Result A) (n : Result A)
      → ((b : B) → Post Found (f b))
      → Post Found n
      → Post Found (on_some o f n)
  option (some b) f n h k = h b
  option none f n h k = k

  found : (a : A) → Post Found (ok a)
  found a = returns a tt

  refused : (e : Code) → Post {A = A} Found (err e)
  refused e = fails e

bind {ℓ κ} :
    {A : Type ℓ} {B : Type κ} (m : Result A) (f : A → Result B)
    → Post Found m
    → ((a : A) → Post Found (f a))
    → Post Found (m >>= f)
bind m f (returns a h) k = k a
bind m f (fails e) k = fails e

ruleset found_rules = (test, option, found, refused)

device_path-Post : (value : Text) → Post Found (device_path value)
unfolding device_path
device_path-Post value = search found_rules depth 8

split_prefix-Post : (windows : Bool) (value : Text) → Post Found (split_prefix windows value)
unfolding split_prefix share_path
split_prefix-Post windows value = search found_rules depth 12

components-Post :
    (parents : ParentSegments) (windows : Bool) (ps : List Text)
    → Post Found (components parents windows ps)
unfolding components
components-Post parents windows [] = found []
components-Post parents windows (part ∷ ps) =
    let rest : Post Found (components parents windows ps) = components-Post parents windows ps in
    let kept : Post Found (components parents windows ps >>= λ qs. ok (part ∷ qs)) =
      bind _ _ rest (λ qs. found (part ∷ qs)) in
    search (found_rules, rest, kept) depth 10

pub split_parts-Post :
    (value : Text) (windows : Bool) (parents : ParentSegments)
    → Post Found (split_parts value windows parents)
unfolding split_parts
split_parts-Post value windows parents = test _ _ _ (refused _) (
    bind _ _ (test windows _ _ (device_path-Post (to_slashes value)) (found value)) (λ v.
      bind _ _ (split_prefix-Post windows v) (λ (prefix, tail).
        bind _ _ (components-Post parents windows (segments tail)) (λ ps. found (prefix, ps)))))
