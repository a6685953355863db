-- ===== src/PathResolution/RoundTrip.antt =====
-- A resolved path, resolved again from its root (`resolve_path` of lib.rs), on hosts with Unix paths: as
-- `apply` of the edit tool does with its target.
use agent_pane.Prelude.{
  ℕ, List, [], ◌∷◌, ◌≡◌, refl, sym, ap, ◌∙◌, true, false, Bool-cases, inl, inr, none, some, Text,
  codes, text_eq, text_eq_iff, trim, starts_with, strip_prefix, if◌then◌else◌, arith, by_test,
  is_empty, ◌==◌,
}
use agent_pane.Execution.{ok, ◌>>=◌}
use agent_pane.Execution.Files.{
  ExecutionPath, is_valid_path, segments, plain_segments, contains, push_front,
}
use agent_pane.Execution.Runtime.{Descriptor}
use agent_pane.PathResolution.{
  reject, parts, split_parts, split_prefix, components, has_root, validate_cwd, new_path,
  resolve_path, is_windows, or_dot, join_path, is_parent,
}

join-front : (c : ℕ) (ls : List Text) → join_path (push_front c ls) ≡ c ∷ join_path ls
unfolding join_path
join-front c [] = refl
join-front c (l ∷ []) = refl
join-front c (l ∷ m ∷ ls) = refl

segments-cons :
    (c : ℕ) (s : Text)
    → segments (c ∷ s) ≡ (if c == b'/' then [] ∷ segments s else push_front c (segments s))
unfolding segments
segments-cons c s = refl

segments-ne : (s : Text) → is_empty (segments s) ≡ false
segments-ne [] = unfold segments in refl
segments-ne (c ∷ s) =
    rw (segments-cons c s)
      (by_test (λ ls. is_empty ls ≡ false) (c == b'/') _ _ (λ e. refl) (λ e. pushed (segments s)))
  where
    pushed : (ls : List Text) → is_empty (push_front c ls) ≡ false
    pushed [] = refl
    pushed (l ∷ ls) = refl

join-cons : (ls : List Text) → is_empty ls ≡ false → join_path ([] ∷ ls) ≡ b'/' ∷ join_path ls
unfolding join_path
join-cons [] h = absurd (cc)
join-cons (l ∷ ls) h = refl

-- A text is its segments, put together.
pub join_path-segments : (s : Text) → join_path (segments s) ≡ s
join_path-segments [] = unfold segments join_path in refl
join_path-segments (c ∷ s) = rw (segments-cons c s) (
    by_test (λ ls. join_path ls ≡ c ∷ s) (c == b'/') _ _
      (λ e.
        let e2 : b'/' ≡ c = ground arith in
        join-cons (segments s) (segments-ne s) ∙ rw (join_path-segments s, e2))
      (λ e. join-front c (segments s) ∙ rw (join_path-segments s)))

components-plain : (ss : List Text) → plain_segments ss ≡ true → components reject false ss ≡ ok ss
unfolding components
components-plain [] h = refl
components-plain (s ∷ ss) h =
    let rest : components reject false ss ≡ ok ss = components-plain ss (ground arith) in
    let a : is_empty s ≡ false = ground arith in
    let b : text_eq s (codes ".") ≡ false = ground arith in
    let c : is_parent s ≡ false = ground arith in rw (rest, a, b, c)

components-dot : components reject false (segments (codes ".")) ≡ ok []
unfolding components segments codes
components-dot = refl

valid_root : (id : Text) → is_valid_path (record { root_id = id; path = codes "." }) ≡ true
unfolding is_valid_path
valid_root id = refl

empty_is_invalid : (p : ExecutionPath) → is_valid_path p ≡ true → is_empty p.path ≡ false
unfolding is_valid_path
empty_is_invalid p h = nonempty p.path (ground arith)
  where
    nonempty : (s : Text) → is_empty (trim s) ≡ false → is_empty s ≡ false
    nonempty [] h = absurd (cc)
    nonempty (c ∷ s) h = refl

no_nul : (p : ExecutionPath) → is_valid_path p ≡ true → contains 0 p.path ≡ false
unfolding is_valid_path
no_nul p h = ground arith

relative : (p : ExecutionPath) → is_valid_path p ≡ true → strip_prefix p.path (codes "/") ≡ none
unfolding is_valid_path starts_with
relative p h =
    elim (strip_prefix p.path (codes "/"))
        as (λ o. elim o [ none ↦ false | some rest ↦ true ] ≡ false → o ≡ none) [
          | none ↦ λ e. refl
          | some rest ↦ λ e. absurd (cc)
        ]
      (ground arith)

plain :
    (p : ExecutionPath)
    → is_valid_path p ≡ true
    → text_eq p.path (codes ".") ≡ false
    → plain_segments (segments p.path) ≡ true
unfolding is_valid_path
plain p h e = ground arith

parts-lem :
    (p : ExecutionPath)
    → is_valid_path p ≡ true
    → parts p.path false ≡ (components reject false (segments p.path) >>= λ ps. ok ([], ps))
unfolding parts split_parts split_prefix
parts-lem p h = rw (empty_is_invalid p h, no_nul p h, relative p h)

-- The components of a valid path, put together, are the path.
split-valid :
    (p : ExecutionPath)
    → is_valid_path p ≡ true
    → (ps : List Text) × (parts p.path false ≡ ok ([], ps)) × (or_dot (join_path ps) ≡ p.path)
split-valid p h = elim (Bool-cases (text_eq p.path (codes "."))) [
  | inl e ↦
      let e2 : p.path ≡ codes "." = (text_eq_iff p.path (codes ".")).0 e in
      (
        [],
        parts-lem p h ∙ rw e2 (ap (λ m. m >>= λ ps. ok ([], ps)) components-dot),
        unfold join_path in sym e2,
      )
  | inr e ↦
      let c : components reject false (segments p.path) ≡ ok (segments p.path) =
        components-plain (segments p.path) (plain p h e) in
      (segments p.path, parts-lem p h ∙ rw c, rw (join_path-segments p.path, empty_is_invalid p h))
]

validate_root :
    (host : Descriptor) (id : Text)
    → has_root id host.roots ≡ true
    → validate_cwd host (record { root_id = id; path = codes "." }) ≡ ok tt
unfolding validate_cwd is_valid_path
validate_root host id r = rw r

new_path-valid : (p : ExecutionPath) → is_valid_path p ≡ true → new_path p.root_id p.path ≡ ok p
unfolding new_path
new_path-valid p h = rw h

-- On a host with Unix paths, a valid path below an advertised root, resolved from that root, is the
-- path itself.
pub resolve_path-id :
    (host : Descriptor) (p : ExecutionPath)
    → is_windows host ≡ false
    → is_valid_path p ≡ true
    → has_root p.root_id host.roots ≡ true
    → resolve_path host (record { root_id = p.root_id; path = codes "." }) p.path ≡ ok p
unfolding resolve_path
resolve_path-id host p w h r =
    let (ps, e, j) = split-valid p h in
    rw (validate_root host p.root_id r, w, e) (ap (new_path p.root_id) j ∙ new_path-valid p h)
