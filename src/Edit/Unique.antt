-- ===== src/Edit/Unique.antt =====
-- The description of a replacement (Edit/Replaced) has one result.
use agent_pane.Prelude.{
  ℕ, suc, ◌≤◌, ◌∷◌, ◌++◌, ◌≡◌, refl, sym, ap, ◌∙◌, Bool, true, false, Bool-cases, inl, inr, Text,
  starts_with, strip_prefix-append, length, take, drop, ltb, arith,
}
use mathlib.Core.Path.{subst}
use agent_pane.Execution.Files.{WriteFileRequest}
use agent_pane.Execution.Runtime.{Runtime}
use agent_pane.Execution.Runtime.Sends.{IsHost, IsQuiet, Quiet-imp}
use agent_pane.Edit.Matching.{replace}
use agent_pane.Edit.Replacement.{IsResult, replace-IsResult}
use agent_pane.Edit.Matches.{Leftmost}
use agent_pane.Edit.Replaced.{IsReplaced, Replaces, ends, replaces, drop_seam, take_seam}

module _ (old new : Text) where
  starts_with-append : (rest : Text) → starts_with (old ++ rest) old ≡ true
  unfolding starts_with
  starts_with-append rest = rw (starts_with, strip_prefix-append old rest)

  -- There is a match where the text is cut.
  match_at :
      (before rest s : Text)
      → s ≡ before ++ (old ++ rest)
      → starts_with (drop (length before) s) old ≡ true
  match_at before rest s e =
      rw (e, drop_seam (length before) before (old ++ rest) refl) (starts_with-append rest)

  clash : (b : Bool) → b ≡ true → b ≡ false → ⊥
  clash b e f = cc

  same_place :
      (s : Text) (m n : ℕ)
      → Leftmost old s m
      → Leftmost old s n
      → starts_with (drop m s) old ≡ true
      → starts_with (drop n s) old ≡ true
      → m ≡ n
  same_place s m n l k e f = elim (Bool-cases (ltb m n)) [
    | inl a ↦ absurd (clash _ e (k m (ground arith)))
    | inr a ↦ elim (Bool-cases (ltb n m)) [
      | inl b ↦ absurd (clash _ f (l n (ground arith)))
      | inr b ↦ ground arith
    ]
  ]

  pub Replaces-unique :
      (s t a b : Text) (m n : ℕ)
      → s ≡ t
      → Replaces old new s a m
      → Replaces old new t b n
      → (a ≡ b) × (m ≡ n)
  Replaces-unique s t _ _ m n e (ends _ h) (ends _ k) = (e, refl)
  Replaces-unique s t _ _ m n e (ends _ h) (replaces before rest out k l r) =
      absurd (clash _ (match_at before rest s e) (h (length before)))
  Replaces-unique s t _ _ m n e (replaces before rest out k l r) (ends _ h) =
      absurd (clash _ (match_at before rest t (sym e)) (h (length before)))
  Replaces-unique s t _ _ m n e (replaces before rest out i l r)
        (replaces before2 rest2 out2 j k q) =
      let l2 : Leftmost old t (length before) = subst (λ u. Leftmost old u (length before)) e l in
      let p : length before ≡ length before2 =
        same_place t (length before) (length before2) l2 k (match_at before rest t (sym e))
          (match_at before2 rest2 t refl) in
      let f : before ≡ before2 =
        sym (take_seam (length before) before (old ++ rest) refl)
        ∙ (ap (take (length before)) e ∙ take_seam (length before) before2 (old ++ rest2) p) in
      let g : old ++ rest ≡ old ++ rest2 =
        sym (drop_seam (length before) before (old ++ rest) refl)
        ∙ (ap (drop (length before)) e ∙ drop_seam (length before) before2 (old ++ rest2) p) in
      let g2 : rest ≡ rest2 =
        sym (drop_seam (length old) old rest refl)
        ∙ (ap (drop (length old)) g ∙ drop_seam (length old) old rest2 refl) in
      let (x, y) = Replaces-unique rest rest2 out out2 i j g2 r q in
      (ap (λ u. u ++ (new ++ out)) f ∙ ap (λ u. before2 ++ (new ++ u)) x, ap suc y)

-- Where every match of a text that is not empty is replaced, there is one result: any text and number
-- that the description of the replacement allows are those that `replace` returns, where it returns any.
-- Nothing is written, and there is no panic.
pub replace-Replaces :
    {World : Type 0} (runtime : Runtime World) (Before After : World → Type 0)
    (Allowed : WriteFileRequest → Type 0)
    → IsHost Before After Allowed runtime
    → (source : Text) (o : ℕ) (os new : Text) (max_bytes : ℕ) (content : Text) (n : ℕ)
    → Replaces (o ∷ os) new source content n
    → IsQuiet Before After
        (λ result. (result.0 ≡ content) × (result.1 ≡ n))
        (replace runtime source (o ∷ os) new true max_bytes)
replace-Replaces runtime Before After Allowed host source o os new max_bytes content n h =
    Quiet-imp Before After (IsResult true source (o ∷ os) new max_bytes) _ _
      (replace-IsResult runtime Before After Allowed host source o os new max_bytes true)
      (λ (a, m) r. same a m (unfold IsReplaced in r.replaced))
  where
    same : (a : Text) (m : ℕ) → Replaces (o ∷ os) new source a m × (1 ≤ m) → (a ≡ content) × (m ≡ n)
    same a m (r, pos) = Replaces-unique (o ∷ os) new source source a content m n refl r h
