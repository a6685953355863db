-- ===== src/Edit/Matches.antt =====
-- The matches that `find` and `match_indices` of matching.rs see, from the left.
use agent_pane.Prelude.{
  ℕ, zero, suc, ◌+◌, ◌-◌, ◌<◌, List, [], ◌∷◌, ◌++◌, ◌≡◌, refl, ap, ◌∙◌, true, false, Bool-cases,
  inl, inr, Option, none, some, Option-cases, Text, starts_with, strip_prefix, strip_prefix-some,
  length, drop, on_some, arith,
}
use agent_pane.Edit.Matching.{match_from, find}

-- The text does not occur.
abbrev pub Absent : Text → Text → Type 0
Absent old s = (k : ℕ) → starts_with (drop k s) old ≡ false

-- It does not occur in front of an index.
abbrev pub Leftmost : Text → Text → ℕ → Type 0
Leftmost old s n = (k : ℕ) → k < n → starts_with (drop k s) old ≡ false

Absent-cons :
    (old : Text) (c : ℕ) (s : Text)
    → starts_with (c ∷ s) old ≡ false
    → Absent old s
    → Absent old (c ∷ s)
Absent-cons old c s e f zero = e
Absent-cons old c s e f (suc k) = f k

Leftmost-cons :
    (old : Text) (c : ℕ) (s : Text) (n : ℕ)
    → starts_with (c ∷ s) old ≡ false
    → Leftmost old s n
    → Leftmost old (c ∷ s) (suc n)
Leftmost-cons old c s n e f zero h = e
Leftmost-cons old c s n e f (suc k) h = f k (omega arith)

skip :
    (i : ℕ) (t rest old : Text)
    → match_from (length t) i (t ++ rest) old ≡ match_from 0 (i + length t) rest old
unfolding match_from
skip i [] rest old = ap (λ n. match_from 0 n rest old) (omega arith)
skip i (c ∷ t) rest old = skip (i + 1) t rest old ∙ ap (λ n. match_from 0 n rest old) (omega arith)

module _ (o : ℕ) (os : Text) where
  -- A text by the first match in it, with the matches that are found in it from an index on.
  pub data View (i : ℕ) (s : Text) : List ℕ → Option ℕ → Type 0 where
    absent : Absent (o ∷ os) s → View i s [] none
    found :
        (before rest : Text) (is : List ℕ)
        → s ≡ before ++ ((o ∷ os) ++ rest)
        → Leftmost (o ∷ os) s (length before)
        → is
          ≡ (i + length before) ∷ match_from 0 (i + length before + length (o ∷ os)) rest (o ∷ os)
        → View i s is (some (length before))

  starts_with-some :
      (s : Text) → starts_with s (o ∷ os) ≡ true → (rest : Text) × (s ≡ (o ∷ os) ++ rest)
  unfolding starts_with
  starts_with-some s h = elim (Option-cases (strip_prefix s (o ∷ os))) [
    | inl e ↦ absurd (clash (strip_prefix s (o ∷ os)) e h)
    | inr (rest, e) ↦ (rest, strip_prefix-some s (o ∷ os) rest e)
  ]
    where
      clash : (p : Option Text) → p ≡ none → elim p [ none ↦ false | some rest ↦ true ] ≡ true → ⊥
      clash none e h = cc
      clash (some r) e h = cc

  here_found :
      (i c : ℕ) (s rest : Text)
      → c ∷ s ≡ (o ∷ os) ++ rest
      → View i (c ∷ s) (i ∷ match_from (length (o ∷ os) - 1) (i + 1) s (o ∷ os)) (some 0)
  here_found i c s rest e =
      let f : s ≡ os ++ rest = cc in
      let a : length (o ∷ os) - 1 ≡ length os = omega arith in
      let b : i + 1 + length os ≡ i + length (o ∷ os) = omega arith in
      let d : i + 0 ≡ i = omega arith in
      found [] rest _ e (λ k h. absurd (omega arith))
        (rw (a, f, d, skip (i + 1) os rest (o ∷ os), b))

  later_found :
      (i c : ℕ) (s : Text) (is : List ℕ) (p : Option ℕ)
      → starts_with (c ∷ s) (o ∷ os) ≡ false
      → View (i + 1) s is p
      → View i (c ∷ s) is (on_some p (λ n. some (n + 1)) none)
  later_found i c s is p e (absent f) = absent (Absent-cons (o ∷ os) c s e f)
  later_found i c s is p e (found before rest _ f g h) =
      let a : length before + 1 ≡ length (c ∷ before) = omega arith in
      let b : i + 1 + length before ≡ i + length (c ∷ before) = omega arith in
      rw a (
        found (c ∷ before) rest is (ap (λ t. c ∷ t) f)
          (Leftmost-cons (o ∷ os) c s (length before) e g) (rw b at h))

  pub nowhere : Absent (o ∷ os) []
  unfolding starts_with
  nowhere zero = refl
  nowhere (suc k) = refl

  pub view : (i : ℕ) (s : Text) → View i s (match_from 0 i s (o ∷ os)) (find s (o ∷ os))
  unfolding match_from find
  view i [] = absent nowhere
  view i (c ∷ s) = elim (Bool-cases (starts_with (c ∷ s) (o ∷ os))) [
    | inl e ↦ let (rest, f) = starts_with-some (c ∷ s) e in rw e (here_found i c s rest f)
    | inr e ↦ rw e (later_found i c s _ _ e (view (i + 1) s))
  ]
