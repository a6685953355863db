-- ===== src/ApplyPatch/Update/Fit.antt =====
-- Where replacements fit into a file of `n` lines, before and behind their sort.
use agent_pane.Prelude.{ℕ, ◌+◌, ◌≤◌, List, [], ◌∷◌, ◌≡◌, leb, arith, by_test}
use agent_pane.ApplyPatch.Update.{insert_by_start, sort_by_start}
use agent_pane.ApplyPatch.Update.Replace.{Replacement}

module _ (n : ℕ) where
  -- From `from` on, one behind the other.
  pub data Ordered : ℕ → List Replacement → Type 0 where
    ends : (from : ℕ) → from ≤ n → Ordered from []
    next :
        (from : ℕ) (r : Replacement) (rs : List Replacement)
        → from ≤ r.start
        → Ordered (r.start + r.old_len) rs
        → Ordered from (r ∷ rs)

  -- The same, with insertions at the end of the file anywhere among them.
  pub data Scattered : ℕ → List Replacement → Type 0 where
    ends : (from : ℕ) → from ≤ n → Scattered from []
    next :
        (from : ℕ) (r : Replacement) (rs : List Replacement)
        → from ≤ r.start
        → Scattered (r.start + r.old_len) rs
        → Scattered from (r ∷ rs)
    at_end :
        (from : ℕ) (r : Replacement) (rs : List Replacement)
        → r.start ≡ n
        → r.old_len ≡ 0
        → Scattered from rs
        → Scattered from (r ∷ rs)

  pub Scattered-le : (i j : ℕ) (rs : List Replacement) → i ≤ j → Scattered j rs → Scattered i rs
  Scattered-le i j [] h (ends _ k) = ends i (omega arith)
  Scattered-le i j (r ∷ rs) h (next _ _ _ k s) = next i r rs (omega arith) s
  Scattered-le i j (r ∷ rs) h (at_end _ _ _ e z s) = at_end i r rs e z (Scattered-le i j rs h s)

  Ordered-le : (from : ℕ) (rs : List Replacement) → Ordered from rs → from ≤ n
  Ordered-le from [] (ends _ h) = h
  Ordered-le from (r ∷ rs) (next _ _ _ h s) = omega (arith, Ordered-le (r.start + r.old_len) rs s)

  insert_by_start-next :
      (from : ℕ) (r : Replacement) (rs : List Replacement)
      → from ≤ r.start
      → Ordered (r.start + r.old_len) rs
      → Ordered from (insert_by_start r rs)
  unfolding insert_by_start
  insert_by_start-next from r [] h o = next from r [] h o
  insert_by_start-next from r (s ∷ ss) h (next _ _ _ k o) =
      by_test (Ordered from) (leb r.start s.start) _ _
        (λ b. next from r (s ∷ ss) h (next _ s ss k o)) (λ b. absurd (ground arith))

  insert_by_start-at_end :
      (from : ℕ) (r : Replacement) (rs : List Replacement)
      → r.start ≡ n
      → r.old_len ≡ 0
      → Ordered from rs
      → Ordered from (insert_by_start r rs)
  unfolding insert_by_start
  insert_by_start-at_end from r [] e z (ends _ h) =
      next from r [] (omega arith) (ends _ (omega arith))
  insert_by_start-at_end from r (s ∷ ss) e z (next _ _ _ h o) =
      by_test (Ordered from) (leb r.start s.start) _ _
        (λ b.
          next from r (s ∷ ss) (omega (arith, Ordered-le _ ss o)) (next _ s ss (ground arith) o))
        (λ b. next from s _ h (insert_by_start-at_end (s.start + s.old_len) r ss e z o))

  pub sort_by_start-Ordered :
      (from : ℕ) (rs : List Replacement) → Scattered from rs → Ordered from (sort_by_start rs)
  unfolding sort_by_start
  sort_by_start-Ordered from [] (ends _ h) = ends from h
  sort_by_start-Ordered from (r ∷ rs) (next _ _ _ h s) =
      insert_by_start-next from r _ h (sort_by_start-Ordered (r.start + r.old_len) rs s)
  sort_by_start-Ordered from (r ∷ rs) (at_end _ _ _ e z s) =
      insert_by_start-at_end from r _ e z (sort_by_start-Ordered from rs s)
