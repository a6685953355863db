-- ===== src/ApplyPatch/Update/Ascending.antt =====
-- `apply_replacements` of update.rs on replacements in order, which may overlap.
use mathlib.Core.List.{reverse, reverse_aux}
use agent_pane.Prelude.{
  ℕ, zero, suc, ◌+◌, ◌≤◌, List, [], ◌∷◌, ◌++◌, Text, length, take, drop, leb, ltb, if◌then◌else◌,
  arith, by_test, length-append, length-take,
}
use agent_pane.Execution.{Result, ok, panic}
use agent_pane.Execution.Post.{Post, returns, fails, Post-if, Post-bind}
use agent_pane.ApplyPatch.Update.{insert_by_start, sort_by_start}
use agent_pane.ApplyPatch.Update.Replace.{
  Replacement, remove_at, remove_each, insert_at, insert_each, replace_one, replace_each,
  apply_replacements,
}

-- The starts go up from `from`, and none is beyond `n`.
pub data Ascending (n : ℕ) : ℕ → List Replacement → Type 0 where
  ends : (from : ℕ) → from ≤ n → Ascending n from []
  next :
      (from : ℕ) (r : Replacement) (rs : List Replacement)
      → from ≤ r.start
      → Ascending n r.start rs
      → Ascending n from (r ∷ rs)

-- The starts go down from `from`.
data Descending : ℕ → List Replacement → Type 0 where
  ends : (from : ℕ) → Descending from []
  next :
      (from : ℕ) (r : Replacement) (rs : List Replacement)
      → r.start ≤ from
      → Descending r.start rs
      → Descending from (r ∷ rs)

Descending-le : (i j : ℕ) (rs : List Replacement) → i ≤ j → Descending i rs → Descending j rs
Descending-le i j [] h (ends _) = ends j
Descending-le i j (r ∷ rs) h (next _ _ _ k d) = next j r rs (omega arith) d

reverse-Descending :
    (n from : ℕ) (rs passed : List Replacement)
    → Ascending n from rs
    → Descending from passed
    → Descending n (reverse_aux rs passed)
reverse-Descending n from [] passed (ends _ h) d = Descending-le from n passed h d
reverse-Descending n from (r ∷ rs) passed (next _ _ _ h a) d =
    reverse-Descending n r.start rs (r ∷ passed) a
      (next r.start r passed (omega arith) (Descending-le from r.start passed h d))

-- No start is beyond `n`.
pub data Within (n : ℕ) : List Replacement → Type 0 where
  ends : Within n []
  next : (r : Replacement) (rs : List Replacement) → r.start ≤ n → Within n rs → Within n (r ∷ rs)

module _ (n : ℕ) where
  pub Within-append : (rs ss : List Replacement) → Within n rs → Within n ss → Within n (rs ++ ss)
  Within-append [] ss ends k = k
  Within-append (r ∷ rs) ss (next _ _ h w) k = next r (rs ++ ss) h (Within-append rs ss w k)

  insert_by_start-Ascending :
      (from : ℕ) (r : Replacement) (rs : List Replacement)
      → from ≤ r.start
      → r.start ≤ n
      → Ascending n from rs
      → Ascending n from (insert_by_start r rs)
  unfolding insert_by_start
  insert_by_start-Ascending from r [] h k a = next from r [] h (ends r.start k)
  insert_by_start-Ascending from r (s ∷ ss) h k (next _ _ _ i a) =
      by_test (Ascending n from) (leb r.start s.start) _ _
        (λ b. next from r (s ∷ ss) h (next r.start s ss (ground arith) a))
        (λ b. next from s _ i (insert_by_start-Ascending s.start r ss (ground arith) k a))

  pub sort_by_start-Ascending :
      (rs : List Replacement) → Within n rs → Ascending n 0 (sort_by_start rs)
  unfolding sort_by_start
  sort_by_start-Ascending [] ends = ends 0 (omega arith)
  sort_by_start-Ascending (r ∷ rs) (next _ _ h w) =
      insert_by_start-Ascending 0 r _ (omega arith) h (sort_by_start-Ascending rs w)

-- Removals do not cut the lines below the start.
remove_each-le :
    (k start : ℕ) (ls : List Text) → start ≤ length ls → start ≤ length (remove_each k start ls)
unfolding remove_each remove_at
remove_each-le zero start ls h = h
remove_each-le (suc k) start ls h =
    remove_each-le k start (if ltb start (length ls) then remove_at start ls else ls) (
      by_test (λ l. start ≤ length l) (ltb start (length ls)) (remove_at start ls) ls
        (λ b.
          omega
            (arith, length-append (take start ls) (drop (start + 1) ls), length-take start ls, h))
        (λ b. h))

insert_each-Post :
    (i : ℕ) (new ls : List Text) → i ≤ length ls → Post (λ r. i ≤ length r) (insert_each i new ls)
unfolding insert_each insert_at
insert_each-Post i [] ls h = returns ls h
insert_each-Post i (l ∷ new) ls h =
    let grown : List Text = take i ls ++ (l ∷ drop i ls) in
    let g : i + 1 ≤ length grown =
      omega (arith, length-append (take i ls) (l ∷ drop i ls), length-take i ls) in
    Post-bind (λ r. i + 1 ≤ length r) (λ r. i ≤ length r) _ _
      (Post-if (λ r. i + 1 ≤ length r) (leb i (length ls)) (ok grown) panic (λ b. returns grown g)
        (λ b. absurd (ground arith)))
      (λ r k. later (insert_each-Post (i + 1) new r k))
  where
    later : {m : Result (List Text)} → Post (λ r. i + 1 ≤ length r) m → Post (λ r. i ≤ length r) m
    later (returns r k) = returns r (omega arith)
    later (fails e) = fails e

replace_each-Post :
    (rs : List Replacement) (ls : List Text)
    → Descending (length ls) rs
    → Post {A = List Text} (λ r. Unit {0}) (replace_each rs ls)
unfolding replace_each replace_one
replace_each-Post [] ls d = returns ls tt
replace_each-Post (r ∷ rs) ls (next _ _ _ h d) =
    Post-bind (λ l. r.start ≤ length l) (λ l. Unit) _ _
      (insert_each-Post r.start r.new_lines _ (remove_each-le r.old_len r.start ls h))
      (λ l k. replace_each-Post rs l (Descending-le r.start (length l) rs k d))

pub apply_replacements-Post :
    (ls : List Text) (rs : List Replacement)
    → Ascending (length ls) 0 rs
    → Post {A = List Text} (λ r. Unit {0}) (apply_replacements ls rs)
unfolding apply_replacements
apply_replacements-Post ls rs a =
    replace_each-Post (reverse rs) ls (reverse-Descending (length ls) 0 rs [] a (ends 0))
