-- ===== src/ApplyPatch/Update/Replace.antt =====
-- `apply_replacements`: the replacements from the last one back, each by removals and insertions.
use mathlib.Core.List.{reverse}
use agent_pane.Prelude.{
  ℕ, zero, suc, ◌+◌, List, [], ◌∷◌, ◌++◌, Text, length, take, drop, leb, ltb, if◌then◌else◌,
}
use agent_pane.Execution.{Result, ok, panic, ◌>>=◌}

pub record Replacement : Type 0 where
  pub start : ℕ
  pub old_len : ℕ
  pub new_lines : List Text

-- `Vec::remove` where the index is in range.
unfoldable pub remove_at : ℕ → List Text → List Text
remove_at i ls = take i ls ++ drop (i + 1) ls

-- The loop of bounds-checked removals.
unfoldable pub remove_each : ℕ → ℕ → List Text → List Text
unfolding remove_at
remove_each zero start ls = ls
remove_each (suc n) start ls =
    remove_each n start (if ltb start (length ls) then remove_at start ls else ls)

-- `Vec::insert` panics where the index is beyond the end.
unfoldable pub insert_at : ℕ → Text → List Text → Result (List Text)
insert_at i l ls = if leb i (length ls) then ok (take i ls ++ (l ∷ drop i ls)) else panic

unfoldable pub insert_each : ℕ → List Text → List Text → Result (List Text)
unfolding insert_at
insert_each i [] ls = ok ls
insert_each i (n ∷ ns) ls = insert_at i n ls >>= insert_each (i + 1) ns

unfoldable pub replace_one : Replacement → List Text → Result (List Text)
unfolding remove_each insert_each
replace_one r ls = insert_each r.start r.new_lines (remove_each r.old_len r.start ls)

-- The loop in the order of the list.
unfoldable pub replace_each : List Replacement → List Text → Result (List Text)
unfolding replace_one
replace_each [] ls = ok ls
replace_each (r ∷ rs) ls = replace_one r ls >>= replace_each rs

unfoldable pub apply_replacements : List Text → List Replacement → Result (List Text)
unfolding replace_each
apply_replacements ls rs = replace_each (reverse rs) ls
