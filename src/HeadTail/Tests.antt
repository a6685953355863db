-- ===== src/HeadTail/Tests.antt =====
-- Runs of the buffer, and its theorems at concrete inputs.
use agent_pane.Prelude.{List, [], ◌∷◌, ◌≡◌, refl, ℕ, ◌≤◌, ◌+◌, length, arith}
use agent_pane.Prelude.Machine.{saturating_add}
use agent_pane.HeadTail.{new, push, push_all, push_tail, total_bytes, retained_bytes}
use agent_pane.HeadTail.Refinement.{Represents, concat, push_all-Represents, totals_of_Represents}

abbrev chunks : List (List ℕ)
chunks = (1 ∷ 2 ∷ 3 ∷ []) ∷ [] ∷ (4 ∷ 5 ∷ 6 ∷ 7 ∷ []) ∷ []

keeps_both_ends :
    push_all (new 4) chunks
    ≡ record { head = 1 ∷ 2 ∷ []; tail = 6 ∷ 7 ∷ []; max_bytes = 4; omitted_bytes = 3 }
unfolding push_all push push_tail new saturating_add
keeps_both_ends = refl

push_all-Represents_example : Represents 4 (push_all (new 4) chunks) (concat chunks)
push_all-Represents_example = push_all-Represents 4 chunks (omega arith)

totals_of_Represents_example :
    (total_bytes (push_all (new 4) chunks) ≡ length (concat chunks))
    × (retained_bytes (push_all (new 4) chunks) ≤ 4)
    × (retained_bytes (push_all (new 4) chunks) + (push_all (new 4) chunks).omitted_bytes
        ≡ length (concat chunks))
totals_of_Represents_example =
    totals_of_Represents 4 (push_all (new 4) chunks) (concat chunks) (omega arith)
      push_all-Represents_example
