-- ===== src/Edit/Tests.antt =====
-- Runs of the edit tool, and its theorems at concrete inputs.
use agent_pane.Prelude.{
  ◌++◌, arith, [], ◌∷◌, ◌≡◌, refl, true, false, codes, text_eq, trim, starts_with, strip_prefix,
  byte_len,
}
use agent_pane.Execution.{ok, err, invalid_request}
use agent_pane.Execution.Runtime.Sends.{IsQuiet, SendsOnce}
use agent_pane.Execution.Runtime.{pure, call, ◌>>=◌}
use agent_pane.Execution.Files.{WriteFileRequest}
use agent_pane.Execution.Runtime.Counting.{target, counting, NoneSent, OneSent, counting-IsHost}
use agent_pane.Edit.{EditInput, EditState, EditTool, PreparedEdit, prepare, apply}
use agent_pane.Edit.Matching.{replace}
use agent_pane.Edit.Matches.{nowhere}
use agent_pane.Edit.Replaced.{Replaces, ends, replaces}
use agent_pane.Edit.Unique.{replace-Replaces}
use agent_pane.Edit.Replacement.{IsResult, replace-IsResult}
use agent_pane.Edit.Sending.{IsPrepared, IsEdit, IsApplied, prepare-IsPrepared, apply-SendsOnce}

replaces_all :
    replace counting (codes "aaaba") (codes "aa") (codes "c") true 10 0 ≡ (0, ok (codes "caba", 1))
unfolding replace codes starts_with byte_len pure call ◌>>=◌
replaces_all = refl

refuses_overlap :
    replace counting (codes "aaaba") (codes "aa") (codes "c") false 10 0 ≡ (0, err invalid_request)
unfolding replace codes starts_with byte_len pure call ◌>>=◌
refuses_overlap = refl

abbrev AnyWrite : WriteFileRequest → Type 0
AnyWrite request = Unit

abbrev tool : EditTool
tool = record { cwd = target; config = record { max_file_bytes = 10; chunk_bytes = 4 } }

abbrev input : EditInput
input = record {
  file_path = codes "/w/a";
  old_string = codes "A";
  new_string = codes "B";
  replace_all = false;
}

abbrev state : EditState
state = record {
  operation_id = codes "o";
  observed = record { host_id = codes "h"; path = target; revision = codes "1" };
}

abbrev edit : PreparedEdit
edit = record { state = state; content = codes "B"; replacements = 1 }

prepares_edit : prepare counting tool input state 0 ≡ (0, ok edit)
unfolding prepare codes text_eq trim starts_with strip_prefix byte_len pure call ◌>>=◌
prepares_edit = refl

replace-IsResult_example :
    IsQuiet NoneSent OneSent
      (IsResult true (codes "xyx") (120 ∷ []) (codes "z") 10)
      (replace counting (codes "xyx") (120 ∷ []) (codes "z") true 10)
replace-IsResult_example =
    replace-IsResult counting NoneSent OneSent AnyWrite (counting-IsHost AnyWrite) (codes "xyx") 120
      [] (codes "z") 10 true

prepare-IsPrepared_example :
    IsQuiet NoneSent OneSent
      (IsPrepared counting tool input state)
      (prepare counting tool input state)
prepare-IsPrepared_example =
    prepare-IsPrepared counting tool NoneSent OneSent AnyWrite (counting-IsHost AnyWrite) input
      state

apply-SendsOnce_example :
    SendsOnce NoneSent OneSent (IsApplied counting tool edit) (apply counting tool edit)
apply-SendsOnce_example =
    apply-SendsOnce counting tool NoneSent OneSent edit
      (counting-IsHost (IsEdit counting tool edit))

-- Both matches of a text.
twice_replaced : Replaces (120 ∷ []) (codes "z") (120 ∷ 120 ∷ []) (codes "z" ++ (codes "z" ++ [])) 2
twice_replaced =
    replaces [] (120 ∷ []) (codes "z" ++ []) 1 (λ k h. absurd (omega arith))
      (replaces [] [] [] 0 (λ k h. absurd (omega arith)) (ends [] (nowhere 120 [])))

replace-Replaces_example :
    IsQuiet NoneSent OneSent
      (λ result. (result.0 ≡ codes "z" ++ (codes "z" ++ [])) × (result.1 ≡ 2))
      (replace counting (120 ∷ 120 ∷ []) (120 ∷ []) (codes "z") true 10)
replace-Replaces_example =
    replace-Replaces counting NoneSent OneSent AnyWrite (counting-IsHost AnyWrite) (120 ∷ 120 ∷ [])
      120 [] (codes "z") 10 (codes "z" ++ (codes "z" ++ [])) 2 twice_replaced
