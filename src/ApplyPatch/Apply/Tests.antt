-- ===== src/ApplyPatch/Apply/Tests.antt =====
-- The theorems of reads and steps, at a host that takes every request.
use agent_pane.Prelude.{[], ◌∷◌, ◌≡◌, refl, none, codes, text_eq, arith}
use agent_pane.Execution.{ok}
use agent_pane.Execution.Runtime.Counting.{target, counting}
use agent_pane.Execution.Runtime.Post.{Always}
use agent_pane.ApplyPatch.Hunk.{add_file, normalize_to_lf}
use agent_pane.ApplyPatch.Files.{read_text}
use agent_pane.ApplyPatch.Files.Reading.{WholeFile, read_text-Always}
use agent_pane.ApplyPatch.Tool.{
  AppliedPatchChangeKind, PreparedPatch, RunningPatch, Tool, operation_count,
}
use agent_pane.ApplyPatch.Apply.{start, validate, apply}
use agent_pane.ApplyPatch.Apply.Trace.{Ran, Finishes}
use agent_pane.ApplyPatch.Apply.Applied.{Applied, apply-start}

abbrev tool : Tool
tool = record {
  cwd = target;
  config = record {
    max_patch_bytes = 100;
    max_file_bytes = 100;
    chunk_bytes = 10;
    max_operations = 10;
    update_file_mode = normalize_to_lf;
  };
}

abbrev one_file : PreparedPatch
one_file = record {
  version = 2;
  host_id = codes "h";
  generation = codes "g";
  operation_id = codes "o";
  update_file_mode = normalize_to_lf;
  hunks =
      record { source = target; destination = none; hunk = add_file (codes "a") (codes "x\n") }
      ∷ [];
  changes = record { kind = AppliedPatchChangeKind.add; path = codes "a" } ∷ [];
}

abbrev one_file_running : RunningPatch
one_file_running = record {
  prepared = one_file;
  hunk_index = 0;
  applied_operations = 0;
  pending = [];
  next_operation = 0;
}

starts : start counting.descriptor tool.config one_file ≡ ok one_file_running
unfolding start validate operation_count codes text_eq
starts = refl

read_text-Always_example : Always (WholeFile counting target 100) (read_text counting target 100 10)
read_text-Always_example = read_text-Always counting target 100 10

apply-start_example :
    Finishes
      (λ (last, output) v.
        (last.applied_operations ≡ operation_count one_file.hunks)
        × Applied counting tool one_file 0 (last, output) v)
      (apply counting tool 3 one_file_running 0)
apply-start_example =
    apply-start counting tool one_file one_file_running 3 (refl, tt) starts
      (unfold operation_count in omega arith) 0 0 Ran.nothing
