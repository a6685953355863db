-- ===== src/ApplyPatch/Prepare/Tests.antt =====
-- A run of the preparation, and its theorems at a concrete patch.
use agent_pane.Prelude.{
  [], ◌∷◌, ◌≡◌, refl, Text, codes, none, text_eq, trim, starts_with, strip_prefix, byte_len,
}
use agent_pane.Execution.{ok, err, invalid_request}
use agent_pane.Execution.Runtime.{pure, call, ◌>>=◌}
use agent_pane.Execution.Runtime.Sends.{IsQuiet}
use agent_pane.Execution.Runtime.Counting.{counting, NoneSent, OneSent, counting-IsHost}
use agent_pane.ApplyPatch.Hunk.{add_file, normalize_to_lf, affected_path}
use agent_pane.ApplyPatch.Tool.{AppliedPatchChangeKind, Tool}
use agent_pane.ApplyPatch.Prepare.{prepare}
use agent_pane.ApplyPatch.Prepare.Ready.{IsReady, prepare-IsReady}

abbrev tool : Tool
tool = record {
  cwd = record { root_id = codes "r"; path = codes "." };
  config = record {
    max_patch_bytes = 100;
    max_file_bytes = 100;
    chunk_bytes = 10;
    max_operations = 10;
    update_file_mode = normalize_to_lf;
  };
}

abbrev patch : Text
patch = codes "*** Begin Patch\n*** Add File: d/../b\n+x\n*** End Patch\n"

abbrev twice : Text
twice = codes "*** Begin Patch\n*** Add File: b\n+x\n*** Add File: ./b\n+y\n*** End Patch\n"

prepares_patch : prepare counting tool patch (codes "o") 0 ≡ (
  0,
  ok (record {
    version = 2;
    host_id = codes "h";
    generation = codes "g";
    operation_id = codes "o";
    update_file_mode = normalize_to_lf;
    hunks =
        record {
          source = record { root_id = codes "r"; path = codes "b" };
          destination = none;
          hunk = add_file (codes "d/../b") (codes "x\n");
        }
        ∷ [];
    changes = record { kind = AppliedPatchChangeKind.add; path = codes "d/../b" } ∷ [];
  }),
)
unfolding prepare affected_path codes text_eq trim starts_with strip_prefix byte_len pure call ◌>>=◌
prepares_patch = refl

refuses_twice : prepare counting tool twice (codes "o") 0 ≡ (0, err invalid_request)
unfolding prepare codes text_eq trim starts_with strip_prefix byte_len pure call ◌>>=◌
refuses_twice = refl

prepare-IsReady_example :
    IsQuiet NoneSent OneSent (IsReady counting tool patch) (prepare counting tool patch (codes "o"))
prepare-IsReady_example =
    prepare-IsReady counting tool NoneSent OneSent (λ request. Unit)
      (counting-IsHost (λ request. Unit)) patch (codes "o")
