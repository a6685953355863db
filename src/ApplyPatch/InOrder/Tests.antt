-- ===== src/ApplyPatch/InOrder/Tests.antt =====
-- The order of context in a parsed patch, at a concrete input.
use agent_pane.Prelude.{
  [], ◌∷◌, ◌≡◌, refl, Text, codes, some, none, false, trim, text_eq, starts_with, All,
}
use agent_pane.ApplyPatch.Hunk.{update_file}
use agent_pane.ApplyPatch.Parser.Error.{ok}
use agent_pane.ApplyPatch.Parser.Lines.{parse_patch, ParsedPatch}
use agent_pane.ApplyPatch.InOrder.{parse_patch-HasContextInOrder}
use agent_pane.ApplyPatch.InOrder.Hunks.{HasContextInOrder}

abbrev sample : Text
sample = codes "*** Begin Patch\n*** Update File: b\n@@ f\n-o\n+n\n c\n*** End Patch\n"

abbrev sample_patch : ParsedPatch
sample_patch = record {
  patch = codes "*** Begin Patch\n*** Update File: b\n@@ f\n-o\n+n\n c\n*** End Patch";
  hunks =
      update_file (codes "b") none (
        record {
          change_context = some (codes "f");
          old_lines = codes "o" ∷ codes "c" ∷ [];
          new_lines = codes "n" ∷ codes "c" ∷ [];
          context_line_indices = (1, 1) ∷ [];
          is_end_of_file = false;
        }
        ∷ [])
      ∷ [];
  environment_id = none;
}

parses_sample_patch : parse_patch sample ≡ ok sample_patch
unfolding parse_patch codes trim text_eq starts_with
parses_sample_patch = refl

parse_patch-HasContextInOrder_example : All HasContextInOrder sample_patch.hunks
parse_patch-HasContextInOrder_example =
    parse_patch-HasContextInOrder sample sample_patch parses_sample_patch
