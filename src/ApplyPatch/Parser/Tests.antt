-- ===== src/ApplyPatch/Parser/Tests.antt =====
-- Runs of the parser, and its theorems at concrete inputs.
use agent_pane.Prelude.{
  List, [], ◌∷◌, ◌≡◌, ◌≢◌, refl, Text, codes, some, none, false, trim, text_eq, starts_with,
}
use agent_pane.ApplyPatch.Hunk.{Hunk, add_file, update_file}
use agent_pane.ApplyPatch.Parser.Error.{Parsed, ok, panic}
use agent_pane.ApplyPatch.Parser.Lines.{parse_patch, ParsedPatch}
use agent_pane.ApplyPatch.Parser.Safety.{parse_patch-ne-panic}

abbrev sample : Text
sample =
    codes
      "*** Begin Patch\n*** Add File: a\n+x\n*** Update File: b\n@@ f\n-o\n+n\n c\n*** End Patch\n"

hunks_of : Parsed ParsedPatch → List Hunk
hunks_of (ok p) = p.hunks
hunks_of _ = []

parses_sample :
    hunks_of (parse_patch sample)
    ≡ add_file (codes "a") (codes "x\n")
      ∷ update_file (codes "b") none (
          record {
            change_context = some (codes "f");
            old_lines = codes "o" ∷ codes "c" ∷ [];
            new_lines = codes "n" ∷ codes "c" ∷ [];
            context_line_indices = (1, 1) ∷ [];
            is_end_of_file = false;
          }
          ∷ [])
      ∷ []
unfolding parse_patch hunks_of codes trim text_eq starts_with
parses_sample = refl

parse_patch-ne-panic_example : parse_patch sample ≢ panic
parse_patch-ne-panic_example = parse_patch-ne-panic sample
