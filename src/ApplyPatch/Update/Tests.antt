-- ===== src/ApplyPatch/Update/Tests.antt =====
-- Runs of the updates, and their theorems at concrete inputs.
use agent_pane.Prelude.{
  ℕ, ◌≤◌, List, [], ◌∷◌, ◌≡◌, refl, some, false, Text, codes, text_eq, trim, trim_end, arith,
}
use agent_pane.Execution.{ok}
use agent_pane.ApplyPatch.Hunk.{
  UpdateFileChunk, default_chunk, normalize_to_lf, preserve_line_endings,
}
use agent_pane.ApplyPatch.Update.{derive_new_contents}
use agent_pane.ApplyPatch.Update.Seek.{search_start, seek_sequence}
use agent_pane.ApplyPatch.Update.Source.{parse, line_texts, splice_source, into_contents, join}
use agent_pane.ApplyPatch.Update.Replace.{apply_replacements}
use agent_pane.ApplyPatch.Update.Found.{Found, StandsAt, seek_sequence-Found, seek_sequence-exact}
use agent_pane.ApplyPatch.Update.RoundTrip.{into_contents-parse}

abbrev one_to_uno : List UpdateFileChunk
one_to_uno =
    record default_chunk { old_lines = codes "one" ∷ []; new_lines = codes "uno" ∷ [] } ∷ []

normalizes :
    derive_new_contents normalize_to_lf (codes "one\r\ntwo\r\n") one_to_uno
    ≡ ok (codes "uno\ntwo\r\n")
unfolding derive_new_contents codes text_eq trim_end trim apply_replacements join
normalizes = refl

preserves :
    derive_new_contents preserve_line_endings (codes "one\r\ntwo\r\n") one_to_uno
    ≡ ok (codes "uno\r\ntwo\r\n")
unfolding derive_new_contents codes text_eq trim_end trim parse line_texts splice_source
    into_contents
preserves = refl

abbrev three_lines : List Text
three_lines = codes "one" ∷ codes "two" ∷ codes "one" ∷ []

into_contents-parse_example :
    into_contents (parse (codes "one\r\ntwo\r\n")) ≡ codes "one\r\ntwo\r\n"
into_contents-parse_example = into_contents-parse (codes "one\r\ntwo\r\n")

finds_second : seek_sequence three_lines (codes "one" ∷ []) 1 false normalize_to_lf ≡ ok (some 2)
unfolding seek_sequence codes text_eq trim_end trim
finds_second = refl

seek_sequence-Found_example : Found three_lines (codes "one" ∷ []) 1 2
unfolding search_start
seek_sequence-Found_example =
    seek_sequence-Found three_lines (codes "one" ∷ []) 1 false normalize_to_lf 2 refl finds_second

seek_sequence-exact_example :
    (found : ℕ) × ((seek_sequence three_lines (codes "one" ∷ []) 1 false normalize_to_lf
        ≡ ok (some found))
      × ((found ≤ 2) × StandsAt (λ value. value) three_lines (codes "one" ∷ []) found))
unfolding search_start
seek_sequence-exact_example =
    seek_sequence-exact three_lines (codes "one" ∷ []) 1 false normalize_to_lf 2 refl (omega arith)
      (omega arith) refl
