-- ===== src/ApplyPatch/Parser.antt =====
-- The parser of patches (platform/packages/tools/apply-patch/src/parser.rs), line by line.
-- `unreachable!` is a panic; a message is a constructor with the text that it quotes.
pub mod Error
pub mod State
pub mod Lines
pub mod Post
pub mod Modes
pub mod Safety
mod Tests
use agent_pane.Prelude.{
  ℕ, suc, ◌+◌, List, [], ◌∷◌, ◌++◌, Bool, true, false, ◌&&◌, ◌||◌, not, Option, none, some, Text,
  codes, text_eq, trim, trim_end, strip_prefix, starts_with, is_empty, is_some, on_some,
  if◌then◌else◌,
}
use agent_pane.ApplyPatch.Hunk.{
  Hunk, add_file, delete_file, update_file, UpdateFileChunk, default_chunk, push_context_line,
}
use Error.{
  ParseError, invalid_patch, invalid_hunk, first_line, last_line, environment_twice,
  environment_empty, no_lines, empty_update, unexpected_line, expected_context, invalid_header,
  Parsed, ok, err, panic, ◌>>=◌,
}
use State.{
  Mode, not_started, started_patch, ended_patch, Parser, last?, map_last, is_blank, is_some_and,
  with_chunk,
}

abbrev pub begin_patch_marker : Text
begin_patch_marker = codes "*** Begin Patch"

abbrev pub end_patch_marker : Text
end_patch_marker = codes "*** End Patch"

abbrev pub add_file_marker : Text
add_file_marker = codes "*** Add File: "

abbrev pub delete_file_marker : Text
delete_file_marker = codes "*** Delete File: "

abbrev pub update_file_marker : Text
update_file_marker = codes "*** Update File: "

abbrev pub move_to_marker : Text
move_to_marker = codes "*** Move to: "

abbrev pub eof_marker : Text
eof_marker = codes "*** End of File"

abbrev pub change_context_marker : Text
change_context_marker = codes "@@ "

abbrev pub empty_change_context_marker : Text
empty_change_context_marker = codes "@@"

abbrev pub environment_id_marker : Text
environment_id_marker = codes "*** Environment ID:"

abbrev pub update_line_number : Mode → Option ℕ
update_line_number (Mode.update_file n) = some n
update_line_number _ = none

-- The checks on the last hunk where it is an update: `Mode::UpdateFile` with no chunk, and a last
-- chunk with no line.
unfoldable pub ensure_chunks : Text → Mode → ℕ → Text → List UpdateFileChunk → Parsed (Unit {0})
unfolding last?
ensure_chunks line mode line_number path chunks =
    let blank =
      if is_some_and is_blank (last? chunks)
      then err (
          invalid_hunk (if text_eq line end_patch_marker then no_lines else unexpected_line line)
            line_number)
      else ok tt in
    if is_empty chunks
    then on_some (update_line_number mode) (λ n. err (invalid_hunk (empty_update path) n)) blank
    else blank

unfoldable pub ensure_hunk : Text → Mode → ℕ → Option Hunk → Parsed (Unit {0})
unfolding ensure_chunks
ensure_hunk line mode line_number (some (update_file path move_path chunks)) =
    ensure_chunks line mode line_number path chunks
ensure_hunk line mode line_number none = ok tt
ensure_hunk line mode line_number (some (add_file path contents)) = ok tt
ensure_hunk line mode line_number (some (delete_file path)) = ok tt

unfoldable pub ensure_update_not_empty : Text → Parser → Parsed (Unit {0})
unfolding ensure_hunk
ensure_update_not_empty line p = ensure_hunk line p.mode p.line_number (last? p.hunks)

abbrev pub is_started : Mode → Bool
is_started started_patch = true
is_started _ = false

-- `self.hunks.push(...)` and the mode that goes with the hunk
unfoldable pub push_hunk : Hunk → Mode → Parser → Parser
push_hunk h mode p = record p { hunks = p.hunks ++ h ∷ []; mode = mode }

-- A header of a hunk, or the end: `none` where the line is neither.
unfoldable pub handle_marker : Text → Parser → Parsed (Option Parser)
unfolding ensure_update_not_empty push_hunk
handle_marker line p =
    if text_eq line end_patch_marker
    then (ensure_update_not_empty line p >>= λ u. ok (some (record p { mode = ended_patch })))
    else on_some (strip_prefix line add_file_marker)
        (λ path. ensure_update_not_empty line p >>= λ u.
          ok (some (push_hunk (add_file path []) Mode.add_file p)))
        (on_some (strip_prefix line delete_file_marker)
          (λ path. ensure_update_not_empty line p >>= λ u.
            ok (some (push_hunk (delete_file path) Mode.delete_file p)))
          (on_some (strip_prefix line update_file_marker)
            (λ path. ensure_update_not_empty line p >>= λ u.
              ok (some (push_hunk (update_file path none []) (Mode.update_file p.line_number) p)))
            (ok none)))

unfoldable pub set_environment : Text → Parser → Parsed (Option Parser)
set_environment rest p =
    if is_some p.environment_id
    then err (invalid_patch environment_twice)
    else if is_empty (trim rest)
    then err (invalid_patch environment_empty)
    else ok (some (record p { environment_id = some (trim rest) }))

-- `Ok(true)` is the new state, `Ok(false)` is `none`.
unfoldable pub handle_header : Text → Parser → Parsed (Option Parser)
unfolding handle_marker set_environment
handle_header line p =
    if is_started p.mode
    then on_some (strip_prefix line environment_id_marker) (λ rest. set_environment rest p)
        (handle_marker line p)
    else handle_marker line p

-- What an update line that is no marker adds to the last chunk, or to a new one.
unfoldable pub update_content : Text → ℕ → List UpdateFileChunk → Parsed (List UpdateFileChunk)
unfolding with_chunk map_last push_context_line last?
update_content line line_number chunks =
    if is_empty line
    then ok (map_last (push_context_line []) (with_chunk chunks))
    else on_some (strip_prefix line (codes " "))
        (λ context. ok (map_last (push_context_line context) (with_chunk chunks)))
        (on_some (strip_prefix line (codes "+"))
          (λ added. ok (
            map_last (λ c. record c { new_lines = c.new_lines ++ added ∷ [] }) (with_chunk chunks)))
          (on_some (strip_prefix line (codes "-"))
            (λ removed. ok (
              map_last (λ c. record c { old_lines = c.old_lines ++ removed ∷ [] })
                (with_chunk chunks)))
            (err (
              invalid_hunk
                (if is_some_and (λ c. not (is_blank c)) (last? chunks)
                  then expected_context line
                  else unexpected_line line)
                line_number))))

abbrev pub is_context_marker : Text → Bool
is_context_marker update_line =
    text_eq update_line empty_change_context_marker || starts_with update_line change_context_marker

-- The context and end markers of an update, in front of its content.
unfoldable pub update_marker :
    Text → Text → ℕ → List UpdateFileChunk → Parsed (List UpdateFileChunk)
unfolding update_content
update_marker line update_line line_number chunks =
    let blank = is_some_and is_blank (last? chunks) in
    if is_context_marker update_line && blank
    then err (invalid_hunk (unexpected_line line) line_number)
    else if text_eq update_line empty_change_context_marker
    then ok (chunks ++ default_chunk ∷ [])
    else on_some (strip_prefix update_line change_context_marker)
        (λ context. ok (chunks ++ record default_chunk { change_context = some context } ∷ []))
        (if text_eq update_line eof_marker
          then (if blank
              then err (invalid_hunk no_lines line_number)
              else ok (map_last (λ c. record c { is_end_of_file = true }) chunks))
          else update_content line line_number chunks)

-- A line of an update behind `handle_header`: the destination and the chunks after it.
unfoldable pub update_lines :
    Text
    → Text
    → ℕ
    → Option Text
    → List UpdateFileChunk
    → Parsed (Option Text × List UpdateFileChunk)
unfolding update_marker
update_lines line update_line line_number move_path chunks =
    let next = update_marker line update_line line_number chunks >>= λ cs. ok (move_path, cs) in
    let moved =
      if is_empty chunks && not (is_some move_path)
      then on_some (strip_prefix update_line move_to_marker)
          (λ destination. ok (some destination, chunks)) (next)
      else next in
    if is_some_and (λ c. c.is_end_of_file) (last? chunks)
    then (if is_empty update_line
        then ok (move_path, chunks)
        else if not (is_context_marker update_line)
        then err (invalid_hunk (expected_context line) line_number)
        else moved)
    else moved

-- `let Some(Hunk::UpdateFile { .. }) = self.hunks.last_mut() else { unreachable!() }`
unfoldable pub update_hunk : Text → Text → ℕ → Option Hunk → Parsed Hunk
unfolding update_lines
update_hunk line update_line line_number (some (update_file path move_path chunks)) =
    update_lines line update_line line_number move_path chunks >>= λ r.
    ok (update_file path r.0 r.1)
update_hunk line update_line line_number none = panic
update_hunk line update_line line_number (some (add_file path contents)) = panic
update_hunk line update_line line_number (some (delete_file path)) = panic

-- `contents.push_str(content); contents.push('\n')` where the last hunk is an added file.
unfoldable pub add_line : Text → Option Hunk → Option Hunk
add_line content (some (add_file path contents)) =
    some (add_file path (contents ++ (content ++ 10 ∷ [])))
add_line content none = none
add_line content (some (delete_file path)) = none
add_line content (some (update_file path move_path chunks)) = none

abbrev pub set_last : Hunk → Parser → Parser
set_last h p = record p { hunks = map_last (λ _. h) p.hunks }

-- A header is taken; any other line goes on with the rest of the method.
abbrev pub or_else : Option Parser → Parsed Parser → Parsed Parser
or_else (some p) rest = ok p
or_else none rest = rest

unfoldable pub in_add_file : Text → Parser → Parsed Parser
unfolding add_line map_last
in_add_file line p =
    let refused = err (invalid_hunk (invalid_header (trim line)) p.line_number) in
    on_some (strip_prefix line (codes "+"))
      (λ content. on_some (add_line content (last? p.hunks)) (λ h. ok (set_last h p)) (refused))
      (refused)

unfoldable pub in_mode : Mode → Text → Parser → Parsed Parser
unfolding in_add_file update_hunk handle_header
in_mode not_started line p =
    if text_eq (trim line) begin_patch_marker
    then ok (record p { mode = started_patch })
    else err (invalid_patch first_line)
in_mode started_patch line p = handle_header (trim line) p >>= λ taken.
    or_else taken (err (invalid_hunk (invalid_header (trim line)) p.line_number))
in_mode Mode.delete_file line p = handle_header (trim line) p >>= λ taken.
    or_else taken (err (invalid_hunk (invalid_header (trim line)) p.line_number))
in_mode Mode.add_file line p =
    handle_header (trim line) p >>= λ taken. or_else taken (in_add_file line p)
in_mode (Mode.update_file n) line p = handle_header (trim_end line) p >>= λ taken.
    or_else taken
      (update_hunk line (trim_end line) p.line_number (last? p.hunks) >>= λ h. ok (set_last h p))
in_mode ended_patch line p = if is_empty (trim line) then ok p else err (invalid_patch last_line)

unfoldable pub process_line : Text → Parser → Parsed Parser
unfolding in_mode
process_line line p = in_mode p.mode line p
