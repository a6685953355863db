-- ===== src/ApplyPatch/Update.antt =====
-- The new contents of an updated file (platform/packages/tools/apply-patch/src/update.rs): where each
-- chunk applies, and the lines after it.
pub mod Seek
pub mod Source
pub mod Replace
mod RoundTrip
pub mod Sought
pub mod Found
pub mod Fit
pub mod Ascending
pub mod Located
pub mod Chunks
pub mod Safety
mod Tests
use agent_pane.Prelude.{
  ℕ, zero, suc, ◌+◌, ◌-◌, List, [], ◌∷◌, ◌++◌, Bool, true, false, ◌&&◌, ◌||◌, not, Option, none,
  some, Text, length, take, drop, is_empty, leb, ltb, ◌==◌, if◌then◌else◌, on_some,
}
use agent_pane.Execution.{Result, ok, err, panic, invalid_request, ◌>>=◌}
use agent_pane.ApplyPatch.Hunk.{UpdateMode, normalize_to_lf, preserve_line_endings, UpdateFileChunk}
use agent_pane.ApplyPatch.Parser.State.{last?, is_some_and}
use Seek.{seek_sequence}
use Replace.{Replacement, apply_replacements}
use Source.{parse, line_texts, splice_source, into_contents, split_lines, join}

-- The part of a chunk between two context lines.
unfoldable pub gap : ℕ → List Text → ℕ → ℕ → ℕ → ℕ → Result (List Replacement)
gap start replacement old_start new_start old_context new_context =
    if (old_start == old_context) && (new_start == new_context)
    then ok []
    else if ltb old_context old_start
        || ltb new_context new_start
        || ltb (length replacement) new_context
    then panic
    else ok (
        record {
          start = start + old_start;
          old_len = old_context - old_start;
          new_lines = take (new_context - new_start) (drop new_start replacement);
        }
        ∷ [])

-- What stands behind the last context line.
unfoldable pub rest_of_chunk : ℕ → List Text → List Text → ℕ → ℕ → Result (List Replacement)
rest_of_chunk start pattern replacement old_start new_start =
    if (old_start == length pattern) && (new_start == length replacement)
    then ok []
    else if ltb (length pattern) old_start || ltb (length replacement) new_start
    then panic
    else ok (
        record {
          start = start + old_start;
          old_len = length pattern - old_start;
          new_lines = drop new_start replacement;
        }
        ∷ [])

-- The loop over the context lines: they are left as the file has them.
unfoldable pub between_context :
    ℕ → List Text → List Text → ℕ → ℕ → List (ℕ × ℕ) → Result (List Replacement)
unfolding gap rest_of_chunk
between_context start pattern replacement old_start new_start [] =
    rest_of_chunk start pattern replacement old_start new_start
between_context start pattern replacement old_start new_start
      ((old_context, new_context) ∷ indices) =
    let more =
      between_context start pattern replacement (old_context + 1) (new_context + 1) indices in
    if leb (length pattern) old_context || leb (length replacement) new_context
    then rest_of_chunk start pattern replacement old_start new_start
    else (gap start replacement old_start new_start old_context new_context >>= λ g.
        more >>= λ rs. ok (g ++ rs))

unfoldable pub chunk_replacements :
    UpdateMode → UpdateFileChunk → ℕ → List Text → List Text → Result (List Replacement)
unfolding between_context
chunk_replacements normalize_to_lf chunk start pattern replacement =
    ok (record { start = start; old_len = length pattern; new_lines = replacement } ∷ [])
chunk_replacements preserve_line_endings chunk start pattern replacement =
    between_context start pattern replacement 0 0 chunk.context_line_indices

-- Where an insertion without old lines goes: in front of an empty last line, or at the end.
unfoldable pub insertion_point : UpdateMode → List Text → ℕ
unfolding last?
insertion_point normalize_to_lf original =
    if is_some_and is_empty (last? original) then length original - 1 else length original
insertion_point preserve_line_endings original = length original

unfoldable pub drop_last : List Text → List Text
drop_last ls = take (length ls - 1) ls

-- Where the old lines of a chunk are, with the pattern and the replacement that were used: a second
-- try leaves an empty last line out.
unfoldable pub found_as : List Text → List Text → Option ℕ → Option (ℕ × List Text × List Text)
found_as pattern replacement none = none
found_as pattern replacement (some start) = some (start, pattern, replacement)

unfoldable pub locate :
    UpdateMode → List Text → UpdateFileChunk → ℕ → Result (Option (ℕ × List Text × List Text))
unfolding seek_sequence last? drop_last found_as
locate mode original chunk line_index =
    let old = chunk.old_lines in
    let new = chunk.new_lines in
    let shorter = if is_some_and is_empty (last? new) then drop_last new else new in
    let seek : List Text → Result (Option ℕ) =
      λ pattern. seek_sequence original pattern line_index chunk.is_end_of_file mode in
    seek old >>= λ first.
    on_some (found_as old new first) (λ found. ok (some found))
      (if is_some_and is_empty (last? old)
        then (seek (drop_last old) >>= λ second. ok (found_as (drop_last old) shorter second))
        else ok none)

-- The line behind the context of a chunk.
unfoldable pub seek_context : UpdateMode → List Text → Option Text → ℕ → Result ℕ
unfolding seek_sequence
seek_context mode original none line_index = ok line_index
seek_context mode original (some context) line_index =
    seek_sequence original (context ∷ []) line_index false mode >>= λ found.
    on_some found (λ index. ok (index + 1)) (err invalid_request)

-- One chunk: its replacements, and the line to go on from.
unfoldable pub chunk_step :
    UpdateMode → List Text → UpdateFileChunk → ℕ → Result (List Replacement × ℕ)
unfolding seek_context insertion_point locate chunk_replacements
chunk_step mode original chunk line_index =
    seek_context mode original chunk.change_context line_index >>= λ index.
    if is_empty chunk.old_lines
    then ok (
      record { start = insertion_point mode original; old_len = 0; new_lines = chunk.new_lines }
          ∷ [],
      index,
    )
    else (locate mode original chunk index >>= λ found.
        on_some found
          (λ (start, pattern, replacement).
            chunk_replacements mode chunk start pattern replacement >>= λ rs.
            ok (rs, start + length pattern))
          (err invalid_request))

unfoldable pub all_chunks :
    UpdateMode → List Text → List UpdateFileChunk → ℕ → Result (List Replacement)
unfolding chunk_step
all_chunks mode original [] line_index = ok []
all_chunks mode original (chunk ∷ chunks) line_index =
    chunk_step mode original chunk line_index >>= λ (rs, next).
    all_chunks mode original chunks next >>= λ more. ok (rs ++ more)

-- `sort_by_key`, which is stable.
unfoldable pub insert_by_start : Replacement → List Replacement → List Replacement
insert_by_start r [] = r ∷ []
insert_by_start r (s ∷ ss) =
    let rest = insert_by_start r ss in if leb r.start s.start then r ∷ s ∷ ss else s ∷ rest

unfoldable pub sort_by_start : List Replacement → List Replacement
unfolding insert_by_start
sort_by_start [] = []
sort_by_start (r ∷ rs) = insert_by_start r (sort_by_start rs)

unfoldable pub compute_replacements :
    UpdateMode → List Text → List UpdateFileChunk → Result (List Replacement)
unfolding all_chunks sort_by_start
compute_replacements mode original chunks =
    all_chunks mode original chunks 0 >>= λ rs. ok (sort_by_start rs)

-- `original.split('\\n')` without an empty last line, and the join that ends with a newline.
unfoldable pub original_lines : Text → List Text
unfolding split_lines drop_last last?
original_lines original =
    let ls = split_lines original in if is_some_and is_empty (last? ls) then drop_last ls else ls

unfoldable pub with_final_newline : List Text → List Text
unfolding last?
with_final_newline ls = if is_some_and is_empty (last? ls) then ls else ls ++ [] ∷ []

unfoldable pub derive_new_contents : UpdateMode → Text → List UpdateFileChunk → Result Text
unfolding compute_replacements original_lines with_final_newline
derive_new_contents normalize_to_lf original chunks =
    compute_replacements normalize_to_lf (original_lines original) chunks >>= λ rs.
    apply_replacements (original_lines original) rs >>= λ ls. ok (join (with_final_newline ls))
derive_new_contents preserve_line_endings original chunks =
    compute_replacements preserve_line_endings (line_texts (parse original)) chunks >>= λ rs.
    splice_source (parse original) rs >>= λ source. ok (into_contents source)
