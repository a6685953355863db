-- ===== src/ApplyPatch/Parser/Lines.antt =====
-- A whole patch: its lines, the legacy wrapper, the loop over the lines.
use mathlib.Core.List.{reverse}
use agent_pane.Prelude.{
  ℕ, ◌+◌, ◌-◌, List, [], ◌∷◌, ◌++◌, map, Bool, ◌&&◌, ◌||◌, Option, none, some, Text, codes, text_eq,
  trim, strip_prefix, is_empty, is_some, length, take, drop, leb, ◌==◌, if◌then◌else◌,
}
use agent_pane.ApplyPatch.Hunk.{Hunk}
use agent_pane.ApplyPatch.Parser.{
  begin_patch_marker, end_patch_marker, ensure_update_not_empty, process_line,
}
use agent_pane.ApplyPatch.Parser.Error.{
  invalid_patch, first_line, last_line, Parsed, ok, err, panic, ◌>>=◌,
}
use agent_pane.ApplyPatch.Parser.State.{Mode, ended_patch, Parser, initial, last?, is_some_and}

-- `str::strip_suffix`
unfoldable pub strip_suffix : Text → Text → Option Text
unfolding strip_prefix
strip_suffix s suffix = elim (strip_prefix (reverse s) (reverse suffix)) [
  | none ↦ none
  | some t ↦ some (reverse t)
]

-- `str::ends_with`
unfoldable pub ends_with : Text → Text → Bool
unfolding strip_suffix
ends_with s suffix = is_some (strip_suffix s suffix)

-- `split_inclusive('\n')`
abbrev push_front : ℕ → List Text → List Text
push_front c [] = (c ∷ []) ∷ []
push_front c (l ∷ ls) = (c ∷ l) ∷ ls

unfoldable pub split_inclusive : Text → List Text
split_inclusive [] = []
split_inclusive (c ∷ s) =
    let rest = split_inclusive s in if c == 10 then (10 ∷ []) ∷ rest else push_front c rest

-- A line without its `\n`, and without a `\r` in front of that.
abbrev pub or_self : Text → Option Text → Text
or_self s none = s
or_self s (some t) = t

unfoldable pub chomp : Text → Text
unfolding strip_suffix
chomp s = elim (strip_suffix s (10 ∷ [])) [
  | none ↦ s
  | some t ↦ or_self t (strip_suffix t (13 ∷ []))
]

-- `str::lines`
unfoldable pub lines : Text → List Text
unfolding split_inclusive chomp
lines s = map chomp (split_inclusive s)

-- `[..].join("\n")`
unfoldable pub join_lines : List Text → Text
join_lines [] = []
join_lines (l ∷ []) = l
join_lines (l ∷ m ∷ ls) = l ++ (10 ∷ join_lines (m ∷ ls))

abbrev pub trims_to : Text → Text → Bool
trims_to marker line = text_eq (trim line) marker

abbrev pub head? : List Text → Option Text
head? [] = none
head? (l ∷ ls) = some l

unfoldable pub boundaries_valid : List Text → Bool
unfolding last?
boundaries_valid ls =
    is_some_and (trims_to begin_patch_marker) (head? ls)
    && is_some_and (trims_to end_patch_marker) (last? ls)

unfoldable pub check_boundaries : List Text → Parsed (Unit {0})
unfolding last?
check_boundaries ls =
    if is_some_and (trims_to begin_patch_marker) (head? ls)
    then (if is_some_and (trims_to end_patch_marker) (last? ls)
        then ok tt
        else err (invalid_patch last_line))
    else err (invalid_patch first_line)

-- `[first, .., last]`, the names of the wrapper, and its four lines at least
abbrev opens_heredoc : Text → Bool
opens_heredoc first =
    text_eq first (codes "<<EOF")
    || text_eq first (codes "<<'EOF'")
    || text_eq first (codes "<<\"EOF\"")

unfoldable pub is_wrapped : List Text → Bool
unfolding last? ends_with
is_wrapped ls =
    leb 2 (length ls)
    && is_some_and opens_heredoc (head? ls)
    && is_some_and (λ last. ends_with last (codes "EOF")) (last? ls)
    && leb 4 (length ls)

unfoldable pub patch_lines : List Text → Parsed (List Text)
unfolding boundaries_valid is_wrapped check_boundaries
patch_lines ls =
    if boundaries_valid ls
    then ok ls
    else (let inner = take (length ls - 2) (drop 1 ls) in
        if is_wrapped ls
        then (check_boundaries inner >>= λ u. ok inner)
        else (check_boundaries ls >>= λ u. panic))

-- One line of the loop; `is_last` is `index + 1 == lines.len()`.
unfoldable pub parse_line : Bool → Text → Parser → Parsed Parser
unfolding process_line ensure_update_not_empty
parse_line is_last line p =
    let q = record p { line_number = p.line_number + 1 } in
    if is_last && text_eq (trim line) end_patch_marker
    then (ensure_update_not_empty end_patch_marker q >>= λ u. ok (record q { mode = ended_patch }))
    else process_line (or_self line (strip_suffix line (13 ∷ []))) q

unfoldable pub parse_lines : List Text → Parser → Parsed Parser
unfolding parse_line
parse_lines [] p = ok p
parse_lines (l ∷ ls) p = parse_line (is_empty ls) l p >>= parse_lines ls

pub record ParsedPatch : Type 0 where
  pub patch : Text
  pub hunks : List Hunk
  pub environment_id : Option Text

-- The check of the mode behind the loop.
unfoldable pub finished_in : Mode → List Text → Parser → Parsed ParsedPatch
unfolding join_lines
finished_in ended_patch ls p =
    ok (record { patch = join_lines ls; hunks = p.hunks; environment_id = p.environment_id })
finished_in _ ls p = err (invalid_patch last_line)

abbrev pub finished : List Text → Parser → Parsed ParsedPatch
finished ls p = finished_in p.mode ls p

unfoldable pub parse_patch : Text → Parsed ParsedPatch
unfolding lines patch_lines parse_lines finished_in
parse_patch input =
    patch_lines (lines (trim input)) >>= λ ls. parse_lines ls initial >>= finished ls
