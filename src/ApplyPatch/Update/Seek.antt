-- ===== src/ApplyPatch/Update/Seek.antt =====
-- `seek_sequence`: the first place where the lines of a pattern stand, by ever looser comparisons.
use agent_pane.Prelude.{
  ℕ, zero, suc, ◌+◌, ◌-◌, max, List, [], ◌∷◌, map, Bool, true, false, ◌&&◌, ◌||◌, Option, none,
  some, Text, text_eq, trim, trim_end, length, drop, is_empty, leb, ltb, ◌==◌, if◌then◌else◌,
}
use agent_pane.Execution.{Result, ok, panic}
use agent_pane.ApplyPatch.Hunk.{UpdateMode, normalize_to_lf, preserve_line_endings}

-- Typographic dashes, quotes and spaces as their ASCII forms.
unfoldable pub plain_character : ℕ → ℕ
plain_character c =
    if (leb 0x2010 c && leb c 0x2015) || c == 0x2212
    then b'-'
    else if leb 0x2018 c && leb c 0x201b
    then 0x27
    else if leb 0x201c c && leb c 0x201f
    then 0x22
    else if c == 0xa0 || (leb 0x2002 c && leb c 0x200a) || c == 0x202f || c == 0x205f || c == 0x3000
    then 0x20
    else c

unfoldable pub normalize_unicode : Text → Text
unfolding plain_character trim
normalize_unicode value = map plain_character (trim value)

-- `lines[..].iter().zip(pattern).all(..)`, the lines being as many as the pattern's
unfoldable pub matches : (Text → Text) → List Text → List Text → Bool
matches normalize lines [] = true
matches normalize [] (p ∷ ps) = false
matches normalize (l ∷ ls) (p ∷ ps) = text_eq (normalize l) (normalize p) && matches normalize ls ps

-- `for index in search_start..=end`, by the number of rounds. A slice out of range is a panic.
unfoldable pub scan : (Text → Text) → List Text → List Text → ℕ → ℕ → Result (Option ℕ)
unfolding matches
scan normalize lines pattern zero index = ok none
scan normalize lines pattern (suc rounds) index =
    let rest = scan normalize lines pattern rounds (index + 1) in
    if ltb (length lines) (index + length pattern)
    then panic
    else if matches normalize (drop index lines) pattern
    then ok (some index)
    else rest

unfoldable pub or_scan : Result (Option ℕ) → Result (Option ℕ) → Result (Option ℕ)
or_scan (ok none) next = next
or_scan found next = found

unfoldable pub search_start : UpdateMode → Bool → ℕ → ℕ → ℕ
search_start normalize_to_lf true start end = end
search_start preserve_line_endings true start end = max end start
search_start mode false start end = start

unfoldable pub seek_sequence : List Text → List Text → ℕ → Bool → UpdateMode → Result (Option ℕ)
unfolding scan or_scan search_start normalize_unicode
seek_sequence lines pattern start eof mode =
    let end = length lines - length pattern in
    let from = search_start mode eof start end in
    let rounds = end + 1 - from in
    if is_empty pattern
    then ok (some start)
    else if ltb (length lines) (length pattern)
    then ok none
    else if ltb end from
    then ok none
    else or_scan (scan (λ value. value) lines pattern rounds from) (
        or_scan (scan trim_end lines pattern rounds from) (
          or_scan (scan trim lines pattern rounds from)
            (scan normalize_unicode lines pattern rounds from)))
