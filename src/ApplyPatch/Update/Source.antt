-- ===== src/ApplyPatch/Update/Source.antt =====
-- A file as its lines with their endings, and the texts split and joined at newlines.
use agent_pane.Prelude.{
  ℕ, ◌+◌, ◌-◌, List, [], ◌∷◌, ◌++◌, map, Option, none, some, Text, take, drop, is_empty, ltb, ◌==◌,
  if◌then◌else◌,
}
use agent_pane.Execution.{Result, ok, panic, ◌>>=◌}
use agent_pane.ApplyPatch.Update.Replace.{Replacement}

pub data LineEnding : Type 0 where
  lf crlf cr : LineEnding

-- `LineEnding::as_str`
unfoldable pub as_str : LineEnding → Text
as_str lf = 10 ∷ []
as_str crlf = 13 ∷ 10 ∷ []
as_str cr = 13 ∷ []

pub record SourceLine : Type 0 where
  pub text : Text
  pub ending : Option LineEnding

pub record SourceFile : Type 0 where
  pub lines : List SourceLine
  pub preferred_ending : LineEnding

abbrev pub ended : Text → LineEnding → SourceLine
ended text ending = record { text = text; ending = some ending }

-- The loop of `parse`; the first text is what stands between `line_start` and `cursor`. The text
-- that is left at the end is a line without an ending, unless it is empty.
unfoldable pub last_line : Text → List SourceLine
last_line text = if is_empty text then [] else record { text = text; ending = none } ∷ []

unfoldable pub parse_from : Text → Text → List SourceLine
unfolding last_line
parse_from text [] = last_line text
parse_from text (c ∷ []) =
    if c == 13
    then ended text cr ∷ []
    else if c == 10
    then ended text lf ∷ []
    else last_line (text ++ c ∷ [])
parse_from text (c ∷ d ∷ s) =
    let behind_crlf = parse_from [] s in
    let behind = parse_from [] (d ∷ s) in
    let further = parse_from (text ++ c ∷ []) (d ∷ s) in
    if c == 13
    then (if d == 10 then ended text crlf ∷ behind_crlf else ended text cr ∷ behind)
    else if c == 10
    then ended text lf ∷ behind
    else further

-- The first ending that was met: only the last line can be without one.
unfoldable pub first_ending : List SourceLine → LineEnding
first_ending [] = lf
first_ending (l ∷ ls) = elim (l.ending) [ none ↦ lf | some ending ↦ ending ]

unfoldable pub parse : Text → SourceFile
unfolding parse_from first_ending
parse contents = record {
  lines = parse_from [] contents;
  preferred_ending = first_ending (parse_from [] contents);
}

unfoldable pub line_texts : SourceFile → List Text
line_texts f = map (λ l. l.text) f.lines

-- The loop over the replacements, which are in order; `start - source_index` below 0 panics.
unfoldable pub splice_lines :
    LineEnding → List SourceLine → ℕ → List Replacement → Result (List SourceLine)
splice_lines ending source source_index [] = ok source
splice_lines ending source source_index (r ∷ rs) =
    let kept = take (r.start - source_index) source in
    let new = map (λ text. ended text ending) r.new_lines in
    let left = drop r.old_len (drop (r.start - source_index) source) in
    let more = splice_lines ending left (r.start + r.old_len) rs in
    if ltb r.start source_index then panic else (more >>= λ ls. ok (kept ++ (new ++ ls)))

-- `line.ending.get_or_insert(self.preferred_ending)`
unfoldable pub with_ending : LineEnding → SourceLine → SourceLine
with_ending ending l = elim (l.ending) [ none ↦ ended l.text ending | some e ↦ l ]

unfoldable pub splice_source : SourceFile → List Replacement → Result SourceFile
unfolding splice_lines with_ending
splice_source f rs = splice_lines f.preferred_ending f.lines 0 rs >>= λ ls.
    ok (record f { lines = map (with_ending f.preferred_ending) ls })

unfoldable pub line_contents : SourceLine → Text
unfolding as_str
line_contents l = elim (l.ending) [ none ↦ l.text | some ending ↦ l.text ++ as_str ending ]

unfoldable pub lines_contents : List SourceLine → Text
unfolding line_contents
lines_contents [] = []
lines_contents (l ∷ ls) = line_contents l ++ lines_contents ls

unfoldable pub into_contents : SourceFile → Text
unfolding lines_contents
into_contents f = lines_contents f.lines

-- `str::split('\n')` and `[..].join("\n")`
abbrev push_front : ℕ → List Text → List Text
push_front c [] = (c ∷ []) ∷ []
push_front c (l ∷ ls) = (c ∷ l) ∷ ls

unfoldable pub split_lines : Text → List Text
split_lines [] = [] ∷ []
split_lines (c ∷ s) = let rest = split_lines s in if c == 10 then [] ∷ rest else push_front c rest

unfoldable pub join : List Text → Text
join [] = []
join (l ∷ []) = l
join (l ∷ m ∷ ls) = l ++ (10 ∷ join (m ∷ ls))
