-- ===== src/ApplyPatch/InOrder.antt =====
-- The context lines of the chunks that `parse_patch` of parser.rs returns.
pub mod Rules
pub mod Chunks
pub mod Hunks
mod Tests
use agent_pane.Prelude.{
  ℕ, ◌+◌, ◌≤◌, List, [], ◌∷◌, ◌++◌, ◌≡◌, refl, Bool, true, false, Option, none, some, Text, trim,
  trim_end, is_some, on_some, length, arith, All, All-append, length-append, is_empty,
  if◌then◌else◌,
}
use agent_pane.ApplyPatch.Hunk.{
  Hunk, add_file, delete_file, update_file, UpdateFileChunk, default_chunk, push_context_line,
}
use agent_pane.ApplyPatch.Parser.{
  ensure_update_not_empty, push_hunk, handle_marker, set_environment, handle_header, update_content,
  update_marker, update_lines, update_hunk, add_line, set_last, or_else, in_add_file, in_mode,
  process_line, end_patch_marker,
}
use agent_pane.ApplyPatch.Parser.Error.{ParseError, Parsed, ok, err, panic, ◌>>=◌}
use agent_pane.ApplyPatch.Parser.State.{
  Mode, not_started, started_patch, ended_patch, Parser, initial, last?, map_last, with_chunk,
}
use agent_pane.ApplyPatch.Parser.Lines.{
  parse_line, parse_lines, ParsedPatch, finished_in, parse_patch, patch_lines, lines,
}
use agent_pane.ApplyPatch.Update.Chunks.{Increasing, ContextInOrder}
use agent_pane.ApplyPatch.InOrder.Rules.{
  Keeps, returns, fails, panics, Keeps-if, Keeps-option, Keeps-bind, keeps_rules,
}
use agent_pane.ApplyPatch.InOrder.Chunks.{
  Below, Below-Increasing, ChunkInOrder, push_context_line-ChunkInOrder, add_new-ChunkInOrder,
  add_old-ChunkInOrder, All-map_last, default-ChunkInOrder, change-InOrder,
}
use agent_pane.ApplyPatch.InOrder.Hunks.{HasContextInOrder, LastInOrder, update_hunk-InOrder}

abbrev ParserInOrder : Parser → Type 0
ParserInOrder p = All HasContextInOrder p.hunks

abbrev TakenInOrder : Option Parser → Type 0
TakenInOrder none = Unit
TakenInOrder (some p) = ParserInOrder p

Keeps-nothing {ℓ} : {A : Type ℓ} (m : Parsed A) → Keeps (λ a. Unit {0}) m
Keeps-nothing (ok a) = returns a tt
Keeps-nothing (err e) = fails e
Keeps-nothing panic = panics

ensured_taken :
    (line : Text) (p q : Parser)
    → ParserInOrder q
    → Keeps TakenInOrder (ensure_update_not_empty line p >>= λ u. ok (some q))
ensured_taken line p q h =
    Keeps-bind (λ u. Unit) TakenInOrder (ensure_update_not_empty line p) _ (Keeps-nothing _)
      (λ u t. returns (some q) h)

handle_marker-InOrder :
    (line : Text) (p : Parser) → ParserInOrder p → Keeps TakenInOrder (handle_marker line p)
unfolding handle_marker push_hunk
handle_marker-InOrder line p h =
    Keeps-if TakenInOrder _ _ _ (ensured_taken line p (record p { mode = ended_patch }) h) (
      Keeps-option TakenInOrder _ _ _ (λ path. pushed (add_file path []) Mode.add_file tt)
        (Keeps-option TakenInOrder _ _ _ (λ path. pushed (delete_file path) Mode.delete_file tt)
          (Keeps-option TakenInOrder _ _ _
            (λ path. pushed (update_file path none []) (Mode.update_file p.line_number) tt)
            (returns none tt))))
  where
    pushed :
        (k : Hunk) (mode : Mode)
        → HasContextInOrder k
        → Keeps TakenInOrder (
            ensure_update_not_empty line p >>= λ u.
            ok (some (record p { hunks = p.hunks ++ k ∷ []; mode = mode })))
    pushed k mode i =
        ensured_taken line p (record p { hunks = p.hunks ++ k ∷ []; mode = mode })
          (All-append HasContextInOrder p.hunks (k ∷ []) h (i, tt))

handle_header-InOrder :
    (line : Text) (p : Parser) → ParserInOrder p → Keeps TakenInOrder (handle_header line p)
unfolding handle_header set_environment
handle_header-InOrder line p h =
    let marker : Keeps TakenInOrder (handle_marker line p) = handle_marker-InOrder line p h in
    let taken : (e : Text) → Keeps TakenInOrder (ok (some (record p { environment_id = some e }))) =
      λ e. returns (some (record p { environment_id = some e })) h in
    search (keeps_rules, marker, taken) depth 12

set_last-InOrder :
    (k : Hunk) (p : Parser) → HasContextInOrder k → ParserInOrder p → ParserInOrder (set_last k p)
set_last-InOrder k p i h = All-map_last HasContextInOrder (λ _. k) p.hunks (λ x j. i) h

last_hunk : (hs : List Hunk) → All HasContextInOrder hs → LastInOrder (last? hs)
unfolding last?
last_hunk [] h = tt
last_hunk (x ∷ []) (h, hs) = h
last_hunk (x ∷ y ∷ xs) (h, hs) = last_hunk (y ∷ xs) hs

in_add_file-InOrder :
    (line : Text) (p : Parser) → ParserInOrder p → Keeps ParserInOrder (in_add_file line p)
unfolding in_add_file
in_add_file-InOrder line p h =
    Keeps-option ParserInOrder _ _ _ (λ content. added content (last? p.hunks) _) (fails _)
  where
    added :
        (content : Text) (o : Option Hunk) (e : ParseError)
        → Keeps ParserInOrder (on_some (add_line content o) (λ k. ok (set_last k p)) (err e))
    added content none e = fails e
    added content (some (delete_file path)) e = fails e
    added content (some (update_file path move_path cs)) e = fails e
    added content (some (add_file path contents)) e = returns _ (set_last-InOrder _ p tt h)

or_else-InOrder :
    (taken : Option Parser) (rest : Parsed Parser)
    → TakenInOrder taken
    → Keeps ParserInOrder rest
    → Keeps ParserInOrder (or_else taken rest)
or_else-InOrder none rest h k = k
or_else-InOrder (some p) rest h k = returns p h

in_mode-InOrder :
    (mode : Mode) (line : Text) (p : Parser)
    → ParserInOrder p
    → Keeps ParserInOrder (in_mode mode line p)
unfolding in_mode
in_mode-InOrder not_started line p h = Keeps-if ParserInOrder _ _ _ (returns _ h) (fails _)
in_mode-InOrder started_patch line p h =
    Keeps-bind TakenInOrder ParserInOrder _ _ (handle_header-InOrder (trim line) p h)
      (λ taken k. or_else-InOrder taken _ k (fails _))
in_mode-InOrder Mode.delete_file line p h =
    Keeps-bind TakenInOrder ParserInOrder _ _ (handle_header-InOrder (trim line) p h)
      (λ taken k. or_else-InOrder taken _ k (fails _))
in_mode-InOrder Mode.add_file line p h =
    Keeps-bind TakenInOrder ParserInOrder _ _ (handle_header-InOrder (trim line) p h)
      (λ taken k. or_else-InOrder taken _ k (in_add_file-InOrder line p h))
in_mode-InOrder (Mode.update_file n) line p h =
    Keeps-bind TakenInOrder ParserInOrder _ _ (handle_header-InOrder (trim_end line) p h)
      (λ taken k. or_else-InOrder taken _ k (
        Keeps-bind HasContextInOrder ParserInOrder _ _
          (update_hunk-InOrder line (trim_end line) p.line_number (last? p.hunks)
            (last_hunk p.hunks h))
          (λ g i. returns (set_last g p) (set_last-InOrder g p i h))))
in_mode-InOrder ended_patch line p h = Keeps-if ParserInOrder _ _ _ (returns p h) (fails _)

parse_line-InOrder :
    (is_last : Bool) (line : Text) (p : Parser)
    → ParserInOrder p
    → Keeps ParserInOrder (parse_line is_last line p)
unfolding parse_line process_line
parse_line-InOrder is_last line p h =
    let q : Parser = record p { line_number = p.line_number + 1 } in
    Keeps-if ParserInOrder _ _ _
      (Keeps-bind (λ u. Unit) ParserInOrder (ensure_update_not_empty end_patch_marker q) _
        (Keeps-nothing _) (λ u t. returns _ h))
      (in_mode-InOrder q.mode _ q h)

parse_lines-InOrder :
    (ls : List Text) (p : Parser) → ParserInOrder p → Keeps ParserInOrder (parse_lines ls p)
unfolding parse_lines
parse_lines-InOrder [] p h = returns p h
parse_lines-InOrder (l ∷ ls) p h =
    Keeps-bind ParserInOrder ParserInOrder _ _ (parse_line-InOrder (is_empty ls) l p h)
      (parse_lines-InOrder ls)

finished_in-InOrder :
    (mode : Mode) (ls : List Text) (p : Parser)
    → ParserInOrder p
    → Keeps (λ parsed. All HasContextInOrder parsed.hunks) (finished_in mode ls p)
unfolding finished_in
finished_in-InOrder ended_patch ls p h = returns _ h
finished_in-InOrder not_started ls p h = fails _
finished_in-InOrder _ ls p h = fails _

parse_patch-Keeps :
    (input : Text) → Keeps (λ parsed. All HasContextInOrder parsed.hunks) (parse_patch input)
unfolding parse_patch
parse_patch-Keeps input =
    let P : ParsedPatch → Type 0 = λ parsed. All HasContextInOrder parsed.hunks in
    Keeps-bind (λ ls. Unit) P (patch_lines (lines (trim input))) _ (Keeps-nothing _)
      (λ ls t.
        Keeps-bind ParserInOrder P _ _ (parse_lines-InOrder ls initial tt)
          (λ p h. finished_in-InOrder p.mode ls p h))

-- An update of a file takes them so.
pub chunks_in_order : (cs : List UpdateFileChunk) → All ChunkInOrder cs → ContextInOrder cs
chunks_in_order [] h = tt
chunks_in_order (c ∷ cs) (h, hs) =
    (Below-Increasing _ _ 0 0 c.context_line_indices h.0, chunks_in_order cs hs)

-- In the patches that the parser returns, the context indices of every chunk go up, both in its old lines
-- and in its new ones, are in range in both, and name the same line in both.
pub parse_patch-HasContextInOrder :
    (input : Text) (parsed : ParsedPatch)
    → parse_patch input ≡ ok parsed
    → All HasContextInOrder parsed.hunks
parse_patch-HasContextInOrder input parsed e = kept (parse_patch input) (parse_patch-Keeps input) e
  where
    kept :
        (m : Parsed ParsedPatch)
        → Keeps {A = ParsedPatch} (λ parsed. All HasContextInOrder parsed.hunks) m
        → m ≡ ok parsed
        → All HasContextInOrder parsed.hunks
    kept m (returns a h) e = same (ok_inj e) h
      where
        ok_inj : {b : ParsedPatch} → ok a ≡ ok b → a ≡ b
        ok_inj e = cc

        same :
            {b : ParsedPatch}
            → a ≡ b
            → All HasContextInOrder a.hunks
            → All HasContextInOrder b.hunks
        same e h = rw e at h
    kept m (fails x) e = absurd (cc)
    kept m panics e = absurd (cc)
