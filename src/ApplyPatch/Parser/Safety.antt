-- ===== src/ApplyPatch/Parser/Safety.antt =====
-- The panics of the parser, over whole patches.
use agent_pane.Prelude.{
  ◌+◌, ◌-◌, List, [], ◌∷◌, ◌≡◌, ◌≢◌, refl, Bool, true, false, ◌&&◌, Bool-cases, inl, inr, Text,
  trim, is_empty, length, take, drop, if◌then◌else◌,
}
use agent_pane.ApplyPatch.Parser.{end_patch_marker, ensure_update_not_empty, process_line}
use agent_pane.ApplyPatch.Parser.Error.{ParseError, Parsed, ok, err, panic, ◌>>=◌}
use agent_pane.ApplyPatch.Parser.State.{Mode, not_started, ended_patch, Parser, initial, last?}
use agent_pane.ApplyPatch.Parser.Lines.{
  lines, boundaries_valid, check_boundaries, patch_lines, parse_line, parse_lines, parse_patch,
  ParsedPatch, finished_in,
}
use agent_pane.ApplyPatch.Parser.Post.{Post, returns, fails, Post-if, Post-bind, post_rules}
use agent_pane.ApplyPatch.Parser.Modes.{IsValid, Anything, ensure_hunk-Post, in_mode-Post}

parse_line-Post :
    (is_last : Bool) (line : Text) (p : Parser)
    → IsValid p
    → Post IsValid (parse_line is_last line p)
unfolding parse_line
parse_line-Post is_last line p valid =
    let q : Parser = record p { line_number = p.line_number + 1 } in
    Post-if IsValid _ _ _
      (Post-bind Anything IsValid _ _
        (unfold ensure_update_not_empty in
          ensure_hunk-Post end_patch_marker q.mode q.line_number (last? q.hunks))
        (λ u h. returns _ tt))
      (unfold process_line in in_mode-Post q.mode _ q refl valid)

pub parse_lines-Post : (ls : List Text) (p : Parser) → IsValid p → Post IsValid (parse_lines ls p)
unfolding parse_lines
parse_lines-Post [] p valid = returns p valid
parse_lines-Post (l ∷ ls) p valid =
    Post-bind IsValid IsValid _ _ (parse_line-Post (is_empty ls) l p valid) (parse_lines-Post ls)

-- Where the boundaries are not valid, their check is an error.
refused_boundaries :
    (first last : Bool) (e e' : ParseError)
    → (first && last) ≡ false
    → Post {A = List Text} Anything
        ((if first then (if last then ok (tt {0}) else err e) else err e') >>= λ u. panic)
refused_boundaries true true e e' h = absurd_of h
  where
    absurd_of : true ≡ false → Post {A = List Text} Anything panic
    absurd_of h = cc
refused_boundaries true false e e' h = fails e
refused_boundaries false last e e' h = fails e'

check_boundaries-Post : (ls : List Text) → Post Anything (check_boundaries ls)
unfolding check_boundaries
check_boundaries-Post ls = search post_rules

patch_lines-Post : (ls : List Text) → Post Anything (patch_lines ls)
unfolding patch_lines
patch_lines-Post ls = elim (Bool-cases (boundaries_valid ls)) [
  | inl valid ↦ rw (valid, patch_lines) (returns ls tt)
  | inr invalid ↦
      rw (invalid, patch_lines)
        (Post-if Anything _ _ _
          (Post-bind Anything Anything _ _
            (check_boundaries-Post (take (length ls - 2) (drop 1 ls))) (λ u h. returns _ tt))
          (refused_boundaries _ _ _ _ invalid))
]

finished_in-Post :
    (mode : Mode) (ls : List Text) (p : Parser) → Post Anything (finished_in mode ls p)
unfolding finished_in
finished_in-Post ended_patch ls p = returns _ tt
finished_in-Post not_started ls p = fails _
finished_in-Post _ ls p = fails _

-- Whatever the text, the parser returns a patch or an error: it reaches neither `unreachable!`.
pub parse_patch-ne-panic : (input : Text) → parse_patch input ≢ panic
unfolding parse_patch
parse_patch-ne-panic input e =
    not_panic (parse_patch input)
      (Post-bind Anything Anything _ _ (patch_lines-Post (lines (trim input))) (λ ls h.
        Post-bind IsValid Anything _ _ (parse_lines-Post ls initial tt)
          (λ p v. finished_in-Post p.mode ls p)))
      e
  where
    not_panic : (r : Parsed ParsedPatch) → Post {A = ParsedPatch} Anything r → r ≡ panic → ⊥
    not_panic r (returns a h) e = cc
    not_panic r (fails x) e = cc
