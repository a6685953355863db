-- ===== src/ApplyPatch/Update/RoundTrip.antt =====
-- `SourceFile::parse` and `into_contents` of update.rs, one behind the other.
use agent_pane.Prelude.{
  ℕ, List, [], ◌∷◌, ◌++◌, ◌≡◌, refl, ap, sym, ◌∙◌, true, Text, ◌==◌, arith, by_test, append-nil,
  append_assoc,
}
use agent_pane.ApplyPatch.Update.Source.{
  LineEnding, lf, crlf, cr, as_str, SourceLine, ended, last_line, parse_from, parse, lines_contents,
  into_contents,
}

==-true : (c d : ℕ) → (c == d) ≡ true → d ≡ c
==-true c d h = ground arith

last_line-contents : (t : Text) → lines_contents (last_line t) ≡ t
unfolding lines_contents last_line
last_line-contents [] = refl
last_line-contents (c ∷ t) = append-nil _

-- A line with its ending, before lines that hold the rest.
ended-contents :
    (t : Text) (ending : LineEnding) (ls : List SourceLine) (s : Text)
    → lines_contents ls ≡ s
    → lines_contents (ended t ending ∷ ls) ≡ t ++ (as_str ending ++ s)
unfolding lines_contents
ended-contents t ending ls s h =
    ap (λ r. (t ++ as_str ending) ++ r) h ∙ append_assoc t (as_str ending) s

parse_from-contents : (t s : Text) → lines_contents (parse_from t s) ≡ t ++ s
unfolding parse_from as_str
parse_from-contents t [] = last_line-contents t ∙ sym (append-nil t)
parse_from-contents t (c ∷ []) =
    let P : List SourceLine → Type 0 = λ ls. lines_contents ls ≡ t ++ c ∷ [] in
    by_test P (c == 13) _ _
      (λ h.
        ended-contents t cr [] [] (unfold lines_contents in refl)
        ∙ ap (λ x. t ++ x ∷ []) (==-true c 13 h))
      (λ n.
        by_test P (c == 10) _ _
          (λ h.
            ended-contents t lf [] [] (unfold lines_contents in refl)
            ∙ ap (λ x. t ++ x ∷ []) (==-true c 10 h))
          (λ n. last_line-contents (t ++ c ∷ [])))
parse_from-contents t (c ∷ d ∷ s) =
    let P : List SourceLine → Type 0 = λ ls. lines_contents ls ≡ t ++ c ∷ d ∷ s in
    by_test P (c == 13) _ _
      (λ h.
        by_test P (d == 10) _ _
          (λ k.
            ended-contents t crlf _ s (parse_from-contents [] s)
            ∙ ap (λ x. t ++ x ∷ 10 ∷ s) (==-true c 13 h)
            ∙ ap (λ x. t ++ c ∷ x ∷ s) (==-true d 10 k))
          (λ n.
            ended-contents t cr _ (d ∷ s) (parse_from-contents [] (d ∷ s))
            ∙ ap (λ x. t ++ x ∷ d ∷ s) (==-true c 13 h)))
      (λ n.
        by_test P (c == 10) _ _
          (λ h.
            ended-contents t lf _ (d ∷ s) (parse_from-contents [] (d ∷ s))
            ∙ ap (λ x. t ++ x ∷ d ∷ s) (==-true c 10 h))
          (λ n. parse_from-contents (t ++ c ∷ []) (d ∷ s) ∙ append_assoc t (c ∷ []) (d ∷ s)))

-- A file that is parsed into lines and written back is the same text: every line ending, also a
-- mixed one, a lone carriage return and a missing one at the end, is kept.
pub into_contents-parse : (contents : Text) → into_contents (parse contents) ≡ contents
unfolding into_contents parse
into_contents-parse contents = parse_from-contents [] contents
