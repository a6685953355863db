-- ===== src/ApplyPatch/Update/Safety.antt =====
-- The panics of an update (update.rs), in both modes.
use agent_pane.Prelude.{ℕ, ◌+◌, List, [], ◌∷◌, Text, length, ltb, arith}
use agent_pane.Execution.{panic}
use agent_pane.Execution.Post.{Post, returns, Post-if, Post-bind}
use agent_pane.ApplyPatch.Hunk.{UpdateMode, normalize_to_lf, preserve_line_endings, UpdateFileChunk}
use agent_pane.ApplyPatch.Update.{
  sort_by_start, compute_replacements, original_lines, derive_new_contents,
}
use agent_pane.ApplyPatch.Update.Replace.{Replacement}
use agent_pane.ApplyPatch.Update.Source.{
  LineEnding, SourceLine, SourceFile, parse, line_texts, splice_lines, splice_source,
}
use agent_pane.ApplyPatch.Update.Fit.{Ordered, sort_by_start-Ordered}
use agent_pane.ApplyPatch.Update.Ascending.{
  Ascending, sort_by_start-Ascending, apply_replacements-Post,
}
use agent_pane.ApplyPatch.Update.Located.{Fits}
use agent_pane.ApplyPatch.Update.Chunks.{ContextInOrder, all_chunks-Post}

splice_lines-Post :
    (ending : LineEnding) (n from : ℕ) (ls : List SourceLine) (rs : List Replacement)
    → Ordered n from rs
    → Post {A = List SourceLine} (λ r. Unit {0}) (splice_lines ending ls from rs)
unfolding splice_lines
splice_lines-Post ending n from ls [] o = returns ls tt
splice_lines-Post ending n from ls (r ∷ rs) (Ordered.next _ _ _ h o) =
    Post-if (λ r. Unit) (ltb r.start from) panic _ (λ b. absurd (ground arith))
      (λ b.
        Post-bind (λ r. Unit) (λ r. Unit) _ _
          (splice_lines-Post ending n (r.start + r.old_len) _ rs o) (λ ls u. returns _ tt))

normalized-Post :
    (original : Text) (chunks : List UpdateFileChunk)
    → ContextInOrder chunks
    → Post {A = Text} (λ t. Unit {0}) (derive_new_contents normalize_to_lf original chunks)
unfolding derive_new_contents compute_replacements
normalized-Post original chunks c =
    let ls : List Text = original_lines original in
    Post-bind (Ascending (length ls) 0) (λ t. Unit) _ _
      (Post-bind (Fits normalize_to_lf (length ls) 0) (Ascending (length ls) 0) _ _
        (all_chunks-Post normalize_to_lf ls chunks 0 (omega arith) c)
        (λ rs (h, w). returns (sort_by_start rs) (sort_by_start-Ascending (length ls) rs w)))
      (λ rs a.
        Post-bind (λ l. Unit) (λ t. Unit) _ _ (apply_replacements-Post ls rs a)
          (λ l u. returns _ tt))

preserved-Post :
    (original : Text) (chunks : List UpdateFileChunk)
    → ContextInOrder chunks
    → Post {A = Text} (λ t. Unit {0}) (derive_new_contents preserve_line_endings original chunks)
unfolding derive_new_contents compute_replacements splice_source
preserved-Post original chunks c =
    let ls : List Text = line_texts (parse original) in
    let f : SourceFile = parse original in
    Post-bind (Ordered (length ls) 0) (λ t. Unit) _ _
      (Post-bind (Fits preserve_line_endings (length ls) 0) (Ordered (length ls) 0) _ _
        (all_chunks-Post preserve_line_endings ls chunks 0 (omega arith) c)
        (λ rs s. returns (sort_by_start rs) (sort_by_start-Ordered (length ls) 0 rs s)))
      (λ rs o.
        Post-bind (λ g. Unit {0}) (λ t. Unit {0}) _ _
          (Post-bind (λ l. Unit {0}) (λ g. Unit {0}) _ _
            (splice_lines-Post f.preferred_ending (length ls) 0 f.lines rs o) (λ l u. returns _ tt))
          (λ g u. returns _ tt))

pub derive_new_contents-Post :
    (mode : UpdateMode) (original : Text) (chunks : List UpdateFileChunk)
    → ContextInOrder chunks
    → Post {A = Text} (λ t. Unit {0}) (derive_new_contents mode original chunks)
derive_new_contents-Post normalize_to_lf original chunks c = normalized-Post original chunks c
derive_new_contents-Post preserve_line_endings original chunks c = preserved-Post original chunks c
