-- ===== src/ApplyPatch/InOrder/Hunks.antt =====
-- The context lines of a hunk under one line of an update (`process_line` of parser.rs).
use agent_pane.Prelude.{ℕ, List, [], ◌∷◌, ◌++◌, true, Option, none, some, Text, All, All-append}
use agent_pane.ApplyPatch.Hunk.{
  Hunk, add_file, delete_file, update_file, UpdateFileChunk, default_chunk, push_context_line,
}
use agent_pane.ApplyPatch.Parser.{update_content, update_marker, update_lines, update_hunk}
use agent_pane.ApplyPatch.Parser.Error.{ok, ◌>>=◌}
use agent_pane.ApplyPatch.Parser.State.{map_last, with_chunk}
use agent_pane.ApplyPatch.InOrder.Rules.{Keeps, returns, panics, Keeps-bind, keeps_rules}
use agent_pane.ApplyPatch.InOrder.Chunks.{
  ChunkInOrder, push_context_line-ChunkInOrder, add_new-ChunkInOrder, add_old-ChunkInOrder,
  All-map_last, default-ChunkInOrder, change-InOrder,
}

pub update_content-InOrder :
    (line : Text) (n : ℕ) (cs : List UpdateFileChunk)
    → All ChunkInOrder cs
    → Keeps (All ChunkInOrder) (update_content line n cs)
unfolding update_content
update_content-InOrder line n cs h =
    let P : List UpdateFileChunk → Type 0 = All ChunkInOrder in
    let context : (l : Text) → Keeps P (ok (map_last (push_context_line l) (with_chunk cs))) = λ l.
      returns _ (change-InOrder (push_context_line l) cs (push_context_line-ChunkInOrder l) h) in
    let new : (l : Text)
        → Keeps P
            (ok (map_last (λ c. record c { new_lines = c.new_lines ++ l ∷ [] }) (with_chunk cs))) =
      λ l. returns _ (
        change-InOrder (λ c. record c { new_lines = c.new_lines ++ l ∷ [] }) cs
          (add_new-ChunkInOrder l) h) in
    let old : (l : Text)
        → Keeps P
            (ok (map_last (λ c. record c { old_lines = c.old_lines ++ l ∷ [] }) (with_chunk cs))) =
      λ l. returns _ (
        change-InOrder (λ c. record c { old_lines = c.old_lines ++ l ∷ [] }) cs
          (add_old-ChunkInOrder l) h) in
    search (keeps_rules, context, new, old) depth 12

pub update_marker-InOrder :
    (line update_line : Text) (n : ℕ) (cs : List UpdateFileChunk)
    → All ChunkInOrder cs
    → Keeps (All ChunkInOrder) (update_marker line update_line n cs)
unfolding update_marker
update_marker-InOrder line update_line n cs h =
    let P : List UpdateFileChunk → Type 0 = All ChunkInOrder in
    let plain : Keeps P (ok (cs ++ default_chunk ∷ [])) =
      returns _
        (All-append ChunkInOrder cs (default_chunk ∷ []) h (default-ChunkInOrder none, tt)) in
    let context : (l : Text)
        → Keeps P (ok (cs ++ record default_chunk { change_context = some l } ∷ [])) =
      λ l. returns _ (
        All-append ChunkInOrder cs (record default_chunk { change_context = some l } ∷ []) h
          (default-ChunkInOrder (some l), tt)) in
    let end : Keeps P (ok (map_last (λ c. record c { is_end_of_file = true }) cs)) =
      returns _
        (All-map_last ChunkInOrder (λ c. record c { is_end_of_file = true }) cs (λ c k. k) h) in
    let content : Keeps P (update_content line n cs) = update_content-InOrder line n cs h in
    search (keeps_rules, plain, context, end, content) depth 12

abbrev pub MovedInOrder : Option Text × List UpdateFileChunk → Type 0
MovedInOrder (move_path, cs) = All ChunkInOrder cs

pub update_lines-InOrder :
    (line update_line : Text) (n : ℕ) (move_path : Option Text) (cs : List UpdateFileChunk)
    → All ChunkInOrder cs
    → Keeps MovedInOrder (update_lines line update_line n move_path cs)
unfolding update_lines
update_lines-InOrder line update_line n move_path cs h =
    let next : Keeps MovedInOrder
        (update_marker line update_line n cs >>= λ cs. ok (move_path, cs)) =
      Keeps-bind (All ChunkInOrder) MovedInOrder _ _ (update_marker-InOrder line update_line n cs h)
        (λ cs k. returns (move_path, cs) k) in
    let moved : (m : Option Text) → Keeps MovedInOrder (ok (m, cs)) = λ m. returns (m, cs) h in
    search (keeps_rules, next, moved) depth 12

-- The context lines of an update's chunks are in order.
abbrev pub HasContextInOrder : Hunk → Type 0
HasContextInOrder (update_file path move_path cs) = All ChunkInOrder cs
HasContextInOrder (add_file path contents) = Unit
HasContextInOrder (delete_file path) = Unit

abbrev pub LastInOrder : Option Hunk → Type 0
LastInOrder none = Unit
LastInOrder (some h) = HasContextInOrder h

pub update_hunk-InOrder :
    (line update_line : Text) (n : ℕ) (o : Option Hunk)
    → LastInOrder o
    → Keeps HasContextInOrder (update_hunk line update_line n o)
unfolding update_hunk
update_hunk-InOrder line update_line n (some (update_file path move_path cs)) h =
    Keeps-bind MovedInOrder HasContextInOrder _ _
      (update_lines-InOrder line update_line n move_path cs h)
      (λ (m, cs) k. returns (update_file path m cs) k)
update_hunk-InOrder line update_line n (some (add_file path contents)) h = panics
update_hunk-InOrder line update_line n (some (delete_file path)) h = panics
update_hunk-InOrder line update_line n none h = panics
