-- ===== src/ApplyPatch/Hunk.antt =====
-- The parsed form of a patch (parser.rs) and how updates treat line endings (lib.rs).
use agent_pane.Prelude.{ℕ, List, [], ◌∷◌, ◌++◌, Option, none, some, Bool, false, Text, length}

-- `ApplyPatchFileUpdateMode`
pub data UpdateMode : Type 0 where
  normalize_to_lf preserve_line_endings : UpdateMode

pub record UpdateFileChunk : Type 0 where
  pub change_context : Option Text
  pub old_lines : List Text
  pub new_lines : List Text
  pub context_line_indices : List (ℕ × ℕ)
  pub is_end_of_file : Bool

-- `UpdateFileChunk::default`
abbrev pub default_chunk : UpdateFileChunk
default_chunk = record {
  change_context = none;
  old_lines = [];
  new_lines = [];
  context_line_indices = [];
  is_end_of_file = false;
}

unfoldable pub push_context_line : Text → UpdateFileChunk → UpdateFileChunk
push_context_line line c = record c {
  context_line_indices = c.context_line_indices ++ (length c.old_lines, length c.new_lines) ∷ [];
  old_lines = c.old_lines ++ line ∷ [];
  new_lines = c.new_lines ++ line ∷ [];
}

pub data Hunk : Type 0 where
  add_file : Text → Text → Hunk
  delete_file : Text → Hunk
  update_file : Text → Option Text → List UpdateFileChunk → Hunk

unfoldable pub source_path : Hunk → Text
source_path (add_file path contents) = path
source_path (delete_file path) = path
source_path (update_file path move_path chunks) = path

unfoldable pub affected_path : Hunk → Text
unfolding source_path
affected_path (update_file path (some destination) chunks) = destination
affected_path (add_file path contents) = source_path (add_file path contents)
affected_path (delete_file path) = source_path (delete_file path)
affected_path (update_file path none chunks) = source_path (update_file path none chunks)
