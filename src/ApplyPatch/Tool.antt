-- ===== src/ApplyPatch/Tool.antt =====
-- The tool, the prepared patch and its progress (lib.rs of apply-patch).
use agent_pane.Prelude.{
  ℕ, ◌+◌, List, [], ◌∷◌, ◌++◌, Bool, true, false, ◌||◌, Option, Text, codes, text_eq, length,
  is_some, ◌==◌, if◌then◌else◌,
}
use agent_pane.Execution.{Result, ok, err, ◌>>◌, invalid_request, is_directory, read_only_root}
use agent_pane.Execution.Files.{ExecutionPath, WriteFileRequest, RemovePathRequest}
use agent_pane.Execution.Runtime.{Descriptor, has_read_only}
use agent_pane.PathResolution.{validate_cwd}
use agent_pane.ApplyPatch.Hunk.{Hunk, UpdateMode}

pub record ApplyPatchConfig : Type 0 where
  pub max_patch_bytes : ℕ
  pub max_file_bytes : ℕ
  pub chunk_bytes : ℕ
  pub max_operations : ℕ
  pub update_file_mode : UpdateMode

pub data AppliedPatchChangeKind : Type 0 where
  add modify delete : AppliedPatchChangeKind

pub record AppliedPatchChange : Type 0 where
  pub kind : AppliedPatchChangeKind
  pub path : Text

pub data PreparedOperation : Type 0 where
  write : WriteFileRequest → PreparedOperation
  remove : RemovePathRequest → PreparedOperation

pub record PreparedHunk : Type 0 where
  pub source : ExecutionPath
  pub destination : Option ExecutionPath
  pub hunk : Hunk

pub record PreparedPatch : Type 0 where
  pub version : ℕ
  pub host_id : Text
  pub generation : Text
  pub operation_id : Text
  pub update_file_mode : UpdateMode
  pub hunks : List PreparedHunk
  pub changes : List AppliedPatchChange

pub record RunningPatch : Type 0 where
  pub prepared : PreparedPatch
  pub hunk_index : ℕ
  pub applied_operations : ℕ
  pub pending : List PreparedOperation
  pub next_operation : ℕ

-- `RunningPatch::is_complete`
unfoldable pub is_complete : RunningPatch → Bool
is_complete r = r.hunk_index == length r.prepared.hunks

pub record ApplyPatchOutput : Type 0 where
  pub host_id : Text
  pub changes : List AppliedPatchChange

pub data PatchProgress : Type 0 where
  checkpoint_required : PatchProgress
  complete : ApplyPatchOutput → PatchProgress

-- `PreparedPatch::operation_count`, hunk by hunk
abbrev pub hunk_operations : PreparedHunk → ℕ
hunk_operations h = if is_some h.destination then 2 else 1

unfoldable pub operation_count : List PreparedHunk → ℕ
operation_count [] = 0
operation_count (h ∷ hs) = hunk_operations h + operation_count hs

-- `ApplyPatchOutput::to_text`
abbrev pub kind_eq : AppliedPatchChangeKind → AppliedPatchChangeKind → Bool
kind_eq add add = true
kind_eq modify modify = true
kind_eq delete delete = true
kind_eq _ _ = false

abbrev pub prefix : AppliedPatchChangeKind → ℕ
prefix add = b'A'
prefix modify = b'M'
prefix delete = b'D'

unfoldable pub changes_of_kind : AppliedPatchChangeKind → List AppliedPatchChange → Text
changes_of_kind kind [] = []
changes_of_kind kind (c ∷ cs) =
    let rest = changes_of_kind kind cs in
    if kind_eq c.kind kind then prefix kind ∷ 0x20 ∷ (c.path ++ 10 ∷ rest) else rest

unfoldable pub to_text : ApplyPatchOutput → Text
unfolding changes_of_kind
to_text output =
    codes "Success. Updated the following files:\n"
    ++ (changes_of_kind add output.changes
        ++ (changes_of_kind modify output.changes ++ changes_of_kind delete output.changes))

-- `ApplyPatchTool::validate_target`
unfoldable pub validate_target : Descriptor → ExecutionPath → Result (Unit {0})
unfolding validate_cwd text_eq codes
validate_target host p =
    validate_cwd host p
    >> (if text_eq p.path (codes ".")
        then err is_directory
        else if has_read_only p.root_id host.roots
        then err read_only_root
        else ok tt)

-- `ApplyPatchTool`, without its runtime
pub record Tool : Type 0 where
  pub cwd : ExecutionPath
  pub config : ApplyPatchConfig

unfoldable pub new : Descriptor → ExecutionPath → ApplyPatchConfig → Result Tool
unfolding validate_cwd
new host cwd config =
    validate_cwd host cwd
    >> (if (config.max_patch_bytes == 0)
          || (config.max_file_bytes == 0)
          || (config.chunk_bytes == 0)
          || (config.max_operations == 0)
        then err invalid_request
        else ok (record { cwd = cwd; config = config }))
