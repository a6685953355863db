-- ===== src/Edit.antt =====
-- The tool `edit` (platform/packages/tools/edit/src/lib.rs): exact texts replaced in what was observed of
-- a file, prepared by reads alone and applied by one conditional write.
pub mod Matching
pub mod Content
pub mod Matches
pub mod Replaced
pub mod Filling
pub mod Unique
pub mod Replacing
pub mod Replacement
pub mod Reading
pub mod Sending
mod Tests
use agent_pane.Prelude.{
  ℕ, min, Bool, true, false, ◌||◌, not, Option, none, some, Text, codes, text_eq, byte_len,
  is_empty, ltb, ◌==◌, if◌then◌else◌,
}
use agent_pane.Execution.{
  Result, ok, err, ◌>>◌, and_then, invalid_request, resource_exhausted, is_directory,
  read_only_root,
}
use agent_pane.Execution.Files.{ExecutionPath, path_eq}
use agent_pane.Execution.Runtime.{
  Descriptor, has_read_only, or_max, Runtime, Io, pure, call, continue, ◌>>=◌,
}
use agent_pane.PathResolution.{validate_cwd, resolve_path}
use agent_pane.Write.{ObservedFile, WriteTool, WriteOutput, execute}
use agent_pane.Write
use agent_pane.Edit.Matching.{replace}
use agent_pane.Edit.Content.{read}

pub record EditInput : Type 0 where
  pub file_path : Text
  pub old_string : Text
  pub new_string : Text
  pub replace_all : Bool

pub record EditConfig : Type 0 where
  pub max_file_bytes : ℕ
  pub chunk_bytes : ℕ

pub record EditState : Type 0 where
  pub operation_id : Text
  pub observed : ObservedFile

pub record PreparedEdit : Type 0 where
  pub state : EditState
  pub content : Text
  pub replacements : ℕ

pub record EditOutput : Type 0 where
  pub host_id : Text
  pub path : ExecutionPath
  pub replacements : ℕ
  pub bytes_written : ℕ
  pub revision : Text

-- `EditTool`, without its runtime
pub record EditTool : Type 0 where
  pub cwd : ExecutionPath
  pub config : EditConfig

unfoldable pub new : Descriptor → ExecutionPath → EditConfig → Result EditTool
unfolding validate_cwd
new host cwd config =
    validate_cwd host cwd
    >> (if (config.max_file_bytes == 0) || (config.chunk_bytes == 0)
        then err invalid_request
        else ok (record { cwd = cwd; config = config }))

-- `EditTool::validate_observation`
unfoldable pub validate_observation : Descriptor → ObservedFile → Result (Unit {0})
unfolding text_eq codes validate_cwd
validate_observation host observed =
    if not (text_eq observed.host_id host.host_id)
    then err invalid_request
    else (validate_cwd host observed.path
        >> (if text_eq observed.path.path (codes ".")
            then err is_directory
            else if has_read_only observed.path.root_id host.roots
            then err read_only_root
            else ok tt))

-- The checks on the input.
unfoldable pub check_input : EditTool → EditInput → Result (Unit {0})
unfolding text_eq byte_len
check_input tool input =
    if is_empty input.old_string
    then err invalid_request
    else if text_eq input.old_string input.new_string
    then err invalid_request
    else if ltb tool.config.max_file_bytes (byte_len input.old_string)
        || ltb tool.config.max_file_bytes (byte_len input.new_string)
    then err resource_exhausted
    else ok tt

-- The observation is of the file that the path resolves to.
unfoldable pub check_observed : Descriptor → EditTool → EditInput → EditState → Result (Unit {0})
unfolding resolve_path validate_observation path_eq
check_observed host tool input state =
    and_then (resolve_path host tool.cwd input.file_path) (λ path.
      validate_observation host state.observed
      >> (if not (path_eq path state.observed.path) then err invalid_request else ok tt))

abbrev pub output_of : PreparedEdit → WriteOutput → EditOutput
output_of prepared result = record {
  host_id = result.host_id;
  path = result.path;
  replacements = prepared.replacements;
  bytes_written = result.bytes_written;
  revision = result.revision;
}

abbrev pub write_input : PreparedEdit → Write.WriteInput
write_input prepared = record {
  file_path = prepared.state.observed.path.path;
  content = prepared.content;
}

abbrev pub write_state : PreparedEdit → Write.WriteState
write_state prepared = record {
  operation_id = prepared.state.operation_id;
  observed = some prepared.state.observed;
}

module _ {World : Type 0} (runtime : Runtime World) where
  -- `EditTool::prepare`
  unfoldable pub prepare : EditTool → EditInput → EditState → Io World PreparedEdit
  unfolding check_input check_observed read replace
  prepare tool input state = call runtime.checkpoint >>= λ u. pure (check_input tool input) >>= λ u.
      pure (check_observed runtime.descriptor tool input state) >>= λ u.
      read runtime state.observed.path state.observed.revision tool.config.max_file_bytes
        tool.config.chunk_bytes
      >>= λ source.
          replace runtime source input.old_string input.new_string input.replace_all
            (min tool.config.max_file_bytes (or_max runtime.descriptor.max_write_bytes))
          >>= λ (content, replacements). call runtime.checkpoint >>= λ u.
              pure (ok (record { state = state; content = content; replacements = replacements }))

  -- `EditTool::apply`
  unfoldable pub apply : EditTool → PreparedEdit → Io World EditOutput
  unfolding validate_observation Write.new execute
  apply tool prepared = call runtime.checkpoint >>= λ u.
      pure (validate_observation runtime.descriptor prepared.state.observed) >>= λ u.
      pure (if prepared.replacements == 0 then err invalid_request else ok (tt {0})) >>= λ u.
      pure (
        Write.new runtime.descriptor
          (record { root_id = prepared.state.observed.path.root_id; path = codes "." })
          (record { max_content_bytes = tool.config.max_file_bytes }))
      >>= λ writer.
          execute runtime writer (write_input prepared) (write_state prepared) >>= λ result.
          pure (ok (output_of prepared result))
