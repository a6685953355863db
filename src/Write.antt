-- ===== src/Write.antt =====
-- The tool `write` (platform/packages/tools/write/src/lib.rs): a whole file, written on condition of
-- what was observed of it. What it does not read of an error is not modelled: its text and details.
pub mod Sending
mod Tests
use agent_pane.Prelude.{
  ℕ, min, Bool, true, false, ◌||◌, not, Option, none, some, Text, codes, text_eq, same, byte_len,
  is_some, ltb, ◌==◌, if◌then◌else◌,
}
use agent_pane.Execution.{
  Result, ok, err, ◌>>◌, invalid_request, resource_exhausted, is_directory, read_only_root,
  internal,
}
use agent_pane.Execution.Files.{
  ExecutionPath, path_eq, WriteCondition, must_not_exist, match_revision, atomic_replace,
  WriteFileRequest, WriteFileResult,
}
use agent_pane.Execution.Runtime.{
  Descriptor, has_read_only, or_max, Runtime, Io, pure, call, continue, ◌>>=◌,
}
use agent_pane.PathResolution.{validate_cwd, resolve_path}

pub record ObservedFile : Type 0 where
  pub host_id : Text
  pub path : ExecutionPath
  pub revision : Text

pub record WriteInput : Type 0 where
  pub file_path : Text
  pub content : Text

pub record WriteState : Type 0 where
  pub operation_id : Text
  pub observed : Option ObservedFile

pub record WriteConfig : Type 0 where
  pub max_content_bytes : ℕ

pub record WriteOutput : Type 0 where
  pub host_id : Text
  pub path : ExecutionPath
  pub created : Bool
  pub bytes_written : ℕ
  pub revision : Text

-- `WriteOutput::observation`
abbrev pub observation : WriteOutput → ObservedFile
observation output = record {
  host_id = output.host_id;
  path = output.path;
  revision = output.revision;
}

-- `WriteTool`, without its runtime
pub record WriteTool : Type 0 where
  pub cwd : ExecutionPath
  pub config : WriteConfig

unfoldable pub new : Descriptor → ExecutionPath → WriteConfig → Result WriteTool
unfolding validate_cwd
new host cwd config =
    validate_cwd host cwd
    >> (if config.max_content_bytes == 0
        then err invalid_request
        else ok (record { cwd = cwd; config = config }))

-- The limit of `execute`
abbrev pub write_limit : Descriptor → WriteTool → ℕ
write_limit host tool = min tool.config.max_content_bytes (or_max host.max_write_bytes)

-- The condition of the write, where what was observed is of this file.
unfoldable pub condition : Descriptor → ExecutionPath → Option ObservedFile → Result WriteCondition
unfolding path_eq text_eq
condition host path none = ok must_not_exist
condition host path (some observed) =
    if not (text_eq observed.host_id host.host_id) || not (path_eq observed.path path)
    then err invalid_request
    else ok (match_revision observed.revision)

-- The checks in front of the write.
unfoldable pub check_target :
    Descriptor → WriteTool → WriteInput → ExecutionPath → Result (Unit {0})
unfolding byte_len text_eq codes
check_target host tool input path =
    if ltb (write_limit host tool) (byte_len input.content)
    then err resource_exhausted
    else if text_eq path.path (codes ".")
    then err is_directory
    else if has_read_only path.root_id host.roots
    then err read_only_root
    else ok tt

-- The check of the reply.
unfoldable pub written :
    Descriptor → WriteInput → WriteState → ExecutionPath → WriteFileResult → Result WriteOutput
unfolding byte_len path_eq
written host input state path result =
    if not (path_eq result.path path)
      || not (result.bytes_written == byte_len input.content)
      || not (same result.existed (is_some state.observed))
    then err internal
    else ok (record {
      host_id = host.host_id;
      path = path;
      created = not result.existed;
      bytes_written = result.bytes_written;
      revision = result.revision;
    })

module _ {World : Type 0} (runtime : Runtime World) where
  abbrev pub write_request :
      WriteInput → WriteState → ExecutionPath → WriteCondition → WriteFileRequest
  write_request input state path c = record {
    expected_generation = none;
    strategy = atomic_replace;
    operation_id = state.operation_id;
    path = path;
    data_bytes = runtime.into_bytes input.content;
    condition = c;
    create_parents = true;
    follow_symlinks = true;
  }

  -- `WriteTool::execute`
  unfoldable pub execute : WriteTool → WriteInput → WriteState → Io World WriteOutput
  unfolding resolve_path check_target condition written
  execute tool input state = call runtime.checkpoint >>= λ u.
      pure (resolve_path runtime.descriptor tool.cwd input.file_path) >>= λ path.
      pure (check_target runtime.descriptor tool input path) >>= λ u.
      pure (condition runtime.descriptor path state.observed) >>= λ c.
      call (runtime.write (write_request input state path c)) >>= λ result.
      pure (written runtime.descriptor input state path result)
