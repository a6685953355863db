-- ===== src/Read/Tool.antt =====
-- The read tool on a host (lib.rs and reader.rs of read). The loop runs on rounds; out of rounds it is a
-- panic.
use agent_pane.Prelude.{
  ℕ, zero, suc, ◌+◌, ◌-◌, ◌%◌, min, List, [], ◌∷◌, Bool, true, false, ◌&&◌, ◌||◌, not, Option, Text,
  length, is_empty, leb, ltb, ◌==◌, if◌then◌else◌, on_some,
}
use agent_pane.Prelude.Machine.{checked_add}
use agent_pane.Execution.{
  Result, ok, err, panic, ◌>>◌, invalid_request, unsupported, internal, resource_exhausted,
  revision_conflict,
}
use agent_pane.Execution.Files.{
  ExecutionPath, path_eq, is_file, kind_error, has_revision, FileMetadata, ReadFileResult,
}
use agent_pane.Execution.Runtime.{Descriptor, or_max, Runtime, Io, pure, call, ◌>>=◌}
use agent_pane.PathResolution.{validate_cwd, resolve_path}
use agent_pane.Read.{
  ReadConfig, Truncation, TextReadOutput, LineReader, footer_reserve, or_default, feed, finish,
}
use agent_pane.Read

pub record ReadInput : Type 0 where
  pub file_path : Text
  pub offset : Option ℕ
  pub limit : Option ℕ

pub record ReadOutput : Type 0 where
  pub path : ExecutionPath
  pub revision : Text
  pub content : Text
  pub start_line : ℕ
  pub end_line : Option ℕ
  pub eof : Bool
  pub truncation : Option Truncation
  pub next_offset : Option ℕ

-- `ReadTool`, without its runtime
pub record ReadTool : Type 0 where
  pub cwd : ExecutionPath
  pub config : ReadConfig

unfoldable pub new_tool : Descriptor → ExecutionPath → ReadConfig → Result ReadTool
unfolding validate_cwd
new_tool host cwd config =
    validate_cwd host cwd
    >> (if (config.max_lines == 0)
          || leb config.max_output_bytes footer_reserve
          || (config.max_scan_bytes == 0)
          || (config.chunk_bytes == 0)
        then err invalid_request
        else ok (record { cwd = cwd; config = config }))

-- The checks on what `stat` replies: the revision.
unfoldable pub check_metadata : ExecutionPath → FileMetadata → Result Text
unfolding path_eq
check_metadata path metadata =
    if not (path_eq metadata.path path)
    then err internal
    else if not (is_file metadata.kind)
    then err (kind_error metadata.kind)
    else on_some metadata.revision (λ revision. ok revision) (err unsupported)

abbrev pub is_other : Text → FileMetadata → ReadFileResult → Bool
is_other revision metadata reply =
    not (has_revision revision reply.metadata.revision)
    || not (reply.metadata.size == metadata.size)

abbrev pub is_invalid : ExecutionPath → ℕ → ℕ → ReadFileResult → Bool
is_invalid path max_bytes position reply =
    not (reply.offset == position)
    || not (path_eq reply.metadata.path path)
    || ltb max_bytes (length reply.data_bytes)
    || not (is_file reply.metadata.kind)
    || (is_empty reply.data_bytes && not reply.eof)

-- The checks on one reply: where the next one starts.
unfoldable pub check_reply : ExecutionPath → Text → FileMetadata → ℕ → ℕ → ReadFileResult → Result ℕ
unfolding checked_add
check_reply path revision metadata max_bytes position reply =
    if is_other revision metadata reply
    then err revision_conflict
    else if is_invalid path max_bytes position reply
    then err internal
    else on_some (checked_add position (length reply.data_bytes))
        (λ end.
          if ltb metadata.size end || (reply.eof && not (end == metadata.size))
          then err revision_conflict
          else ok end)
        (err internal)

abbrev pub result : ExecutionPath → Text → TextReadOutput → ReadOutput
result path revision window = record {
  path = path;
  revision = revision;
  content = window.content;
  start_line = window.start_line;
  end_line = window.end_line;
  eof = window.eof;
  truncation = window.truncation;
  next_offset = window.next_offset;
}

module _ {World : Type 0} (runtime : Runtime World) where
  -- The bytes of one reply, with a checkpoint at every 4096th.
  unfoldable pub feed_data : ℕ → List ℕ → LineReader → Io World (LineReader × Bool)
  unfolding feed
  feed_data index [] r = pure (ok (r, false))
  feed_data index (byte ∷ bytes) r =
      (if index % 4096 == 0 then call runtime.checkpoint else pure (ok tt)) >>= λ u.
      pure (feed runtime.from_utf8 byte r) >>= λ (more, done).
      let rest = feed_data (index + 1) bytes more in if done then pure (ok (more, true)) else rest

  -- The request of one round, and the checks on its reply.
  unfoldable pub request_piece :
      ExecutionPath → Text → FileMetadata → ReadConfig → ℕ → ℕ → Io World (ReadFileResult × ℕ)
  unfolding check_reply
  request_piece path revision metadata config chunk position = call runtime.checkpoint >>= λ u.
      if config.max_scan_bytes - position == 0
      then pure (err resource_exhausted)
      else (call (
            runtime.read (record {
              path = path;
              offset = position;
              max_bytes = min chunk (config.max_scan_bytes - position);
              follow_symlinks = true;
            }))
          >>= λ reply. call runtime.checkpoint >>= λ u.
              pure (
                check_reply path revision metadata (min chunk (config.max_scan_bytes - position))
                  position reply)
              >>= λ end. pure (ok (reply, end)))

  unfoldable pub read_lines :
      ℕ
      → ExecutionPath
      → Text
      → FileMetadata
      → ReadConfig
      → ℕ
      → ℕ
      → LineReader
      → Io World TextReadOutput
  unfolding request_piece feed_data finish
  read_lines zero path revision metadata config chunk position r = pure panic
  read_lines (suc rounds) path revision metadata config chunk position r =
      request_piece path revision metadata config chunk position >>= λ (reply, end).
      feed_data 0 reply.data_bytes r >>= λ (more, done).
      let rest = read_lines rounds path revision metadata config chunk end more in
      if done
      then pure (ok more.output)
      else if reply.eof
      then pure (finish runtime.from_utf8 (metadata.size == 0) more)
      else rest

  unfoldable pub read : ExecutionPath → ℕ → ℕ → ReadConfig → Io World ReadOutput
  unfolding check_metadata Read.new read_lines
  read path start limit config =
      let chunk = min config.chunk_bytes (or_max runtime.descriptor.max_read_bytes) in
      call (runtime.stat (record { path = path; follow_symlinks = true })) >>= λ metadata.
      call runtime.checkpoint >>= λ u. pure (check_metadata path metadata) >>= λ revision.
      pure (Read.new start limit config) >>= λ reader.
      if chunk == 0
      then pure (err unsupported)
      else (read_lines (metadata.size + 1) path revision metadata config chunk 0 reader
          >>= λ window. pure (ok (result path revision window)))

  -- `ReadTool::execute`
  unfoldable pub execute : ReadTool → ReadInput → Io World ReadOutput
  unfolding resolve_path read
  execute tool input = call runtime.checkpoint >>= λ u.
      pure (
        if (or_default input.offset 1 == 0) || (or_default input.limit tool.config.max_lines == 0)
        then err invalid_request
        else ok (tt {0}))
      >>= λ u. pure (resolve_path runtime.descriptor tool.cwd input.file_path) >>= λ path.
          read path (or_default input.offset 1)
            (min (or_default input.limit tool.config.max_lines) tool.config.max_lines) tool.config
