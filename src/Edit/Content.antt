-- ===== src/Edit/Content.antt =====
-- The content that is edited (content.rs of edit). The loop runs on rounds; out of rounds it is a panic.
use agent_pane.Prelude.{
  ℕ, zero, suc, ◌+◌, ◌-◌, min, max, List, [], ◌++◌, Bool, true, ◌&&◌, ◌||◌, not, Text, same, length,
  is_empty, ltb, ◌==◌, if◌then◌else◌, on_some,
}
use agent_pane.Prelude.Machine.{checked_add}
use agent_pane.Execution.{
  Result, ok, err, panic, unsupported, internal, resource_exhausted, revision_conflict,
}
use agent_pane.Execution.Files.{
  ExecutionPath, path_eq, contains, is_file, kind_error, has_revision, FileMetadata, ReadFileResult,
}
use agent_pane.Execution.Runtime.{or_max, Runtime, Io, pure, call, ◌>>=◌}

-- The checks on what `stat` replies.
unfoldable pub check_metadata : ExecutionPath → Text → ℕ → FileMetadata → Result (Unit {0})
unfolding path_eq
check_metadata path revision max_file_bytes metadata =
    if not (path_eq metadata.path path)
    then err internal
    else if not (is_file metadata.kind)
    then err (kind_error metadata.kind)
    else if not (has_revision revision metadata.revision)
    then err revision_conflict
    else if ltb max_file_bytes metadata.size
    then err resource_exhausted
    else ok tt

abbrev pub is_other : Text → FileMetadata → ReadFileResult → Bool
is_other revision metadata reply =
    not (has_revision revision reply.metadata.revision)
    || not (reply.metadata.size == metadata.size)

abbrev pub is_invalid : ExecutionPath → ℕ → List ℕ → ReadFileResult → Bool
is_invalid path max_bytes bytes reply =
    not (reply.offset == length bytes)
    || not (path_eq reply.metadata.path path)
    || not (is_file reply.metadata.kind)
    || ltb max_bytes (length reply.data_bytes)
    || (is_empty reply.data_bytes && not reply.eof)

-- The checks on one reply: the bytes so far with the new ones, and whether the file is at its end.
unfoldable pub accept_reply :
    ExecutionPath → Text → FileMetadata → ℕ → List ℕ → ReadFileResult → Result (List ℕ × Bool)
unfolding checked_add
accept_reply path revision metadata max_bytes bytes reply =
    if is_other revision metadata reply
    then err revision_conflict
    else if is_invalid path max_bytes bytes reply
    then err internal
    else on_some (checked_add (length bytes) (length reply.data_bytes))
        (λ end.
          if ltb metadata.size end || not (same reply.eof (end == metadata.size))
          then err internal
          else if contains 0 reply.data_bytes
          then err unsupported
          else ok (bytes ++ reply.data_bytes, reply.eof))
        (err internal)

module _ {World : Type 0} (runtime : Runtime World) where
  unfoldable pub read_piece :
      ExecutionPath → Text → FileMetadata → ℕ → List ℕ → Io World (List ℕ × Bool)
  unfolding accept_reply
  read_piece path revision metadata chunk bytes =
      let max_bytes = min chunk (max (metadata.size - length bytes) 1) in
      call runtime.checkpoint >>= λ u.
      call (
        runtime.read (record {
          path = path;
          offset = length bytes;
          max_bytes = max_bytes;
          follow_symlinks = true;
        }))
      >>= λ reply. call runtime.checkpoint >>= λ u.
          pure (accept_reply path revision metadata max_bytes bytes reply)

  unfoldable pub read_pieces :
      ℕ → ExecutionPath → Text → FileMetadata → ℕ → List ℕ → Io World (List ℕ)
  unfolding read_piece
  read_pieces zero path revision metadata chunk bytes = pure panic
  read_pieces (suc rounds) path revision metadata chunk bytes =
      read_piece path revision metadata chunk bytes >>= λ (more, eof).
      let rest = read_pieces rounds path revision metadata chunk more in
      if eof then pure (ok more) else rest

  unfoldable pub read : ExecutionPath → Text → ℕ → ℕ → Io World Text
  unfolding check_metadata read_pieces
  read path revision max_file_bytes chunk_bytes =
      let chunk = min chunk_bytes (or_max runtime.descriptor.max_read_bytes) in
      call (runtime.stat (record { path = path; follow_symlinks = true })) >>= λ metadata.
      call runtime.checkpoint >>= λ u.
      pure (check_metadata path revision max_file_bytes metadata) >>= λ u.
      if chunk == 0
      then pure (err unsupported)
      else (read_pieces (metadata.size + 1) path revision metadata chunk [] >>= λ bytes.
          pure (on_some (runtime.from_utf8 bytes) (λ content. ok content) (err unsupported)))
