-- ===== src/ApplyPatch/Files.antt =====
-- Reads of patch targets (filesystem.rs of apply-patch). The loop of `read_text` runs on rounds;
-- out of rounds it is a panic. An allocation that fails (`try_reserve`) is not modelled.
pub mod Reading
use agent_pane.Prelude.{
  ℕ, zero, suc, ◌+◌, ◌-◌, min, max, List, [], ◌∷◌, ◌++◌, Bool, true, false, ◌&&◌, ◌||◌, not, Option,
  none, some, Text, text_eq, same, length, is_empty, leb, ltb, ◌==◌, if◌then◌else◌, on_some,
}
use agent_pane.Prelude.Machine.{u64_max, checked_add}
use agent_pane.Execution.{
  Code, Result, ok, err, panic, is_directory, unsupported, internal, not_found, resource_exhausted,
  revision_conflict,
}
use agent_pane.Execution.Files.{
  ExecutionPath, path_eq, is_file, kind_error, has_revision, FileMetadata, StatRequest,
  ReadFileRequest, ReadFileResult,
}
use agent_pane.Execution.Runtime.{
  or_max, Reply, replied, failed, Runtime, Io, pure, call, continue, ◌>>=◌,
}

abbrev pub regular : Option FileMetadata → Result (Option FileMetadata)
regular none = ok none
regular (some metadata) =
    if is_file metadata.kind then ok (some metadata) else err (kind_error metadata.kind)

abbrev pub has_changed : FileMetadata → Text → ReadFileResult → Bool
has_changed metadata revision reply =
    not (has_revision revision reply.metadata.revision)
    || not (reply.metadata.size == metadata.size)

abbrev pub is_foreign : ExecutionPath → ℕ → List ℕ → ReadFileResult → Bool
is_foreign path max_bytes bytes reply =
    not (reply.offset == length bytes)
    || not (path_eq reply.metadata.path path)
    || not (is_file reply.metadata.kind)
    || ltb max_bytes (length reply.data_bytes)

-- The checks on one reply: the bytes so far with the new ones, and whether the file is at its end.
unfoldable pub accept :
    ExecutionPath → FileMetadata → Text → ℕ → List ℕ → ReadFileResult → Result (List ℕ × Bool)
unfolding checked_add
accept path metadata revision max_bytes bytes reply =
    if has_changed metadata revision reply
    then err revision_conflict
    else if is_foreign path max_bytes bytes reply || (is_empty reply.data_bytes && not reply.eof)
    then err internal
    else on_some (checked_add (length bytes) (length reply.data_bytes))
        (λ end.
          if ltb metadata.size end || not (same reply.eof (end == metadata.size))
          then err revision_conflict
          else ok (bytes ++ reply.data_bytes, reply.eof))
        (err internal)

module _ {World : Type 0} (runtime : Runtime World) where
  -- What the reply of `stat` is taken for.
  abbrev pub stat_reply :
      ExecutionPath → World × Reply FileMetadata → World × Result (Option FileMetadata)
  stat_reply path (w, replied metadata) =
      (call runtime.checkpoint >>= λ u.
      pure (if path_eq metadata.path path then ok (some metadata) else err internal))
        w
  stat_reply path (w, failed not_found) = (w, ok none)
  stat_reply path (w, failed e) = (w, err e)

  unfoldable pub stat_optional_with_follow : ExecutionPath → Bool → Io World (Option FileMetadata)
  unfolding path_eq
  stat_optional_with_follow path follow w =
      stat_reply path (runtime.stat (record { path = path; follow_symlinks = follow }) w)

  unfoldable pub stat_optional : ExecutionPath → Io World (Option FileMetadata)
  unfolding stat_optional_with_follow
  stat_optional path = stat_optional_with_follow path true >>= λ m. pure (regular m)

  unfoldable pub read_round :
      ExecutionPath → FileMetadata → Text → ℕ → List ℕ → Io World (List ℕ × Bool)
  unfolding accept
  read_round path metadata revision request_bytes bytes =
      let max_bytes = min request_bytes (max (metadata.size - length bytes) 1) in
      call runtime.checkpoint >>= λ u.
      call (
        runtime.read (record {
          path = path;
          offset = length bytes;
          max_bytes = max_bytes;
          follow_symlinks = true;
        }))
      >>= λ reply. call runtime.checkpoint >>= λ v.
          pure (accept path metadata revision max_bytes bytes reply)

  unfoldable pub read_loop :
      ℕ → ExecutionPath → FileMetadata → Text → ℕ → List ℕ → Io World (List ℕ)
  unfolding read_round
  read_loop zero path metadata revision request_bytes bytes = pure panic
  read_loop (suc rounds) path metadata revision request_bytes bytes =
      read_round path metadata revision request_bytes bytes >>= λ (more, eof).
      let rest = read_loop rounds path metadata revision request_bytes more in
      if eof then pure (ok more) else rest

  unfoldable pub read_contents :
      ℕ → ℕ → ExecutionPath → FileMetadata → Io World (Text × FileMetadata)
  unfolding read_loop
  read_contents max_file_bytes chunk_bytes path metadata =
      let request_bytes = min chunk_bytes (or_max runtime.descriptor.max_read_bytes) in
      if ltb max_file_bytes metadata.size
      then pure (err resource_exhausted)
      else on_some metadata.revision
          (λ revision.
            if request_bytes == 0
            then pure (err unsupported)
            else (read_loop (metadata.size + 1) path metadata revision request_bytes [] >>= λ bytes.
                pure (
                  on_some (runtime.from_utf8 bytes) (λ content. ok (content, metadata))
                    (err unsupported))))
          (pure (err unsupported))

  unfoldable pub read_text : ExecutionPath → ℕ → ℕ → Io World (Text × FileMetadata)
  unfolding stat_optional read_contents
  read_text path max_file_bytes chunk_bytes = stat_optional path >>= λ found.
      on_some found (read_contents max_file_bytes chunk_bytes path) (pure (err not_found))
