-- ===== src/Execution/Runtime/Pieces.antt =====
-- A file as it is read: the bytes of replies of the host, each asked for behind those in front of it.
use agent_pane.Prelude.{ℕ, List, [], ◌++◌, ◌≡◌, true, some, Text, length}
use agent_pane.Execution.Files.{ExecutionPath, is_file, ReadFileRequest, ReadFileResult}
use agent_pane.Execution.Runtime.{Runtime, replied}

-- The reply tells that it is of a regular file at this path, with this revision and size, from this
-- offset on.
pub record IsReplyAt (path : ExecutionPath) (revision : Text) (size offset : ℕ)
    (reply : ReadFileResult) : Type 0 where
  pub path_lem : reply.metadata.path ≡ path
  pub kind_lem : is_file reply.metadata.kind ≡ true
  pub revision_lem : reply.metadata.revision ≡ some revision
  pub size_lem : reply.metadata.size ≡ size
  pub offset_lem : reply.offset ≡ offset

module _ {World : Type 0} (runtime : Runtime World) where
  -- The host replies so to the request.
  abbrev pub WasReplied : ReadFileRequest → ReadFileResult → Type 0
  WasReplied request reply = (w v : World) × (runtime.read request w ≡ (v, replied reply))

  -- The first bytes of the file at the path with the revision and the size, as the host replied with them.
  pub data Pieces (path : ExecutionPath) (revision : Text) (size : ℕ) : List ℕ → Type 0 where
    no_piece : Pieces path revision size []
    piece :
        (bytes : List ℕ) (request : ReadFileRequest) (reply : ReadFileResult)
        → Pieces path revision size bytes
        → request.path ≡ path
        → request.offset ≡ length bytes
        → WasReplied request reply
        → IsReplyAt path revision size (length bytes) reply
        → Pieces path revision size (bytes ++ reply.data_bytes)
