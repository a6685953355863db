-- ===== src/Read/Hosted.antt =====
-- What the read tool returns of a file on a host (lib.rs and reader.rs of read).
use agent_pane.Prelude.{ℕ, ◌+◌, ◌≤◌, List, ◌++◌, ◌≡◌, Bool, true, false, Text, length}
use agent_pane.Execution.Post.{Post}
use agent_pane.Execution.Files.{ExecutionPath, FileMetadata, ReadFileResult, WriteFileRequest}
use agent_pane.Execution.Runtime.{Runtime}
use agent_pane.Execution.Runtime.Sends.{IsHost}
use agent_pane.Execution.Runtime.Pieces.{IsReplyAt, Pieces}
use agent_pane.Read.{TextReadOutput, LineReader}
use agent_pane.Read.Feeding.{Reads}
use agent_pane.Read.Reading.{IsWindow, Ended}
use agent_pane.Read.Tool.{ReadOutput, result}

-- What a reply for this file adds: a byte at least, but for the last, which ends where the file does.
record Adds (path : ExecutionPath) (revision : Text) (metadata : FileMetadata) (position : ℕ)
    (piece : ReadFileResult × ℕ) : Type 0 where
  at : IsReplyAt path revision metadata.size position piece.0
  end_lem : piece.1 ≡ position + length piece.0.data_bytes
  inside : piece.1 ≤ metadata.size
  more : piece.0.eof ≡ false → 1 ≤ length piece.0.data_bytes
  last : piece.0.eof ≡ true → piece.1 ≡ metadata.size

module _ {World : Type 0} (runtime : Runtime World) where
  -- A window of the first bytes that the host replied with for this revision of the file at the path, each
  -- piece asked for behind those in front of it; all of the file's bytes where the window is at its end.
  pub record IsWindowOf (path : ExecutionPath) (revision : Text) (start limit : ℕ)
      (output : TextReadOutput) : Type 0 where
    pub size : ℕ
    pub bytes : List ℕ
    pub pieces : Pieces runtime path revision size bytes
    pub whole : output.eof ≡ true → length bytes ≡ size
    pub window_lem : IsWindow runtime.from_utf8 start limit bytes output

  -- An output of the tool: such a window of the file at the path, with the revision that it is of.
  pub record IsRead (path : ExecutionPath) (start limit : ℕ) (output : ReadOutput) : Type 0 where
    pub path_lem : output.path ≡ path
    pub window : TextReadOutput
    pub output_lem : output ≡ result output.path output.revision window
    pub window_lem : IsWindowOf output.path output.revision start limit window

module _ {World : Type 0} (runtime : Runtime World) (Before After : World → Type 0)
    (Allowed : WriteFileRequest → Type 0) (host : IsHost Before After Allowed runtime) where
  -- What is asked for: what the host replied, for this file.
  abbrev AddsTo : ExecutionPath → Text → FileMetadata → List ℕ → ReadFileResult × ℕ → Type 0
  AddsTo path revision metadata seen (reply, end) =
      Adds path revision metadata (length seen) (reply, end)
      × Pieces runtime path revision metadata.size (seen ++ reply.data_bytes)

  module _ (start limit : ℕ) (start_pos : 1 ≤ start) (limit_pos : 1 ≤ limit) where
    -- What is read so far, and what it is at the end.
    abbrev ReadsSo : List ℕ → LineReader → Type 0
    ReadsSo = Reads runtime.from_utf8 start limit start_pos limit_pos

    abbrev EndedSo : List ℕ → LineReader × Bool → Type 0
    EndedSo = Ended runtime.from_utf8 start limit start_pos limit_pos
