-- ===== src/Execution/Runtime/Counting.antt =====
-- A host that takes every request, for runs and examples: its state counts the requests that change a
-- file.
use agent_pane.Prelude.{ℕ, ◌+◌, [], ◌∷◌, ◌≡◌, true, false, none, some, codes, length, arith}
use agent_pane.Execution.Files.{ExecutionPath, FileKind, FileMetadata, WriteFileRequest}
use agent_pane.Execution.Runtime.{Runtime, replied, unix}
use agent_pane.Execution.Runtime.Sends.{IsHost}

abbrev pub target : ExecutionPath
target = record { root_id = codes "r"; path = codes "a" }

abbrev metadata_of_target : FileMetadata
metadata_of_target = record {
  path = target;
  kind = FileKind.file;
  size = 1;
  modified_at = none;
  revision = some (codes "1");
}

abbrev pub counting : Runtime ℕ
counting = record {
  descriptor = record {
    host_id = codes "h";
    supervisor_generation_id = codes "g";
    path_convention = unix;
    roots =
        record { id = codes "r"; name = codes "r"; native_path = codes "/w"; read_only = false }
        ∷ [];
    max_read_bytes = none;
    max_write_bytes = none;
  };
  checkpoint = λ w. (w, replied tt);
  stat = λ request w. (w, replied metadata_of_target);
  read = λ request w. (
    w,
    replied
        (record { metadata = metadata_of_target; data_bytes = 65 ∷ []; offset = 0; eof = true }),
  );
  write = λ request w. (
    w + 1,
    replied (record {
      path = request.path;
      existed = false;
      revision = codes "1";
      bytes_written = length request.data_bytes;
    }),
  );
  remove = λ request w. (w + 1, replied (record { removed = true }));
  from_utf8 = λ bytes. some bytes;
  into_bytes = λ text. text;
}

-- In front of the one write and behind it.
abbrev pub NoneSent : ℕ → Type 0
NoneSent w = w ≡ 0

abbrev pub OneSent : ℕ → Type 0
OneSent w = w ≡ 1

pub counting-IsHost :
    (Allowed : WriteFileRequest → Type 0) → IsHost NoneSent OneSent Allowed counting
counting-IsHost Allowed = record {
  checkpoint_lem = λ w h. h;
  stat_lem = λ request w h. h;
  read_lem = λ request w h. h;
  write_lem = λ request w a h. omega arith;
}
