-- ===== src/ApplyPatch/Files/Reading.antt =====
-- The loop of `read_text` (filesystem.rs of apply-patch): its rounds and what it reads.
use agent_pane.Prelude.{
  ℕ, zero, suc, ◌+◌, ◌≤◌, min, List, [], ◌∷◌, ◌++◌, ◌≡◌, refl, sym, Bool, true, false, ◌&&◌, ◌||◌,
  not, Option, none, some, Text, length, is_empty, ltb, ◌==◌, same, if◌then◌else◌, arith,
  length-append,
}
use agent_pane.Prelude.Machine.{checked_add, checked_add-some}
use agent_pane.Execution.{ok, err, not_found, internal}
use agent_pane.Execution.Post.{Post, returns, fails, Post-if, Post-option, Post-imp}
use agent_pane.Execution.Files.{
  ExecutionPath, path_eq, path_eq_lem, has_revision_lem, is_file, kind_error, FileMetadata,
  ReadFileResult, WriteFileRequest,
}
use agent_pane.Execution.Runtime.{or_max, Reply, replied, failed, Runtime, pure, call}
use agent_pane.Execution.Runtime.Post.{Always}
use agent_pane.Execution.Runtime.Sends.{
  IsHost, any-IsHost, Quiet, with_value, with_error, IsQuiet, Quiet-pure, Quiet-call, Quiet-reply,
  Quiet-bind, Quiet-if, Quiet-option, Quiet-Always,
}
use agent_pane.Execution.Runtime.Pieces.{IsReplyAt, Pieces}
use mathlib.Core.Path.{subst}
use agent_pane.ApplyPatch.Files.{
  has_changed, is_foreign, stat_reply, stat_optional_with_follow, regular, stat_optional, accept,
  read_round, read_loop, read_contents, read_text,
}

-- More bytes than before, and no more than the file has; the file is at its end where they are all.
abbrev Reads : FileMetadata → ℕ → List ℕ × Bool → Type 0
Reads metadata before (bytes, true) = length bytes ≡ metadata.size
Reads metadata before (bytes, false) =
    (before + 1 ≤ length bytes) × (length bytes + 1 ≤ metadata.size)

accepted :
    (metadata : FileMetadata) (end : ℕ) (bytes new : List ℕ) (eof foreign : Bool)
    → end ≡ length bytes + length new
    → (foreign || (is_empty new && not eof)) ≡ false
    → (ltb metadata.size end || not (same eof (end == metadata.size))) ≡ false
    → Reads metadata (length bytes) (bytes ++ new, eof)
accepted metadata end bytes new true foreign e f g =
    let h : end ≡ metadata.size = ground arith in omega (arith, length-append bytes new)
accepted metadata end bytes [] false true e f g = absurd (cc)
accepted metadata end bytes [] false false e f g = absurd (cc)
accepted metadata end bytes (b ∷ new) false foreign e f g =
    let h : end + 1 ≤ metadata.size = ground arith in
    (omega (arith, length-append bytes (b ∷ new)), omega (arith, length-append bytes (b ∷ new)))

-- What a reply is taken for: the bytes with those of the reply, which is of this file.
abbrev Taken :
    ExecutionPath → FileMetadata → Text → List ℕ → ReadFileResult → List ℕ × Bool → Type 0
Taken path metadata revision bytes reply (more, eof) =
    Reads metadata (length bytes) (more, eof)
    × ((more ≡ bytes ++ reply.data_bytes)
        × IsReplyAt path revision metadata.size (length bytes) reply)

accept-Post :
    (path : ExecutionPath) (metadata : FileMetadata) (revision : Text) (max_bytes : ℕ)
    (bytes : List ℕ) (reply : ReadFileResult)
    → Post
        (Taken path metadata revision bytes reply)
        (accept path metadata revision max_bytes bytes reply)
unfolding accept
accept-Post path metadata revision max_bytes bytes reply =
    let P : List ℕ × Bool → Type 0 = Taken path metadata revision bytes reply in
    let new : List ℕ = reply.data_bytes in
    let foreign : Bool = is_foreign path max_bytes bytes reply in
    Post-if P (has_changed metadata revision reply) _ _ (λ a. fails _)
      (λ a.
        Post-if P (foreign || (is_empty new && not reply.eof)) _ _ (λ b. fails _)
          (λ b.
            Post-option P (checked_add (length bytes) (length new)) _ _
              (λ end e.
                Post-if P (ltb metadata.size end || not (same reply.eof (end == metadata.size))) _ _
                  (λ c. fails _)
                  (λ c.
                    returns (bytes ++ new, reply.eof)
                      (
                        accepted metadata end bytes new reply.eof foreign
                            (checked_add-some _ _ end e) b c,
                        (refl, of_file a b),
                      )))
              (fails _)))
  where
    of_file :
        has_changed metadata revision reply ≡ false
        → (is_foreign path max_bytes bytes reply || (is_empty reply.data_bytes && not reply.eof))
          ≡ false
        → IsReplyAt path revision metadata.size (length bytes) reply
    of_file a b = record {
      path_lem = path_eq_lem reply.metadata.path path (ground arith);
      kind_lem = ground arith;
      revision_lem = has_revision_lem revision reply.metadata.revision (ground arith);
      size_lem = ground arith;
      offset_lem = ground arith;
    }

module _ {World : Type 0} (runtime : Runtime World) where
  -- The text of the whole file at the path, no larger than allowed: decoded from the bytes that the host
  -- replied with for the one revision of it, as many as its size.
  pub record WholeFile (path : ExecutionPath) (max_file_bytes : ℕ) (found : Text × FileMetadata)
      : Type 0 where
    pub fits : found.1.size ≤ max_file_bytes
    pub revision : Text
    pub revision_lem : found.1.revision ≡ some revision
    pub bytes : List ℕ
    pub pieces : Pieces runtime path revision found.1.size bytes
    pub all : length bytes ≡ found.1.size
    pub decoded : runtime.from_utf8 bytes ≡ some found.0

  -- The bytes of a whole file, with what is replied for it.
  abbrev AreAll : ExecutionPath → Text → FileMetadata → List ℕ → Type 0
  AreAll path revision metadata all =
      Pieces runtime path revision metadata.size all × (length all ≡ metadata.size)

  abbrev AreMore : ExecutionPath → Text → FileMetadata → List ℕ → List ℕ × Bool → Type 0
  AreMore path revision metadata bytes (more, eof) =
      Pieces runtime path revision metadata.size more × Reads metadata (length bytes) (more, eof)

module _ {World : Type 0} (runtime : Runtime World) (Before After : World → Type 0)
    (Allowed : WriteFileRequest → Type 0) (host : IsHost Before After Allowed runtime) where
  read_round-IsQuiet :
      (path : ExecutionPath) (metadata : FileMetadata) (revision : Text) (request_bytes : ℕ)
      (bytes : List ℕ)
      → Pieces runtime path revision metadata.size bytes
      → IsQuiet Before After
          (AreMore runtime path revision metadata bytes)
          (read_round runtime path metadata revision request_bytes bytes)
  unfolding read_round
  read_round-IsQuiet path metadata revision request_bytes bytes pieces =
      let P : List ℕ × Bool → Type 0 = AreMore runtime path revision metadata bytes in
      Quiet-bind Before After (λ u. Unit) P _ _
        (Quiet-call Before After runtime.checkpoint host.checkpoint_lem)
        (λ u t.
          Quiet-bind Before After _ P _ _
            (Quiet-reply Before After (runtime.read _) (host.read_lem _))
            (λ reply told.
              Quiet-bind Before After (λ u. Unit) P _ _
                (Quiet-call Before After runtime.checkpoint host.checkpoint_lem)
                (λ u t. Quiet-pure Before After P _ (
                  Post-imp (Taken path metadata revision bytes reply) P _
                    (λ (more, eof) (r, (e, at)). (
                      subst (Pieces runtime path revision metadata.size) (sym e)
                          (Pieces.piece bytes _ reply pieces refl refl told at),
                      r,
                    ))
                    (accept-Post path metadata revision _ bytes reply)))))

  read_loop-IsQuiet :
      (rounds : ℕ) (path : ExecutionPath) (metadata : FileMetadata) (revision : Text)
      (request_bytes : ℕ) (bytes : List ℕ)
      → Pieces runtime path revision metadata.size bytes
      → metadata.size + 1 ≤ rounds + length bytes
      → length bytes ≤ metadata.size
      → IsQuiet Before After
          (AreAll runtime path revision metadata)
          (read_loop runtime rounds path metadata revision request_bytes bytes)
  unfolding read_loop
  read_loop-IsQuiet zero path metadata revision request_bytes bytes p h k = absurd (omega arith)
  read_loop-IsQuiet (suc rounds) path metadata revision request_bytes bytes p h k =
      Quiet-bind Before After (AreMore runtime path revision metadata bytes)
        (AreAll runtime path revision metadata) _ _
        (read_round-IsQuiet path metadata revision request_bytes bytes p)
        (λ (more, eof) (q, r).
          further
            (λ more q a b. read_loop-IsQuiet rounds path metadata revision request_bytes more q a b)
            more q eof r)
    where
      further :
          ((more : List ℕ)
            → Pieces runtime path revision metadata.size more
            → metadata.size + 1 ≤ rounds + length more
            → length more ≤ metadata.size
            → IsQuiet Before After
                (AreAll runtime path revision metadata)
                (read_loop runtime rounds path metadata revision request_bytes more))
          → (more : List ℕ) → Pieces runtime path revision metadata.size more
          → (eof : Bool) → Reads metadata (length bytes) (more, eof)
          → IsQuiet Before After (AreAll runtime path revision metadata) (
              if eof
              then pure (ok more)
              else read_loop runtime rounds path metadata revision request_bytes more)
      further loop more q true r = Quiet-pure Before After _ (ok more) (returns more (q, r))
      further loop more q false (a, b) = loop more q (omega arith) (omega arith)

  read_contents-IsQuiet :
      (max_file_bytes chunk_bytes : ℕ) (path : ExecutionPath) (metadata : FileMetadata)
      → IsQuiet Before After
          (WholeFile runtime path max_file_bytes)
          (read_contents runtime max_file_bytes chunk_bytes path metadata)
  unfolding read_contents
  read_contents-IsQuiet max_file_bytes chunk_bytes path metadata =
      let P : Text × FileMetadata → Type 0 = WholeFile runtime path max_file_bytes in
      let request_bytes : ℕ = min chunk_bytes (or_max runtime.descriptor.max_read_bytes) in
      Quiet-if Before After P (ltb max_file_bytes metadata.size) _ _
        (λ b. Quiet-pure Before After P _ (fails _))
        (λ fits.
          Quiet-option Before After P metadata.revision _ _
            (λ revision e.
              Quiet-if Before After P (request_bytes == 0) _ _
                (λ b. Quiet-pure Before After P _ (fails _))
                (λ b.
                  Quiet-bind Before After (AreAll runtime path revision metadata) P _ _
                    (read_loop-IsQuiet (metadata.size + 1) path metadata revision request_bytes []
                      Pieces.no_piece (omega arith) (omega arith))
                    (λ bytes (pieces, all). Quiet-pure Before After P _ (
                      Post-option P (runtime.from_utf8 bytes) _ _
                        (λ content d.
                          returns (content, metadata)
                            (record {
                              fits = ground arith;
                              revision = revision;
                              revision_lem = e;
                              bytes = bytes;
                              pieces = pieces;
                              all = all;
                              decoded = d;
                            }))
                        (fails _)))))
            (λ e. Quiet-pure Before After P _ (fails _)))

  stat_optional-IsQuiet :
      (path : ExecutionPath) → IsQuiet Before After (λ found. Unit {0}) (stat_optional runtime path)
  unfolding stat_optional stat_optional_with_follow
  stat_optional-IsQuiet path =
      Quiet-bind Before After (λ m. Unit {0}) (λ m. Unit {0}) _ _
        (λ w b.
          stat_reply-Quiet (runtime.stat (record { path = path; follow_symlinks = true }) w)
            (host.stat_lem _ w b))
        (λ m u. Quiet-pure Before After (λ m. Unit) _ (regular-Post m))
    where
      stat_reply-Quiet :
          (r : World × Reply FileMetadata)
          → Before r.0
          → Quiet Before After (λ found. Unit {0}) (stat_reply runtime path r)
      stat_reply-Quiet (w, replied metadata) b =
          Quiet-bind Before After (λ u. Unit {0}) (λ found. Unit {0}) (call runtime.checkpoint)
            (λ u. pure (if path_eq metadata.path path then ok (some metadata) else err internal))
            (Quiet-call Before After runtime.checkpoint host.checkpoint_lem)
            (λ u t.
              Quiet-pure Before After (λ found. Unit {0})
                (if path_eq metadata.path path then ok (some metadata) else err internal)
                (Post-if (λ found. Unit) (path_eq metadata.path path) (ok (some metadata))
                  (err internal) (λ b. returns (some metadata) tt) (λ b. fails internal)))
            w b
      stat_reply-Quiet (w, failed not_found) b = with_value w none b tt
      stat_reply-Quiet (w, failed e) b = with_error w e b

      regular-Post : (m : Option FileMetadata) → Post (λ found. Unit {0}) (regular m)
      regular-Post none = returns none tt
      regular-Post (some metadata) =
          Post-if (λ found. Unit) (is_file metadata.kind) (ok (some metadata))
            (err (kind_error metadata.kind)) (λ b. returns (some metadata) tt)
            (λ b. fails (kind_error metadata.kind))

  pub read_text-IsQuiet :
      (path : ExecutionPath) (max_file_bytes chunk_bytes : ℕ)
      → IsQuiet Before After
          (WholeFile runtime path max_file_bytes)
          (read_text runtime path max_file_bytes chunk_bytes)
  unfolding read_text
  read_text-IsQuiet path max_file_bytes chunk_bytes =
      let P : Text × FileMetadata → Type 0 = WholeFile runtime path max_file_bytes in
      Quiet-bind Before After (λ found. Unit) P _ _ (stat_optional-IsQuiet path)
        (λ found u.
          Quiet-option Before After P found _ _
            (λ metadata e. read_contents-IsQuiet max_file_bytes chunk_bytes path metadata)
            (λ e. Quiet-pure Before After P _ (fails _)))

module _ {World : Type 0} (runtime : Runtime World) where
  -- Whatever the host replies, `read_text` ends within one round more than the file has bytes: with an
  -- error, or with the text of the whole file, no larger than the limit: decoded from the bytes that the host
  -- replied with for one revision of it, each piece asked for behind those in front of it, as many as its size.
  pub read_text-Always :
      (path : ExecutionPath) (max_file_bytes chunk_bytes : ℕ)
      → Always
          (WholeFile runtime path max_file_bytes)
          (read_text runtime path max_file_bytes chunk_bytes)
  read_text-Always path max_file_bytes chunk_bytes =
      Quiet-Always (λ w. Unit) (λ w. Unit) (λ w. tt)
        (read_text-IsQuiet runtime (λ w. Unit) (λ w. Unit) (λ request. Unit) (any-IsHost runtime)
          path max_file_bytes chunk_bytes)
