-- ===== src/Edit/Reading.antt =====
-- The reads of the edit tool (content.rs): their rounds, and what is read.
use agent_pane.Prelude.{
  ℕ, zero, suc, ◌+◌, ◌≤◌, min, List, [], ◌∷◌, ◌++◌, ◌≡◌, refl, sym, Bool, true, false, ◌&&◌, ◌||◌,
  not, some, Text, length, is_empty, ltb, ◌==◌, same, if◌then◌else◌, arith, length-append,
}
use agent_pane.Prelude.Machine.{checked_add}
use agent_pane.Execution.{ok}
use agent_pane.Execution.Post.{Post, returns, fails, Post-if, Post-option, Post-imp}
use agent_pane.Execution.Files.{
  contains-append, ExecutionPath, path_eq, path_eq_lem, has_revision_lem, contains, is_file,
  has_revision, FileMetadata, ReadFileResult, WriteFileRequest,
}
use agent_pane.Execution.Runtime.{or_max, Runtime, pure, call}
use agent_pane.Execution.Runtime.Sends.{
  IsHost, IsQuiet, Quiet-pure, Quiet-call, Quiet-reply, Quiet-bind, Quiet-if,
}
use agent_pane.Execution.Runtime.Pieces.{IsReplyAt, Pieces}
use mathlib.Core.Path.{subst}
use agent_pane.Edit.Content.{
  check_metadata, is_other, is_invalid, accept_reply, read_piece, read_pieces, read,
}

-- More bytes than before, without a NUL, and no more than the file has; the file is at its end where
-- they are all.
Reads : FileMetadata → ℕ → List ℕ × Bool → Type 0
Reads metadata before (bytes, true) = (contains 0 bytes ≡ false) × (length bytes ≡ metadata.size)
Reads metadata before (bytes, false) =
    (contains 0 bytes ≡ false) × (before + 1 ≤ length bytes) × (length bytes + 1 ≤ metadata.size)

accepted :
    (metadata : FileMetadata) (end : ℕ) (bytes new : List ℕ) (eof : Bool)
    → end ≡ length bytes + length new
    → (is_empty new && not eof) ≡ false
    → (ltb metadata.size end || not (same eof (end == metadata.size))) ≡ false
    → contains 0 (bytes ++ new) ≡ false
    → Reads metadata (length bytes) (bytes ++ new, eof)
unfolding Reads
accepted metadata end bytes new true e f g h =
    let k : end ≡ metadata.size = ground arith in (h, omega (arith, length-append bytes new))
accepted metadata end bytes [] false e f g h = absurd (cc)
accepted metadata end bytes (b ∷ new) false e f g h =
    let k : end + 1 ≤ metadata.size = ground arith in
    (h, omega (arith, length-append bytes (b ∷ new)), omega (arith, length-append bytes (b ∷ new)))

-- What a reply is taken for: the bytes with those of the reply, which is of this file.
abbrev Taken :
    ExecutionPath → FileMetadata → Text → List ℕ → ReadFileResult → List ℕ × Bool → Type 0
Taken path metadata revision bytes reply (more, eof) =
    Reads metadata (length bytes) (more, eof)
    × ((more ≡ bytes ++ reply.data_bytes)
        × IsReplyAt path revision metadata.size (length bytes) reply)

accept_reply-Post :
    (path : ExecutionPath) (revision : Text) (metadata : FileMetadata) (max_bytes : ℕ)
    (bytes : List ℕ) (reply : ReadFileResult)
    → contains 0 bytes ≡ false
    → Post
        (Taken path metadata revision bytes reply)
        (accept_reply path revision metadata max_bytes bytes reply)
unfolding accept_reply checked_add
accept_reply-Post path revision metadata max_bytes bytes reply clean =
    let P : List ℕ × Bool → Type 0 = Taken path metadata revision bytes reply in
    let new : List ℕ = reply.data_bytes in
    Post-if P (is_other revision metadata reply) _ _ (λ a. fails _)
      (λ a.
        Post-if P (is_invalid path max_bytes bytes reply) _ _ (λ b. fails _)
          (λ b.
            Post-option P (checked_add (length bytes) (length new)) _ _
              (λ end e.
                Post-if P (ltb metadata.size end || not (same reply.eof (end == metadata.size))) _ _
                  (λ c. fails _)
                  (λ c.
                    Post-if P (contains 0 new) _ _ (λ d. fails _)
                      (λ d.
                        returns (bytes ++ new, reply.eof)
                          (
                            accepted metadata end bytes new reply.eof (ground arith) (ground arith)
                                c (contains-append 0 bytes new clean d),
                            (refl, of_file a b),
                          ))))
              (fails _)))
  where
    of_file :
        is_other revision metadata reply ≡ false
        → is_invalid path max_bytes bytes reply ≡ false
        → IsReplyAt path revision metadata.size (length bytes) reply
    of_file a b = record {
      path_lem = path_eq_lem reply.metadata.path path (ground arith);
      kind_lem = ground arith;
      revision_lem = has_revision_lem revision reply.metadata.revision (ground arith);
      size_lem = ground arith;
      offset_lem = ground arith;
    }

module _ {World : Type 0} (runtime : Runtime World) where
  -- The text of the whole file at the path with this revision, without a NUL and no larger than allowed:
  -- decoded from the bytes that the host replied with for this revision of it, as many as its size.
  pub record IsContent (path : ExecutionPath) (revision : Text) (max_file_bytes : ℕ)
      (content : Text) : Type 0 where
    pub size : ℕ
    pub bytes : List ℕ
    pub pieces : Pieces runtime path revision size bytes
    pub all : length bytes ≡ size
    pub decoded : runtime.from_utf8 bytes ≡ some content
    pub no_nul : contains 0 bytes ≡ false
    pub fits : size ≤ max_file_bytes

  -- All bytes of the file, without a NUL, with what is replied for them.
  abbrev AreAll : ExecutionPath → Text → FileMetadata → List ℕ → Type 0
  AreAll path revision metadata all =
      Pieces runtime path revision metadata.size all
      × ((contains 0 all ≡ false) × (length all ≡ metadata.size))

  abbrev AreMore : ExecutionPath → Text → FileMetadata → List ℕ → List ℕ × Bool → Type 0
  AreMore path revision metadata bytes (more, eof) =
      Pieces runtime path revision metadata.size more × Reads metadata (length bytes) (more, eof)

module _ {World : Type 0} (runtime : Runtime World) (Before After : World → Type 0)
    (Allowed : WriteFileRequest → Type 0) (host : IsHost Before After Allowed runtime) where
  checkpoint_quiet : IsQuiet Before After (λ u. Unit {0}) (call runtime.checkpoint)
  checkpoint_quiet = Quiet-call Before After runtime.checkpoint host.checkpoint_lem

  read_piece-IsQuiet :
      (path : ExecutionPath) (revision : Text) (metadata : FileMetadata) (chunk : ℕ)
      (bytes : List ℕ)
      → contains 0 bytes ≡ false
      → Pieces runtime path revision metadata.size bytes
      → IsQuiet Before After
          (AreMore runtime path revision metadata bytes)
          (read_piece runtime path revision metadata chunk bytes)
  unfolding read_piece
  read_piece-IsQuiet path revision metadata chunk bytes clean pieces =
      let P : List ℕ × Bool → Type 0 = AreMore runtime path revision metadata bytes in
      Quiet-bind Before After _ P _ _ checkpoint_quiet (λ u _.
        Quiet-bind Before After _ P _ _
          (Quiet-reply Before After (runtime.read _) (host.read_lem _))
          (λ reply told. Quiet-bind Before After _ P _ _ checkpoint_quiet (λ u _.
            Quiet-pure Before After P _ (
              Post-imp (Taken path metadata revision bytes reply) P _
                (λ (more, eof) (r, (e, at)). (
                  subst (Pieces runtime path revision metadata.size) (sym e)
                      (Pieces.piece bytes _ reply pieces refl refl told at),
                  r,
                ))
                (accept_reply-Post path revision metadata _ bytes reply clean)))))

  read_pieces-IsQuiet :
      (rounds : ℕ) (path : ExecutionPath) (revision : Text) (metadata : FileMetadata) (chunk : ℕ)
      (bytes : List ℕ)
      → metadata.size + 1 ≤ rounds + length bytes
      → length bytes ≤ metadata.size
      → contains 0 bytes ≡ false
      → Pieces runtime path revision metadata.size bytes
      → IsQuiet Before After
          (AreAll runtime path revision metadata)
          (read_pieces runtime rounds path revision metadata chunk bytes)
  unfolding read_pieces Reads
  read_pieces-IsQuiet zero path revision metadata chunk bytes h k clean p = absurd (omega arith)
  read_pieces-IsQuiet (suc rounds) path revision metadata chunk bytes h k clean p =
      Quiet-bind Before After (AreMore runtime path revision metadata bytes)
        (AreAll runtime path revision metadata) _ _
        (read_piece-IsQuiet path revision metadata chunk bytes clean p)
        (λ (more, eof) (q, r).
          further
            (λ more a b c q. read_pieces-IsQuiet rounds path revision metadata chunk more a b c q)
            more q eof r)
    where
      further :
          ((more : List ℕ)
            → metadata.size + 1 ≤ rounds + length more
            → length more ≤ metadata.size
            → contains 0 more ≡ false
            → Pieces runtime path revision metadata.size more
            → IsQuiet Before After
                (AreAll runtime path revision metadata)
                (read_pieces runtime rounds path revision metadata chunk more))
          → (more : List ℕ) → Pieces runtime path revision metadata.size more
          → (eof : Bool) → Reads metadata (length bytes) (more, eof)
          → IsQuiet Before After (AreAll runtime path revision metadata) (
              if eof
              then pure (ok more)
              else read_pieces runtime rounds path revision metadata chunk more)
      further loop more q true r =
          Quiet-pure Before After (AreAll runtime path revision metadata) (ok more)
            (returns more (q, r))
      further loop more q false (c, a, b) = loop more (omega arith) (omega arith) c q

  check_metadata-Post :
      (path : ExecutionPath) (revision : Text) (max_file_bytes : ℕ) (metadata : FileMetadata)
      → Post
          (λ u. metadata.size ≤ max_file_bytes)
          (check_metadata path revision max_file_bytes metadata)
  unfolding check_metadata
  check_metadata-Post path revision max_file_bytes metadata =
      Post-if _ (not (path_eq metadata.path path)) _ _ (λ a. fails _)
        (λ a.
          Post-if _ (not (is_file metadata.kind)) _ _ (λ b. fails _)
            (λ b.
              Post-if _ (not (has_revision revision metadata.revision)) _ _ (λ c. fails _)
                (λ c.
                  Post-if _ (ltb max_file_bytes metadata.size) _ _ (λ d. fails _)
                    (λ d. returns tt (ground arith)))))

  pub read-IsContent :
      (path : ExecutionPath) (revision : Text) (max_file_bytes chunk_bytes : ℕ)
      → IsQuiet Before After
          (IsContent runtime path revision max_file_bytes)
          (read runtime path revision max_file_bytes chunk_bytes)
  unfolding read
  read-IsContent path revision max_file_bytes chunk_bytes =
      Quiet-bind Before After _ _ _ _ (Quiet-call Before After (runtime.stat _) (host.stat_lem _))
        (λ metadata _. Quiet-bind Before After _ _ _ _ checkpoint_quiet (λ u _.
          Quiet-bind Before After _ _ _ _
            (Quiet-pure Before After _ _
              (check_metadata-Post path revision max_file_bytes metadata))
            (λ u fits.
              Quiet-if Before After (IsContent runtime path revision max_file_bytes)
                (min chunk_bytes (or_max runtime.descriptor.max_read_bytes) == 0) _ _
                (λ b. Quiet-pure Before After _ _ (fails _))
                (λ b.
                  Quiet-bind Before After (AreAll runtime path revision metadata) _ _ _
                    (read_pieces-IsQuiet (metadata.size + 1) path revision metadata _ []
                      (omega arith) (omega arith) refl Pieces.no_piece)
                    (λ bytes (pieces, (clean, all)). Quiet-pure Before After _ _ (
                      Post-option _ (runtime.from_utf8 bytes) _ _
                        (λ content e. returns content (record {
                          size = metadata.size;
                          bytes = bytes;
                          pieces = pieces;
                          all = all;
                          decoded = e;
                          no_nul = clean;
                          fits = fits;
                        }))
                        (fails _)))))))
