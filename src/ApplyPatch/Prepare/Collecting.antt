-- ===== src/ApplyPatch/Prepare/Collecting.antt =====
-- The loop of `prepare` (prepare.rs): what is collected of the hunks.
use agent_pane.Prelude.{
  ℕ, ◌+◌, ◌≤◌, List, [], ◌∷◌, ◌++◌, map, ◌≡◌, refl, sym, ap, ◌∙◌, false, Option, none, some, Text,
  length, is_some, leb, if◌then◌else◌, arith, All, All-append, length-append, map-append,
  append_assoc, append-nil,
}
use mathlib.Core.Path.{subst}
use agent_pane.Prelude.Machine.{checked_add, checked_add-some}
use agent_pane.Execution.Post.{Post, returns, fails, Post-if, Post-option, Post-bind}
use agent_pane.Execution.Files.{ExecutionPath, WriteFileRequest}
use agent_pane.Execution.Runtime.{Descriptor, Runtime}
use agent_pane.Execution.Runtime.Sends.{IsHost, IsQuiet, Quiet-pure, Quiet-call, Quiet-bind}
use agent_pane.PathResolution.Rooted.{IsRooted, resolve_path_normalized-IsRooted}
use agent_pane.ApplyPatch.Hunk.{
  Hunk, add_file, delete_file, update_file, source_path, affected_path,
}
use agent_pane.ApplyPatch.InOrder.{chunks_in_order}
use agent_pane.ApplyPatch.InOrder.Hunks.{HasContextInOrder}
use agent_pane.ApplyPatch.Update.Safety.{derive_new_contents-Post}
use agent_pane.ApplyPatch.Files.Reading.{read_text-IsQuiet}
use agent_pane.ApplyPatch.Tool.{
  ApplyPatchConfig, AppliedPatchChangeKind, PreparedHunk, Tool, hunk_operations, operation_count,
}
use agent_pane.ApplyPatch.Apply.Progress.{IsPrepared, ArePrepared}
use agent_pane.ApplyPatch.Prepare.{
  Collected, is_among, next_count, collect, resolve_target, resolve_move, verify_hunk, prepare_hunk,
  prepare_hunks,
}

-- The sources of hunks, the last one first.
abbrev pub sources_of : List PreparedHunk → List ExecutionPath → List ExecutionPath
sources_of [] ps = ps
sources_of (h ∷ hs) ps = sources_of hs (h.source ∷ ps)

-- No path is there twice.
abbrev pub AreDistinct : List ExecutionPath → Type 0
AreDistinct [] = Unit
AreDistinct (p ∷ ps) = (is_among p ps ≡ false) × AreDistinct ps

-- The source and the destination lie below roots of the host.
abbrev pub IsDestination : Descriptor → Option ExecutionPath → Type 0
IsDestination host none = Unit
IsDestination host (some p) = IsRooted host p

abbrev pub HasTargets : Descriptor → PreparedHunk → Type 0
HasTargets host h = IsRooted host h.source × IsDestination host h.destination

-- What is collected of the hunks that are done.
pub record IsCollected (host : Descriptor) (config : ApplyPatchConfig) (done : List Hunk)
    (c : Collected) : Type 0 where
  pub hunks_lem : map (λ h. h.hunk) c.hunks ≡ done
  pub changes_lem : map (λ x. x.path) c.changes ≡ map affected_path done
  pub length_lem : length c.changes ≡ length c.hunks
  pub prepared : ArePrepared c.hunks
  pub targets : All (HasTargets host) c.hunks
  pub sources_lem : sources_of c.hunks [] ≡ c.sources
  pub distinct : AreDistinct c.sources
  pub count_lem : c.count ≡ operation_count c.hunks
  pub limit : c.count ≤ config.max_operations

sources_of-append :
    (hs : List PreparedHunk) (h : PreparedHunk) (ps : List ExecutionPath)
    → sources_of (hs ++ h ∷ []) ps ≡ h.source ∷ sources_of hs ps
sources_of-append [] h ps = refl
sources_of-append (g ∷ hs) h ps = sources_of-append hs h (g.source ∷ ps)

operation_count-append :
    (hs : List PreparedHunk) (h : PreparedHunk)
    → operation_count (hs ++ h ∷ []) ≡ operation_count hs + hunk_operations h
unfolding operation_count
operation_count-append [] h = omega arith
operation_count-append (g ∷ hs) h = omega (arith, operation_count-append hs h)

ArePrepared-append :
    (hs : List PreparedHunk) (h : PreparedHunk)
    → ArePrepared hs
    → IsPrepared h.hunk (is_some h.destination)
    → ArePrepared (hs ++ h ∷ [])
ArePrepared-append [] h p q = (q, tt)
ArePrepared-append (g ∷ hs) h (p, ps) q = (p, ArePrepared-append hs h ps q)

next_count-Post :
    (config : ApplyPatchConfig) (count : ℕ) (destination : Option ExecutionPath)
    → Post
        (λ n. (n ≡ count + (if is_some destination then 2 else 1)) × (n ≤ config.max_operations))
        (next_count config count destination)
unfolding next_count
next_count-Post config count destination =
    let k : ℕ = if is_some destination then 2 else 1 in
    Post-option _ (checked_add count k) _ _
      (λ n e.
        Post-if _ (leb n config.max_operations) _ _
          (λ b. returns n (checked_add-some count k n e, ground arith)) (λ b. fails _))
      (fails _)

module _ {World : Type 0} (runtime : Runtime World) (tool : Tool) (Before After : World → Type 0)
    (Allowed : WriteFileRequest → Type 0) (host : IsHost Before After Allowed runtime) where
  -- What is found of a hunk.
  abbrev IsVerified : Hunk → AppliedPatchChangeKind × Option ExecutionPath → Type 0
  IsVerified hunk (kind, destination) =
      IsPrepared hunk (is_some destination) × IsDestination runtime.descriptor destination

  resolve_move-Post :
      (move_path : Option Text)
      → Post (IsDestination runtime.descriptor) (resolve_move runtime tool move_path)
  unfolding resolve_move resolve_target
  resolve_move-Post none = returns none tt
  resolve_move-Post (some path) =
      Post-bind (IsRooted runtime.descriptor) (IsDestination runtime.descriptor) _ _
        (resolve_path_normalized-IsRooted runtime.descriptor tool.cwd path)
        (λ p h. returns (some p) h)

  verify_hunk-IsQuiet :
      (source : ExecutionPath) (hunk : Hunk)
      → HasContextInOrder hunk
      → IsQuiet Before After (IsVerified hunk) (verify_hunk runtime tool source hunk)
  unfolding verify_hunk
  verify_hunk-IsQuiet source (add_file path contents) h =
      Quiet-pure Before After _ _ (returns _ (refl, tt))
  verify_hunk-IsQuiet source (delete_file path) h =
      Quiet-bind Before After _ _ _ _
        (read_text-IsQuiet runtime Before After Allowed host source tool.config.max_file_bytes
          tool.config.chunk_bytes)
        (λ r _. Quiet-pure Before After _ _ (returns _ (refl, tt)))
  verify_hunk-IsQuiet source (update_file path move_path chunks) h =
      Quiet-bind Before After _ _ _ _
        (read_text-IsQuiet runtime Before After Allowed host source tool.config.max_file_bytes
          tool.config.chunk_bytes)
        (λ (original, metadata) _.
          Quiet-pure Before After (IsVerified (update_file path move_path chunks)) _ (
            Post-bind _ _ _ _
              (derive_new_contents-Post tool.config.update_file_mode original chunks
                (chunks_in_order chunks h))
              (λ contents _.
                Post-bind (IsDestination runtime.descriptor) _ _ _ (resolve_move-Post move_path)
                  (λ d k. returns _ (chunks_in_order chunks h, k)))))

  collected :
      (done : List Hunk) (c : Collected) (hunk : Hunk) (source : ExecutionPath)
      (kind : AppliedPatchChangeKind) (destination : Option ExecutionPath) (n : ℕ)
      → IsCollected runtime.descriptor tool.config done c
      → IsRooted runtime.descriptor source
      → is_among source c.sources ≡ false
      → IsVerified hunk (kind, destination)
      → n ≡ c.count + (if is_some destination then 2 else 1)
      → n ≤ tool.config.max_operations
      → IsCollected runtime.descriptor tool.config
          (done ++ hunk ∷ [])
          (collect c hunk source (kind, destination) n)
  collected done c hunk source kind destination n k r fresh (p, d) e l =
      let h : PreparedHunk = record { source = source; destination = destination; hunk = hunk } in
      record {
        hunks_lem =
            map-append (λ h. h.hunk) c.hunks (h ∷ []) ∙ ap (λ hs. hs ++ hunk ∷ []) k.hunks_lem;
        changes_lem =
            map-append (λ x. x.path) c.changes _
            ∙ (ap (λ ps. ps ++ affected_path hunk ∷ []) k.changes_lem
                ∙ sym (map-append affected_path done (hunk ∷ [])));
        length_lem = omega (
          arith,
          length-append c.changes (record { kind = kind; path = affected_path hunk } ∷ []),
          length-append c.hunks (h ∷ []),
          k.length_lem,
        );
        prepared = ArePrepared-append c.hunks h k.prepared p;
        targets =
            All-append (HasTargets runtime.descriptor) c.hunks (h ∷ []) k.targets ((r, d), tt);
        sources_lem = sources_of-append c.hunks h [] ∙ ap (λ ps. source ∷ ps) k.sources_lem;
        distinct = (fresh, k.distinct);
        count_lem =
            e
            ∙ (ap (λ m. m + (if is_some destination then 2 else 1)) k.count_lem
                ∙ sym (operation_count-append c.hunks h));
        limit = l;
      }

  prepare_hunk-IsCollected :
      (done : List Hunk) (c : Collected) (hunk : Hunk)
      → IsCollected runtime.descriptor tool.config done c
      → HasContextInOrder hunk
      → IsQuiet Before After
          (IsCollected runtime.descriptor tool.config (done ++ hunk ∷ []))
          (prepare_hunk runtime tool c hunk)
  unfolding prepare_hunk resolve_target
  prepare_hunk-IsCollected done c hunk k h =
      Quiet-bind Before After _ _ _ _
        (Quiet-call Before After runtime.checkpoint host.checkpoint_lem)
        (λ u _.
          Quiet-bind Before After _ _ _ _
            (Quiet-pure Before After _ _
              (resolve_path_normalized-IsRooted runtime.descriptor tool.cwd (source_path hunk)))
            (λ source r.
              Quiet-bind Before After (λ u. is_among source c.sources ≡ false) _ _ _
                (Quiet-pure Before After _ _
                  (Post-if _ (is_among source c.sources) _ _ (λ b. fails _) (λ b. returns tt b)))
                (λ u fresh.
                  Quiet-bind Before After _ _ _ _ (verify_hunk-IsQuiet source hunk h)
                    (λ (kind, destination) v.
                      Quiet-bind Before After _ _ _ _
                        (Quiet-pure Before After _ _
                          (next_count-Post tool.config c.count destination))
                        (λ n (e, l). Quiet-pure Before After _ _ (
                          returns _
                            (collected done c hunk source kind destination n k r fresh v e l)))))))

  pub prepare_hunks-IsCollected :
      (hunks done : List Hunk) (c : Collected)
      → IsCollected runtime.descriptor tool.config done c
      → All HasContextInOrder hunks
      → IsQuiet Before After
          (IsCollected runtime.descriptor tool.config (done ++ hunks))
          (prepare_hunks runtime tool c hunks)
  unfolding prepare_hunks
  prepare_hunks-IsCollected [] done c k h = Quiet-pure Before After _ _ (
      returns c
        (subst (λ hs. IsCollected runtime.descriptor tool.config hs c) (sym (append-nil done)) k))
  prepare_hunks-IsCollected (hunk ∷ hunks) done c k (h, hs) =
      Quiet-bind Before After _ _ _ _ (prepare_hunk-IsCollected done c hunk k h) (λ more m.
        subst
          (λ ks.
            IsQuiet Before After (IsCollected runtime.descriptor tool.config ks)
              (prepare_hunks runtime tool more hunks))
          (append_assoc done (hunk ∷ []) hunks)
          (prepare_hunks-IsCollected hunks (done ++ hunk ∷ []) more m hs))
