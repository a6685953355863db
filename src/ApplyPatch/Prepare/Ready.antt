-- ===== src/ApplyPatch/Prepare/Ready.antt =====
-- What `prepare` returns (prepare.rs), and its way through `start` and `apply` (lib.rs).
use agent_pane.Prelude.{
  ℕ, ◌+◌, ◌≤◌, List, [], ◌∷◌, map, ◌≡◌, ◌≢◌, refl, sym, ap, ◌∙◌, true, false, ◌||◌, not, Text,
  byte_len, text_eq, text_eq_refl, length, is_some, is_empty, ltb, ◌==◌, arith, All,
}
use mathlib.Core.Path.{subst}
use agent_pane.Execution.{ok}
use agent_pane.Execution.Post.{Post, returns, fails, Post-if}
use agent_pane.Execution.Files.{WriteFileRequest}
use agent_pane.Execution.Runtime.{Runtime, Io, pure, ◌>>=◌}
use agent_pane.Execution.Runtime.Sends.{IsHost, IsQuiet, Quiet-pure, Quiet-call, Quiet-bind}
use agent_pane.ApplyPatch.Hunk.{affected_path}
use agent_pane.ApplyPatch.Parser.Error.{Parsed}
use agent_pane.ApplyPatch.Parser.Lines.{ParsedPatch, parse_patch}
use agent_pane.ApplyPatch.Parser.Safety.{parse_patch-ne-panic}
use agent_pane.ApplyPatch.InOrder.{parse_patch-HasContextInOrder}
use agent_pane.ApplyPatch.Tool.{PreparedPatch, RunningPatch, Tool, operation_count}
use agent_pane.ApplyPatch.Apply.{validate, start, apply}
use agent_pane.ApplyPatch.Apply.Progress.{ArePrepared}
use agent_pane.ApplyPatch.Prepare.{Collected, of_parsed, check_parsed, prepared_of, prepare}
use agent_pane.ApplyPatch.Prepare.Collecting.{
  sources_of, AreDistinct, HasTargets, IsCollected, prepare_hunks-IsCollected,
}

-- The progress of a patch that is started.
abbrev pub first : PreparedPatch → RunningPatch
first prepared = record {
  prepared = prepared;
  hunk_index = 0;
  applied_operations = 0;
  pending = [];
  next_operation = 0;
}

-- The rounds for each hunk and each operation, and one more.
abbrev pub rounds_of : PreparedPatch → ℕ
rounds_of prepared = length prepared.hunks + operation_count prepared.hunks + 1

of_parsed-Post :
    (patch : Text)
    → Post (λ parsed. parse_patch patch ≡ Parsed.ok parsed) (of_parsed (parse_patch patch))
of_parsed-Post patch = by_parsed (parse_patch patch) (parse_patch-ne-panic patch)
  where
    by_parsed :
        (m : Parsed ParsedPatch)
        → m ≢ Parsed.panic
        → Post (λ parsed. m ≡ Parsed.ok parsed) (of_parsed m)
    by_parsed (Parsed.ok parsed) h = returns parsed refl
    by_parsed (Parsed.err e) h = fails _
    by_parsed Parsed.panic h = absurd (h refl)

check_parsed-Post :
    (parsed : ParsedPatch)
    → Post (λ hunks. (hunks ≡ parsed.hunks) × (is_empty hunks ≡ false)) (check_parsed parsed)
unfolding check_parsed
check_parsed-Post parsed =
    Post-if _ (is_some parsed.environment_id) _ _ (λ a. fails _)
      (λ a. Post-if _ (is_empty parsed.hunks) _ _ (λ b. fails _) (λ b. returns _ (refl, b)))

is_empty-map {ℓ κ} :
    {A : Type ℓ} {B : Type κ} (f : A → B) (xs : List A) → is_empty xs ≡ is_empty (map f xs)
is_empty-map f [] = refl
is_empty-map f (x ∷ xs) = refl

module _ {World : Type 0} (runtime : Runtime World) (tool : Tool) where
  -- A patch that can be started: the hunks of the parsed patch, each with a source of its own, below
  -- the host's roots.
  pub record IsReady (patch : Text) (prepared : PreparedPatch) : Type 0 where
    pub parsed : ParsedPatch
    pub parsed_lem : parse_patch patch ≡ Parsed.ok parsed
    pub hunks_lem : map (λ h. h.hunk) prepared.hunks ≡ parsed.hunks
    pub changes_lem : map (λ x. x.path) prepared.changes ≡ map affected_path parsed.hunks
    pub are_prepared : ArePrepared prepared.hunks
    pub targets : All (HasTargets runtime.descriptor) prepared.hunks
    pub distinct : AreDistinct (sources_of prepared.hunks [])
    pub starts : start runtime.descriptor tool.config prepared ≡ ok (first prepared)

  start-ok :
      (prepared : PreparedPatch)
      → prepared.version ≡ 2
      → is_empty prepared.hunks ≡ false
      → length prepared.changes ≡ length prepared.hunks
      → prepared.host_id ≡ runtime.descriptor.host_id
      → prepared.generation ≡ runtime.descriptor.supervisor_generation_id
      → operation_count prepared.hunks ≤ tool.config.max_operations
      → start runtime.descriptor tool.config prepared ≡ ok (first prepared)
  unfolding start validate
  start-ok prepared v n l h g m =
      let c : (not (prepared.version == 2)
            || is_empty prepared.hunks
            || not (length prepared.changes == length prepared.hunks))
          ≡ false =
        ground arith in
      let d : text_eq prepared.host_id runtime.descriptor.host_id ≡ true =
        rw h (text_eq_refl runtime.descriptor.host_id) in
      let e : text_eq prepared.generation runtime.descriptor.supervisor_generation_id ≡ true =
        rw g (text_eq_refl runtime.descriptor.supervisor_generation_id) in
      let f : ltb tool.config.max_operations (operation_count prepared.hunks) ≡ false =
        ground arith in
      rw (c, d, e, f)

  collected-IsReady :
      (patch operation_id : Text) (parsed : ParsedPatch) (c : Collected)
      → parse_patch patch ≡ Parsed.ok parsed
      → is_empty parsed.hunks ≡ false
      → IsCollected runtime.descriptor tool.config parsed.hunks c
      → IsReady patch (prepared_of runtime tool operation_id c)
  collected-IsReady patch operation_id parsed c e n k = record {
    parsed = parsed;
    parsed_lem = e;
    hunks_lem = k.hunks_lem;
    changes_lem = k.changes_lem;
    are_prepared = k.prepared;
    targets = k.targets;
    distinct = subst AreDistinct (sym k.sources_lem) k.distinct;
    starts =
        start-ok _ refl (is_empty-map (λ h. h.hunk) c.hunks ∙ (ap is_empty k.hunks_lem ∙ n))
          k.length_lem refl refl (omega (arith, k.count_lem, k.limit));
  }

  -- Whatever the host replies, `prepare` writes nothing and does not panic. What it returns holds the
  -- hunks of the parsed patch in their order, with their changes, each with a source of its own; sources and
  -- destinations lie below the host's roots, and `start` takes the patch.
  pub prepare-IsReady :
      (Before After : World → Type 0) (Allowed : WriteFileRequest → Type 0)
      → IsHost Before After Allowed runtime
      → (patch operation_id : Text)
      → IsQuiet Before After (IsReady patch) (prepare runtime tool patch operation_id)
  unfolding prepare
  prepare-IsReady Before After Allowed host patch operation_id =
      Quiet-bind Before After _ _ _ _
        (Quiet-call Before After runtime.checkpoint host.checkpoint_lem)
        (λ u _.
          Quiet-bind Before After (λ u. Unit {0}) _ _ _
            (Quiet-pure Before After _ _ (
              Post-if _ (ltb tool.config.max_patch_bytes (byte_len patch)) _ _ (λ b. fails _)
                (λ b. returns tt tt)))
            (λ u _.
              Quiet-bind Before After _ _ _ _ (Quiet-pure Before After _ _ (of_parsed-Post patch))
                (λ parsed e.
                  Quiet-bind Before After _ _ _ _
                    (Quiet-pure Before After _ _ (check_parsed-Post parsed))
                    (λ hunks (s, n).
                      Quiet-bind Before After (IsCollected runtime.descriptor tool.config hunks) _ _
                        _
                        (prepare_hunks-IsCollected runtime tool Before After Allowed host hunks [] _
                          empty
                          (subst (All _) (sym s) (parse_patch-HasContextInOrder patch parsed e)))
                        (λ c k. Quiet-pure Before After _ _ (
                          returns _ (
                            collected-IsReady patch operation_id parsed c e
                              (ap is_empty (sym s) ∙ n)
                              (subst (λ hs. IsCollected runtime.descriptor tool.config hs c) s
                                k))))))))
    where
      empty :
          IsCollected runtime.descriptor tool.config []
            (record { sources = []; hunks = []; changes = []; count = 0 })
      empty = record {
        hunks_lem = refl;
        changes_lem = refl;
        length_lem = refl;
        prepared = tt;
        targets = tt;
        sources_lem = refl;
        distinct = tt;
        count_lem = unfold operation_count in refl;
        limit = omega arith;
      }

  -- A patch prepared, started and applied, as the harness does it.
  pub run : Text → Text → Io World (PreparedPatch × RunningPatch)
  run patch operation_id = prepare runtime tool patch operation_id >>= λ prepared.
      pure (start runtime.descriptor tool.config prepared) >>= λ r.
      apply runtime tool (rounds_of prepared) r >>= λ (last, output). pure (ok (prepared, last))
