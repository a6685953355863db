-- ===== src/ApplyPatch/Apply/Applied.antt =====
-- The steps of an application and what it has asked of the host at its end (`step`, `start` and `apply` of
-- apply-patch).
use agent_pane.Prelude.{
  ℕ, zero, suc, ◌+◌, ◌≤◌, List, [], ◌∷◌, ◌++◌, ◌≡◌, refl, ap, sym, true, false, some, length, take,
  take_all, get_elem?, is_empty, if◌then◌else◌, arith, append-nil,
}
use mathlib.Core.Path.{subst}
use agent_pane.Execution.{ok}
use agent_pane.Execution.Runtime.{Runtime, pure, call}
use agent_pane.ApplyPatch.Tool.{
  PreparedOperation, PreparedHunk, PreparedPatch, RunningPatch, is_complete, PatchProgress,
  checkpoint_required, complete, ApplyPatchOutput, operation_count, Tool,
}
use agent_pane.ApplyPatch.Apply.Steps.{started, apply_counts}
use agent_pane.ApplyPatch.Apply.{
  start, stage_hunk, dispatched, dispatch_next, on_complete, step, apply,
}
use agent_pane.ApplyPatch.Apply.Progress.{ArePrepared, ArePrepared-get_elem, get_elem?-le}
use agent_pane.ApplyPatch.Apply.Staged.{
  Operations-filled, Staged, write_bytes, hunk_operations_of-Staged,
}
use agent_pane.ApplyPatch.Apply.Performed.{
  Performed, Took, IsPerformed, At, IsProgress, dispatch-Ran, dispatched-At,
}
use agent_pane.ApplyPatch.Apply.Trace.{
  Ran, Ran-IsHost, Finishes, Holds-Finishes, Leads, Leads-pure, Leads-returns, Leads-panics,
  Leads-imp, Leads-bind, Leads-call, Leads-quiet, Leads-if, Leads-option,
}

module _ {World : Type 0} (runtime : Runtime World) (tool : Tool) (prepared : PreparedPatch) where
  module _ (start : World) where
    abbrev Reached : List PreparedOperation → World → Type 0
    Reached = Took runtime tool prepared start

    abbrev pub Stays : RunningPatch → World → Type 0
    Stays = IsProgress runtime tool prepared start

    stage_hunk-At :
        (r : RunningPatch) (ops : List PreparedOperation)
        → ArePrepared prepared.hunks
        → r.prepared ≡ prepared
        → r.next_operation ≡ 0
        → Performed runtime tool prepared (take r.hunk_index prepared.hunks) ops
        → r.applied_operations ≡ length ops
        → Leads (Reached ops) Stays (stage_hunk runtime tool r)
    unfolding stage_hunk
    stage_hunk-At r ops ready same zero_next p count =
        Leads-option (Reached ops) Stays (get_elem? r.prepared.hunks r.hunk_index) _ _
          (λ h e.
            let f : get_elem? prepared.hunks r.hunk_index ≡ some h =
              subst (λ q. get_elem? q.hunks r.hunk_index ≡ some h) same e in
            Leads-bind (Reached ops)
              (λ new w. Reached ops w × Staged runtime tool r.prepared h r.applied_operations new)
              Stays _ _
              (Leads-quiet (Reached ops) (λ w. Unit) _ _
                (hunk_operations_of-Staged runtime tool (Reached ops) (λ w. Unit) (λ request. Unit)
                  (Ran-IsHost runtime start ops) r.prepared h r.applied_operations
                  (ArePrepared-get_elem prepared.hunks r.hunk_index h f ready)))
              (λ new.
                Leads-returns _ Stays (record r { pending = new })
                  (λ w (b, s).
                    (same, At.within h ops ops f p (staged h new s) (none_taken new) b count))))
          (λ e. Leads-panics _ Stays)
      where
        staged :
            (h : PreparedHunk) (new : List PreparedOperation)
            → Staged runtime tool r.prepared h r.applied_operations new
            → Staged runtime tool prepared h (length ops) new
        staged h new s =
            subst (λ n. Staged runtime tool prepared h n new) count
              (subst (λ q. Staged runtime tool q h r.applied_operations new) same s)

        none_taken : (new : List PreparedOperation) → ops ≡ ops ++ take r.next_operation new
        none_taken new = rw zero_next (sym (append-nil ops))

    checkpoint_At : (r : RunningPatch) → Leads (Stays r) (λ u. Stays r) (call runtime.checkpoint)
    checkpoint_At r =
        Leads-imp _ _ _ _ (Leads-call (Stays r) runtime.checkpoint)
          (λ u v (w, (b, e)). subst (Stays r) (ap (λ p. p.0) e) (checked w b))
      where
        checked : (w : World) → Stays r w → Stays r (runtime.checkpoint w).0
        checked w (same, At.between ops clear zero_next p ran count) =
            (same, At.between ops clear zero_next p (Ran.checked ops w ran) count)
        checked w (same, At.within h before ops e p s o ran count) =
            (same, At.within h before ops e p s o (Ran.checked ops w ran) count)

    next_step-At :
        (r : RunningPatch)
        → ArePrepared prepared.hunks
        → Leads
            (Stays r)
            Stays
            (if is_empty r.pending then stage_hunk runtime tool r else dispatch_next runtime tool r)
    unfolding dispatch_next
    next_step-At r ready w (same, At.between ops clear zero_next p ran count) =
        Leads-if (Reached ops) Stays (is_empty r.pending) _ _
          (λ b. stage_hunk-At r ops ready same zero_next p count)
          (λ b. absurd (let c : is_empty r.pending ≡ true = ap is_empty clear in cc)) w ran
    next_step-At r ready w (same, At.within h before ops e p s o ran count) =
        Leads-if (Reached ops) Stays (is_empty r.pending) _ _
          (λ b.
            let c : is_empty r.pending ≡ false =
              Operations-filled prepared h (length before) (write_bytes runtime tool) s.content
                r.pending s.operations in
            absurd (cc))
          (λ b.
            Leads-option (Reached ops) Stays (get_elem? r.pending r.next_operation) _ _
              (λ operation g.
                Leads-bind (Reached ops) (λ u. Reached (ops ++ operation ∷ [])) Stays _ _
                  (dispatch-Ran runtime tool prepared start ops operation)
                  (λ u. Leads-returns _ Stays (dispatched r) (λ w ran.
                    dispatched-At runtime tool prepared start r h before ops operation w same e p s
                      o count g ran)))
              (λ e. Leads-panics _ Stays))
          w ran

    complete_lem :
        (r : RunningPatch) (w : World)
        → Stays r w
        → is_complete r ≡ true
        → IsPerformed runtime tool prepared start r w
    unfolding is_complete
    complete_lem r w (same, At.between ops clear zero_next p ran count) done =
        let n : r.hunk_index ≡ length prepared.hunks =
          subst (λ q. r.hunk_index ≡ length q.hunks) same (ground arith) in
        record {
          ops = ops;
          performed =
              subst (λ hs. Performed runtime tool prepared hs ops)
                (take_all r.hunk_index prepared.hunks (omega arith)) p;
          ran = ran;
          counted = count;
        }
    complete_lem r w (same, At.within h before ops e p s o ran count) done =
        let n : r.hunk_index ≡ length prepared.hunks =
          subst (λ q. r.hunk_index ≡ length q.hunks) same (ground arith) in
        absurd (omega (arith, get_elem?-le prepared.hunks r.hunk_index h e))

    -- The output of a patch that is applied.
    abbrev pub Applied : RunningPatch × ApplyPatchOutput → World → Type 0
    Applied (last, output) w =
        IsPerformed runtime tool prepared start last w
        × (output ≡ record { host_id = prepared.host_id; changes = prepared.changes })

    -- Progress that a step leads to.
    abbrev Went : RunningPatch × PatchProgress → World → Type 0
    Went (next, checkpoint_required) w = Stays next w
    Went (next, complete output) w = Applied (next, output) w

    step-At :
        (r : RunningPatch) → ArePrepared prepared.hunks → Leads (Stays r) Went (step runtime tool r)
    unfolding step
    step-At r ready =
        Leads-bind (Stays r) (λ u. Stays r) Went _ _ (Leads-pure _ _ _ (λ u e w b. b))
          (λ u.
            Leads-bind (Stays r) (λ u. Stays r) Went _ _ (Leads-pure _ _ _ (λ u e w b. b))
              (λ u.
                Leads-bind (Stays r) (λ u. Stays r) Went _ _ (checkpoint_At r)
                  (λ u.
                    Leads-if (Stays r) Went (is_complete r) _ _
                      (λ done. Leads-returns _ Went _ (λ w b. (
                        complete_lem r w b done,
                        ap (λ q. record { host_id = q.host_id; changes = q.changes }) b.0,
                      )))
                      (λ more.
                        Leads-bind (Stays r) Stays Went _ _ (next_step-At r ready)
                          (λ next. Leads-returns _ Went (next, checkpoint_required) (λ w b. b))))))

    pub apply-At :
        (rounds : ℕ) (r : RunningPatch)
        → ArePrepared prepared.hunks
        → Leads (Stays r) Applied (apply runtime tool rounds r)
    unfolding apply
    apply-At zero r ready = Leads-panics _ _
    apply-At (suc rounds) r ready =
        Leads-bind (Stays r) Went Applied _ _ (step-At r ready)
          (λ (next, progress). on_progress (λ n. apply-At rounds n ready) next progress)
      where
        on_progress :
            ((n : RunningPatch) → Leads (Stays n) Applied (apply runtime tool rounds n))
            → (next : RunningPatch) (progress : PatchProgress)
            → Leads (Went (next, progress)) Applied (
                on_complete progress
                  (λ output. pure (ok (next, output)))
                  (apply runtime tool rounds next))
        on_progress loop next (complete output) = Leads-returns _ Applied (next, output) (λ w b. b)
        on_progress loop next checkpoint_required = loop next

    -- Progress at the start.
    pub first-At :
        (w : World)
        → Ran runtime start [] w
        → Stays
            (record {
              prepared = prepared;
              hunk_index = 0;
              applied_operations = 0;
              pending = [];
              next_operation = 0;
            })
            w
    first-At w ran = (refl, At.between [] refl refl Performed.no_hunk ran refl)

-- Where a prepared patch is started, on a host that has taken no operation since the state `begin`, `apply`
-- ends however the host replies: with an error, or with the output that tells of the patch's changes, once the
-- host has taken the operations of all hunks, in their order and no others. Those of an added file are one
-- write of its contents to the source, those of a deleted one its removal, those of an update a write of what
-- its chunks lead to from the text of the source that the host replied with, to the source, or to the
-- destination in front of the removal of the source. Every operation is counted. It is supposed that only an
-- update has a destination and that its context lines are in order, as in every patch that `prepare` returns.
-- A round for each hunk and for each operation, and one more, are enough.
pub apply-start :
    {World : Type 0} (runtime : Runtime World) (tool : Tool) (prepared : PreparedPatch)
    (r : RunningPatch) (rounds : ℕ)
    → ArePrepared prepared.hunks
    → start runtime.descriptor tool.config prepared ≡ ok r
    → length prepared.hunks + operation_count prepared.hunks + 1 ≤ rounds
    → (begin w : World) → Ran runtime begin [] w
    → Finishes
        (λ (last, output) v.
          (last.applied_operations ≡ operation_count prepared.hunks)
          × Applied runtime tool prepared begin (last, output) v)
        (apply runtime tool rounds r w)
apply-start runtime tool prepared r rounds ready e enough begin w ran =
    Holds-Finishes _ _ _ (apply_counts runtime tool prepared r rounds ready e enough w) (
      apply-At runtime tool prepared begin rounds r ready w (
        subst (λ q. Stays runtime tool prepared begin q w)
          (started runtime.descriptor tool.config prepared r e)
          (first-At runtime tool prepared begin w ran)))
