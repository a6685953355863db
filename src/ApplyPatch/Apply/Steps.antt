-- ===== src/ApplyPatch/Apply/Steps.antt =====
-- The steps of an application (`step`, `start` and `apply` of apply-patch).
use agent_pane.Prelude.{ℕ, zero, suc, ◌+◌, ◌≤◌, [], ◌≡◌, refl, ap, sym, ◌∙◌, length, arith}
use mathlib.Core.Path.{subst}
use agent_pane.Execution.{Result, ok, err, panic, and_then, invalid_request}
use agent_pane.Execution.Post.{returns}
use agent_pane.Execution.Runtime.{Descriptor, Runtime, pure}
use agent_pane.Execution.Runtime.Post.{Always, Always-pure, Always-call, Always-bind, Always-if}
use agent_pane.ApplyPatch.Tool.{
  ApplyPatchConfig, PreparedPatch, RunningPatch, is_complete, PatchProgress, checkpoint_required,
  complete, ApplyPatchOutput, operation_count, Tool,
}
use agent_pane.ApplyPatch.Apply.{start, validate, is_invalid_progress, on_complete, step, apply}
use agent_pane.ApplyPatch.Apply.Progress.{ArePrepared, Stands, steps_left, Follows}
use agent_pane.ApplyPatch.Apply.Next.{test-Post, validate-Post, next_step-Always, complete_lem}

module _ {World : Type 0} (runtime : Runtime World) (tool : Tool) where
  -- From progress that stands at a hunk or among its operations, a step ends for every host: in an
  -- error, with the output, once all operations are applied, or in progress that stands again, with
  -- one step less to go.
  pub step-Always :
      (r : RunningPatch)
      → ArePrepared r.prepared.hunks
      → Stands r
      → Always (Follows r) (step runtime tool r)
  unfolding step
  step-Always r p stands =
      let P : Unit {0} → Type 0 = λ u. Unit {0} in
      Always-bind P (Follows r) _ _
        (Always-pure P _ (validate-Post runtime.descriptor tool.config r.prepared))
        (λ u t.
          Always-bind P (Follows r) _ _
            (Always-pure P _ (test-Post (is_invalid_progress r) invalid_request))
            (λ u t. Always-bind P (Follows r) _ _ (Always-call runtime.checkpoint) (λ u t.
              Always-if (Follows r) (is_complete r) _ _
                (λ done.
                  Always-pure (Follows r) _
                    (returns _ (refl, complete_lem runtime tool r stands done)))
                (λ more.
                  Always-bind (λ next. Follows r (next, checkpoint_required)) (Follows r) _ _
                    (next_step-Always runtime tool r p stands more)
                    (λ next f.
                      Always-pure (Follows r) _ (returns (next, checkpoint_required) f))))))

  -- From such progress `apply` ends for every host within the steps that are left and one more: in an
  -- error, or with the output once all operations of the patch are applied, each one counted.
  pub apply-Always :
      (rounds : ℕ) (r : RunningPatch)
      → ArePrepared r.prepared.hunks
      → Stands r
      → steps_left r + 1 ≤ rounds
      → Always
          (λ (last, output). last.applied_operations ≡ operation_count r.prepared.hunks)
          (apply runtime tool rounds r)
  unfolding apply
  apply-Always zero r p stands enough = absurd (omega arith)
  apply-Always (suc rounds) r p stands enough =
      let Q : RunningPatch × ApplyPatchOutput → Type 0 =
        λ (last, output). last.applied_operations ≡ operation_count r.prepared.hunks in
      Always-bind (Follows r) Q _ _ (step-Always r p stands)
        (λ (next, progress) f. on_progress (λ n q s e. apply-Always rounds n q s e) next progress f)
    where
      Done : RunningPatch × ApplyPatchOutput → Type 0
      Done (last, output) = last.applied_operations ≡ operation_count r.prepared.hunks

      on_progress :
          ((n : RunningPatch)
            → ArePrepared n.prepared.hunks
            → Stands n
            → steps_left n + 1 ≤ rounds
            → Always
                (λ (last, output). last.applied_operations ≡ operation_count n.prepared.hunks)
                (apply runtime tool rounds n))
          → (next : RunningPatch) (progress : PatchProgress) → Follows r (next, progress)
          → Always Done (
              on_complete progress
                (λ output. pure (ok (next, output)))
                (apply runtime tool rounds next))
      on_progress loop next (complete output) (same, all) =
          Always-pure Done _ (returns (next, output) (ap (λ n. n.applied_operations) same ∙ all))
      on_progress loop next checkpoint_required (same, (s, less)) =
          subst
            (λ q.
              Always (λ (last, output). last.applied_operations ≡ operation_count q.hunks)
                (apply runtime tool rounds next))
            same (loop next (subst (λ q. ArePrepared q.hunks) (sym same) p) s (omega arith))

and_then-ok : {A : Type 0} (m : Result (Unit {0})) (a b : A) → and_then m (λ u. ok a) ≡ ok b → a ≡ b
and_then-ok (ok u) a b e = cc
and_then-ok (err c) a b e = absurd (cc)
and_then-ok panic a b e = absurd (cc)

pub started :
    (host : Descriptor) (config : ApplyPatchConfig) (prepared : PreparedPatch) (r : RunningPatch)
    → start host config prepared ≡ ok r
    → record {
      prepared = prepared;
      hunk_index = 0;
      applied_operations = 0;
      pending = [];
      next_operation = 0;
    }
      ≡ r
unfolding start
started host config prepared r e = and_then-ok (validate host config prepared) _ r e

-- Where a prepared patch is started, `apply` ends for every host: with an error, or with the operations of
-- the patch counted. A round for each hunk and for each operation, and one more, are enough.
pub apply_counts :
    {World : Type 0} (runtime : Runtime World) (tool : Tool) (prepared : PreparedPatch)
    (r : RunningPatch) (rounds : ℕ)
    → ArePrepared prepared.hunks
    → start runtime.descriptor tool.config prepared ≡ ok r
    → length prepared.hunks + operation_count prepared.hunks + 1 ≤ rounds
    → Always
        (λ (last, output). last.applied_operations ≡ operation_count prepared.hunks)
        (apply runtime tool rounds r)
apply_counts runtime tool prepared r rounds p e enough =
    subst
      (λ q.
        Always (λ (last, output). last.applied_operations ≡ operation_count prepared.hunks)
          (apply runtime tool rounds q))
      (started runtime.descriptor tool.config prepared r e)
      (apply-Always runtime tool rounds _ p
        (Stands.between refl refl (omega arith) (unfold operation_count in refl)) (omega arith))
