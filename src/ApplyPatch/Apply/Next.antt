-- ===== src/ApplyPatch/Apply/Next.antt =====
-- One step of an application (`stage_hunk` and `dispatch` of apply-patch) and the progress behind it.
use agent_pane.Prelude.{
  suc, ◌+◌, ◌≤◌, ◌<◌, List, [], ◌∷◌, ◌≡◌, refl, ap, ◌∙◌, Bool, true, false, ◌||◌, some, length,
  take, take_all, get_elem?, is_empty, is_some, ltb, arith, if◌then◌else◌, ◌==◌, not, by_test,
  codes, text_eq,
}
use agent_pane.Execution.{Code, ok, err, internal, root_not_found}
use agent_pane.PathResolution.{has_root, validate_cwd}
use agent_pane.Execution.Post.{Post, returns, fails, Post-if, Post-bind}
use agent_pane.Execution.Files.{ExecutionPath, is_valid_path}
use agent_pane.Execution.Runtime.{Descriptor, has_read_only, Runtime}
use agent_pane.Execution.Runtime.Post.{
  Always, Always-pure, Always-call, Always-bind, Always-if, Always-option,
}
use agent_pane.ApplyPatch.Tool.{
  ApplyPatchConfig, PreparedOperation, write, remove, PreparedHunk, PreparedPatch, RunningPatch,
  is_complete, checkpoint_required, hunk_operations, operation_count, validate_target, Tool,
}
use agent_pane.ApplyPatch.Apply.{validate, stage_hunk, dispatch, dispatched, dispatch_next}
use agent_pane.ApplyPatch.Apply.Progress.{
  ArePrepared, Stands, steps_left, Follows, get_elem?-le, get_elem?-none, operation_count-take,
  operation_count-take_le, ArePrepared-get_elem,
}
use agent_pane.ApplyPatch.Apply.Staging.{hunk_operations_of-Always}

pub test-Post :
    (b : Bool) (e : Code) → Post {A = Unit {0}} (λ u. Unit {0}) (if b then err e else ok tt)
test-Post true e = fails e
test-Post false e = returns tt tt

validate_target-Post :
    (host : Descriptor) (p : ExecutionPath)
    → Post {A = Unit {0}} (λ u. Unit {0}) (validate_target host p)
unfolding validate_target validate_cwd
validate_target-Post host p =
    let P : Unit {0} → Type 0 = λ u. Unit {0} in
    Post-bind P P _ _
      (Post-if P (is_valid_path p) _ _
        (λ b.
          Post-if P (has_root p.root_id host.roots) (ok tt) (err root_not_found)
            (λ b. returns tt tt) (λ b. fails _))
        (λ b. fails _))
      (λ u t.
        Post-if P (text_eq p.path (codes ".")) _ _ (λ b. fails _)
          (λ b. test-Post (has_read_only p.root_id host.roots) _))

pub validate-Post :
    (host : Descriptor) (config : ApplyPatchConfig) (prepared : PreparedPatch)
    → Post {A = Unit {0}} (λ u. Unit {0}) (validate host config prepared)
unfolding validate
validate-Post host config prepared =
    let P : Unit {0} → Type 0 = λ u. Unit {0} in
    Post-if P
      (not (prepared.version == 2)
        || is_empty prepared.hunks
        || not (length prepared.changes == length prepared.hunks))
      _ _ (λ b. fails _)
      (λ b.
        Post-if P (not (text_eq prepared.host_id host.host_id)) _ _ (λ b. fails _)
          (λ b.
            Post-if P (not (text_eq prepared.generation host.supervisor_generation_id)) _ _
              (λ b. fails _)
              (λ b. test-Post (ltb config.max_operations (operation_count prepared.hunks)) _)))

hunk_operations_le : (h : PreparedHunk) → 1 ≤ hunk_operations h
hunk_operations_le h =
    by_test (λ n. 1 ≤ n) (is_some h.destination) 2 1 (λ b. omega arith) (λ b. omega arith)

is_empty_lem {ℓ} : {A : Type ℓ} (xs : List A) → 1 ≤ length xs → is_empty xs ≡ false
is_empty_lem [] h = absurd (omega arith)
is_empty_lem (x ∷ xs) h = refl

module _ {World : Type 0} (runtime : Runtime World) (tool : Tool) where
  stage_hunk-Always :
      (r : RunningPatch)
      → ArePrepared r.prepared.hunks
      → r.pending ≡ []
      → r.next_operation ≡ 0
      → r.hunk_index < length r.prepared.hunks
      → r.applied_operations ≡ operation_count (take r.hunk_index r.prepared.hunks)
      → Always (λ next. Follows r (next, checkpoint_required)) (stage_hunk runtime tool r)
  unfolding stage_hunk
  stage_hunk-Always r p clear zero_next lt applied =
      let P : RunningPatch → Type 0 = λ next. Follows r (next, checkpoint_required) in
      Always-option P (get_elem? r.prepared.hunks r.hunk_index) _ _
        (λ h e.
          Always-bind (λ ops. length ops ≡ hunk_operations h) P _ _
            (hunk_operations_of-Always runtime tool r.prepared h r.applied_operations
              (ArePrepared-get_elem r.prepared.hunks r.hunk_index h e p))
            (λ ops l.
              Always-pure P _ (returns (record r { pending = ops }) (refl, staged h e ops l))))
        (λ e. absurd (omega (arith, get_elem?-none r.prepared.hunks r.hunk_index e)))
    where
      staged :
          (h : PreparedHunk)
          → get_elem? r.prepared.hunks r.hunk_index ≡ some h
          → (ops : List PreparedOperation) → length ops ≡ hunk_operations h
          → Stands (record r { pending = ops })
            × (steps_left (record r { pending = ops }) + 1 ≡ steps_left r)
      staged h e ops l =
          let some_op : 1 ≤ length ops = omega (arith, hunk_operations_le h) in
          let full : is_empty ops ≡ false = is_empty_lem ops some_op in
          let empty : is_empty r.pending ≡ true = ap is_empty clear in
          let hunks_count = operation_count-take r.prepared.hunks r.hunk_index h e in
          (
            Stands.within h e l (omega arith) (omega arith),
            rw (full, empty)
                (omega (
                  arith,
                  hunks_count,
                  operation_count-take_le r.prepared.hunks (suc r.hunk_index),
                )),
          )

  dispatch-Always :
      (operation : PreparedOperation) → Always (λ u. Unit {0}) (dispatch runtime tool operation)
  unfolding dispatch
  dispatch-Always (write request) =
      let P : Unit {0} → Type 0 = λ u. Unit {0} in
      Always-bind P P _ _ (Always-pure P _ (validate_target-Post runtime.descriptor request.path))
        (λ u t.
          Always-bind (λ r. Unit) P _ _ (Always-call (runtime.write request))
            (λ reply t. Always-pure P _ (test-Post _ _)))
  dispatch-Always (remove request) =
      let P : Unit {0} → Type 0 = λ u. Unit {0} in
      Always-bind P P _ _ (Always-pure P _ (validate_target-Post runtime.descriptor request.path))
        (λ u t.
          Always-bind (λ r. Unit) P _ _ (Always-call (runtime.remove request))
            (λ reply t. Always-pure P _ (test-Post (not reply.removed) internal)))

  -- A dispatch counts the operation, and goes on to the next hunk behind the last one.
  dispatched_lem :
      (r : RunningPatch) (h : PreparedHunk)
      → get_elem? r.prepared.hunks r.hunk_index ≡ some h
      → length r.pending ≡ hunk_operations h
      → r.next_operation < length r.pending
      → r.applied_operations
        ≡ operation_count (take r.hunk_index r.prepared.hunks) + r.next_operation
      → Follows r (dispatched r, checkpoint_required)
  unfolding dispatched
  dispatched_lem r h e l lt applied =
      let full : is_empty r.pending ≡ false = is_empty_lem r.pending (omega arith) in
      let count = operation_count-take r.prepared.hunks r.hunk_index h e in
      let all = operation_count-take_le r.prepared.hunks (suc r.hunk_index) in
      let inside = get_elem?-le r.prepared.hunks r.hunk_index h e in
      let s : suc r.hunk_index ≡ r.hunk_index + 1 = omega arith in
      let counted : operation_count (take (r.hunk_index + 1) r.prepared.hunks)
          ≡ operation_count (take r.hunk_index r.prepared.hunks) + hunk_operations h =
        rw s at count in
      by_test (λ next. Follows r (next, checkpoint_required))
        (r.next_operation + 1 == length r.pending) _ _
        (λ last.
          let n : r.next_operation + 1 ≡ length r.pending = ground arith in
          (refl, (Stands.between refl refl inside (omega arith), rw full (omega arith))))
        (λ more.
          let n : r.next_operation + 1 < length r.pending = ground arith in
          (refl, (Stands.within h e l n (omega arith), rw full (omega arith))))

  dispatch_next-Always :
      (r : RunningPatch) (h : PreparedHunk)
      → get_elem? r.prepared.hunks r.hunk_index ≡ some h
      → length r.pending ≡ hunk_operations h
      → r.next_operation < length r.pending
      → r.applied_operations
        ≡ operation_count (take r.hunk_index r.prepared.hunks) + r.next_operation
      → Always (λ next. Follows r (next, checkpoint_required)) (dispatch_next runtime tool r)
  unfolding dispatch_next
  dispatch_next-Always r h e l lt applied =
      let P : RunningPatch → Type 0 = λ next. Follows r (next, checkpoint_required) in
      Always-option P (get_elem? r.pending r.next_operation) _ _
        (λ operation o.
          Always-bind (λ u. Unit) P _ _ (dispatch-Always operation)
            (λ u t. Always-pure P _ (returns (dispatched r) (dispatched_lem r h e l lt applied))))
        (λ o. absurd (omega (arith, get_elem?-none r.pending r.next_operation o)))

  -- The step that is not the last.
  pub next_step-Always :
      (r : RunningPatch)
      → ArePrepared r.prepared.hunks
      → Stands r
      → is_complete r ≡ false
      → Always
          (λ next. Follows r (next, checkpoint_required))
          (if is_empty r.pending then stage_hunk runtime tool r else dispatch_next runtime tool r)
  unfolding is_complete
  next_step-Always r p (Stands.between clear zero_next le applied) more =
      let empty : is_empty r.pending ≡ true = ap is_empty clear in
      Always-if (λ next. Follows r (next, checkpoint_required)) (is_empty r.pending) _ _
        (λ b. stage_hunk-Always r p clear zero_next (ground arith) applied) (λ b. absurd (cc))
  next_step-Always r p (Stands.within h e l lt applied) more =
      let full : is_empty r.pending ≡ false = is_empty_lem r.pending (omega arith) in
      Always-if (λ next. Follows r (next, checkpoint_required)) (is_empty r.pending) _ _
        (λ b. absurd (cc)) (λ b. dispatch_next-Always r h e l lt applied)

  pub complete_lem :
      (r : RunningPatch)
      → Stands r
      → is_complete r ≡ true
      → r.applied_operations ≡ operation_count r.prepared.hunks
  unfolding is_complete
  complete_lem r (Stands.between clear zero_next le applied) done =
      let n : r.hunk_index ≡ length r.prepared.hunks = ground arith in
      applied ∙ ap operation_count (take_all r.hunk_index r.prepared.hunks (omega arith))
  complete_lem r (Stands.within h e l lt applied) done =
      let n : r.hunk_index ≡ length r.prepared.hunks = ground arith in
      absurd (omega (arith, get_elem?-le r.prepared.hunks r.hunk_index h e))
