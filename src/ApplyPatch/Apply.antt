-- ===== src/ApplyPatch/Apply.antt =====
-- The application of a prepared patch, one checkpoint after the other (apply.rs and `apply` of lib.rs of
-- apply-patch). A step returns the host, the progress as it is behind the step, and its result. The
-- details that `annotate` adds to an error are not modelled.
pub mod Progress
pub mod Staging
pub mod Next
pub mod Steps
pub mod Trace
pub mod Staged
pub mod Performed
pub mod Applied
mod Tests
use agent_pane.Prelude.{
  ℕ, zero, suc, digits, ◌+◌, ◌/◌, ◌%◌, min, List, [], ◌∷◌, ◌++◌, Bool, true, false, ◌&&◌, ◌||◌, not,
  Option, none, some, Text, codes, text_eq, length, is_empty, is_some, get_elem?, leb, ltb, ◌==◌,
  if◌then◌else◌, on_some,
}
use agent_pane.Execution.{
  Result, ok, err, panic, and_then, invalid_request, execution_lost, resource_exhausted, internal,
}
use agent_pane.Execution.Files.{
  ExecutionPath, path_eq, new_id, WriteFileRequest, WriteCondition, any, in_place,
  RemovePathRequest, RemoveTargetKind,
}
use agent_pane.Execution.Runtime.{or_max, Descriptor, Runtime, Io, pure, call, continue, ◌>>=◌}
use agent_pane.ApplyPatch.Hunk.{Hunk, add_file, delete_file, update_file}
use agent_pane.ApplyPatch.Update.{derive_new_contents}
use agent_pane.ApplyPatch.Files.{read_text}
use agent_pane.ApplyPatch.Tool.{
  ApplyPatchConfig, PreparedOperation, write, remove, PreparedHunk, PreparedPatch, RunningPatch,
  is_complete, ApplyPatchOutput, PatchProgress, checkpoint_required, complete, operation_count,
  validate_target, Tool,
}

unfoldable pub derived_id : Text → ℕ → Result Text
unfolding digits new_id
derived_id base index = new_id (base ++ (codes ":apply_patch:" ++ digits (index + 1) index []))

unfoldable pub validate : Descriptor → ApplyPatchConfig → PreparedPatch → Result (Unit {0})
unfolding operation_count
validate host config prepared =
    if not (prepared.version == 2)
      || is_empty prepared.hunks
      || not (length prepared.changes == length prepared.hunks)
    then err invalid_request
    else if not (text_eq prepared.host_id host.host_id)
    then err invalid_request
    else if not (text_eq prepared.generation host.supervisor_generation_id)
    then err execution_lost
    else if ltb config.max_operations (operation_count prepared.hunks)
    then err resource_exhausted
    else ok tt

-- `ApplyPatchTool::start`
unfoldable pub start : Descriptor → ApplyPatchConfig → PreparedPatch → Result RunningPatch
unfolding validate
start host config prepared = and_then (validate host config prepared) (λ u. ok (record {
  prepared = prepared;
  hunk_index = 0;
  applied_operations = 0;
  pending = [];
  next_operation = 0;
}))

-- The condition of `step` for `invalid patch progress`
unfoldable pub is_invalid_progress : RunningPatch → Bool
is_invalid_progress r =
    ((r.hunk_index == length r.prepared.hunks) && not (is_empty r.pending))
    || ltb (length r.prepared.hunks) r.hunk_index
    || (is_empty r.pending && not (r.next_operation == 0))
    || (not (is_empty r.pending) && leb (length r.pending) r.next_operation)

abbrev pub is_add : Hunk → Bool
is_add (add_file path contents) = true
is_add _ = false

abbrev pub is_delete : Hunk → Bool
is_delete (delete_file path) = true
is_delete _ = false

abbrev pub or_source : PreparedHunk → ExecutionPath
or_source h = on_some h.destination (λ d. d) h.source

-- The first operation of a hunk: its new contents, where it has any.
unfoldable pub write_operation :
    PreparedPatch → PreparedHunk → ℕ → ℕ → Option (List ℕ) → Result (List PreparedOperation)
unfolding derived_id
write_operation prepared h applied limit none = ok []
write_operation prepared h applied limit (some bytes) =
    if ltb limit (length bytes)
    then err resource_exhausted
    else and_then (derived_id prepared.operation_id applied) (λ id. ok (
        write (record {
          expected_generation = some prepared.generation;
          strategy = in_place;
          operation_id = id;
          path = or_source h;
          data_bytes = bytes;
          condition = WriteCondition.any;
          create_parents = is_add h.hunk || is_some h.destination;
          follow_symlinks = true;
        })
        ∷ []))

-- The removal behind it.
unfoldable pub remove_operation :
    PreparedPatch → PreparedHunk → ℕ → List PreparedOperation → Result (List PreparedOperation)
unfolding derived_id
remove_operation prepared h applied operations =
    if is_delete h.hunk || is_some h.destination
    then (and_then (derived_id prepared.operation_id (applied + length operations)) (λ id. ok (
        operations
        ++ remove (record {
          target_kind = RemoveTargetKind.file;
          expected_generation = some prepared.generation;
          operation_id = id;
          path = h.source;
          recursive = false;
          ignore_missing = false;
          expected_revision = none;
        })
          ∷ [])))
    else ok operations

-- The counters behind a dispatch.
unfoldable pub dispatched : RunningPatch → RunningPatch
dispatched r =
    if r.next_operation + 1 == length r.pending
    then record r {
      applied_operations = r.applied_operations + 1;
      hunk_index = r.hunk_index + 1;
      next_operation = 0;
      pending = [];
    }
    else record r {
      applied_operations = r.applied_operations + 1;
      next_operation = r.next_operation + 1;
    }

abbrev on_complete {ℓ} : {A : Type ℓ} → PatchProgress → (ApplyPatchOutput → A) → A → A
on_complete (complete output) f rest = f output
on_complete checkpoint_required f rest = rest

module _ {World : Type 0} (runtime : Runtime World) (tool : Tool) where
  -- The bytes that a hunk writes.
  unfoldable pub hunk_content : PreparedPatch → PreparedHunk → Hunk → Io World (Option (List ℕ))
  unfolding read_text derive_new_contents
  hunk_content prepared h (add_file path contents) = pure (ok (some (runtime.into_bytes contents)))
  hunk_content prepared h (delete_file path) = pure (ok none)
  hunk_content prepared h (update_file path move_path chunks) =
      read_text runtime h.source tool.config.max_file_bytes tool.config.chunk_bytes
      >>= λ (original, metadata). pure (
          and_then (derive_new_contents prepared.update_file_mode original chunks)
            (λ contents. ok (some (runtime.into_bytes contents))))

  unfoldable pub hunk_operations_of :
      PreparedPatch → PreparedHunk → ℕ → Io World (List PreparedOperation)
  unfolding hunk_content write_operation remove_operation
  hunk_operations_of prepared h applied =
      let limit = min tool.config.max_file_bytes (or_max runtime.descriptor.max_write_bytes) in
      hunk_content prepared h h.hunk >>= λ content. pure (
        and_then (write_operation prepared h applied limit content)
          (λ operations. remove_operation prepared h applied operations))

  -- `&prepared.hunks[running.hunk_index]` panics where there is none.
  unfoldable pub stage_hunk : RunningPatch → Io World RunningPatch
  unfolding hunk_operations_of
  stage_hunk r =
      on_some (get_elem? r.prepared.hunks r.hunk_index)
        (λ h. hunk_operations_of r.prepared h r.applied_operations >>= λ operations.
          pure (ok (record r { pending = operations })))
        (pure panic)

  unfoldable pub dispatch : PreparedOperation → Io World (Unit {0})
  unfolding validate_target path_eq
  dispatch (write request) = pure (validate_target runtime.descriptor request.path) >>= λ u.
      call (runtime.write request) >>= λ reply. pure (
        if not (path_eq reply.path request.path)
          || not (reply.bytes_written == length request.data_bytes)
        then err internal
        else ok tt)
  dispatch (remove request) = pure (validate_target runtime.descriptor request.path) >>= λ u.
      call (runtime.remove request) >>= λ reply.
      pure (if not reply.removed then err internal else ok tt)

  -- `&running.pending[running.next_operation]` panics where there is none.
  unfoldable pub dispatch_next : RunningPatch → Io World RunningPatch
  unfolding dispatch dispatched
  dispatch_next r =
      on_some (get_elem? r.pending r.next_operation)
        (λ operation. dispatch operation >>= λ u. pure (ok (dispatched r))) (pure panic)

  -- The checks, and the progress behind the step with what it returns. Where the result is an error
  -- the progress is as it was.
  unfoldable pub step : RunningPatch → Io World (RunningPatch × PatchProgress)
  unfolding validate is_invalid_progress is_complete stage_hunk dispatch_next
  step r = pure (validate runtime.descriptor tool.config r.prepared) >>= λ u.
      pure (if is_invalid_progress r then err invalid_request else ok (tt {0})) >>= λ u.
      call runtime.checkpoint >>= λ u.
      if is_complete r
      then pure
          (ok (r, complete (record { host_id = r.prepared.host_id; changes = r.prepared.changes })))
      else ((if is_empty r.pending then stage_hunk r else dispatch_next r) >>= λ next.
          pure (ok (next, checkpoint_required)))

  -- The loop of `apply`; out of rounds it is a panic. Where a step fails, the progress in front of it,
  -- which the caller's running value holds, is not returned.
  unfoldable pub apply : ℕ → RunningPatch → Io World (RunningPatch × ApplyPatchOutput)
  unfolding step
  apply zero r = pure panic
  apply (suc rounds) r = step r >>= λ (next, progress).
      let rest = apply rounds next in on_complete progress (λ output. pure (ok (next, output))) rest
