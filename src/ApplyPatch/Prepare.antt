-- ===== src/ApplyPatch/Prepare.antt =====
-- The preparation of a patch (prepare.rs of apply-patch, with `resolve_path` and `prepare` of lib.rs): every
-- hunk is verified by reads. The set of the sources is a list without duplicates.
pub mod Collecting
pub mod Ready
mod Tests
use agent_pane.Prelude.{
  ℕ, ◌+◌, List, [], ◌∷◌, ◌++◌, Bool, true, false, ◌||◌, Option, none, some, Text, byte_len, is_some,
  is_empty, leb, ltb, if◌then◌else◌, on_some,
}
use agent_pane.Prelude.Machine.{checked_add}
use agent_pane.Execution.{Result, ok, err, panic, and_then, invalid_request, resource_exhausted}
use agent_pane.Execution.Files.{ExecutionPath, path_eq}
use agent_pane.Execution.Runtime.{Runtime, Io, pure, call, continue, ◌>>=◌}
use agent_pane.PathResolution.Normalized.{resolve_path_normalized}
use agent_pane.ApplyPatch.Hunk.{
  Hunk, add_file, delete_file, update_file, source_path, affected_path,
}
use agent_pane.ApplyPatch.Parser.Error.{Parsed}
use agent_pane.ApplyPatch.Parser.Lines.{ParsedPatch, parse_patch}
use agent_pane.ApplyPatch.Update.{derive_new_contents}
use agent_pane.ApplyPatch.Files.{read_text}
use agent_pane.ApplyPatch.Tool.{
  ApplyPatchConfig, AppliedPatchChangeKind, add, modify, delete, AppliedPatchChange, PreparedHunk,
  PreparedPatch, Tool,
}

-- A parse error, converted
abbrev pub of_parsed : Parsed ParsedPatch → Result ParsedPatch
of_parsed (Parsed.ok parsed) = ok parsed
of_parsed (Parsed.err e) = err invalid_request
of_parsed Parsed.panic = panic

-- The local variables of the loop.
pub record Collected : Type 0 where
  pub sources : List ExecutionPath
  pub hunks : List PreparedHunk
  pub changes : List AppliedPatchChange
  pub count : ℕ

abbrev pub is_among : ExecutionPath → List ExecutionPath → Bool
is_among p [] = false
is_among p (q ∷ qs) = path_eq p q || is_among p qs

-- The operations so far with those of a hunk, within the limit.
unfoldable pub next_count : ApplyPatchConfig → ℕ → Option ExecutionPath → Result ℕ
unfolding checked_add
next_count config count destination =
    on_some (checked_add count (if is_some destination then 2 else 1))
      (λ n. if leb n config.max_operations then ok n else err resource_exhausted)
      (err resource_exhausted)

abbrev pub collect :
    Collected → Hunk → ExecutionPath → AppliedPatchChangeKind × Option ExecutionPath → ℕ → Collected
collect c hunk source (kind, destination) count = record {
  sources = source ∷ c.sources;
  hunks = c.hunks ++ record { source = source; destination = destination; hunk = hunk } ∷ [];
  changes = c.changes ++ record { kind = kind; path = affected_path hunk } ∷ [];
  count = count;
}

-- The checks on a parsed patch.
unfoldable pub check_parsed : ParsedPatch → Result (List Hunk)
check_parsed parsed =
    if is_some parsed.environment_id
    then err invalid_request
    else if is_empty parsed.hunks
    then err invalid_request
    else ok parsed.hunks

module _ {World : Type 0} (runtime : Runtime World) (tool : Tool) where
  -- `ApplyPatchTool::resolve_path`
  unfoldable pub resolve_target : Text → Result ExecutionPath
  unfolding resolve_path_normalized
  resolve_target path = resolve_path_normalized runtime.descriptor tool.cwd path

  unfoldable pub resolve_move : Option Text → Result (Option ExecutionPath)
  unfolding resolve_target
  resolve_move none = ok none
  resolve_move (some path) = and_then (resolve_target path) (λ p. ok (some p))

  -- The kind of the change and its destination, where the hunk can be applied to what is read.
  unfoldable pub verify_hunk :
      ExecutionPath → Hunk → Io World (AppliedPatchChangeKind × Option ExecutionPath)
  unfolding read_text derive_new_contents resolve_move
  verify_hunk source (add_file path contents) = pure (ok (add, none))
  verify_hunk source (delete_file path) =
      read_text runtime source tool.config.max_file_bytes tool.config.chunk_bytes >>= λ r.
      pure (ok (delete, none))
  verify_hunk source (update_file path move_path chunks) =
      read_text runtime source tool.config.max_file_bytes tool.config.chunk_bytes
      >>= λ (original, metadata). pure (
          and_then (derive_new_contents tool.config.update_file_mode original chunks)
            (λ contents. and_then (resolve_move move_path) (λ d. ok (modify, d))))

  -- One round of the loop.
  unfoldable pub prepare_hunk : Collected → Hunk → Io World Collected
  unfolding path_eq resolve_target verify_hunk next_count source_path
  prepare_hunk c hunk = call runtime.checkpoint >>= λ u.
      pure (resolve_target (source_path hunk)) >>= λ source.
      pure (if is_among source c.sources then err invalid_request else ok (tt {0})) >>= λ u.
      verify_hunk source hunk >>= λ (kind, destination).
      pure (next_count tool.config c.count destination) >>= λ count.
      pure (ok (collect c hunk source (kind, destination) count))

  unfoldable pub prepare_hunks : Collected → List Hunk → Io World Collected
  unfolding prepare_hunk
  prepare_hunks c [] = pure (ok c)
  prepare_hunks c (hunk ∷ hunks) = prepare_hunk c hunk >>= λ more. prepare_hunks more hunks

  abbrev pub prepared_of : Text → Collected → PreparedPatch
  prepared_of operation_id c = record {
    version = 2;
    host_id = runtime.descriptor.host_id;
    generation = runtime.descriptor.supervisor_generation_id;
    operation_id = operation_id;
    update_file_mode = tool.config.update_file_mode;
    hunks = c.hunks;
    changes = c.changes;
  }

  -- `ApplyPatchTool::prepare`
  unfoldable pub prepare : Text → Text → Io World PreparedPatch
  unfolding byte_len parse_patch check_parsed prepare_hunks
  prepare patch operation_id = call runtime.checkpoint >>= λ u.
      pure (
        if ltb tool.config.max_patch_bytes (byte_len patch)
        then err resource_exhausted
        else ok (tt {0}))
      >>= λ u. pure (of_parsed (parse_patch patch)) >>= λ parsed.
          pure (check_parsed parsed) >>= λ hunks.
          prepare_hunks (record { sources = []; hunks = []; changes = []; count = 0 }) hunks
          >>= λ c. pure (ok (prepared_of operation_id c))
