-- ===== src/ApplyPatch/Apply/Staged.antt =====
-- The operations that a hunk stands for, and that `stage_hunk` of apply-patch stages them.
use agent_pane.Prelude.{
  ℕ, ◌+◌, ◌≤◌, min, List, [], ◌∷◌, ◌≡◌, refl, Bool, true, false, Option, none, some, Text, length,
  ltb, ◌||◌, is_some, is_empty, arith,
}
use agent_pane.Execution.{ok, and_then}
use agent_pane.Execution.Post.{Post, returns, fails, Post-if, Post-bind, Post-self, Post-imp}
use agent_pane.Execution.Files.{
  ExecutionPath, FileMetadata, WriteFileRequest, WriteCondition, in_place, RemoveTargetKind,
}
use agent_pane.Execution.Runtime.{or_max, Runtime}
use agent_pane.Execution.Runtime.Sends.{IsHost, IsQuiet, Quiet-pure, Quiet-bind}
use agent_pane.ApplyPatch.Hunk.{Hunk, add_file, delete_file, update_file}
use agent_pane.ApplyPatch.Update.{derive_new_contents}
use agent_pane.ApplyPatch.Update.Safety.{derive_new_contents-Post}
use agent_pane.ApplyPatch.Files.Reading.{WholeFile, read_text-IsQuiet}
use agent_pane.ApplyPatch.Tool.{PreparedOperation, write, remove, PreparedHunk, PreparedPatch, Tool}
use agent_pane.ApplyPatch.Apply.{
  derived_id, or_source, is_add, is_delete, write_operation, remove_operation, hunk_content,
  hunk_operations_of,
}
use agent_pane.ApplyPatch.Apply.Progress.{IsPrepared}
use agent_pane.ApplyPatch.Apply.Staging.{derived_id-Post}

-- The write of these bytes to the path, whatever is there.
abbrev pub write_of : PreparedPatch → ExecutionPath → List ℕ → Bool → Text → PreparedOperation
write_of prepared path bytes create_parents id = write (record {
  expected_generation = some prepared.generation;
  strategy = in_place;
  operation_id = id;
  path = path;
  data_bytes = bytes;
  condition = WriteCondition.any;
  create_parents = create_parents;
  follow_symlinks = true;
})

-- The removal of the file at the path.
abbrev pub remove_of : PreparedPatch → ExecutionPath → Text → PreparedOperation
remove_of prepared path id = remove (record {
  target_kind = RemoveTargetKind.file;
  expected_generation = some prepared.generation;
  operation_id = id;
  path = path;
  recursive = false;
  ignore_missing = false;
  expected_revision = none;
})

module _ (prepared : PreparedPatch) (h : PreparedHunk) (applied limit : ℕ) where
  -- The operations for new contents, where a hunk has any: a write in place, a write to the destination
  -- and the removal of the source, or the removal alone. Their ids count the operations that are applied.
  pub data Operations : Option (List ℕ) → List PreparedOperation → Type 0 where
    in_source :
        (bytes : List ℕ) (id : Text)
        → length bytes ≤ limit
        → h.destination ≡ none
        → derived_id prepared.operation_id applied ≡ ok id
        → Operations (some bytes) (write_of prepared h.source bytes (is_add h.hunk) id ∷ [])
    moved :
        (destination : ExecutionPath) (bytes : List ℕ) (id next : Text)
        → length bytes ≤ limit
        → h.destination ≡ some destination
        → derived_id prepared.operation_id applied ≡ ok id
        → derived_id prepared.operation_id (applied + 1) ≡ ok next
        → Operations
            (some bytes)
            (write_of prepared destination bytes true id ∷ remove_of prepared h.source next ∷ [])
    deleted :
        (id : Text)
        → is_delete h.hunk ≡ true
        → derived_id prepared.operation_id applied ≡ ok id
        → Operations none (remove_of prepared h.source id ∷ [])

  pub Operations-filled :
      (content : Option (List ℕ)) (ops : List PreparedOperation)
      → Operations content ops
      → is_empty ops ≡ false
  Operations-filled content ops (Operations.in_source bytes id fits d e) = refl
  Operations-filled content ops (Operations.moved d bytes id next fits e f g) = refl
  Operations-filled content ops (Operations.deleted id d e) = refl

module _ {World : Type 0} (runtime : Runtime World) (tool : Tool) where
  -- The new contents of a hunk: those of a new file, none, or those that its chunks lead to from the text of
  -- the whole file at the source, as the host replied with it.
  abbrev pub Content : PreparedPatch → ExecutionPath → Hunk → Option (List ℕ) → Type 0
  Content prepared source (add_file path contents) content =
      content ≡ some (runtime.into_bytes contents)
  Content prepared source (delete_file path) content = content ≡ none
  Content prepared source (update_file path move_path chunks) content =
      (found : Text × FileMetadata) × (WholeFile runtime source tool.config.max_file_bytes found
        × ((contents : Text) × ((derive_new_contents prepared.update_file_mode found.0 chunks
                ≡ ok contents)
              × (content ≡ some (runtime.into_bytes contents)))))

  abbrev pub write_bytes : ℕ
  write_bytes = min tool.config.max_file_bytes (or_max runtime.descriptor.max_write_bytes)

  -- The operations that a hunk stands for.
  pub record Staged (prepared : PreparedPatch) (h : PreparedHunk) (applied : ℕ)
      (ops : List PreparedOperation) : Type 0 where
    pub content : Option (List ℕ)
    pub content_lem : Content prepared h.source h.hunk content
    pub operations : Operations prepared h applied write_bytes content ops

  -- A write is staged, within the limit and with the derived id, and what follows it.
  write_operation-Post :
      (prepared : PreparedPatch) (h : PreparedHunk) (applied : ℕ) (bytes : List ℕ)
      (Q : List PreparedOperation → Type 0)
      → ((id : Text)
          → length bytes ≤ write_bytes
          → derived_id prepared.operation_id applied ≡ ok id
          → Post Q (
              remove_operation prepared h applied (
                write_of prepared (or_source h) bytes (is_add h.hunk || is_some h.destination) id
                ∷ [])))
      → Post Q (
          and_then
            (write_operation prepared h applied write_bytes (some bytes))
            (λ ops. remove_operation prepared h applied ops))
  unfolding write_operation
  write_operation-Post prepared h applied bytes Q k =
      let W : List PreparedOperation → Type 0 = λ ops.
        (id : Text) × ((length bytes ≤ write_bytes)
          × ((derived_id prepared.operation_id applied ≡ ok id)
              × (ops
                  ≡ write_of prepared (or_source h) bytes (is_add h.hunk || is_some h.destination)
                      id
                    ∷ []))) in
      Post-bind W Q _ _
        (Post-if W (ltb write_bytes (length bytes)) _ _ (λ b. fails _)
          (λ b.
            Post-bind (λ id. derived_id prepared.operation_id applied ≡ ok id) W _ _
              (Post-self (λ id. Unit) _ (derived_id-Post prepared.operation_id applied))
              (λ id e. returns _ (id, (ground arith, (e, refl))))))
        (λ ops (id, (fits, (e, same))). rw same (k id fits e))

  Operations-Post :
      (prepared : PreparedPatch) (source : ExecutionPath) (destination : Option ExecutionPath)
      (hunk : Hunk) (applied : ℕ) (content : Option (List ℕ))
      → IsPrepared hunk (is_some destination)
      → Content prepared source hunk content
      → Post
          (Operations prepared
            (record { source = source; destination = destination; hunk = hunk })
            applied
            write_bytes
            content)
          (and_then
            (write_operation prepared
              (record { source = source; destination = destination; hunk = hunk })
              applied
              write_bytes
              content)
            (λ ops.
              remove_operation prepared
                (record { source = source; destination = destination; hunk = hunk })
                applied
                ops))
  unfolding write_operation remove_operation
  Operations-Post prepared source (some d) (add_file path contents) applied content p c =
      absurd (cc)
  Operations-Post prepared source (some d) (delete_file path) applied content p c = absurd (cc)
  Operations-Post prepared source none (add_file path contents) applied none p c = absurd (cc)
  Operations-Post prepared source none (add_file path contents) applied (some bytes) p c =
      write_operation-Post prepared
        (record { source = source; destination = none; hunk = add_file path contents }) applied
        bytes _ (λ id fits e. returns _ (Operations.in_source bytes id fits refl e))
  Operations-Post prepared source none (delete_file path) applied (some bytes) p c = absurd (cc)
  Operations-Post prepared source none (delete_file path) applied none p c =
      let same : applied + 0 ≡ applied = omega arith in
      rw same (
        Post-bind (λ id. derived_id prepared.operation_id applied ≡ ok id) _ _ _
          (Post-self (λ id. Unit) _ (derived_id-Post prepared.operation_id applied))
          (λ id e. returns _ (Operations.deleted id refl e)))
  Operations-Post prepared source destination (update_file path move_path chunks) applied none p
        (f, (w, (t, (d, c)))) =
      absurd (cc)
  Operations-Post prepared source none (update_file path move_path chunks) applied (some bytes) p
        c =
      write_operation-Post prepared
        (record { source = source; destination = none; hunk = update_file path move_path chunks })
        applied bytes _ (λ id fits e. returns _ (Operations.in_source bytes id fits refl e))
  Operations-Post prepared source (some d) (update_file path move_path chunks) applied (some bytes)
        p c =
      write_operation-Post prepared
        (record { source = source; destination = some d; hunk = update_file path move_path chunks })
        applied bytes _
        (λ id fits e.
          Post-bind (λ next. derived_id prepared.operation_id (applied + 1) ≡ ok next) _ _ _
            (Post-self (λ next. Unit) _ (derived_id-Post prepared.operation_id (applied + 1)))
            (λ next f. returns _ (Operations.moved d bytes id next fits refl e f)))

  hunk_content-IsQuiet :
      (Before After : World → Type 0) (Allowed : WriteFileRequest → Type 0)
      → IsHost Before After Allowed runtime
      → (prepared : PreparedPatch) (h : PreparedHunk) (k : Hunk) (is_moved : Bool)
      → IsPrepared k is_moved
      → IsQuiet Before After (Content prepared h.source k) (hunk_content runtime tool prepared h k)
  unfolding hunk_content
  hunk_content-IsQuiet Before After Allowed host prepared h (add_file path contents) is_moved p =
      Quiet-pure Before After (Content prepared h.source (add_file path contents)) _
        (returns _ refl)
  hunk_content-IsQuiet Before After Allowed host prepared h (delete_file path) is_moved p =
      Quiet-pure Before After (Content prepared h.source (delete_file path)) _ (returns _ refl)
  hunk_content-IsQuiet Before After Allowed host prepared h (update_file path move_path chunks)
        is_moved p =
      let P : Option (List ℕ) → Type 0 =
        Content prepared h.source (update_file path move_path chunks) in
      Quiet-bind Before After (WholeFile runtime h.source tool.config.max_file_bytes) P _ _
        (read_text-IsQuiet runtime Before After Allowed host h.source tool.config.max_file_bytes
          tool.config.chunk_bytes)
        (λ (original, metadata) f. Quiet-pure Before After P _ (
          Post-bind (λ t. derive_new_contents prepared.update_file_mode original chunks ≡ ok t) P _
            _
            (Post-self (λ t. Unit) _
              (derive_new_contents-Post prepared.update_file_mode original chunks p))
            (λ contents e. returns _ ((original, metadata), (f, (contents, (e, refl)))))))

  pub hunk_operations_of-Staged :
      (Before After : World → Type 0) (Allowed : WriteFileRequest → Type 0)
      → IsHost Before After Allowed runtime
      → (prepared : PreparedPatch) (h : PreparedHunk) (applied : ℕ)
      → IsPrepared h.hunk (is_some h.destination)
      → IsQuiet Before After
          (Staged prepared h applied)
          (hunk_operations_of runtime tool prepared h applied)
  unfolding hunk_operations_of
  hunk_operations_of-Staged Before After Allowed host prepared h applied p =
      let P : List PreparedOperation → Type 0 = Staged prepared h applied in
      Quiet-bind Before After (Content prepared h.source h.hunk) P _ _
        (hunk_content-IsQuiet Before After Allowed host prepared h h.hunk (is_some h.destination) p)
        (λ content c. Quiet-pure Before After P _ (
          Post-imp _ P _ (λ ops o. record { content = content; content_lem = c; operations = o })
            (Operations-Post prepared h.source h.destination h.hunk applied content p c)))
