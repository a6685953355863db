-- ===== src/ApplyPatch/Apply/Staging.antt =====
-- The operations that a hunk is staged into (`stage_hunk` of apply-patch).
use agent_pane.Prelude.{
  ℕ, ◌+◌, List, [], ◌∷◌, ◌++◌, ◌≡◌, refl, Bool, true, false, ◌||◌, Option, none, some, length,
  is_empty, is_some, ltb, arith, if◌then◌else◌, length-append, trim, codes, Bool-cases, inl, inr,
}
use agent_pane.Execution.{Result, ok, err, invalid_request}
use agent_pane.Execution.Post.{Post, returns, fails, Post-if, Post-bind}
use agent_pane.Execution.Files.{new_id, contains}
use agent_pane.Execution.Runtime.{Runtime}
use agent_pane.Execution.Runtime.Post.{Always, Always-pure, Always-bind}
use agent_pane.ApplyPatch.Hunk.{Hunk, add_file, delete_file, update_file}
use agent_pane.ApplyPatch.Files.Reading.{read_text-Always, WholeFile}
use agent_pane.ApplyPatch.Update.Safety.{derive_new_contents-Post}
use agent_pane.ApplyPatch.Tool.{
  PreparedOperation, PreparedHunk, PreparedPatch, hunk_operations, Tool,
}
use agent_pane.ApplyPatch.Apply.{
  digits, derived_id, is_delete, write_operation, remove_operation, hunk_content,
  hunk_operations_of,
}
use agent_pane.ApplyPatch.Apply.Progress.{IsPrepared}

new_id-Post : (value : List ℕ) → Post (λ id. Unit {0}) (new_id value)
unfolding new_id
new_id-Post value =
    Post-if (λ id. Unit) (is_empty (trim value) || contains 0 value) (err invalid_request)
      (ok value) (λ b. fails invalid_request) (λ b. returns value tt)

pub derived_id-Post : (base : List ℕ) (index : ℕ) → Post (λ id. Unit {0}) (derived_id base index)
unfolding derived_id
derived_id-Post base index =
    new_id-Post (base ++ (codes ":apply_patch:" ++ digits (index + 1) index []))

-- Content comes with every hunk but a removal.
abbrev HasContent : Hunk → Option (List ℕ) → Type 0
HasContent (delete_file path) content = content ≡ none
HasContent _ content = is_some content ≡ true

abbrev one_if : Bool → ℕ
one_if true = 1
one_if false = 0

write_operation-Post :
    (prepared : PreparedPatch) (h : PreparedHunk) (applied limit : ℕ) (content : Option (List ℕ))
    → Post
        (λ ops. length ops ≡ one_if (is_some content))
        (write_operation prepared h applied limit content)
unfolding write_operation
write_operation-Post prepared h applied limit none = returns [] refl
write_operation-Post prepared h applied limit (some bytes) =
    Post-if (λ ops. length ops ≡ 1) (ltb limit (length bytes)) _ _ (λ b. fails _)
      (λ b.
        Post-bind (λ id. Unit) (λ ops. length ops ≡ 1) _ _
          (derived_id-Post prepared.operation_id applied) (λ id u. returns _ refl))

remove_operation-Post :
    (prepared : PreparedPatch) (h : PreparedHunk) (applied : ℕ) (ops : List PreparedOperation)
    → Post
        (λ all. length all ≡ length ops + one_if (is_delete h.hunk || is_some h.destination))
        (remove_operation prepared h applied ops)
unfolding remove_operation
remove_operation-Post prepared h applied ops =
    let all_of : Bool → List PreparedOperation → Type 0 =
      λ b all. length all ≡ length ops + one_if b in
    elim (Bool-cases (is_delete h.hunk || is_some h.destination)) [
      | inl e ↦
          rw (e, remove_operation)
            (Post-bind (λ id. Unit) (all_of true) _ _
              (derived_id-Post prepared.operation_id (applied + length ops))
              (λ id u. returns _ (length-append ops (_ ∷ []))))
      | inr e ↦ rw (e, remove_operation) (returns ops (omega arith))
    ]

-- A write where there is content, and a removal where there is a delete or a destination.
operations_lem :
    (h : Hunk) (moved : Bool) (content : Option (List ℕ))
    → IsPrepared h moved
    → HasContent h content
    → one_if (is_some content) + one_if (is_delete h || moved) ≡ (if moved then 2 else 1)
operations_lem (add_file path contents) moved content p c = rw (c, p) refl
operations_lem (delete_file path) moved content p c = rw (c, p) refl
operations_lem (update_file path move_path chunks) true content p c = rw c refl
operations_lem (update_file path move_path chunks) false content p c = rw c refl

module _ {World : Type 0} (runtime : Runtime World) (tool : Tool) where
  hunk_content-Always :
      (prepared : PreparedPatch) (h : PreparedHunk) (k : Hunk) (moved : Bool)
      → IsPrepared k moved
      → Always (HasContent k) (hunk_content runtime tool prepared h k)
  unfolding hunk_content
  hunk_content-Always prepared h (add_file path contents) moved p =
      Always-pure (λ c. is_some c ≡ true) _ (returns _ refl)
  hunk_content-Always prepared h (delete_file path) moved p =
      Always-pure (λ c. c ≡ none) _ (returns _ refl)
  hunk_content-Always prepared h (update_file path move_path chunks) moved p =
      let P : Option (List ℕ) → Type 0 = λ c. is_some c ≡ true in
      Always-bind (WholeFile runtime h.source tool.config.max_file_bytes) P _ _
        (read_text-Always runtime h.source tool.config.max_file_bytes tool.config.chunk_bytes)
        (λ (original, metadata) u. Always-pure P _ (
          Post-bind (λ t. Unit) P _ _
            (derive_new_contents-Post prepared.update_file_mode original chunks p)
            (λ contents u. returns _ refl)))

  pub hunk_operations_of-Always :
      (prepared : PreparedPatch) (h : PreparedHunk) (applied : ℕ)
      → IsPrepared h.hunk (is_some h.destination)
      → Always
          (λ ops. length ops ≡ hunk_operations h)
          (hunk_operations_of runtime tool prepared h applied)
  unfolding hunk_operations_of
  hunk_operations_of-Always prepared h applied p =
      let P : List PreparedOperation → Type 0 = λ ops. length ops ≡ hunk_operations h in
      Always-bind (HasContent h.hunk) P _ _
        (hunk_content-Always prepared h h.hunk (is_some h.destination) p)
        (λ content c. Always-pure P _ (
          Post-bind (λ ops. length ops ≡ one_if (is_some content)) P _ _
            (write_operation-Post prepared h applied _ content)
            (λ ops l. enough content c ops l (remove_operation-Post prepared h applied ops))))
    where
      enough :
          (content : Option (List ℕ))
          → HasContent h.hunk content
          → (ops : List PreparedOperation) → length ops ≡ one_if (is_some content)
          → {m : Result (List PreparedOperation)}
          → Post
              (λ all. length all ≡ length ops + one_if (is_delete h.hunk || is_some h.destination))
              m
          → Post (λ ops. length ops ≡ hunk_operations h) m
      enough content c ops l (fails e) = fails e
      enough content c ops l (returns all k) =
          returns all (omega (arith, operations_lem h.hunk (is_some h.destination) content p c))
