-- ===== src/Execution.antt =====
-- What the parts of the system share of the execution contract (execution/packages/execution-core):
-- the error codes of error.rs and the results of its operations. An error is its code; the text of
-- a message is not modelled. A slice out of range is a panic.
pub mod Post
pub mod Files
pub mod Runtime
use agent_pane.Prelude.{ℕ}

-- `ExecutionErrorCode`
pub data Code : Type 0 where
  invalid_request invalid_path path_outside_root root_not_found read_only_root unsupported : Code
  permission_denied not_found already_exists not_directory is_directory revision_conflict : Code
  operation_conflict resource_exhausted deadline_exceeded cancelled unavailable : Code
  execution_not_found execution_lost stdin_closed io internal : Code

-- `ExecutionResult`
pub data Result {ℓ} (A : Type ℓ) : Type ℓ where
  ok : A → Result A
  err : Code → Result A
  panic : Result A

infixl 5 ◌>>=◌ ◌>>◌
abbrev pub ◌>>=◌ {ℓ κ} : {A : Type ℓ} {B : Type κ} → Result A → (A → Result B) → Result B
ok a >>= f = f a
err e >>= f = err e
panic >>= f = panic

-- `Result::and_then`
abbrev pub and_then {ℓ κ} : {A : Type ℓ} {B : Type κ} → Result A → (A → Result B) → Result B
and_then m f = m >>= f

abbrev pub ◌>>◌ {ℓ} : {B : Type ℓ} → Result (Unit {0}) → Result B → Result B
m >> k = m >>= λ _. k

-- A 32-bit signed number, such as an exit code; `negsuc n` is -(n + 1).
pub data ℤ : Type 0 where
  pos : ℕ → ℤ
  negsuc : ℕ → ℤ
