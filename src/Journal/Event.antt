-- ===== src/Journal/Event.antt =====
-- The events of a process (execution/packages/execution-core/src/process.rs) and their form on
-- disk.
use agent_pane.Prelude.{ℕ, ◌≡◌, List, Option, some, Text}
use agent_pane.Execution.{ℤ}

pub data ExecutionState : Type 0 where
  starting running exited failed cancelled lost : ExecutionState

pub data ProcessOutputStream : Type 0 where
  stdout stderr pty : ProcessOutputStream

pub data ProcessEventKind : Type 0 where
  started : ProcessEventKind
  output : ProcessOutputStream → List ℕ → ProcessEventKind
  exited : ℤ → ProcessEventKind
  failed : Text → ProcessEventKind
  closed : ProcessEventKind

pub record ProcessEvent : Type 0 where
  pub sequence : ℕ
  pub timestamp : ℕ
  pub event : ProcessEventKind

-- `serde_json::to_vec` and `serde_json::from_slice` at `ProcessEvent`: what was written is read.
pub record Codec : Type 0 where
  pub encode : ProcessEvent → Option (List ℕ)
  pub decode : List ℕ → Option ProcessEvent
  pub decode-encode : (e : ProcessEvent) (b : List ℕ) → encode e ≡ some b → decode b ≡ some e
