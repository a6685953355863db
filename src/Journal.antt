-- ===== src/Journal.antt =====
-- The event journal of one execution
-- (execution/packages/execution-supervisor-core/src/process/journal.rs): the records of a process
-- in a file, with an index in memory. An operation holds the lock on the state from its start to
-- its end, so it is one step; it returns the state beside its result, errors included.
-- `TimestampMs::now` and `Instant::now` are arguments, as is what the file system does with an
-- append. The notification of waiters changes no state.
pub mod Event
pub mod Read
pub mod Layout
pub mod Represents
pub mod Operations
pub mod Stored
pub mod Delivery
pub mod Cursor
mod Tests
use agent_pane.Prelude.{
  ℕ, ◌+◌, ◌-◌, min, max, Bool, true, false, List, [], ◌∷◌, ◌++◌, length, Option, none, some, Text,
  take, if◌then◌else◌,
}
use agent_pane.Prelude.Machine.{saturating_add, u64_max}
use agent_pane.Execution.{Code, Result, ok, err, panic, internal, ℤ}
use Event.{
  ExecutionState, ProcessEventKind, ProcessOutputStream, ProcessEvent, Codec, starting, running,
  started, output,
}

pub record JournalEntry : Type 0 where
  pub first_sequence : ℕ
  pub last_sequence : ℕ
  pub offset : ℕ
  pub length : ℕ
  pub output_bytes : ℕ

pub record JournalState : Type 0 where
  pub next_sequence : ℕ
  pub entries : List JournalEntry
  pub file_length : ℕ
  pub state : ExecutionState
  pub started_at : Option ℕ
  pub exit_code : Option ℤ
  pub finished_at : Option ℕ
  pub closed : Bool

-- The bytes of the file stand beside the state that indexes them.
pub record EventJournal : Type 0 where
  pub file : List ℕ
  pub inner : JournalState

-- What the file system does with an append: it takes all of it, or it fails with a code after the
-- first bytes, none of them where the file does not open.
pub data AppendIo : Type 0 where
  complete : AppendIo
  fails : ℕ → Code → AppendIo

pub initial_state : JournalState
initial_state = record {
  next_sequence = 1;
  entries = [];
  file_length = 0;
  state = starting;
  started_at = none;
  exit_code = none;
  finished_at = none;
  closed = false;
}

-- `create`; the argument is the error of the directory or of the file, if there is one.
pub create : Option Code → Result EventJournal
unfolding initial_state
create none = ok (record { file = []; inner = initial_state })
create (some code) = err code

unfoldable pub is_terminal : ExecutionState → Bool
is_terminal ExecutionState.exited = true
is_terminal ExecutionState.failed = true
is_terminal ExecutionState.cancelled = true
is_terminal ExecutionState.lost = true
is_terminal _ = false

-- `u64::try_from(data.len()).unwrap_or(u64::MAX)`, and 0 for an event that is no output
pub output_bytes : ProcessEventKind → ℕ
output_bytes (output stream bytes) = min (length bytes) u64_max
output_bytes _ = 0

-- The state once a record of `size` bytes is in the file.
pub indexed : JournalState → ProcessEventKind → ℕ → JournalState
unfolding output_bytes
indexed s kind size =
    let span = max (output_bytes kind) 1 in
    let last = saturating_add s.next_sequence (span - 1) in
    let size' = min size u64_max in
    record s {
      entries =
          s.entries
          ++ record {
            first_sequence = s.next_sequence;
            last_sequence = last;
            offset = s.file_length;
            length = size';
            output_bytes = output_bytes kind;
          }
            ∷ [];
      file_length = saturating_add (saturating_add s.file_length size') 1;
      next_sequence = saturating_add last 1;
    }

-- The sequence under which an event is written: the last of its span.
pub written_sequence : JournalState → ProcessEventKind → ℕ
unfolding output_bytes
written_sequence s kind = saturating_add s.next_sequence (max (output_bytes kind) 1 - 1)

-- The record and its newline go to the file; the index follows only if all of it did.
pub write_record :
    AppendIo → ProcessEventKind → List ℕ → EventJournal → Result (Unit {0}) × EventJournal
unfolding indexed
write_record complete kind encoded j = (
  ok tt,
  record { file = j.file ++ (encoded ++ 10 ∷ []); inner = indexed j.inner kind (length encoded) },
)
write_record (fails n code) kind encoded j =
    (err code, record j { file = j.file ++ take n (encoded ++ 10 ∷ []) })

abbrev continue {ℓ} :
    {A : Type ℓ}
    → Result (Unit {0})
    → (EventJournal → Result A × EventJournal)
    → EventJournal
    → Result A × EventJournal
continue (ok _) f j = f j
continue (err code) f j = (err code, j)
continue panic f j = (panic, j)

-- The rest of a method behind `?`; the journal is as the failed call left it.
abbrev pub and_then {ℓ} :
    {A : Type ℓ}
    → Result (Unit {0}) × EventJournal
    → (EventJournal → Result A × EventJournal)
    → Result A × EventJournal
and_then m f = continue m.0 f m.1

-- `state.closed = true` and `state.finished_at`, behind the last append
pub sealed : ℕ → EventJournal → Result (Unit {0}) × EventJournal
sealed instant j =
    (ok tt, record j { inner = record (j.inner) { closed = true; finished_at = some instant } })

module _ (codec : Codec) where
  pub append_locked :
      AppendIo → ℕ → ProcessEventKind → EventJournal → Result (Unit {0}) × EventJournal
  unfolding written_sequence
  append_locked io timestamp kind j =
      elim (codec.encode (record {
        sequence = written_sequence j.inner kind;
        timestamp = timestamp;
        event = kind;
      })) [ none ↦ (err internal, j) | some encoded ↦ write_record io kind encoded j ]

  pub mark_started : AppendIo → ℕ → EventJournal → Result ℕ × EventJournal
  mark_started io timestamp j =
      let j' = record j {
        inner = record (j.inner) { state = running; started_at = some timestamp };
      } in
      and_then (append_locked io timestamp started j') (λ k. (ok timestamp, k))

  pub append_output :
      AppendIo → ℕ → ProcessOutputStream → List ℕ → EventJournal → Result (Unit {0}) × EventJournal
  append_output io now stream bytes j =
      if j.inner.closed then (ok tt, j) else append_locked io now (output stream bytes) j

  pub mark_exited_locked :
      AppendIo → ℕ → ℤ → ExecutionState → EventJournal → Result (Unit {0}) × EventJournal
  mark_exited_locked io now exit_code final_state j =
      if is_terminal j.inner.state
      then (ok tt, j)
      else append_locked io now (ProcessEventKind.exited exit_code) (record j {
        inner = record (j.inner) { state = final_state; exit_code = some exit_code };
      })

  pub close_locked : AppendIo → ℕ → ℕ → EventJournal → Result (Unit {0}) × EventJournal
  unfolding sealed
  close_locked io now instant j =
      if j.inner.closed
      then (ok tt, j)
      else and_then (append_locked io now ProcessEventKind.closed j) (sealed instant)

  pub mark_exited :
      AppendIo → ℕ → ℤ → ExecutionState → EventJournal → Result (Unit {0}) × EventJournal
  unfolding mark_exited_locked
  mark_exited = mark_exited_locked

  pub close : AppendIo → ℕ → ℕ → EventJournal → Result (Unit {0}) × EventJournal
  unfolding close_locked
  close = close_locked

  pub finish_exited :
      AppendIo
      → AppendIo
      → ℕ
      → ℕ
      → ℕ
      → ℤ
      → ExecutionState
      → EventJournal
      → Result (Unit {0}) × EventJournal
  unfolding mark_exited_locked close_locked
  finish_exited io io' now now' instant exit_code final_state j =
      and_then (mark_exited_locked io now exit_code final_state j) (close_locked io' now' instant)

  pub finish_failed :
      AppendIo → AppendIo → ℕ → ℕ → ℕ → Text → EventJournal → Result (Unit {0}) × EventJournal
  unfolding sealed
  finish_failed io io' now now' instant message j =
      if j.inner.closed
      then (ok tt, j)
      else and_then
          (append_locked io now (ProcessEventKind.failed message)
            (record j { inner = record (j.inner) { state = ExecutionState.failed } }))
          (λ k. and_then (append_locked io' now' ProcessEventKind.closed k) (sealed instant))

-- `handle`, `is_running` and `finished_for`
pub handle : EventJournal → ExecutionState × Option ℕ
handle j = (j.inner.state, j.inner.started_at)

pub is_running : EventJournal → Bool
unfolding is_terminal
is_running j = if is_terminal j.inner.state then false else true

pub finished_for : ℕ → EventJournal → Option ℕ
finished_for now j = elim (j.inner.finished_at) [
  | none ↦ none
  | some instant ↦ some (now - instant)
]
