-- ===== src/Journal/Read.antt =====
-- `read_now` and `read` of the event journal: the entries behind a cursor, up to a number of output
-- bytes, an entry split where the limit or the cursor falls inside it.
use agent_pane.Prelude.{
  ℕ, ◌+◌, ◌-◌, min, Bool, true, false, ◌||◌, List, [], ◌∷◌, length, is_empty, Option, none, some,
  take, drop, ltb, leb, ◌==◌, if◌then◌else◌,
}
use agent_pane.Prelude.Machine.{saturating_add}
use agent_pane.Execution.{Code, Result, ok, err, panic, internal, invalid_request, io, ℤ, ◌>>=◌}
use agent_pane.Journal.{JournalEntry, EventJournal}
use agent_pane.Journal.Event.{
  ExecutionState, ProcessEventKind, ProcessEvent, Codec, started, output, exited, failed, closed,
}

pub record SelectedEntry : Type 0 where
  pub journal : JournalEntry
  pub output_offset : ℕ
  pub output_length : ℕ
  pub returned_sequence : ℕ

pub record ReadExecutionResult : Type 0 where
  pub events : List ProcessEvent
  pub next_sequence : ℕ
  pub state : ExecutionState
  pub exit_code : Option ℤ

-- `filter(|entry| entry.last_sequence > after_sequence)`
unfoldable pub behind : ℕ → List JournalEntry → List JournalEntry
behind after [] = []
behind after (e ∷ es) =
    let rest = behind after es in if ltb after e.last_sequence then e ∷ rest else rest

-- How many of an entry's output bytes the cursor is past.
unfoldable pub already_read : ℕ → JournalEntry → ℕ
already_read after e =
    if ltb after e.first_sequence
    then 0
    else min (saturating_add (after - e.first_sequence) 1) e.output_bytes

unfoldable pub select_control : JournalEntry → SelectedEntry
select_control e = record {
  journal = e;
  output_offset = 0;
  output_length = 0;
  returned_sequence = e.last_sequence;
}

unfoldable pub select_output : JournalEntry → ℕ → ℕ → SelectedEntry
select_output e offset size = record {
  journal = e;
  output_offset = offset;
  output_length = size;
  returned_sequence = saturating_add (saturating_add e.first_sequence offset) size - 1;
}

-- The loop over the entries; `selected_bytes` is the sum of the output bytes so far.
unfoldable pub select : ℕ → ℕ → ℕ → List JournalEntry → List SelectedEntry
unfolding already_read select_control select_output
select after max_bytes selected_bytes [] = []
select after max_bytes selected_bytes (e ∷ es) =
    let already = already_read after e in
    let available = e.output_bytes - already in
    let remaining = max_bytes - selected_bytes in
    let size = min available remaining in
    let control = select_control e ∷ select after max_bytes selected_bytes es in
    let more = select after max_bytes (saturating_add selected_bytes size) es in
    if e.output_bytes == 0
    then control
    else if remaining == 0
    then []
    else select_output e already size ∷ (if ltb size available then [] else more)

-- What the file system does with each access of a read: the open is the access 0, the seek and
-- `read_exact` of the `n`-th selected entry the access `n`.
abbrev pub ReadIo : Type 0
ReadIo = ℕ → Option Code

unfoldable pub io_result : Option Code → Result (Unit {0})
io_result none = ok tt
io_result (some code) = err code

-- `read_exact` behind a seek; beyond the end of the file it is `UnexpectedEof`.
unfoldable pub read_exact : List ℕ → ℕ → ℕ → Result (List ℕ)
read_exact file offset size =
    if leb (offset + size) (length file) then ok (take size (drop offset file)) else err io

-- The selected part of an output; a slice out of range panics.
unfoldable pub cut : SelectedEntry → ProcessEventKind → Result ProcessEventKind
cut s (output stream bytes) =
    let end = saturating_add s.output_offset s.output_length in
    if leb end (length bytes)
    then ok (output stream (take (end - s.output_offset) (drop s.output_offset bytes)))
    else panic
cut s started = ok started
cut s (exited code) = ok (exited code)
cut s (failed message) = ok (failed message)
cut s closed = ok closed

unfoldable pub last_sequence : ℕ → List ProcessEvent → ℕ
last_sequence default [] = default
last_sequence default (e ∷ es) = last_sequence e.sequence es

unfoldable pub decoded : Option ProcessEvent → Result ProcessEvent
decoded none = err internal
decoded (some e) = ok e

-- `returned_sequence` takes the place of the recorded sequence.
unfoldable pub deliver : SelectedEntry → ProcessEvent → Result ProcessEvent
unfolding cut
deliver s e = do
  kind ← cut s e.event
  ok (record { sequence = s.returned_sequence; timestamp = e.timestamp; event = kind })

module _ (codec : Codec) where
  unfoldable pub load_event : ReadIo → ℕ → List ℕ → SelectedEntry → Result ProcessEvent
  unfolding io_result read_exact decoded deliver
  load_event access n file s = do
    u ← io_result (access n)
    encoded ← read_exact file s.journal.offset s.journal.length
    event ← decoded (codec.decode encoded)
    deliver s event

  unfoldable pub load_events : ReadIo → ℕ → List ℕ → List SelectedEntry → Result (List ProcessEvent)
  unfolding load_event
  load_events access n file [] = ok []
  load_events access n file (s ∷ ss) =
      load_event access n file s >>= λ e. load_events access (n + 1) file ss >>= λ es. ok (e ∷ es)

  -- The file is opened only if something is selected.
  unfoldable pub load_all : ReadIo → List ℕ → List SelectedEntry → Result (List ProcessEvent)
  unfolding load_events io_result
  load_all access file [] = ok []
  load_all access file (s ∷ ss) = do u ← io_result (access 0); load_events access 1 file (s ∷ ss)

  unfoldable pub read_now : ReadIo → ℕ → ℕ → EventJournal → Result ReadExecutionResult
  unfolding select behind load_all last_sequence
  read_now access after max_bytes j =
      if ltb (j.inner.next_sequence - 1) after
      then err invalid_request
      else (load_all access j.file (select after max_bytes 0 (behind after j.inner.entries))
          >>= λ es. ok (record {
            events = es;
            next_sequence = last_sequence after es;
            state = j.inner.state;
            exit_code = j.inner.exit_code;
          }))

  -- `read` takes the lock three times; other calls may come between, so each sees a journal of its
  -- own. The wait itself, for a change or for the time to pass, leaves no trace.
  unfoldable pub read :
      ReadIo
      → ReadIo
      → ℕ
      → ℕ
      → Bool
      → EventJournal
      → EventJournal
      → EventJournal
      → Result ReadExecutionResult
  unfolding read_now
  read access access' after max_bytes waits first second third =
      read_now access after max_bytes first >>= λ result.
      if (if is_empty result.events then false else true)
        || second.inner.closed
        || (if waits then false else true)
      then ok result
      else read_now access' after max_bytes third
