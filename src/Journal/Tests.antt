-- ===== src/Journal/Tests.antt =====
-- A small codec, runs of the journal, and its theorems at concrete inputs.
use agent_pane.Prelude.{
  ℕ, zero, suc, ◌-◌, ◌≤◌, ◌<◌, ◌≡◌, refl, List, [], ◌∷◌, take, drop, Option, none, some, false,
  arith,
}
use mathlib.Core.Path.{subst}
use agent_pane.Prelude.Machine.{saturating_add}
use agent_pane.Execution.{ok, io, pos, negsuc}
use agent_pane.Journal.{EventJournal, fails, append_locked}
use agent_pane.Journal.Event.{
  ProcessEventKind, ProcessEvent, Codec, started, output, exited, failed, closed, stdout, stderr,
  pty, running,
}
use agent_pane.Journal.Layout.{Line, spans, all_items, Represents}
use agent_pane.Journal.Operations.{torn_write}
use agent_pane.Journal.Read.{ReadExecutionResult, ReadIo, read_now, load_event}
use agent_pane.Journal.Stored.{delivered, bytes}
use agent_pane.Journal.Cursor.{read_now_delivers, read_now_advances, poll, poll_delivers_all}

-- Records as numbers: the sequence, the time, a tag and the rest.
abbrev encode_kind : ℕ → ℕ → ProcessEventKind → List ℕ
encode_kind s t started = s ∷ t ∷ 0 ∷ []
encode_kind s t closed = s ∷ t ∷ 1 ∷ []
encode_kind s t (output stdout bs) = s ∷ t ∷ 2 ∷ bs
encode_kind s t (output stderr bs) = s ∷ t ∷ 3 ∷ bs
encode_kind s t (output pty bs) = s ∷ t ∷ 4 ∷ bs
encode_kind s t (failed message) = s ∷ t ∷ 5 ∷ message
encode_kind s t (exited (pos n)) = s ∷ t ∷ 6 ∷ n ∷ []
encode_kind s t (exited (negsuc n)) = s ∷ t ∷ 7 ∷ n ∷ []

abbrev decode_tag : ℕ → List ℕ → Option ProcessEventKind
decode_tag zero rest = some started
decode_tag (suc zero) rest = some closed
decode_tag (suc (suc zero)) rest = some (output stdout rest)
decode_tag (suc (suc (suc zero))) rest = some (output stderr rest)
decode_tag (suc (suc (suc (suc zero)))) rest = some (output pty rest)
decode_tag (suc (suc (suc (suc (suc zero))))) rest = some (failed rest)
decode_tag (suc (suc (suc (suc (suc (suc zero)))))) (n ∷ []) = some (exited (pos n))
decode_tag (suc (suc (suc (suc (suc (suc (suc zero))))))) (n ∷ []) = some (exited (negsuc n))
decode_tag _ _ = none

abbrev with_kind : ℕ → ℕ → Option ProcessEventKind → Option ProcessEvent
with_kind s t none = none
with_kind s t (some kind) = some (record { sequence = s; timestamp = t; event = kind })

abbrev decode_record : List ℕ → Option ProcessEvent
decode_record (s ∷ t ∷ tag ∷ rest) = with_kind s t (decode_tag tag rest)
decode_record _ = none

decode-encode_kind :
    (s t : ℕ) (kind : ProcessEventKind)
    → decode_record (encode_kind s t kind)
      ≡ some (record { sequence = s; timestamp = t; event = kind })
decode-encode_kind s t started = refl
decode-encode_kind s t closed = refl
decode-encode_kind s t (output stdout bs) = refl
decode-encode_kind s t (output stderr bs) = refl
decode-encode_kind s t (output pty bs) = refl
decode-encode_kind s t (failed message) = refl
decode-encode_kind s t (exited (pos n)) = refl
decode-encode_kind s t (exited (negsuc n)) = refl

decode-encode_record :
    (e : ProcessEvent) (b : List ℕ)
    → some (encode_kind e.sequence e.timestamp e.event) ≡ some b
    → decode_record b ≡ some e
decode-encode_record e b h =
    let same : encode_kind e.sequence e.timestamp e.event ≡ b = cc in
    subst (λ b. decode_record b ≡ some e) same (decode-encode_kind e.sequence e.timestamp e.event)

abbrev numbers : Codec
numbers = record {
  encode = λ e. some (encode_kind e.sequence e.timestamp e.event);
  decode = decode_record;
  decode-encode = decode-encode_record;
}

abbrev always : ReadIo
always n = none

-- A process that started and printed three bytes.
abbrev lines : List Line
lines =
    record { timestamp = 5; kind = started; encoded = 1 ∷ 5 ∷ 0 ∷ [] }
    ∷ record {
      timestamp = 6;
      kind = output stdout (7 ∷ 8 ∷ 9 ∷ []);
      encoded = 4 ∷ 6 ∷ 2 ∷ 7 ∷ 8 ∷ 9 ∷ [];
    }
    ∷ []

abbrev journal : EventJournal
journal = record {
  file = 1 ∷ 5 ∷ 0 ∷ 10 ∷ 4 ∷ 6 ∷ 2 ∷ 7 ∷ 8 ∷ 9 ∷ 10 ∷ [];
  inner = record {
    next_sequence = 5;
    entries =
        record { first_sequence = 1; last_sequence = 1; offset = 0; length = 3; output_bytes = 0 }
        ∷ record { first_sequence = 2; last_sequence = 4; offset = 4; length = 6; output_bytes = 3 }
        ∷ [];
    file_length = 11;
    state = running;
    started_at = some 5;
    exit_code = none;
    finished_at = none;
    closed = false;
  };
}

journal-Represents : Represents numbers journal lines
journal-Represents = record {
  file_lem = refl;
  entries_lem = refl;
  next_lem = refl;
  length_lem = refl;
  decodes = (refl, (refl, tt));
  numbered = omega arith;
}

-- The cursor 2 is past the first output byte; one byte is asked for.
reads_one_byte :
    read_now numbers always 2 1 journal
    ≡ ok (record {
      events = record { sequence = 3; timestamp = 6; event = output stdout (8 ∷ []) } ∷ [];
      next_sequence = 3;
      state = running;
      exit_code = none;
    })
unfolding read_now load_event saturating_add
reads_one_byte = refl

read_now_delivers_example :
    (result : ReadExecutionResult) × (read_now numbers always 2 1 journal ≡ ok result)
    × (delivered result.events ≡ take (result.next_sequence - 2) (drop 2 (all_items lines)))
    × (2 ≤ result.next_sequence)
    × (result.next_sequence ≤ spans lines)
    × (bytes result.events ≤ 1)
read_now_delivers_example =
    read_now_delivers numbers always (λ n. refl) journal lines journal-Represents 2 1 (omega arith)
      (omega arith)

read_now_advances_example : 2 < 3
read_now_advances_example =
    read_now_advances numbers always (λ n. refl) journal lines journal-Represents 2 1 _
      (omega arith) (omega arith) (omega arith) reads_one_byte

poll_delivers_all_example :
    (es : List ProcessEvent) × (poll numbers always journal (2 ∷ 1 ∷ 1 ∷ 1 ∷ []) 0
      ≡ ok (es, spans lines))
    × (delivered es ≡ drop 0 (all_items lines))
poll_delivers_all_example =
    poll_delivers_all numbers always journal lines (2 ∷ 1 ∷ 1 ∷ 1 ∷ []) 0 (λ n. refl)
      journal-Represents (omega arith) (omega arith) (omega arith)

torn_write_example :
    ¬ Represents numbers (append_locked numbers (fails 2 io) 7 closed journal).1 lines
torn_write_example =
    torn_write numbers journal lines lines 2 7 io closed _ journal-Represents refl (omega arith)
