-- ===== src/Journal/Layout.antt =====
-- The journal against the list of the records that were appended: the file is their lines, the
-- index their layout, and each sequence number stands for one item, an output byte or an event.
use agent_pane.Prelude.{
  ℕ, ◌+◌, ◌-◌, ◌≤◌, ◌≡◌, sym, ap, ◌∙◌, max, List, [], ◌∷◌, ◌++◌, length, map, some, arith,
  append_assoc, append-nil, length-append,
}
use mathlib.Core.Path.{ap₂}
use agent_pane.Prelude.Machine.{u64_max}
use agent_pane.Journal.{JournalEntry, EventJournal}
use agent_pane.Journal.Event.{ProcessEventKind, ProcessOutputStream, ProcessEvent, Codec, output}

pub data Item : Type 0 where
  byte : ProcessOutputStream → ℕ → Item
  control : ProcessEventKind → Item

-- What one event stands for; an output of no bytes is one item too.
abbrev pub items : ProcessEventKind → List Item
items (output stream []) = control (output stream []) ∷ []
items (output stream (b ∷ bytes)) = byte stream b ∷ map (byte stream) bytes
items kind = control kind ∷ []

abbrev pub size : ProcessEventKind → ℕ
size (output stream bytes) = length bytes
size kind = 0

abbrev pub span : ProcessEventKind → ℕ
span kind = max (size kind) 1

-- A record in the file.
pub record Line : Type 0 where
  pub timestamp : ℕ
  pub kind : ProcessEventKind
  pub encoded : List ℕ

abbrev pub entry_of : ℕ → ℕ → Line → JournalEntry
entry_of seq offset l = record {
  first_sequence = seq;
  last_sequence = seq + (span l.kind - 1);
  offset = offset;
  length = length l.encoded;
  output_bytes = size l.kind;
}

abbrev pub event_of : ℕ → Line → ProcessEvent
event_of seq l = record {
  sequence = seq + (span l.kind - 1);
  timestamp = l.timestamp;
  event = l.kind;
}

abbrev pub width : Line → ℕ
width l = length l.encoded + 1

abbrev pub layout : ℕ → ℕ → List Line → List JournalEntry
layout seq offset [] = []
layout seq offset (l ∷ ls) =
    entry_of seq offset l ∷ layout (seq + span l.kind) (offset + width l) ls

abbrev pub file_of : List Line → List ℕ
file_of [] = []
file_of (l ∷ ls) = (l.encoded ++ 10 ∷ []) ++ file_of ls

abbrev pub spans : List Line → ℕ
spans [] = 0
spans (l ∷ ls) = span l.kind + spans ls

abbrev pub all_items : List Line → List Item
all_items [] = []
all_items (l ∷ ls) = items l.kind ++ all_items ls

-- Each record decodes to its event, under the last sequence number of its span.
abbrev pub Decodes : Codec → ℕ → List Line → Type 0
Decodes codec seq [] = Unit
Decodes codec seq (l ∷ ls) =
    (codec.decode l.encoded ≡ some (event_of seq l)) × Decodes codec (seq + span l.kind) ls

pub record Represents (codec : Codec) (j : EventJournal) (ls : List Line) : Type 0 where
  pub file_lem : j.file ≡ file_of ls
  pub entries_lem : j.inner.entries ≡ layout 1 0 ls
  pub next_lem : j.inner.next_sequence ≡ 1 + spans ls
  pub length_lem : j.inner.file_length ≡ length (file_of ls)
  pub decodes : Decodes codec 1 ls
  pub numbered : 1 + spans ls ≤ u64_max

pub layout-append :
    (seq offset : ℕ) (ls : List Line) (l : Line)
    → layout seq offset (ls ++ l ∷ [])
      ≡ layout seq offset ls ++ entry_of (seq + spans ls) (offset + length (file_of ls)) l ∷ []
layout-append seq offset [] l =
    let e₁ : seq + 0 ≡ seq = omega arith in
    let e₂ : offset + 0 ≡ offset = omega arith in rw (e₁, e₂)
layout-append seq offset (m ∷ ls) l =
    let e₁ : seq + span m.kind + spans ls ≡ seq + (span m.kind + spans ls) = omega arith in
    let e₂ : offset + width m + length (file_of ls) ≡ offset + length (file_of (m ∷ ls)) = omega (
      arith,
      length-append (m.encoded ++ 10 ∷ []) (file_of ls),
      length-append m.encoded (10 ∷ []),
    ) in
    ap (λ t. entry_of seq offset m ∷ t)
      (layout-append (seq + span m.kind) (offset + width m) ls l
        ∙ ap₂ (λ s o. layout (seq + span m.kind) (offset + width m) ls ++ entry_of s o l ∷ []) e₁
            e₂)

pub file_of-append :
    (ls : List Line) (l : Line) → file_of (ls ++ l ∷ []) ≡ file_of ls ++ (l.encoded ++ 10 ∷ [])
file_of-append [] l = append-nil _
file_of-append (m ∷ ls) l =
    ap (λ t. (m.encoded ++ 10 ∷ []) ++ t) (file_of-append ls l)
    ∙ sym (append_assoc (m.encoded ++ 10 ∷ []) (file_of ls) (l.encoded ++ 10 ∷ []))

pub spans-append : (ls : List Line) (l : Line) → spans (ls ++ l ∷ []) ≡ spans ls + span l.kind
spans-append [] l = omega arith
spans-append (m ∷ ls) l = omega (arith, spans-append ls l)

pub Decodes-append :
    (codec : Codec) (seq : ℕ) (ls : List Line) (l : Line)
    → Decodes codec seq ls
    → codec.decode l.encoded ≡ some (event_of (seq + spans ls) l)
    → Decodes codec seq (ls ++ l ∷ [])
Decodes-append codec seq [] l d e = let z : seq + 0 ≡ seq = omega arith in (rw z at e, tt)
Decodes-append codec seq (m ∷ ls) l d e =
    let z : seq + (span m.kind + spans ls) ≡ seq + span m.kind + spans ls = omega arith in
    (d.0, Decodes-append codec (seq + span m.kind) ls l d.1 (rw z at e))
