-- ===== src/Journal/Represents.antt =====
-- Every append of the journal, and every operation made of appends, keeps the file and the index in
-- step, where a failing write leaves no part of a record behind.
use agent_pane.Prelude.{
  ℕ, ◌+◌, ◌-◌, ◌≤◌, ◌≡◌, refl, sym, ap, ◌∙◌, min, List, [], ◌∷◌, ◌++◌, length, take, none, some,
  arith, append_assoc, append-nil, length-append, Option-cases, inl, inr,
}
use mathlib.Core.Path.{subst}
use agent_pane.Prelude.Machine.{saturating_add, saturating_add_lem, u64_max}
use agent_pane.Execution.{Result, ok, err, panic}
use agent_pane.Journal.{
  JournalEntry, JournalState, EventJournal, AppendIo, complete, fails, initial_state, create,
  output_bytes, indexed, written_sequence, write_record, append_locked, and_then,
}
use agent_pane.Journal.Event.{ProcessEventKind, Codec, started, output}
use agent_pane.Journal.Layout.{
  size, span, Line, width, entry_of, event_of, layout, file_of, spans, Represents, layout-append,
  file_of-append, spans-append, Decodes-append,
}

empty_journal : EventJournal
unfolding initial_state
empty_journal = record { file = []; inner = initial_state }

-- A journal that was just created has no record.
pub create-Represents :
    (codec : Codec) (j : EventJournal) → create none ≡ ok j → Represents codec j []
unfolding create initial_state
create-Represents codec j h =
    let e : empty_journal ≡ j = unfold empty_journal in ground arith in
    subst (λ k. Represents codec k []) e
      (unfold empty_journal in
        record {
          file_lem = refl;
          entries_lem = refl;
          next_lem = omega arith;
          length_lem = refl;
          decodes = tt;
          numbered = omega arith;
        })

-- Every record of a `kind` takes at most `m` bytes and sequence numbers.
abbrev pub Bounded : Codec → ProcessEventKind → ℕ → Type 0
Bounded codec kind m =
    (seq timestamp : ℕ) (b : List ℕ)
    → codec.encode (record { sequence = seq; timestamp = timestamp; event = kind }) ≡ some b
    → span kind + length b + 1 ≤ m

-- The counters are at least `m` below 2^64.
abbrev pub Roomy : ℕ → EventJournal → Type 0
Roomy m j = (j.inner.next_sequence + m ≤ u64_max) × (j.inner.file_length + m ≤ u64_max)

output_bytes_lem : (kind : ProcessEventKind) → size kind ≤ u64_max → output_bytes kind ≡ size kind
unfolding output_bytes
output_bytes_lem (output stream bytes) h = omega arith
output_bytes_lem started h = refl
output_bytes_lem _ h = refl

written_sequence_lem :
    (s : JournalState) (kind : ProcessEventKind)
    → s.next_sequence + span kind ≤ u64_max
    → written_sequence s kind ≡ s.next_sequence + (span kind - 1)
unfolding written_sequence saturating_add
written_sequence_lem s kind h = rw (output_bytes_lem kind (omega arith)) (omega arith)

module _ (s : JournalState) (l : Line) (fit : s.next_sequence + span l.kind ≤ u64_max)
    (fit' : s.file_length + length l.encoded + 1 ≤ u64_max) where
  indexed-entries :
      (indexed s l.kind (length l.encoded)).entries
      ≡ s.entries ++ entry_of s.next_sequence s.file_length l ∷ []
  unfolding indexed
  indexed-entries =
      let small : min (length l.encoded) u64_max ≡ length l.encoded = omega arith in
      rw (
        output_bytes_lem l.kind (omega arith),
        saturating_add_lem s.next_sequence (span l.kind - 1) (omega arith),
        small,
      )

  indexed-next : (indexed s l.kind (length l.encoded)).next_sequence ≡ s.next_sequence + span l.kind
  unfolding indexed saturating_add
  indexed-next = rw (output_bytes_lem l.kind (omega arith)) (omega arith)

  indexed-length : (indexed s l.kind (length l.encoded)).file_length ≡ s.file_length + width l
  unfolding indexed saturating_add
  indexed-length = omega arith

-- A write that fails has written nothing.
abbrev pub IsClean : AppendIo → Type 0
IsClean complete = Unit
IsClean (fails n code) = n ≡ 0

-- The journal holds the records `ls` and perhaps more behind them.
abbrev pub Extends : Codec → List Line → EventJournal → Type 0
Extends codec ls j = (new : List Line) × Represents codec j (ls ++ new)

-- What an operation changes besides is not part of the representation.
pub Represents-inner :
    (codec : Codec) (j k : EventJournal) (ls : List Line)
    → k.file ≡ j.file
    → k.inner.entries ≡ j.inner.entries
    → k.inner.next_sequence ≡ j.inner.next_sequence
    → k.inner.file_length ≡ j.inner.file_length
    → Represents codec j ls
    → Represents codec k ls
Represents-inner codec j k ls f e n l r = record {
  file_lem = f ∙ r.file_lem;
  entries_lem = e ∙ r.entries_lem;
  next_lem = n ∙ r.next_lem;
  length_lem = l ∙ r.length_lem;
  decodes = r.decodes;
  numbered = r.numbered;
}

module _ (codec : Codec) (j : EventJournal) (ls : List Line) (r : Represents codec j ls) where
  -- A complete append adds one record.
  write_record-Represents :
      (l : Line)
      → j.inner.next_sequence + span l.kind ≤ u64_max
      → j.inner.file_length + length l.encoded + 1 ≤ u64_max
      → codec.decode l.encoded ≡ some (event_of j.inner.next_sequence l)
      → Represents codec (write_record complete l.kind l.encoded j).1 (ls ++ l ∷ [])
  unfolding write_record
  write_record-Represents l fit fit' e = record {
    file_lem = ap (λ f. f ++ (l.encoded ++ 10 ∷ [])) r.file_lem ∙ sym (file_of-append ls l);
    entries_lem =
        indexed-entries j.inner l fit fit'
        ∙ ap₃ r.entries_lem r.next_lem r.length_lem
        ∙ sym (layout-append 1 0 ls l ∙ from_zero);
    next_lem = omega (arith, indexed-next j.inner l fit fit', r.next_lem, spans-append ls l);
    length_lem = omega (
      arith,
      indexed-length j.inner l fit fit',
      r.length_lem,
      ap length (file_of-append ls l),
      length-append (file_of ls) (l.encoded ++ 10 ∷ []),
      length-append l.encoded (10 ∷ []),
    );
    decodes = Decodes-append codec 1 ls l r.decodes (rw (← r.next_lem) e);
    numbered = omega (arith, spans-append ls l, r.next_lem, fit);
  }
    where
      ap₃ :
          {es fs : List JournalEntry} {m n o p : ℕ}
          → es ≡ fs
          → m ≡ n
          → o ≡ p
          → es ++ entry_of m o l ∷ [] ≡ fs ++ entry_of n p l ∷ []
      ap₃ p q s = λ i. p i ++ entry_of (q i) (s i) l ∷ []

      from_zero :
          layout 1 0 ls ++ entry_of (1 + spans ls) (0 + length (file_of ls)) l ∷ []
          ≡ layout 1 0 ls ++ entry_of (1 + spans ls) (length (file_of ls)) l ∷ []
      from_zero = ap (λ o. layout 1 0 ls ++ entry_of (1 + spans ls) o l ∷ []) (omega arith)

  -- One append, complete or failed without a trace, keeps the records and leaves room.
  write_record-Extends :
      (io : AppendIo) (timestamp : ℕ) (kind : ProcessEventKind) (b : List ℕ) (m k : ℕ)
      → IsClean io
      → codec.encode
          (record { sequence = written_sequence j.inner kind; timestamp = timestamp; event = kind })
        ≡ some b
      → span kind + length b + 1 ≤ m
      → Roomy (m + k) j
      → Extends codec ls (write_record io kind b j).1 × Roomy k (write_record io kind b j).1
  unfolding write_record
  write_record-Extends complete timestamp kind b m k clean e fits room =
      let fit : j.inner.next_sequence + span kind ≤ u64_max = omega arith in
      let fit' : j.inner.file_length + length b + 1 ≤ u64_max = omega arith in
      let l : Line = record { timestamp = timestamp; kind = kind; encoded = b } in
      let recorded : codec.decode b ≡ some (event_of j.inner.next_sequence l) =
        codec.decode-encode _ b e
        ∙ ap (λ s. some (record { sequence = s; timestamp = timestamp; event = kind }))
            (written_sequence_lem j.inner kind fit) in
      (
        (l ∷ [], write_record-Represents l fit fit' recorded),
        (
          omega (arith, indexed-next j.inner l fit fit'),
          omega (arith, indexed-length j.inner l fit fit'),
        ),
      )
  write_record-Extends (fails n code) timestamp kind b m k clean e fits room =
      let same : j.file ++ take n (b ++ 10 ∷ []) ≡ j.file =
        ap (λ i. j.file ++ take i (b ++ 10 ∷ [])) clean ∙ append-nil j.file in
      (
        ([], rw append-nil (Represents-inner codec j _ ls same refl refl refl r)),
        (omega arith, omega arith),
      )

  pub append_locked-Extends :
      (io : AppendIo) (timestamp : ℕ) (kind : ProcessEventKind) (m k : ℕ)
      → IsClean io
      → Bounded codec kind m
      → Roomy (m + k) j
      → Extends codec ls (append_locked codec io timestamp kind j).1
        × Roomy k (append_locked codec io timestamp kind j).1
  unfolding append_locked
  append_locked-Extends io timestamp kind m k clean bound room =
      let seq : ℕ = written_sequence j.inner kind in
      elim (Option-cases
        (codec.encode (record { sequence = seq; timestamp = timestamp; event = kind }))) [
          | inl e ↦ rw (e, append_locked) (([], rw append-nil r), (omega arith, omega arith))
          | inr (b, e) ↦
              rw (e, append_locked)
                (write_record-Extends io timestamp kind b m k clean e (bound seq timestamp b e)
                  room)
        ]

-- The rest of a method runs, or it does not.
pub and_then_inv {ℓ κ} :
    {A : Type ℓ} (P : EventJournal → Type κ) (m : Result (Unit {0}) × EventJournal)
    (f : EventJournal → Result A × EventJournal)
    → P m.1
    → P (f m.1).1
    → P (and_then m f).1
and_then_inv P (ok u, j) f p q = q
and_then_inv P (err code, j) f p q = p
and_then_inv P (panic, j) f p q = p

pub Extends-trans :
    (codec : Codec) (ls : List Line) (j k : EventJournal)
    → (e : Extends codec ls j) → Extends codec (ls ++ e.0) k
    → Extends codec ls k
Extends-trans codec ls j k (new, r) (more, q) = (new ++ more, rw (← append_assoc ls new more) q)
