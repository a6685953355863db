-- ===== src/Journal/Stored.antt =====
-- The parts of a read over a represented journal: each selected entry loads, and the loop over the
-- entries takes one of four steps.
use agent_pane.Prelude.{
  ℕ, ◌+◌, ◌-◌, ◌≤◌, ◌<◌, ◌≡◌, refl, sym, ap, ◌∙◌, min, List, [], ◌∷◌, ◌++◌, length, map, take, drop,
  none, some, arith, append_assoc, append-nil, length-append, length-map, length-take, length-drop,
  take-map, drop-map, take-append_ge, drop-append_ge, true, false, ltb, leb, ◌==◌,
}
use mathlib.Core.Path.{subst}
use agent_pane.Prelude.Machine.{saturating_add, saturating_add_lem, u64_max}
use agent_pane.Execution.{ok}
use agent_pane.Journal.{JournalEntry}
use agent_pane.Journal.Event.{
  ProcessEventKind, ProcessOutputStream, ProcessEvent, Codec, started, output, exited, failed,
  closed,
}
use agent_pane.Journal.Layout.{
  Item, byte, control, items, size, span, Line, event_of, width, file_of, spans, all_items, Decodes,
}
use agent_pane.Journal.Read.{
  SelectedEntry, already_read, select_control, select_output, select, ReadIo, io_result, read_exact,
  cut, decoded, deliver, load_event, load_events,
}

-- The items that a list of events stands for, and how many bytes of output.
abbrev pub delivered : List ProcessEvent → List Item
delivered [] = []
delivered (e ∷ es) = items e.event ++ delivered es

abbrev pub bytes : List ProcessEvent → ℕ
bytes [] = 0
bytes (e ∷ es) = size e.event + bytes es

-- Each record stands where the index says, and decodes.
abbrev pub Stored : Codec → List ℕ → ℕ → ℕ → List Line → Type 0
Stored codec file seq offset [] = Unit
Stored codec file seq offset (l ∷ ls) =
    (read_exact file offset (length l.encoded) ≡ ok l.encoded)
    × (codec.decode l.encoded ≡ some (event_of seq l))
    × Stored codec file (seq + span l.kind) (offset + width l) ls

read_exact-append :
    (before encoded after : List ℕ)
    → read_exact (before ++ (encoded ++ after)) (length before) (length encoded) ≡ ok encoded
unfolding read_exact
read_exact-append before encoded after =
    let e₁ : drop (length before) (before ++ (encoded ++ after)) ≡ encoded ++ after =
      drop-append_ge (length before) 0 before (encoded ++ after) (omega arith) in
    let e₂ : take (length encoded) (encoded ++ after) ≡ encoded =
      take-append_ge (length encoded) 0 encoded after (omega arith) ∙ append-nil encoded in
    let e₃ : leb (length before + length encoded) (length (before ++ (encoded ++ after))) ≡ true =
      ground (arith, length-append before (encoded ++ after), length-append encoded after) in
    rw (e₃, e₁, e₂)

pub Stored-of_Decodes :
    (codec : Codec) (before : List ℕ) (seq offset : ℕ) (ls : List Line)
    → offset ≡ length before
    → Decodes codec seq ls
    → Stored codec (before ++ file_of ls) seq offset ls
Stored-of_Decodes codec before seq offset [] e d = tt
Stored-of_Decodes codec before seq offset (l ∷ ls) e d =
    let line : List ℕ = l.encoded ++ 10 ∷ [] in
    let seam : (before ++ line) ++ file_of ls ≡ before ++ (line ++ file_of ls) =
      append_assoc before line (file_of ls) in
    (
      rw (e, append_assoc l.encoded (10 ∷ []) (file_of ls))
          (read_exact-append before l.encoded ((10 ∷ []) ++ file_of ls)),
      d.0,
      subst (λ f. Stored codec f (seq + span l.kind) (offset + width l) ls) seam
          (Stored-of_Decodes codec (before ++ line) (seq + span l.kind) (offset + width l) ls
            (omega (arith, length-append before line, length-append l.encoded (10 ∷ []))) d.1),
    )

pub length-items : (kind : ProcessEventKind) → length (items kind) ≡ span kind
length-items (output stream []) = omega arith
length-items (output stream (b ∷ bs)) = omega (arith, length-map (byte stream) bs)
length-items started = omega arith
length-items _ = omega arith

pub length-all_items : (ls : List Line) → length (all_items ls) ≡ spans ls
length-all_items [] = refl
length-all_items (l ∷ ls) =
    omega
      (arith, length-append (items l.kind) (all_items ls), length-items l.kind, length-all_items ls)

pub items_of_control : (kind : ProcessEventKind) → size kind ≡ 0 → items kind ≡ control kind ∷ []
items_of_control (output stream []) e = refl
items_of_control (output stream (b ∷ bs)) e = absurd (omega arith)
items_of_control started e = refl
items_of_control _ e = refl

pub cut_control :
    (e : JournalEntry) (kind : ProcessEventKind)
    → size kind ≡ 0
    → cut (select_control e) kind ≡ ok kind
unfolding cut select_control saturating_add
cut_control e (output stream []) h = refl
cut_control e (output stream (b ∷ bs)) h = absurd (omega arith)
cut_control e started h = refl
cut_control e _ h = refl

items_of_bytes :
    (stream : ProcessOutputStream) (bs : List ℕ)
    → 0 < length bs
    → items (output stream bs) ≡ map (byte stream) bs
items_of_bytes stream [] h = absurd (omega arith)
items_of_bytes stream (b ∷ bs) h = refl

-- A part of an output: its event, and what that stands for.
pub cut_output :
    (e : JournalEntry) (kind : ProcessEventKind) (d n : ℕ)
    → 0 < n
    → d + n ≤ size kind
    → size kind ≤ u64_max
    → (part : ProcessEventKind) × (cut (select_output e d n) kind ≡ ok part)
      × (items part ≡ take n (drop d (items kind)))
      × (size part ≡ n)
unfolding cut select_output
cut_output e (output stream bs) d n pos le small =
    let part : List ℕ = take n (drop d bs) in
    let sum : saturating_add d n ≡ d + n = saturating_add_lem d n (omega arith) in
    let fits : leb (d + n) (length bs) ≡ true = ground arith in
    let width : d + n - d ≡ n = omega arith in
    let count : length part ≡ n = omega (arith, length-take n (drop d bs), length-drop d bs) in
    (
      output stream part,
      rw (sum, fits, width) refl,
      items_of_bytes stream part (omega arith)
          ∙ sym (
              ap (λ t. take n (drop d t)) (items_of_bytes stream bs (omega arith))
              ∙ ap (λ t. take n t) (drop-map (byte stream) d bs)
              ∙ take-map (byte stream) n (drop d bs)),
      count,
    )
cut_output e started d n pos le small = absurd (omega arith)
cut_output e (exited code) d n pos le small = absurd (omega arith)
cut_output e (failed message) d n pos le small = absurd (omega arith)
cut_output e closed d n pos le small = absurd (omega arith)

module _ (codec : Codec) (access : ReadIo) (file : List ℕ) where
  -- One entry loads where its record can be read, decoded and cut.
  pub load_events-cons :
      (n : ℕ) (s : SelectedEntry) (ss : List SelectedEntry) (encoded : List ℕ)
      (event : ProcessEvent) (part : ProcessEventKind) (es : List ProcessEvent)
      → access n ≡ none
      → read_exact file s.journal.offset s.journal.length ≡ ok encoded
      → codec.decode encoded ≡ some event
      → cut s event.event ≡ ok part
      → load_events codec access (n + 1) file ss ≡ ok es
      → load_events codec access n file (s ∷ ss)
        ≡ ok (
            record { sequence = s.returned_sequence; timestamp = event.timestamp; event = part }
            ∷ es)
  unfolding load_events load_event io_result decoded deliver
  load_events-cons n s ss encoded event part es a r d c rest = simp (a, r, d, c, rest)

module _ (after max_bytes selected : ℕ) (e : JournalEntry) (es : List JournalEntry) where
  pub select-control :
      e.output_bytes ≡ 0
      → select after max_bytes selected (e ∷ es)
        ≡ select_control e ∷ select after max_bytes selected es
  unfolding select
  select-control h = ground arith

  pub select-full :
      0 < e.output_bytes → max_bytes - selected ≡ 0 → select after max_bytes selected (e ∷ es) ≡ []
  unfolding select
  select-full pos h = ground arith

  pub select-part :
      (d n : ℕ)
      → already_read after e ≡ d
      → 0 < max_bytes - selected
      → n ≡ max_bytes - selected
      → n < e.output_bytes - d
      → select after max_bytes selected (e ∷ es) ≡ select_output e d n ∷ []
  unfolding select
  select-part d n a pos h lt =
      let m : min (e.output_bytes - d) (max_bytes - selected) ≡ n = omega arith in
      let t₁ : (e.output_bytes == 0) ≡ false = ground arith in
      let t₂ : (max_bytes - selected == 0) ≡ false = ground arith in
      let t₃ : ltb n (e.output_bytes - d) ≡ true = ground arith in rw (a, m, t₁, t₂, t₃)

  pub select-rest :
      (d n : ℕ)
      → already_read after e ≡ d
      → 0 < e.output_bytes
      → 0 < max_bytes - selected
      → n ≡ e.output_bytes - d
      → n ≤ max_bytes - selected
      → selected + n ≤ u64_max
      → select after max_bytes selected (e ∷ es)
        ≡ select_output e d n ∷ select after max_bytes (selected + n) es
  unfolding select
  select-rest d n a pos room h le small =
      let m : min (e.output_bytes - d) (max_bytes - selected) ≡ n = omega arith in
      let t₁ : (e.output_bytes == 0) ≡ false = ground arith in
      let t₂ : (max_bytes - selected == 0) ≡ false = ground arith in
      let t₃ : ltb n (e.output_bytes - d) ≡ false = ground arith in
      rw (a, m, saturating_add_lem selected n small, t₁, t₂, t₃)
