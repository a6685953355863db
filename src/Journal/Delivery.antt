-- ===== src/Journal/Delivery.antt =====
-- What a read delivers: from a cursor, the items behind it in their order, none lost and none twice.
use agent_pane.Prelude.{
  ℕ, ◌+◌, ◌-◌, ◌≤◌, ◌<◌, ◌≡◌, refl, sym, ap, ◌∙◌, ◌⊎◌, inl, inr, List, [], ◌∷◌, ◌++◌, length, take,
  drop, none, some, arith, length-append, length-take, length-drop, take-append_le, take-append_ge,
  drop-append_le, drop-append_ge, take-append-drop, take_all, drop_all, true, false, ltb,
}
use mathlib.Core.Path.{subst}
use native.Mathlib.Decide.{dec_lt}
use agent_pane.Prelude.Machine.{saturating_add, u64_max}
use agent_pane.Execution.{Result, ok}
use agent_pane.Journal.{JournalEntry}
use agent_pane.Journal.Event.{ProcessEventKind, ProcessEvent, Codec}
use agent_pane.Journal.Layout.{
  Item, items, size, span, Line, entry_of, event_of, width, layout, spans, all_items,
}
use agent_pane.Journal.Read.{
  SelectedEntry, behind, already_read, select_control, select_output, select, ReadIo, read_exact,
  cut, last_sequence, load_events,
}
use agent_pane.Journal.Stored.{
  delivered, bytes, Stored, length-items, items_of_control, cut_control, cut_output,
  load_events-cons, select-control, select-full, select-part, select-rest,
}

-- The events load; they are the first `count` of the items `its`, the last of them has the number
-- `start + count`, and their output is within the budget. With items and budget left, `count` is
-- positive.
pub record Delivers (loaded : Result (List ProcessEvent)) (its : List Item) (start budget : ℕ)
    : Type 0 where
  pub events : List ProcessEvent
  pub count : ℕ
  pub loaded_lem : loaded ≡ ok events
  pub count_le : count ≤ length its
  pub items_lem : delivered events ≡ take count its
  pub last_lem : last_sequence start events ≡ start + count
  pub budget_lem : bytes events ≤ budget
  pub progress : 0 < budget → 0 < length its → 0 < count

already_read_lem :
    (after seq offset : ℕ) (l : Line)
    → after + 1 - seq ≤ size l.kind
    → after < u64_max
    → already_read after (entry_of seq offset l) ≡ after + 1 - seq
unfolding already_read saturating_add
already_read_lem after seq offset l le small = ground arith

-- Past the cursor nothing is filtered out.
behind_all :
    (after seq offset : ℕ) (ls : List Line)
    → after < seq
    → behind after (layout seq offset ls) ≡ layout seq offset ls
unfolding behind
behind_all after seq offset [] h = refl
behind_all after seq offset (l ∷ ls) h =
    let t : ltb after (seq + (span l.kind - 1)) ≡ true = ground arith in
    rw t (
      ap (λ es. entry_of seq offset l ∷ es)
        (behind_all after (seq + span l.kind) (offset + width l) ls (omega arith)))

-- The cursor is `d` items into the first record, or before it.
abbrev Within : ℕ → List Line → Type 0
Within d [] = Unit
Within d (l ∷ ls) = d < span l.kind

Within-zero : (ls : List Line) → Within 0 ls
Within-zero [] = tt
Within-zero (l ∷ ls) = omega arith

module _ (codec : Codec) (access : ReadIo) (file : List ℕ) (clean : (n : ℕ) → access n ≡ none) where
  -- An event in front of what the rest of the loop delivers.
  Delivers-cons :
      (n : ℕ) (s : SelectedEntry) (ss : List SelectedEntry) (encoded : List ℕ)
      (event : ProcessEvent) (part : ProcessEventKind) (its rest : List Item)
      (start k budget budget' : ℕ)
      → read_exact file s.journal.offset s.journal.length ≡ ok encoded
      → codec.decode encoded ≡ some event
      → cut s event.event ≡ ok part
      → its ≡ items part ++ rest
      → length (items part) ≡ k
      → 0 < k
      → s.returned_sequence ≡ start + k
      → size part + budget' ≤ budget
      → Delivers (load_events codec access (n + 1) file ss) rest (start + k) budget'
      → Delivers (load_events codec access n file (s ∷ ss)) its start budget
  unfolding last_sequence
  Delivers-cons n s ss encoded event part its rest start k budget budget' r d c e len pos ret fits
        tail =
      record {
        events =
            record { sequence = s.returned_sequence; timestamp = event.timestamp; event = part }
            ∷ tail.events;
        count = k + tail.count;
        loaded_lem =
            load_events-cons codec access file n s ss encoded event part tail.events (clean n) r d c
              tail.loaded_lem;
        count_le = omega (arith, tail.count_le, ap length e, length-append (items part) rest);
        items_lem =
            ap (λ t. items part ++ t) tail.items_lem
            ∙ sym
                (rw e (take-append_ge (k + tail.count) tail.count (items part) rest (omega arith)));
        last_lem = rw ret (tail.last_lem ∙ omega arith);
        budget_lem = omega (arith, tail.budget_lem);
        progress = λ p q. omega arith;
      }

  nothing_delivered :
      (n : ℕ) (its : List Item) (start budget : ℕ)
      → (budget ≡ 0) ⊎ (its ≡ [])
      → Delivers (load_events codec access n file []) its start budget
  unfolding load_events last_sequence
  nothing_delivered n its start budget h = record {
    events = [];
    count = 0;
    loaded_lem = refl;
    count_le = omega arith;
    items_lem = refl;
    last_lem = omega arith;
    budget_lem = omega arith;
    progress = none_left h;
  }
    where
      none_left : (budget ≡ 0) ⊎ (its ≡ []) → 0 < budget → 0 < length its → 0 < 0
      none_left (inl z) p q = omega arith
      none_left (inr e) p q = omega (arith, ap length e)

  module _ (after max_bytes : ℕ) (small : max_bytes ≤ u64_max) where
    -- The loop over the entries from one record on, with `selected` bytes taken before.
    abbrev Loop : ℕ → ℕ → ℕ → ℕ → ℕ → ℕ → List Line → Type 0
    Loop n selected seq offset d start ls =
        Delivers
          (load_events codec access n file (select after max_bytes selected (layout seq offset ls)))
          (drop d (all_items ls)) start (max_bytes - selected)

    Loop-control :
        (n selected seq offset start : ℕ) (l : Line) (ls : List Line)
        → Stored codec file seq offset (l ∷ ls)
        → size l.kind ≡ 0
        → start + 1 ≡ seq
        → Loop (n + 1) selected (seq + span l.kind) (offset + width l) 0 (start + 1) ls
        → Loop n selected seq offset 0 start (l ∷ ls)
    unfolding select_control
    Loop-control n selected seq offset start l ls stored z e tail =
        rw (select-control after max_bytes selected (entry_of seq offset l) _ z) (
          Delivers-cons n (select_control (entry_of seq offset l)) _ l.encoded (event_of seq l)
            l.kind _ (all_items ls) start 1 (max_bytes - selected) (max_bytes - selected) stored.0
            stored.1 (cut_control (entry_of seq offset l) l.kind z) refl
            (ap length (items_of_control l.kind z)) (omega arith) (omega arith) (omega arith) tail)

    Loop-nil : (n selected d start : ℕ) → Loop n selected 0 0 d start []
    unfolding select
    Loop-nil n selected d start =
        nothing_delivered n (drop d []) start (max_bytes - selected)
          (inr (drop_all {A = Item} d [] (omega arith)))

    Loop-full :
        (n selected seq offset d start : ℕ) (l : Line) (ls : List Line)
        → 0 < size l.kind
        → max_bytes - selected ≡ 0
        → Loop n selected seq offset d start (l ∷ ls)
    Loop-full n selected seq offset d start l ls pos z =
        rw (select-full after max_bytes selected (entry_of seq offset l) _ pos z)
          (nothing_delivered n _ start (max_bytes - selected) (inl z))

    Loop-part :
        (n selected seq offset d start : ℕ) (l : Line) (ls : List Line)
        → Stored codec file seq offset (l ∷ ls)
        → seq + spans (l ∷ ls) ≤ u64_max
        → d ≡ after + 1 - seq
        → start + 1 ≡ seq + d
        → 0 < max_bytes - selected
        → max_bytes - selected < size l.kind - d
        → Loop n selected seq offset d start (l ∷ ls)
    unfolding select_output saturating_add
    Loop-part n selected seq offset d start l ls stored num e f pos lt =
        let k : ℕ = max_bytes - selected in
        let entry : JournalEntry = entry_of seq offset l in
        let its : List Item = drop d (all_items (l ∷ ls)) in
        let (part, cuts, its_part, size_part) =
          cut_output entry l.kind d k pos (omega arith) (omega arith) in
        let front : items part ≡ take k its =
          its_part
          ∙ sym (
              ap (λ t. take k t)
                (drop-append_le d (items l.kind) (all_items ls)
                  (omega (arith, length-items l.kind)))
              ∙ take-append_le k (drop d (items l.kind)) (all_items ls)
                  (omega (arith, length-drop d (items l.kind), length-items l.kind))) in
        let count : length (items part) ≡ k = omega (
          arith,
          ap length its_part,
          length-take k (drop d (items l.kind)),
          length-drop d (items l.kind),
          length-items l.kind,
        ) in
        rw
          (select-part after max_bytes selected entry _ d k
            (already_read_lem after seq offset l (omega arith) (omega arith) ∙ sym e) pos refl lt)
          (Delivers-cons n (select_output entry d k) [] l.encoded (event_of seq l) part its
            (drop k its) start k k 0 stored.0 stored.1 cuts
            (sym (ap (λ t. t ++ drop k its) front ∙ take-append-drop k its)) count pos (omega arith)
            (omega arith) (nothing_delivered (n + 1) (drop k its) (start + k) 0 (inl refl)))

    Loop-rest :
        (n selected seq offset d start : ℕ) (l : Line) (ls : List Line)
        → Stored codec file seq offset (l ∷ ls)
        → seq + spans (l ∷ ls) ≤ u64_max
        → d ≡ after + 1 - seq
        → start + 1 ≡ seq + d
        → d < size l.kind
        → size l.kind - d ≤ max_bytes - selected
        → Loop
            (n + 1)
            (selected + (size l.kind - d))
            (seq + span l.kind)
            (offset + width l)
            0
            (start + (size l.kind - d))
            ls
        → Loop n selected seq offset d start (l ∷ ls)
    unfolding select_output saturating_add
    Loop-rest n selected seq offset d start l ls stored num e f pos le tail =
        let k : ℕ = size l.kind - d in
        let entry : JournalEntry = entry_of seq offset l in
        let (part, cuts, its_part, size_part) =
          cut_output entry l.kind d k (omega arith) (omega arith) (omega arith) in
        let left : length (drop d (items l.kind)) ≡ k =
          omega (arith, length-drop d (items l.kind), length-items l.kind) in
        let whole : items part ≡ drop d (items l.kind) =
          its_part ∙ take_all k (drop d (items l.kind)) (omega arith) in
        rw
          (select-rest after max_bytes selected entry _ d k
            (already_read_lem after seq offset l (omega arith) (omega arith) ∙ sym e) (omega arith)
            (omega arith) refl le (omega arith))
          (Delivers-cons n (select_output entry d k) _ l.encoded (event_of seq l) part _
            (all_items ls) start k (max_bytes - selected) (max_bytes - (selected + k)) stored.0
            stored.1 cuts
            (drop-append_le d (items l.kind) (all_items ls) (omega (arith, length-items l.kind))
              ∙ ap (λ t. t ++ all_items ls) (sym whole))
            (ap length whole ∙ left) (omega arith) (omega arith) (omega arith) tail)

    Loop-delivers :
        (n selected seq offset d start : ℕ) (ls : List Line)
        → Stored codec file seq offset ls
        → seq + spans ls ≤ u64_max
        → d ≡ after + 1 - seq
        → start + 1 ≡ seq + d
        → Within d ls
        → selected ≤ max_bytes
        → Loop n selected seq offset d start ls
    Loop-delivers n selected seq offset d start [] stored num e f w le = Loop-nil n selected d start
    Loop-delivers n selected seq offset d start (l ∷ ls) stored num e f w le =
        elim (dec_lt 0 (size l.kind)) [
          | no z ↦
              let d0 : 0 ≡ d = omega arith in
              subst (λ d. Loop n selected seq offset d start (l ∷ ls)) d0
                (Loop-control n selected seq offset start l ls stored (omega arith) (omega arith) (
                  Loop-delivers (n + 1) selected (seq + span l.kind) (offset + width l) 0
                    (start + 1) ls stored.2 (omega arith) (omega arith) (omega arith)
                    (Within-zero ls) le))
          | yes pos ↦ elim (dec_lt 0 (max_bytes - selected)) [
            | no z ↦ Loop-full n selected seq offset d start l ls pos (omega arith)
            | yes room ↦ elim (dec_lt (max_bytes - selected) (size l.kind - d)) [
              | yes lt ↦ Loop-part n selected seq offset d start l ls stored num e f room lt
              | no ge ↦
                  Loop-rest n selected seq offset d start l ls stored num e f (omega arith)
                    (omega arith)
                    (Loop-delivers (n + 1) (selected + (size l.kind - d)) (seq + span l.kind)
                      (offset + width l) 0 (start + (size l.kind - d)) ls stored.2 (omega arith)
                      (omega arith) (omega arith) (Within-zero ls) (omega arith))
            ]
          ]
        ]

    -- The entries behind the cursor, from the first record on.
    pub behind-Delivers :
        (seq offset : ℕ) (ls : List Line)
        → Stored codec file seq offset ls
        → seq + spans ls ≤ u64_max
        → seq ≤ after + 1
        → Delivers
            (load_events codec access 1 file
              (select after max_bytes 0 (behind after (layout seq offset ls))))
            (drop (after + 1 - seq) (all_items ls))
            after
            (max_bytes - 0)
    unfolding behind
    behind-Delivers seq offset [] stored num le = Loop-nil 1 0 (after + 1 - seq) after
    behind-Delivers seq offset (l ∷ ls) stored num le =
        elim (dec_lt after (seq + (span l.kind - 1))) [
          | yes kept ↦
              let t : ltb after (seq + (span l.kind - 1)) ≡ true = ground arith in
              rw (t, behind_all after (seq + span l.kind) (offset + width l) ls (omega arith))
                (Loop-delivers 1 0 seq offset (after + 1 - seq) after (l ∷ ls) stored num refl
                  (omega arith) (omega arith) (omega arith))
          | no passed ↦
              let t : ltb after (seq + (span l.kind - 1)) ≡ false = ground arith in
              let skip : drop (after + 1 - seq) (all_items (l ∷ ls))
                  ≡ drop (after + 1 - (seq + span l.kind)) (all_items ls) =
                drop-append_ge (after + 1 - seq) _ (items l.kind) (all_items ls)
                  (omega (arith, length-items l.kind)) in
              rw (t, skip)
                (behind-Delivers (seq + span l.kind) (offset + width l) ls stored.2 (omega arith)
                  (omega arith))
        ]
