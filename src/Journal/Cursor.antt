-- ===== src/Journal/Cursor.antt =====
-- `read_now` over a represented journal: what a cursor gets, and when the read is refused.
use agent_pane.Prelude.{
  ℕ, ◌+◌, ◌-◌, ◌≤◌, ◌<◌, ◌≡◌, refl, sym, ap, ◌∙◌, List, [], ◌∷◌, ◌++◌, length, take, drop, none,
  arith, length-drop, drop-drop, append_assoc, drop_all, take-append-drop, ltb, false,
}
use mathlib.Core.Path.{subst, ap₂}
use agent_pane.Prelude.Machine.{u64_max}
use agent_pane.Execution.{Result, ok, err, panic, ◌>>=◌}
use agent_pane.Journal.{EventJournal}
use agent_pane.Journal.Event.{ProcessEvent, Codec}
use native.Mathlib.Decide.{dec_lt}
use agent_pane.Journal.Layout.{items, Line, spans, all_items, Represents}
use agent_pane.Journal.Read.{
  SelectedEntry, ReadExecutionResult, behind, select, ReadIo, io_result, last_sequence, load_events,
  load_all, read_now,
}
use agent_pane.Journal.Stored.{delivered, bytes, Stored, Stored-of_Decodes, length-all_items}
use agent_pane.Journal.Delivery.{Delivers, behind-Delivers}

load_all_lem :
    (codec : Codec) (access : ReadIo) (file : List ℕ) (ss : List SelectedEntry)
    → access 0 ≡ none
    → load_all codec access file ss ≡ load_events codec access 1 file ss
unfolding load_all load_events io_result
load_all_lem codec access file [] h = refl
load_all_lem codec access file (s ∷ ss) h = rw (h, load_all)

module _ (codec : Codec) (access : ReadIo) (clean : (n : ℕ) → access n ≡ none) (j : EventJournal)
    (ls : List Line) (r : Represents codec j ls) where
  selected-Delivers :
      (after max_bytes : ℕ)
      → max_bytes ≤ u64_max
      → Delivers
          (load_all codec access j.file (select after max_bytes 0 (behind after j.inner.entries)))
          (drop after (all_items ls))
          after
          max_bytes
  selected-Delivers after max_bytes small =
      let stored : Stored codec j.file 1 0 ls =
        subst (λ f. Stored codec f 1 0 ls) (sym r.file_lem)
          (Stored-of_Decodes codec [] 1 0 ls refl r.decodes) in
      let z : after + 1 - 1 ≡ after = omega arith in
      let z' : max_bytes - 0 ≡ max_bytes = omega arith in
      rw
        (
          load_all_lem codec access j.file (select after max_bytes 0 (behind after j.inner.entries))
              (clean 0),
          r.entries_lem,
        )
        (rw (z, z') at
          (behind-Delivers codec access j.file clean after max_bytes small 1 0 ls stored r.numbered
            (omega arith)))

  -- A read behind a cursor that is not ahead of the journal succeeds. What it returns are the next
  -- items in their order, from the one behind the cursor on; its `next_sequence` is past exactly
  -- these, and their output is within `max_bytes`. The record's accesses succeed.
  pub read_now_delivers :
      (after max_bytes : ℕ)
      → max_bytes ≤ u64_max
      → after ≤ spans ls
      → (result : ReadExecutionResult) × (read_now codec access after max_bytes j ≡ ok result)
        × (delivered result.events
            ≡ take (result.next_sequence - after) (drop after (all_items ls)))
        × (after ≤ result.next_sequence)
        × (result.next_sequence ≤ spans ls)
        × (bytes result.events ≤ max_bytes)
  unfolding read_now
  read_now_delivers after max_bytes small le =
      let d : Delivers _ _ after max_bytes = selected-Delivers after max_bytes small in
      let ahead : ltb (j.inner.next_sequence - 1) after ≡ false = ground (arith, r.next_lem) in
      let counted : last_sequence after d.events - after ≡ d.count = omega (arith, d.last_lem) in
      (
        record {
          events = d.events;
          next_sequence = last_sequence after d.events;
          state = j.inner.state;
          exit_code = j.inner.exit_code;
        },
        rw (ahead, d.loaded_lem, read_now) refl,
        rw counted d.items_lem,
        omega (arith, d.last_lem),
        omega
            (arith, d.last_lem, d.count_le, length-drop after (all_items ls), length-all_items ls),
        d.budget_lem,
      )

  -- With a positive limit, and something behind the cursor, a read advances.
  pub read_now_advances :
      (after max_bytes : ℕ) (result : ReadExecutionResult)
      → max_bytes ≤ u64_max
      → 0 < max_bytes
      → after < spans ls
      → read_now codec access after max_bytes j ≡ ok result
      → after < result.next_sequence
  unfolding read_now
  read_now_advances after max_bytes result small pos lt e =
      let d : Delivers _ _ after max_bytes = selected-Delivers after max_bytes small in
      let ahead : ltb (j.inner.next_sequence - 1) after ≡ false = ground (arith, r.next_lem) in
      let next : last_sequence after d.events ≡ result.next_sequence =
        ap next_of (rw (ahead, d.loaded_lem, read_now) at e) in
      let more : 0 < d.count =
        d.progress pos (omega (arith, length-drop after (all_items ls), length-all_items ls)) in
      omega (arith, d.last_lem, next, more)
    where
      next_of : Result ReadExecutionResult → ℕ
      next_of (ok result) = result.next_sequence
      next_of (err code) = 0
      next_of panic = 0

delivered-append : (es fs : List ProcessEvent) → delivered (es ++ fs) ≡ delivered es ++ delivered fs
delivered-append [] fs = refl
delivered-append (e ∷ es) fs =
    rw (delivered-append es fs) (sym (append_assoc (items e.event) (delivered es) (delivered fs)))

take-append-drop_at {ℓ} :
    {A : Type ℓ} (m n : ℕ) (xs : List A) → m ≤ n → take (n - m) (drop m xs) ++ drop n xs ≡ drop m xs
take-append-drop_at m n xs le =
    let e : m + (n - m) ≡ n = omega arith in
    ap (λ k. take (n - m) (drop m xs) ++ drop k xs) (sym e)
    ∙ ap (λ t. take (n - m) (drop m xs) ++ t) (sym (drop-drop (n - m) m xs))
    ∙ take-append-drop (n - m) (drop m xs)

-- A client's reads, each from the `next_sequence` of the one before it: all the events, and the
-- last cursor.
pub poll : Codec → ReadIo → EventJournal → List ℕ → ℕ → Result (List ProcessEvent × ℕ)
poll codec access j [] after = ok ([], after)
poll codec access j (m ∷ ms) after = read_now codec access after m j >>= λ first.
    poll codec access j ms first.next_sequence >>= λ rest. ok (first.events ++ rest.0, rest.1)

-- The limits of the reads are positive.
abbrev pub ArePositive : List ℕ → Type 0
ArePositive [] = Unit
ArePositive (m ∷ ms) = (0 < m) × (m ≤ u64_max) × ArePositive ms

-- As many reads as there are items behind the cursor, each with a positive limit, deliver all of
-- them, each once and in order, and end with the cursor at the last one.
pub poll_delivers_all :
    (codec : Codec) (access : ReadIo) (j : EventJournal) (ls : List Line) (ms : List ℕ) (after : ℕ)
    → ((n : ℕ) → access n ≡ none)
    → Represents codec j ls
    → ArePositive ms
    → after ≤ spans ls
    → spans ls ≤ after + length ms
    → (es : List ProcessEvent) × (poll codec access j ms after ≡ ok (es, spans ls))
      × (delivered es ≡ drop after (all_items ls))
unfolding poll
poll_delivers_all codec access j ls [] after clean r pos le enough =
    let e : after ≡ spans ls = omega arith in
    (
      [],
      ap (λ n. ok ([], n)) e,
      sym (drop_all after (all_items ls) (omega (arith, length-all_items ls))),
    )
poll_delivers_all codec access j ls (m ∷ ms) after clean r (pos, small, positive) le enough =
    let (first, e, its, lo, hi, budget) =
      read_now_delivers codec access clean j ls r after m small le in
    let enough' : spans ls ≤ first.next_sequence + length ms = elim (dec_lt after (spans ls)) [
      | yes lt ↦
          omega (arith, read_now_advances codec access clean j ls r after m first small pos lt e)
      | no ge ↦ omega arith
    ] in
    let (es, e', its') =
      poll_delivers_all codec access j ls ms first.next_sequence clean r positive hi enough' in
    (
      first.events ++ es,
      rw (e, e') refl,
      delivered-append first.events es
          ∙ ap₂ (λ s t. s ++ t) its its'
          ∙ take-append-drop_at after first.next_sequence (all_items ls) lo,
    )
