-- ===== src/Journal/Operations.antt =====
-- The operations of the journal as calls in any order, and a write that fails on the way.
use agent_pane.Prelude.{
  ℕ, ◌+◌, ◌*◌, ◌≤◌, ◌<◌, ◌≡◌, refl, ap, List, [], ◌∷◌, ◌++◌, length, take, some, Bool, true, false,
  Text, arith, append-nil, length-append, length-take, if◌then◌else◌,
}
use agent_pane.Execution.{Code, Result, ok, ℤ}
use agent_pane.Journal.{
  EventJournal, AppendIo, complete, fails, append_locked, written_sequence, write_record, and_then,
  is_terminal, sealed, mark_exited_locked, close_locked,
}
use agent_pane.Journal
use agent_pane.Journal.Event.{
  ProcessEventKind, ProcessOutputStream, Codec, ExecutionState, started, output, exited, failed,
  closed,
}
use agent_pane.Journal.Layout.{Line, Represents}
use agent_pane.Journal.Represents.{
  Bounded, Roomy, IsClean, Extends, Represents-inner, append_locked-Extends, and_then_inv,
  Extends-trans,
}

-- A call of a method, with the clock and the file system as it meets them.
pub data Call : Type 0 where
  mark_started : AppendIo → ℕ → Call
  append_output : AppendIo → ℕ → ProcessOutputStream → List ℕ → Call
  mark_exited : AppendIo → ℕ → ℤ → ExecutionState → Call
  close : AppendIo → ℕ → ℕ → Call
  finish_exited : AppendIo → AppendIo → ℕ → ℕ → ℕ → ℤ → ExecutionState → Call
  finish_failed : AppendIo → AppendIo → ℕ → ℕ → ℕ → Text → Call

-- The journal behind a call, whether it returned or failed.
pub perform : Codec → Call → EventJournal → EventJournal
perform codec (mark_started io now) j = (Journal.mark_started codec io now j).1
perform codec (append_output io now stream bytes) j =
    (Journal.append_output codec io now stream bytes j).1
perform codec (mark_exited io now code final) j = (Journal.mark_exited codec io now code final j).1
perform codec (close io now instant) j = (Journal.close codec io now instant j).1
perform codec (finish_exited io io' now now' instant code final) j =
    (Journal.finish_exited codec io io' now now' instant code final j).1
perform codec (finish_failed io io' now now' instant message) j =
    (Journal.finish_failed codec io io' now now' instant message j).1

pub perform_all : Codec → List Call → EventJournal → EventJournal
unfolding perform
perform_all codec [] j = j
perform_all codec (c ∷ cs) j = perform_all codec cs (perform codec c j)

-- No write of a call leaves part of a record behind, and its records take `m` bytes each at most.
abbrev pub IsRegular : Codec → ℕ → Call → Type 0
IsRegular codec m (mark_started io now) = IsClean io × Bounded codec started m
IsRegular codec m (append_output io now stream bytes) =
    IsClean io × Bounded codec (output stream bytes) m
IsRegular codec m (mark_exited io now code final) = IsClean io × Bounded codec (exited code) m
IsRegular codec m (close io now instant) = IsClean io × Bounded codec closed m
IsRegular codec m (finish_exited io io' now now' instant code final) =
    IsClean io × IsClean io' × Bounded codec (exited code) m × Bounded codec closed m
IsRegular codec m (finish_failed io io' now now' instant message) =
    IsClean io × IsClean io' × Bounded codec (failed message) m × Bounded codec closed m

abbrev pub AreRegular : Codec → ℕ → List Call → Type 0
AreRegular codec m [] = Unit
AreRegular codec m (c ∷ cs) = IsRegular codec m c × AreRegular codec m cs

-- An early return, or the rest of the method.
if_inv {ℓ κ} :
    {A : Type ℓ} (P : EventJournal → Type κ) (b : Bool) (m n : A × EventJournal)
    → P m.1
    → P n.1
    → P (if b then m else n).1
if_inv P true m n p q = p
if_inv P false m n p q = q

if_true {ℓ} : {A : Type ℓ} {b : Bool} (m n : A) → b ≡ true → (if b then m else n) ≡ m
if_true m n e = ap (λ b. if b then m else n) e

module _ (codec : Codec) (ls : List Line) where
  -- The records of `ls` are there, and room for `k` more bytes and numbers.
  abbrev Holds : ℕ → EventJournal → Type 0
  Holds k j = Extends codec ls j × Roomy k j

  Holds-le : (m k : ℕ) (j : EventJournal) → k ≤ m → Holds m j → Holds k j
  Holds-le m k j le h = (h.0, (omega arith, omega arith))

  append_locked-Holds :
      (io : AppendIo) (now : ℕ) (kind : ProcessEventKind) (m k : ℕ) (j j' : EventJournal)
      → IsClean io
      → Bounded codec kind m
      → j'.file ≡ j.file
      → j'.inner.entries ≡ j.inner.entries
      → j'.inner.next_sequence ≡ j.inner.next_sequence
      → j'.inner.file_length ≡ j.inner.file_length
      → Holds (m + k) j
      → Holds k (append_locked codec io now kind j').1
  append_locked-Holds io now kind m k j j' clean bound f e n l ((new, r), room) =
      let (extends, room') =
        append_locked-Extends codec j' (ls ++ new)
          (Represents-inner codec j j' (ls ++ new) f e n l r) io now kind m k clean bound
          (omega arith, omega arith) in
      (Extends-trans codec ls j _ (new, r) extends, room')

  sealed-Holds : (k instant : ℕ) (j : EventJournal) → Holds k j → Holds k (sealed instant j).1
  unfolding sealed
  sealed-Holds k instant j ((new, r), room) =
      ((new, Represents-inner codec j _ (ls ++ new) refl refl refl refl r), room)

  mark_exited-Holds :
      (io : AppendIo) (now : ℕ) (code : ℤ) (final : ExecutionState) (m k : ℕ) (j : EventJournal)
      → IsClean io
      → Bounded codec (exited code) m
      → Holds (m + k) j
      → Holds k (mark_exited_locked codec io now code final j).1
  unfolding mark_exited_locked
  mark_exited-Holds io now code final m k j clean bound h =
      if_inv (Holds k) (is_terminal j.inner.state) _ _ (Holds-le (m + k) k j (omega arith) h)
        (append_locked-Holds io now (exited code) m k j _ clean bound refl refl refl refl h)

  close-Holds :
      (io : AppendIo) (now instant : ℕ) (m k : ℕ) (j : EventJournal)
      → IsClean io
      → Bounded codec closed m
      → Holds (m + k) j
      → Holds k (close_locked codec io now instant j).1
  unfolding close_locked
  close-Holds io now instant m k j clean bound h =
      let h' : Holds k (append_locked codec io now closed j).1 =
        append_locked-Holds io now closed m k j j clean bound refl refl refl refl h in
      if_inv (Holds k) j.inner.closed _ _ (Holds-le (m + k) k j (omega arith) h) (
        and_then_inv (Holds k) (append_locked codec io now closed j) (sealed instant) h'
          (sealed-Holds k instant _ h'))

  perform-Holds :
      (c : Call) (m k : ℕ) (j : EventJournal)
      → IsRegular codec m c
      → Holds (m + (m + k)) j
      → Holds k (perform codec c j)
  unfolding perform Journal.mark_started Journal.append_output Journal.mark_exited Journal.close
      Journal.finish_exited Journal.finish_failed
  perform-Holds (mark_started io now) m k j (clean, bound) h =
      let h' : Holds k (append_locked codec io now started _).1 =
        append_locked-Holds io now started m k j _ clean bound refl refl refl refl
          (Holds-le (m + (m + k)) (m + k) j (omega arith) h) in
      and_then_inv (Holds k) _ (λ k. (ok now, k)) h' h'
  perform-Holds (append_output io now stream bytes) m k j (clean, bound) h =
      let h' : Holds (m + k) j = Holds-le (m + (m + k)) (m + k) j (omega arith) h in
      if_inv (Holds k) j.inner.closed _ _ (Holds-le (m + k) k j (omega arith) h') (
        append_locked-Holds io now (output stream bytes) m k j j clean bound refl refl refl refl h')
  perform-Holds (mark_exited io now code final) m k j (clean, bound) h =
      mark_exited-Holds io now code final m k j clean bound
        (Holds-le (m + (m + k)) (m + k) j (omega arith) h)
  perform-Holds (close io now instant) m k j (clean, bound) h =
      close-Holds io now instant m k j clean bound
        (Holds-le (m + (m + k)) (m + k) j (omega arith) h)
  perform-Holds (finish_exited io io' now now' instant code final) m k j
        (clean, clean', bound, bound') h =
      let h' : Holds (m + k) (mark_exited_locked codec io now code final j).1 =
        mark_exited-Holds io now code final m (m + k) j clean bound h in
      and_then_inv (Holds k) _ (close_locked codec io' now' instant)
        (Holds-le (m + k) k _ (omega arith) h')
        (close-Holds io' now' instant m k _ clean' bound' h')
  perform-Holds (finish_failed io io' now now' instant message) m k j (clean, clean', bound, bound')
        h =
      let j' : EventJournal = record j {
        inner = record (j.inner) { state = ExecutionState.failed };
      } in
      let m₁ : Result (Unit {0}) × EventJournal = append_locked codec io now (failed message) j' in
      let m₂ : Result (Unit {0}) × EventJournal = append_locked codec io' now' closed m₁.1 in
      let failing : Holds (m + k) m₁.1 =
        append_locked-Holds io now (failed message) m (m + k) j j' clean bound refl refl refl refl
          h in
      let closing : Holds k m₂.1 =
        append_locked-Holds io' now' closed m k m₁.1 m₁.1 clean' bound' refl refl refl refl
          failing in
      if_inv (Holds k) j.inner.closed _ _ (Holds-le (m + (m + k)) k j (omega arith) h) (
        and_then_inv (Holds k) m₁
          (λ k. and_then (append_locked codec io' now' closed k) (sealed instant))
          (Holds-le (m + k) k m₁.1 (omega arith) failing)
          (and_then_inv (Holds k) m₂ (sealed instant) closing
            (sealed-Holds k instant m₂.1 closing)))

-- Where no failing write leaves part of a record, and the records are small enough for the counters to stay
-- below 2^64, calls in any order leave a journal that represents its records, those in front of the calls
-- first.
pub perform_all-Extends :
    (codec : Codec) (m : ℕ) (cs : List Call) (j : EventJournal) (ls : List Line)
    → AreRegular codec m cs
    → Roomy ((m + m) * length cs) j
    → Represents codec j ls
    → Extends codec ls (perform_all codec cs j)
unfolding perform_all
perform_all-Extends codec m [] j ls regular room r = ([], rw append-nil r)
perform_all-Extends codec m (c ∷ cs) j ls (regular, rest) room r =
    let (extends, room') =
      perform-Holds codec ls c m ((m + m) * length cs) j regular
        (([], rw append-nil r), (grind arith, grind arith)) in
    Extends-trans codec ls _ _ extends
      (perform_all-Extends codec m cs (perform codec c j) (ls ++ extends.0) rest room' extends.1)

-- A write that fails after part of a record leaves a file that no index fits: the file is longer
-- than the journal counts, and no list of records is represented any more.
pub torn_write :
    (codec : Codec) (j : EventJournal) (ls ls' : List Line) (n now : ℕ) (code : Code)
    (kind : ProcessEventKind) (b : List ℕ)
    → Represents codec j ls
    → codec.encode
        (record { sequence = written_sequence j.inner kind; timestamp = now; event = kind })
      ≡ some b
    → 0 < n
    → ¬ Represents codec (append_locked codec (fails n code) now kind j).1 ls'
unfolding append_locked write_record
torn_write codec j ls ls' n now code kind b r e pos r' =
    let torn : Represents codec (write_record (fails n code) kind b j).1 ls' =
      unfold write_record in rw (e, append_locked) at r' in
    omega (
      arith,
      r.length_lem,
      ap length r.file_lem,
      torn.length_lem,
      ap length torn.file_lem,
      length-append j.file (take n (b ++ 10 ∷ [])),
      length-take n (b ++ 10 ∷ []),
      length-append b (10 ∷ []),
    )
