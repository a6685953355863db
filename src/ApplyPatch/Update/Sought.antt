-- ===== src/ApplyPatch/Update/Sought.antt =====
-- The search of `seek_sequence` with its places alone, for the proofs about it.
use agent_pane.Prelude.{
  ℕ, zero, suc, ◌+◌, ◌-◌, ◌≤◌, List, ◌≡◌, refl, Bool, true, false, Option, none, some, Text, trim,
  trim_end, length, drop, is_empty, ltb, if◌then◌else◌, arith,
}
use agent_pane.Execution.{Result, ok}
use agent_pane.ApplyPatch.Hunk.{UpdateMode}
use agent_pane.ApplyPatch.Update.Seek.{
  normalize_unicode, matches, scan, or_scan, search_start, seek_sequence,
}

-- The first place where the lines match.
unfoldable pub places : (Text → Text) → List Text → List Text → ℕ → ℕ → Option ℕ
unfolding matches
places normalize lines pattern zero index = none
places normalize lines pattern (suc rounds) index =
    let rest = places normalize lines pattern rounds (index + 1) in
    if matches normalize (drop index lines) pattern then some index else rest

unfoldable pub or_place : Option ℕ → Option ℕ → Option ℕ
or_place (some index) next = some index
or_place none next = next

unfoldable pub sought : List Text → List Text → ℕ → Bool → UpdateMode → Option ℕ
unfolding places or_place search_start normalize_unicode
sought lines pattern start eof mode =
    let end = length lines - length pattern in
    let from = search_start mode eof start end in
    let rounds = end + 1 - from in
    if is_empty pattern
    then some start
    else if ltb (length lines) (length pattern)
    then none
    else if ltb end from
    then none
    else or_place (places (λ value. value) lines pattern rounds from) (
        or_place (places trim_end lines pattern rounds from) (
          or_place (places trim lines pattern rounds from)
            (places normalize_unicode lines pattern rounds from)))

-- Where the last slice ends in range, no slice is out of range.
scan-ok :
    (f : Text → Text) (lines pattern : List Text) (rounds index : ℕ)
    → index + rounds + length pattern ≤ length lines + 1
    → scan f lines pattern rounds index ≡ ok (places f lines pattern rounds index)
unfolding scan places
scan-ok f lines pattern zero index h = refl
scan-ok f lines pattern (suc n) index h =
    let inside : ltb (length lines) (index + length pattern) ≡ false = ground arith in
    rw (inside, scan-ok f lines pattern n (index + 1) (omega arith))
      (pushed (matches f (drop index lines) pattern))
  where
    pushed :
        (b : Bool)
        → (if b then ok (some index) else ok (places f lines pattern n (index + 1)))
          ≡ ok (if b then some index else places f lines pattern n (index + 1))
    pushed true = refl
    pushed false = refl

or_scan-ok : (o p : Option ℕ) → or_scan (ok o) (ok p) ≡ ok (or_place o p)
unfolding or_scan or_place
or_scan-ok (some i) p = refl
or_scan-ok none p = refl

-- The search returns its place, or none, and no slice is out of range.
pub seek_sequence-ok :
    (lines pattern : List Text) (start : ℕ) (eof : Bool) (mode : UpdateMode)
    → seek_sequence lines pattern start eof mode ≡ ok (sought lines pattern start eof mode)
unfolding seek_sequence sought
seek_sequence-ok lines pattern start eof mode =
    let end : ℕ = length lines - length pattern in
    let from : ℕ = search_start mode eof start end in
    let rounds : ℕ = end + 1 - from in
    both (is_empty pattern) _ _ _ _ (λ b. refl)
      (λ b.
        both (ltb (length lines) (length pattern)) _ _ _ _ (λ b. refl)
          (λ long.
            both (ltb end from) _ _ _ _ (λ b. refl)
              (λ far.
                let h : from + rounds + length pattern ≤ length lines + 1 = ground arith in
                rw
                  (
                    scan-ok (λ value. value) lines pattern rounds from h,
                    scan-ok trim_end lines pattern rounds from h,
                    scan-ok trim lines pattern rounds from h,
                    scan-ok normalize_unicode lines pattern rounds from h,
                    or_scan-ok (places trim lines pattern rounds from)
                        (places normalize_unicode lines pattern rounds from),
                    or_scan-ok (places trim_end lines pattern rounds from) (
                        or_place (places trim lines pattern rounds from)
                          (places normalize_unicode lines pattern rounds from)),
                  )
                  (or_scan-ok (places (λ value. value) lines pattern rounds from) _))))
  where
    both :
        (b : Bool) (m n : Result (Option ℕ)) (o p : Option ℕ)
        → (b ≡ true → m ≡ ok o)
        → (b ≡ false → n ≡ ok p)
        → (if b then m else n) ≡ ok (if b then o else p)
    both true m n o p h k = h refl
    both false m n o p h k = k refl
