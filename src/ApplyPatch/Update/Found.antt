-- ===== src/ApplyPatch/Update/Found.antt =====
-- What a place that `seek_sequence` returns means.
use agent_pane.Prelude.{
  ℕ, zero, suc, ◌+◌, ◌-◌, ◌≤◌, List, [], ◌∷◌, map, ◌≡◌, refl, ap, ◌∙◌, Bool, true, false, Option,
  none, some, Text, text_eq_iff, trim, trim_end, length, take, drop, is_empty, ltb, arith, by_test,
}
use agent_pane.ApplyPatch.Hunk.{UpdateMode}
use agent_pane.Execution.{ok}
use agent_pane.ApplyPatch.Update.Sought.{places, or_place, sought, seek_sequence-ok}
use agent_pane.ApplyPatch.Update.Seek.{normalize_unicode, matches, search_start, seek_sequence}

-- The lines from `index` on are those of the pattern, when both are normalized.
abbrev pub StandsAt : (Text → Text) → List Text → List Text → ℕ → Type 0
StandsAt normalize lines pattern index =
    map normalize (take (length pattern) (drop index lines)) ≡ map normalize pattern

-- The four comparisons.
pub data Normalizer : (Text → Text) → Type 0 where
  exact : Normalizer (λ value. value)
  without_end : Normalizer trim_end
  without_ends : Normalizer trim
  plain : Normalizer normalize_unicode

matches-map :
    (f : Text → Text) (lines pattern : List Text)
    → matches f lines pattern ≡ true
    → map f (take (length pattern) lines) ≡ map f pattern
unfolding matches
matches-map f lines [] h = refl
matches-map f [] (p ∷ ps) h = ground arith
matches-map f (l ∷ ls) (p ∷ ps) h = ground (arith, matches-map f ls ps, text_eq_iff (f l) (f p))

places-some :
    (f : Text → Text) (lines pattern : List Text) (rounds index found : ℕ)
    → places f lines pattern rounds index ≡ some found
    → (index ≤ found) × ((found + 1 ≤ index + rounds) × StandsAt f lines pattern found)
unfolding places
places-some f lines pattern zero index found h = ground arith
places-some f lines pattern (suc n) index found h =
    by_test Goal (matches f (drop index lines) pattern) _ _ (λ m e. here found (ground arith) m)
      (λ m e. further (places-some f lines pattern n (index + 1) found e)) h
  where
    Goal : Option ℕ → Type 0
    Goal o =
        o ≡ some found
        → (index ≤ found) × ((found + 1 ≤ index + suc n) × StandsAt f lines pattern found)

    here :
        (k : ℕ)
        → k ≡ index
        → matches f (drop index lines) pattern ≡ true
        → (index ≤ k) × ((k + 1 ≤ index + suc n) × StandsAt f lines pattern k)
    here k e m = (omega arith, (omega arith, rw e (matches-map f (drop index lines) pattern m)))

    further :
        (index + 1 ≤ found) × ((found + 1 ≤ index + 1 + n) × StandsAt f lines pattern found)
        → (index ≤ found) × ((found + 1 ≤ index + suc n) × StandsAt f lines pattern found)
    further (a, (b, c)) = (omega arith, (omega arith, c))

-- A place in range, not in front of `from`, where the lines are the pattern's by one of the four
-- comparisons.
pub record Found (lines pattern : List Text) (from found : ℕ) : Type 1 where
  pub from_lem : from ≤ found
  pub in_range : found + length pattern ≤ length lines
  pub normalize : Text → Text
  pub normalizer : Normalizer normalize
  pub stands : StandsAt normalize lines pattern found

places-Found :
    (f : Text → Text) (lines pattern : List Text) (from found : ℕ)
    → Normalizer f
    → length pattern ≤ length lines
    → places f lines pattern (length lines - length pattern + 1 - from) from ≡ some found
    → Found lines pattern from found
places-Found f lines pattern from found n short e =
    let (a, (b, c)) = places-some f lines pattern _ from found e in
    record { from_lem = a; in_range = omega arith; normalize = f; normalizer = n; stands = c }

or_place-Found :
    (lines pattern : List Text) (from found : ℕ) (o p : Option ℕ)
    → (o ≡ some found → Found lines pattern from found)
    → (p ≡ some found → Found lines pattern from found)
    → or_place o p ≡ some found
    → Found lines pattern from found
unfolding or_place
or_place-Found lines pattern from found none p h k e = k e
or_place-Found lines pattern from found (some i) p h k e = h e

-- The end that `seek_sequence` counts with.
abbrev pub last_place : List Text → List Text → ℕ
last_place lines pattern = length lines - length pattern

pub sought-Found :
    (lines pattern : List Text) (start : ℕ) (eof : Bool) (mode : UpdateMode) (found : ℕ)
    → is_empty pattern ≡ false
    → sought lines pattern start eof mode ≡ some found
    → Found lines pattern (search_start mode eof start (last_place lines pattern)) found
unfolding sought
sought-Found lines pattern start eof mode found filled =
    let from = search_start mode eof start (last_place lines pattern) in
    let Goal : Option ℕ → Type 1 = λ o. o ≡ some found → Found lines pattern from found in
    by_test Goal (is_empty pattern) _ _ (λ b e. absurd (ground arith))
      (λ b.
        by_test Goal (ltb (length lines) (length pattern)) _ _ (λ b e. absurd (ground arith))
          (λ long.
            by_test Goal (ltb (last_place lines pattern) from) _ _ (λ b e. absurd (ground arith))
              (λ b.
                let short : length pattern ≤ length lines = ground arith in
                or_place-Found lines pattern from found _ _
                  (places-Found _ lines pattern from found exact short)
                  (or_place-Found lines pattern from found _ _
                    (places-Found _ lines pattern from found without_end short)
                    (or_place-Found lines pattern from found _ _
                      (places-Found _ lines pattern from found without_ends short)
                      (places-Found _ lines pattern from found plain short))))))

-- A place that is found for a pattern with lines is in range and not in front of the search's start,
-- and there the lines are the pattern's, when both are compared as they are, without the blanks
-- at the end or at both ends, or with plain dashes, quotes and spaces too.
pub seek_sequence-Found :
    (lines pattern : List Text) (start : ℕ) (eof : Bool) (mode : UpdateMode) (found : ℕ)
    → is_empty pattern ≡ false
    → seek_sequence lines pattern start eof mode ≡ ok (some found)
    → Found lines pattern (search_start mode eof start (last_place lines pattern)) found
seek_sequence-Found lines pattern start eof mode found filled e =
    sought-Found lines pattern start eof mode found filled
      (ok_inj _ _ (rw (seek_sequence-ok lines pattern start eof mode) at e))
  where
    ok_inj : (o p : Option ℕ) → ok o ≡ ok p → o ≡ p
    ok_inj o p h = cc

map-matches :
    (f : Text → Text) (lines pattern : List Text)
    → map f (take (length pattern) lines) ≡ map f pattern
    → matches f lines pattern ≡ true
unfolding matches
map-matches f lines [] h = refl
map-matches f [] (p ∷ ps) h = ground arith
map-matches f (l ∷ ls) (p ∷ ps) h = ground (arith, map-matches f ls ps, text_eq_iff (f l) (f p))

-- The first match is not behind any other.
places-first :
    (f : Text → Text) (lines pattern : List Text) (rounds index k : ℕ)
    → index ≤ k
    → k + 1 ≤ index + rounds
    → matches f (drop k lines) pattern ≡ true
    → (found : ℕ) × ((places f lines pattern rounds index ≡ some found) × (found ≤ k))
unfolding places
places-first f lines pattern zero index k a b m = absurd (omega arith)
places-first f lines pattern (suc n) index k a b m =
    by_test Goal (matches f (drop index lines) pattern) _ _ (λ t. (index, (refl, a)))
      (λ t. places-first f lines pattern n (index + 1) k (past t) (omega arith) m)
  where
    Goal : Option ℕ → Type 0
    Goal o = (found : ℕ) × ((o ≡ some found) × (found ≤ k))

    not_here : index ≡ k → matches f (drop index lines) pattern ≡ false → ⊥
    not_here e t = let u : matches f (drop index lines) pattern ≡ true = rw e m in cc

    past : matches f (drop index lines) pattern ≡ false → index + 1 ≤ k
    past t = ground (arith, not_here, t, a)

or_place-first : (o p : Option ℕ) (found : ℕ) → o ≡ some found → or_place o p ≡ some found
unfolding or_place
or_place-first none p found e = absurd (cc)
or_place-first (some i) p found e = e

lt_of_ltb : (a b : ℕ) → ltb a b ≡ true → a + 1 ≤ b
lt_of_ltb a b h = ground arith

sought-exact :
    (lines pattern : List Text) (start : ℕ) (eof : Bool) (mode : UpdateMode) (k : ℕ)
    → is_empty pattern ≡ false
    → search_start mode eof start (last_place lines pattern) ≤ k
    → k + length pattern ≤ length lines
    → StandsAt (λ value. value) lines pattern k
    → (found : ℕ) × ((sought lines pattern start eof mode ≡ some found)
        × ((found ≤ k) × StandsAt (λ value. value) lines pattern found))
unfolding sought
sought-exact lines pattern start eof mode k filled a b at =
    let from = search_start mode eof start (last_place lines pattern) in
    let rounds = length lines - length pattern + 1 - from in
    let (found, (e, le)) =
      places-first (λ value. value) lines pattern rounds from k a (omega arith)
        (map-matches (λ value. value) (drop k lines) pattern at) in
    let (c, (d, stands)) = places-some (λ value. value) lines pattern rounds from found e in
    let Goal : Option ℕ → Type 0 = λ o. o ≡ some found in
    (
      found,
      (
        by_test Goal (is_empty pattern) _ _ (λ t. absurd (cc))
            (λ t.
              by_test Goal (ltb (length lines) (length pattern)) _ _
                (λ t. absurd (omega (arith, lt_of_ltb (length lines) (length pattern) t)))
                (λ t.
                  by_test Goal (ltb (last_place lines pattern) from) _ _
                    (λ t. absurd (omega (arith, lt_of_ltb (last_place lines pattern) from t)))
                    (λ t. or_place-first _ _ found e))),
        (le, stands),
      ),
    )

-- Where the exact lines of a pattern stand in range, a place that is not behind them is found,
-- where the exact lines stand too: a looser comparison comes second to an exact one.
pub seek_sequence-exact :
    (lines pattern : List Text) (start : ℕ) (eof : Bool) (mode : UpdateMode) (k : ℕ)
    → is_empty pattern ≡ false
    → search_start mode eof start (last_place lines pattern) ≤ k
    → k + length pattern ≤ length lines
    → StandsAt (λ value. value) lines pattern k
    → (found : ℕ) × ((seek_sequence lines pattern start eof mode ≡ ok (some found))
        × ((found ≤ k) × StandsAt (λ value. value) lines pattern found))
seek_sequence-exact lines pattern start eof mode k filled a b at =
    let (found, (e, rest)) = sought-exact lines pattern start eof mode k filled a b at in
    (found, (seek_sequence-ok lines pattern start eof mode ∙ ap ok e, rest))
