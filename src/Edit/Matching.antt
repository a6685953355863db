-- ===== src/Edit/Matching.antt =====
-- The matches of the edit tool (matching.rs of edit). A text is its code points, and an index counts
-- them where the source counts bytes: a slice at an index of a match is the same. An allocation that
-- fails (`try_reserve_exact`) is not modelled, and `usize::try_from` does not fail.
use agent_pane.Prelude.{
  ℕ, zero, suc, ◌+◌, ◌-◌, List, [], ◌∷◌, ◌++◌, Bool, true, false, Option, none, some, Text,
  starts_with, byte_len, length, take, drop, is_empty, ltb, if◌then◌else◌, on_some,
}
use agent_pane.Prelude.Machine.{checked_add, checked_mul, checked_sub}
use agent_pane.Execution.{Result, ok, err, panic, invalid_request, resource_exhausted}
use agent_pane.Execution.Runtime.{Runtime, Io, pure, call, ◌>>=◌}

-- `str::match_indices`, from an index on, behind as many code points as are skipped.
unfoldable pub match_from : ℕ → ℕ → Text → Text → List ℕ
unfolding starts_with
match_from skip i [] old = if is_empty old then i ∷ [] else []
match_from zero i (c ∷ s) old =
    let rest = match_from 0 (i + 1) s old in
    let behind = match_from (length old - 1) (i + 1) s old in
    if starts_with (c ∷ s) old then i ∷ behind else rest
match_from (suc k) i (c ∷ s) old = match_from k (i + 1) s old

unfoldable pub match_indices : Text → Text → List ℕ
unfolding match_from
match_indices source old = match_from 0 0 source old

-- `str::find`
unfoldable pub find : Text → Text → Option ℕ
unfolding starts_with
find [] old = if is_empty old then some 0 else none
find (c ∷ s) old =
    let rest = find s old in
    if starts_with (c ∷ s) old then some 0 else on_some rest (λ i. some (i + 1)) none

-- `str::contains`
unfoldable pub contains_text : Text → Text → Bool
unfolding find
contains_text s old = elim (find s old) [ none ↦ false | some i ↦ true ]

-- Where only one match is to be replaced, there is no other, not even one that overlaps it.
unfoldable pub check_unique : Bool → Text → Text → ℕ → Result (Unit {0})
unfolding contains_text
check_unique all source old first =
    if all
    then ok tt
    else if is_empty (drop first source)
    then panic
    else if contains_text (drop (first + 1) source) old
    then err invalid_request
    else ok tt

-- The bytes of the result.
unfoldable pub result_size : Text → Text → Text → ℕ → Option ℕ
unfolding checked_add checked_mul checked_sub byte_len
result_size source old new count =
    on_some (checked_mul count (byte_len old))
      (λ removed.
        on_some (checked_sub (byte_len source) removed)
          (λ n. on_some (checked_mul count (byte_len new)) (λ added. checked_add n added) none)
          none)
      none

unfoldable pub check_size : Text → Text → Text → ℕ → ℕ → Result (Unit {0})
unfolding result_size
check_size source old new max_bytes count =
    on_some (result_size source old new count)
      (λ size. if ltb max_bytes size then err resource_exhausted else ok tt)
      (err resource_exhausted)

module _ {World : Type 0} (runtime : Runtime World) where
  unfoldable pub count_matches : Bool → ℕ → List ℕ → Io World ℕ
  count_matches all count [] = pure (ok count)
  count_matches all count (i ∷ is) =
      let rest = count_matches all (count + 1) is in
      call runtime.checkpoint >>= λ u. if all then rest else pure (ok (count + 1))

  -- The loop that fills the output, and what stands behind it of the source.
  unfoldable pub fill : Bool → Text → Text → Text → ℕ → Text → List ℕ → Io World Text
  fill all source old new cursor output [] = pure (ok (output ++ drop cursor source))
  fill all source old new cursor output (i ∷ is) =
      let more = output ++ (take (i - cursor) (drop cursor source) ++ new) in
      let rest = fill all source old new (i + length old) more is in
      call runtime.checkpoint >>= λ u.
      if all then rest else pure (ok (more ++ drop (i + length old) source))

  unfoldable pub replace : Text → Text → Text → Bool → ℕ → Io World (Text × ℕ)
  unfolding find check_unique match_indices count_matches check_size fill
  replace source old new all max_bytes = call runtime.checkpoint >>= λ u.
      on_some (find source old)
        (λ first. pure (check_unique all source old first) >>= λ u.
          count_matches all 0 (match_indices source old) >>= λ count.
          pure (check_size source old new max_bytes count) >>= λ u.
          fill all source old new 0 [] (match_indices source old) >>= λ output.
          call runtime.checkpoint >>= λ u. pure (ok (output, count)))
        (pure (err invalid_request))
