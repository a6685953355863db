-- ===== src/ApplyPatch/Update/Located.antt =====
-- The places of the chunks, by the mode (`seek_sequence` as `compute_replacements` calls it).
use agent_pane.Prelude.{
  ℕ, ◌+◌, ◌≤◌, List, [], ◌∷◌, ◌++◌, ◌≡◌, refl, Bool, true, false, Option, none, some, Text, length,
  is_empty, if◌then◌else◌, on_some, arith,
}
use agent_pane.ApplyPatch.Hunk.{UpdateMode, normalize_to_lf, preserve_line_endings, UpdateFileChunk}
use agent_pane.ApplyPatch.Parser.State.{last?, is_some_and}
use agent_pane.Execution.{ok}
use agent_pane.ApplyPatch.Update.{drop_last, found_as, locate}
use agent_pane.ApplyPatch.Update.Sought.{sought, seek_sequence-ok}
use agent_pane.ApplyPatch.Update.Seek.{search_start}
use agent_pane.ApplyPatch.Update.Found.{Found, last_place, sought-Found}
use agent_pane.ApplyPatch.Update.Replace.{Replacement}
use agent_pane.ApplyPatch.Update.Fit.{Scattered, Scattered-le}
use agent_pane.ApplyPatch.Update.Ascending.{Within}

-- What fits into a file of `n` lines from `from` on, in either mode.
abbrev pub Fits : UpdateMode → ℕ → ℕ → List Replacement → Type 0
Fits normalize_to_lf n from rs = (from ≤ n) × Within n rs
Fits preserve_line_endings n from rs = Scattered n from rs

-- Replacements that lead from one line to another.
abbrev pub Leads : UpdateMode → ℕ → ℕ → List Replacement → ℕ → Type 0
Leads mode n from rs to =
    (more : List Replacement) → Fits mode n to more → Fits mode n from (rs ++ more)

-- `seek_sequence` in a mode: a place in range, and in preserve mode none in front of `from`.
abbrev pub NotBefore : UpdateMode → ℕ → ℕ → Type 0
NotBefore normalize_to_lf from found = Unit
NotBefore preserve_line_endings from found = from ≤ found

pub search_start-NotBefore :
    (mode : UpdateMode) (eof : Bool) (from end found : ℕ)
    → search_start mode eof from end ≤ found
    → NotBefore mode from found
unfolding search_start
search_start-NotBefore normalize_to_lf eof from end found h = tt
search_start-NotBefore preserve_line_endings true from end found h = omega arith
search_start-NotBefore preserve_line_endings false from end found h = h

pub sought-NotBefore :
    (mode : UpdateMode) (eof : Bool) (lines pattern : List Text) (from found : ℕ)
    → from ≤ length lines
    → sought lines pattern from eof mode ≡ some found
    → (found + length pattern ≤ length lines) × NotBefore mode from found
unfolding sought
sought-NotBefore mode eof lines [] from found h e = at_start mode found (ground arith)
  where
    at_start :
        (mode : UpdateMode) (k : ℕ) → k ≡ from → (k + 0 ≤ length lines) × NotBefore mode from k
    at_start normalize_to_lf k e = (omega arith, tt)
    at_start preserve_line_endings k e = (omega arith, omega arith)
sought-NotBefore mode eof lines (p ∷ ps) from found h e =
    let f : Found lines (p ∷ ps) (search_start mode eof from (last_place lines (p ∷ ps))) found =
      sought-Found lines (p ∷ ps) from eof mode found refl e in
    (f.in_range, search_start-NotBefore mode eof from _ found f.from_lem)

-- A step of `n` lines back.
pub Fits-le :
    (mode : UpdateMode) (n i j : ℕ) (rs : List Replacement)
    → NotBefore mode i j
    → i ≤ n
    → Fits mode n j rs
    → Fits mode n i rs
Fits-le normalize_to_lf n i j rs b h (k, w) = (h, w)
Fits-le preserve_line_endings n i j rs b h s = Scattered-le n i j rs b s

abbrev pub Located : UpdateMode → List Text → ℕ → ℕ × List Text × List Text → Type 0
Located mode original index (start, pattern, replacement) =
    (start + length pattern ≤ length original) × NotBefore mode index start

pub found_as-Located :
    (mode : UpdateMode) (original pattern replacement : List Text) (index : ℕ) (o : Option ℕ)
    → ((s : ℕ) → o ≡ some s → (s + length pattern ≤ length original) × NotBefore mode index s)
    → (t : ℕ × List Text × List Text) → found_as pattern replacement o ≡ some t
    → Located mode original index t
unfolding found_as
found_as-Located mode original pattern replacement index none h t e = absurd (cc)
found_as-Located mode original pattern replacement index (some s) h t e = at (some_inj e) (h s refl)
  where
    some_inj : some (s, pattern, replacement) ≡ some t → (s, pattern, replacement) ≡ t
    some_inj e = cc

    at :
        {u : ℕ × List Text × List Text}
        → u ≡ t
        → Located mode original index u
        → Located mode original index t
    at e l = rw e at l

unfoldable or_found {ℓ} : {A : Type ℓ} → Option A → Option A → Option A
or_found (some found) next = some found
or_found none next = next

-- The place of a chunk, by the search without the bounds of its slices.
unfoldable pub place :
    UpdateMode → List Text → UpdateFileChunk → ℕ → Option (ℕ × List Text × List Text)
unfolding sought last? drop_last found_as or_found
place mode original chunk line_index =
    let old = chunk.old_lines in
    let new = chunk.new_lines in
    let shorter = if is_some_and is_empty (last? new) then drop_last new else new in
    let seek : List Text → Option ℕ =
      λ pattern. sought original pattern line_index chunk.is_end_of_file mode in
    or_found (found_as old new (seek old)) (
      if is_some_and is_empty (last? old)
      then found_as (drop_last old) shorter (seek (drop_last old))
      else none)

pub locate-ok :
    (mode : UpdateMode) (original : List Text) (chunk : UpdateFileChunk) (index : ℕ)
    → locate mode original chunk index ≡ ok (place mode original chunk index)
unfolding locate place or_found
locate-ok mode original chunk index =
    let old : List Text = chunk.old_lines in
    rw
      (
        seek_sequence-ok original old index chunk.is_end_of_file mode,
        seek_sequence-ok original (drop_last old) index chunk.is_end_of_file mode,
      )
      (pushed (found_as old chunk.new_lines (sought original old index chunk.is_end_of_file mode))
        (is_some_and is_empty (last? old)) _)
  where
    pushed :
        {A : Type 0} (o : Option A) (b : Bool) (p : Option A)
        → on_some o (λ found. ok (some found)) (if b then ok p else ok none)
          ≡ ok (or_found o (if b then p else none))
    pushed (some a) b p = refl
    pushed none true p = refl
    pushed none false p = refl

or_found-inv {ℓ κ} :
    {A : Type ℓ} (P : A → Type κ) (o p : Option A) (a : A)
    → (o ≡ some a → P a)
    → (p ≡ some a → P a)
    → or_found o p ≡ some a
    → P a
unfolding or_found
or_found-inv P none p a h k e = k e
or_found-inv P (some b) p a h k e = h e

pub place-Located :
    (mode : UpdateMode) (original : List Text) (chunk : UpdateFileChunk) (index : ℕ)
    (t : ℕ × List Text × List Text)
    → index ≤ length original
    → place mode original chunk index ≡ some t
    → Located mode original index t
unfolding place
place-Located mode original chunk index t h e =
    or_found-inv (Located mode original index) _ _ t
      (found_as-Located mode original _ _ index _
        (λ s. sought-NotBefore mode _ original _ index s h) t)
      (λ k.
        second (is_some_and is_empty (last? chunk.old_lines)) (drop_last chunk.old_lines)
          (if is_some_and is_empty (last? chunk.new_lines)
            then drop_last chunk.new_lines
            else chunk.new_lines)
          k)
      e
  where
    second :
        (b : Bool) (pattern replacement : List Text)
        → (if b
            then found_as pattern replacement
                (sought original pattern index chunk.is_end_of_file mode)
            else none)
          ≡ some t
        → Located mode original index t
    second true pattern replacement k =
        found_as-Located mode original _ _ index _
          (λ s. sought-NotBefore mode _ original _ index s h) t k
    second false pattern replacement k = absurd (cc)
