-- ===== src/ApplyPatch/Update/Chunks.antt =====
-- Where the replacements of the chunks lead (`compute_replacements` of update.rs).
use agent_pane.Prelude.{
  ℕ, ◌+◌, ◌-◌, ◌≤◌, List, [], ◌∷◌, ◌++◌, ◌≡◌, refl, false, ◌&&◌, ◌||◌, Option, none, some, Text,
  length, take, drop, is_empty, leb, ltb, ◌==◌, arith, by_test, append_assoc,
}
use mathlib.Core.Path.{subst}
use agent_pane.Execution.{Result, ok, panic, ◌>>=◌}
use agent_pane.Execution.Post.{Post, returns, fails, Post-if, Post-option, Post-bind}
use agent_pane.ApplyPatch.Hunk.{UpdateMode, normalize_to_lf, preserve_line_endings, UpdateFileChunk}
use agent_pane.ApplyPatch.Parser.State.{last?, is_some_and}
use agent_pane.ApplyPatch.Update.{
  gap, rest_of_chunk, between_context, chunk_replacements, insertion_point, seek_context,
  chunk_step, all_chunks,
}
use agent_pane.ApplyPatch.Update.Sought.{seek_sequence-ok}
use agent_pane.ApplyPatch.Update.Replace.{Replacement}
use agent_pane.ApplyPatch.Update.Fit.{Scattered, Scattered-le}
use agent_pane.ApplyPatch.Update.Ascending.{Within}
use agent_pane.ApplyPatch.Update.Located.{
  Fits, Leads, NotBefore, sought-NotBefore, Fits-le, Located, place, locate-ok, place-Located,
}

-- The places of the context lines go up, in the old lines and in the new ones.
pub data Increasing : ℕ → ℕ → List (ℕ × ℕ) → Type 0 where
  ends : (old new : ℕ) → Increasing old new []
  next :
      (old new o n : ℕ) (indices : List (ℕ × ℕ))
      → old ≤ o
      → new ≤ n
      → Increasing (o + 1) (n + 1) indices
      → Increasing old new ((o, n) ∷ indices)

module _ (n start : ℕ) (pattern replacement : List Text) (short : start + length pattern ≤ n) where
  -- One replacement, up to the line that it ends at.
  pub one-Leads :
      (r : Replacement) (from to : ℕ)
      → from ≤ r.start
      → r.start + r.old_len ≤ to
      → Leads preserve_line_endings n from (r ∷ []) to
  one-Leads r from to h k more s =
      Scattered.next from r more h (Scattered-le n (r.start + r.old_len) to more k s)

  pub rest_of_chunk-Leads :
      (old_start new_start : ℕ)
      → old_start ≤ length pattern
      → new_start ≤ length replacement
      → Post
          (λ rs. Leads preserve_line_endings n (start + old_start) rs (start + length pattern))
          (rest_of_chunk start pattern replacement old_start new_start)
  unfolding rest_of_chunk
  rest_of_chunk-Leads old_start new_start h k =
      let P : List Replacement → Type 0 =
        λ rs. Leads preserve_line_endings n (start + old_start) rs (start + length pattern) in
      Post-if P ((old_start == length pattern) && (new_start == length replacement)) _ _
        (λ b. returns [] (λ more s. Scattered-le n _ _ more (omega arith) s))
        (λ b.
          Post-if P (ltb (length pattern) old_start || ltb (length replacement) new_start) panic _
            (λ c. absurd (ground arith))
            (λ c. returns _ (
              one-Leads _ (start + old_start) (start + length pattern) (omega arith)
                (omega arith))))

  pub gap-Leads :
      (old_start new_start old_context new_context : ℕ)
      → old_start ≤ old_context
      → new_start ≤ new_context
      → new_context ≤ length replacement
      → Post
          (λ rs. Leads preserve_line_endings n (start + old_start) rs (start + (old_context + 1)))
          (gap start replacement old_start new_start old_context new_context)
  unfolding gap
  gap-Leads old_start new_start old_context new_context h k l =
      let P : List Replacement → Type 0 =
        λ rs. Leads preserve_line_endings n (start + old_start) rs (start + (old_context + 1)) in
      let r : Replacement = record {
        start = start + old_start;
        old_len = old_context - old_start;
        new_lines = take (new_context - new_start) (drop new_start replacement);
      } in
      Post-if P ((old_start == old_context) && (new_start == new_context)) _ _
        (λ b. returns [] (λ more s. Scattered-le n _ _ more (omega arith) s))
        (λ b.
          Post-if P
            (ltb old_context old_start
              || ltb new_context new_start
              || ltb (length replacement) new_context)
            panic (ok (r ∷ [])) (λ b. absurd (ground arith))
            (λ b. returns (r ∷ []) (
              one-Leads r (start + old_start) (start + (old_context + 1)) (omega arith)
                (omega arith))))

  pub between_context-Leads :
      (old_start new_start : ℕ) (indices : List (ℕ × ℕ))
      → old_start ≤ length pattern
      → new_start ≤ length replacement
      → Increasing old_start new_start indices
      → Post
          (λ rs. Leads preserve_line_endings n (start + old_start) rs (start + length pattern))
          (between_context start pattern replacement old_start new_start indices)
  unfolding between_context
  between_context-Leads old_start new_start [] h k i = rest_of_chunk-Leads old_start new_start h k
  between_context-Leads old_start new_start ((o, m) ∷ indices) h k
        (Increasing.next _ _ _ _ _ a b i) =
      let P : ℕ → List Replacement → Type 0 =
        λ from rs. Leads preserve_line_endings n (start + from) rs (start + length pattern) in
      Post-if (P old_start) (leb (length pattern) o || leb (length replacement) m) _ _
        (λ t. rest_of_chunk-Leads old_start new_start h k)
        (λ t.
          Post-bind (λ rs. Leads preserve_line_endings n (start + old_start) rs (start + (o + 1)))
            (P old_start) _ _ (gap-Leads old_start new_start o m a b (ground arith))
            (λ g lead.
              Post-bind (P (o + 1)) (P old_start) _ _
                (between_context-Leads (o + 1) (m + 1) indices (ground arith) (ground arith) i)
                (λ rs k.
                  returns (g ++ rs)
                    (λ more s. rw (append_assoc g rs more) (lead (rs ++ more) (k more s))))))

  pub chunk_replacements-Leads :
      (mode : UpdateMode) (chunk : UpdateFileChunk)
      → Increasing 0 0 chunk.context_line_indices
      → Post
          (λ rs. Leads mode n start rs (start + length pattern))
          (chunk_replacements mode chunk start pattern replacement)
  unfolding chunk_replacements
  chunk_replacements-Leads normalize_to_lf chunk i =
      returns _ (λ more (h, w). (omega arith, Within.next _ more (omega arith) w))
  chunk_replacements-Leads preserve_line_endings chunk i =
      let e : start + 0 ≡ start = omega arith in
      subst
        (λ from.
          Post (λ rs. Leads preserve_line_endings n from rs (start + length pattern))
            (between_context start pattern replacement 0 0 chunk.context_line_indices))
        e (between_context-Leads 0 0 chunk.context_line_indices (omega arith) (omega arith) i)

pub seek_context-Post :
    (mode : UpdateMode) (original : List Text) (context : Option Text) (index : ℕ)
    → index ≤ length original
    → Post
        (λ i. (i ≤ length original) × NotBefore mode index i)
        (seek_context mode original context index)
unfolding seek_context
seek_context-Post mode original none index h = returns index (h, same mode)
  where
    same : (mode : UpdateMode) → NotBefore mode index index
    same normalize_to_lf = tt
    same preserve_line_endings = omega arith
seek_context-Post mode original (some context) index h =
    rw (seek_sequence-ok original (context ∷ []) index false mode) (
      Post-option (λ i. (i ≤ length original) × NotBefore mode index i) _ _ _
        (λ i e.
          let (a, b) = sought-NotBefore mode false original (context ∷ []) index i h e in
          returns (i + 1) (omega arith, behind mode i b))
        (fails _))
  where
    behind : (mode : UpdateMode) (i : ℕ) → NotBefore mode index i → NotBefore mode index (i + 1)
    behind normalize_to_lf i b = tt
    behind preserve_line_endings i b = omega arith

pub insertion_point-Leads :
    (mode : UpdateMode) (original new : List Text) (index : ℕ)
    → index ≤ length original
    → Leads mode
        (length original)
        index
        (record { start = insertion_point mode original; old_len = 0; new_lines = new } ∷ [])
        index
unfolding insertion_point
insertion_point-Leads normalize_to_lf original new index h more (k, w) = (
  h,
  Within.next _ more
      (by_test (λ p. p ≤ length original) (is_some_and is_empty (last? original))
        (length original - 1) (length original) (λ b. omega arith) (λ b. omega arith))
      w,
)
insertion_point-Leads preserve_line_endings original new index h more s =
    Scattered.at_end index _ more refl refl s

-- What one chunk leads to.
abbrev pub Step : UpdateMode → ℕ → ℕ → List Replacement × ℕ → Type 0
Step mode n from (rs, to) = (to ≤ n) × Leads mode n from rs to

pub Step-le :
    (mode : UpdateMode) (n i j : ℕ) (m : Result (List Replacement × ℕ))
    → NotBefore mode i j
    → i ≤ n
    → Post (Step mode n j) m
    → Post (Step mode n i) m
Step-le mode n i j m b h (fails e) = fails e
Step-le mode n i j m b h (returns (rs, to) (k, lead)) =
    returns (rs, to) (k, λ more s. Fits-le mode n i j (rs ++ more) b h (lead more s))

pub found_chunk-Post :
    (mode : UpdateMode) (original : List Text) (chunk : UpdateFileChunk) (index start : ℕ)
    (pattern replacement : List Text)
    → index ≤ length original
    → Increasing 0 0 chunk.context_line_indices
    → Located mode original index (start, pattern, replacement)
    → Post {A = List Replacement × ℕ} (Step mode (length original) index) (
        chunk_replacements mode chunk start pattern replacement >>= λ rs.
        ok (rs, start + length pattern))
found_chunk-Post mode original chunk index start pattern replacement h i (short, b) =
    let n : ℕ = length original in
    Post-bind (λ rs. Leads mode n start rs (start + length pattern)) (Step mode n index) _ _
      (chunk_replacements-Leads n start pattern replacement short mode chunk i)
      (λ rs lead.
        returns _ (short, λ more s. Fits-le mode n index start (rs ++ more) b h (lead more s)))

pub chunk_step-Post :
    (mode : UpdateMode) (original : List Text) (chunk : UpdateFileChunk) (from : ℕ)
    → from ≤ length original
    → Increasing 0 0 chunk.context_line_indices
    → Post (Step mode (length original) from) (chunk_step mode original chunk from)
unfolding chunk_step
chunk_step-Post mode original chunk from h i =
    let n : ℕ = length original in
    Post-bind (λ j. (j ≤ n) × NotBefore mode from j) (Step mode n from) _ _
      (seek_context-Post mode original chunk.change_context from h)
      (λ j (k, b). Step-le mode n from j _ b h (
        Post-if (Step mode n j) (is_empty chunk.old_lines) _ _
          (λ t. returns _ (k, insertion_point-Leads mode original chunk.new_lines j k))
          (λ t. rw (locate-ok mode original chunk j) (
            Post-option (Step mode n j) (place mode original chunk j) _ _
              (λ (start, pattern, replacement) e.
                found_chunk-Post mode original chunk j start pattern replacement k i
                  (place-Located mode original chunk j (start, pattern, replacement) k e))
              (fails _)))))

-- The context lines of every chunk are in order.
abbrev pub ContextInOrder : List UpdateFileChunk → Type 0
ContextInOrder [] = Unit
ContextInOrder (chunk ∷ chunks) = Increasing 0 0 chunk.context_line_indices × ContextInOrder chunks

pub all_chunks-Post :
    (mode : UpdateMode) (original : List Text) (chunks : List UpdateFileChunk) (from : ℕ)
    → from ≤ length original
    → ContextInOrder chunks
    → Post (Fits mode (length original) from) (all_chunks mode original chunks from)
unfolding all_chunks
all_chunks-Post mode original [] from h c = returns [] (nothing mode)
  where
    nothing : (mode : UpdateMode) → Fits mode (length original) from []
    nothing normalize_to_lf = (h, Within.ends)
    nothing preserve_line_endings = Scattered.ends from h
all_chunks-Post mode original (chunk ∷ chunks) from h (c, cs) =
    let n : ℕ = length original in
    Post-bind (Step mode n from) (Fits mode n from) _ _
      (chunk_step-Post mode original chunk from h c)
      (λ (rs, to) (k, lead).
        Post-bind (Fits mode n to) (Fits mode n from) _ _
          (all_chunks-Post mode original chunks to k cs)
          (λ more f. returns (rs ++ more) (lead more f)))
