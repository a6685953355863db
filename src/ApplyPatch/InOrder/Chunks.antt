-- ===== src/ApplyPatch/InOrder/Chunks.antt =====
-- The context lines of one chunk, as `process_line` of parser.rs adds its lines.
use agent_pane.Prelude.{
  ℕ, zero, suc, ◌+◌, ◌≤◌, List, [], ◌∷◌, ◌++◌, ◌≡◌, refl, Option, none, some, Text, length, arith,
  All, All-append, append-nil, length-append, get_elem?,
}
use mathlib.Core.Path.{subst}
use agent_pane.ApplyPatch.Hunk.{UpdateFileChunk, default_chunk, push_context_line}
use agent_pane.ApplyPatch.Parser.State.{last?, map_last, with_chunk}
use agent_pane.ApplyPatch.Update.Chunks.{Increasing}

-- Places that go up from `o` and `n`, the last one in front of `old` and `new`.
abbrev pub Below : ℕ → ℕ → ℕ → ℕ → List (ℕ × ℕ) → Type 0
Below old new o n [] = (o ≤ old) × (n ≤ new)
Below old new o n ((a, b) ∷ indices) = (o ≤ a) × (n ≤ b) × Below old new (a + 1) (b + 1) indices

pub Below-Increasing :
    (old new o n : ℕ) (indices : List (ℕ × ℕ)) → Below old new o n indices → Increasing o n indices
Below-Increasing old new o n [] h = Increasing.ends o n
Below-Increasing old new o n ((a, b) ∷ indices) (h, k, r) =
    Increasing.next o n a b indices h k (Below-Increasing old new (a + 1) (b + 1) indices r)

pub Below-le :
    (old new old' new' o n : ℕ) (indices : List (ℕ × ℕ))
    → old ≤ old'
    → new ≤ new'
    → Below old new o n indices
    → Below old' new' o n indices
Below-le old new old' new' o n [] h k (a, b) = (omega arith, omega arith)
Below-le old new old' new' o n ((a, b) ∷ indices) h k (p, q, r) =
    (p, q, Below-le old new old' new' (a + 1) (b + 1) indices h k r)

pub Below-append :
    (old new o n : ℕ) (indices : List (ℕ × ℕ))
    → Below old new o n indices
    → Below (old + 1) (new + 1) o n (indices ++ (old, new) ∷ [])
Below-append old new o n [] (h, k) = (h, k, (omega arith, omega arith))
Below-append old new o n ((a, b) ∷ indices) (h, k, r) =
    (h, k, Below-append old new (a + 1) (b + 1) indices r)

-- The places have the same line in the old lines and in the new ones.
abbrev pub IsContext : List Text → List Text → ℕ × ℕ → Type 0
IsContext old new (a, b) =
    (line : Text) × ((get_elem? old a ≡ some line) × (get_elem? new b ≡ some line))

get_elem?-append :
    (xs ys : List Text) (i : ℕ) (x : Text)
    → get_elem? xs i ≡ some x
    → get_elem? (xs ++ ys) i ≡ some x
get_elem?-append [] ys i x e = absurd (cc)
get_elem?-append (y ∷ xs) ys zero x e = e
get_elem?-append (y ∷ xs) ys (suc i) x e = get_elem?-append xs ys i x e

get_elem?-length : (xs : List Text) (x : Text) → get_elem? (xs ++ x ∷ []) (length xs) ≡ some x
get_elem?-length [] x = refl
get_elem?-length (y ∷ xs) x = get_elem?-length xs x

IsContext-append :
    (old new old' new' : List Text) (indices : List (ℕ × ℕ))
    → All (IsContext old new) indices
    → All (IsContext (old ++ old') (new ++ new')) indices
IsContext-append old new old' new' [] h = tt
IsContext-append old new old' new' ((a, b) ∷ indices) ((l, (e, f)), hs) = (
  (l, (get_elem?-append old old' a l e, get_elem?-append new new' b l f)),
  IsContext-append old new old' new' indices hs,
)

-- The places of the context lines go up in the chunk's old lines and in its new ones, are in range in
-- both, and have the same line in both.
abbrev pub ChunkInOrder : UpdateFileChunk → Type 0
ChunkInOrder c =
    Below (length c.old_lines) (length c.new_lines) 0 0 c.context_line_indices
    × All (IsContext c.old_lines c.new_lines) c.context_line_indices

pub push_context_line-ChunkInOrder :
    (line : Text) (c : UpdateFileChunk) → ChunkInOrder c → ChunkInOrder (push_context_line line c)
unfolding push_context_line
push_context_line-ChunkInOrder line c (h, k) = (
  rw (length-append c.old_lines (line ∷ []), length-append c.new_lines (line ∷ []))
      (Below-append (length c.old_lines) (length c.new_lines) 0 0 c.context_line_indices h),
  All-append (IsContext (c.old_lines ++ line ∷ []) (c.new_lines ++ line ∷ []))
      c.context_line_indices _
      (IsContext-append c.old_lines c.new_lines (line ∷ []) (line ∷ []) c.context_line_indices k)
      ((line, (get_elem?-length c.old_lines line, get_elem?-length c.new_lines line)), tt),
)

pub add_new-ChunkInOrder :
    (line : Text) (c : UpdateFileChunk)
    → ChunkInOrder c
    → ChunkInOrder (record c { new_lines = c.new_lines ++ line ∷ [] })
add_new-ChunkInOrder line c (h, k) = (
  Below-le _ _ _ _ 0 0 c.context_line_indices (omega arith)
      (omega (arith, length-append c.new_lines (line ∷ []))) h,
  subst (λ old. All (IsContext old (c.new_lines ++ line ∷ [])) c.context_line_indices)
      (append-nil c.old_lines)
      (IsContext-append c.old_lines c.new_lines [] (line ∷ []) c.context_line_indices k),
)

pub add_old-ChunkInOrder :
    (line : Text) (c : UpdateFileChunk)
    → ChunkInOrder c
    → ChunkInOrder (record c { old_lines = c.old_lines ++ line ∷ [] })
add_old-ChunkInOrder line c (h, k) = (
  Below-le _ _ _ _ 0 0 c.context_line_indices (omega (arith, length-append c.old_lines (line ∷ [])))
      (omega arith) h,
  subst (λ new. All (IsContext (c.old_lines ++ line ∷ []) new) c.context_line_indices)
      (append-nil c.new_lines)
      (IsContext-append c.old_lines c.new_lines (line ∷ []) [] c.context_line_indices k),
)

module _ {ℓ} {A : Type ℓ} (P : A → Type 0) where
  pub All-map_last :
      (f : A → A) (xs : List A) → ((x : A) → P x → P (f x)) → All P xs → All P (map_last f xs)
  unfolding map_last
  All-map_last f [] k h = tt
  All-map_last f (x ∷ []) k (h, hs) = (k x h, tt)
  All-map_last f (x ∷ y ∷ xs) k (h, hs) = (h, All-map_last f (y ∷ xs) k hs)

  pub All-last? : (xs : List A) (x : A) → last? xs ≡ some x → All P xs → P x
  unfolding last?
  All-last? [] x e h = absurd (cc)
  All-last? (y ∷ []) x e (h, hs) = at (some_inj e) h
    where
      some_inj : some y ≡ some x → y ≡ x
      some_inj e = cc

      at : {z : A} → y ≡ z → P y → P z
      at e h = rw e at h
  All-last? (y ∷ z ∷ xs) x e (h, hs) = All-last? (z ∷ xs) x e hs

pub default-ChunkInOrder :
    (context : Option Text) → ChunkInOrder (record default_chunk { change_context = context })
default-ChunkInOrder context = ((omega arith, omega arith), tt)

pub with_chunk-InOrder :
    (cs : List UpdateFileChunk) → All ChunkInOrder cs → All ChunkInOrder (with_chunk cs)
unfolding with_chunk
with_chunk-InOrder [] h = (default-ChunkInOrder none, tt)
with_chunk-InOrder (c ∷ cs) h = h

-- A change of the last chunk, or of a new one.
pub change-InOrder :
    (f : UpdateFileChunk → UpdateFileChunk) (cs : List UpdateFileChunk)
    → ((c : UpdateFileChunk) → ChunkInOrder c → ChunkInOrder (f c))
    → All ChunkInOrder cs
    → All ChunkInOrder (map_last f (with_chunk cs))
change-InOrder f cs k h = All-map_last ChunkInOrder f (with_chunk cs) k (with_chunk-InOrder cs h)
