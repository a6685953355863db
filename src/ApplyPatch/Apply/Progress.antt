-- ===== src/ApplyPatch/Apply/Progress.antt =====
-- Where an application stands, and how many operations and steps are left (`RunningPatch`).
use agent_pane.Prelude.{
  ℕ, zero, suc, ◌+◌, ◌-◌, ◌≤◌, ◌<◌, List, [], ◌∷◌, ◌≡◌, ap, Bool, false, none, some, length, take,
  get_elem?, is_empty, is_some, arith, if◌then◌else◌,
}
use agent_pane.ApplyPatch.Hunk.{Hunk, add_file, delete_file, update_file}
use agent_pane.ApplyPatch.Update.Chunks.{ContextInOrder}
use agent_pane.ApplyPatch.Tool.{
  PreparedHunk, RunningPatch, PatchProgress, checkpoint_required, complete, hunk_operations,
  operation_count,
}

-- Only an update has a destination, and its context lines are in order.
abbrev pub IsPrepared : Hunk → Bool → Type 0
IsPrepared (update_file path move_path chunks) moved = ContextInOrder chunks
IsPrepared (add_file path contents) moved = moved ≡ false
IsPrepared (delete_file path) moved = moved ≡ false

abbrev pub ArePrepared : List PreparedHunk → Type 0
ArePrepared [] = Unit
ArePrepared (h ∷ hs) = IsPrepared h.hunk (is_some h.destination) × ArePrepared hs

-- Between two hunks, or among the operations of one.
pub data Stands (r : RunningPatch) : Type 0 where
  between :
      r.pending ≡ []
      → r.next_operation ≡ 0
      → r.hunk_index ≤ length r.prepared.hunks
      → r.applied_operations ≡ operation_count (take r.hunk_index r.prepared.hunks)
      → Stands r
  within :
      (h : PreparedHunk)
      → get_elem? r.prepared.hunks r.hunk_index ≡ some h
      → length r.pending ≡ hunk_operations h
      → r.next_operation < length r.pending
      → r.applied_operations
        ≡ operation_count (take r.hunk_index r.prepared.hunks) + r.next_operation
      → Stands r

-- The steps that are left, but for the one that returns the output: one for each hunk that is not
-- staged, and one for each operation.
abbrev pub steps_left : RunningPatch → ℕ
steps_left r =
    (length r.prepared.hunks - r.hunk_index)
    + (operation_count r.prepared.hunks - r.applied_operations)
    - (if is_empty r.pending then 0 else 1)

pub get_elem?-le {ℓ} :
    {A : Type ℓ} (xs : List A) (i : ℕ) (x : A) → get_elem? xs i ≡ some x → i + 1 ≤ length xs
get_elem?-le [] i x e = absurd (cc)
get_elem?-le (y ∷ xs) zero x e = omega arith
get_elem?-le (y ∷ xs) (suc i) x e = omega (arith, get_elem?-le xs i x e)

pub get_elem?-none {ℓ} : {A : Type ℓ} (xs : List A) (i : ℕ) → get_elem? xs i ≡ none → length xs ≤ i
get_elem?-none [] i e = omega arith
get_elem?-none (y ∷ xs) zero e = absurd (cc)
get_elem?-none (y ∷ xs) (suc i) e = omega (arith, get_elem?-none xs i e)

pub operation_count-take :
    (hs : List PreparedHunk) (i : ℕ) (h : PreparedHunk)
    → get_elem? hs i ≡ some h
    → operation_count (take (suc i) hs) ≡ operation_count (take i hs) + hunk_operations h
unfolding operation_count
operation_count-take [] i h e = absurd (cc)
operation_count-take (g ∷ hs) zero h e =
    let same : hunk_operations g ≡ hunk_operations h = ap hunk_operations (some_inj e) in
    omega arith
  where
    some_inj : some g ≡ some h → g ≡ h
    some_inj e = cc
operation_count-take (g ∷ hs) (suc i) h e = omega (arith, operation_count-take hs i h e)

pub operation_count-take_le :
    (hs : List PreparedHunk) (i : ℕ) → operation_count (take i hs) ≤ operation_count hs
unfolding operation_count
operation_count-take_le hs zero = omega arith
operation_count-take_le [] (suc i) = omega arith
operation_count-take_le (g ∷ hs) (suc i) = omega (arith, operation_count-take_le hs i)

pub ArePrepared-get_elem :
    (hs : List PreparedHunk) (i : ℕ) (h : PreparedHunk)
    → get_elem? hs i ≡ some h
    → ArePrepared hs
    → IsPrepared h.hunk (is_some h.destination)
ArePrepared-get_elem [] i h e p = absurd (cc)
ArePrepared-get_elem (g ∷ hs) zero h e (p, ps) = at (some_inj e) p
  where
    some_inj : some g ≡ some h → g ≡ h
    some_inj e = cc

    at :
        {k : PreparedHunk}
        → g ≡ k
        → IsPrepared g.hunk (is_some g.destination)
        → IsPrepared k.hunk (is_some k.destination)
    at e p = rw e at p
ArePrepared-get_elem (g ∷ hs) (suc i) h e (p, ps) = ArePrepared-get_elem hs i h e ps

-- What a step leads to.
abbrev pub Follows : RunningPatch → RunningPatch × PatchProgress → Type 0
Follows r (next, checkpoint_required) =
    (next.prepared ≡ r.prepared) × (Stands next × (steps_left next + 1 ≡ steps_left r))
Follows r (next, complete output) =
    (next ≡ r) × (r.applied_operations ≡ operation_count r.prepared.hunks)
