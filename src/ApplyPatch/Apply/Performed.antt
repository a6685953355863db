-- ===== src/ApplyPatch/Apply/Performed.antt =====
-- What an application has asked of the host when it is complete (`step` and `apply` of apply-patch).
use agent_pane.Prelude.{
  ℕ, zero, suc, ◌+◌, List, [], ◌∷◌, ◌++◌, ◌≡◌, refl, ap, sym, ◌∙◌, Bool, true, false, ◌||◌, some,
  length, take, take_all, get_elem?, ◌==◌, not, if◌then◌else◌, by_test, arith, append_assoc,
  length-append,
}
use mathlib.Core.Path.{subst}
use agent_pane.Execution.{Code, ok, err}
use agent_pane.Execution.Files.{path_eq, path_eq_lem}
use agent_pane.Execution.Runtime.{Runtime}
use agent_pane.ApplyPatch.Tool.{
  PreparedOperation, write, remove, PreparedHunk, PreparedPatch, RunningPatch, Tool,
}
use agent_pane.ApplyPatch.Apply.{dispatch, dispatched}
use agent_pane.ApplyPatch.Apply.Staged.{Staged}
use agent_pane.ApplyPatch.Apply.Trace.{Ran, Leads, Leads-pure, Leads-bind, Leads-call}

take-suc {ℓ} :
    {A : Type ℓ} (xs : List A) (i : ℕ) (x : A)
    → get_elem? xs i ≡ some x
    → take (i + 1) xs ≡ take i xs ++ x ∷ []
take-suc {A = A} xs i x e = let s : i + 1 ≡ suc i = omega arith in rw s (by_suc xs i e)
  where
    by_suc : (xs : List A) (i : ℕ) → get_elem? xs i ≡ some x → take (suc i) xs ≡ take i xs ++ x ∷ []
    by_suc [] i e = absurd (cc)
    by_suc (y ∷ ys) zero e = ap (λ z. z ∷ []) (some_inj e)
      where
        some_inj : some y ≡ some x → y ≡ x
        some_inj e = cc
    by_suc (y ∷ ys) (suc i) e = ap (λ zs. y ∷ zs) (by_suc ys i e)

module _ {World : Type 0} (runtime : Runtime World) (tool : Tool) (prepared : PreparedPatch) where
  -- The operations of the hunks, in the order of the hunks; the ids of each go on from those in front.
  pub data Performed : List PreparedHunk → List PreparedOperation → Type 0 where
    no_hunk : Performed [] []
    hunk :
        (hs : List PreparedHunk) (h : PreparedHunk) (before ops : List PreparedOperation)
        → Performed hs before
        → Staged runtime tool prepared h (length before) ops
        → Performed (hs ++ h ∷ []) (before ++ ops)

  module _ (start : World) where
    -- A host that has taken these operations.
    abbrev pub Took : List PreparedOperation → World → Type 0
    Took ops = Ran runtime start ops

    -- A patch that is applied: the host has taken the operations of all its hunks, and each is counted.
    pub record IsPerformed (last : RunningPatch) (w : World) : Type 0 where
      pub ops : List PreparedOperation
      pub performed : Performed prepared.hunks ops
      pub ran : Ran runtime start ops w
      pub counted : last.applied_operations ≡ length ops

    -- Between two hunks, or among the operations of one.
    pub data At (r : RunningPatch) (w : World) : Type 0 where
      between :
          (ops : List PreparedOperation)
          → r.pending ≡ []
          → r.next_operation ≡ 0
          → Performed (take r.hunk_index prepared.hunks) ops
          → Ran runtime start ops w
          → r.applied_operations ≡ length ops
          → At r w
      within :
          (h : PreparedHunk) (before ops : List PreparedOperation)
          → get_elem? prepared.hunks r.hunk_index ≡ some h
          → Performed (take r.hunk_index prepared.hunks) before
          → Staged runtime tool prepared h (length before) r.pending
          → ops ≡ before ++ take r.next_operation r.pending
          → Ran runtime start ops w
          → r.applied_operations ≡ length ops
          → At r w

    -- Progress of this patch.
    abbrev pub IsProgress : RunningPatch → World → Type 0
    IsProgress r w = (r.prepared ≡ prepared) × At r w

    if-ok :
        (b : Bool) (e : Code) (u : Unit {0}) → (if b then err e else ok (tt {0})) ≡ ok u → b ≡ false
    if-ok true e u h = absurd (cc)
    if-ok false e u h = refl

    pub dispatch-Ran :
        (ops : List PreparedOperation) (operation : PreparedOperation)
        → Leads (Took ops) (λ u. Took (ops ++ operation ∷ [])) (dispatch runtime tool operation)
    unfolding dispatch
    dispatch-Ran ops (write request) =
        Leads-bind (Took ops) (λ u. Took ops) _ _ _ (Leads-pure _ _ _ (λ u e w b. b))
          (λ u.
            Leads-bind (Took ops) _ _ _ _ (Leads-call (Took ops) (runtime.write request)) (λ reply.
              Leads-pure _ _ _ (λ u e v (w, (b, told)).
                let f : (not (path_eq reply.path request.path)
                      || not (reply.bytes_written == length request.data_bytes))
                    ≡ false =
                  if-ok _ _ u e in
                Ran.written ops request reply w v b told
                  (path_eq_lem reply.path request.path (ground arith)) (ground arith))))
    dispatch-Ran ops (remove request) =
        Leads-bind (Took ops) (λ u. Took ops) _ _ _ (Leads-pure _ _ _ (λ u e w b. b))
          (λ u.
            Leads-bind (Took ops) _ _ _ _ (Leads-call (Took ops) (runtime.remove request)) (λ reply.
              Leads-pure _ _ _ (λ u e v (w, (b, told)).
                let f : not reply.removed ≡ false = if-ok _ _ u e in
                Ran.removed ops request reply w v b told (ground arith))))

    pub dispatched-At :
        (r : RunningPatch) (h : PreparedHunk) (before ops : List PreparedOperation)
        (operation : PreparedOperation) (w : World)
        → r.prepared ≡ prepared
        → get_elem? prepared.hunks r.hunk_index ≡ some h
        → Performed (take r.hunk_index prepared.hunks) before
        → Staged runtime tool prepared h (length before) r.pending
        → ops ≡ before ++ take r.next_operation r.pending
        → r.applied_operations ≡ length ops
        → get_elem? r.pending r.next_operation ≡ some operation
        → Ran runtime start (ops ++ operation ∷ []) w
        → IsProgress (dispatched r) w
    unfolding dispatched
    dispatched-At r h before ops operation w same e p s o count g ran =
        let next : take (r.next_operation + 1) r.pending
            ≡ take r.next_operation r.pending ++ operation ∷ [] =
          take-suc r.pending r.next_operation operation g in
        let all : ops ++ operation ∷ [] ≡ before ++ take (r.next_operation + 1) r.pending =
          ap (λ t. t ++ operation ∷ []) o
          ∙ (append_assoc before (take r.next_operation r.pending) (operation ∷ [])
              ∙ ap (λ t. before ++ t) (sym next)) in
        let counted : r.applied_operations + 1 ≡ length (ops ++ operation ∷ []) =
          omega (arith, length-append ops (operation ∷ [])) in
        by_test (λ next. IsProgress next w) (r.next_operation + 1 == length r.pending) _ _
          (λ b.
            let whole : ops ++ operation ∷ [] ≡ before ++ r.pending =
              all
              ∙ ap (λ t. before ++ t) (take_all (r.next_operation + 1) r.pending (ground arith)) in
            let hunks : take r.hunk_index prepared.hunks ++ h ∷ []
                ≡ take (r.hunk_index + 1) prepared.hunks =
              sym (take-suc prepared.hunks r.hunk_index h e) in
            (
              same,
              At.between (before ++ r.pending) refl refl
                  (subst (λ hs. Performed hs (before ++ r.pending)) hunks
                    (Performed.hunk _ h before r.pending p s))
                  (subst (λ t. Took t w) whole ran) (counted ∙ ap length whole),
            ))
          (λ b. (same, At.within h before (ops ++ operation ∷ []) e p s all ran counted))
