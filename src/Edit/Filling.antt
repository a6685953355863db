-- ===== src/Edit/Filling.antt =====
-- The loops of `replace` (matching.rs) over the matches.
use agent_pane.Prelude.{
  ℕ, suc, ◌+◌, ◌-◌, List, [], ◌∷◌, ◌++◌, ◌≡◌, refl, sym, ap, ◌∙◌, true, false, Option, Text, length,
  take, drop, length-append, append_assoc, arith,
}
use mathlib.Core.Path.{subst}
use agent_pane.Execution.{ok}
use agent_pane.Execution.Post.{returns}
use agent_pane.Execution.Files.{WriteFileRequest}
use agent_pane.Execution.Runtime.{Runtime, Io, pure, call, ◌>>=◌}
use agent_pane.Execution.Runtime.Sends.{
  IsHost, IsQuiet, Quiet-pure, Quiet-call, Quiet-bind, Quiet-imp,
}
use agent_pane.Edit.Matching.{match_from, find, count_matches, fill}
use agent_pane.Edit.Matches.{Leftmost, View, absent, found, view}
use agent_pane.Edit.Replaced.{Replaces, ends, replaces, drop_seam, take_seam}

module _ {World : Type 0} (runtime : Runtime World) (Before After : World → Type 0)
    (Allowed : WriteFileRequest → Type 0) (host : IsHost Before After Allowed runtime) where
  pub checked :
      {A : Type 0} (P : A → Type 0) (m : Io World A)
      → IsQuiet Before After P m
      → IsQuiet Before After P (call runtime.checkpoint >>= λ u. m)
  checked P m h =
      Quiet-bind Before After (λ u. Unit {0}) P (call runtime.checkpoint) (λ u. m)
        (Quiet-call Before After runtime.checkpoint host.checkpoint_lem) (λ u _. h)

  pub value : {A : Type 0} (P : A → Type 0) (a : A) → P a → IsQuiet Before After P (pure (ok a))
  value P a h = Quiet-pure Before After P (ok a) (returns a h)

  pub count_all :
      (count : ℕ) (is : List ℕ)
      → IsQuiet Before After (λ n. n ≡ count + length is) (count_matches runtime true count is)
  unfolding count_matches
  count_all count [] = value _ count (omega arith)
  count_all count (i ∷ is) = checked _ _ (
      Quiet-imp Before After _ _ (count_matches runtime true (count + 1) is)
        (count_all (count + 1) is) (λ n e. omega arith))

  pub count_one :
      (i : ℕ) (is : List ℕ)
      → IsQuiet Before After (λ n. n ≡ 1) (count_matches runtime false 0 (i ∷ is))
  unfolding count_matches
  count_one i is = checked _ _ (value _ 1 refl)

  module _ (source : Text) (o : ℕ) (os new : Text) where
    -- The rest of the source with its matches replaced, behind what is there.
    abbrev pub Fills : Text → Text → ℕ → Text → Type 0
    Fills s output n out = (r : Text) × (Replaces (o ∷ os) new s r n × (out ≡ output ++ r))

    step_lem :
        (s before rest output out : Text) (n : ℕ)
        → s ≡ before ++ ((o ∷ os) ++ rest)
        → Leftmost (o ∷ os) s (length before)
        → Fills rest (output ++ (before ++ new)) n out
        → Fills s output (suc n) out
    step_lem s before rest output out n f g (r, (h, e)) =
        let g2 : Leftmost (o ∷ os) (before ++ ((o ∷ os) ++ rest)) (length before) =
          subst (λ t. Leftmost (o ∷ os) t (length before)) f g in
        let e2 : (output ++ (before ++ new)) ++ r ≡ output ++ (before ++ (new ++ r)) =
          append_assoc output (before ++ new) r
          ∙ ap (λ t. output ++ t) (append_assoc before new r) in
        (
          before ++ (new ++ r),
          (
            subst (λ t. Replaces (o ∷ os) new t (before ++ (new ++ r)) (suc n)) (sym f)
                (replaces before rest r n g2 h),
            e ∙ e2,
          ),
        )

    -- What is cut out in front of a match.
    cut_lem :
        (cursor i : ℕ) (done s before rest : Text)
        → source ≡ done ++ s
        → cursor ≡ length done
        → s ≡ before ++ ((o ∷ os) ++ rest)
        → i ≡ cursor + length before
        → take (i - cursor) (drop cursor source) ≡ before
    cut_lem cursor i done s before rest a b f e =
        let d : drop cursor source ≡ s = rw a (drop_seam cursor done s b) in
        let n : i - cursor ≡ length before = omega arith in
        rw (d, f) (take_seam (i - cursor) before ((o ∷ os) ++ rest) n)

    done_lem :
        (done s before rest : Text)
        → source ≡ done ++ s
        → s ≡ before ++ ((o ∷ os) ++ rest)
        → source ≡ (done ++ (before ++ (o ∷ os))) ++ rest
    done_lem done s before rest a f =
        a
        ∙ (ap (λ t. done ++ t) (f ∙ sym (append_assoc before (o ∷ os) rest))
            ∙ sym (append_assoc done (before ++ (o ∷ os)) rest))

    length_lem :
        (cursor i : ℕ) (done before : Text)
        → cursor ≡ length done
        → i ≡ cursor + length before
        → i + length (o ∷ os) ≡ length (done ++ (before ++ (o ∷ os)))
    length_lem cursor i done before b e =
        omega (arith, length-append done (before ++ (o ∷ os)), length-append before (o ∷ os))

    pub fill_all :
        (is : List ℕ) (s done output : Text) (cursor : ℕ) (p : Option ℕ)
        → View o os cursor s is p
        → source ≡ done ++ s
        → cursor ≡ length done
        → IsQuiet Before After
            (Fills s output (length is))
            (fill runtime true source (o ∷ os) new cursor output is)
    unfolding fill
    fill_all [] s done output cursor p (absent h) a b =
        value (Fills s output 0) _
          (s, (ends s h, ap (λ t. output ++ t) (rw a (drop_seam cursor done s b))))
    fill_all [] s done output cursor p (found before rest _ f g e) a b = absurd (cc)
    fill_all (i ∷ is) s done output cursor p (found before rest _ f g e) a b =
        let i_lem : i ≡ cursor + length before = cc in
        let is_lem : is ≡ match_from 0 (cursor + length before + length (o ∷ os)) rest (o ∷ os) =
          cc in
        let n : cursor + length before + length (o ∷ os) ≡ i + length (o ∷ os) = omega arith in
        let is_lem2 : match_from 0 (i + length (o ∷ os)) rest (o ∷ os) ≡ is =
          sym (is_lem ∙ ap (λ k. match_from 0 k rest (o ∷ os)) n) in
        let v : View o os (i + length (o ∷ os)) rest is (find rest (o ∷ os)) =
          subst (λ js. View o os (i + length (o ∷ os)) rest js (find rest (o ∷ os))) is_lem2
            (view o os (i + length (o ∷ os)) rest) in
        let c : take (i - cursor) (drop cursor source) ≡ before =
          cut_lem cursor i done s before rest a b f i_lem in
        checked (Fills s output (suc (length is))) _ (
          rw c (
            Quiet-imp Before After _ (Fills s output (suc (length is)))
              (fill runtime true source (o ∷ os) new (i + length (o ∷ os))
                (output ++ (before ++ new)) is)
              (fill_all is rest (done ++ (before ++ (o ∷ os))) (output ++ (before ++ new))
                (i + length (o ∷ os)) (find rest (o ∷ os)) v (done_lem done s before rest a f)
                (length_lem cursor i done before b i_lem))
              (λ out h. step_lem s before rest output out (length is) f g h)))
