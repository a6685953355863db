-- ===== src/Execution/Runtime/Post.antt =====
-- Computations on the host that do not panic, and whose value has a property.
use agent_pane.Prelude.{◌≡◌, refl, Bool, true, false, Option, none, some, on_some, if◌then◌else◌}
use agent_pane.Execution.{Code, Result, ok, err}
use agent_pane.Execution.Post.{Post, returns, fails}
use agent_pane.Execution.Runtime.{
  Reply, replied, failed, to_result, Io, pure, call, continue, ◌>>=◌,
}

-- From every state of the host.
pub data Ends {World A : Type 0} (P : A → Type 0) : World × Result A → Type 0 where
  with_value : (w : World) (a : A) → P a → Ends P (w, ok a)
  with_error : (w : World) (e : Code) → Ends P (w, err e)

module _ {World : Type 0} where
  abbrev pub Always : {A : Type 0} → (A → Type 0) → Io World A → Type 0
  Always P m = (w : World) → Ends P (m w)

  pub Always-pure : {A : Type 0} (P : A → Type 0) (r : Result A) → Post P r → Always P (pure r)
  unfolding pure
  Always-pure P r (returns a h) w = with_value w a h
  Always-pure P r (fails e) w = with_error w e

  pub Always-call : {A : Type 0} (f : World → World × Reply A) → Always (λ a. Unit {0}) (call f)
  unfolding call
  Always-call f w = ended (f w)
    where
      ended : {A : Type 0} (r : World × Reply A) → Ends (λ a. Unit {0}) (r.0, to_result r.1)
      ended (v, replied a) = with_value v a tt
      ended (v, failed e) = with_error v e

  pub Always-bind :
      {A B : Type 0} (P : A → Type 0) (Q : B → Type 0) (m : Io World A) (f : A → Io World B)
      → Always P m
      → ((a : A) → P a → Always Q (f a))
      → Always Q (m >>= f)
  unfolding ◌>>=◌
  Always-bind {A = A} P Q m f h k w = ended (m w) (h w)
    where
      ended : (r : World × Result A) → Ends P r → Ends Q (continue f r)
      ended r (with_value v a p) = k a p v
      ended r (with_error v e) = with_error v e

  module _ {A : Type 0} (P : A → Type 0) where
    pub Always-if :
        (b : Bool) (m n : Io World A)
        → (b ≡ true → Always P m)
        → (b ≡ false → Always P n)
        → Always P (if b then m else n)
    Always-if true m n h k = h refl
    Always-if false m n h k = k refl

    pub Always-option :
        {B : Type 0} (o : Option B) (f : B → Io World A) (n : Io World A)
        → ((b : B) → o ≡ some b → Always P (f b))
        → (o ≡ none → Always P n)
        → Always P (on_some o f n)
    Always-option (some b) f n h k = h b refl
    Always-option none f n h k = k refl
