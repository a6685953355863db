-- ===== src/ApplyPatch/Apply/Trace.antt =====
-- What an application asks of the host, in order (the requests of `dispatch` of apply-patch), and
-- computations on the host by the states that they start from and end in.
use agent_pane.Prelude.{
  List, [], ◌∷◌, ◌++◌, ◌≡◌, refl, Bool, true, false, Option, none, some, on_some, length,
  if◌then◌else◌,
}
use agent_pane.Execution.{Code, Result, ok, err, panic}
use agent_pane.Execution.Files.{
  StatRequest, ReadFileRequest, WriteFileRequest, WriteFileResult, RemovePathRequest,
  RemovePathResult,
}
use agent_pane.Execution.Runtime.{
  Reply, replied, failed, to_result, Runtime, Io, pure, call, continue, ◌>>=◌,
}
use agent_pane.Execution.Runtime.Post.{Ends}
use agent_pane.Execution.Runtime.Sends.{IsHost, Quiet, with_value, with_error, IsQuiet}
use agent_pane.ApplyPatch.Tool.{PreparedOperation, write, remove}

module _ {World : Type 0} (runtime : Runtime World) (start : World) where
  -- From the state at the start to a state of the host, by these operations in their order, each taken by
  -- the host with the reply that it is to have, and by requests that only look.
  pub data Ran : List PreparedOperation → World → Type 0 where
    nothing : Ran [] start
    checked :
        (ops : List PreparedOperation) (w : World) → Ran ops w → Ran ops (runtime.checkpoint w).0
    stated :
        (ops : List PreparedOperation) (request : StatRequest) (w : World)
        → Ran ops w
        → Ran ops (runtime.stat request w).0
    read :
        (ops : List PreparedOperation) (request : ReadFileRequest) (w : World)
        → Ran ops w
        → Ran ops (runtime.read request w).0
    written :
        (ops : List PreparedOperation) (request : WriteFileRequest) (reply : WriteFileResult)
        (w v : World)
        → Ran ops w
        → runtime.write request w ≡ (v, replied reply)
        → reply.path ≡ request.path
        → reply.bytes_written ≡ length request.data_bytes
        → Ran (ops ++ write request ∷ []) v
    removed :
        (ops : List PreparedOperation) (request : RemovePathRequest) (reply : RemovePathResult)
        (w v : World)
        → Ran ops w
        → runtime.remove request w ≡ (v, replied reply)
        → reply.removed ≡ true
        → Ran (ops ++ remove request ∷ []) v

  -- Requests that only look stay among these states.
  pub Ran-IsHost :
      (ops : List PreparedOperation)
      → IsHost (Ran ops) (λ w. Unit {0}) (λ request. Unit {0}) runtime
  Ran-IsHost ops = record {
    checkpoint_lem = λ w r. Ran.checked ops w r;
    stat_lem = λ request w r. Ran.stated ops request w r;
    read_lem = λ request w r. Ran.read ops request w r;
    write_lem = λ request w a r. tt;
  }

module _ {World : Type 0} where
  -- A value comes with such a state.
  pub data Holds {A : Type 0} (Q : A → World → Type 0) : World × Result A → Type 0 where
    value_at : (w : World) (a : A) → Q a w → Holds Q (w, ok a)
    error_at : (w : World) (e : Code) → Holds Q (w, err e)
    panic_at : (w : World) → Holds Q (w, panic)

  -- An error, or a value with such a state.
  pub data Finishes {A : Type 0} (Q : A → World → Type 0) : World × Result A → Type 0 where
    with_value_at : (w : World) (a : A) → Q a w → Finishes Q (w, ok a)
    with_error_at : (w : World) (e : Code) → Finishes Q (w, err e)

  -- What does not panic finishes.
  pub Holds-Finishes :
      {A : Type 0} (P : A → Type 0) (Q : A → World → Type 0) (r : World × Result A)
      → Ends P r
      → Holds Q r
      → Finishes (λ a w. P a × Q a w) r
  Holds-Finishes P Q r (Ends.with_value w a p) (value_at v b q) = with_value_at w a (p, q)
  Holds-Finishes P Q r (Ends.with_error w e) h = with_error_at w e

  pub Finishes-quiet :
      {A B : Type 0} (Before After : World → Type 0) (P : A → Type 0) (Q : B → World → Type 0)
      (m : Io World A) (f : A → Io World B) (w : World)
      → IsQuiet Before After P m
      → Before w
      → ((a : A) (v : World) → P a → Before v → Finishes Q (f a v))
      → Finishes Q ((m >>= f) w)
  unfolding ◌>>=◌
  Finishes-quiet {A = A} Before After P Q m f w h b k = ended (m w) (h w b)
    where
      ended : (r : World × Result A) → Quiet Before After P r → Finishes Q (continue f r)
      ended r (with_value v a c p) = k a v p c
      ended r (with_error v e c) = with_error_at v e

  pub Finishes-then :
      {A B : Type 0} (P : A → World → Type 0) (Q : B → World → Type 0) (m : Io World A) (f : A → B)
      (w : World)
      → Finishes P (m w)
      → ((a : A) (v : World) → P a v → Q (f a) v)
      → Finishes Q ((m >>= λ a. pure (ok (f a))) w)
  unfolding ◌>>=◌ pure
  Finishes-then {A = A} P Q m f w h k = ended (m w) h
    where
      ended : (r : World × Result A) → Finishes P r → Finishes Q (continue (λ a. pure (ok (f a))) r)
      ended r (with_value_at v a p) = with_value_at v (f a) (k a v p)
      ended r (with_error_at v e) = with_error_at v e

  abbrev pub Leads : {A : Type 0} → (World → Type 0) → (A → World → Type 0) → Io World A → Type 0
  Leads Before Q m = (w : World) → Before w → Holds Q (m w)

  pub Leads-pure :
      {A : Type 0} (Before : World → Type 0) (Q : A → World → Type 0) (r : Result A)
      → ((a : A) → r ≡ ok a → (w : World) → Before w → Q a w)
      → Leads Before Q (pure r)
  unfolding pure
  Leads-pure Before Q (ok a) h w b = value_at w a (h a refl w b)
  Leads-pure Before Q (err e) h w b = error_at w e
  Leads-pure Before Q panic h w b = panic_at w

  pub Leads-returns :
      {A : Type 0} (Before : World → Type 0) (Q : A → World → Type 0) (a : A)
      → ((w : World) → Before w → Q a w)
      → Leads Before Q (pure (ok a))
  unfolding pure
  Leads-returns Before Q a h w b = value_at w a (h w b)

  pub Leads-panics :
      {A : Type 0} (Before : World → Type 0) (Q : A → World → Type 0) → Leads Before Q (pure panic)
  unfolding pure
  Leads-panics Before Q w b = panic_at w

  pub Leads-imp :
      {A : Type 0} (Before : World → Type 0) (P Q : A → World → Type 0) (m : Io World A)
      → Leads Before P m
      → ((a : A) (w : World) → P a w → Q a w)
      → Leads Before Q m
  Leads-imp {A = A} Before P Q m h k w b = ended (m w) (h w b)
    where
      ended : (r : World × Result A) → Holds P r → Holds Q r
      ended r (value_at v a p) = value_at v a (k a v p)
      ended r (error_at v e) = error_at v e
      ended r (panic_at v) = panic_at v

  pub Leads-bind :
      {A B : Type 0} (Before : World → Type 0) (P : A → World → Type 0) (Q : B → World → Type 0)
      (m : Io World A) (f : A → Io World B)
      → Leads Before P m
      → ((a : A) → Leads (P a) Q (f a))
      → Leads Before Q (m >>= f)
  unfolding ◌>>=◌
  Leads-bind {A = A} Before P Q m f h k w b = ended (m w) (h w b)
    where
      ended : (r : World × Result A) → Holds P r → Holds Q (continue f r)
      ended r (value_at v a p) = k a v p
      ended r (error_at v e) = error_at v e
      ended r (panic_at v) = panic_at v

  -- A reply, and the state in front of it.
  pub Leads-call :
      {A : Type 0} (Before : World → Type 0) (f : World → World × Reply A)
      → Leads Before (λ a v. (w : World) × (Before w × (f w ≡ (v, replied a)))) (call f)
  unfolding call
  Leads-call {A = A} Before f w b = ended (f w) refl
    where
      ended :
          (r : World × Reply A)
          → f w ≡ r
          → Holds (λ a v. (w : World) × (Before w × (f w ≡ (v, replied a)))) (r.0, to_result r.1)
      ended (v, replied a) e = value_at v a (w, (b, e))
      ended (v, failed c) e = error_at v c

  pub Leads-quiet :
      {A : Type 0} (Before After : World → Type 0) (P : A → Type 0) (m : Io World A)
      → IsQuiet Before After P m
      → Leads Before (λ a w. Before w × P a) m
  Leads-quiet {A = A} Before After P m h w b = ended (m w) (h w b)
    where
      ended : (r : World × Result A) → Quiet Before After P r → Holds (λ a w. Before w × P a) r
      ended r (with_value v a c p) = value_at v a (c, p)
      ended r (with_error v e c) = error_at v e

  module _ {A : Type 0} (Before : World → Type 0) (Q : A → World → Type 0) where
    pub Leads-if :
        (b : Bool) (m n : Io World A)
        → (b ≡ true → Leads Before Q m)
        → (b ≡ false → Leads Before Q n)
        → Leads Before Q (if b then m else n)
    Leads-if true m n h k = h refl
    Leads-if false m n h k = k refl

    pub Leads-option :
        {B : Type 0} (o : Option B) (f : B → Io World A) (n : Io World A)
        → ((b : B) → o ≡ some b → Leads Before Q (f b))
        → (o ≡ none → Leads Before Q n)
        → Leads Before Q (on_some o f n)
    Leads-option (some b) f n h k = h b refl
    Leads-option none f n h k = k refl
