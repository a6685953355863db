-- ===== src/Execution/Runtime/Sends.antt =====
-- Computations on the host that send nothing, or one write: from the states in front of the write to
-- those behind it. Neither panics.
use agent_pane.Prelude.{◌≡◌, refl, Bool, true, false, Option, none, some, on_some, if◌then◌else◌}
use agent_pane.Execution.{Code, Result, ok, err}
use agent_pane.Execution.Post.{Post, returns, fails}
use agent_pane.Execution.Files.{StatRequest, ReadFileRequest, WriteFileRequest}
use agent_pane.Execution.Runtime.{
  Reply, replied, failed, to_result, Runtime, Io, pure, call, continue, ◌>>=◌,
}
use agent_pane.Execution.Runtime.Post.{Ends, Always}

module _ {World : Type 0} (Before After : World → Type 0) where
  -- A host that replies in any way, and that one of the allowed writes takes from the states in front to
  -- those behind.
  pub record IsHost (Allowed : WriteFileRequest → Type 0) (runtime : Runtime World) : Type 0 where
    pub checkpoint_lem : (w : World) → Before w → Before (runtime.checkpoint w).0
    pub stat_lem :
        (request : StatRequest) (w : World) → Before w → Before (runtime.stat request w).0
    pub read_lem :
        (request : ReadFileRequest) (w : World) → Before w → Before (runtime.read request w).0
    pub write_lem :
        (request : WriteFileRequest) (w : World)
        → Allowed request
        → Before w
        → After (runtime.write request w).0

  pub data Quiet {A : Type 0} (P : A → Type 0) : World × Result A → Type 0 where
    with_value : (w : World) (a : A) → Before w → P a → Quiet P (w, ok a)
    with_error : (w : World) (e : Code) → Before w → Quiet P (w, err e)

  pub data Sent {A : Type 0} (P : A → Type 0) : World × Result A → Type 0 where
    sent_value : (w : World) (a : A) → After w → P a → Sent P (w, ok a)
    sent_error : (w : World) (e : Code) → After w → Sent P (w, err e)
    refused : (w : World) (e : Code) → Before w → Sent P (w, err e)

  -- Nothing is sent.
  abbrev pub IsQuiet : {A : Type 0} → (A → Type 0) → Io World A → Type 0
  IsQuiet P m = (w : World) → Before w → Quiet P (m w)

  -- One write is sent, or there is an error and none is.
  abbrev pub SendsOnce : {A : Type 0} → (A → Type 0) → Io World A → Type 0
  SendsOnce P m = (w : World) → Before w → Sent P (m w)

  pub Quiet-pure : {A : Type 0} (P : A → Type 0) (r : Result A) → Post P r → IsQuiet P (pure r)
  unfolding pure
  Quiet-pure P r (returns a h) w b = with_value w a b h
  Quiet-pure P r (fails e) w b = with_error w e b

  pub Quiet-imp :
      {A : Type 0} (P Q : A → Type 0) (m : Io World A)
      → IsQuiet P m
      → ((a : A) → P a → Q a)
      → IsQuiet Q m
  Quiet-imp {A = A} P Q m h k w b = ended (m w) (h w b)
    where
      ended : (r : World × Result A) → Quiet P r → Quiet Q r
      ended r (with_value v a b p) = with_value v a b (k a p)
      ended r (with_error v e b) = with_error v e b

  pub Quiet-call :
      {A : Type 0} (f : World → World × Reply A)
      → ((w : World) → Before w → Before (f w).0)
      → IsQuiet (λ a. Unit {0}) (call f)
  unfolding call
  Quiet-call f h w b = ended (f w) (h w b)
    where
      ended :
          {A : Type 0} (r : World × Reply A)
          → Before r.0
          → Quiet (λ a. Unit {0}) (r.0, to_result r.1)
      ended (v, replied a) b = with_value v a b tt
      ended (v, failed e) b = with_error v e b

  -- The value is a reply of the host.
  pub Quiet-reply :
      {A : Type 0} (f : World → World × Reply A)
      → ((w : World) → Before w → Before (f w).0)
      → IsQuiet (λ a. (w v : World) × (f w ≡ (v, replied a))) (call f)
  unfolding call
  Quiet-reply {A = A} f h w b = ended (f w) refl (h w b)
    where
      ended :
          (r : World × Reply A)
          → f w ≡ r
          → Before r.0
          → Quiet (λ a. (w v : World) × (f w ≡ (v, replied a))) (r.0, to_result r.1)
      ended (v, replied a) e b = with_value v a b (w, v, e)
      ended (v, failed c) e b = with_error v c b

  pub Quiet-bind :
      {A B : Type 0} (P : A → Type 0) (Q : B → Type 0) (m : Io World A) (f : A → Io World B)
      → IsQuiet P m
      → ((a : A) → P a → IsQuiet Q (f a))
      → IsQuiet Q (m >>= f)
  unfolding ◌>>=◌
  Quiet-bind {A = A} P Q m f h k w b = ended (m w) (h w b)
    where
      ended : (r : World × Result A) → Quiet P r → Quiet Q (continue f r)
      ended r (with_value v a b p) = k a p v b
      ended r (with_error v e b) = with_error v e b

  pub Sends-bind :
      {A B : Type 0} (P : A → Type 0) (Q : B → Type 0) (m : Io World A) (f : A → Io World B)
      → IsQuiet P m
      → ((a : A) → P a → SendsOnce Q (f a))
      → SendsOnce Q (m >>= f)
  unfolding ◌>>=◌
  Sends-bind {A = A} P Q m f h k w b = ended (m w) (h w b)
    where
      ended : (r : World × Result A) → Quiet P r → Sent Q (continue f r)
      ended r (with_value v a b p) = k a p v b
      ended r (with_error v e b) = refused v e b

  -- What is behind the write only looks at its reply.
  pub Sends-call :
      {A B : Type 0} (Q : B → Type 0) (f : World → World × Reply A) (g : A → Result B)
      → ((w : World) → Before w → After (f w).0)
      → ((a : A) → Post Q (g a))
      → SendsOnce Q (call f >>= λ a. pure (g a))
  unfolding call ◌>>=◌ pure
  Sends-call {A = A} {B = B} Q f g h k w b = ended (f w) (h w b)
    where
      checked : (v : World) (r : Result B) → After v → Post Q r → Sent Q (v, r)
      checked v r b (returns a q) = sent_value v a b q
      checked v r b (fails e) = sent_error v e b

      ended :
          (r : World × Reply A)
          → After r.0
          → Sent Q (continue (λ a. pure (g a)) (r.0, to_result r.1))
      ended (v, replied a) b = checked v (g a) b (k a)
      ended (v, failed e) b = sent_error v e b

  -- What is behind the one write looks at its result.
  pub Sends-then :
      {A B : Type 0} (P : A → Type 0) (Q : B → Type 0) (m : Io World A) (g : A → Result B)
      → SendsOnce P m
      → ((a : A) → P a → Post Q (g a))
      → SendsOnce Q (m >>= λ a. pure (g a))
  unfolding ◌>>=◌ pure
  Sends-then {A = A} {B = B} P Q m g h k w b = ended (m w) (h w b)
    where
      checked : (v : World) (r : Result B) → After v → Post Q r → Sent Q (v, r)
      checked v r b (returns a q) = sent_value v a b q
      checked v r b (fails e) = sent_error v e b

      ended : (r : World × Result A) → Sent P r → Sent Q (continue (λ a. pure (g a)) r)
      ended r (sent_value v a b p) = checked v (g a) b (k a p)
      ended r (sent_error v e b) = sent_error v e b
      ended r (refused v e b) = refused v e b

  module _ {A : Type 0} (P : A → Type 0) where
    pub Quiet-if :
        (b : Bool) (m n : Io World A)
        → (b ≡ true → IsQuiet P m)
        → (b ≡ false → IsQuiet P n)
        → IsQuiet P (if b then m else n)
    Quiet-if true m n h k = h refl
    Quiet-if false m n h k = k refl

    pub Quiet-option :
        {B : Type 0} (o : Option B) (f : B → Io World A) (n : Io World A)
        → ((b : B) → o ≡ some b → IsQuiet P (f b))
        → (o ≡ none → IsQuiet P n)
        → IsQuiet P (on_some o f n)
    Quiet-option (some b) f n h k = h b refl
    Quiet-option none f n h k = k refl

-- Where every state is in front of the write, nothing is said of the states.
pub any-IsHost :
    {World : Type 0} {Allowed : WriteFileRequest → Type 0} (runtime : Runtime World)
    → IsHost (λ w. Unit) (λ w. Unit) Allowed runtime
any-IsHost runtime = record {
  checkpoint_lem = λ w b. tt;
  stat_lem = λ request w b. tt;
  read_lem = λ request w b. tt;
  write_lem = λ request w a b. tt;
}

pub Quiet-Always :
    {World A : Type 0} (Before After : World → Type 0) {P : A → Type 0} {m : Io World A}
    → ((w : World) → Before w)
    → IsQuiet Before After P m
    → Always P m
Quiet-Always {World = World} {A = A} Before After {P = P} {m = m} b h w = ended (m w) (h w (b w))
  where
    ended : (r : World × Result A) → Quiet Before After P r → Ends P r
    ended r (with_value v a c p) = Ends.with_value v a p
    ended r (with_error v e c) = Ends.with_error v e
