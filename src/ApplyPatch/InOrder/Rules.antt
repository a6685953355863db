-- ===== src/ApplyPatch/InOrder/Rules.antt =====
-- Results of the parser whose value has a property.
use agent_pane.Prelude.{Bool, true, false, Option, none, some, on_some, if◌then◌else◌}
use agent_pane.ApplyPatch.Parser.Error.{ParseError, Parsed, ok, err, panic, ◌>>=◌}

-- A value that is returned has the property.
pub data Keeps {ℓ} {A : Type ℓ} (P : A → Type 0) : Parsed A → Type ℓ where
  returns : (a : A) → P a → Keeps P (ok a)
  fails : (e : ParseError) → Keeps P (err e)
  panics : Keeps P panic

module _ {ℓ} {A : Type ℓ} (P : A → Type 0) where
  pub Keeps-if : (b : Bool) (m n : Parsed A) → Keeps P m → Keeps P n → Keeps P (if b then m else n)
  Keeps-if true m n h k = h
  Keeps-if false m n h k = k

  pub Keeps-option :
      {B : Type 0} (o : Option B) (f : B → Parsed A) (n : Parsed A)
      → ((b : B) → Keeps P (f b))
      → Keeps P n
      → Keeps P (on_some o f n)
  Keeps-option (some b) f n h k = h b
  Keeps-option none f n h k = k

pub Keeps-bind {ℓ κ} :
    {A : Type ℓ} {B : Type κ} (P : A → Type 0) (Q : B → Type 0) (m : Parsed A) (f : A → Parsed B)
    → Keeps P m
    → ((a : A) → P a → Keeps Q (f a))
    → Keeps Q (m >>= f)
Keeps-bind P Q m f (returns a h) k = k a h
Keeps-bind P Q m f (fails e) k = fails e
Keeps-bind P Q m f panics k = panics

pub ruleset keeps_rules = (Keeps-if, Keeps-option, fails)
