-- ===== src/ApplyPatch/Parser/Post.antt =====
-- Results of the parser that are no panic, and whose value has a property.
use agent_pane.Prelude.{Bool, true, false, Option, none, some, on_some, if◌then◌else◌}
use agent_pane.ApplyPatch.Parser.Error.{ParseError, Parsed, ok, err, ◌>>=◌}

-- The result is no panic, and a value that is returned has the property.
pub data Post {ℓ} {A : Type ℓ} (P : A → Type 0) : Parsed A → Type ℓ where
  returns : (a : A) → P a → Post P (ok a)
  fails : (e : ParseError) → Post P (err e)

module _ {ℓ} {A : Type ℓ} (P : A → Type 0) where
  pub Post-if : (b : Bool) (m n : Parsed A) → Post P m → Post P n → Post P (if b then m else n)
  Post-if true m n h k = h
  Post-if false m n h k = k

  pub Post-option :
      {B : Type 0} (o : Option B) (f : B → Parsed A) (n : Parsed A)
      → ((b : B) → Post P (f b))
      → Post P n
      → Post P (on_some o f n)
  Post-option (some b) f n h k = h b
  Post-option none f n h k = k

pub Post-bind {ℓ κ} :
    {A : Type ℓ} {B : Type κ} (P : A → Type 0) (Q : B → Type 0) (m : Parsed A) (f : A → Parsed B)
    → Post P m
    → ((a : A) → P a → Post Q (f a))
    → Post Q (m >>= f)
Post-bind P Q m f (returns a h) k = k a h
Post-bind P Q m f (fails e) k = fails e

pub ruleset post_rules = (Post-if, Post-option, returns, fails, tt)
