-- ===== src/ApplyPatch/Parser/Error.antt =====
-- The errors of the parser, and its results.
use agent_pane.Prelude.{ℕ, Text}

pub data Message : Type 0 where
  first_line last_line environment_twice environment_empty no_lines : Message
  empty_update unexpected_line expected_context invalid_header : Text → Message

pub data ParseError : Type 0 where
  invalid_patch : Message → ParseError
  invalid_hunk : Message → ℕ → ParseError

pub data Parsed {ℓ} (A : Type ℓ) : Type ℓ where
  ok : A → Parsed A
  err : ParseError → Parsed A
  panic : Parsed A

infixl 5 ◌>>=◌
abbrev pub ◌>>=◌ {ℓ κ} : {A : Type ℓ} {B : Type κ} → Parsed A → (A → Parsed B) → Parsed B
ok a >>= f = f a
err e >>= f = err e
panic >>= f = panic
