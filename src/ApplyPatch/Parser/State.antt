-- ===== src/ApplyPatch/Parser/State.antt =====
-- The state of the parser, and the last element of a list under change.
use agent_pane.Prelude.{ℕ, List, [], ◌∷◌, Bool, false, Option, none, some, Text, is_empty, ◌&&◌}
use agent_pane.ApplyPatch.Hunk.{Hunk, UpdateFileChunk, default_chunk}

pub data Mode : Type 0 where
  not_started started_patch add_file delete_file ended_patch : Mode
  update_file : ℕ → Mode

pub record Parser : Type 0 where
  pub mode : Mode
  pub line_number : ℕ
  pub hunks : List Hunk
  pub environment_id : Option Text

-- `Parser::default`
abbrev pub initial : Parser
initial = record { mode = not_started; line_number = 0; hunks = []; environment_id = none }

module _ {ℓ} {A : Type ℓ} where
  -- `slice::last`
  unfoldable pub last? : List A → Option A
  last? [] = none
  last? (x ∷ []) = some x
  last? (x ∷ y ∷ xs) = last? (y ∷ xs)

  -- A change through `last_mut`; of an empty list, none.
  unfoldable pub map_last : (A → A) → List A → List A
  map_last f [] = []
  map_last f (x ∷ []) = f x ∷ []
  map_last f (x ∷ y ∷ xs) = x ∷ map_last f (y ∷ xs)

-- A chunk with neither an old line nor a new one.
abbrev pub is_blank : UpdateFileChunk → Bool
is_blank c = is_empty c.old_lines && is_empty c.new_lines

abbrev pub is_some_and {ℓ} : {A : Type ℓ} → (A → Bool) → Option A → Bool
is_some_and p none = false
is_some_and p (some a) = p a

-- `get_or_insert_default`
unfoldable pub with_chunk : List UpdateFileChunk → List UpdateFileChunk
with_chunk [] = default_chunk ∷ []
with_chunk (c ∷ cs) = c ∷ cs
