-- ===== src/Read/Window.antt =====
-- A window of lines in a text, described without a reader.
use agent_pane.Prelude.{
  ℕ, zero, suc, ◌+◌, List, [], ◌∷◌, ◌++◌, ◌≡◌, Bool, true, false, Option, none, some, Text,
}
use agent_pane.Execution.Files.{contains}

-- As many whole lines, each with its line feed.
pub data Lines : List ℕ → ℕ → Type 0 where
  no_lines : Lines [] 0
  one_more :
      (bytes line : List ℕ) (n : ℕ)
      → Lines bytes n
      → contains 10 line ≡ false
      → Lines (bytes ++ (line ++ 10 ∷ [])) (n + 1)

module _ (from_utf8 : List ℕ → Option Text) where
  -- As many lines, decoded one by one; the last can be without its line feed.
  pub data Decoded : Bool → List ℕ → Text → ℕ → Type 0 where
    nothing : Decoded true [] [] 0
    whole :
        (bytes line : List ℕ) (content text : Text) (n : ℕ)
        → Decoded true bytes content n
        → contains 10 line ≡ false
        → from_utf8 (line ++ 10 ∷ []) ≡ some text
        → Decoded true (bytes ++ (line ++ 10 ∷ [])) (content ++ text) (n + 1)
    partial :
        (bytes line : List ℕ) (content text : Text) (n : ℕ)
        → Decoded true bytes content n
        → contains 10 line ≡ false
        → from_utf8 line ≡ some text
        → Decoded false (bytes ++ line) (content ++ text) (n + 1)

-- The number of the last of as many lines.
abbrev pub last_of : ℕ → ℕ → Option ℕ
last_of start zero = none
last_of start (suc n) = some (start + n)
