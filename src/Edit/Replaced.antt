-- ===== src/Edit/Replaced.antt =====
-- What `replace` of matching.rs returns, described without indices.
use agent_pane.Prelude.{
  ℕ, suc, ◌+◌, ◌*◌, ◌≤◌, ◌++◌, ◌≡◌, ◌∙◌, Bool, true, false, Text, starts_with, byte_len,
  byte_len-append, length, take, drop, drop-append_ge, take-append_le, take_all, arith,
}
use agent_pane.Edit.Matches.{Absent, Leftmost}

-- Every match is replaced, from the left on, each behind the one in front of it.
pub data Replaces (old new : Text) : Text → Text → ℕ → Type 0 where
  ends : (s : Text) → Absent old s → Replaces old new s s 0
  replaces :
      (before rest out : Text) (n : ℕ)
      → Leftmost old (before ++ (old ++ rest)) (length before)
      → Replaces old new rest out n
      → Replaces old new (before ++ (old ++ rest)) (before ++ (new ++ out)) (suc n)

-- The only match is replaced; there is no other, not even one that overlaps it.
pub record ReplacesOnly (old new source content : Text) : Type 0 where
  pub before : Text
  pub rest : Text
  pub source_lem : source ≡ before ++ (old ++ rest)
  pub content_lem : content ≡ before ++ (new ++ rest)
  pub only : (k : ℕ) → starts_with (drop k source) old ≡ true → k ≡ length before

-- The result of `replace`, with the number of its replacements.
unfoldable pub IsReplaced : Bool → Text → Text → Text → Text × ℕ → Type 0
IsReplaced true source old new (content, n) = Replaces old new source content n × (1 ≤ n)
IsReplaced false source old new (content, n) = ReplacesOnly old new source content × (n ≡ 1)

-- The bytes that go and those that come.
pub Replaces-byte_len :
    (old new s out : Text) (n : ℕ)
    → Replaces old new s out n
    → byte_len out + n * byte_len old ≡ byte_len s + n * byte_len new
Replaces-byte_len old new s _ n (ends _ h) = omega arith
Replaces-byte_len old new _ _ _ (replaces before rest out n l r) =
    let h : byte_len out + n * byte_len old ≡ byte_len rest + n * byte_len new =
      Replaces-byte_len old new rest out n r in
    let a : byte_len (before ++ (old ++ rest)) ≡ byte_len before + (byte_len old + byte_len rest) =
      omega (arith, byte_len-append before (old ++ rest), byte_len-append old rest) in
    let b : byte_len (before ++ (new ++ out)) ≡ byte_len before + (byte_len new + byte_len out) =
      omega (arith, byte_len-append before (new ++ out), byte_len-append new out) in
    let c : suc n * byte_len old ≡ byte_len old + n * byte_len old = omega arith in
    let d : suc n * byte_len new ≡ byte_len new + n * byte_len new = omega arith in
    omega (arith, a, b, c, d, h)

-- A cut at the seams of `done ++ before ++ old ++ rest`.
pub drop_seam : (n : ℕ) (xs ys : Text) → n ≡ length xs → drop n (xs ++ ys) ≡ ys
drop_seam n xs ys h = drop-append_ge n 0 xs ys (omega arith)

pub take_seam : (n : ℕ) (xs ys : Text) → n ≡ length xs → take n (xs ++ ys) ≡ xs
take_seam n xs ys h = take-append_le n xs ys (omega arith) ∙ take_all n xs (omega arith)
