-- ===== src/Edit/Replacement.antt =====
-- The result of `replace` (matching.rs).
use agent_pane.Prelude.{
  ℕ, ◌+◌, ◌≤◌, List, [], ◌∷◌, ◌++◌, ◌≡◌, refl, sym, Bool, true, false, Option, some, Text, byte_len,
  byte_len-append, length, on_some, arith,
}
use mathlib.Core.Path.{subst}
use agent_pane.Execution.{ok, err, invalid_request}
use agent_pane.Execution.Post.{fails}
use agent_pane.Execution.Files.{WriteFileRequest}
use agent_pane.Execution.Runtime.{Runtime, Io, pure, call, ◌>>=◌}
use agent_pane.Execution.Runtime.Sends.{IsHost, IsQuiet, Quiet-pure, Quiet-bind}
use agent_pane.Edit.Matching.{
  match_from, match_indices, find, check_unique, check_size, count_matches, fill, replace,
}
use agent_pane.Edit.Matches.{View, absent, found, view}
use agent_pane.Edit.Replaced.{Replaces, IsReplaced, Replaces-byte_len}
use agent_pane.Edit.Filling.{checked, value, count_all, count_one, Fills, fill_all}
use agent_pane.Edit.Replacing.{Fits, check_size-Post, Unique, check_unique-Post, fill_one}

-- The result of `replace`, which is no larger than allowed.
pub record IsResult (all : Bool) (source old new : Text) (max_bytes : ℕ) (result : Text × ℕ)
    : Type 0 where
  pub replaced : IsReplaced all source old new result
  pub fits : byte_len result.0 ≤ max_bytes

Replaces-Fits :
    (source old new content : Text) (max_bytes n : ℕ)
    → Replaces old new source content n
    → Fits source old new max_bytes n
    → byte_len content ≤ max_bytes
unfolding Fits
Replaces-Fits source old new content max_bytes n r (h, k) =
    omega (arith, Replaces-byte_len old new source content n r)

only-Fits :
    (source old new content before rest : Text) (max_bytes : ℕ)
    → source ≡ before ++ (old ++ rest)
    → content ≡ before ++ (new ++ rest)
    → Fits source old new max_bytes 1
    → byte_len content ≤ max_bytes
unfolding Fits
only-Fits source old new content before rest max_bytes f g (h, k) =
    let a : byte_len source ≡ byte_len before + (byte_len old + byte_len rest) =
      rw f (omega (arith, byte_len-append before (old ++ rest), byte_len-append old rest)) in
    let b : byte_len content ≡ byte_len before + (byte_len new + byte_len rest) =
      rw g (omega (arith, byte_len-append before (new ++ rest), byte_len-append new rest)) in
    omega (arith, a, b, h, k)

module _ {World : Type 0} (runtime : Runtime World) (Before After : World → Type 0)
    (Allowed : WriteFileRequest → Type 0) (host : IsHost Before After Allowed runtime) where
  module _ (source : Text) (o : ℕ) (os new : Text) (max_bytes : ℕ) where
    -- What `replace` does with the matches that are found.
    tail : Bool → List ℕ → ℕ → Io World (Text × ℕ)
    tail all is count = pure (check_size source (o ∷ os) new max_bytes count) >>= λ u.
        fill runtime all source (o ∷ os) new 0 [] is >>= λ output.
        call runtime.checkpoint >>= λ u. pure (ok (output, count))

    tail-IsQuiet :
        (all : Bool) (is : List ℕ) (count : ℕ) (P : Text → Type 0)
        → IsQuiet Before After P (fill runtime all source (o ∷ os) new 0 [] is)
        → ((output : Text)
            → Fits source (o ∷ os) new max_bytes count
            → P output
            → IsResult all source (o ∷ os) new max_bytes (output, count))
        → IsQuiet Before After (IsResult all source (o ∷ os) new max_bytes) (tail all is count)
    unfolding tail
    tail-IsQuiet all is count P h k =
        Quiet-bind Before After (λ u. Fits source (o ∷ os) new max_bytes count) _ _ _
          (Quiet-pure Before After _ _ (check_size-Post source (o ∷ os) new max_bytes count))
          (λ u f. Quiet-bind Before After P _ _ _ h (λ output p.
            checked runtime Before After Allowed host _ (pure (ok (output, count)))
              (value runtime Before After Allowed host _ _ (k output f p))))

    found_all :
        (before rest : Text) (is : List ℕ) (p : Option ℕ)
        → View o os 0 source is p
        → 1 ≤ length is
        → IsQuiet Before After
            (IsResult true source (o ∷ os) new max_bytes)
            (count_matches runtime true 0 is >>= λ count. tail true is count)
    found_all before rest is p v pos =
        Quiet-bind Before After (λ n. n ≡ 0 + length is) _ _ _
          (count_all runtime Before After Allowed host 0 is)
          (λ count e.
            tail-IsQuiet true is count
              (Fills runtime Before After Allowed host source o os new source [] (length is))
              (fill_all runtime Before After Allowed host source o os new is source [] [] 0 p v refl
                refl)
              (λ output f (r, (h, g)).
                let n : length is ≡ count = omega arith in
                let h2 : Replaces (o ∷ os) new source output count =
                  subst (λ m. Replaces (o ∷ os) new source output m) n
                    (subst (λ t. Replaces (o ∷ os) new source t (length is)) (sym g) h) in
                record {
                  replaced = unfold IsReplaced in (h2, omega arith);
                  fits = Replaces-Fits source (o ∷ os) new output max_bytes count h2 f;
                }))

    found_one :
        (before rest : Text) (is : List ℕ)
        → source ≡ before ++ ((o ∷ os) ++ rest)
        → Unique false (o ∷ os) source (length before)
        → IsQuiet Before After (IsResult false source (o ∷ os) new max_bytes) (
            count_matches runtime false 0 (length before ∷ is) >>= λ count.
            tail false (length before ∷ is) count)
    unfolding Unique
    found_one before rest is f only =
        Quiet-bind Before After (λ n. n ≡ 1) _ _ _
          (count_one runtime Before After Allowed host (length before) is)
          (λ count e.
            tail-IsQuiet false (length before ∷ is) count _
              (fill_one runtime Before After Allowed host o os new source before rest f is)
              (λ output fit g. record {
                replaced =
                    unfold IsReplaced in
                    (
                      record {
                        before = before;
                        rest = rest;
                        source_lem = f;
                        content_lem = g;
                        only = only;
                      },
                      e,
                    );
                fits =
                    only-Fits source (o ∷ os) new output before rest max_bytes f g
                      (subst (λ m. Fits source (o ∷ os) new max_bytes m) e fit);
              }))

    by_all :
        (all : Bool) (before rest : Text) (is js : List ℕ) (p : Option ℕ)
        → View o os 0 source is p
        → source ≡ before ++ ((o ∷ os) ++ rest)
        → is ≡ length before ∷ js
        → Unique all (o ∷ os) source (length before)
        → IsQuiet Before After
            (IsResult all source (o ∷ os) new max_bytes)
            (count_matches runtime all 0 is >>= λ count. tail all is count)
    by_all true before rest is js p v f e u = found_all before rest is p v (rw e (omega arith))
    by_all false before rest is js p v f e u = rw e (found_one before rest js f u)

    by_view :
        (all : Bool) (is : List ℕ) (p : Option ℕ)
        → View o os 0 source is p
        → IsQuiet Before After (IsResult all source (o ∷ os) new max_bytes) (
            on_some p
              (λ first. pure (check_unique all source (o ∷ os) first) >>= λ u.
                count_matches runtime all 0 is >>= λ count. tail all is count)
              (pure (err invalid_request)))
    by_view all is p (absent f) = Quiet-pure Before After _ _ (fails _)
    by_view all is p (found before rest _ f g e) =
        Quiet-bind Before After (λ u. Unique all (o ∷ os) source (length before)) _ _ _
          (Quiet-pure Before After _ _ (check_unique-Post o os all source before rest f g))
          (λ u h.
            by_all all before rest is _ (some (length before)) (found before rest is f g e) f
              (let z : 0 + length before ≡ length before = omega arith in rw z at e) h)

    -- For a text that is not empty, `replace` returns the source with every match replaced from the left
    -- on, or, where one is asked for, with its only match replaced, and the number of replacements; the
    -- result has no more bytes than allowed. Or it is an error. Nothing is written, and there is no panic.
    pub replace-IsResult :
        (all : Bool)
        → IsQuiet Before After
            (IsResult all source (o ∷ os) new max_bytes)
            (replace runtime source (o ∷ os) new all max_bytes)
    unfolding replace match_indices tail
    replace-IsResult all =
        checked runtime Before After Allowed host _ _
          (by_view all (match_from 0 0 source (o ∷ os)) (find source (o ∷ os)) (view o os 0 source))
