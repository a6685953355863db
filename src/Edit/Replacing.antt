-- ===== src/Edit/Replacing.antt =====
-- `replace` (matching.rs) as a whole: its result, and the checks in front of it.
use agent_pane.Prelude.{
  ℕ, ◌+◌, ◌-◌, ◌*◌, ◌≤◌, List, [], ◌∷◌, ◌++◌, ◌≡◌, refl, sym, ap, ◌∙◌, Bool, true, false,
  Bool-cases, inl, inr, Option, none, some, Text, starts_with, byte_len, length, take, drop,
  drop-drop, append_assoc, is_empty, leb, ltb, if◌then◌else◌, on_some, arith,
}
use agent_pane.Prelude.Machine.{u64_max, checked_add, checked_mul, checked_sub}
use agent_pane.Execution.Post.{Post, returns, fails, Post-if, Post-option}
use agent_pane.Execution.Files.{WriteFileRequest}
use agent_pane.Execution.Runtime.{Runtime}
use agent_pane.Execution.Runtime.Sends.{IsHost, IsQuiet}
use agent_pane.Edit.Matching.{
  match_from, find, contains_text, check_unique, result_size, check_size, fill,
}
use agent_pane.Edit.Matches.{Absent, Leftmost, View, absent, found, view}
use agent_pane.Edit.Replaced.{drop_seam, take_seam}
use agent_pane.Edit.Filling.{checked, value}

-- The size that is computed is that of the result, and fits.
unfoldable pub Fits : Text → Text → Text → ℕ → ℕ → Type 0
Fits source old new max_bytes n =
    (n * byte_len old ≤ byte_len source)
    × (byte_len source - n * byte_len old + n * byte_len new ≤ max_bytes)

sizes :
    (x y s m size : ℕ)
    → on_some
        (if leb x m then some x else none)
        (λ removed.
          on_some
            (if leb removed s then some (s - removed) else none)
            (λ n.
              on_some
                (if leb y m then some y else none)
                (λ added. if leb (n + added) m then some (n + added) else none)
                none)
            none)
        none
      ≡ some size
    → (x ≤ s) × (size ≡ s - x + y)
sizes x y s m size e = ground arith

pub check_size-Post :
    (source old new : Text) (max_bytes n : ℕ)
    → Post (λ u. Fits source old new max_bytes n) (check_size source old new max_bytes n)
unfolding check_size result_size checked_add checked_mul checked_sub Fits
check_size-Post source old new max_bytes n =
    Post-option _ (result_size source old new n) _ _
      (λ size e.
        Post-if _ (ltb max_bytes size) _ _ (λ b. fails _) (λ b. returns tt (fits size e b)))
      (fails _)
  where
    fits :
        (size : ℕ)
        → result_size source old new n ≡ some size
        → ltb max_bytes size ≡ false
        → (n * byte_len old ≤ byte_len source)
          × (byte_len source - n * byte_len old + n * byte_len new ≤ max_bytes)
    fits size e b =
        let (h, k) = sizes (n * byte_len old) (n * byte_len new) (byte_len source) u64_max size e in
        let l : size ≤ max_bytes = ground arith in (h, omega (arith, k, l))

-- Behind the first match there is no other.
unfoldable pub Unique : Bool → Text → Text → ℕ → Type 0
Unique true old source first = Unit
Unique false old source first = (k : ℕ) → starts_with (drop k source) old ≡ true → k ≡ first

module _ (o : ℕ) (os : Text) where
  contains_text-false : (s : Text) → contains_text s (o ∷ os) ≡ false → Absent (o ∷ os) s
  unfolding contains_text
  contains_text-false s h = by_view (match_from 0 0 s (o ∷ os)) (find s (o ∷ os)) (view o os 0 s) h
    where
      by_view :
          (is : List ℕ) (p : Option ℕ)
          → View o os 0 s is p
          → elim p [ none ↦ false | some i ↦ true ] ≡ false
          → Absent (o ∷ os) s
      by_view is p (absent f) e = f
      by_view is p (found before rest _ f g k) e = absurd (cc)

  only_first :
      (source : Text) (first : ℕ)
      → Leftmost (o ∷ os) source first
      → Absent (o ∷ os) (drop (first + 1) source)
      → (k : ℕ) → starts_with (drop k source) (o ∷ os) ≡ true
      → k ≡ first
  only_first source first l a k h = elim (Bool-cases (ltb k first)) [
    | inl e ↦ absurd (clash _ h (l k (ground arith)))
    | inr e ↦ elim (Bool-cases (ltb first k)) [
      | inl f ↦
          let g : first + 1 + (k - (first + 1)) ≡ k = ground arith in
          let d : drop (k - (first + 1)) (drop (first + 1) source) ≡ drop k source =
            drop-drop (k - (first + 1)) (first + 1) source ∙ ap (λ n. drop n source) g in
          absurd (clash _ h (rw d at (a (k - (first + 1)))))
      | inr f ↦ ground arith
    ]
  ]
    where
      clash : (b : Bool) → b ≡ true → b ≡ false → ⊥
      clash b h k = cc

  pub check_unique-Post :
      (all : Bool) (source before rest : Text)
      → source ≡ before ++ ((o ∷ os) ++ rest)
      → Leftmost (o ∷ os) source (length before)
      → Post
          (λ u. Unique all (o ∷ os) source (length before))
          (check_unique all source (o ∷ os) (length before))
  unfolding check_unique Unique
  check_unique-Post true source before rest f l = returns tt tt
  check_unique-Post false source before rest f l =
      let d : is_empty (drop (length before) source) ≡ false =
        rw (f, drop_seam (length before) before ((o ∷ os) ++ rest) refl) in
      rw d (
        Post-if _ (contains_text (drop (length before + 1) source) (o ∷ os)) _ _ (λ b. fails _)
          (λ b. returns tt (only_first source (length before) l (contains_text-false _ b))))

module _ {World : Type 0} (runtime : Runtime World) (Before After : World → Type 0)
    (Allowed : WriteFileRequest → Type 0) (host : IsHost Before After Allowed runtime) where
  module _ (o : ℕ) (os new source : Text) (before rest : Text)
      (source_lem : source ≡ before ++ ((o ∷ os) ++ rest)) where
    -- The output where only the first match is replaced.
    pub fill_one :
        (is : List ℕ)
        → IsQuiet Before After
            (λ out. out ≡ before ++ (new ++ rest))
            (fill runtime false source (o ∷ os) new 0 [] (length before ∷ is))
    unfolding fill
    fill_one is =
        checked runtime Before After Allowed host _ _
          (value runtime Before After Allowed host _ _ filled)
      where
        filled :
            (take (length before - 0) source ++ new)
              ++ drop (length before + length (o ∷ os)) source
            ≡ before ++ (new ++ rest)
        filled =
            let e : length before - 0 ≡ length before = omega arith in
            let a : take (length before) source ≡ before =
              rw source_lem (take_seam (length before) before ((o ∷ os) ++ rest) refl) in
            let b : drop (length before + length (o ∷ os)) source ≡ rest =
              sym (drop-drop (length (o ∷ os)) (length before) source)
              ∙ rw (source_lem, drop_seam (length before) before ((o ∷ os) ++ rest) refl)
                  (drop_seam (length (o ∷ os)) (o ∷ os) rest refl) in
            rw (e, a, b) (append_assoc before new rest)
