-- ===== src/HeadTail/Refinement.antt =====
-- The buffer against the whole stream of the bytes that were pushed.
use agent_pane.Prelude.{
  ℕ, ◌-◌, ◌+◌, ◌/◌, ◌≤◌, ◌≡◌, refl, sym, ap, ◌∙◌, min, List, [], ◌∷◌, ◌++◌, length, is_empty, take,
  drop, ltb, if◌then◌else◌, arith, append-nil, append_assoc, take-append, drop-append, take-min,
  drop-min, drop-drop, drop-append_le, length-append, length-take, length-drop, take_all, drop_all,
  true, zero, suc,
}
use mathlib.Core.Path.{ap₂, subst}
use agent_pane.Prelude.Machine.{saturating_add, saturating_add_lem, u64_max}
use agent_pane.HeadTail.{
  HeadTailBuffer, new, head_budget, tail_budget, retained_bytes, total_bytes, push_tail, push,
  push_all,
}

-- The chunks joined.
abbrev pub concat {ℓ} : {A : Type ℓ} → List (List A) → List A
concat [] = []
concat (xs ∷ xss) = xs ++ concat xss

-- The last `k` elements.
abbrev pub last_n {ℓ} : {A : Type ℓ} → ℕ → List A → List A
last_n k xs = drop (length xs - k) xs

-- The buffer of capacity `m` holds the stream `s`: its first half-capacity, its newest bytes
-- behind that, and the number of bytes between.
pub record Represents (m : ℕ) (b : HeadTailBuffer) (s : List ℕ) : Type 0 where
  pub capacity : b.max_bytes ≡ m
  pub head_lem : b.head ≡ take (m / 2) s
  pub tail_lem : b.tail ≡ last_n (m - m / 2) (drop (m / 2) s)
  pub omitted_lem : b.omitted_bytes ≡ length (drop (m / 2) s) - (m - m / 2)

-- A sliding window over `xs` that takes `ys`.
last_n-append {ℓ} :
    {A : Type ℓ} (k o : ℕ) (xs ys : List A)
    → o ≡ length (last_n k xs) + length ys - k
    → drop
          (length (last_n k xs) - (length (last_n k xs) - min o (length (last_n k xs))))
          (last_n k xs)
        ++ drop (min (o - length (last_n k xs)) (length ys)) ys
      ≡ last_n k (xs ++ ys)
last_n-append {A} k o xs ys h =
    let w : List A = last_n k xs in
    let n : ℕ = length w in
    let e₁ : n - (n - min o n) ≡ min n o = omega arith in
    let e₂ : min (o - n) (length ys) ≡ min (length ys) (o - n) = omega arith in
    let a : ℕ = length xs - k in
    let e₃ : a + o ≡ length (xs ++ ys) - k =
      omega (arith, length-append xs ys, length-drop a xs, h) in
    ap₂ (λ i j. drop i w ++ drop j ys) e₁ e₂
    ∙ ap₂ (λ u v. u ++ v) (drop-min o w) (drop-min (o - n) ys)
    ∙ sym (drop-append o w ys)
    ∙ ap (λ t. drop o t) (sym (drop-append_le a xs ys (omega arith)))
    ∙ drop-drop o a (xs ++ ys)
    ∙ ap (λ i. drop i (xs ++ ys)) e₃

-- The prefix of a stream that takes more bytes.
head_lem-push :
    (h : ℕ) (s input : List ℕ)
    → let r = min (length input) (h - length (take h s)) in
      take h s ++ take r input ≡ take h (s ++ input)
head_lem-push h s input =
    let e : h - length (take h s) ≡ h - length s = omega (arith, length-take h s) in
    rw e (rw (take-min (h - length s) input) (sym (take-append h s input)))

rest_lem-push :
    (h : ℕ) (s input : List ℕ)
    → let r = min (length input) (h - length (take h s)) in
      drop h s ++ drop r input ≡ drop h (s ++ input)
rest_lem-push h s input =
    let e : h - length (take h s) ≡ h - length s = omega (arith, length-take h s) in
    rw e (rw (drop-min (h - length s) input) (sym (drop-append h s input)))

push_tail-omitted :
    (m : ℕ) (b : HeadTailBuffer) (rest input : List ℕ)
    → b.max_bytes ≡ m
    → b.tail ≡ last_n (m - m / 2) rest
    → b.omitted_bytes ≡ length rest - (m - m / 2)
    → length rest + length input ≤ u64_max
    → (push_tail b input).omitted_bytes ≡ length (rest ++ input) - (m - m / 2)
unfolding push_tail tail_budget head_budget saturating_add
push_tail-omitted m b rest input c t o fit = omega (
  arith,
  c,
  o,
  ap length t,
  length-drop (length rest - (m - m / 2)) rest,
  length-append rest input,
)

push_tail-tail :
    (m : ℕ) (b : HeadTailBuffer) (rest input : List ℕ)
    → b.max_bytes ≡ m
    → b.tail ≡ last_n (m - m / 2) rest
    → length rest + length input ≤ u64_max
    → (push_tail b input).tail ≡ last_n (m - m / 2) (rest ++ input)
unfolding push_tail tail_budget head_budget
push_tail-tail m b rest input c t fit =
    let k : ℕ = m - m / 2 in
    let fits : length (last_n k rest) + length input ≤ u64_max =
      omega (arith, length-drop (length rest - k) rest, fit) in
    rw (c, t, saturating_add_lem (length (last_n k rest)) (length input) fits)
      (last_n-append k _ rest input refl)

push_tail-head : (b : HeadTailBuffer) (input : List ℕ) → (push_tail b input).head ≡ b.head
unfolding push_tail
push_tail-head b input = refl

push_tail-max_bytes :
    (b : HeadTailBuffer) (input : List ℕ) → (push_tail b input).max_bytes ≡ b.max_bytes
unfolding push_tail
push_tail-max_bytes b input = refl

-- The buffer that `push` has once the prefix is filled.
abbrev with_head : HeadTailBuffer → ℕ → List ℕ → HeadTailBuffer
with_head b n input = if ltb 0 n then record b { head = b.head ++ take n input } else b

with_head_lem :
    (b : HeadTailBuffer) (n : ℕ) (input : List ℕ)
    → with_head b n input ≡ record b { head = b.head ++ take n input }
with_head_lem b zero input = ap (λ h. record b { head = h }) (sym (append-nil b.head))
with_head_lem b (suc n) input = let e : ltb 0 (suc n) ≡ true = ground arith in rw e

-- Once the prefix is served, the rest goes to the suffix, if there is any.
finish-Represents :
    (m : ℕ) (b : HeadTailBuffer) (s input : List ℕ) (rest : List ℕ)
    → length s + length input ≤ u64_max
    → length rest ≤ length input
    → b.max_bytes ≡ m
    → b.head ≡ take (m / 2) (s ++ input)
    → b.tail ≡ last_n (m - m / 2) (drop (m / 2) s)
    → b.omitted_bytes ≡ length (drop (m / 2) s) - (m - m / 2)
    → drop (m / 2) s ++ rest ≡ drop (m / 2) (s ++ input)
    → Represents m (if is_empty rest then b else push_tail b rest) (s ++ input)
finish-Represents m b s input [] fit le c h t o e =
    let e' : drop (m / 2) (s ++ input) ≡ drop (m / 2) s = sym e ∙ append-nil (drop (m / 2) s) in
    record { capacity = c; head_lem = h; tail_lem = rw e' t; omitted_lem = rw e' o }
finish-Represents m b s input (x ∷ rest) fit le c h t o e =
    let small : length (drop (m / 2) s) + length (x ∷ rest) ≤ u64_max =
      omega (arith, length-drop (m / 2) s, fit, le) in
    record {
      capacity = push_tail-max_bytes b (x ∷ rest) ∙ c;
      head_lem = push_tail-head b (x ∷ rest) ∙ h;
      tail_lem = rw (← e) (push_tail-tail m b (drop (m / 2) s) (x ∷ rest) c t small);
      omitted_lem = rw (← e) (push_tail-omitted m b (drop (m / 2) s) (x ∷ rest) c t o small);
    }

-- Pushing to a buffer that holds `s` gives one that holds `s` and the new bytes, as long as the
-- stream is shorter than 2^64 bytes.
pub push-Represents :
    (m : ℕ) (b : HeadTailBuffer) (s input : List ℕ)
    → length s + length input ≤ u64_max
    → Represents m b s
    → Represents m (push b input) (s ++ input)
unfolding push head_budget
push-Represents m b s input fit r =
    let n : ℕ = min (length input) (b.max_bytes / 2 - length b.head) in
    let served : HeadTailBuffer = record b { head = b.head ++ take n input } in
    let e : n ≡ min (length input) (m / 2 - length (take (m / 2) s)) =
      ap₂ (λ k l. min (length input) (k / 2 - length l)) r.capacity r.head_lem in
    let heads : b.head ++ take n input ≡ take (m / 2) (s ++ input) =
      ap₂ (λ u k. u ++ take k input) r.head_lem e ∙ head_lem-push (m / 2) s input in
    let rests : drop (m / 2) s ++ drop n input ≡ drop (m / 2) (s ++ input) =
      ap (λ k. drop (m / 2) s ++ drop k input) e ∙ rest_lem-push (m / 2) s input in
    subst
      (λ c.
        Represents m (if is_empty (drop n input) then c else push_tail c (drop n input))
          (s ++ input))
      (sym (with_head_lem b n input))
      (finish-Represents m served s input (drop n input) fit (omega (arith, length-drop n input))
        r.capacity heads r.tail_lem r.omitted_lem rests)

pub new-Represents : (m : ℕ) → Represents m (new m) []
unfolding new
new-Represents m =
    let e : drop {A = ℕ} (m / 2) [] ≡ [] = drop_all (m / 2) [] (omega arith) in
    record {
      capacity = refl;
      head_lem = sym (take_all (m / 2) [] (omega arith));
      tail_lem = rw e (sym (drop_all {A = ℕ} (0 - (m - m / 2)) [] (omega arith)));
      omitted_lem = rw e (omega arith);
    }

push_all_from :
    (m : ℕ) (b : HeadTailBuffer) (s : List ℕ) (inputs : List (List ℕ))
    → length (s ++ concat inputs) ≤ u64_max
    → Represents m b s
    → Represents m (push_all b inputs) (s ++ concat inputs)
unfolding push_all
push_all_from m b s [] fit r = rw append-nil r
push_all_from m b s (input ∷ inputs) fit r =
    let fits : length s + length input ≤ u64_max =
      omega (
        arith,
        fit,
        length-append s (input ++ concat inputs),
        length-append input (concat inputs),
      ) in
    subst (λ t. Represents m (push_all (push b input) inputs) t)
      (append_assoc s input (concat inputs))
      (push_all_from m (push b input) (s ++ input) inputs (rw append_assoc fit)
        (push-Represents m b s input fits r))

-- A new buffer that took the chunks of an output, however it was cut, holds the whole output: its
-- first `m / 2` bytes, the newest bytes behind those up to the capacity, and the exact number of
-- bytes between, for outputs shorter than 2^64 bytes.
pub push_all-Represents :
    (m : ℕ) (inputs : List (List ℕ))
    → length (concat inputs) ≤ u64_max
    → Represents m (push_all (new m) inputs) (concat inputs)
push_all-Represents m inputs fit = push_all_from m (new m) [] inputs fit (new-Represents m)

-- The totals of a buffer that holds `s`: it retains at most its capacity, it counts every byte.
pub totals_of_Represents :
    (m : ℕ) (b : HeadTailBuffer) (s : List ℕ)
    → length s ≤ u64_max
    → Represents m b s
    → (total_bytes b ≡ length s)
      × (retained_bytes b ≤ m)
      × (retained_bytes b + b.omitted_bytes ≡ length s)
unfolding total_bytes retained_bytes saturating_add
totals_of_Represents m b s fit r =
    let rest : List ℕ = drop (m / 2) s in
    let facts : (length b.head ≡ min (m / 2) (length s))
        × (length b.tail ≡ length rest - (length rest - (m - m / 2)))
        × (length rest ≡ length s - m / 2) =
      (
        ap length r.head_lem ∙ length-take (m / 2) s,
        ap length r.tail_lem ∙ length-drop (length rest - (m - m / 2)) rest,
        length-drop (m / 2) s,
      ) in
    omega (arith, facts.0, facts.1, facts.2, r.omitted_lem)
