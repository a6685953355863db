-- ===== src/PathResolution/Longest.antt =====
-- The choice among the candidates (`resolve_path` of lib.rs): the longest one, unless it is not alone.
use agent_pane.Prelude.{
  ◌≤◌, ◌<◌, List, [], ◌∷◌, ◌≡◌, ◌≢◌, refl, sym, leb, ◌==◌, arith, by_test, All, All-imp, Picks,
  here, there,
}
use mathlib.Core.Path.{subst}
use agent_pane.Execution.Post.{Post, returns, fails, Post-if}
use agent_pane.PathResolution.{Candidate, insert_longest, sort_longest, choose}

abbrev NoTie : Candidate → List Candidate → Type 0
NoTie c [] = Unit
NoTie c (d ∷ ds) = d.len ≢ c.len

-- A candidate that is longer than all others.
abbrev pub IsLongest : List Candidate → Candidate → Type 0
IsLongest cs c = (others : List Candidate) × Picks c cs others × All (λ d. d.len < c.len) others

-- What the first of the sorted list says of the list.
abbrev Front : List Candidate → List Candidate → Type 0
Front [] cs = cs ≡ []
Front (s ∷ ss) cs = All (λ d. d.len ≤ s.len) cs × (NoTie s ss → IsLongest cs s)

NoTie-insert :
    (s c : Candidate) (ss : List Candidate)
    → c.len < s.len
    → NoTie s (insert_longest c ss)
    → NoTie s ss
unfolding insert_longest
NoTie-insert s c [] h n = tt
NoTie-insert s c (z ∷ zs) h n =
    by_test (λ r. NoTie s r → z.len ≢ s.len) (leb z.len c.len) (c ∷ z ∷ zs)
      (z ∷ insert_longest c zs) (λ b m e. absurd (ground arith)) (λ b m. m) n

insert_longest-Front :
    (c : Candidate) (ss cs : List Candidate) → Front ss cs → Front (insert_longest c ss) (c ∷ cs)
unfolding insert_longest
insert_longest-Front c [] cs e =
    subst (λ r. Front (c ∷ []) (c ∷ r)) (sym e) ((omega arith, tt), (λ n. ([], here [], tt)))
insert_longest-Front c (s ∷ ss) cs (below, alone) =
    by_test (λ r. Front r (c ∷ cs)) (leb s.len c.len) (c ∷ s ∷ ss) (s ∷ insert_longest c ss)
      (λ b.
        let le : s.len ≤ c.len = ground arith in
        (
          (omega arith, All-imp _ (λ d. d.len ≤ c.len) cs (λ d h. omega arith) below),
          (λ n. (cs, here cs, All-imp _ (λ d. d.len < c.len) cs (λ d h. ground arith) below)),
        ))
      (λ b.
        let lt : c.len < s.len = ground arith in
        (
          (omega arith, below),
          (λ n.
              let (others, p, h) = alone (NoTie-insert s c ss lt n) in
              (c ∷ others, there c cs others p, (lt, h))),
        ))

sort_longest-Front : (cs : List Candidate) → Front (sort_longest cs) cs
unfolding sort_longest
sort_longest-Front [] = refl
sort_longest-Front (c ∷ cs) = insert_longest-Front c (sort_longest cs) cs (sort_longest-Front cs)

choose-Front : (ss cs : List Candidate) → Front ss cs → Post (IsLongest cs) (choose ss)
unfolding choose
choose-Front [] cs e = fails _
choose-Front (c ∷ []) cs (below, alone) = returns c (alone tt)
choose-Front (c ∷ d ∷ ds) cs (below, alone) =
    Post-if (IsLongest cs) (d.len == c.len) _ _ (λ b. fails _)
      (λ b. returns c (alone (ground arith)))

pub choose-IsLongest : (cs : List Candidate) → Post (IsLongest cs) (choose (sort_longest cs))
choose-IsLongest cs = choose-Front (sort_longest cs) cs (sort_longest-Front cs)
