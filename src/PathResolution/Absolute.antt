-- ===== src/PathResolution/Absolute.antt =====
-- An absolute path (`resolve_path` of lib.rs): the root that it is resolved to, and the rest.
use agent_pane.Prelude.{
  ℕ, ◌<◌, List, [], ◌∷◌, ◌++◌, ◌≡◌, refl, Bool, true, false, ◌&&◌, Text, text_eq_iff, length, drop,
  if◌then◌else◌, arith, by_test, All, Picks, here, there,
}
use agent_pane.Execution.{ok}
use agent_pane.Execution.Post.{Post, returns, fails, Post-if, Post-bind, Post-self}
use agent_pane.Execution.Files.{ExecutionPath, is_valid_path}
use agent_pane.Execution.Runtime.{ExecutionRoot, Descriptor}
use agent_pane.PathResolution.{
  reject, parts, has_parts, same_prefix, Candidate, candidates, is_windows, new_path, or_dot,
  join_path, resolve_absolute,
}
use agent_pane.PathResolution.Parts.{split_parts-Post}
use agent_pane.PathResolution.Longest.{IsLongest, choose-IsLongest}

has_parts-append : (ps rs : List Text) → has_parts ps rs ≡ true → rs ++ drop (length rs) ps ≡ ps
unfolding has_parts
has_parts-append ps [] h = refl
has_parts-append [] (r ∷ rs) h = absurd (cc)
has_parts-append (p ∷ ps) (r ∷ rs) h = ground (arith, has_parts-append ps rs, text_eq_iff p r)

module _ (windows : Bool) (prefix : Text) (ps : List Text) where
  -- The components lie below those of the root.
  pub record LiesBelow (root : ExecutionRoot) (len : ℕ) : Type 0 where
    pub root_prefix : Text
    pub root_parts : List Text
    pub parts_lem : parts root.native_path windows ≡ ok (root_prefix, root_parts)
    pub prefix_lem : same_prefix windows prefix root_prefix ≡ true
    pub below : root_parts ++ drop len ps ≡ ps
    pub len_lem : len ≡ length root_parts

  -- The root is no candidate, or one with fewer components.
  pub record IsShorter (len : ℕ) (root : ExecutionRoot) : Type 0 where
    pub root_prefix : Text
    pub root_parts : List Text
    pub parts_lem : parts root.native_path windows ≡ ok (root_prefix, root_parts)
    pub shorter :
        (same_prefix windows prefix root_prefix && has_parts ps root_parts) ≡ true
        → length root_parts < len

  data AreCandidates : List ExecutionRoot → List Candidate → Type 0 where
    ends : AreCandidates [] []
    takes :
        (root : ExecutionRoot) (roots : List ExecutionRoot) (root_prefix : Text)
        (root_parts : List Text) (cs : List Candidate)
        → parts root.native_path windows ≡ ok (root_prefix, root_parts)
        → (same_prefix windows prefix root_prefix && has_parts ps root_parts) ≡ true
        → AreCandidates roots cs
        → AreCandidates (root ∷ roots) (record { root = root; len = length root_parts } ∷ cs)
    passes :
        (root : ExecutionRoot) (roots : List ExecutionRoot) (root_prefix : Text)
        (root_parts : List Text) (cs : List Candidate)
        → parts root.native_path windows ≡ ok (root_prefix, root_parts)
        → (same_prefix windows prefix root_prefix && has_parts ps root_parts) ≡ false
        → AreCandidates roots cs
        → AreCandidates (root ∷ roots) cs

  -- Every other root is shorter, or no candidate.
  pub record Chosen (roots : List ExecutionRoot) (c : Candidate) : Type 0 where
    pub others : List ExecutionRoot
    pub picks : Picks c.root roots others
    pub shorter : All (IsShorter c.len) others
    pub lies : LiesBelow c.root c.len

  All-IsShorter :
      (len : ℕ) (roots : List ExecutionRoot) (cs : List Candidate)
      → AreCandidates roots cs
      → All (λ d. d.len < len) cs
      → All (IsShorter len) roots
  All-IsShorter len [] cs ends h = tt
  All-IsShorter len (root ∷ roots) cs (takes _ _ rp rps ds e t a) (h, hs) = (
    record { root_prefix = rp; root_parts = rps; parts_lem = e; shorter = λ t. h },
    All-IsShorter len roots ds a hs,
  )
  All-IsShorter len (root ∷ roots) cs (passes _ _ rp rps ds e t a) h = (
    record { root_prefix = rp; root_parts = rps; parts_lem = e; shorter = λ u. absurd (cc) },
    All-IsShorter len roots ds a h,
  )

  taken-LiesBelow :
      (root : ExecutionRoot) (rp : Text) (rps : List Text)
      → parts root.native_path windows ≡ ok (rp, rps)
      → (same_prefix windows prefix rp && has_parts ps rps) ≡ true
      → LiesBelow root (length rps)
  taken-LiesBelow root rp rps e t = record {
    root_prefix = rp;
    root_parts = rps;
    parts_lem = e;
    prefix_lem = ground arith;
    below = has_parts-append ps rps (ground arith);
    len_lem = refl;
  }

  nothing : {c : Candidate} {others : List Candidate} → Picks c [] others → ⊥
  nothing p = elim p [ ]

  picked :
      (roots : List ExecutionRoot) (cs others : List Candidate) (c : Candidate)
      → AreCandidates roots cs
      → Picks c cs others
      → All (λ d. d.len < c.len) others
      → Chosen roots c
  picked [] cs others c ends p h = absurd (nothing p)
  picked (root ∷ roots) cs others c (takes _ _ rp rps ds e t a) (here _) h = record {
    others = roots;
    picks = here roots;
    shorter = All-IsShorter (length rps) roots ds a h;
    lies = taken-LiesBelow root rp rps e t;
  }
  picked (root ∷ roots) cs others c (takes _ _ rp rps ds e t a) (there _ _ os p) (h, hs) =
      let rest : Chosen roots c = picked roots ds os c a p hs in
      record {
        others = root ∷ rest.others;
        picks = there root roots rest.others rest.picks;
        shorter = (
          record { root_prefix = rp; root_parts = rps; parts_lem = e; shorter = λ t. h },
          rest.shorter,
        );
        lies = rest.lies;
      }
  picked (root ∷ roots) cs others c (passes _ _ rp rps ds e t a) p h =
      let rest : Chosen roots c = picked roots ds others c a p h in
      record {
        others = root ∷ rest.others;
        picks = there root roots rest.others rest.picks;
        shorter = (
          record { root_prefix = rp; root_parts = rps; parts_lem = e; shorter = λ u. absurd (cc) },
          rest.shorter,
        );
        lies = rest.lies;
      }

  candidates-Post :
      (roots : List ExecutionRoot) → Post (AreCandidates roots) (candidates windows prefix ps roots)
  unfolding candidates
  candidates-Post [] = returns [] ends
  candidates-Post (root ∷ roots) =
      Post-bind (λ r. parts root.native_path windows ≡ ok r) (AreCandidates (root ∷ roots)) _ _
        (Post-self (λ r. Unit {0}) (parts root.native_path windows)
          (unfold parts in split_parts-Post root.native_path windows reject))
        (λ (rp, rps) e.
          Post-bind (AreCandidates roots) (AreCandidates (root ∷ roots)) _ _ (candidates-Post roots)
            (λ cs a. returns _ (added rp rps cs e a)))
    where
      added :
          (rp : Text) (rps : List Text) (cs : List Candidate)
          → parts root.native_path windows ≡ ok (rp, rps)
          → AreCandidates roots cs
          → AreCandidates (root ∷ roots) (
              if same_prefix windows prefix rp && has_parts ps rps
              then record { root = root; len = length rps } ∷ cs
              else cs)
      added rp rps cs e a =
          by_test (AreCandidates (root ∷ roots)) (same_prefix windows prefix rp && has_parts ps rps)
            _ cs (λ t. takes root roots rp rps cs e t a) (λ t. passes root roots rp rps cs e t a)

-- What an absolute path is resolved to.
pub record ResolvesTo (host : Descriptor) (prefix : Text) (ps : List Text) (p : ExecutionPath)
    : Type 0 where
  pub root : Candidate
  pub chosen : Chosen (is_windows host) prefix ps host.roots root
  pub path_lem : p ≡ record { root_id = root.root.id; path = or_dot (join_path (drop root.len ps)) }
  pub valid : is_valid_path p ≡ true

-- An absolute path resolves to the one root that it lies below with the most components, with the
-- rest of its components as a valid path below it, or it is refused. Every other root has fewer
-- components, or the path does not lie below it; the components of the root and the rest are those of
-- the path.
pub resolve_absolute-ResolvesTo :
    (host : Descriptor) (prefix : Text) (ps : List Text)
    → Post (ResolvesTo host prefix ps) (resolve_absolute host prefix ps)
unfolding resolve_absolute new_path
resolve_absolute-ResolvesTo host prefix ps =
    let w : Bool = is_windows host in
    Post-bind (AreCandidates w prefix ps host.roots) (ResolvesTo host prefix ps) _ _
      (candidates-Post w prefix ps host.roots)
      (λ cs a.
        Post-bind (IsLongest cs) (ResolvesTo host prefix ps) _ _ (choose-IsLongest cs)
          (λ c (others, p, h).
            Post-if (ResolvesTo host prefix ps)
              (is_valid_path
                (record { root_id = c.root.id; path = or_dot (join_path (drop c.len ps)) }))
              _ _
              (λ b. returns _ (record {
                root = c;
                chosen = picked w prefix ps host.roots cs others c a p h;
                path_lem = refl;
                valid = b;
              }))
              (λ b. fails _)))
