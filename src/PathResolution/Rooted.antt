-- ===== src/PathResolution/Rooted.antt =====
-- The results of `resolve_path` (lib.rs) and `resolve_path_normalized` (normalized.rs): where they
-- can lie.
use agent_pane.Prelude.{
  List, [], ◌∷◌, ◌++◌, ◌≡◌, ◌≢◌, Bool, true, Bool-cases, inl, inr, Text, codes, text_eq,
  text_eq_iff, text_eq_refl, if◌then◌else◌, arith, All, Picks, here, there, is_empty,
}
use agent_pane.Execution.{Code, ok, err}
use agent_pane.Execution.Post.{Post, returns, fails, Post-if, Post-bind, Post-option, Post-imp}
use agent_pane.Execution.Files.{ExecutionPath, is_valid_path, segments, plain_segments}
use agent_pane.Execution.Runtime.{ExecutionRoot, Descriptor}
use agent_pane.PathResolution.{
  reject, preserve, parts, has_root, validate_cwd, new_path, resolve_path, is_windows, to_slashes,
  or_dot, join_path, base_parts,
}
use agent_pane.PathResolution.Normalized.{find_root, qualify, lexical, resolve_path_normalized}
use agent_pane.PathResolution.Parts.{split_parts-Post}
use agent_pane.PathResolution.Absolute.{ResolvesTo, resolve_absolute-ResolvesTo}

-- A valid path without parent segments below a root that the host advertises.
pub record IsRooted (host : Descriptor) (p : ExecutionPath) : Type 0 where
  pub valid : is_valid_path p ≡ true
  pub confined : All (λ s. s ≢ codes "..") (segments p.path)
  pub advertised : has_root p.root_id host.roots ≡ true

plain-All : (ss : List Text) → plain_segments ss ≡ true → All (λ s. s ≢ codes "..") ss
plain-All [] h = tt
plain-All (s ∷ ss) h =
    (λ e. absurd (ground (arith, text_eq_iff s (codes ".."))), plain-All ss (ground arith))

dot-All : All (λ s. s ≢ codes "..") (segments (codes "."))
unfolding segments codes
dot-All = (λ e. absurd (cc), tt)

valid-confined :
    (p : ExecutionPath) → is_valid_path p ≡ true → All (λ s. s ≢ codes "..") (segments p.path)
unfolding is_valid_path
valid-confined p h = elim (Bool-cases (text_eq p.path (codes "."))) [
  | inl e ↦ let e2 : p.path ≡ codes "." = (text_eq_iff p.path (codes ".")).0 e in rw e2 dot-All
  | inr e ↦ plain-All (segments p.path) (ground arith)
]

Picks-has_root :
    (r : ExecutionRoot) (roots others : List ExecutionRoot)
    → Picks r roots others
    → has_root r.id roots ≡ true
Picks-has_root r [] others p = elim p [ ]
Picks-has_root r (_ ∷ roots) others (here _) =
    let e : text_eq r.id r.id ≡ true = text_eq_refl r.id in ground arith
Picks-has_root r (q ∷ roots) (_ ∷ others) (there _ _ _ p) =
    let e : has_root r.id roots ≡ true = Picks-has_root r roots others p in ground arith

module _ (host : Descriptor) where
  pub validate_cwd-Post :
      (cwd : ExecutionPath)
      → Post
          (λ u. (is_valid_path cwd ≡ true) × (has_root cwd.root_id host.roots ≡ true))
          (validate_cwd host cwd)
  unfolding validate_cwd
  validate_cwd-Post cwd =
      Post-if _ (is_valid_path cwd) _ _
        (λ v.
          Post-if _ (has_root cwd.root_id host.roots) _ _ (λ e. returns tt (v, e)) (λ e. fails _))
        (λ v. fails _)

  new_path-Post :
      (id path : Text) → has_root id host.roots ≡ true → Post (IsRooted host) (new_path id path)
  unfolding new_path
  new_path-Post id path h =
      let p : ExecutionPath = record { root_id = id; path = path } in
      Post-if _ (is_valid_path p) _ _
        (λ v. returns p (record { valid = v; confined = valid-confined p v; advertised = h }))
        (λ v. fails _)

  absolute-IsRooted :
      (prefix : Text) (ps : List Text) (p : ExecutionPath)
      → ResolvesTo host prefix ps p
      → IsRooted host p
  absolute-IsRooted prefix ps p h =
      let e : p.root_id ≡ h.root.root.id = rw h.path_lem in
      record {
        valid = h.valid;
        confined = valid-confined p h.valid;
        advertised = rw e (Picks-has_root h.root.root host.roots h.chosen.others h.chosen.picks);
      }

  lexical-Post :
      (windows : Bool) (base_prefix : Text) (base : List Text) (value : Text)
      → Post (λ path. Unit {0}) (lexical windows base_prefix base value)
  unfolding lexical qualify
  lexical-Post windows base_prefix base value =
      let slashed : Text = if windows then to_slashes value else value in
      let found : Post (λ v. Unit {0}) (qualify windows base_prefix (or_dot slashed)) =
        search (Post-if, qualified, refused) depth 8 in
      Post-bind _ _ _ _ found (λ v _.
        Post-bind _ _ _ _ (split_parts-Post v windows preserve) (λ (prefix, ps) _. returns _ tt))
    where
      qualified : (v : Text) → Post (λ path. Unit {0}) (ok v)
      qualified v = returns v tt

      refused : (e : Code) → Post {A = Text} (λ path. Unit {0}) (err e)
      refused e = fails e

  -- A path that a model writes resolves to a valid path below an advertised root, without a parent
  -- segment, or it is refused; there is no panic.
  pub resolve_path-IsRooted :
      (cwd : ExecutionPath) (value : Text) → Post (IsRooted host) (resolve_path host cwd value)
  unfolding resolve_path parts
  resolve_path-IsRooted cwd value = Post-bind _ _ _ _ (validate_cwd-Post cwd) (λ u (v, h).
      Post-bind _ _ _ _ (split_parts-Post value (is_windows host) reject) (λ (prefix, ps) _.
        Post-if _ (is_empty prefix) _ _
          (λ e. new_path-Post cwd.root_id (or_dot (join_path (base_parts cwd ++ ps))) h)
          (λ e.
            Post-imp (ResolvesTo host prefix ps) (IsRooted host) _ (absolute-IsRooted prefix ps)
              (resolve_absolute-ResolvesTo host prefix ps))))

  -- Where parent segments are taken back first, a path also resolves to a valid path below an
  -- advertised root, without a parent segment, or it is refused; there is no panic.
  pub resolve_path_normalized-IsRooted :
      (cwd : ExecutionPath) (value : Text)
      → Post (IsRooted host) (resolve_path_normalized host cwd value)
  unfolding resolve_path_normalized
  resolve_path_normalized-IsRooted cwd value =
      Post-bind _ _ _ _ (validate_cwd-Post cwd) (λ u (v, h).
        Post-option _ (find_root cwd.root_id host.roots) _ _
          (λ root e.
            Post-bind _ _ _ _ (split_parts-Post root.native_path (is_windows host) preserve)
              (λ (base_prefix, base) _.
                Post-bind _ _ _ _
                  (lexical-Post (is_windows host) base_prefix (base ++ base_parts cwd) value)
                  (λ path _. resolve_path-IsRooted cwd path)))
          (fails _))
