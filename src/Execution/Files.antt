-- ===== src/Execution/Files.antt =====
-- Paths, files and the requests on them (execution/packages/execution-core/src/filesystem.rs), and
-- the identifiers (ids.rs). Identifiers and revisions are texts.
use agent_pane.Prelude.{
  ap, text_eq_iff, ◌++◌, ◌≡◌, arith, ℕ, List, [], ◌∷◌, Bool, true, false, ◌&&◌, ◌||◌, not, Option,
  none, some, Text, codes, text_eq, trim, starts_with, is_empty, leb, ◌==◌, if◌then◌else◌,
}
use agent_pane.Execution.{Code, Result, ok, err, invalid_request, is_directory, unsupported}

abbrev pub contains : ℕ → Text → Bool
contains c [] = false
contains c (d ∷ s) = c == d || contains c s

pub contains-append :
    (c : ℕ) (s t : List ℕ)
    → contains c s ≡ false
    → contains c t ≡ false
    → contains c (s ++ t) ≡ false
contains-append c [] t h k = k
contains-append c (d ∷ s) t h k =
    let e : contains c (s ++ t) ≡ false = contains-append c s t (ground arith) k in ground arith

-- `OperationId::new`, as every identifier
unfoldable pub new_id : Text → Result Text
unfolding trim
new_id value = if is_empty (trim value) || contains 0 value then err invalid_request else ok value

pub record ExecutionPath : Type 0 where
  pub root_id : Text
  pub path : Text

-- `a == b` for paths
unfoldable pub path_eq : ExecutionPath → ExecutionPath → Bool
unfolding text_eq
path_eq p q = text_eq p.root_id q.root_id && text_eq p.path q.path

pub path_eq_lem : (p q : ExecutionPath) → path_eq p q ≡ true → p ≡ q
unfolding path_eq
path_eq_lem p q h =
    let e : p.root_id ≡ q.root_id = (text_eq_iff p.root_id q.root_id).0 (ground arith) in
    let f : p.path ≡ q.path = (text_eq_iff p.path q.path).0 (ground arith) in
    λ i. record { root_id = e i; path = f i }

-- `path.split('/')`
abbrev pub push_front : ℕ → List Text → List Text
push_front c [] = (c ∷ []) ∷ []
push_front c (l ∷ ls) = (c ∷ l) ∷ ls

unfoldable pub segments : Text → List Text
segments [] = [] ∷ []
segments (c ∷ s) = let rest = segments s in if c == b'/' then [] ∷ rest else push_front c rest

abbrev pub ends_with_slash : Text → Bool
ends_with_slash [] = false
ends_with_slash (c ∷ []) = c == b'/'
ends_with_slash (c ∷ d ∷ s) = ends_with_slash (d ∷ s)

abbrev pub plain_segments : List Text → Bool
plain_segments [] = true
plain_segments (s ∷ ss) =
    not (is_empty s || text_eq s (codes ".") || text_eq s (codes "..")) && plain_segments ss

-- The second byte is a colon: that of an ASCII character in front of it.
abbrev pub has_drive : Text → Bool
has_drive (c ∷ d ∷ s) = leb c 0x7f && d == b':'
has_drive _ = false

-- `ExecutionPath::validate` finds no issue.
unfoldable pub is_valid_path : ExecutionPath → Bool
unfolding segments trim starts_with text_eq codes
is_valid_path p =
    not (is_empty (trim p.path))
    && not (contains 0 p.path)
    && not (starts_with p.path (codes "/") || starts_with p.path (codes "\\"))
    && not (contains 0x5c p.path)
    && not (has_drive p.path)
    && (text_eq p.path (codes ".")
        || (not (ends_with_slash p.path) && plain_segments (segments p.path)))

pub data FileKind : Type 0 where
  file directory symlink other : FileKind

abbrev pub is_file : FileKind → Bool
is_file file = true
is_file _ = false

abbrev pub kind_error : FileKind → Code
kind_error directory = is_directory
kind_error _ = unsupported

abbrev pub has_revision : Text → Option Text → Bool
has_revision revision none = false
has_revision revision (some r) = text_eq r revision

pub has_revision_lem :
    (revision : Text) (o : Option Text) → has_revision revision o ≡ true → o ≡ some revision
has_revision_lem revision none h = absurd (cc)
has_revision_lem revision (some r) h = ap some ((text_eq_iff r revision).0 h)

pub record FileMetadata : Type 0 where
  pub path : ExecutionPath
  pub kind : FileKind
  pub size : ℕ
  pub modified_at : Option ℕ
  pub revision : Option Text

pub record StatRequest : Type 0 where
  pub path : ExecutionPath
  pub follow_symlinks : Bool

pub record ReadFileRequest : Type 0 where
  pub path : ExecutionPath
  pub offset : ℕ
  pub max_bytes : ℕ
  pub follow_symlinks : Bool

pub record ReadFileResult : Type 0 where
  pub metadata : FileMetadata
  pub data_bytes : List ℕ
  pub offset : ℕ
  pub eof : Bool

pub data WriteCondition : Type 0 where
  any must_not_exist : WriteCondition
  match_revision : Text → WriteCondition

pub data WriteStrategy : Type 0 where
  atomic_replace in_place : WriteStrategy

pub record WriteFileRequest : Type 0 where
  pub expected_generation : Option Text
  pub strategy : WriteStrategy
  pub operation_id : Text
  pub path : ExecutionPath
  pub data_bytes : List ℕ
  pub condition : WriteCondition
  pub create_parents : Bool
  pub follow_symlinks : Bool

pub record WriteFileResult : Type 0 where
  pub path : ExecutionPath
  pub existed : Bool
  pub revision : Text
  pub bytes_written : ℕ

pub data RemoveTargetKind : Type 0 where
  any file : RemoveTargetKind

pub record RemovePathRequest : Type 0 where
  pub target_kind : RemoveTargetKind
  pub expected_generation : Option Text
  pub operation_id : Text
  pub path : ExecutionPath
  pub recursive : Bool
  pub ignore_missing : Bool
  pub expected_revision : Option Text

pub record RemovePathResult : Type 0 where
  pub removed : Bool
