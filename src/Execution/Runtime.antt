-- ===== src/Execution/Runtime.antt =====
-- The runtime that the tools call (`ExecutionRuntime`), as an interface: a state of the host, and the
-- operations on it, which can reply in any way.
pub mod Post
pub mod Sends
pub mod Counting
pub mod Pieces
use agent_pane.Prelude.{
  ℕ, List, [], ◌∷◌, Bool, true, false, ◌&&◌, ◌||◌, Option, none, some, Text, text_eq,
}
use agent_pane.Prelude.Machine.{u64_max}
use agent_pane.Execution.{Code, Result, ok, err, panic}
use agent_pane.Execution.Files.{
  StatRequest, FileMetadata, ReadFileRequest, ReadFileResult, WriteFileRequest, WriteFileResult,
  RemovePathRequest, RemovePathResult,
}

pub data PathConvention : Type 0 where
  unix windows : PathConvention

pub record ExecutionRoot : Type 0 where
  pub id : Text
  pub name : Text
  pub native_path : Text
  pub read_only : Bool

-- A root of that name is read-only.
abbrev pub has_read_only : Text → List ExecutionRoot → Bool
has_read_only id [] = false
has_read_only id (r ∷ rs) = (text_eq r.id id && r.read_only) || has_read_only id rs

-- What the tools read of `ExecutionHostDescriptor`.
pub record Descriptor : Type 0 where
  pub host_id : Text
  pub supervisor_generation_id : Text
  pub path_convention : PathConvention
  pub roots : List ExecutionRoot
  pub max_read_bytes : Option ℕ
  pub max_write_bytes : Option ℕ

-- A limit, where the host has one.
abbrev pub or_max : Option ℕ → ℕ
or_max none = u64_max
or_max (some n) = n

-- The reply of a host: a value or an error.
pub data Reply (A : Type 0) : Type 0 where
  replied : A → Reply A
  failed : Code → Reply A

abbrev pub to_result : {A : Type 0} → Reply A → Result A
to_result (replied a) = ok a
to_result (failed e) = err e

-- `from_utf8` and `into_bytes` are `String`'s.
pub record Runtime (World : Type 0) : Type 0 where
  pub descriptor : Descriptor
  pub checkpoint : World → World × Reply (Unit {0})
  pub stat : StatRequest → World → World × Reply FileMetadata
  pub read : ReadFileRequest → World → World × Reply ReadFileResult
  pub write : WriteFileRequest → World → World × Reply WriteFileResult
  pub remove : RemovePathRequest → World → World × Reply RemovePathResult
  pub from_utf8 : List ℕ → Option Text
  pub into_bytes : Text → List ℕ

-- A computation on the host.
abbrev pub Io : Type 0 → Type 0 → Type 0
Io World A = World → World × Result A

module _ {World : Type 0} where
  unfoldable pub pure : {A : Type 0} → Result A → Io World A
  pure r w = (w, r)

  unfoldable pub call : {A : Type 0} → (World → World × Reply A) → Io World A
  call f w = let (v, r) = f w in (v, to_result r)

  abbrev pub continue : {A B : Type 0} → (A → Io World B) → World × Result A → World × Result B
  continue f (w, ok a) = f a w
  continue f (w, err e) = (w, err e)
  continue f (w, panic) = (w, panic)

  infixl 5 ◌>>=◌
  unfoldable pub ◌>>=◌ : {A B : Type 0} → Io World A → (A → Io World B) → Io World B
  (m >>= f) w = continue f (m w)
