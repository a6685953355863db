-- ===== src/PathResolution/Tests.antt =====
-- Runs of the resolution of paths, and its theorems at concrete inputs.
use agent_pane.Prelude.{
  [], ◌∷◌, ◌≡◌, refl, true, false, none, codes, text_eq, trim, starts_with, strip_prefix,
}
use agent_pane.Execution.{ok, err, invalid_path}
use agent_pane.Execution.Post.{Post}
use agent_pane.Execution.Files.{ExecutionPath, is_valid_path, segments}
use agent_pane.Execution.Runtime.{Descriptor, PathConvention}
use agent_pane.PathResolution.{has_root, resolve_absolute, resolve_path}
use agent_pane.PathResolution.Normalized.{resolve_path_normalized}
use agent_pane.PathResolution.Absolute.{ResolvesTo, resolve_absolute-ResolvesTo}
use agent_pane.PathResolution.Rooted.{IsRooted, resolve_path-IsRooted}
use agent_pane.PathResolution.RoundTrip.{resolve_path-id}

abbrev two_roots : Descriptor
two_roots = record {
  host_id = codes "h";
  supervisor_generation_id = codes "g";
  path_convention = PathConvention.unix;
  roots =
      record { id = codes "w"; name = codes "w"; native_path = codes "/w"; read_only = false }
      ∷ record { id = codes "d"; name = codes "d"; native_path = codes "/w/d"; read_only = false }
      ∷ [];
  max_read_bytes = none;
  max_write_bytes = none;
}

abbrev cwd : ExecutionPath
cwd = record { root_id = codes "w"; path = codes "a" }

abbrev deep : ExecutionPath
deep = record { root_id = codes "d"; path = codes "x/y" }

resolves_deep : resolve_path two_roots cwd (codes "/w/d/./x//y") ≡ ok deep
unfolding resolve_path codes text_eq trim starts_with strip_prefix
resolves_deep = refl

refuses_parents : resolve_path two_roots cwd (codes "../b") ≡ err invalid_path
unfolding resolve_path codes text_eq trim starts_with strip_prefix
refuses_parents = refl

normalizes_parents : resolve_path_normalized two_roots cwd (codes "../d/x/z/../y") ≡ ok deep
unfolding resolve_path_normalized codes text_eq trim starts_with strip_prefix
normalizes_parents = refl

resolve_absolute-ResolvesTo_example :
    Post
      (ResolvesTo two_roots (codes "/") (codes "w" ∷ codes "x" ∷ []))
      (resolve_absolute two_roots (codes "/") (codes "w" ∷ codes "x" ∷ []))
resolve_absolute-ResolvesTo_example =
    resolve_absolute-ResolvesTo two_roots (codes "/") (codes "w" ∷ codes "x" ∷ [])

resolve_path-IsRooted_example :
    Post (IsRooted two_roots) (resolve_path two_roots cwd (codes "/w/d/x"))
resolve_path-IsRooted_example = resolve_path-IsRooted two_roots cwd (codes "/w/d/x")

deep_is_valid : is_valid_path deep ≡ true
unfolding is_valid_path codes text_eq trim starts_with segments
deep_is_valid = refl

deep_is_advertised : has_root deep.root_id two_roots.roots ≡ true
unfolding codes text_eq
deep_is_advertised = refl

resolve_path-id_example :
    resolve_path two_roots (record { root_id = codes "d"; path = codes "." }) (codes "x/y")
    ≡ ok deep
resolve_path-id_example = resolve_path-id two_roots deep refl deep_is_valid deep_is_advertised
