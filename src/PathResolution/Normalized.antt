-- ===== src/PathResolution/Normalized.antt =====
-- `resolve_path_normalized` (normalized.rs): parent segments are taken back before the path is
-- resolved.
use agent_pane.Prelude.{
  List, [], ◌∷◌, ◌++◌, Bool, ◌&&◌, not, Option, none, some, Text, codes, text_eq, starts_with,
  length, take, drop, is_empty, ◌==◌, if◌then◌else◌, on_some,
}
use agent_pane.Execution.{Result, ok, err, ◌>>=◌, ◌>>◌, invalid_path, root_not_found}
use agent_pane.Execution.Files.{ExecutionPath}
use agent_pane.Execution.Runtime.{ExecutionRoot, Descriptor}
use agent_pane.PathResolution.{
  preserve, eq_ignore_case, has_colon, slash_third, to_slashes, is_parent, split_parts, join_path,
  validate_cwd, base_parts, is_windows, resolve_path, or_dot,
}

-- `iter().find(|root| root.id == id)`
abbrev pub find_root : Text → List ExecutionRoot → Option ExecutionRoot
find_root id [] = none
find_root id (r ∷ rs) = if text_eq r.id id then some r else find_root id rs

-- A path of Windows that is relative to a drive, made relative or absolute.
unfoldable pub qualify : Bool → Text → Text → Result Text
unfolding starts_with codes eq_ignore_case
qualify windows base_prefix value =
    if windows && starts_with value (codes "/") && not (starts_with value (codes "//"))
    then ok (base_prefix ++ value)
    else if windows && has_colon value && not (slash_third value)
    then (if not (eq_ignore_case (take 2 value) base_prefix)
        then err invalid_path
        else ok (if length value == 2 then codes "." else drop 2 value))
    else ok value

-- `Vec::pop` and `Vec::push`
abbrev pub pop : List Text → List Text
pop [] = []
pop (p ∷ []) = []
pop (p ∷ q ∷ ps) = p ∷ pop (q ∷ ps)

unfoldable pub walk : List Text → List Text → List Text
unfolding text_eq codes
walk resolved [] = resolved
walk resolved (part ∷ parts) =
    walk (if is_parent part then pop resolved else resolved ++ part ∷ []) parts

unfoldable pub absolute : Text → List Text → Text
unfolding text_eq codes join_path
absolute prefix resolved =
    if text_eq prefix (codes "/")
    then b'/' ∷ join_path resolved
    else prefix ++ (b'/' ∷ join_path resolved)

-- The path that is resolved, from the root and the directory that it is relative to.
unfoldable pub lexical : Bool → Text → List Text → Text → Result Text
unfolding qualify split_parts walk absolute codes
lexical windows base_prefix base value =
    let slashed = if windows then to_slashes value else value in
    qualify windows base_prefix (or_dot slashed) >>= λ v.
    split_parts v windows preserve >>= λ (prefix, parts). ok (
      if is_empty prefix
      then absolute base_prefix (walk base parts)
      else absolute prefix (walk [] parts))

unfoldable pub resolve_path_normalized : Descriptor → ExecutionPath → Text → Result ExecutionPath
unfolding validate_cwd split_parts lexical resolve_path text_eq
resolve_path_normalized host cwd value =
    validate_cwd host cwd
    >> on_some (find_root cwd.root_id host.roots)
        (λ root. split_parts root.native_path (is_windows host) preserve >>= λ (base_prefix, base).
          lexical (is_windows host) base_prefix (base ++ base_parts cwd) value >>= λ path.
          resolve_path host cwd path)
        (err root_not_found)
