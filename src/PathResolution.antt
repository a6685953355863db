-- ===== src/PathResolution.antt =====
-- The paths of the filesystem tools (platform/packages/tools/filesystem/src: lib.rs and
-- normalized.rs): what a model writes as a path, resolved against the roots that a host advertises,
-- without a look at the file system.
pub mod Normalized
pub mod Longest
pub mod Parts
pub mod Absolute
pub mod Rooted
pub mod RoundTrip
mod Tests
use agent_pane.Prelude.{
  ℕ, ◌+◌, ◌-◌, List, [], ◌∷◌, ◌++◌, map, Bool, true, false, ◌&&◌, ◌||◌, not, Option, none, some,
  Text, codes, text_eq, strip_prefix, starts_with, length, take, drop, is_empty, leb, ◌==◌,
  if◌then◌else◌, on_some,
}
use agent_pane.Execution.{
  Result, ok, err, ◌>>=◌, ◌>>◌, invalid_request, invalid_path, root_not_found, path_outside_root,
}
use agent_pane.Execution.Files.{ExecutionPath, is_valid_path, segments, contains}
use agent_pane.Execution.Runtime.{ExecutionRoot, Descriptor, PathConvention}

pub data ParentSegments : Type 0 where
  reject preserve : ParentSegments

abbrev is_reject : ParentSegments → Bool
is_reject reject = true
is_reject preserve = false

-- `u8::is_ascii_alphabetic` and `eq_ignore_ascii_case`
abbrev pub is_alphabetic : ℕ → Bool
is_alphabetic c = (leb b'A' c && leb c b'Z') || (leb b'a' c && leb c b'z')

abbrev to_lowercase : ℕ → ℕ
to_lowercase c = if leb b'A' c && leb c b'Z' then c + 32 else c

unfoldable pub eq_ignore_case : Text → Text → Bool
unfolding text_eq
eq_ignore_case s t = text_eq (map to_lowercase s) (map to_lowercase t)

-- The first bytes are a character and a colon; where the second byte is a colon, the first is a
-- character of ASCII.
abbrev pub has_colon : Text → Bool
has_colon (c ∷ d ∷ s) = leb c 0x7f && d == b':'
has_colon _ = false

abbrev pub first_alphabetic : Text → Bool
first_alphabetic [] = false
first_alphabetic (c ∷ s) = is_alphabetic c

-- The third byte behind such a pair is a slash.
abbrev pub slash_third : Text → Bool
slash_third (c ∷ d ∷ e ∷ s) = e == b'/'
slash_third _ = false

abbrev pub to_slashes : Text → Text
to_slashes = map (λ c. if c == 0x5c then b'/' else c)

-- `//?/`, where it is a drive or a share.
unfoldable pub device_path : Text → Result Text
unfolding strip_prefix codes eq_ignore_case
device_path value =
    on_some (strip_prefix value (codes "//?/"))
      (λ tail.
        if eq_ignore_case (take 4 tail) (codes "UNC/")
        then ok (codes "//" ++ drop 4 tail)
        else if first_alphabetic tail && has_colon tail && slash_third tail
        then ok tail
        else err invalid_path)
      (ok value)

-- `splitn` at the first slash: what stands in front of it, and what behind it, if there is one.
abbrev with_front : ℕ → Text × Option Text → Text × Option Text
with_front c (front, behind) = (c ∷ front, behind)

unfoldable pub split_slash : Text → Text × Option Text
split_slash [] = ([], none)
split_slash (c ∷ s) =
    let rest = split_slash s in if c == b'/' then ([], some s) else with_front c rest

abbrev or_empty : Option Text → Text
or_empty none = []
or_empty (some s) = s

abbrev is_reserved : Text → Bool
is_reserved s =
    text_eq s (codes ".") || text_eq s (codes "..") || text_eq s (codes "?") || contains b':' s

-- `//server/share` and what stands behind.
unfoldable pub share_path : Text → Result (Text × Text)
unfolding split_slash text_eq codes
share_path tail =
    let server = (split_slash tail).0 in
    let behind = split_slash (or_empty (split_slash tail).1) in
    let share = behind.0 in
    if is_empty server || is_empty share || is_reserved server || is_reserved share
    then err invalid_path
    else ok (codes "//" ++ (server ++ (b'/' ∷ share)), or_empty behind.1)

unfoldable pub split_prefix : Bool → Text → Result (Text × Text)
unfolding share_path strip_prefix starts_with codes
split_prefix windows value =
    if windows && starts_with value (codes "//")
    then share_path (drop 2 value)
    else if windows && has_colon value
    then (if not (first_alphabetic value) || not (slash_third value)
        then err invalid_path
        else ok (take 2 value, drop 3 value))
    else on_some (strip_prefix value (codes "/"))
        (λ tail. if windows then err invalid_path else ok (codes "/", tail)) (ok ([], value))

abbrev ends_badly : Text → Bool
ends_badly [] = false
ends_badly (c ∷ []) = c == b'.' || c == 0x20
ends_badly (c ∷ d ∷ s) = ends_badly (d ∷ s)

abbrev is_parent : Text → Bool
is_parent part = text_eq part (codes "..")

-- The loop over the components.
unfoldable pub components : ParentSegments → Bool → List Text → Result (List Text)
unfolding text_eq codes
components parents windows [] = ok []
components parents windows (part ∷ parts) =
    let rest = components parents windows parts in
    if is_parent part && is_reject parents
    then err invalid_path
    else if is_empty part || text_eq part (codes ".")
    then rest
    else if windows && not (is_parent part) && (contains b':' part || ends_badly part)
    then err invalid_path
    else (rest >>= λ ps. ok (part ∷ ps))

unfoldable pub split_parts : Text → Bool → ParentSegments → Result (Text × List Text)
unfolding device_path split_prefix components segments
split_parts value windows parents =
    if is_empty value || contains 0 value
    then err invalid_path
    else ((if windows then device_path (to_slashes value) else ok value) >>= λ v.
        split_prefix windows v >>= λ (prefix, tail).
        components parents windows (segments tail) >>= λ ps. ok (prefix, ps))

unfoldable pub parts : Text → Bool → Result (Text × List Text)
unfolding split_parts
parts value windows = split_parts value windows reject

-- `[..].join("/")`
unfoldable pub join_path : List Text → Text
join_path [] = []
join_path (p ∷ []) = p
join_path (p ∷ q ∷ ps) = p ++ (b'/' ∷ join_path (q ∷ ps))

-- `[..].starts_with(..)` on lists of components
unfoldable pub has_parts : List Text → List Text → Bool
unfolding text_eq
has_parts ps [] = true
has_parts [] (r ∷ rs) = false
has_parts (p ∷ ps) (r ∷ rs) = text_eq p r && has_parts ps rs

-- `validate_cwd`
abbrev pub has_root : Text → List ExecutionRoot → Bool
has_root id [] = false
has_root id (r ∷ rs) = text_eq r.id id || has_root id rs

unfoldable pub validate_cwd : Descriptor → ExecutionPath → Result (Unit {0})
unfolding is_valid_path text_eq
validate_cwd host p =
    if is_valid_path p
    then (if has_root p.root_id host.roots then ok tt else err root_not_found)
    else err invalid_request

-- `ExecutionPath::new`, its error converted
unfoldable pub new_path : Text → Text → Result ExecutionPath
unfolding is_valid_path
new_path root_id path =
    if is_valid_path (record { root_id = root_id; path = path })
    then ok (record { root_id = root_id; path = path })
    else err invalid_request

abbrev pub or_dot : Text → Text
or_dot path = if is_empty path then codes "." else path

-- The components of a path below its root.
abbrev pub base_parts : ExecutionPath → List Text
base_parts cwd = if text_eq cwd.path (codes ".") then [] else segments cwd.path

abbrev windows_convention : PathConvention → Bool
windows_convention PathConvention.windows = true
windows_convention PathConvention.unix = false

abbrev pub is_windows : Descriptor → Bool
is_windows host = windows_convention host.path_convention

-- A root with the number of its components.
pub record Candidate : Type 0 where
  pub root : ExecutionRoot
  pub len : ℕ

abbrev pub same_prefix : Bool → Text → Text → Bool
same_prefix windows prefix root_prefix =
    if windows then eq_ignore_case prefix root_prefix else text_eq prefix root_prefix

-- The roots that the components lie below.
unfoldable pub candidates : Bool → Text → List Text → List ExecutionRoot → Result (List Candidate)
unfolding parts has_parts eq_ignore_case text_eq
candidates windows prefix ps [] = ok []
candidates windows prefix ps (root ∷ roots) =
    parts root.native_path windows >>= λ (root_prefix, root_parts).
    candidates windows prefix ps roots >>= λ cs. ok (
      if same_prefix windows prefix root_prefix && has_parts ps root_parts
      then record { root = root; len = length root_parts } ∷ cs
      else cs)

-- `sort_by_key` from the longest on, which is stable.
unfoldable pub insert_longest : Candidate → List Candidate → List Candidate
insert_longest c [] = c ∷ []
insert_longest c (d ∷ ds) =
    let rest = insert_longest c ds in if leb d.len c.len then c ∷ d ∷ ds else d ∷ rest

unfoldable pub sort_longest : List Candidate → List Candidate
unfolding insert_longest
sort_longest [] = []
sort_longest (c ∷ cs) = insert_longest c (sort_longest cs)

-- The first candidate, unless the second is as long.
unfoldable pub choose : List Candidate → Result Candidate
choose [] = err path_outside_root
choose (c ∷ []) = ok c
choose (c ∷ d ∷ ds) = if d.len == c.len then err invalid_path else ok c

unfoldable pub resolve_absolute : Descriptor → Text → List Text → Result ExecutionPath
unfolding candidates sort_longest choose join_path new_path
resolve_absolute host prefix ps = candidates (is_windows host) prefix ps host.roots >>= λ cs.
    choose (sort_longest cs) >>= λ c. new_path c.root.id (or_dot (join_path (drop c.len ps)))

unfoldable pub resolve_path : Descriptor → ExecutionPath → Text → Result ExecutionPath
unfolding validate_cwd parts join_path new_path resolve_absolute
resolve_path host cwd value =
    validate_cwd host cwd
    >> (parts value (is_windows host) >>= λ (prefix, ps).
        if is_empty prefix
        then new_path cwd.root_id (or_dot (join_path (base_parts cwd ++ ps)))
        else resolve_absolute host prefix ps)
