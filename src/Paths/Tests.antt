-- ===== src/Paths/Tests.antt =====
-- Paths at concrete inputs.
use Prim.Native.String
use Prim.Native.String.{String, len, slice}
use text.Mathlib.Text.{◌==◌ as str_eq, starts_with}
use dh_kit.Kit.{◌≡◌, refl, some, none, if◌then◌else◌}
use dh_kit.Paths.{
  PathModule, normalize_to_repo_relative_path, to_repo_relative_path, is_path_within_workspace,
}

-- Paths without dots, where a directory ends in a slash; a path below no common directory is absolute.
abbrev pub toy_relative : String → String → String
toy_relative from to =
    if starts_with to from then slice to (len from) (len to) else String.◌++◌ "/" to

abbrev pub toy_paths : PathModule
toy_paths = record {
  resolve = λ p. p;
  join = λ root p. String.◌++◌ root p;
  relative = toy_relative;
  is_absolute = λ p. starts_with p "/";
  posix_normalize = λ p. p;
  replace_backslashes = λ p. p;
  strip_dot_slash = λ p. if str_eq p "./src/a.ts" then "src/a.ts" else p;
  trim = λ p. p;
}

kept_path : normalize_to_repo_relative_path toy_paths "/r/" "./src/a.ts" ≡ some "src/a.ts"
unfolding normalize_to_repo_relative_path to_repo_relative_path is_path_within_workspace
kept_path = refl

absolute_path : normalize_to_repo_relative_path toy_paths "/r/" "/r/src/a.ts" ≡ some "src/a.ts"
unfolding normalize_to_repo_relative_path to_repo_relative_path is_path_within_workspace
absolute_path = refl

other_root : normalize_to_repo_relative_path toy_paths "/r/" "/s/src/a.ts" ≡ none
unfolding normalize_to_repo_relative_path to_repo_relative_path is_path_within_workspace
other_root = refl

refused_path : normalize_to_repo_relative_path toy_paths "/r/" "../a.ts" ≡ none
unfolding normalize_to_repo_relative_path to_repo_relative_path is_path_within_workspace
refused_path = refl
