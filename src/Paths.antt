-- ===== src/Paths.antt =====
-- packages/intelligence/src/workspace/scan-paths.ts: which paths are inside a workspace or repository, and
-- their form relative to it.
pub mod Contained
mod Tests
use Prim.Native.String.{String}
use text.Mathlib.Text.{◌==◌ as str_eq, starts_with}
use dh_kit.Kit.{Bool, true, false, not, ◌&&◌, ◌||◌, Option, none, some, if◌then◌else◌}

-- What the code uses of `node:path` and of the language: the replacements `/\\/g` by `/` and `/^\.\//` by
-- nothing.
pub record PathModule : Type 0 where
  pub resolve : String → String
  pub join : String → String → String
  pub relative : String → String → String
  pub is_absolute : String → Bool
  pub posix_normalize : String → String
  pub replace_backslashes : String → String
  pub strip_dot_slash : String → String
  pub trim : String → String

-- The parts of an indexed file that are read here and by the chunker.
pub record IndexedFile : Type 0 where
  pub id : String
  pub path : String
  pub language : String
  pub workspace_root : Option String

module _ (paths : PathModule) where
  open paths use {
    resolve, join, relative, is_absolute, posix_normalize, replace_backslashes, strip_dot_slash,
    trim,
  }

  abbrev pub normalize_path_slashes : String → String
  normalize_path_slashes input = replace_backslashes input

  abbrev pub canonicalize_absolute_path : String → String
  canonicalize_absolute_path input = normalize_path_slashes (resolve input)

  -- The path leads out of the directory that it is relative to.
  abbrev pub escapes : String → Bool
  escapes path = starts_with path "../" || str_eq path ".."

  -- A relative path as a result, unless it is the directory itself or outside.
  abbrev pub inside : String → Option String
  inside path =
      if str_eq path "" || str_eq path "."
      then none
      else if escapes path || is_absolute path
      then none
      else some path

  unfoldable pub to_workspace_relative_path : String → String → Option String
  to_workspace_relative_path workspace_root_abs target_abs =
      let root = canonicalize_absolute_path workspace_root_abs in
      let target = canonicalize_absolute_path target_abs in
      inside (normalize_path_slashes (relative root target))

  unfoldable pub is_path_within_workspace : String → String → Bool
  is_path_within_workspace workspace_root_abs target_abs =
      let root = canonicalize_absolute_path workspace_root_abs in
      let target = canonicalize_absolute_path target_abs in
      let path = normalize_path_slashes (relative root target) in
      if str_eq path ""
      then true
      else if str_eq path "."
      then true
      else if escapes path
      then false
      else not (is_absolute path)

  unfoldable pub is_same_or_parent_path : String → String → Bool
  is_same_or_parent_path parent_candidate_abs child_candidate_abs =
      let parent = canonicalize_absolute_path parent_candidate_abs in
      let child = canonicalize_absolute_path child_candidate_abs in
      let path = normalize_path_slashes (relative parent child) in
      if str_eq path "" || str_eq path "."
      then true
      else if escapes path
      then false
      else not (is_absolute path)

  -- An empty workspace root counts as none.
  unfoldable pub resolve_indexed_file_absolute_path : String → IndexedFile → Option String
  resolve_indexed_file_absolute_path repo_root_abs file =
      let workspace_root : String = elim file.workspace_root [
        | some root ↦ canonicalize_absolute_path (if str_eq root "" then repo_root_abs else root)
        | none ↦ canonicalize_absolute_path repo_root_abs
      ] in
      let absolute_path = canonicalize_absolute_path (join workspace_root file.path) in
      if not (is_path_within_workspace workspace_root absolute_path)
      then none
      else some absolute_path

  unfoldable pub to_repo_relative_path : String → String → Option String
  to_repo_relative_path repo_root_abs absolute_path =
      let repo_root = canonicalize_absolute_path repo_root_abs in
      let target = canonicalize_absolute_path absolute_path in
      if not (is_path_within_workspace repo_root target)
      then none
      else inside (normalize_path_slashes (relative repo_root target))

  unfoldable pub normalize_to_repo_relative_path : String → String → Option String
  normalize_to_repo_relative_path repo_root_abs candidate_path =
      let trimmed = trim candidate_path in
      let posix_normalized = posix_normalize (strip_dot_slash (normalize_path_slashes trimmed)) in
      let absolute = canonicalize_absolute_path (join repo_root_abs posix_normalized) in
      if str_eq trimmed ""
      then none
      else if is_absolute trimmed
      then to_repo_relative_path repo_root_abs trimmed
      else elim (inside posix_normalized) [
        | none ↦ none
        | some _ ↦
            if not (is_path_within_workspace repo_root_abs absolute)
            then none
            else to_repo_relative_path repo_root_abs absolute
      ]
