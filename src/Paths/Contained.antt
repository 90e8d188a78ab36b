-- ===== src/Paths/Contained.antt =====
-- A relative path that is given out names the path that was asked for, and stays inside.
use Prim.Native.String.{String}
use text.Mathlib.Text.{◌==◌ as str_eq}
use dh_kit.Kit.{◌≡◌, false, Option, none, some, if◌then◌else◌}
use dh_kit.Paths.{PathModule, escapes, canonicalize_absolute_path, normalize_path_slashes}

-- A path that names something below the directory it is relative to.
abbrev pub IsContained : PathModule → String → Type 0
IsContained paths path =
    (str_eq path "" ≡ false)
    × (str_eq path "." ≡ false)
    × (escapes paths path ≡ false)
    × (paths.is_absolute path ≡ false)

-- If there is a result, it has the property.
abbrev pub IfSome {ℓ} : {A : Type ℓ} → (A → Type 0) → Option A → Type 0
IfSome P none = Unit
IfSome P (some a) = P a

module _ (paths : PathModule) where
  abbrev canonical : String → String
  canonical path = canonicalize_absolute_path paths path

  -- The path of a target relative to a root, both made canonical.
  abbrev pub relative_path : String → String → String
  relative_path root target =
      normalize_path_slashes paths (paths.relative (canonical root) (canonical target))

  -- What a candidate names: a path that is not absolute stands below the root.
  abbrev pub posix_of : String → String
  posix_of candidate =
      paths.posix_normalize
        (paths.strip_dot_slash (normalize_path_slashes paths (paths.trim candidate)))

  abbrev pub target_of : String → String → String
  target_of root candidate =
      if paths.is_absolute (paths.trim candidate)
      then paths.trim candidate
      else canonical (paths.join root (posix_of candidate))

  -- What is documented of `path.relative`: the relative path, joined to the path it is relative to,
  -- resolves to what the target resolves to, unless there is none and the target comes back.
  abbrev pub RelativeJoins : Type 0
  RelativeJoins =
      (root target : String)
      → paths.is_absolute (relative_path root target) ≡ false
      → canonical (paths.join (canonical root) (relative_path root target))
        ≡ canonical (canonical target)

  -- A path that, joined to the root, resolves to what the target resolves to, and stands below the root.
  pub record NamesBelow (root target path : String) : Type 0 where
    pub named : canonical (paths.join (canonical root) path) ≡ canonical (canonical target)
    pub below : IsContained paths path
