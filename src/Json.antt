-- ===== src/Json.antt =====
-- The values of `unknown` type that the program takes from JSON or MessagePack.
use Prim.Native.String.{String}
use text.Mathlib.Text.{◌==◌ as str_eq}
use dh_kit.Kit.{ℕ, Bool, true, false, Option, none, some, if◌then◌else◌}

-- A number that is no natural number below 2^53 is kept as its text. An object has each key once.
mutual
  pub data Json : Type 0 where
    null : Json
    bool : Bool → Json
    num : ℕ → Json
    other_num : String → Json
    str : String → Json
    arr : Items → Json
    obj : Fields → Json

  pub data Items : Type 0 where
    nil : Items
    item : Json → Items → Items

  pub data Fields : Type 0 where
    end : Fields
    field : String → Json → Fields → Fields

-- Property access on an object: `none` is `undefined`.
abbrev pub get : String → Fields → Option Json
get key end = none
get key (field name value fields) = if str_eq name key then some value else get key fields

-- The `in` operator.
abbrev pub has : String → Fields → Bool
has key end = false
has key (field name value fields) = if str_eq name key then true else has key fields

-- A property that is `undefined` is not written.
abbrev pub opt_field : String → Option Json → Fields → Fields
opt_field key none fields = fields
opt_field key (some value) fields = field key value fields
