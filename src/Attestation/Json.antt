-- ===== src/Attestation/Json.antt =====
-- The values of `JSON.parse`. An object lists its own keys in order, none of them twice.
use verilink.Base.{Bool, true, false, Option, none, some, String, if◌then◌else◌}
use verilink.Base.Texts.{str_eq}

-- A number keeps its text: the code here only asks whether a value is a number.
mutual
  pub data Json : Type 0 where
    null : Json
    bool : Bool → Json
    number : String → Json
    string : String → Json
    array : Items → Json
    object : Fields → Json

  pub data Items : Type 0 where
    nil : Items
    cons : Json → Items → Items

  pub data Fields : Type 0 where
    end : Fields
    field : String → Json → Fields → Fields

-- `facts[key]`; `none` stands for `undefined`.
unfoldable pub get : String → Fields → Option Json
get key end = none
get key (field k v fs) = let rest = get key fs in if str_eq k key then some v else rest

-- `v && typeof v === 'object'`
unfoldable pub is_nested : Json → Bool
is_nested (array xs) = true
is_nested (object fs) = true
is_nested _ = false
