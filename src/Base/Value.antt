-- ===== src/Base/Value.antt =====
-- The values that a request's body holds, as the handlers see them. A finite number is exactly
-- `m / 2 ^ e`, as every double is.
use verilink.Base.Int.{ℤ, pos, negsuc}
use verilink.Base.Tests.{◌==◌, if◌then◌else◌}
use verilink.Base.Texts.{str_eq}
use Prim.Native.Nat.{ℕ, ◌+◌, ◌-◌, ◌/◌, ◌%◌, ◌^◌}
use Prim.Native.String.{String}
use mathlib.Core.Bool.{Bool, true, false, not}
use mathlib.Core.Option.{Option, none, some}
use mathlib.Core.List.{List, [], ◌∷◌}

pub data Number : Type 0 where
  finite : ℤ → ℕ → Number
  infinity negative_infinity nan : Number

-- What `JSON.parse` gives.
mutual
  pub data Value : Type 0 where
    null : Value
    boolean : Bool → Value
    number : Number → Value
    string : String → Value
    array : Values → Value
    object : Members → Value

  pub data Values : Type 0 where
    nil : Values
    cons : Value → Values → Values

  pub data Members : Type 0 where
    end : Members
    member : String → Value → Members → Members

-- A field of the body; an array has none of these fields.
abbrev pub field : String → Members → Option Value
field key end = none
field key (member k v ms) = let rest = field key ms in if str_eq k key then some v else rest

-- `b[key] ?? default`.
abbrev pub or_default : Value → Option Value → Value
or_default d none = d
or_default d (some null) = d
or_default d (some v) = v

-- `v.key`, where `none` is undefined. No value but an object has the fields that the handlers read;
-- null throws, which the handlers' definitions tell apart.
abbrev pub property : String → Value → Option Value
property key (object ms) = field key ms
property key v = none

abbrev pub list_of : Values → List Value
list_of nil = []
list_of (cons v vs) = v ∷ list_of vs

-- The elements of an array, and none of anything else.
abbrev pub entries_of : Option Value → List Value
entries_of (some (array vs)) = list_of vs
entries_of v = []

-- `Number.isInteger(v)`, with the integer.
unfoldable pub integer_of : Option Value → Option ℤ
integer_of (some (number (finite (pos m) e))) =
    if m % 2 ^ e == 0 then some (pos (m / 2 ^ e)) else none
integer_of (some (number (finite (negsuc m) e))) =
    if (m + 1) % 2 ^ e == 0 then some (negsuc ((m + 1) / 2 ^ e - 1)) else none
integer_of v = none

-- `typeof v === 'string'`, with the text.
abbrev pub text_value : Option Value → Option String
text_value (some (string s)) = some s
text_value v = none

-- Whether a value counts as true.
abbrev pub is_truthy : Option Value → Bool
is_truthy none = false
is_truthy (some null) = false
is_truthy (some (boolean b)) = b
is_truthy (some (number (finite (pos m) e))) = not (m == 0)
is_truthy (some (number nan)) = false
is_truthy (some (string s)) = not (str_eq s "")
is_truthy (some v) = true

-- The text that a regular expression or a date reads: an array of one prints as its element. Every
-- other value prints as a text that is no UUID, no digest and no date; an object with a field named
-- `toString`, which cannot be printed, is left out.
abbrev pub printed : Value → Option String
printed (string s) = some s
printed (array (cons v nil)) = printed v
printed v = none

abbrev pub printed_text : Option Value → Option String
printed_text none = none
printed_text (some v) = printed v
