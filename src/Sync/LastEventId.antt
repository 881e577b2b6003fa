-- ===== src/Sync/LastEventId.antt =====
-- control-plane/src/domains/sync/parseLastEventId.ts: where a stream resumes. A text is the list of
-- its UTF-16 code units.
pub mod Resume
use verilink.Base.{
  ℕ, Bool, true, false, ◌&&◌, ◌||◌, Option, none, some, List, [], ◌∷◌, ltb, leb, ◌==◌,
  if◌then◌else◌, all, is_empty, head?, is_some, not,
}
use verilink.Base.Decimal.{is_digit, value_from}

abbrev pub Text : Type 0
Text = List ℕ

-- The largest signed BIGINT of PostgreSQL.
abbrev pub pg_bigint_max : ℕ
pg_bigint_max = 9223372036854775807

-- The two messages for a blank value differ.
pub data Message : Type 0 where
  header_blank value_blank not_an_integer out_of_range : Message

pub data Result : Type 0 where
  ok : ℕ → Result
  err : Message → Result

-- `string | string[]`.
pub data Raw : Type 0 where
  one : Text → Raw
  many : List Text → Raw

-- `none` where the field is undefined.
pub record LastEventIdInputs : Type 0 where
  pub header : Option Raw
  pub query : Option Raw
  pub query_key_present : Option Bool
  pub header_present : Option Bool

-- The white space and line ends of ECMAScript, which `trim` removes.
unfoldable pub is_space : ℕ → Bool
is_space c =
    (leb 9 c && leb c 13)
    || c == 32
    || c == 0xa0
    || c == 0x1680
    || (leb 0x2000 c && leb c 0x200a)
    || c == 0x2028
    || c == 0x2029
    || c == 0x202f
    || c == 0x205f
    || c == 0x3000
    || c == 0xfeff

unfoldable pub trim_start : Text → Text
unfolding is_space
trim_start [] = []
trim_start (c ∷ s) = if is_space c then trim_start s else c ∷ s

unfoldable pub trim_end : Text → Text
unfolding is_space
trim_end [] = []
trim_end (c ∷ s) = let rest = trim_end s in if is_empty rest && is_space c then [] else c ∷ rest

unfoldable pub trim : Text → Text
unfolding trim_start trim_end
trim s = trim_end (trim_start s)

unfoldable pub first_string : Option Raw → Option Text
first_string none = none
first_string (some (one s)) = some s
first_string (some (many ss)) = head? ss

-- `BigInt` does not throw on a run of digits, so the `catch` is not reached.
unfoldable pub parse_non_negative_integer : Text → Result
unfolding trim is_digit value_from
parse_non_negative_integer raw =
    let trimmed = trim raw in
    if is_empty trimmed
    then err value_blank
    else if not (all is_digit trimmed)
    then err not_an_integer
    else if ltb pg_bigint_max (value_from 0 trimmed)
    then err out_of_range
    else ok (value_from 0 trimmed)

-- One of the two branches of `parseLastEventId`, with its message for a blank value.
unfoldable pub parse_present : Message → Option Text → Result
unfolding parse_non_negative_integer
parse_present blank none = err blank
parse_present blank (some s) = if is_empty (trim s) then err blank else parse_non_negative_integer s

-- `present ?? value !== undefined`.
abbrev pub or_defined : Option Bool → Option Raw → Bool
or_defined (some b) v = b
or_defined none v = is_some v

unfoldable pub parse_last_event_id : LastEventIdInputs → Result
unfolding first_string parse_present
parse_last_event_id input =
    if or_defined input.header_present input.header
    then parse_present header_blank (first_string input.header)
    else if or_defined input.query_key_present input.query
    then parse_present value_blank (first_string input.query)
    else ok 0
