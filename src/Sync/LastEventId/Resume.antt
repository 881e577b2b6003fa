-- ===== src/Sync/LastEventId/Resume.antt =====
-- A client that resumes from an id that the server printed is understood, and nothing else is.
use verilink.Base.{
  ℕ, ◌≤◌, ◌≡◌, refl, ◌⊎◌, inl, inr, true, false, Option, none, some, [], ◌∷◌, ◌++◌, arith, all, All,
  Bool-cases, is_empty, ltb, if◌then◌else◌,
}
use verilink.Base.Decimal.{
  is_digit, IsDigit, value_from, to_decimal, value-to_decimal, to_decimal-IsDigit,
  to_decimal-is_empty,
}
use verilink.Sync.LastEventId.{
  Text, pg_bigint_max, Message, header_blank, value_blank, out_of_range, ok, err, LastEventIdInputs,
  is_space, trim_start, trim_end, trim, first_string, parse_non_negative_integer, parse_present,
  or_defined, parse_last_event_id,
}

abbrev pub IsBlank : ℕ → Type 0
IsBlank c = is_space c ≡ true

digit_not_space : (c : ℕ) → IsDigit c → is_space c ≡ false
unfolding is_digit is_space
digit_not_space c h = ground arith

trim_start-append : (pad s : Text) → All IsBlank pad → trim_start (pad ++ s) ≡ trim_start s
unfolding trim_start
trim_start-append [] s h = refl
trim_start-append (c ∷ pad) s h = rw h.0 (trim_start-append pad s h.1)

trim_end-blank : (pad : Text) → All IsBlank pad → trim_end pad ≡ []
unfolding trim_end
trim_end-blank [] h = refl
trim_end-blank (c ∷ pad) h = rw (trim_end-blank pad h.1, h.0) refl

trim_end-append : (s pad : Text) → All IsDigit s → All IsBlank pad → trim_end (s ++ pad) ≡ s
unfolding trim_end
trim_end-append [] pad d h = trim_end-blank pad h
trim_end-append (c ∷ s) pad d h =
    rw (trim_end-append s pad d.1 h, digit_not_space c d.0) (ground arith)

-- Digits between blanks are what is left.
trim_padded :
    (before s after : Text)
    → All IsBlank before
    → All IsDigit s
    → All IsBlank after
    → is_empty s ≡ false
    → trim (before ++ (s ++ after)) ≡ s
unfolding trim trim_start
trim_padded before [] after b d a n = cc
trim_padded before (c ∷ s) after b d a n =
    rw (trim_start-append before (c ∷ (s ++ after)) b, digit_not_space c d.0)
      (trim_end-append (c ∷ s) after d a)

all-IsDigit : (s : Text) → All IsDigit s → all is_digit s ≡ true
all-IsDigit [] h = refl
all-IsDigit (c ∷ s) h = ground (arith, all-IsDigit s h.1)

-- The numeral of a number, with white space around it, is read as that number, unless the number
-- is no signed 64-bit integer, and then it is out of range.
pub parse_non_negative_integer-to_decimal :
    (n : ℕ) (before after : Text)
    → All IsBlank before
    → All IsBlank after
    → parse_non_negative_integer (before ++ (to_decimal n ++ after))
      ≡ (if ltb pg_bigint_max n then err out_of_range else ok n)
unfolding parse_non_negative_integer
parse_non_negative_integer-to_decimal n before after b a = rw (
  trim_padded before (to_decimal n) after b (to_decimal-IsDigit n) a (to_decimal-is_empty n),
  to_decimal-is_empty n,
  all-IsDigit (to_decimal n) (to_decimal-IsDigit n),
  value-to_decimal n,
)

-- What an accepted input says: nothing, and then 0, or a run of digits of that value.
abbrev pub Says : Option Text → ℕ → Type 0
Says none v = ⊥
Says (some s) v =
    (is_empty (trim s) ≡ false) × (all is_digit (trim s) ≡ true) × (value_from 0 (trim s) ≡ v)

parse_present-Says :
    (m : Message) (t : Option Text) (v : ℕ)
    → parse_present m t ≡ ok v
    → Says t v × (v ≤ pg_bigint_max)
unfolding parse_present parse_non_negative_integer
parse_present-Says m none v e = cc
parse_present-Says m (some s) v e = ground arith

-- An accepted value fits a signed 64-bit integer. It is what the header says, if that is present,
-- whatever the query says; else it is what the query says, if that is present; else it is 0.
pub parse_last_event_id_sound :
    (i : LastEventIdInputs) (v : ℕ)
    → parse_last_event_id i ≡ ok v
    → (v ≤ pg_bigint_max)
      × (((or_defined i.header_present i.header ≡ true) × Says (first_string i.header) v)
          ⊎ ((or_defined i.header_present i.header ≡ false)
              × (or_defined i.query_key_present i.query ≡ true)
              × Says (first_string i.query) v)
          ⊎ ((or_defined i.header_present i.header ≡ false)
              × (or_defined i.query_key_present i.query ≡ false)
              × (v ≡ 0)))
unfolding parse_last_event_id
parse_last_event_id_sound i v e = elim (Bool-cases (or_defined i.header_present i.header)) [
  | inl h ↦
      let (says, fits) = parse_present-Says header_blank (first_string i.header) v (rw h at e) in
      (fits, inl (h, says))
  | inr h ↦ elim (Bool-cases (or_defined i.query_key_present i.query)) [
    | inl k ↦
        let (says, fits) =
          parse_present-Says value_blank (first_string i.query) v (rw (h, k) at e) in
        (fits, inr (inl (h, k, says)))
    | inr k ↦ let z : v ≡ 0 = ground arith in (omega arith, inr (inr (h, k, z)))
  ]
]
