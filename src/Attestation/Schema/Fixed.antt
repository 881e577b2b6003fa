-- ===== src/Attestation/Schema/Fixed.antt =====
-- Which facts the types with a fixed list of fields accept.
use verilink.Base.{
  ◌≡◌, refl, ◌↔◌, true, Option, none, some, List, [], ◌∷◌, String, arith, All, first_of,
}
use verilink.Base.Texts.{includes}
use verilink.Attestation.Json.{
  Json, Fields, null, bool, number, string, array, object, end, field, get,
}
use verilink.Attestation.Schema.{
  Problem, require_fields, require_string, require_strings, require_number, reject_extra_properties,
  validate_strings, validate_transaction_summary, ts_fields,
}

-- The field holds a string.
abbrev pub HasString : Fields → String → Type 0
HasString facts f = (s : String) × (get f facts ≡ some (string s))

abbrev pub HasNumber : Fields → String → Type 0
HasNumber facts f = (n : String) × (get f facts ≡ some (number n))

-- Every key is one of `allowed`.
abbrev pub HasOnly : List String → Fields → Type 0
HasOnly allowed end = Unit
HasOnly allowed (field k v fs) = (includes allowed k ≡ true) × HasOnly allowed fs

first_of-none_iff : (p q : Option Problem) → (first_of p q ≡ none) ↔ ((p ≡ none) × (q ≡ none))
first_of-none_iff none q = (λ h. (refl, h), λ h. h.1)
first_of-none_iff (some p) q = (λ h. absurd cc, λ h. absurd cc)

string_of :
    (facts : Fields) (f : String) (o : Option Json)
    → get f facts ≡ o
    → require_string facts f ≡ none
    → HasString facts f
unfolding require_string
string_of facts f none e h = absurd (ground arith)
string_of facts f (some null) e h = absurd (ground arith)
string_of facts f (some (bool b)) e h = absurd (ground arith)
string_of facts f (some (number n)) e h = absurd (ground arith)
string_of facts f (some (string s)) e h = (s, e)
string_of facts f (some (array xs)) e h = absurd (ground arith)
string_of facts f (some (object fs)) e h = absurd (ground arith)

number_of :
    (facts : Fields) (f : String) (o : Option Json)
    → get f facts ≡ o
    → require_number facts f ≡ none
    → HasNumber facts f
unfolding require_number
number_of facts f none e h = absurd (ground arith)
number_of facts f (some null) e h = absurd (ground arith)
number_of facts f (some (bool b)) e h = absurd (ground arith)
number_of facts f (some (number n)) e h = (n, e)
number_of facts f (some (string s)) e h = absurd (ground arith)
number_of facts f (some (array xs)) e h = absurd (ground arith)
number_of facts f (some (object fs)) e h = absurd (ground arith)

require_string_iff :
    (facts : Fields) (f : String) → (require_string facts f ≡ none) ↔ HasString facts f
unfolding require_string
require_string_iff facts f =
    (string_of facts f (get f facts) refl, λ h. rw (h.1, require_string) refl)

require_number_iff :
    (facts : Fields) (f : String) → (require_number facts f ≡ none) ↔ HasNumber facts f
unfolding require_number
require_number_iff facts f =
    (number_of facts f (get f facts) refl, λ h. rw (h.1, require_number) refl)

require_strings_iff :
    (facts : Fields) (fs : List String)
    → (require_strings facts fs ≡ none) ↔ All (HasString facts) fs
unfolding require_strings
require_strings_iff facts [] = (λ h. tt, λ h. refl)
require_strings_iff facts (f ∷ fs) =
    let both = first_of-none_iff (require_string facts f) (require_strings facts fs) in
    let here = require_string_iff facts f in
    let later = require_strings_iff facts fs in
    (λ h. (here.0 (both.0 h).0, later.0 (both.0 h).1), λ h. both.1 (here.1 h.0, later.1 h.1))

reject_extra_properties_iff :
    (facts : Fields) (allowed : List String)
    → (reject_extra_properties facts allowed ≡ none) ↔ HasOnly allowed facts
unfolding reject_extra_properties
reject_extra_properties_iff end allowed = (λ h. tt, λ h. refl)
reject_extra_properties_iff (field k v fs) allowed =
    ground (arith, reject_extra_properties_iff fs allowed)

require_fields-strings :
    (facts : Fields) (fs : List String) → All (HasString facts) fs → require_fields facts fs ≡ none
unfolding require_fields
require_fields-strings facts [] h = refl
require_fields-strings facts (f ∷ fs) h = rw (h.0.1, require_fields-strings facts fs h.1) refl

-- The types `kyb`, `security_audit` and `negative_incident` accept exactly the facts in which each
-- of the type's fields holds a string and no other key stands.
validate_strings_iff :
    (fields : List String) (facts : Fields)
    → (validate_strings fields facts ≡ none) ↔ (All (HasString facts) fields × HasOnly fields facts)
unfolding validate_strings
validate_strings_iff fields facts =
    let a =
      first_of-none_iff (require_fields facts fields)
        (first_of (require_strings facts fields) (reject_extra_properties facts fields)) in
    let b =
      first_of-none_iff (require_strings facts fields) (reject_extra_properties facts fields) in
    let strings = require_strings_iff facts fields in
    let only = reject_extra_properties_iff facts fields in
    (
      λ h. (strings.0 (b.0 (a.0 h).1).0, only.0 (b.0 (a.0 h).1).1),
      λ h. a.1 (require_fields-strings facts fields h.0, b.1 (strings.1 h.0, only.1 h.1)),
    )

-- The rest of the checks of `validateTransactionSummary`, from each of them on.
abbrev from_disputes : Fields → Option Problem
from_disputes facts =
    first_of (require_number facts "dispute_count") (reject_extra_properties facts ts_fields)

abbrev from_failures : Fields → Option Problem
from_failures facts = first_of (require_number facts "failure_count") (from_disputes facts)

abbrev from_successes : Fields → Option Problem
from_successes facts = first_of (require_number facts "success_count") (from_failures facts)

abbrev from_end : Fields → Option Problem
from_end facts = first_of (require_string facts "end") (from_successes facts)

abbrev from_start : Fields → Option Problem
from_start facts = first_of (require_string facts "start") (from_end facts)

abbrev pub IsSummary : Fields → Type 0
IsSummary facts =
    HasString facts "start"
    × HasString facts "end"
    × HasNumber facts "success_count"
    × HasNumber facts "failure_count"
    × HasNumber facts "dispute_count"
    × HasOnly ts_fields facts

-- The type `transaction_summary` accepts exactly the facts with two strings, three numbers and no
-- other key.
validate_transaction_summary_iff :
    (facts : Fields) → (validate_transaction_summary facts ≡ none) ↔ IsSummary facts
unfolding validate_transaction_summary require_fields
validate_transaction_summary_iff facts =
    let only = reject_extra_properties_iff facts ts_fields in
    let start = require_string_iff facts "start" in
    let finish = require_string_iff facts "end" in
    let successes = require_number_iff facts "success_count" in
    let failures = require_number_iff facts "failure_count" in
    let disputes = require_number_iff facts "dispute_count" in
    (
      λ h.
          let (_, h1) =
            (first_of-none_iff (require_fields facts ts_fields) (from_start facts)).0 h in
          let (a, h2) = (first_of-none_iff (require_string facts "start") (from_end facts)).0 h1 in
          let (b, h3) =
            (first_of-none_iff (require_string facts "end") (from_successes facts)).0 h2 in
          let (c, h4) =
            (first_of-none_iff (require_number facts "success_count") (from_failures facts)).0 h3 in
          let (d, h5) =
            (first_of-none_iff (require_number facts "failure_count") (from_disputes facts)).0 h4 in
          let (e, o) =
            (first_of-none_iff (require_number facts "dispute_count")
                (reject_extra_properties facts ts_fields)).0
              h5 in
          (start.0 a, finish.0 b, successes.0 c, failures.0 d, disputes.0 e, only.0 o),
      λ (a, b, c, d, e, o).
          rw
            (
              a.1,
              b.1,
              c.1,
              d.1,
              e.1,
              start.1 a,
              finish.1 b,
              successes.1 c,
              failures.1 d,
              disputes.1 e,
            )
            (only.1 o),
    )
