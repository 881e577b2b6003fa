-- ===== src/Decision/Batch/Header.antt =====
-- What the tests of assertBatchShape (control-plane/src/domains/decision) before its loop leave.
use verilink.Base.{
  ℕ, ◌≤◌, ◌≡◌, refl, ap, sym, subst, Bool, true, false, not, ◌&&◌, ◌||◌, Option, none, some, List,
  String, arith, if◌then◌else◌, length, head?, last?, is_empty, ltb,
}
use verilink.Base.Int.{ℤ, eq_ℤ_iff}
use verilink.Base.Texts.{str_eq, codes}
use verilink.Base.Patterns.{is_uuid, is_sha256_hex}
use verilink.Base.Value.{Value, string, entries_of, integer_of}
use verilink.Decision.Sample.{wire_of}
use verilink.Decision.Batch.{
  DecisionBatchWire, Refusal, bad_request, payload_too_large, type_error, max_batch_size,
  header_problem, fits_pattern, are_integers, is_range, same_integer, ends_problem, is_null,
}

pub fits_pattern-string :
    (test : List ℕ → Bool) (v : Option Value) (s : String)
    → fits_pattern test v ≡ true
    → v ≡ some (string s)
    → test (codes s) ≡ true
fits_pattern-string test v s h e =
    both (not (str_eq s "")) (test (codes s)) (subst (λ x. fits_pattern test x ≡ true) e h)
  where
    both : (a b : Bool) → (a && b) ≡ true → b ≡ true
    both a b k = ground arith

-- The integers of two values that the code finds equal.
same_integer-path :
    (p q : Option ℤ) → same_integer p q ≡ true → (n : ℤ) × (p ≡ some n) × (q ≡ some n)
same_integer-path none q h = absurd cc
same_integer-path (some a) none h = absurd cc
same_integer-path (some a) (some b) h = (a, refl, ap some (sym ((eq_ℤ_iff a b).0 h)))

-- The first and the last element of the decisions carry the ends of the range.
abbrev pub HasEnds : DecisionBatchWire → Option Value → Option Value → Type 0
HasEnds body first last =
    (f : Value) × (l : Value) × (first ≡ some f)
    × (last ≡ some l)
    × ((n : ℤ) × (integer_of (wire_of f).wal_seq ≡ some n)
        × (integer_of body.first_wal_seq ≡ some n))
    × ((n : ℤ) × (integer_of (wire_of l).wal_seq ≡ some n)
        × (integer_of body.last_wal_seq ≡ some n))

ends_problem-none :
    (body : DecisionBatchWire) (first last : Option Value)
    → ends_problem body first last ≡ none
    → HasEnds body first last
unfolding ends_problem
ends_problem-none body none last h = absurd cc
ends_problem-none body (some f) none h = absurd cc
ends_problem-none body (some f) (some l) h =
    let own = integer_of (wire_of f).wal_seq in
    let other = integer_of (wire_of l).wal_seq in
    let (a, b) =
      both (is_null f || is_null l) (same_integer own (integer_of body.first_wal_seq))
        (same_integer other (integer_of body.last_wal_seq)) h in
    (
      f,
      l,
      refl,
      refl,
      same_integer-path own (integer_of body.first_wal_seq) a,
      same_integer-path other (integer_of body.last_wal_seq) b,
    )
  where
    both :
        (c a b : Bool)
        → (if c then some type_error else if not a || not b then some bad_request else none) ≡ none
        → (a ≡ true) × (b ≡ true)
    both c a b k = ground arith

-- The tests of the header, none of which fails.
all_pass :
    (a b c d e f : Bool) (r : Option Refusal)
    → (if not a
        then some bad_request
        else if not b
        then some bad_request
        else if not c
        then some bad_request
        else if not d
        then some bad_request
        else if e
        then some bad_request
        else if f
        then some payload_too_large
        else r)
      ≡ none
    → (a ≡ true) × (b ≡ true) × (c ≡ true) × (d ≡ true) × (e ≡ false) × (f ≡ false) × (r ≡ none)
all_pass false b c d e f r h = absurd cc
all_pass true false c d e f r h = absurd cc
all_pass true true false d e f r h = absurd cc
all_pass true true true false e f r h = absurd cc
all_pass true true true true true f r h = absurd cc
all_pass true true true true false true r h = absurd cc
all_pass true true true true false false r h = (refl, refl, refl, refl, refl, refl, h)

-- What the header's tests leave.
abbrev pub IsHeader : DecisionBatchWire → Type 0
IsHeader body =
    (fits_pattern is_uuid body.batch_id ≡ true)
    × (fits_pattern is_sha256_hex body.payload_hash ≡ true)
    × (is_range (integer_of body.first_wal_seq) (integer_of body.last_wal_seq) ≡ true)
    × (is_empty (entries_of body.decisions) ≡ false)
    × (length (entries_of body.decisions) ≤ max_batch_size)
    × HasEnds body (head? (entries_of body.decisions)) (last? (entries_of body.decisions))

pub header_problem-none : (body : DecisionBatchWire) → header_problem body ≡ none → IsHeader body
unfolding header_problem
header_problem-none body h =
    let entries = entries_of body.decisions in
    let (a, b, c, d, e, f, r) =
      all_pass (fits_pattern is_uuid body.batch_id) (fits_pattern is_sha256_hex body.payload_hash)
        (are_integers (integer_of body.first_wal_seq) (integer_of body.last_wal_seq))
        (is_range (integer_of body.first_wal_seq) (integer_of body.last_wal_seq)) (is_empty entries)
        (ltb max_batch_size (length entries)) (ends_problem body (head? entries) (last? entries))
        h in
    (
      a,
      b,
      d,
      e,
      at_most max_batch_size (length entries) f,
      ends_problem-none body (head? entries) (last? entries) r,
    )
  where
    at_most : (a b : ℕ) → ltb a b ≡ false → b ≤ a
    at_most a b h = ground arith
