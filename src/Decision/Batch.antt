-- ===== src/Decision/Batch.antt =====
-- The checks of a batch in control-plane/src/domains/decision/decisionIngestService.ts, on the body
-- as the request brings it: any value.
pub mod Entries
pub mod Header
pub mod Shape
pub mod Passes
pub mod Accepts
use verilink.Base.{
  ℕ, Bool, true, false, not, ◌&&◌, ◌||◌, Option, none, some, List, [], ◌∷◌, String, if◌then◌else◌,
  ltb, length, map, head?, last?, is_empty, is_some, first_of,
}
use verilink.Base.Int.{ℤ, pos, negsuc, ltb_ℤ, eq_ℤ}
use verilink.Base.Texts.{includes, codes, texts_eq}
use verilink.Base.Patterns.{is_uuid, is_sha256_hex}
use verilink.Base.Value.{
  Value, null, array, object, property, entries_of, integer_of, text_value, is_truthy, printed_text,
}
use verilink.Decision.Sample.{
  DecisionWire, wire_of, Services, text_or, computed_hash, to_lower_case,
  batch_id_from_payload_hash, assert_rfc3339,
}

pub record DecisionBatchWire : Type 0 where
  pub batch_id : Option Value
  pub first_wal_seq : Option Value
  pub last_wal_seq : Option Value
  pub payload_hash : Option Value
  pub decisions : Option Value

abbrev pub batch_wire : Value → DecisionBatchWire
batch_wire v = record {
  batch_id = property "batch_id" v;
  first_wal_seq = property "first_wal_seq" v;
  last_wal_seq = property "last_wal_seq" v;
  payload_hash = property "payload_hash" v;
  decisions = property "decisions" v;
}

abbrev pub wires_of : DecisionBatchWire → List DecisionWire
wires_of body = map wire_of (entries_of body.decisions)

-- The codes of the `AppError`s, and the error of JavaScript for a method or a field that is not
-- there, which the route answers as an internal error.
pub data Refusal : Type 0 where
  bad_request payload_too_large conflict type_error : Refusal

abbrev pub actions : List String
actions = "allow" ∷ "deny" ∷ "passthrough" ∷ []

abbrev pub is_action : Option Value → Bool
is_action v = elim (text_value v) [ none ↦ false | some s ↦ includes actions s ]

abbrev pub is_fingerprint : Option Value → Bool
is_fingerprint v = is_truthy v && is_some (text_value v)

abbrev pub is_sequence : Option Value → Bool
is_sequence v = elim (integer_of v) [ none ↦ false | some n ↦ not (ltb_ℤ n (pos 1)) ]

-- One turn of the loop of `assertBatchShape`.
unfoldable pub decision_problem : Services → DecisionWire → Option Refusal
unfolding assert_rfc3339 integer_of
decision_problem sv d =
    if not (is_action d.action)
    then some bad_request
    else if not (is_fingerprint d.fingerprint)
    then some bad_request
    else if not (is_sequence d.wal_seq)
    then some bad_request
    else if not (assert_rfc3339 sv d.decided_at)
    then some bad_request
    else none

-- A turn on an element, which reads a field of it.
unfoldable pub entry_problem : Services → Value → Option Refusal
unfolding decision_problem
entry_problem sv null = some type_error
entry_problem sv v = decision_problem sv (wire_of v)

unfoldable pub decisions_problem : Services → List Value → Option Refusal
unfolding entry_problem
decisions_problem sv [] = none
decisions_problem sv (v ∷ vs) = first_of (entry_problem sv v) (decisions_problem sv vs)

abbrev pub max_batch_size : ℕ
max_batch_size = 500

-- `!v || !RE.test(v)`, negated.
abbrev pub fits_pattern : (List ℕ → Bool) → Option Value → Bool
fits_pattern test v =
    is_truthy v && elim (printed_text v) [ none ↦ false | some s ↦ test (codes s) ]

-- Both are integers, and the first is not greater.
abbrev pub are_integers : Option ℤ → Option ℤ → Bool
are_integers (some a) (some b) = true
are_integers a b = false

abbrev pub is_range : Option ℤ → Option ℤ → Bool
is_range (some a) (some b) = not (ltb_ℤ b a)
is_range a b = false

-- `===` of any value with an integer.
abbrev pub same_integer : Option ℤ → Option ℤ → Bool
same_integer (some a) (some b) = eq_ℤ a b
same_integer a b = false

abbrev pub is_null : Value → Bool
is_null null = true
is_null v = false

-- The first and the last decision of a list that is not empty; a field of null is an error.
unfoldable pub ends_problem : DecisionBatchWire → Option Value → Option Value → Option Refusal
unfolding integer_of
ends_problem body (some first) (some last) =
    if is_null first || is_null last
    then some type_error
    else if not (same_integer (integer_of (wire_of first).wal_seq) (integer_of body.first_wal_seq))
        || not (same_integer (integer_of (wire_of last).wal_seq) (integer_of body.last_wal_seq))
    then some bad_request
    else none
ends_problem body first last = some type_error

-- The tests before the loop.
unfoldable pub header_problem : DecisionBatchWire → Option Refusal
unfolding is_uuid is_sha256_hex ends_problem
header_problem body =
    if not (fits_pattern is_uuid body.batch_id)
    then some bad_request
    else if not (fits_pattern is_sha256_hex body.payload_hash)
    then some bad_request
    else if not (are_integers (integer_of body.first_wal_seq) (integer_of body.last_wal_seq))
    then some bad_request
    else if not (is_range (integer_of body.first_wal_seq) (integer_of body.last_wal_seq))
    then some bad_request
    else if is_empty (entries_of body.decisions)
    then some bad_request
    else if ltb max_batch_size (length (entries_of body.decisions))
    then some payload_too_large
    else ends_problem body (head? (entries_of body.decisions)) (last? (entries_of body.decisions))

-- The tests after the loop. A digest or an id that is no text has no `toLowerCase`.
unfoldable pub hash_problem : Services → DecisionBatchWire → Option Refusal
unfolding computed_hash batch_id_from_payload_hash
hash_problem sv body =
    let computed = computed_hash sv (wires_of body) in
    elim (text_value body.payload_hash) [
      | none ↦ some type_error
      | some hash ↦
          if not (texts_eq computed (to_lower_case (codes hash)))
          then some bad_request
          else elim (text_value body.batch_id) [
            | none ↦ some type_error
            | some id ↦
                if not (texts_eq (to_lower_case (codes id)) (batch_id_from_payload_hash computed))
                then some bad_request
                else none
          ]
    ]

-- The checks of what the body holds, in their order.
unfoldable pub batch_problem : Services → DecisionBatchWire → Option Refusal
unfolding header_problem decisions_problem hash_problem
batch_problem sv body =
    first_of (header_problem body)
      (first_of (decisions_problem sv (entries_of body.decisions)) (hash_problem sv body))

-- A body that is missing or no object is refused. An array is an object, without any of the fields.
unfoldable pub assert_batch_shape : Services → Option Value → Option Refusal
unfolding batch_problem
assert_batch_shape sv (some (object ms)) = batch_problem sv (batch_wire (object ms))
assert_batch_shape sv (some (array vs)) = batch_problem sv (batch_wire (array vs))
assert_batch_shape sv body = some bad_request

-- What the ingest reads of a body that is accepted.
pub record CheckedBatch : Type 0 where
  pub batch_id : List ℕ
  pub first_wal_seq : ℕ
  pub last_wal_seq : ℕ
  pub payload_hash : List ℕ
  pub decisions : List DecisionWire

abbrev pub text_in : Option Value → String
text_in v = text_or "" (text_value v)

unfoldable pub sequence_in : Option Value → ℕ
unfolding integer_of
sequence_in v = elim (integer_of v) [ none ↦ 0 | some (pos n) ↦ n | some (negsuc n) ↦ 0 ]

abbrev pub body_in : Option Value → DecisionBatchWire
body_in none = batch_wire null
body_in (some v) = batch_wire v

unfoldable pub checked : DecisionBatchWire → CheckedBatch
unfolding sequence_in
checked body = record {
  batch_id = codes (text_in body.batch_id);
  first_wal_seq = sequence_in body.first_wal_seq;
  last_wal_seq = sequence_in body.last_wal_seq;
  payload_hash = codes (text_in body.payload_hash);
  decisions = wires_of body;
}
