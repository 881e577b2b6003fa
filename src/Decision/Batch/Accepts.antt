-- ===== src/Decision/Batch/Accepts.antt =====
-- Which bodies assertBatchShape (control-plane/src/domains/decision) accepts.
use verilink.Base.{
  ℕ, ◌≤◌, ◌≡◌, refl, ap, sym, subst, ◌∙◌, ◌↔◌, Bool, true, false, not, Option, none, some, List, [],
  ◌∷◌, map, String, arith, if◌then◌else◌, length, head?, last?, is_empty, ltb, some_inj,
}
use verilink.Base.Int.{ℤ, pos}
use verilink.Base.Texts.{codes, texts_eq, texts_eq_refl}
use verilink.Base.Patterns.{is_uuid, is_sha256_hex}
use verilink.Base.Value.{
  Value, null, string, array, object, boolean, number, entries_of, integer_of, text_value,
}
use verilink.Decision.Sample.{
  DecisionWire, Services, to_lower_case, computed_hash, batch_id_from_payload_hash, wire_of,
}
use verilink.Decision.Batch.{
  DecisionBatchWire, Refusal, bad_request, payload_too_large, max_batch_size, header_problem,
  hash_problem, batch_problem, assert_batch_shape, wires_of, body_in, batch_wire, checked,
  sequence_in, fits_pattern, are_integers, is_range, ends_problem, CheckedBatch,
}
use verilink.Decision.Batch.Shape.{IsBatch, assert_batch_shape_sound}
use verilink.Decision.Batch.Passes.{decisions_problem-IsValid, fits, ranged, same, not_null}

head_of :
    (vs : List Value) (f : DecisionWire)
    → head? (map wire_of vs) ≡ some f
    → (v : Value) × (head? vs ≡ some v) × (wire_of v ≡ f)
head_of [] f h = absurd cc
head_of (v ∷ vs) f h = (v, refl, some_inj h)

last_of :
    (vs : List Value) (l : DecisionWire)
    → last? (map wire_of vs) ≡ some l
    → (v : Value) × (last? vs ≡ some v) × (wire_of v ≡ l)
last_of [] l h = absurd cc
last_of (v ∷ []) l h = (v, refl, some_inj h)
last_of (v ∷ w ∷ vs) l h = last_of (w ∷ vs) l h

ends_agree :
    (body : DecisionBatchWire) (f l : Value) (a b : ℤ)
    → integer_of (wire_of f).wal_seq ≡ some a
    → integer_of (wire_of l).wal_seq ≡ some b
    → integer_of body.first_wal_seq ≡ some a
    → integer_of body.last_wal_seq ≡ some b
    → ends_problem body (some f) (some l) ≡ none
unfolding ends_problem
ends_agree body f l a b e k p q =
    rw
      (
        not_null f a e,
        not_null l b k,
        same (integer_of (wire_of f).wal_seq) (integer_of body.first_wal_seq) a e p,
        same (integer_of (wire_of l).wal_seq) (integer_of body.last_wal_seq) b k q,
      )
      refl

-- The tests of the header, none of which fails.
all_pass :
    (a b c d e f : Bool) (r : Option Refusal)
    → a ≡ true
    → b ≡ true
    → (c ≡ true) × (d ≡ true)
    → e ≡ false
    → f ≡ false
    → r ≡ none
    → (if not a
        then some bad_request
        else if not b
        then some bad_request
        else if not c
        then some bad_request
        else if not d
        then some bad_request
        else if e
        then some bad_request
        else if f
        then some payload_too_large
        else r)
      ≡ none
all_pass a b c d e f r ha hb (hc, hd) he hf hr = rw (ha, hb, hc, hd, he, hf) hr

sizes :
    (vs : List Value)
    → 1 ≤ length (map wire_of vs)
    → length (map wire_of vs) ≤ max_batch_size
    → (is_empty vs ≡ false) × (ltb max_batch_size (length vs) ≡ false)
sizes [] p q = absurd (omega (arith, p))
sizes (v ∷ vs) p q =
    (refl, few (length (map wire_of (v ∷ vs))) (length (v ∷ vs)) (length_wires (v ∷ vs)) q)
  where
    length_wires : (vs : List Value) → length (map wire_of vs) ≡ length vs
    length_wires [] = refl
    length_wires (v ∷ vs) = omega (arith, length_wires vs)

    few : (a b : ℕ) → a ≡ b → a ≤ max_batch_size → ltb max_batch_size b ≡ false
    few a b e h = ground arith

header_problem-IsBatch :
    (sv : Services) (body : DecisionBatchWire)
    → IsBatch sv body (checked body)
    → header_problem body ≡ none
unfolding header_problem checked
header_problem-IsBatch sv body w =
    let vs = entries_of body.decisions in
    let (id, is_id, id_text, uuid) = w.id in
    let (hash, is_hash, hash_text, hex) = w.digest in
    let (low, high, _, rises) = w.range in
    let (full, few) = sizes vs w.count.0 w.count.1 in
    let (f, l, first, last, own, other) = w.ends in
    let (v, e, same_first) = head_of vs f first in
    let (u, k, same_last) = last_of vs l last in
    all_pass (fits_pattern is_uuid body.batch_id) (fits_pattern is_sha256_hex body.payload_hash)
      (are_integers (integer_of body.first_wal_seq) (integer_of body.last_wal_seq))
      (is_range (integer_of body.first_wal_seq) (integer_of body.last_wal_seq)) (is_empty vs)
      (ltb max_batch_size (length vs)) (ends_problem body (head? vs) (last? vs))
      (fits is_uuid body.batch_id id refl is_id (subst (λ t. is_uuid t ≡ true) id_text uuid))
      (fits is_sha256_hex body.payload_hash hash refl is_hash
        (subst (λ t. is_sha256_hex t ≡ true) hash_text hex))
      (ranged (integer_of body.first_wal_seq) (integer_of body.last_wal_seq)
        (sequence_in body.first_wal_seq) (sequence_in body.last_wal_seq) low high rises)
      full few
      (subst (λ o. ends_problem body o (last? vs) ≡ none) (sym e)
        (subst (λ o. ends_problem body (some v) o ≡ none) (sym k)
          (ends_agree body v u (pos (sequence_in body.first_wal_seq))
            (pos (sequence_in body.last_wal_seq))
            (subst (λ d. integer_of d.wal_seq ≡ some (pos (sequence_in body.first_wal_seq)))
              (sym same_first) own)
            (subst (λ d. integer_of d.wal_seq ≡ some (pos (sequence_in body.last_wal_seq)))
              (sym same_last) other)
            low high)))

hash_problem-IsBatch :
    (sv : Services) (body : DecisionBatchWire)
    → IsBatch sv body (checked body)
    → hash_problem sv body ≡ none
unfolding hash_problem checked
hash_problem-IsBatch sv body w =
    let (id, is_id, id_text, _) = w.id in
    let (hash, is_hash, hash_text, _) = w.digest in
    let hashed = w.hashed.0 ∙ ap to_lower_case hash_text in
    let named =
      sym (ap to_lower_case id_text)
      ∙ w.hashed.1
      ∙ ap batch_id_from_payload_hash (sym w.hashed.0) in
    rw
      (
        hash_problem,
        ap text_value is_hash,
        ap text_value is_id,
        equal (computed_hash sv (wires_of body)) (to_lower_case (codes hash)) hashed,
        equal (to_lower_case (codes id))
            (batch_id_from_payload_hash (computed_hash sv (wires_of body))) named,
      )
      refl
  where
    equal : (s t : List ℕ) → s ≡ t → texts_eq s t ≡ true
    equal s t e = subst (λ x. texts_eq s x ≡ true) e (texts_eq_refl s)

batch_problem-IsBatch :
    (sv : Services) (body : DecisionBatchWire)
    → IsBatch sv body (checked body)
    → batch_problem sv body ≡ none
unfolding batch_problem checked
batch_problem-IsBatch sv body w =
    rw
      (
        header_problem-IsBatch sv body w,
        decisions_problem-IsValid sv (entries_of body.decisions) w.valid,
      )
      (hash_problem-IsBatch sv body w)

-- Without an id, a body is no batch.
no_id :
    (sv : Services) (body : DecisionBatchWire) (c : CheckedBatch)
    → body.batch_id ≡ none
    → IsBatch sv body c
    → ⊥
no_id sv body c e w = let (s, f, _, _) = w.id in none_some s (sym e ∙ f)
  where
    none_some : (s : String) → ◌≡◌ {A = Option Value} none (some (string s)) → ⊥
    none_some s q = cc

assert_batch_shape_complete :
    (sv : Services) (body : Option Value)
    → IsBatch sv (body_in body) (checked (body_in body))
    → assert_batch_shape sv body ≡ none
unfolding assert_batch_shape
assert_batch_shape_complete sv none w =
    absurd (no_id sv (batch_wire null) (checked (batch_wire null)) refl w)
assert_batch_shape_complete sv (some null) w =
    absurd (no_id sv (batch_wire null) (checked (batch_wire null)) refl w)
assert_batch_shape_complete sv (some (boolean b)) w =
    absurd (no_id sv (batch_wire (boolean b)) (checked (batch_wire (boolean b))) refl w)
assert_batch_shape_complete sv (some (number n)) w =
    absurd (no_id sv (batch_wire (number n)) (checked (batch_wire (number n))) refl w)
assert_batch_shape_complete sv (some (string s)) w =
    absurd (no_id sv (batch_wire (string s)) (checked (batch_wire (string s))) refl w)
assert_batch_shape_complete sv (some (array vs)) w =
    batch_problem-IsBatch sv (batch_wire (array vs)) w
assert_batch_shape_complete sv (some (object ms)) w =
    batch_problem-IsBatch sv (batch_wire (object ms)) w

-- A body, of whatever values, is accepted exactly when it is a batch, where what the ingest reads of
-- it is what it holds: a UUID and a digest that are texts, a range of integers from 1 on that does not
-- fall, an array of 1 to 500 decisions whose first and last carry the ends of the range, each with one
-- of the three actions, a fingerprint that is a text and not empty, an integer from 1 on and a date;
-- the digest is the hash of the decisions, and the id is made from the digest, up to the case of
-- letters.
pub assert_batch_shape_iff :
    (sv : Services) (body : Option Value)
    → (assert_batch_shape sv body ≡ none) ↔ IsBatch sv (body_in body) (checked (body_in body))
assert_batch_shape_iff sv body =
    (assert_batch_shape_sound sv body, assert_batch_shape_complete sv body)
