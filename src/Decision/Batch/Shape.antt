-- ===== src/Decision/Batch/Shape.antt =====
-- What an accepted batch is.
use verilink.Base.{
  ℕ, ◌≤◌, ◌≡◌, refl, ap, sym, subst, ◌∙◌, Bool, true, false, not, Option, none, some, List, [], ◌∷◌,
  map, String, arith, if◌then◌else◌, All, length, head?, last?, is_empty, first_of, first_of-none,
  some_inj,
}
use verilink.Base.Int.{ℤ, pos, negsuc}
use verilink.Base.Texts.{codes, texts_eq, texts_eq-path}
use verilink.Base.Patterns.{is_uuid, is_sha256_hex}
use verilink.Base.Value.{
  Value, null, string, array, object, boolean, number, Values, list_of, entries_of, integer_of,
  text_value,
}
use verilink.Decision.Sample.{
  DecisionWire, Services, to_lower_case, computed_hash, batch_id_from_payload_hash, wire_of,
}
use verilink.Decision.Batch.{
  DecisionBatchWire, bad_request, type_error, max_batch_size, header_problem, decisions_problem,
  hash_problem, batch_problem, assert_batch_shape, wires_of, body_in, batch_wire, checked,
  sequence_in, text_in, is_range, CheckedBatch,
}
use verilink.Decision.Batch.Entries.{IsValid, text_value-some, decisions_problem-none}
use verilink.Decision.Batch.Header.{fits_pattern-string, header_problem-none}

-- The digest and the id are texts, of the decisions.
abbrev pub IsHashed : Services → DecisionBatchWire → Type 0
IsHashed sv body =
    (hash : String) × (id : String) × (body.payload_hash ≡ some (string hash))
    × (body.batch_id ≡ some (string id))
    × (computed_hash sv (wires_of body) ≡ to_lower_case (codes hash))
    × (to_lower_case (codes id) ≡ batch_id_from_payload_hash (computed_hash sv (wires_of body)))

hash_problem-none :
    (sv : Services) (body : DecisionBatchWire) → hash_problem sv body ≡ none → IsHashed sv body
unfolding hash_problem
hash_problem-none sv body h =
    by_texts (text_value body.payload_hash) (text_value body.batch_id) refl refl
      (computed_hash sv (wires_of body)) refl h
  where
    both :
        (a b : Bool)
        → (if not a then some bad_request else if not b then some bad_request else none) ≡ none
        → (a ≡ true) × (b ≡ true)
    both a b k = ground arith

    by_texts :
        (p q : Option String)
        → text_value body.payload_hash ≡ p
        → text_value body.batch_id ≡ q
        → (computed : List ℕ) → computed_hash sv (wires_of body) ≡ computed
        → elim p [
          | none ↦ some type_error
          | some hash ↦
              if not (texts_eq computed (to_lower_case (codes hash)))
              then some bad_request
              else elim q [
                | none ↦ some type_error
                | some id ↦
                    if not
                      (texts_eq (to_lower_case (codes id)) (batch_id_from_payload_hash computed))
                    then some bad_request
                    else none
              ]
        ]
          ≡ none
        → IsHashed sv body
    by_texts none q e f computed c k = absurd cc
    by_texts (some hash) none e f computed c k =
        absurd (never (texts_eq computed (to_lower_case (codes hash))) k)
      where
        never : (b : Bool) → (if not b then some bad_request else some type_error) ≡ none → ⊥
        never true l = cc
        never false l = cc
    by_texts (some hash) (some id) e f computed c k =
        let (a, b) =
          both (texts_eq computed (to_lower_case (codes hash)))
            (texts_eq (to_lower_case (codes id)) (batch_id_from_payload_hash computed)) k in
        (
          hash,
          id,
          text_value-some body.payload_hash hash e,
          text_value-some body.batch_id id f,
          c ∙ texts_eq-path computed (to_lower_case (codes hash)) a,
          texts_eq-path (to_lower_case (codes id)) (batch_id_from_payload_hash computed) b
              ∙ ap batch_id_from_payload_hash (sym c),
        )

-- An accepted batch, and what the ingest reads of it: the id and the digest are texts of the right
-- form, the range is one of positive integers, the decisions are an array.
pub record IsBatch (sv : Services) (body : DecisionBatchWire) (c : CheckedBatch) : Type 0 where
  pub id :
      (s : String) × (body.batch_id ≡ some (string s))
      × (c.batch_id ≡ codes s)
      × (is_uuid c.batch_id ≡ true)
  pub digest :
      (s : String) × (body.payload_hash ≡ some (string s))
      × (c.payload_hash ≡ codes s)
      × (is_sha256_hex c.payload_hash ≡ true)
  pub range :
      (integer_of body.first_wal_seq ≡ some (pos c.first_wal_seq))
      × (integer_of body.last_wal_seq ≡ some (pos c.last_wal_seq))
      × (1 ≤ c.first_wal_seq)
      × (c.first_wal_seq ≤ c.last_wal_seq)
  pub entries :
      (vs : Values) × (body.decisions ≡ some (array vs)) × (c.decisions ≡ map wire_of (list_of vs))
  pub count : (1 ≤ length c.decisions) × (length c.decisions ≤ max_batch_size)
  pub ends :
      (f l : DecisionWire) × (head? c.decisions ≡ some f)
      × (last? c.decisions ≡ some l)
      × (integer_of f.wal_seq ≡ some (pos c.first_wal_seq))
      × (integer_of l.wal_seq ≡ some (pos c.last_wal_seq))
  pub valid : All (IsValid sv) c.decisions
  pub hashed :
      (computed_hash sv c.decisions ≡ to_lower_case c.payload_hash)
      × (to_lower_case c.batch_id ≡ batch_id_from_payload_hash (to_lower_case c.payload_hash))

head?-map :
    (vs : List Value) (v : Value) → head? vs ≡ some v → head? (map wire_of vs) ≡ some (wire_of v)
head?-map [] v h = absurd cc
head?-map (x ∷ vs) v h = ap (λ y. some (wire_of y)) (some_inj h)

last?-map :
    (vs : List Value) (v : Value) → last? vs ≡ some v → last? (map wire_of vs) ≡ some (wire_of v)
last?-map [] v h = absurd cc
last?-map (x ∷ []) v h = ap (λ y. some (wire_of y)) (some_inj h)
last?-map (x ∷ y ∷ vs) v h = last?-map (y ∷ vs) v h

length-map : (vs : List Value) → length (map wire_of vs) ≡ length vs
length-map [] = refl
length-map (v ∷ vs) = omega (arith, length-map vs)

-- Values of which there are elements are an array.
entries_of-array :
    (v : Option Value)
    → is_empty (entries_of v) ≡ false
    → (vs : Values) × (v ≡ some (array vs))
      × (map wire_of (entries_of v) ≡ map wire_of (list_of vs))
entries_of-array none h = absurd cc
entries_of-array (some null) h = absurd cc
entries_of-array (some (boolean b)) h = absurd cc
entries_of-array (some (number n)) h = absurd cc
entries_of-array (some (string s)) h = absurd cc
entries_of-array (some (array vs)) h = (vs, refl, refl)
entries_of-array (some (object ms)) h = absurd cc

not_empty : (vs : List Value) → is_empty vs ≡ false → 1 ≤ length vs
not_empty [] h = absurd cc
not_empty (v ∷ vs) h = omega arith

-- The first decision's number is positive.
first_positive :
    (sv : Services) (vs : List Value) (f : Value)
    → head? vs ≡ some f
    → All (IsValid sv) (map wire_of vs)
    → (n : ℕ) × (integer_of (wire_of f).wal_seq ≡ some (pos n)) × (1 ≤ n)
first_positive sv [] f h u = absurd cc
first_positive sv (v ∷ vs) f h u =
    subst (λ x. (n : ℕ) × (integer_of (wire_of x).wal_seq ≡ some (pos n)) × (1 ≤ n)) (some_inj h)
      u.0.2

-- The range, where it starts at a positive number.
read_range :
    (first last : Option Value) (n : ℕ)
    → integer_of first ≡ some (pos n)
    → 1 ≤ n
    → is_range (integer_of first) (integer_of last) ≡ true
    → (integer_of first ≡ some (pos (sequence_in first)))
      × (integer_of last ≡ some (pos (sequence_in last)))
      × (1 ≤ sequence_in first)
      × (sequence_in first ≤ sequence_in last)
unfolding sequence_in
read_range first last n e p h =
    by_last (integer_of last) refl (subst (λ o. is_range o (integer_of last) ≡ true) e h)
  where
    by_last :
        (o : Option ℤ)
        → integer_of last ≡ o
        → is_range (some (pos n)) o ≡ true
        → (integer_of first ≡ some (pos (sequence_in first)))
          × (integer_of last ≡ some (pos (sequence_in last)))
          × (1 ≤ sequence_in first)
          × (sequence_in first ≤ sequence_in last)
    by_last none f k = absurd cc
    by_last (some (negsuc m)) f k = absurd (ground arith)
    by_last (some (pos m)) f k = rw (sequence_in, e, f) (refl, refl, p, ground arith)

-- The two numbers that a value and its cast carry are one.
same_number :
    (own head : Option ℤ) (n : ℕ) (m : ℤ)
    → own ≡ some m
    → head ≡ some m
    → own ≡ some (pos n)
    → head ≡ some (pos n)
same_number own head n m e f g = f ∙ sym e ∙ g

batch_problem-none :
    (sv : Services) (body : DecisionBatchWire)
    → batch_problem sv body ≡ none
    → IsBatch sv body (checked body)
unfolding batch_problem checked
batch_problem-none sv body h =
    let vs = entries_of body.decisions in
    let (head, rest) =
      first_of-none (header_problem body)
        (first_of (decisions_problem sv vs) (hash_problem sv body)) h in
    let (loop, tail) = first_of-none (decisions_problem sv vs) (hash_problem sv body) rest in
    let valid = decisions_problem-none sv vs loop in
    let (uuid, hex, range, full, few, (f, l, e, k, (a, own, first), (b, other, last))) =
      header_problem-none body head in
    let (hash, id, is_hash, is_id, hashed, named) = hash_problem-none sv body tail in
    let (n, numbered, positive) = first_positive sv vs f e valid in
    let (low, high, p, q) =
      read_range body.first_wal_seq body.last_wal_seq n
        (same_number (integer_of (wire_of f).wal_seq) (integer_of body.first_wal_seq) n a own first
          numbered)
        positive range in
    let c = checked body in
    let id_text : c.batch_id ≡ codes id = ap (λ v. codes (text_in v)) is_id in
    let hash_text : c.payload_hash ≡ codes hash = ap (λ v. codes (text_in v)) is_hash in
    record {
      id = (
        id,
        is_id,
        id_text,
        subst (λ t. is_uuid t ≡ true) (sym id_text)
            (fits_pattern-string is_uuid body.batch_id id uuid is_id),
      );
      digest = (
        hash,
        is_hash,
        hash_text,
        subst (λ t. is_sha256_hex t ≡ true) (sym hash_text)
            (fits_pattern-string is_sha256_hex body.payload_hash hash hex is_hash),
      );
      range = (low, high, p, q);
      entries = entries_of-array body.decisions full;
      count = (
        subst (λ n. 1 ≤ n) (sym (length-map vs)) (not_empty vs full),
        subst (λ n. n ≤ max_batch_size) (sym (length-map vs)) few,
      );
      ends = (
        wire_of f,
        wire_of l,
        head?-map vs f e,
        last?-map vs l k,
        own ∙ sym first ∙ low,
        other ∙ sym last ∙ high,
      );
      valid = valid;
      hashed = (
        hashed ∙ ap to_lower_case (sym hash_text),
        ap to_lower_case id_text
            ∙ named
            ∙ ap batch_id_from_payload_hash (hashed ∙ ap to_lower_case (sym hash_text)),
      );
    }

pub assert_batch_shape_sound :
    (sv : Services) (body : Option Value)
    → assert_batch_shape sv body ≡ none
    → IsBatch sv (body_in body) (checked (body_in body))
unfolding assert_batch_shape
assert_batch_shape_sound sv none h = absurd cc
assert_batch_shape_sound sv (some null) h = absurd cc
assert_batch_shape_sound sv (some (boolean b)) h = absurd cc
assert_batch_shape_sound sv (some (number n)) h = absurd cc
assert_batch_shape_sound sv (some (string s)) h = absurd cc
assert_batch_shape_sound sv (some (array vs)) h = batch_problem-none sv (batch_wire (array vs)) h
assert_batch_shape_sound sv (some (object ms)) h = batch_problem-none sv (batch_wire (object ms)) h
