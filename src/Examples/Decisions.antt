-- ===== src/Examples/Decisions.antt =====
-- Instances for control-plane/src/domains/decision.
use verilink.Base.{◌≡◌, refl, true, some, List, [], ◌∷◌, ℕ, ◌+◌, if◌then◌else◌}
use verilink.Base.{Option, zero, suc}
use verilink.Base.Int.{pos}
use verilink.Base.Value.{
  Value, Members, number, finite, string, array, object, cons, nil, member, end,
}
use verilink.Decision.Sample.{Services, wire_of}
use verilink.Decision.Batch.{
  CheckedBatch, body_in, checked, assert_batch_shape, bad_request, type_error,
}
use verilink.Decision.Ingest.{Db, key_at, commit, find_batch, duplicate}
use verilink.Decision.Batch.Shape.{IsBatch}
use verilink.Decision.Batch.Accepts.{assert_batch_shape_iff}
use verilink.Base.{◌↔◌, none}
use verilink.Decision.Ingest.Counts.{stored_count, expected, of_node, commit-counts}
use verilink.Decision.Ingest.Repeats.{commit_twice}

abbrev services : Services
services = record {
  is_rfc3339 = λ s. true;
  date_parse = λ s. some 61000;
  hash_of = λ ds. [];
  print = λ v. "";
}

-- A decision with a number in the place of its sequence number, which may be any value.
abbrev decision : Value → Members
decision n = member "wal_seq" n (
    member "fingerprint" (string "f") (
      member "principal_id" (string "p") (
        member "action" (string "deny") (member "decided_at" (string "1970-01-01T00:01:01Z") end))))

abbrev numeral : ℕ → Value
numeral n = number (finite (pos n) 0)

abbrev denial : Value
denial = object (decision (numeral 1))

abbrev body : CheckedBatch
body = record {
  batch_id = 97 ∷ [];
  first_wal_seq = 1;
  last_wal_seq = 2;
  payload_hash = 65 ∷ [];
  decisions = wire_of denial ∷ wire_of denial ∷ [];
}

abbrev no_batches : Db
no_batches = record { edge_nodes = []; rates = []; batches = []; aggregates = []; samples = [] }

commit-counts_example :
    stored_count "t" "n"
      (key_at 60000 "principal" "p" "deny")
      (commit services "t" "n" 10 body no_batches).1.aggregates
    ≡ (if of_node "t" "n" "t" "n"
        then expected services (key_at 60000 "principal" "p" "deny") body.decisions
        else 0)
      + 0
unfolding find_batch
commit-counts_example =
    commit-counts services "t" "n" 10 body no_batches "t" "n" (key_at 60000 "principal" "p" "deny")
      refl

commit_twice_example :
    commit services "t" "n" 10 body (commit services "t" "n" 10 body no_batches).1
    ≡ (duplicate "n", (commit services "t" "n" 10 body no_batches).1)
unfolding find_batch
commit_twice_example = commit_twice services "t" "n" 10 body no_batches "t" 10 refl

-- A hash of 64 zeros, and a body with it around a sequence number.
abbrev zeros : ℕ → List ℕ
zeros zero = []
zeros (suc n) = 48 ∷ zeros n

abbrev hashing : Services
hashing = record services { hash_of = λ ds. zeros 64 }

abbrev body_with : Value → Value → Option Value
body_with n hash = some (
    object (
      member "batch_id" (string "00000000-0000-0000-0000-000000000000") (
        member "first_wal_seq" (numeral 1) (
          member "last_wal_seq" (numeral 1) (
            member "payload_hash" hash
              (member "decisions" (array (cons (object (decision n)) (cons denial nil))) end))))))

abbrev digest : Value
digest = string "0000000000000000000000000000000000000000000000000000000000000000"

assert_batch_shape_iff_example :
    (assert_batch_shape hashing (body_with (numeral 1) digest) ≡ none)
    ↔ IsBatch hashing
        (body_in (body_with (numeral 1) digest))
        (checked (body_in (body_with (numeral 1) digest)))
assert_batch_shape_iff_example = assert_batch_shape_iff hashing (body_with (numeral 1) digest)

-- That body is accepted.
accepts_body : assert_batch_shape hashing (body_with (numeral 1) digest) ≡ none
unfolding assert_batch_shape
accepts_body = refl

-- A sequence number that is a text is refused.
refuses_text : assert_batch_shape hashing (body_with (string "1") digest) ≡ some bad_request
unfolding assert_batch_shape
refuses_text = refl

-- A digest in an array passes the pattern, and fails where it is used as a text.
fails_on_array :
    assert_batch_shape hashing (body_with (numeral 1) (array (cons digest nil))) ≡ some type_error
unfolding assert_batch_shape
fails_on_array = refl
