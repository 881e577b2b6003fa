-- ===== src/Examples/Submission.antt =====
-- Instances for control-plane/src/domains/attestation/attestationService.ts.
use verilink.Base.{◌≡◌, refl, Bool, true, false, none, some, [], ◌∷◌}
use verilink.Base.Int.{pos}
use verilink.Attestation.Json.{Json, object, field, end, string, get}
use verilink.Attestation.Schema.{validate_schema}
use verilink.Attestation.Submit.{Payload, Services}
use verilink.Attestation.Submit.Store.{Db, Outcome, failed, stored, submit_attestation}
use verilink.Attestation.Submit.Tables.{
  attestations_after, marks_after, HasAdmissible, IsCoherent, submit_attestation-after,
  submit_attestation-IsCoherent,
}

abbrev seen_facts : Json
seen_facts = object (field "observation_ts" (string "2026-01-01T00:00:00Z") end)

abbrev praise : Payload
praise = record {
  attestation_type = "behavioral";
  schema_version = "1";
  facts_json = "{}";
  trust_level_delta = pos 7;
  trust_level_delta_provided = true;
  visibility = "public";
  visibility_provided = true;
  observation_id = "o-1";
  jti = "";
  issued_at_unix = pos 5;
  expires_at_unix = pos 0;
}

abbrev services : Services
services = record {
  env = record { byte_size = λ v. 50; v0_allowlist = []; v0_cutoff = none; now = 0 };
  pre_parse_jws = λ token. some (record { iss = some "issuer"; kid = some "k"; iat = some 5 });
  verify_attestation = λ token keys. record {
    valid = true;
    payload = some praise;
    issuer_id = "issuer";
    subject_id = "vrl:p:00000000-0000-4000-8000-000000000001";
    verified_key_id = "k";
  };
  json_parse = λ text. some seen_facts;
  sha256hex = λ text. text;
  compute_facts_hash = λ facts. some "h";
  native_id = "vrl:p:00000000-0000-4000-8000-000000000002";
}

abbrev tables : Db
tables = record {
  principals = record { id = "issuer"; legacy_did = none } ∷ [];
  issuers = "issuer" ∷ [];
  keys =
      record {
        principal_id = "issuer";
        key_id = "k";
        public_key_raw = "raw";
        is_revoked = false;
        valid_from = 1;
        valid_until = none;
      }
      ∷ [];
  attestations = [];
  marks = 0;
}

abbrev is_stored : Outcome → Bool
is_stored (stored a) = true
is_stored (failed f) = false

-- The first submission of the token is stored, and the second is not.
stored_once : is_stored (submit_attestation services "t" tables).0 ≡ true
unfolding submit_attestation validate_schema get
stored_once = refl

refused_twice :
    is_stored (submit_attestation services "t" (submit_attestation services "t" tables).1).0 ≡ false
unfolding submit_attestation validate_schema get
refused_twice = refl

submit_attestation-after_example :
    ((submit_attestation services "t" tables).1.attestations
      ≡ attestations_after (submit_attestation services "t" tables).0 [])
    × ((submit_attestation services "t" tables).1.marks
        ≡ marks_after (submit_attestation services "t" tables).0 0)
    × HasAdmissible services "t" (submit_attestation services "t" tables).0
submit_attestation-after_example = submit_attestation-after services "t" tables

submit_attestation-IsCoherent_example :
    IsCoherent (submit_attestation services "t" tables).1.attestations
submit_attestation-IsCoherent_example = submit_attestation-IsCoherent services "t" tables tt
