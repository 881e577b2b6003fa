-- ===== src/Attestation/Submit/Store.antt =====
-- control-plane/src/domains/attestation/attestationService.ts: the tables, the subject that is
-- created on demand, and the storing of an attestation.
use verilink.Base.{
  ℕ, ◌+◌, Bool, false, not, ◌&&◌, ◌||◌, Option, none, some, List, [], ◌∷◌, ◌++◌, String,
  if◌then◌else◌, find, is_some, drop, any, map,
}
use verilink.Base.Int.{ℤ, pos, eq_ℤ, ltb_ℤ}
use verilink.Base.Texts.{str_eq, starts_with, codes}
use verilink.Base.Patterns.{is_uuid}
use verilink.Attestation.Json.{Json}
use verilink.Attestation.Schema.{is_v0_allowed_for_issuer}
use verilink.Attestation.Submit.{
  bad_request, conflict, Failure, app, PreParsed, PrincipalKey, Payload, VerifyResult, Services,
  is_set, is_truthy_time, text_of, time_of, resolve_keys, candidate, resolve_schema_version,
  payload_problem,
}

pub record Principal : Type 0 where
  pub id : String
  pub legacy_did : Option String

-- The columns that the service fills. `payload` repeats them, and `bootstrap_origin` is false.
pub record Attestation : Type 0 where
  pub issuer_id : String
  pub subject_id : String
  pub jws_token : String
  pub token_digest : String
  pub facts : Json
  pub facts_hash : String
  pub visibility : String
  pub trust_delta : ℤ
  pub attestation_type : String
  pub schema_version : String
  pub jti : Option String
  pub observation_id : Option String
  pub issued_at : ℤ
  pub expires_at : Option ℤ
  pub verified_key_id : String

-- `marks` counts the calls of `markDirty`. Rows are in the order of their insertion.
pub record Db : Type 0 where
  pub principals : List Principal
  pub issuers : List String
  pub keys : List PrincipalKey
  pub attestations : List Attestation
  pub marks : ℕ

pub data Outcome : Type 0 where
  failed : Failure → Outcome
  stored : Attestation → Outcome

unfoldable pub get_principal : String → List Principal → Option Principal
get_principal id rows = find (λ p. str_eq p.id id) rows

unfoldable pub create_principal : Principal → List Principal → List Principal
unfolding get_principal
create_principal p rows = if is_some (get_principal p.id rows) then rows else rows ++ (p ∷ [])

-- The principal with the legacy id, and the table after it was looked up or created.
unfoldable pub find_or_create_by_legacy_did :
    String → String → List Principal → String × List Principal
find_or_create_by_legacy_did native did rows =
    elim (find (λ p. elim p.legacy_did [ none ↦ false | some d ↦ str_eq d did ]) rows) [
      | some p ↦ (p.id, rows)
      | none ↦ (native, rows ++ (record { id = native; legacy_did = some did } ∷ []))
    ]

abbrev pub subject_prefix : String
subject_prefix = "vrl:p:"

-- Step 9. None where the subject is refused.
unfoldable pub resolve_subject :
    String → Bool → String → List Principal → Option (String × List Principal)
unfolding find_or_create_by_legacy_did create_principal get_principal is_uuid
resolve_subject native legacy subject rows =
    if legacy && not (starts_with subject subject_prefix)
    then some (find_or_create_by_legacy_did native subject rows)
    else if not (starts_with subject subject_prefix)
    then none
    else if not (is_uuid (drop 6 (codes subject)))
    then none
    else some (subject, create_principal (record { id = subject; legacy_did = none }) rows)

unfoldable pub find_by_token_digest : String → List Attestation → Option Attestation
find_by_token_digest digest rows = find (λ a. str_eq a.token_digest digest) rows

-- The rows of one observation.
abbrev pub has_observation : String → String → String → Attestation → Bool
has_observation issuer subject observation a =
    str_eq a.issuer_id issuer
    && str_eq a.subject_id subject
    && elim a.observation_id [ none ↦ false | some o ↦ str_eq o observation ]

-- `LIMIT 1` without an order: the first.
unfoldable pub find_observation_peer :
    String → String → String → List Attestation → Option Attestation
find_observation_peer issuer subject observation rows =
    find (has_observation issuer subject observation) rows

abbrev pub conflicts : Attestation → Attestation → Bool
conflicts peer a =
    not (str_eq peer.attestation_type a.attestation_type)
    || not (eq_ℤ peer.trust_delta a.trust_delta)

-- Whether the peer of the row's observation, if it names one, disagrees with the row.
unfoldable pub is_mismatch : Attestation → List Attestation → Bool
unfolding find_observation_peer
is_mismatch a rows = elim a.observation_id [
  | none ↦ false
  | some o ↦ elim (find_observation_peer a.issuer_id a.subject_id o rows) [
    | none ↦ false
    | some peer ↦ conflicts peer a
  ]
]

-- Step 10: the transaction, and the mark after its commit.
unfoldable pub store : Attestation → Db → Outcome × Db
unfolding find_by_token_digest is_mismatch
store a db =
    if is_some (find_by_token_digest a.token_digest db.attestations)
    then (failed (app conflict), db)
    else if is_mismatch a db.attestations
    then (failed (app bad_request), db)
    else (stored a, record db { attestations = db.attestations ++ (a ∷ []); marks = db.marks + 1 })

abbrev pub or_null : String → Option String
or_null s = if str_eq s "" then none else some s

-- The row that a verified token asks for.
unfoldable pub row_of :
    Services → String → VerifyResult → Payload → String → String → Json → String → Attestation
row_of sv token v p version subject facts hash = record {
  issuer_id = v.issuer_id;
  subject_id = subject;
  jws_token = token;
  token_digest = sv.sha256hex token;
  facts = facts;
  facts_hash = hash;
  visibility = p.visibility;
  trust_delta = p.trust_level_delta;
  attestation_type = p.attestation_type;
  schema_version = version;
  jti = or_null p.jti;
  observation_id = or_null p.observation_id;
  issued_at = p.issued_at_unix;
  expires_at = if ltb_ℤ (pos 0) p.expires_at_unix then some p.expires_at_unix else none;
  verified_key_id = v.verified_key_id;
}

-- Steps 8 to 10.
unfoldable pub submit_checked :
    Services → String → VerifyResult → Payload → String → Bool → Db → Outcome × Db
unfolding resolve_subject store row_of
submit_checked sv token v p version legacy db = elim (sv.json_parse p.facts_json) [
  | none ↦ (failed (app bad_request), db)
  | some facts ↦ elim (sv.compute_facts_hash facts) [
    | none ↦ (failed (app bad_request), db)
    | some hash ↦ elim (resolve_subject sv.native_id legacy v.subject_id db.principals) [
      | none ↦ (failed (app bad_request), db)
      | some (subject, principals) ↦
          store (row_of sv token v p version subject facts hash)
            (record db { principals = principals })
    ]
  ]
]

-- Steps 5 to 10.
unfoldable pub submit_verified :
    Services → String → Option String → VerifyResult → Payload → Db → Outcome × Db
unfolding is_v0_allowed_for_issuer resolve_schema_version payload_problem submit_checked
submit_verified sv token kid v p db =
    let allowlisted = is_v0_allowed_for_issuer sv.env v.issuer_id in
    elim (resolve_schema_version allowlisted p.schema_version) [
      | none ↦ (failed (app bad_request), db)
      | some version ↦
          let legacy = allowlisted && str_eq version "0" in
          elim (payload_problem sv kid legacy v.issuer_id version p) [
            | some failure ↦ (failed failure, db)
            | none ↦ submit_checked sv token v p version legacy db
          ]
    ]

-- Steps 2 to 10, for the issuer and the time that the token claims.
unfoldable pub submit_claimed : Services → String → PreParsed → Db → Outcome × Db
unfolding get_principal resolve_keys submit_verified
submit_claimed sv token pre db =
    let issuer = text_of pre.iss in
    if not (is_some (get_principal issuer db.principals))
    then (failed (app bad_request), db)
    else if not (any (λ i. str_eq i issuer) db.issuers)
    then (failed (app bad_request), db)
    else elim (resolve_keys issuer pre.kid (time_of pre.iat) db.keys) [
      | none ↦ (failed (app bad_request), db)
      | some keys ↦
          let v = sv.verify_attestation token (map candidate keys) in
          if not v.valid then (failed (app bad_request), db) else elim v.payload [
            | none ↦ (failed (app bad_request), db)
            | some p ↦ submit_verified sv token pre.kid v p db
          ]
    ]

unfoldable pub submit_attestation : Services → String → Db → Outcome × Db
unfolding submit_claimed
submit_attestation sv token db = elim (sv.pre_parse_jws token) [
  | none ↦ (failed (app bad_request), db)
  | some pre ↦
      if not (is_set pre.iss) || not (is_truthy_time pre.iat)
      then (failed (app bad_request), db)
      else submit_claimed sv token pre db
]
