-- ===== src/Attestation/Submit.antt =====
-- control-plane/src/domains/attestation/attestationService.ts, with the queries that it makes:
-- principal/principalRepository.ts and attestation/attestationRepository.ts. Times are in seconds.
-- The parser of tokens, the trust engine, the hashes and the random ids are the `Services`.
-- Transactions follow one another, as the lock and the unique index make them.
pub mod Store
pub mod Guards
pub mod Tables
use verilink.Base.{
  ℕ, Bool, true, false, not, ◌&&◌, ◌||◌, Option, none, some, List, [], ◌∷◌, String, if◌then◌else◌,
  leb, first_of, find, keep, is_empty, is_some, map,
}
use verilink.Base.Int.{ℤ, pos, negsuc, ltb_ℤ}
use verilink.Base.Texts.{str_eq, includes}
use verilink.Attestation.Json.{Json}
use verilink.Attestation.Schema.{Problem, expired, Env, is_v0_allowed_for_issuer, validate_schema}

pub data Code : Type 0 where
  bad_request unprocessable conflict : Code

-- An `AppError`, or an error of another kind that is thrown on.
pub data Failure : Type 0 where
  app : Code → Failure
  internal : Failure

pub record PreParsed : Type 0 where
  pub iss : Option String
  pub kid : Option String
  pub iat : Option ℕ

pub record PrincipalKey : Type 0 where
  pub principal_id : String
  pub key_id : String
  pub public_key_raw : String
  pub is_revoked : Bool
  pub valid_from : ℕ
  pub valid_until : Option ℕ

pub record KeyCandidate : Type 0 where
  pub key_id : String
  pub public_key_raw : String

pub record Payload : Type 0 where
  pub attestation_type : String
  pub schema_version : String
  pub facts_json : String
  pub trust_level_delta : ℤ
  pub trust_level_delta_provided : Bool
  pub visibility : String
  pub visibility_provided : Bool
  pub observation_id : String
  pub jti : String
  pub issued_at_unix : ℤ
  pub expires_at_unix : ℤ

pub record VerifyResult : Type 0 where
  pub valid : Bool
  pub payload : Option Payload
  pub issuer_id : String
  pub subject_id : String
  pub verified_key_id : String

-- What stands outside of the service: `preParseJWS` (none where it throws), the trust engine,
-- `JSON.parse`, the two hashes (none where canonicalization throws), and `randomUUID`.
pub record Services : Type 0 where
  pub env : Env
  pub pre_parse_jws : String → Option PreParsed
  pub verify_attestation : String → List KeyCandidate → VerifyResult
  pub json_parse : String → Option Json
  pub sha256hex : String → String
  pub compute_facts_hash : Json → Option String
  pub native_id : String

abbrev pub is_set : Option String → Bool
is_set none = false
is_set (some s) = not (str_eq s "")

abbrev pub is_truthy_time : Option ℕ → Bool
is_truthy_time none = false
is_truthy_time (some t) = leb 1 t

abbrev pub text_of : Option String → String
text_of none = ""
text_of (some s) = s

abbrev pub time_of : Option ℕ → ℕ
time_of none = 0
time_of (some t) = t

-- The condition that `getKeyByKid` and `getActiveKeysAt` share.
abbrev pub is_active_at : String → ℕ → PrincipalKey → Bool
is_active_at issuer iat k =
    str_eq k.principal_id issuer
    && not k.is_revoked
    && leb k.valid_from iat
    && elim k.valid_until [ none ↦ true | some t ↦ leb iat t ]

unfoldable pub get_key_by_kid : String → String → ℕ → List PrincipalKey → Option PrincipalKey
get_key_by_kid issuer kid iat keys =
    find (λ k. is_active_at issuer iat k && str_eq k.key_id kid) keys

-- `ORDER BY valid_from`
abbrev pub insert_key : PrincipalKey → List PrincipalKey → List PrincipalKey
insert_key k [] = k ∷ []
insert_key k (x ∷ xs) =
    let rest = insert_key k xs in if leb k.valid_from x.valid_from then k ∷ x ∷ xs else x ∷ rest

abbrev pub by_valid_from : List PrincipalKey → List PrincipalKey
by_valid_from [] = []
by_valid_from (k ∷ ks) = insert_key k (by_valid_from ks)

unfoldable pub get_active_keys_at : String → ℕ → List PrincipalKey → List PrincipalKey
get_active_keys_at issuer iat keys = by_valid_from (keep (is_active_at issuer iat) keys)

-- Step 3: none where the code throws.
unfoldable pub resolve_keys :
    String → Option String → ℕ → List PrincipalKey → Option (List PrincipalKey)
unfolding get_key_by_kid get_active_keys_at
resolve_keys issuer kid iat keys =
    if is_set kid
    then elim (get_key_by_kid issuer (text_of kid) iat keys) [
      | none ↦ none
      | some k ↦ some (k ∷ [])
    ]
    else (let active = get_active_keys_at issuer iat keys in
        if is_empty active then none else some active)

abbrev pub candidate : PrincipalKey → KeyCandidate
candidate k = record { key_id = k.key_id; public_key_raw = k.public_key_raw }

-- Step 5: the version, which an allowlisted issuer may leave out.
unfoldable pub resolve_schema_version : Bool → String → Option String
resolve_schema_version allowlisted version =
    if str_eq version "" then (if allowlisted then some "0" else none) else some version

unfoldable pub native_problem : Option String → Bool → Payload → Option Failure
native_problem kid legacy p =
    if not (is_set kid) && not legacy
    then some (app bad_request)
    else if not legacy && not p.trust_level_delta_provided
    then some (app bad_request)
    else if not legacy && not p.visibility_provided
    then some (app bad_request)
    else none

-- The error that a problem of the schema is thrown on as.
abbrev pub schema_failure : Problem → Failure
schema_failure expired = app unprocessable
schema_failure p = app bad_request

unfoldable pub schema_problem : Services → String → String → Payload → Option Failure
schema_problem sv issuer version p = elim (sv.json_parse p.facts_json) [
  | none ↦ some internal
  | some facts ↦ elim (validate_schema sv.env p.attestation_type version facts (some issuer)) [
    | none ↦ none
    | some problem ↦ some (schema_failure problem)
  ]
]

-- Steps 6, 7 and 7b.
unfoldable pub value_problem : Payload → Option Failure
value_problem p =
    let negative = str_eq p.attestation_type "negative_incident" in
    if ltb_ℤ p.trust_level_delta (negsuc 99) || ltb_ℤ (pos 100) p.trust_level_delta
    then some (app bad_request)
    else if negative && not (ltb_ℤ p.trust_level_delta (pos 0))
    then some (app bad_request)
    else if not negative && ltb_ℤ p.trust_level_delta (pos 0)
    then some (app bad_request)
    else if not (str_eq p.visibility "participants") && not (str_eq p.visibility "public")
    then some (app bad_request)
    else none

unfoldable pub payload_problem :
    Services → Option String → Bool → String → String → Payload → Option Failure
unfolding native_problem schema_problem value_problem
payload_problem sv kid legacy issuer version p =
    first_of (native_problem kid legacy p)
      (first_of (schema_problem sv issuer version p) (value_problem p))
