-- ===== src/Attestation/Schema.antt =====
-- control-plane/src/domains/attestation/schemaValidator.ts and legacyConfig.ts: the checks of an
-- attestation's type, version and facts. A check that throws returns what it throws.
pub mod Fixed
pub mod Limits
use verilink.Base.{
  ℕ, ◌+◌, Bool, true, false, not, ◌&&◌, ◌||◌, Option, none, some, List, [], ◌∷◌, String,
  if◌then◌else◌, ltb, first_of,
}
use verilink.Base.Texts.{str_eq, includes}
use verilink.Attestation.Json.{
  Json, Items, Fields, null, bool, number, string, array, object, nil, cons, end, field, get,
  is_nested,
}

-- `expired` is the `SchemaValidationExpiredError`, the others are `SchemaValidationError`s.
pub data Problem : Type 0 where
  unknown_type unknown_version not_an_object too_big too_deep no_keys data_too_big : Problem
  legacy_type legacy_issuer expired : Problem
  missing not_a_string not_a_number unknown_property not_primitive : String → Problem

-- What the process knows: the size of a value in JSON, the allowlist, the cutoff where it is set
-- and a date, and the clock, in milliseconds.
pub record Env : Type 0 where
  pub byte_size : Json → ℕ
  pub v0_allowlist : List String
  pub v0_cutoff : Option ℕ
  pub now : ℕ

unfoldable pub is_v0_allowed_for_issuer : Env → String → Bool
is_v0_allowed_for_issuer env issuer = includes env.v0_allowlist issuer

unfoldable pub is_v0_cutoff_passed : Env → Bool
is_v0_cutoff_passed env = elim env.v0_cutoff [ none ↦ true | some cutoff ↦ ltb cutoff env.now ]

abbrev pub max_facts_bytes : ℕ
max_facts_bytes = 8192

abbrev pub max_depth : ℕ
max_depth = 4

abbrev pub max_data_bytes : ℕ
max_data_bytes = 4096

-- The two tests of `checkSizeAndDepth`, and the loop over the values inside.
unfoldable pub check_limits : Env → Json → ℕ → Option Problem
check_limits env v depth =
    if ltb max_facts_bytes (env.byte_size v)
    then some too_big
    else if ltb max_depth depth
    then some too_deep
    else none

unfoldable mutual
  unfolding check_limits is_nested

  pub check_size_and_depth : Env → Json → ℕ → Option Problem
  check_size_and_depth env (array xs) depth =
      first_of (check_limits env (array xs) depth) (check_items env xs depth)
  check_size_and_depth env (object fs) depth =
      first_of (check_limits env (object fs) depth) (check_values env fs depth)
  check_size_and_depth env v depth = check_limits env v depth

  pub check_items : Env → Items → ℕ → Option Problem
  check_items env nil depth = none
  check_items env (cons v xs) depth =
      let inside = check_size_and_depth env v (depth + 1) in
      let rest = check_items env xs depth in if is_nested v then first_of inside rest else rest

  pub check_values : Env → Fields → ℕ → Option Problem
  check_values env end depth = none
  check_values env (field k v fs) depth =
      let inside = check_size_and_depth env v (depth + 1) in
      let rest = check_values env fs depth in if is_nested v then first_of inside rest else rest

abbrev pub is_absent : Option Json → Bool
is_absent none = true
is_absent (some null) = true
is_absent (some v) = false

unfoldable pub require_fields : Fields → List String → Option Problem
require_fields facts [] = none
require_fields facts (f ∷ fs) =
    let rest = require_fields facts fs in if is_absent (get f facts) then some (missing f) else rest

unfoldable pub require_string : Fields → String → Option Problem
require_string facts f = elim (get f facts) [
  | none ↦ some (missing f)
  | some null ↦ some (missing f)
  | some (string s) ↦ none
  | some v ↦ some (not_a_string f)
]

unfoldable pub require_number : Fields → String → Option Problem
require_number facts f = elim (get f facts) [
  | none ↦ some (missing f)
  | some null ↦ some (missing f)
  | some (number s) ↦ none
  | some v ↦ some (not_a_number f)
]

unfoldable pub reject_extra_properties : Fields → List String → Option Problem
reject_extra_properties end allowed = none
reject_extra_properties (field k v fs) allowed =
    let rest = reject_extra_properties fs allowed in
    if not (includes allowed k) then some (unknown_property k) else rest

abbrev pub ts_fields : List String
ts_fields = "start" ∷ "end" ∷ "success_count" ∷ "failure_count" ∷ "dispute_count" ∷ []

unfoldable pub validate_transaction_summary : Fields → Option Problem
unfolding require_fields require_string require_number reject_extra_properties
validate_transaction_summary facts = first_of (require_fields facts ts_fields) (
    first_of (require_string facts "start") (
      first_of (require_string facts "end") (
        first_of (require_number facts "success_count") (
          first_of (require_number facts "failure_count") (
            first_of (require_number facts "dispute_count")
              (reject_extra_properties facts ts_fields))))))

unfoldable pub require_strings : Fields → List String → Option Problem
unfolding require_string
require_strings facts [] = none
require_strings facts (f ∷ fs) = first_of (require_string facts f) (require_strings facts fs)

-- The body that `validateKyb`, `validateSecurityAudit` and `validateNegativeIncident` share.
unfoldable pub validate_strings : List String → Fields → Option Problem
unfolding require_fields require_strings reject_extra_properties
validate_strings fields facts =
    first_of (require_fields facts fields)
      (first_of (require_strings facts fields) (reject_extra_properties facts fields))

abbrev pub kyb_fields : List String
kyb_fields =
    "status" ∷ "verifier" ∷ "jurisdiction" ∷ "verification_timestamp" ∷ "expiry_timestamp" ∷ []

abbrev pub audit_fields : List String
audit_fields = "standard" ∷ "result" ∷ "auditor" ∷ "report_digest" ∷ "audit_timestamp" ∷ []

abbrev pub incident_fields : List String
incident_fields = "category" ∷ "severity" ∷ "occurrence_timestamp" ∷ "evidence_digest" ∷ []

abbrev pub is_primitive : Json → Bool
is_primitive (string s) = true
is_primitive (number n) = true
is_primitive (bool b) = true
is_primitive v = false

abbrev pub is_object : Json → Bool
is_object (object fs) = true
is_object v = false

-- One turn of the loop of `validateBehavioralV1`.
unfoldable pub check_entry : Env → String → Json → Option Problem
check_entry env k v =
    if str_eq k "observation_ts"
    then none
    else if str_eq k "data" && is_object v
    then (if ltb max_data_bytes (env.byte_size v) then some data_too_big else none)
    else if not (is_primitive v)
    then some (not_primitive k)
    else none

unfoldable pub check_entries : Env → Fields → Option Problem
unfolding check_entry
check_entries env end = none
check_entries env (field k v fs) = first_of (check_entry env k v) (check_entries env fs)

abbrev pub has_no_keys : Fields → Bool
has_no_keys end = true
has_no_keys (field k v fs) = false

unfoldable pub validate_behavioral_v1 : Env → Fields → Option Problem
unfolding require_string check_entries
validate_behavioral_v1 env facts =
    if has_no_keys facts
    then some no_keys
    else first_of (require_string facts "observation_ts") (check_entries env facts)

abbrev pub supported_types : List String
supported_types =
    "behavioral" ∷ "transaction_summary" ∷ "kyb" ∷ "security_audit" ∷ "negative_incident" ∷ []

abbrev pub supported_versions : List String
supported_versions = "0" ∷ "1" ∷ []

-- The branch for version 0.
unfoldable pub validate_legacy : Env → String → Option String → Option Problem
unfolding is_v0_allowed_for_issuer is_v0_cutoff_passed
validate_legacy env type issuer =
    if not (str_eq type "behavioral")
    then some legacy_type
    else if not (elim issuer [
      | none ↦ false
      | some i ↦ not (str_eq i "") && is_v0_allowed_for_issuer env i
    ])
    then some legacy_issuer
    else if is_v0_cutoff_passed env
    then some expired
    else none

-- The `switch` for version 1. Its default is unreachable: the type is one of the supported.
unfoldable pub validate_native : Env → String → Fields → Option Problem
unfolding validate_behavioral_v1 validate_transaction_summary validate_strings
validate_native env type facts =
    if str_eq type "behavioral"
    then validate_behavioral_v1 env facts
    else if str_eq type "transaction_summary"
    then validate_transaction_summary facts
    else if str_eq type "kyb"
    then validate_strings kyb_fields facts
    else if str_eq type "security_audit"
    then validate_strings audit_fields facts
    else if str_eq type "negative_incident"
    then validate_strings incident_fields facts
    else some unknown_type

unfoldable pub validate_object : Env → String → String → Fields → Option String → Option Problem
unfolding check_size_and_depth validate_legacy validate_native
validate_object env type version facts issuer =
    first_of (check_size_and_depth env (object facts) 0) (
      if str_eq version "0"
      then validate_legacy env type issuer
      else validate_native env type facts)

unfoldable pub validate_schema : Env → String → String → Json → Option String → Option Problem
unfolding validate_object
validate_schema env type version facts issuer =
    if not (includes supported_types type)
    then some unknown_type
    else if not (includes supported_versions version)
    then some unknown_version
    else elim facts [
      | object fs ↦ validate_object env type version fs issuer
      | _ ↦ some not_an_object
    ]
