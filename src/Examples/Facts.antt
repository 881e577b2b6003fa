-- ===== src/Examples/Facts.antt =====
-- Instances for control-plane/src/domains/attestation/schemaValidator.ts.
use verilink.Base.{◌≡◌, refl, true, Option, none, some, [], ◌∷◌, String, suc, ◌≤◌}
use verilink.Attestation.Json.{Fields, object, field, end, string, number, get}
use verilink.Attestation.Schema.{Env, validate_schema, is_object, max_facts_bytes, max_depth}
use verilink.Attestation.Schema.Limits.{levels, validate_schema-levels}

abbrev open_env : Env
open_env = record { byte_size = λ v. 50; v0_allowlist = "old" ∷ []; v0_cutoff = some 9; now = 5 }

abbrev old_type : String
old_type = "behavioral"

abbrev old_issuer : Option String
old_issuer = some "old"

abbrev incident : Fields
incident = field "category" (string "spam") (
    field "severity" (string "low")
      (field "occurrence_timestamp" (string "2026") (field "evidence_digest" (string "d") end)))

abbrev summary : Fields
summary = field "start" (string "a") (
    field "end" (string "b") (
      field "success_count" (number "1")
        (field "failure_count" (number "2") (field "dispute_count" (number "3") end))))

validate_schema-levels_example :
    (is_object (object incident) ≡ true)
    × (50 ≤ max_facts_bytes)
    × (levels (object incident) ≤ suc max_depth)
unfolding validate_schema get
validate_schema-levels_example =
    validate_schema-levels open_env "negative_incident" "1" (object incident) none refl
