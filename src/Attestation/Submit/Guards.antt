-- ===== src/Attestation/Submit/Guards.antt =====
-- What a stored attestation satisfies, and what a submission does to the tables.
use verilink.Base.{
  ◌≡◌, refl, ◌⊎◌, inl, inr, Bool, false, not, ◌&&◌, ◌||◌, Option, none, some, List, String, arith,
  first_of, first_of-none, Option-cases, Bool-cases, map, any, is_some,
}
use verilink.Base.Int.{ℤ, pos, negsuc, ltb_ℤ}
use verilink.Base.Texts.{str_eq, eq_iff}
use verilink.Attestation.Json.{Json}
use verilink.Attestation.Schema.{Problem, validate_schema, is_v0_allowed_for_issuer}
use verilink.Attestation.Submit.{
  bad_request, Failure, app, PreParsed, Payload, VerifyResult, Services, is_set, is_truthy_time,
  text_of, time_of, resolve_keys, candidate, resolve_schema_version, native_problem, schema_problem,
  value_problem, payload_problem,
}
use verilink.Attestation.Submit.Store.{
  Principal, Attestation, Db, Outcome, failed, get_principal, resolve_subject, store, row_of,
  submit_checked, submit_verified, submit_claimed, submit_attestation,
}

-- The rules on the values of a row: the delta is from -100 to 100, it is negative exactly for a
-- negative incident, and the visibility is one of two.
abbrev pub HasFairValues : ℤ → String → String → Type 0
HasFairValues delta type visibility =
    (ltb_ℤ delta (negsuc 99) ≡ false)
    × (ltb_ℤ (pos 100) delta ≡ false)
    × (ltb_ℤ delta (pos 0) ≡ str_eq type "negative_incident")
    × ((visibility ≡ "participants") ⊎ (visibility ≡ "public"))

-- What a row holds for its token: fair values, facts that the schema accepts for the row's type,
-- version and issuer, and the two hashes.
abbrev pub IsAdmissible : Services → String → Attestation → Type 0
IsAdmissible sv token a =
    HasFairValues a.trust_delta a.attestation_type a.visibility
    × (validate_schema sv.env a.attestation_type a.schema_version a.facts (some a.issuer_id) ≡ none)
    × (a.token_digest ≡ sv.sha256hex token)
    × (sv.compute_facts_hash a.facts ≡ some a.facts_hash)

value_problem-none :
    (p : Payload)
    → value_problem p ≡ none
    → HasFairValues p.trust_level_delta p.attestation_type p.visibility
unfolding value_problem
value_problem-none p h =
    ground (arith, eq_iff p.visibility "participants", eq_iff p.visibility "public")

schema_problem-none :
    (sv : Services) (issuer version : String) (p : Payload) (facts : Json)
    → sv.json_parse p.facts_json ≡ some facts
    → schema_problem sv issuer version p ≡ none
    → validate_schema sv.env p.attestation_type version facts (some issuer) ≡ none
unfolding schema_problem
schema_problem-none sv issuer version p facts e h = go (judged) refl
  where
    judged : Option Problem
    judged = validate_schema sv.env p.attestation_type version facts (some issuer)

    go : (o : Option Problem) → judged ≡ o → judged ≡ none
    go none q = q
    go (some problem) q = absurd ground (arith, e, h, q)

-- A submission fails and changes nothing, or ends in the transaction for an admissible row, with
-- the subject's principal in the table.
abbrev pub Ends : Services → String → Db → Outcome × Db → Type 0
Ends sv token db r =
    ((f : Failure) × (r ≡ (failed f, db)))
    ⊎ ((a : Attestation) × (ps : List Principal) × IsAdmissible sv token a
        × (r ≡ store a (record db { principals = ps })))

submit_checked-Ends :
    (sv : Services) (token : String) (v : VerifyResult) (p : Payload) (version : String)
    (legacy : Bool) (db : Db)
    → schema_problem sv v.issuer_id version p ≡ none
    → value_problem p ≡ none
    → Ends sv token db (submit_checked sv token v p version legacy db)
unfolding submit_checked
submit_checked-Ends sv token v p version legacy db s h =
    elim (Option-cases (sv.json_parse p.facts_json)) [
      | inl e ↦ inl (app bad_request, rw (e, submit_checked) refl)
      | inr (facts, e) ↦ elim (Option-cases (sv.compute_facts_hash facts)) [
        | inl k ↦ inl (app bad_request, rw (e, k, submit_checked) refl)
        | inr (hash, k) ↦
            elim (Option-cases (resolve_subject sv.native_id legacy v.subject_id db.principals)) [
              | inl r ↦ inl (app bad_request, rw (e, k, r, submit_checked) refl)
              | inr ((subject, ps), r) ↦ inr (
                row_of sv token v p version subject facts hash,
                ps,
                (
                  value_problem-none p h,
                  schema_problem-none sv v.issuer_id version p facts e s,
                  refl,
                  k,
                ),
                rw (e, k, r, submit_checked) refl,
              )
            ]
      ]
    ]

submit_verified-Ends :
    (sv : Services) (token : String) (kid : Option String) (v : VerifyResult) (p : Payload)
    (db : Db)
    → Ends sv token db (submit_verified sv token kid v p db)
unfolding submit_verified payload_problem
submit_verified-Ends sv token kid v p db =
    let allowlisted = is_v0_allowed_for_issuer sv.env v.issuer_id in
    elim (Option-cases (resolve_schema_version allowlisted p.schema_version)) [
      | inl e ↦ inl (app bad_request, rw (e, submit_verified) refl)
      | inr (version, e) ↦
          let legacy = allowlisted && str_eq version "0" in
          elim (Option-cases (payload_problem sv kid legacy v.issuer_id version p)) [
            | inr (failure, k) ↦ inl (failure, rw (e, k, submit_verified) refl)
            | inl k ↦
                let (_, both) =
                  first_of-none (native_problem kid legacy p)
                    (first_of (schema_problem sv v.issuer_id version p) (value_problem p)) k in
                let (s, h) =
                  first_of-none (schema_problem sv v.issuer_id version p) (value_problem p) both in
                rw (e, k, submit_verified) (submit_checked-Ends sv token v p version legacy db s h)
          ]
    ]

submit_claimed-Ends :
    (sv : Services) (token : String) (pre : PreParsed) (db : Db)
    → Ends sv token db (submit_claimed sv token pre db)
unfolding submit_claimed
submit_claimed-Ends sv token pre db =
    elim (Bool-cases (is_some (get_principal (text_of pre.iss) db.principals))) [
      | inr e ↦ inl (app bad_request, rw (e, submit_claimed) refl)
      | inl e ↦ elim (Bool-cases (any (λ i. str_eq i (text_of pre.iss)) db.issuers)) [
        | inr k ↦ inl (app bad_request, rw (e, k, submit_claimed) refl)
        | inl k ↦
            elim (Option-cases (resolve_keys (text_of pre.iss) pre.kid (time_of pre.iat) db.keys)) [
              | inl r ↦ inl (app bad_request, rw (e, k, r, submit_claimed) refl)
              | inr (keys, r) ↦
                  let v = sv.verify_attestation token (map candidate keys) in
                  elim (Bool-cases v.valid) [
                    | inr b ↦ inl (app bad_request, rw (e, k, r, b, submit_claimed) refl)
                    | inl b ↦ elim (Option-cases v.payload) [
                      | inl n ↦ inl (app bad_request, rw (e, k, r, b, n, submit_claimed) refl)
                      | inr (p, n) ↦
                          rw (e, k, r, b, n, submit_claimed)
                            (submit_verified-Ends sv token pre.kid v p db)
                    ]
                  ]
            ]
      ]
    ]

pub submit_attestation-Ends :
    (sv : Services) (token : String) (db : Db) → Ends sv token db (submit_attestation sv token db)
unfolding submit_attestation
submit_attestation-Ends sv token db = elim (Option-cases (sv.pre_parse_jws token)) [
  | inl e ↦ inl (app bad_request, rw (e, submit_attestation) refl)
  | inr (pre, e) ↦ elim (Bool-cases (not (is_set pre.iss) || not (is_truthy_time pre.iat))) [
    | inl b ↦ inl (app bad_request, rw (e, b, submit_attestation) refl)
    | inr b ↦ rw (e, b, submit_attestation) (submit_claimed-Ends sv token pre db)
  ]
]
