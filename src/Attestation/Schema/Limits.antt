-- ===== src/Attestation/Schema/Limits.antt =====
-- How large and how deep accepted facts are, and what legacy submissions need.
use Prim.Native.Nat.{max}
use verilink.Base.{
  ℕ, suc, ◌+◌, ◌≤◌, ◌≡◌, refl, ◌⊎◌, inl, inr, true, false, not, ◌&&◌, Option, none, some, String,
  arith, Bool-cases, first_of-none, if_none, if◌then◌else◌,
}
use verilink.Base.Texts.{str_eq, eq_iff, includes}
use verilink.Attestation.Json.{
  Json, Items, Fields, null, bool, number, string, array, object, nil, cons, end, field, is_nested,
}
use verilink.Attestation.Schema.{
  Env, Problem, check_limits, check_size_and_depth, check_items, check_values, max_facts_bytes,
  max_depth, is_object, supported_types, supported_versions, unknown_type, unknown_version,
  legacy_type, legacy_issuer, expired, validate_native, validate_object, validate_schema,
  validate_legacy, is_v0_allowed_for_issuer, is_v0_cutoff_passed,
}

-- How many arrays and objects stand around the innermost value, the value's own included.
abbrev mutual
  pub levels : Json → ℕ
  levels (array xs) = suc (levels_items xs)
  levels (object fs) = suc (levels_fields fs)
  levels v = 0

  pub levels_items : Items → ℕ
  levels_items nil = 0
  levels_items (cons v xs) = max (levels v) (levels_items xs)

  pub levels_fields : Fields → ℕ
  levels_fields end = 0
  levels_fields (field k v fs) = max (levels v) (levels_fields fs)

check_limits-none :
    (env : Env) (v : Json) (depth : ℕ)
    → check_limits env v depth ≡ none
    → (env.byte_size v ≤ max_facts_bytes) × (depth ≤ max_depth)
unfolding check_limits
check_limits-none env v depth h = ground arith

flat-levels : (v : Json) → is_nested v ≡ false → levels v ≡ 0
unfolding is_nested
flat-levels (array xs) e = absurd cc
flat-levels (object fs) e = absurd cc
flat-levels null e = refl
flat-levels (bool b) e = refl
flat-levels (number n) e = refl
flat-levels (string s) e = refl

mutual
  unfolding check_size_and_depth is_nested

  depth-levels :
      (env : Env) (v : Json) (depth : ℕ)
      → check_size_and_depth env v depth ≡ none
      → (is_nested v ≡ false) ⊎ (levels v + depth ≤ suc max_depth)
  depth-levels env null depth h = inl refl
  depth-levels env (bool b) depth h = inl refl
  depth-levels env (number n) depth h = inl refl
  depth-levels env (string s) depth h = inl refl
  depth-levels env (array xs) depth h =
      let (own, inside) =
        first_of-none (check_limits env (array xs) depth) (check_items env xs depth) h in
      let fits = check_limits-none env (array xs) depth own in
      inr (omega (arith, fits.1, items-levels env xs depth fits.1 inside))
  depth-levels env (object fs) depth h =
      let (own, inside) =
        first_of-none (check_limits env (object fs) depth) (check_values env fs depth) h in
      let fits = check_limits-none env (object fs) depth own in
      inr (omega (arith, fits.1, values-levels env fs depth fits.1 inside))

  items-levels :
      (env : Env) (xs : Items) (depth : ℕ)
      → depth ≤ max_depth
      → check_items env xs depth ≡ none
      → levels_items xs + depth ≤ max_depth
  items-levels env nil depth d h = omega arith
  items-levels env (cons v xs) depth d h = elim (Bool-cases (is_nested v)) [
    | inl e ↦
        let (inside, rest) =
          first_of-none (check_size_and_depth env v (depth + 1)) (check_items env xs depth)
            (rw e at h) in
        elim (depth-levels env v (depth + 1) inside) [
          | inl flat ↦ absurd cc
          | inr deep ↦ omega (arith, deep, items-levels env xs depth d rest)
        ]
    | inr e ↦ omega (arith, flat-levels v e, items-levels env xs depth d (rw e at h))
  ]

  values-levels :
      (env : Env) (fs : Fields) (depth : ℕ)
      → depth ≤ max_depth
      → check_values env fs depth ≡ none
      → levels_fields fs + depth ≤ max_depth
  values-levels env end depth d h = omega arith
  values-levels env (field k v fs) depth d h = elim (Bool-cases (is_nested v)) [
    | inl e ↦
        let (inside, rest) =
          first_of-none (check_size_and_depth env v (depth + 1)) (check_values env fs depth)
            (rw e at h) in
        elim (depth-levels env v (depth + 1) inside) [
          | inl flat ↦ absurd cc
          | inr deep ↦ omega (arith, deep, values-levels env fs depth d rest)
        ]
    | inr e ↦ omega (arith, flat-levels v e, values-levels env fs depth d (rw e at h))
  ]

abbrev by_version : Env → String → String → Fields → Option String → Option Problem
by_version env type version fs issuer =
    if str_eq version "0" then validate_legacy env type issuer else validate_native env type fs

accepted_object :
    (env : Env) (type version : String) (fs : Fields) (issuer : Option String)
    → validate_schema env type version (object fs) issuer ≡ none
    → validate_object env type version fs issuer ≡ none
unfolding validate_schema
accepted_object env type version fs issuer h =
    let typed =
      if_none (not (includes supported_types type)) unknown_type
        (if not (includes supported_versions version)
          then some unknown_version
          else validate_object env type version fs issuer)
        h in
    (if_none (not (includes supported_versions version)) unknown_version
      (validate_object env type version fs issuer) typed.1).1

-- Facts that are accepted, in any version and of any type, are an object whose JSON has at most
-- 8192 bytes and in which at most five arrays and objects stand around a value, the object itself
-- included.
pub validate_schema-levels :
    (env : Env) (type version : String) (facts : Json) (issuer : Option String)
    → validate_schema env type version facts issuer ≡ none
    → (is_object facts ≡ true)
      × (env.byte_size facts ≤ max_facts_bytes)
      × (levels facts ≤ suc max_depth)
unfolding validate_schema
validate_schema-levels env type version (object fs) issuer h =
    let checked : check_size_and_depth env (object fs) 0 ≡ none =
      (first_of-none (check_size_and_depth env (object fs) 0)
        (by_version env type version fs issuer) (accepted_object env type version fs issuer h)).0 in
    let (own, inside) =
      first_of-none (check_limits env (object fs) 0) (check_values env fs 0) checked in
    let fits = check_limits-none env (object fs) 0 own in
    (refl, fits.0, omega (arith, values-levels env fs 0 fits.1 inside))
validate_schema-levels env type version null issuer h = absurd (ground arith)
validate_schema-levels env type version (bool b) issuer h = absurd (ground arith)
validate_schema-levels env type version (number b) issuer h = absurd (ground arith)
validate_schema-levels env type version (string b) issuer h = absurd (ground arith)
validate_schema-levels env type version (array b) issuer h = absurd (ground arith)

cutoff_open :
    (env : Env) (cutoff : Option ℕ)
    → env.v0_cutoff ≡ cutoff
    → is_v0_cutoff_passed env ≡ false
    → (t : ℕ) × (env.v0_cutoff ≡ some t) × (env.now ≤ t)
unfolding is_v0_cutoff_passed
cutoff_open env none e h = absurd (ground arith)
cutoff_open env (some t) e h = (t, e, ground arith)

legacy_accepts :
    (env : Env) (type : String) (issuer : Option String)
    → validate_legacy env type issuer ≡ none
    → (type ≡ "behavioral")
      × ((i : String) × (issuer ≡ some i) × (includes env.v0_allowlist i ≡ true))
      × ((t : ℕ) × (env.v0_cutoff ≡ some t) × (env.now ≤ t))
unfolding validate_legacy
legacy_accepts env type none h = absurd (ground arith)
legacy_accepts env type (some i) h =
    let (a, h1) =
      if_none (not (str_eq type "behavioral")) legacy_type
        (if not (not (str_eq i "") && is_v0_allowed_for_issuer env i)
          then some legacy_issuer
          else if is_v0_cutoff_passed env
          then some expired
          else none)
        h in
    let (b, h2) =
      if_none (not (not (str_eq i "") && is_v0_allowed_for_issuer env i)) legacy_issuer
        (if is_v0_cutoff_passed env then some expired else none) h1 in
    let c = (if_none (is_v0_cutoff_passed env) expired none h2).0 in
    (
      ground (arith, eq_iff type "behavioral"),
      (i, refl, ground arith),
      cutoff_open env env.v0_cutoff refl c,
    )

-- Facts that are accepted in version 0 are of the type `behavioral`, the issuer is named and in
-- the allowlist, and a cutoff is set that the clock has not passed.
validate_schema-legacy :
    (env : Env) (type : String) (facts : Json) (issuer : Option String)
    → validate_schema env type "0" facts issuer ≡ none
    → (type ≡ "behavioral")
      × ((i : String) × (issuer ≡ some i) × (includes env.v0_allowlist i ≡ true))
      × ((t : ℕ) × (env.v0_cutoff ≡ some t) × (env.now ≤ t))
unfolding validate_schema
validate_schema-legacy env type (object fs) issuer h =
    legacy_accepts env type issuer
      (first_of-none (check_size_and_depth env (object fs) 0) (validate_legacy env type issuer)
        (accepted_object env type "0" fs issuer h)).1
validate_schema-legacy env type null issuer h = absurd (ground arith)
validate_schema-legacy env type (bool b) issuer h = absurd (ground arith)
validate_schema-legacy env type (number b) issuer h = absurd (ground arith)
validate_schema-legacy env type (string b) issuer h = absurd (ground arith)
validate_schema-legacy env type (array b) issuer h = absurd (ground arith)
