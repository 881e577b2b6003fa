-- ===== src/Policy/Validation/Accepts.antt =====
-- Which bodies are read as which policies.
use verilink.Base.{
  ℕ, ◌/◌, ◌%◌, ◌^◌, ◌==◌, ◌≤◌, ◌≡◌, refl, subst, inl, inr, Bool, true, false, not, some, List, [],
  ◌∷◌, String, arith, Bool-cases, Option-cases, ltb, all, length, ◌>>◌, throw_if, throw_if-eq-some,
  >>=-eq-some, >>=-All, some_inj,
}
use verilink.Base.Int.{pos, negsuc}
use verilink.Base.Texts.{includes}
use verilink.Policy.Validation.{
  Number, finite, Value, null, boolean, number, string, array, object, Values, nil, cons, Members,
  end, member, field, or_default, PolicyUpdate, actions_below, actions_unsigned, natural,
  threshold_of, action_of, boolean_of, rate_of, is_text_entry, strings_of, as_string_array,
  default_rate, parse_members, parse_policy_update,
}

-- Between 0 and 1.
abbrev pub is_rate : Number → Bool
is_rate (finite (pos m) e) = not (ltb (2 ^ e) m)
is_rate _ = false

-- What the edges may rely on.
pub record IsPolicy (u : PolicyUpdate) : Type 0 where
  pub threshold : u.threshold ≤ 100
  pub below : includes actions_below u.below_threshold_action ≡ true
  pub unsigned : includes actions_unsigned u.unsigned_action ≡ true
  pub allow : (all is_text_entry u.allow_fingerprints ≡ true) × (length u.allow_fingerprints ≤ 256)
  pub deny : (all is_text_entry u.deny_fingerprints ≡ true) × (length u.deny_fingerprints ≤ 256)
  pub rate : is_rate u.allow_sample_rate ≡ true

abbrev pub values_of : List String → Values
values_of [] = nil
values_of (s ∷ l) = cons (string s) (values_of l)

-- The body that says what a policy says.
unfoldable pub body_of : PolicyUpdate → Value
body_of u = object (
    member "threshold" (number (finite (pos u.threshold) 0)) (
      member "below_threshold_action" (string u.below_threshold_action) (
        member "unsigned_action" (string u.unsigned_action) (
          member "allow_fingerprints" (array (values_of u.allow_fingerprints)) (
            member "deny_fingerprints" (array (values_of u.deny_fingerprints)) (
              member "fail_open_expired" (boolean u.fail_open_expired) (
                member "no_drop_decisions" (boolean u.no_drop_decisions) (
                  member "max_snapshot_age_seconds"
                    (number (finite (pos u.max_snapshot_age_seconds) 0))
                    (member "allow_sample_rate" (number u.allow_sample_rate) end)))))))))

natural-pos : (n : ℕ) → natural (number (finite (pos n) 0)) ≡ some n
unfolding natural
natural-pos n =
    let even : (n % 1 == 0) ≡ true = ground arith in
    let same : n / 1 ≡ n = omega arith in rw (even, same) refl

threshold_of-pos : (n : ℕ) → n ≤ 100 → threshold_of (number (finite (pos n) 0)) ≡ some n
unfolding threshold_of
threshold_of-pos n h = let low : ltb 100 n ≡ false = ground arith in rw (natural-pos n, low) refl

action_of-string :
    (actions : List String) (s : String)
    → includes actions s ≡ true
    → action_of actions (string s) ≡ some s
unfolding action_of
action_of-string actions s h = rw h refl

rate_of-number : (r : Number) → is_rate r ≡ true → rate_of (number r) ≡ some r
unfolding rate_of
rate_of-number (finite (pos m) e) h = elim (Bool-cases (ltb (2 ^ e) m)) [
  | inl k ↦ absurd (ground arith)
  | inr k ↦ rw k refl
]
rate_of-number (finite (negsuc m) e) h = absurd (cc)
rate_of-number Number.infinity h = absurd (cc)
rate_of-number Number.negative_infinity h = absurd (cc)
rate_of-number Number.nan h = absurd (cc)

strings_of-values_of :
    (l : List String) → all is_text_entry l ≡ true → strings_of (values_of l) ≡ some l
strings_of-values_of [] h = refl
strings_of-values_of (s ∷ l) h =
    let here : is_text_entry s ≡ true = ground arith in
    rw (here, strings_of-values_of l (ground arith)) refl

as_string_array-values_of :
    (l : List String)
    → (all is_text_entry l ≡ true) × (length l ≤ 256)
    → as_string_array (array (values_of l)) ≡ some l
unfolding as_string_array
as_string_array-values_of l (t, n) =
    let short : ltb 256 (length l) ≡ false = ground arith in
    rw (strings_of-values_of l t, short) refl

-- Every policy that the edges may be given is read back from the body that says it.
pub parse_policy_update-body_of :
    (u : PolicyUpdate) → IsPolicy u → parse_policy_update (body_of u) ≡ some u
unfolding parse_policy_update parse_members body_of
parse_policy_update-body_of u h =
    rw
      (
        threshold_of-pos u.threshold h.threshold,
        action_of-string actions_below u.below_threshold_action h.below,
        action_of-string actions_unsigned u.unsigned_action h.unsigned,
        natural-pos u.max_snapshot_age_seconds,
        rate_of-number u.allow_sample_rate h.rate,
        as_string_array-values_of u.allow_fingerprints h.allow,
        as_string_array-values_of u.deny_fingerprints h.deny,
      )
      refl

threshold_of-eq-some : (v : Value) (n : ℕ) → threshold_of v ≡ some n → n ≤ 100
unfolding threshold_of
threshold_of-eq-some v n h =
    let (m, e, rest) = >>=-eq-some (natural v) (λ n. throw_if (ltb 100 n) >> some n) n h in
    let (low, done) = throw_if-eq-some (ltb 100 m) (some m) n rest in
    let same : m ≡ n = some_inj done in subst (λ n. n ≤ 100) same (ground arith)

action_of-eq-some :
    (actions : List String) (v : Value) (s : String)
    → action_of actions v ≡ some s
    → includes actions s ≡ true
unfolding action_of
action_of-eq-some actions (string t) s h = elim (Bool-cases (includes actions t)) [
  | inl e ↦ let h' = rw e at h in subst (λ s. includes actions s ≡ true) (some_inj h') e
  | inr e ↦ let h' = rw e at h in absurd (cc)
]
action_of-eq-some actions null s h = absurd (cc)
action_of-eq-some actions (boolean b) s h = absurd (cc)
action_of-eq-some actions (number n) s h = absurd (cc)
action_of-eq-some actions (array vs) s h = absurd (cc)
action_of-eq-some actions (object ms) s h = absurd (cc)

rate_of-eq-some : (v : Value) (r : Number) → rate_of v ≡ some r → is_rate r ≡ true
unfolding rate_of
rate_of-eq-some (number (finite (pos m) e)) r h = elim (Bool-cases (ltb (2 ^ e) m)) [
  | inl k ↦ let h' = rw k at h in absurd (cc)
  | inr k ↦ let h' = rw k at h in subst (λ r. is_rate r ≡ true) (some_inj h') (rw k refl)
]
rate_of-eq-some (number (finite (negsuc m) e)) r h = absurd (cc)
rate_of-eq-some (number Number.infinity) r h = absurd (cc)
rate_of-eq-some (number Number.negative_infinity) r h = absurd (cc)
rate_of-eq-some (number Number.nan) r h = absurd (cc)
rate_of-eq-some null r h = absurd (cc)
rate_of-eq-some (boolean b) r h = absurd (cc)
rate_of-eq-some (string s) r h = absurd (cc)
rate_of-eq-some (array vs) r h = absurd (cc)
rate_of-eq-some (object ms) r h = absurd (cc)

strings_of-eq-some :
    (vs : Values) (l : List String) → strings_of vs ≡ some l → all is_text_entry l ≡ true
strings_of-eq-some nil l h = subst (λ l. all is_text_entry l ≡ true) (some_inj h) refl
strings_of-eq-some (cons (string s) vs) l h = elim (Bool-cases (is_text_entry s)) [
  | inl e ↦ elim (Option-cases (strings_of vs)) [
    | inl n ↦ let h' = rw (e, n) at h in absurd (cc)
    | inr (r, n) ↦
        let h' = rw (e, n) at h in
        subst (λ l. all is_text_entry l ≡ true) (some_inj h')
          (rw (e, strings_of-eq-some vs r n) refl)
  ]
  | inr e ↦ let h' = rw e at h in absurd (cc)
]
strings_of-eq-some (cons null vs) l h = absurd (cc)
strings_of-eq-some (cons (boolean b) vs) l h = absurd (cc)
strings_of-eq-some (cons (number n) vs) l h = absurd (cc)
strings_of-eq-some (cons (array us) vs) l h = absurd (cc)
strings_of-eq-some (cons (object ms) vs) l h = absurd (cc)

as_string_array-eq-some :
    (v : Value) (l : List String)
    → as_string_array v ≡ some l
    → (all is_text_entry l ≡ true) × (length l ≤ 256)
unfolding as_string_array
as_string_array-eq-some (array vs) l h =
    let (m, e, rest) =
      >>=-eq-some (strings_of vs) (λ l. throw_if (ltb 256 (length l)) >> some l) l h in
    let (low, done) = throw_if-eq-some (ltb 256 (length m)) (some m) l rest in
    let same : m ≡ l = some_inj done in
    let short : length m ≤ 256 = ground arith in
    subst (λ l. (all is_text_entry l ≡ true) × (length l ≤ 256)) same
      (strings_of-eq-some vs m e, short)
as_string_array-eq-some null l h = absurd (cc)
as_string_array-eq-some (boolean b) l h = absurd (cc)
as_string_array-eq-some (number n) l h = absurd (cc)
as_string_array-eq-some (string s) l h = absurd (cc)
as_string_array-eq-some (object ms) l h = absurd (cc)

parse_members-IsPolicy : (b : Members) (u : PolicyUpdate) → parse_members b ≡ some u → IsPolicy u
unfolding parse_members
parse_members-IsPolicy b =
    >>=-All IsPolicy (threshold_of (or_default (number (finite (pos 50) 0)) (field "threshold" b)))
      _
      (λ threshold t.
        >>=-All IsPolicy
          (action_of actions_below (or_default (string "deny") (field "below_threshold_action" b)))
          _
          (λ below bl.
            >>=-All IsPolicy
              (action_of actions_unsigned
                (or_default (string "passthrough") (field "unsigned_action" b)))
              _
              (λ unsigned un.
                >>=-All IsPolicy
                  (boolean_of (or_default (boolean false) (field "fail_open_expired" b))) _
                  (λ fail_open _.
                    >>=-All IsPolicy
                      (boolean_of (or_default (boolean false) (field "no_drop_decisions" b))) _
                      (λ no_drop _.
                        >>=-All IsPolicy
                          (natural (
                            or_default (number (finite (pos 300) 0))
                              (field "max_snapshot_age_seconds" b)))
                          _
                          (λ max_age _.
                            >>=-All IsPolicy
                              (rate_of
                                (or_default (number default_rate) (field "allow_sample_rate" b)))
                              _
                              (λ rate r.
                                >>=-All IsPolicy
                                  (as_string_array
                                    (or_default (array nil) (field "allow_fingerprints" b)))
                                  _
                                  (λ allow a.
                                    >>=-All IsPolicy
                                      (as_string_array
                                        (or_default (array nil) (field "deny_fingerprints" b)))
                                      _
                                      (λ deny d u h. subst IsPolicy (some_inj h) (record {
                                        threshold =
                                            threshold_of-eq-some
                                              (or_default (number (finite (pos 50) 0))
                                                (field "threshold" b))
                                              threshold t;
                                        below =
                                            action_of-eq-some actions_below
                                              (or_default (string "deny")
                                                (field "below_threshold_action" b))
                                              below bl;
                                        unsigned =
                                            action_of-eq-some actions_unsigned
                                              (or_default (string "passthrough")
                                                (field "unsigned_action" b))
                                              unsigned un;
                                        allow =
                                            as_string_array-eq-some
                                              (or_default (array nil)
                                                (field "allow_fingerprints" b))
                                              allow a;
                                        deny =
                                            as_string_array-eq-some
                                              (or_default (array nil) (field "deny_fingerprints" b))
                                              deny d;
                                        rate =
                                            rate_of-eq-some
                                              (or_default (number default_rate)
                                                (field "allow_sample_rate" b))
                                              rate r;
                                      }))))))))))

-- Every body that is accepted is read as a policy within the bounds.
pub parse_policy_update-IsPolicy :
    (body : Value) (u : PolicyUpdate) → parse_policy_update body ≡ some u → IsPolicy u
unfolding parse_policy_update
parse_policy_update-IsPolicy (object b) u h = parse_members-IsPolicy b u h
parse_policy_update-IsPolicy (array vs) u h = parse_members-IsPolicy end u h
parse_policy_update-IsPolicy null u h = absurd (cc)
parse_policy_update-IsPolicy (boolean b) u h = absurd (cc)
parse_policy_update-IsPolicy (number n) u h = absurd (cc)
parse_policy_update-IsPolicy (string s) u h = absurd (cc)
