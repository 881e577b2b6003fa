-- ===== src/Decision/Batch/Entries.antt =====
-- What the loop of assertBatchShape (control-plane/src/domains/decision) leaves of a decision.
use verilink.Base.{
  ℕ, ◌≤◌, ◌≡◌, refl, ap, ◌⊎◌, inl, inr, Bool, true, false, not, Option, none, some, List, [], ◌∷◌,
  map, String, arith, if◌then◌else◌, All, first_of-none, some_inj,
}
use verilink.Base.Int.{ℤ, pos, negsuc, ltb_ℤ}
use verilink.Base.Texts.{str_eq, eq_iff, includes}
use verilink.Base.Value.{
  Value, null, string, array, object, boolean, number, integer_of, text_value,
}
use verilink.Decision.Sample.{DecisionWire, Services, assert_rfc3339, wire_of}
use verilink.Decision.Batch.{
  bad_request, decision_problem, decisions_problem, entry_problem, is_action, is_fingerprint,
  is_sequence, actions,
}

-- A decision that may be counted: its fields are values of the types that the wire declares.
abbrev pub IsValid : Services → DecisionWire → Type 0
IsValid sv d =
    ((d.action ≡ some (string "allow"))
      ⊎ (d.action ≡ some (string "deny"))
      ⊎ (d.action ≡ some (string "passthrough")))
    × ((f : String) × (d.fingerprint ≡ some (string f)) × (str_eq f "" ≡ false))
    × ((n : ℕ) × (integer_of d.wal_seq ≡ some (pos n)) × (1 ≤ n))
    × (assert_rfc3339 sv d.decided_at ≡ true)

-- A value that is a text.
pub text_value-some : (v : Option Value) (s : String) → text_value v ≡ some s → v ≡ some (string s)
text_value-some none s h = absurd cc
text_value-some (some (string t)) s h = ap (λ x. some (string x)) (some_inj h)
text_value-some (some null) s h = absurd cc
text_value-some (some (boolean b)) s h = absurd cc
text_value-some (some (number n)) s h = absurd cc
text_value-some (some (array vs)) s h = absurd cc
text_value-some (some (object ms)) s h = absurd cc

is_action-true :
    (v : Option Value)
    → is_action v ≡ true
    → (v ≡ some (string "allow")) ⊎ (v ≡ some (string "deny")) ⊎ (v ≡ some (string "passthrough"))
is_action-true none h = absurd cc
is_action-true (some (string s)) h = by_word (named s h)
  where
    named :
        (s : String)
        → includes actions s ≡ true
        → (s ≡ "allow") ⊎ (s ≡ "deny") ⊎ (s ≡ "passthrough")
    named s k = ground (arith, eq_iff "allow" s, eq_iff "deny" s, eq_iff "passthrough" s)

    by_word :
        (s ≡ "allow") ⊎ (s ≡ "deny") ⊎ (s ≡ "passthrough")
        → (◌≡◌ {A = Option Value} (some (string s)) (some (string "allow")))
          ⊎ (◌≡◌ {A = Option Value} (some (string s)) (some (string "deny")))
          ⊎ (◌≡◌ {A = Option Value} (some (string s)) (some (string "passthrough")))
    by_word (inl e) = inl (ap (λ x. some (string x)) e)
    by_word (inr (inl e)) = inr (inl (ap (λ x. some (string x)) e))
    by_word (inr (inr e)) = inr (inr (ap (λ x. some (string x)) e))
is_action-true (some null) h = absurd cc
is_action-true (some (boolean b)) h = absurd cc
is_action-true (some (number n)) h = absurd cc
is_action-true (some (array vs)) h = absurd cc
is_action-true (some (object ms)) h = absurd cc

is_fingerprint-true :
    (v : Option Value)
    → is_fingerprint v ≡ true
    → (f : String) × (v ≡ some (string f)) × (str_eq f "" ≡ false)
is_fingerprint-true none h = absurd cc
is_fingerprint-true (some (string t)) h = (t, refl, ground arith)
is_fingerprint-true (some null) h = absurd cc
is_fingerprint-true (some (boolean true)) h = absurd cc
is_fingerprint-true (some (boolean false)) h = absurd cc
is_fingerprint-true (some (number n)) h = absurd (ground arith)
is_fingerprint-true (some (array vs)) h = absurd cc
is_fingerprint-true (some (object ms)) h = absurd cc

is_sequence-true :
    (v : Option Value) → is_sequence v ≡ true → (n : ℕ) × (integer_of v ≡ some (pos n)) × (1 ≤ n)
is_sequence-true v h = by_integer (integer_of v) refl h
  where
    by_integer :
        (o : Option ℤ)
        → integer_of v ≡ o
        → elim o [ none ↦ false | some n ↦ not (ltb_ℤ n (pos 1)) ] ≡ true
        → (n : ℕ) × (integer_of v ≡ some (pos n)) × (1 ≤ n)
    by_integer none e k = absurd cc
    by_integer (some (pos n)) e k = (n, e, ground arith)
    by_integer (some (negsuc n)) e k = absurd (ground arith)

decision_problem-none :
    (sv : Services) (d : DecisionWire) → decision_problem sv d ≡ none → IsValid sv d
unfolding decision_problem
decision_problem-none sv d h =
    let (a, f, n, t) =
      four (is_action d.action) (is_fingerprint d.fingerprint) (is_sequence d.wal_seq)
        (assert_rfc3339 sv d.decided_at) h in
    (
      is_action-true d.action a,
      is_fingerprint-true d.fingerprint f,
      is_sequence-true d.wal_seq n,
      t,
    )
  where
    four :
        (a b c e : Bool)
        → (if not a
            then some bad_request
            else if not b
            then some bad_request
            else if not c
            then some bad_request
            else if not e
            then some bad_request
            else none)
          ≡ none
        → (a ≡ true) × (b ≡ true) × (c ≡ true) × (e ≡ true)
    four a b c e h = ground arith

entry_problem-none :
    (sv : Services) (v : Value) → entry_problem sv v ≡ none → IsValid sv (wire_of v)
unfolding entry_problem
entry_problem-none sv null h = absurd cc
entry_problem-none sv (boolean b) h = decision_problem-none sv (wire_of (boolean b)) h
entry_problem-none sv (number n) h = decision_problem-none sv (wire_of (number n)) h
entry_problem-none sv (string s) h = decision_problem-none sv (wire_of (string s)) h
entry_problem-none sv (array vs) h = decision_problem-none sv (wire_of (array vs)) h
entry_problem-none sv (object ms) h = decision_problem-none sv (wire_of (object ms)) h

pub decisions_problem-none :
    (sv : Services) (vs : List Value)
    → decisions_problem sv vs ≡ none
    → All (IsValid sv) (map wire_of vs)
unfolding decisions_problem
decisions_problem-none sv [] h = tt
decisions_problem-none sv (v ∷ vs) h =
    let (own, others) = first_of-none (entry_problem sv v) (decisions_problem sv vs) h in
    (entry_problem-none sv v own, decisions_problem-none sv vs others)
