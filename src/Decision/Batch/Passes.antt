-- ===== src/Decision/Batch/Passes.antt =====
-- Values that pass the tests of assertBatchShape (control-plane/src/domains/decision).
use verilink.Base.{
  ℕ, ◌≤◌, ◌≡◌, refl, sym, subst, ◌∙◌, ◌⊎◌, inl, inr, Bool, true, false, not, Option, none, some,
  List, [], ◌∷◌, map, String, arith, if◌then◌else◌, All, Bool-cases, some_inj,
}
use verilink.Base.Int.{ℤ, pos, ltb_ℤ, eq_ℤ_iff}
use verilink.Base.Texts.{str_eq, eq_iff, codes}
use verilink.Base.Value.{Value, null, string, array, object, boolean, number, integer_of}
use verilink.Decision.Sample.{DecisionWire, Services, assert_rfc3339, wire_of}
use verilink.Decision.Batch.{
  bad_request, decision_problem, decisions_problem, entry_problem, is_action, is_fingerprint,
  is_sequence, fits_pattern, are_integers, is_range, same_integer, is_null,
}
use verilink.Decision.Batch.Entries.{IsValid}

of_word :
    (v : Option Value)
    → (v ≡ some (string "allow")) ⊎ (v ≡ some (string "deny")) ⊎ (v ≡ some (string "passthrough"))
    → is_action v ≡ true
of_word v (inl e) = subst (λ x. is_action x ≡ true) (sym e) refl
of_word v (inr (inl e)) = subst (λ x. is_action x ≡ true) (sym e) refl
of_word v (inr (inr e)) = subst (λ x. is_action x ≡ true) (sym e) refl

of_text :
    (v : Option Value) (f : String)
    → v ≡ some (string f)
    → str_eq f "" ≡ false
    → is_fingerprint v ≡ true
of_text v f e n = subst (λ x. is_fingerprint x ≡ true) (sym e) (ground arith)

of_number :
    (o : Option ℤ) (n : ℕ)
    → o ≡ some (pos n)
    → 1 ≤ n
    → elim o [ none ↦ false | some n ↦ not (ltb_ℤ n (pos 1)) ] ≡ true
of_number none n e p = absurd cc
of_number (some z) n e p = let same = some_inj e in rw same (ground arith)

-- The four tests of a turn of the loop.
four :
    (a b c e : Bool)
    → a ≡ true
    → b ≡ true
    → c ≡ true
    → e ≡ true
    → (if not a
        then some bad_request
        else if not b
        then some bad_request
        else if not c
        then some bad_request
        else if not e
        then some bad_request
        else none)
      ≡ none
four a b c e p q r s = rw (p, q, r, s) refl

decision_problem-IsValid :
    (sv : Services) (d : DecisionWire) → IsValid sv d → decision_problem sv d ≡ none
unfolding decision_problem
decision_problem-IsValid sv d (a, (f, e, k), (n, i, p), t) =
    four (is_action d.action) (is_fingerprint d.fingerprint) (is_sequence d.wal_seq)
      (assert_rfc3339 sv d.decided_at) (of_word d.action a) (of_text d.fingerprint f e k)
      (of_number (integer_of d.wal_seq) n i p) t

entry_problem-IsValid :
    (sv : Services) (v : Value) → IsValid sv (wire_of v) → entry_problem sv v ≡ none
unfolding entry_problem integer_of
entry_problem-IsValid sv null (a, f, (n, i, p), t) = absurd cc
entry_problem-IsValid sv (boolean b) u = decision_problem-IsValid sv (wire_of (boolean b)) u
entry_problem-IsValid sv (number n) u = decision_problem-IsValid sv (wire_of (number n)) u
entry_problem-IsValid sv (string s) u = decision_problem-IsValid sv (wire_of (string s)) u
entry_problem-IsValid sv (array vs) u = decision_problem-IsValid sv (wire_of (array vs)) u
entry_problem-IsValid sv (object ms) u = decision_problem-IsValid sv (wire_of (object ms)) u

pub decisions_problem-IsValid :
    (sv : Services) (vs : List Value)
    → All (IsValid sv) (map wire_of vs)
    → decisions_problem sv vs ≡ none
unfolding decisions_problem
decisions_problem-IsValid sv [] u = refl
decisions_problem-IsValid sv (v ∷ vs) u =
    rw (decisions_problem, entry_problem-IsValid sv v u.0) (decisions_problem-IsValid sv vs u.1)

-- A text of a form that the empty text has not.
pub fits :
    (test : List ℕ → Bool) (v : Option Value) (s : String)
    → test [] ≡ false
    → v ≡ some (string s)
    → test (codes s) ≡ true
    → fits_pattern test v ≡ true
fits test v s n e h =
    subst (λ x. fits_pattern test x ≡ true) (sym e)
      (elim (Bool-cases (str_eq s "")) [
        | inl k ↦ absurd (empty s ((eq_iff s "").0 k) h)
        | inr k ↦ rw (k, h) refl
      ])
  where
    true_false : true ≡ false → ⊥
    true_false q = cc

    empty : (s : String) → s ≡ "" → test (codes s) ≡ true → ⊥
    empty s e h = true_false (sym (subst (λ t. test (codes t) ≡ true) e h) ∙ n)

pub ranged :
    (p q : Option ℤ) (a b : ℕ)
    → p ≡ some (pos a)
    → q ≡ some (pos b)
    → a ≤ b
    → (are_integers p q ≡ true) × (is_range p q ≡ true)
ranged p q a b e f l =
    subst (λ x. (are_integers x q ≡ true) × (is_range x q ≡ true)) (sym e)
      (subst (λ y. (are_integers (some (pos a)) y ≡ true) × (is_range (some (pos a)) y ≡ true))
        (sym f) (refl, ground arith))

pub same : (p q : Option ℤ) (n : ℤ) → p ≡ some n → q ≡ some n → same_integer p q ≡ true
same p q n e f =
    subst (λ x. same_integer x q ≡ true) (sym e)
      (subst (λ y. same_integer (some n) y ≡ true) (sym f) ((eq_ℤ_iff n n).1 refl))

-- A value with a sequence number is not null.
pub not_null : (v : Value) (n : ℤ) → integer_of (wire_of v).wal_seq ≡ some n → is_null v ≡ false
unfolding integer_of
not_null null n e = absurd cc
not_null (boolean b) n e = refl
not_null (number m) n e = refl
not_null (string s) n e = refl
not_null (array vs) n e = refl
not_null (object ms) n e = refl
