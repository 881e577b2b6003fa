-- ===== src/Graph/Recompute/Retries.antt =====
-- The attempts of a run.
use verilink.Base.{
  ℕ, zero, suc, ◌+◌, ◌≤◌, ◌<◌, ◌==◌, ◌≡◌, refl, sym, subst, ◌⊎◌, inl, inr, Bool, true, false, not,
  ◌||◌, Option, none, some, arith, Bool-cases,
}
use verilink.Graph.Recompute.{
  Status, is_retryable_grpc_error, Answer, success, failure, try_from, run_veri_rank_with_retry,
}

abbrev pub is_retryable : {R : Type 0} → Answer R → Bool
is_retryable (success r) = false
is_retryable (failure code) = is_retryable_grpc_error code

-- How the last of the calls ended: with the result, or with an error for which no other is made.
abbrev pub EndsWith : {R : Type 0} → Answer R → Bool → Option R → Type 0
EndsWith (success r) is_last result = result ≡ some r
EndsWith (failure code) is_last result =
    (result ≡ none) × ((is_last ≡ true) ⊎ (is_retryable_grpc_error code ≡ false))

Answer-cases :
    {R : Type 0} (a : Answer R)
    → ((r : R) × (a ≡ success r)) ⊎ ((code : Option Status) × (a ≡ failure code))
Answer-cases (success r) = inl (r, refl)
Answer-cases (failure code) = inr (code, refl)

module _ {R : Type 0} (run : ℕ → Answer R) where
  -- The calls from `attempt` on, when `left` are left at most.
  pub record IsTried (attempt left : ℕ) (r : Option R × ℕ) : Type 0 where
    pub at_most : r.1 ≤ left
    pub at_least : 1 ≤ r.1
    pub repeated : (k : ℕ) → k + 1 < r.1 → is_retryable (run (attempt + k)) ≡ true
    pub last : (k : ℕ) → k + 1 ≡ r.1 → EndsWith (run (attempt + k)) (r.1 == left) r.0

  -- One call, after which no other is made.
  one_call :
      (attempt left : ℕ) (result : Option R)
      → EndsWith (run attempt) (1 == suc left) result
      → IsTried attempt (suc left) (result, 1)
  one_call attempt left result h = record {
    at_most = omega arith;
    at_least = omega arith;
    repeated = λ k l. absurd (omega arith);
    last = λ k l.
        let same : attempt ≡ attempt + k = omega arith in
        subst (λ a. EndsWith (run a) (1 == suc left) result) same h;
  }

  -- A call that is made again.
  more_calls :
      (attempt left : ℕ) (r : Option R × ℕ)
      → is_retryable (run attempt) ≡ true
      → IsTried (attempt + 1) left r
      → IsTried attempt (suc left) (r.0, r.1 + 1)
  more_calls attempt left r h t = record {
    at_most = omega (arith, t.at_most);
    at_least = omega arith;
    repeated = again;
    last = ends;
  }
    where
      again : (k : ℕ) → k + 1 < r.1 + 1 → is_retryable (run (attempt + k)) ≡ true
      again zero l =
          let same : attempt ≡ attempt + zero = omega arith in
          subst (λ a. is_retryable (run a) ≡ true) same h
      again (suc k) l =
          let same : (attempt + 1) + k ≡ attempt + suc k = omega arith in
          subst (λ a. is_retryable (run a) ≡ true) same (t.repeated k (omega arith))

      ends : (k : ℕ) → k + 1 ≡ r.1 + 1 → EndsWith (run (attempt + k)) ((r.1 + 1) == suc left) r.0
      ends zero l = absurd (omega (arith, t.at_least))
      ends (suc k) l =
          let same : (attempt + 1) + k ≡ attempt + suc k = omega arith in
          let test : (r.1 == left) ≡ ((r.1 + 1) == suc left) = ground arith in
          subst (λ a. EndsWith (run a) ((r.1 + 1) == suc left) r.0) same
            (subst (λ b. EndsWith (run ((attempt + 1) + k)) b r.0) test (t.last k (omega arith)))

  succeeded :
      (left attempt : ℕ) (r : R)
      → run attempt ≡ success r
      → IsTried attempt (suc left) (try_from run attempt (suc left))
  unfolding try_from
  succeeded left attempt r e =
      rw (e, try_from)
        (one_call attempt left (some r)
          (subst (λ a. EndsWith a (1 == suc left) (some r)) (sym e) refl))

  failed :
      (left attempt : ℕ) (code : Option Status)
      → run attempt ≡ failure code
      → ((left == 0) || not (is_retryable_grpc_error code)) ≡ true
      → IsTried attempt (suc left) (try_from run attempt (suc left))
  unfolding try_from
  failed left attempt code e b =
      rw (e, b, try_from)
        (one_call attempt left none
          (subst (λ a. EndsWith a (1 == suc left) none) (sym e) (refl, ground arith)))

  try_from-IsTried :
      (left attempt : ℕ) → IsTried attempt (suc left) (try_from run attempt (suc left))
  unfolding try_from
  try_from-IsTried zero attempt = elim (Answer-cases (run attempt)) [
    | inl (r, e) ↦ succeeded zero attempt r e
    | inr (code, e) ↦ failed zero attempt code e refl
  ]
  try_from-IsTried (suc left) attempt = elim (Answer-cases (run attempt)) [
    | inl (r, e) ↦ succeeded (suc left) attempt r e
    | inr (code, e) ↦ elim (Bool-cases ((suc left == 0) || not (is_retryable_grpc_error code))) [
      | inl b ↦ failed (suc left) attempt code e b
      | inr b ↦
          let again : is_retryable (run attempt) ≡ true =
            subst (λ a. is_retryable a ≡ true) (sym e) (ground arith) in
          rw (e, b, try_from)
            (more_calls attempt (suc left) (try_from run (attempt + 1) (suc left)) again
              (try_from-IsTried left (attempt + 1)))
    ]
  ]

  -- With one attempt or more allowed, at least one call is made and no more than allowed; each call
  -- but the last failed with an error that may be tried again; and the last one gave the result, or
  -- failed as the last one allowed or with an error that may not be tried again.
  pub run_veri_rank_with_retry-IsTried :
      (retries : ℕ) → IsTried 1 (suc retries) (run_veri_rank_with_retry run (suc retries))
  unfolding run_veri_rank_with_retry
  run_veri_rank_with_retry-IsTried retries = try_from-IsTried retries 1
