-- ===== src/Attestation/Submit/Tables.antt =====
-- The table of attestations over submissions: no token stands in it twice, and the rows of one
-- observation agree.
use verilink.Base.{
  ℕ, ◌+◌, ◌≡◌, refl, ◌∙◌, sym, ◌⊎◌, inl, inr, Bool, true, false, not, ◌&&◌, ◌||◌, Option, none,
  some, List, [], ◌∷◌, ◌++◌, String, arith, Bool-cases, is_some, All, All-append,
}
use verilink.Base.Int.{eq_ℤ_iff}
use verilink.Base.Texts.{str_eq, eq_iff, eq_refl}
use verilink.Attestation.Submit.{Services}
use verilink.Attestation.Submit.Store.{
  Attestation, Db, Outcome, failed, stored, store, submit_attestation, find_by_token_digest,
  find_observation_peer, has_observation, conflicts, is_mismatch,
}
use verilink.Attestation.Submit.Guards.{IsAdmissible, submit_attestation-Ends}

-- The attestations and the number of marks that an outcome leaves.
abbrev pub attestations_after : Outcome → List Attestation → List Attestation
attestations_after (failed f) rows = rows
attestations_after (stored a) rows = rows ++ (a ∷ [])

abbrev pub marks_after : Outcome → ℕ → ℕ
marks_after (failed f) n = n
marks_after (stored a) n = n + 1

-- The row of an outcome is admissible, if there is one.
abbrev pub HasAdmissible : Services → String → Outcome → Type 0
HasAdmissible sv token (failed f) = Unit
HasAdmissible sv token (stored a) = IsAdmissible sv token a

store-after :
    (a : Attestation) (db : Db)
    → ((store a db).1.attestations ≡ attestations_after (store a db).0 db.attestations)
      × ((store a db).1.marks ≡ marks_after (store a db).0 db.marks)
unfolding store
store-after a db = ground arith

store-HasAdmissible :
    (sv : Services) (token : String) (a : Attestation) (db : Db)
    → IsAdmissible sv token a
    → HasAdmissible sv token (store a db).0
unfolding store
store-HasAdmissible sv token a db h =
    elim (Bool-cases (is_some (find_by_token_digest a.token_digest db.attestations))) [
      | inl e ↦ rw (e, store) tt
      | inr e ↦ elim (Bool-cases (is_mismatch a db.attestations)) [
        | inl k ↦ rw (e, k, store) tt
        | inr k ↦ rw (e, k, store) h
      ]
    ]

-- A submission that fails leaves the attestations and asks for no recompute. One that succeeds adds
-- the row that it returns at the end, asks for one recompute, and the row is admissible: its delta
-- is from -100 to 100 and negative exactly for a negative incident, its visibility is one of the
-- two, its facts pass the schema of its type and version, and the digest and the hash are those of
-- the token and the facts.
pub submit_attestation-after :
    (sv : Services) (token : String) (db : Db)
    → ((submit_attestation sv token db).1.attestations
        ≡ attestations_after (submit_attestation sv token db).0 db.attestations)
      × ((submit_attestation sv token db).1.marks
          ≡ marks_after (submit_attestation sv token db).0 db.marks)
      × HasAdmissible sv token (submit_attestation sv token db).0
submit_attestation-after sv token db = elim (submit_attestation-Ends sv token db) [
  | inl (f, e) ↦ rw e (refl, refl, tt)
  | inr (a, ps, h, e) ↦
      let kept = record db { principals = ps } in
      let after = store-after a kept in
      rw e (after.0, after.1, store-HasAdmissible sv token a kept h)
]

abbrev pub is_same_observation : Attestation → Attestation → Bool
is_same_observation a b = elim a.observation_id [
  | none ↦ false
  | some o ↦ has_observation a.issuer_id a.subject_id o b
]

-- Two rows that may stand together: of different tokens, and agreeing if of one observation.
abbrev pub is_compatible : Attestation → Attestation → Bool
is_compatible a b =
    not (str_eq b.token_digest a.token_digest)
    && (not (is_same_observation a b) || not (conflicts b a))

-- Every row is compatible with every later one.
abbrev pub IsCoherent : List Attestation → Type 0
IsCoherent [] = Unit
IsCoherent (a ∷ rows) = All (λ b. is_compatible b a ≡ true) rows × IsCoherent rows

conflicts_trans :
    (a b c : Attestation) → conflicts b a ≡ false → conflicts b c ≡ false → conflicts c a ≡ false
conflicts_trans a b c h k = ground (
  arith,
  eq_iff b.attestation_type a.attestation_type,
  eq_iff b.attestation_type c.attestation_type,
  eq_iff c.attestation_type a.attestation_type,
  eq_ℤ_iff b.trust_delta a.trust_delta,
  eq_ℤ_iff b.trust_delta c.trust_delta,
  eq_ℤ_iff c.trust_delta a.trust_delta,
)

same_parts :
    (i s o : String) (b : Attestation)
    → has_observation i s o b ≡ true
    → (b.issuer_id ≡ i) × (b.subject_id ≡ s) × (b.observation_id ≡ some o)
same_parts i s o b h = go b.observation_id refl
  where
    go :
        (q : Option String)
        → b.observation_id ≡ q
        → (b.issuer_id ≡ i) × (b.subject_id ≡ s) × (b.observation_id ≡ some o)
    go none e = absurd (ground arith)
    go (some q) e = ground (arith, eq_iff b.issuer_id i, eq_iff b.subject_id s, eq_iff q o)

same_from :
    (a b : Attestation) (o : String)
    → b.issuer_id ≡ a.issuer_id
    → b.subject_id ≡ a.subject_id
    → a.observation_id ≡ some o
    → b.observation_id ≡ some o
    → is_same_observation a b ≡ true
same_from a b o i s e f = rw (e, f, i, s, eq_refl a.issuer_id, eq_refl a.subject_id, eq_refl o) refl

same_observation_of :
    (a b : Attestation) (q : Option String)
    → a.observation_id ≡ q
    → is_same_observation a b ≡ true
    → (b.issuer_id ≡ a.issuer_id)
      × (b.subject_id ≡ a.subject_id)
      × ((o : String) × (a.observation_id ≡ some o) × (b.observation_id ≡ some o))
same_observation_of a b none e h = absurd (ground arith)
same_observation_of a b (some o) e h =
    let (i, s, f) = same_parts a.issuer_id a.subject_id o b (rw e at h) in (i, s, (o, e, f))

-- Two rows of the observation of a third are of one observation.
same_observation_trans :
    (a b c : Attestation)
    → is_same_observation a b ≡ true
    → is_same_observation a c ≡ true
    → is_same_observation c b ≡ true
same_observation_trans a b c h k =
    let (i, s, (o, e, f)) = same_observation_of a b a.observation_id refl h in
    let (i', s', (o', e', f')) = same_observation_of a c a.observation_id refl k in
    same_from c b o (i ∙ sym i') (s ∙ sym s') (f' ∙ (sym e' ∙ e)) f

find_by_token_digest-none :
    (d : String) (b : Attestation) (rows : List Attestation)
    → is_some (find_by_token_digest d (b ∷ rows)) ≡ false
    → (str_eq b.token_digest d ≡ false) × (is_some (find_by_token_digest d rows) ≡ false)
unfolding find_by_token_digest
find_by_token_digest-none d b rows h = ground arith

is_mismatch-cases :
    (a b : Attestation) (rows : List Attestation)
    → is_mismatch a (b ∷ rows) ≡ false
    → ((is_same_observation a b ≡ true) × (conflicts b a ≡ false))
      ⊎ ((is_same_observation a b ≡ false) × (is_mismatch a rows ≡ false))
unfolding is_mismatch find_observation_peer
is_mismatch-cases a b rows h = go a.observation_id refl h
  where
    go :
        (q : Option String)
        → a.observation_id ≡ q
        → is_mismatch a (b ∷ rows) ≡ false
        → ((is_same_observation a b ≡ true) × (conflicts b a ≡ false))
          ⊎ ((is_same_observation a b ≡ false) × (is_mismatch a rows ≡ false))
    go none e h = inr (rw e refl, rw (e, is_mismatch) refl)
    go (some o) e h = elim (Bool-cases (has_observation a.issuer_id a.subject_id o b)) [
      | inl k ↦ inl (rw (e, k) refl, rw (is_mismatch, e, k) at h)
      | inr k ↦ inr (rw (e, k) refl, rw (is_mismatch, e) (rw (is_mismatch, e, k) at h))
    ]

compatible_of :
    (a b : Attestation)
    → str_eq b.token_digest a.token_digest ≡ false
    → (is_same_observation a b ≡ false) ⊎ (conflicts b a ≡ false)
    → is_compatible a b ≡ true
compatible_of a b d (inl s) = rw (d, s) refl
compatible_of a b d (inr c) = ground arith

peer_agrees :
    (c b : Attestation)
    → is_same_observation c b ≡ true
    → is_compatible c b ≡ true
    → conflicts b c ≡ false
peer_agrees c b s h = ground arith

-- The rows after the peer of a new row.
after_peer :
    (a b : Attestation) (rows : List Attestation)
    → is_same_observation a b ≡ true
    → conflicts b a ≡ false
    → is_some (find_by_token_digest a.token_digest rows) ≡ false
    → All (λ c. is_compatible c b ≡ true) rows
    → All (λ c. is_compatible a c ≡ true) rows
after_peer a b [] s n d h = tt
after_peer a b (c ∷ rows) s n d h =
    let (fresh, others) = find_by_token_digest-none a.token_digest c rows d in
    let agrees : (is_same_observation a c ≡ false) ⊎ (conflicts c a ≡ false) =
      elim (Bool-cases (is_same_observation a c)) [
        | inr k ↦ inl k
        | inl k ↦
            inr (conflicts_trans a b c n (peer_agrees c b (same_observation_trans a b c s k) h.0))
      ] in
    (compatible_of a c fresh agrees, after_peer a b rows s n others h.1)

compatible_new :
    (a : Attestation) (rows : List Attestation)
    → is_some (find_by_token_digest a.token_digest rows) ≡ false
    → is_mismatch a rows ≡ false
    → IsCoherent rows
    → All (λ b. is_compatible a b ≡ true) rows
compatible_new a [] d m h = tt
compatible_new a (b ∷ rows) d m h =
    let (fresh, others) = find_by_token_digest-none a.token_digest b rows d in
    elim (is_mismatch-cases a b rows m) [
      | inl (s, n) ↦ (compatible_of a b fresh (inr n), after_peer a b rows s n others h.0)
      | inr (s, n) ↦ (compatible_of a b fresh (inl s), compatible_new a rows others n h.1)
    ]

IsCoherent-append :
    (a : Attestation) (rows : List Attestation)
    → All (λ b. is_compatible a b ≡ true) rows
    → IsCoherent rows
    → IsCoherent (rows ++ (a ∷ []))
IsCoherent-append a [] n h = (tt, tt)
IsCoherent-append a (b ∷ rows) n h = (
  All-append (λ c. is_compatible c b ≡ true) rows (a ∷ []) h.0 (n.0, tt),
  IsCoherent-append a rows n.1 h.1,
)

store-IsCoherent :
    (a : Attestation) (db : Db)
    → IsCoherent db.attestations
    → IsCoherent (store a db).1.attestations
unfolding store
store-IsCoherent a db h =
    elim (Bool-cases (is_some (find_by_token_digest a.token_digest db.attestations))) [
      | inl e ↦ rw (e, store) h
      | inr e ↦ elim (Bool-cases (is_mismatch a db.attestations)) [
        | inl k ↦ rw (e, k, store) h
        | inr k ↦
            rw (e, k, store)
              (IsCoherent-append a db.attestations (compatible_new a db.attestations e k h) h)
      ]
    ]

-- A submission keeps the table coherent: no two rows have one digest, and two rows of one issuer,
-- subject and observation have one type and one delta.
pub submit_attestation-IsCoherent :
    (sv : Services) (token : String) (db : Db)
    → IsCoherent db.attestations
    → IsCoherent (submit_attestation sv token db).1.attestations
submit_attestation-IsCoherent sv token db h = elim (submit_attestation-Ends sv token db) [
  | inl (f, e) ↦ rw e h
  | inr (a, ps, _, e) ↦ rw e (store-IsCoherent a (record db { principals = ps }) h)
]
