-- ===== src/Bootstrap/Registry/Flags.antt =====
-- The flag of an issuer says what the registry says.
use verilink.Base.{
  ℕ, ◌+◌, ◌≡◌, refl, sym, ap, subst, ◌∙◌, inl, inr, Bool, false, not, ◌&&◌, ◌||◌, Option, none,
  some, List, [], ◌∷◌, String, arith, if◌then◌else◌, ltb, any, find, is_some, insert_new, ◌>>◌,
  throw_if, >>=-eq-some, throw_if-eq-some, map, some_inj, All, Bool-cases,
}
use verilink.Base.Texts.{str_eq, eq_iff}
use verilink.Bootstrap.Registry.{
  SeedIssuerEntry, SeedAgentEntry, Services, Issuer, Root, Db, is_issuer, is_root_row, is_live_root,
  derived, derive_is_bootstrap, derive_is_bootstrap_for_issuer, insert_issuer, principal_differs,
  key_differs, has_id, is_key, upsert_seed_issuer, upsert_issuers, subject_differs,
  upsert_seed_subject, subject_of, seed_attestation_of, seed_agent, insert_seed_attestation,
  seed_bootstrap_attestations, seed_agents, first_key, seed_bootstrap_registry, BootstrapUpdate,
  edited, is_empty_update, update_bootstrap_issuer,
}

-- Every issuer's flag is the condition of the registry.
abbrev pub IsDerived : Db → Type 0
IsDerived db = All (λ i. i.is_bootstrap ≡ is_live_root db.roots i.principal_id) db.issuers

All-derived :
    (roots : List Root) (is : List Issuer)
    → All (λ i. i.is_bootstrap ≡ is_live_root roots i.principal_id) (map (derived roots) is)
All-derived roots [] = tt
All-derived roots (i ∷ is) = (refl, All-derived roots is)

-- What a successful step did.
pub upsert_seed_issuer-eq-some :
    (sv : Services) (e : SeedIssuerEntry) (db db' : Db)
    → upsert_seed_issuer sv e db ≡ some db'
    → (principal_differs e (find (has_id e.id) db.principals) ≡ false)
      × (key_differs sv e (find (is_key e.id e.key_id) db.keys) ≡ false)
      × (insert_issuer sv e db ≡ db')
unfolding upsert_seed_issuer
upsert_seed_issuer-eq-some sv e db db' h =
    let (p, rest) =
      throw_if-eq-some (principal_differs e (find (has_id e.id) db.principals))
        (throw_if (key_differs sv e (find (is_key e.id e.key_id) db.keys))
          >> some (insert_issuer sv e db))
        db' h in
    let (k, done) =
      throw_if-eq-some (key_differs sv e (find (is_key e.id e.key_id) db.keys))
        (some (insert_issuer sv e db)) db' rest in
    (p, k, some_inj done)

pub upsert_seed_subject-eq-some :
    (a : SeedAgentEntry) (db db' : Db)
    → upsert_seed_subject a db ≡ some db'
    → (subject_differs a (find (has_id a.id) db.principals) ≡ false)
      × (record db { principals = insert_new (has_id a.id) (subject_of a) db.principals } ≡ db')
unfolding upsert_seed_subject
upsert_seed_subject-eq-some a db db' h =
    let (p, done) =
      throw_if-eq-some (subject_differs a (find (has_id a.id) db.principals))
        (some (record db { principals = insert_new (has_id a.id) (subject_of a) db.principals }))
        db' h in
    (p, some_inj done)

pub seed_agent-eq-some :
    (sv : Services) (a : SeedAgentEntry) (db : Db) (r : Bool × Db)
    → seed_agent sv a db ≡ some r
    → (db' : Db) × (upsert_seed_subject a db ≡ some db')
      × (insert_seed_attestation (seed_attestation_of sv a) db' ≡ r)
unfolding seed_agent
seed_agent-eq-some sv a db r h =
    let (db', subject, done) =
      >>=-eq-some (upsert_seed_subject a db)
        (λ x. some (insert_seed_attestation (seed_attestation_of sv a) x)) r h in
    (db', subject, some_inj done)

-- The attestations of the seed leave the issuers and the registry.
abbrev pub SameRegistry : Db → Db → Type 0
SameRegistry db db' = (db'.issuers ≡ db.issuers) × (db'.roots ≡ db.roots)

SameRegistry-trans : (a b c : Db) → SameRegistry a b → SameRegistry b c → SameRegistry a c
SameRegistry-trans a b c (i, r) (i', r') = (i' ∙ i, r' ∙ r)

seed_agent-SameRegistry :
    (sv : Services) (a : SeedAgentEntry) (db : Db) (r : Bool × Db)
    → seed_agent sv a db ≡ some r
    → SameRegistry db r.1
unfolding insert_seed_attestation
seed_agent-SameRegistry sv a db r h =
    let (db', subject, done) = seed_agent-eq-some sv a db r h in
    let (_, made) = upsert_seed_subject-eq-some a db db' subject in
    (
      ap (λ x. x.1.issuers) (sym done) ∙ ap (λ x. x.issuers) (sym made),
      ap (λ x. x.1.roots) (sym done) ∙ ap (λ x. x.roots) (sym made),
    )

seed_bootstrap_attestations-SameRegistry :
    (sv : Services) (agents : List SeedAgentEntry) (n : ℕ) (db : Db) (r : ℕ × Db)
    → seed_bootstrap_attestations sv agents n db ≡ some r
    → SameRegistry db r.1
unfolding seed_bootstrap_attestations
seed_bootstrap_attestations-SameRegistry sv [] n db r h =
    let e = some_inj h in (ap (λ x. x.1.issuers) (sym e), ap (λ x. x.1.roots) (sym e))
seed_bootstrap_attestations-SameRegistry sv (a ∷ agents) n db r h =
    let (q, one, others) =
      >>=-eq-some (seed_agent sv a db)
        (λ q. seed_bootstrap_attestations sv agents (if q.0 then n + 1 else n) q.1) r h in
    SameRegistry-trans db q.1 r.1 (seed_agent-SameRegistry sv a db q one)
      (seed_bootstrap_attestations-SameRegistry sv agents (if q.0 then n + 1 else n) q.1 r others)

pub seed_agents-SameRegistry :
    (sv : Services) (key : Option String) (x : String) (agents : List SeedAgentEntry) (db : Db)
    (r : ℕ × Db)
    → seed_agents sv key x agents db ≡ some r
    → SameRegistry db r.1
unfolding seed_agents
seed_agents-SameRegistry sv none x agents db r h =
    let e = some_inj h in (ap (λ x. x.1.issuers) (sym e), ap (λ x. x.1.roots) (sym e))
seed_agents-SameRegistry sv (some key) x agents db r h =
    seed_bootstrap_attestations-SameRegistry sv agents 0 db r
      (throw_if-eq-some (not (str_eq key x)) (seed_bootstrap_attestations sv agents 0 db) r h).1

-- What a successful seed did: the issuers, the flags, and the agents.
pub seed_bootstrap_registry-eq-some :
    (sv : Services) (key : Option String) (entries : List SeedIssuerEntry)
    (agents : List SeedAgentEntry) (db : Db) (r : ℕ × Db)
    → seed_bootstrap_registry sv key entries agents db ≡ some r
    → (db' : Db) × (upsert_issuers sv entries db ≡ some db')
      × (seed_agents sv key (first_key entries) agents (derive_is_bootstrap db') ≡ some r)
unfolding seed_bootstrap_registry
seed_bootstrap_registry-eq-some sv key entries agents db r h =
    >>=-eq-some (upsert_issuers sv entries db)
      (λ x. seed_agents sv key (first_key entries) agents (derive_is_bootstrap x)) r h

derive_is_bootstrap-IsDerived : (db : Db) → IsDerived (derive_is_bootstrap db)
unfolding derive_is_bootstrap
derive_is_bootstrap-IsDerived db = All-derived db.roots db.issuers

SameRegistry-IsDerived : (db db' : Db) → SameRegistry db db' → IsDerived db → IsDerived db'
SameRegistry-IsDerived db db' (i, r) h =
    subst (λ roots. All (λ x. x.is_bootstrap ≡ is_live_root roots x.principal_id) db'.issuers)
      (sym r) (subst (All (λ x. x.is_bootstrap ≡ is_live_root db.roots x.principal_id)) (sym i) h)

-- After a seed that succeeds, whatever the tables were, the flag of every issuer says whether the
-- registry holds it, not removed and with a weight.
pub seed_bootstrap_registry-IsDerived :
    (sv : Services) (key : Option String) (entries : List SeedIssuerEntry)
    (agents : List SeedAgentEntry) (db : Db) (r : ℕ × Db)
    → seed_bootstrap_registry sv key entries agents db ≡ some r
    → IsDerived r.1
seed_bootstrap_registry-IsDerived sv key entries agents db r h =
    let (db', _, seeded) = seed_bootstrap_registry-eq-some sv key entries agents db r h in
    let derived_db = derive_is_bootstrap db' in
    SameRegistry-IsDerived derived_db r.1
      (seed_agents-SameRegistry sv key (first_key entries) agents derived_db r seeded)
      (derive_is_bootstrap-IsDerived db')

-- The edit of one row.
abbrev edit_row : ℕ → String → BootstrapUpdate → Root → Root
edit_row now id u b = if is_root_row id b then edited now u b else b

is_live_root-edit_row :
    (now : ℕ) (id : String) (u : BootstrapUpdate) (roots : List Root) (other : String)
    → str_eq other id ≡ false
    → is_live_root (map (edit_row now id u) roots) other ≡ is_live_root roots other
unfolding is_live_root edited
is_live_root-edit_row now id u [] other h = refl
is_live_root-edit_row now id u (b ∷ roots) other h = elim (Bool-cases (str_eq b.principal_id id)) [
  | inl e ↦
      let elsewhere : str_eq b.principal_id other ≡ false =
        ground (arith, eq_iff b.principal_id id, eq_iff b.principal_id other, eq_iff other id) in
      rw (e, elsewhere) (is_live_root-edit_row now id u roots other h)
  | inr e ↦ rw e (
      ap
        (λ t.
          (str_eq b.principal_id other
            && not (is_some b.removed_from_registry_at)
            && ltb 0 b.current_weight)
          || t)
        (is_live_root-edit_row now id u roots other h))
]

All-edit :
    (now : ℕ) (id : String) (u : BootstrapUpdate) (roots : List Root) (is : List Issuer)
    → All (λ i. i.is_bootstrap ≡ is_live_root roots i.principal_id) is
    → let new = map (edit_row now id u) roots in
      All
        (λ i. i.is_bootstrap ≡ is_live_root new i.principal_id)
        (map (λ i. if is_issuer id i then derived new i else i) is)
All-edit now id u roots [] h = tt
All-edit now id u roots (i ∷ is) h = elim (Bool-cases (str_eq i.principal_id id)) [
  | inl e ↦ rw e (refl, All-edit now id u roots is h.1)
  | inr e ↦ rw e (
    h.0 ∙ sym (is_live_root-edit_row now id u roots i.principal_id e),
    All-edit now id u roots is h.1,
  )
]

-- An edit of the staff keeps the flags of all issuers in step with the registry.
pub update_bootstrap_issuer-IsDerived :
    (now : ℕ) (id : String) (u : BootstrapUpdate) (db : Db)
    → IsDerived db
    → IsDerived (update_bootstrap_issuer now id u db).1
unfolding update_bootstrap_issuer derive_is_bootstrap_for_issuer
update_bootstrap_issuer-IsDerived now id u db h =
    elim (Bool-cases (is_empty_update u || not (any (is_root_row id) db.roots))) [
      | inl e ↦ rw (e, update_bootstrap_issuer) h
      | inr e ↦ rw (e, update_bootstrap_issuer) (All-edit now id u db.roots db.issuers h)
    ]
