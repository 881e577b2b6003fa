-- ===== src/Bootstrap/Registry/Staff.antt =====
-- A seed only adds rows: what is there, and what the staff made of it, stays.
use verilink.Base.{
  ℕ, ◌+◌, ◌≡◌, refl, ap, subst, ◌∙◌, Bool, true, false, not, ◌||◌, Option, none, some, List, [],
  ◌∷◌, String, if◌then◌else◌, any, find, insert_new, find-insert_new_old, any-insert_new_old, map,
  throw_if-eq-some, >>=-eq-some, some_inj,
}
use verilink.Base.Texts.{str_eq}
use verilink.Bootstrap.Registry.{
  SeedIssuerEntry, SeedAgentEntry, Services, Principal, Issuer, Key, Root, SeedAttestation, Db,
  has_id, is_issuer, is_key, is_root_row, has_digest, principal_of, key_of, root_of, derived,
  derive_is_bootstrap, insert_issuer, upsert_seed_issuer, upsert_issuers, subject_of,
  seed_attestation_of, insert_seed_attestation, seed_agent, seed_bootstrap_attestations,
  seed_agents, first_key, seed_bootstrap_registry,
}
use verilink.Bootstrap.Registry.Flags.{
  upsert_seed_issuer-eq-some, upsert_seed_subject-eq-some, seed_agent-eq-some,
  seed_bootstrap_registry-eq-some,
}

-- Every row of the first tables is in the second, as it was, but for the flags of issuers.
pub record Grows (db db' : Db) : Type 0 where
  pub principals :
      (id : String) (p : Principal)
      → find (has_id id) db.principals ≡ some p
      → find (has_id id) db'.principals ≡ some p
  pub keys :
      (id key_id : String) (k : Key)
      → find (is_key id key_id) db.keys ≡ some k
      → find (is_key id key_id) db'.keys ≡ some k
  pub issuers :
      (id : String) → any (is_issuer id) db.issuers ≡ true → any (is_issuer id) db'.issuers ≡ true
  pub roots :
      (id : String) (b : Root)
      → find (is_root_row id) db.roots ≡ some b
      → find (is_root_row id) db'.roots ≡ some b
  pub attestations :
      (digest : String)
      → any (has_digest digest) db.attestations ≡ true
      → any (has_digest digest) db'.attestations ≡ true

pub Grows-refl : (db : Db) → Grows db db
Grows-refl db = record {
  principals = λ id p h. h;
  keys = λ id key_id k h. h;
  issuers = λ id h. h;
  roots = λ id b h. h;
  attestations = λ digest h. h;
}

pub Grows-trans : (a b c : Db) → Grows a b → Grows b c → Grows a c
Grows-trans a b c g h = record {
  principals = λ id p e. h.principals id p (g.principals id p e);
  keys = λ id key_id k e. h.keys id key_id k (g.keys id key_id k e);
  issuers = λ id e. h.issuers id (g.issuers id e);
  roots = λ id r e. h.roots id r (g.roots id r e);
  attestations = λ digest e. h.attestations digest (g.attestations digest e);
}

insert_issuer-Grows :
    (sv : Services) (e : SeedIssuerEntry) (db : Db) → Grows db (insert_issuer sv e db)
unfolding insert_issuer
insert_issuer-Grows sv e db = record {
  principals =
      λ id p h. find-insert_new_old (has_id id) (has_id e.id) (principal_of e) db.principals p h;
  keys = λ id key_id k h.
      find-insert_new_old (is_key id key_id) (is_key e.id e.key_id) (key_of sv e) db.keys k h;
  issuers = λ id h.
      any-insert_new_old (is_issuer id) (is_issuer e.id)
        (record { principal_id = e.id; is_bootstrap = false }) db.issuers h;
  roots =
      λ id b h. find-insert_new_old (is_root_row id) (is_root_row e.id) (root_of e) db.roots b h;
  attestations = λ digest h. h;
}

any-derived :
    (roots : List Root) (id : String) (is : List Issuer)
    → any (is_issuer id) (map (derived roots) is) ≡ any (is_issuer id) is
any-derived roots id [] = refl
any-derived roots id (i ∷ is) = ap (λ t. is_issuer id i || t) (any-derived roots id is)

pub derive_is_bootstrap-Grows : (db : Db) → Grows db (derive_is_bootstrap db)
unfolding derive_is_bootstrap
derive_is_bootstrap-Grows db = record {
  principals = λ id p h. h;
  keys = λ id key_id k h. h;
  issuers = λ id h. any-derived db.roots id db.issuers ∙ h;
  roots = λ id b h. h;
  attestations = λ digest h. h;
}

pub upsert_seed_issuer-Grows :
    (sv : Services) (e : SeedIssuerEntry) (db db' : Db)
    → upsert_seed_issuer sv e db ≡ some db'
    → Grows db db'
upsert_seed_issuer-Grows sv e db db' h =
    let (_, _, made) = upsert_seed_issuer-eq-some sv e db db' h in
    subst (Grows db) made (insert_issuer-Grows sv e db)

pub upsert_issuers-Grows :
    (sv : Services) (es : List SeedIssuerEntry) (db db' : Db)
    → upsert_issuers sv es db ≡ some db'
    → Grows db db'
unfolding upsert_issuers
upsert_issuers-Grows sv [] db db' h = subst (Grows db) (some_inj h) (Grows-refl db)
upsert_issuers-Grows sv (e ∷ es) db db' h =
    let (mid, one, others) =
      >>=-eq-some (upsert_seed_issuer sv e db) (upsert_issuers sv es) db' h in
    Grows-trans db mid db' (upsert_seed_issuer-Grows sv e db mid one)
      (upsert_issuers-Grows sv es mid db' others)

subject-Grows :
    (a : SeedAgentEntry) (db : Db)
    → Grows db (record db { principals = insert_new (has_id a.id) (subject_of a) db.principals })
subject-Grows a db = record {
  principals =
      λ id p h. find-insert_new_old (has_id id) (has_id a.id) (subject_of a) db.principals p h;
  keys = λ id key_id k h. h;
  issuers = λ id h. h;
  roots = λ id b h. h;
  attestations = λ digest h. h;
}

insert_seed_attestation-Grows :
    (a : SeedAttestation) (db : Db) → Grows db (insert_seed_attestation a db).1
unfolding insert_seed_attestation
insert_seed_attestation-Grows a db = record {
  principals = λ id p h. h;
  keys = λ id key_id k h. h;
  issuers = λ id h. h;
  roots = λ id b h. h;
  attestations = λ digest h.
      any-insert_new_old (has_digest digest) (has_digest a.token_digest) a db.attestations h;
}

pub seed_agent-Grows :
    (sv : Services) (a : SeedAgentEntry) (db : Db) (r : Bool × Db)
    → seed_agent sv a db ≡ some r
    → Grows db r.1
seed_agent-Grows sv a db r h =
    let (db', subject, done) = seed_agent-eq-some sv a db r h in
    let (_, made) = upsert_seed_subject-eq-some a db db' subject in
    Grows-trans db db' r.1 (subst (Grows db) made (subject-Grows a db)) (
      subst (λ x. Grows db' x.1) done
        (insert_seed_attestation-Grows (seed_attestation_of sv a) db'))

pub seed_bootstrap_attestations-Grows :
    (sv : Services) (agents : List SeedAgentEntry) (n : ℕ) (db : Db) (r : ℕ × Db)
    → seed_bootstrap_attestations sv agents n db ≡ some r
    → Grows db r.1
unfolding seed_bootstrap_attestations
seed_bootstrap_attestations-Grows sv [] n db r h =
    subst (λ x. Grows db x.1) (some_inj h) (Grows-refl db)
seed_bootstrap_attestations-Grows sv (a ∷ agents) n db r h =
    let (q, one, others) =
      >>=-eq-some (seed_agent sv a db)
        (λ q. seed_bootstrap_attestations sv agents (if q.0 then n + 1 else n) q.1) r h in
    Grows-trans db q.1 r.1 (seed_agent-Grows sv a db q one)
      (seed_bootstrap_attestations-Grows sv agents (if q.0 then n + 1 else n) q.1 r others)

pub seed_agents-Grows :
    (sv : Services) (key : Option String) (x : String) (agents : List SeedAgentEntry) (db : Db)
    (r : ℕ × Db)
    → seed_agents sv key x agents db ≡ some r
    → Grows db r.1
unfolding seed_agents
seed_agents-Grows sv none x agents db r h = subst (λ y. Grows db y.1) (some_inj h) (Grows-refl db)
seed_agents-Grows sv (some key) x agents db r h =
    seed_bootstrap_attestations-Grows sv agents 0 db r
      (throw_if-eq-some (not (str_eq key x)) (seed_bootstrap_attestations sv agents 0 db) r h).1

pub seed_bootstrap_registry-Grows :
    (sv : Services) (key : Option String) (entries : List SeedIssuerEntry)
    (agents : List SeedAgentEntry) (db : Db) (r : ℕ × Db)
    → seed_bootstrap_registry sv key entries agents db ≡ some r
    → Grows db r.1
seed_bootstrap_registry-Grows sv key entries agents db r h =
    let (db', made, seeded) = seed_bootstrap_registry-eq-some sv key entries agents db r h in
    let derived_db = derive_is_bootstrap db' in
    Grows-trans db derived_db r.1
      (Grows-trans db db' derived_db (upsert_issuers-Grows sv entries db db' made)
        (derive_is_bootstrap-Grows db'))
      (seed_agents-Grows sv key (first_key entries) agents derived_db r seeded)

-- A seed that succeeds keeps every row of the registry as it was, with the weight, the reason, the
-- approval and the removal that the staff gave it, also where the manifest lists the issuer.
pub seed_bootstrap_registry-keeps_staff :
    (sv : Services) (key : Option String) (entries : List SeedIssuerEntry)
    (agents : List SeedAgentEntry) (db : Db) (r : ℕ × Db) (id : String) (b : Root)
    → seed_bootstrap_registry sv key entries agents db ≡ some r
    → find (is_root_row id) db.roots ≡ some b
    → find (is_root_row id) r.1.roots ≡ some b
seed_bootstrap_registry-keeps_staff sv key entries agents db r id b h =
    (seed_bootstrap_registry-Grows sv key entries agents db r h).roots id b
