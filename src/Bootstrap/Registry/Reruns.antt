-- ===== src/Bootstrap/Registry/Reruns.antt =====
-- A seed that runs again finds all of its rows, and changes nothing.
use verilink.Base.{
  ℕ, ◌+◌, ◌≡◌, refl, sym, ap, subst, inl, inr, Bool, true, false, not, Option, none, some, List, [],
  ◌∷◌, String, if◌then◌else◌, any, find, insert_new, insert_new-old, find-insert_new,
  any-insert_new, any-find_row, map, throw_if-eq-some, >>=-eq-some, All,
}
use verilink.Base.Texts.{str_eq, eq_refl}
use verilink.Bootstrap.Registry.{
  SeedIssuerEntry, SeedAgentEntry, Services, Principal, Issuer, Key, Root, Db, has_id, is_issuer,
  is_key, is_root_row, has_digest, principal_of, key_of, root_of, derived, principal_differs,
  key_differs, subject_differs, derive_is_bootstrap, insert_issuer, is_live_root,
  upsert_seed_issuer, upsert_issuers, upsert_seed_subject, subject_of, seed_attestation_of,
  insert_seed_attestation, seed_agent, seed_bootstrap_attestations, seed_agents, first_key,
  seed_bootstrap_registry,
}
use verilink.Bootstrap.Registry.Flags.{
  IsDerived, upsert_seed_issuer-eq-some, upsert_seed_subject-eq-some, seed_agent-eq-some,
  seed_bootstrap_registry-eq-some, seed_bootstrap_registry-IsDerived,
}
use verilink.Bootstrap.Registry.Staff.{
  Grows, Grows-trans, derive_is_bootstrap-Grows, upsert_issuers-Grows,
  seed_bootstrap_attestations-Grows, seed_agents-Grows,
}

-- The rows of an entry are there, and as the manifest says.
record IsSettled (sv : Services) (e : SeedIssuerEntry) (db : Db) : Type 0 where
  principal :
      (p : Principal) × (find (has_id e.id) db.principals ≡ some p)
      × (principal_differs e (some p) ≡ false)
  key :
      (k : Key) × (find (is_key e.id e.key_id) db.keys ≡ some k)
      × (key_differs sv e (some k) ≡ false)
  issuer : any (is_issuer e.id) db.issuers ≡ true
  root : (b : Root) × (find (is_root_row e.id) db.roots ≡ some b)

principal_of-same : (e : SeedIssuerEntry) → principal_differs e (some (principal_of e)) ≡ false
unfolding principal_differs
principal_of-same e = rw (eq_refl e.entity_kind, eq_refl e.name) refl

key_of-same : (sv : Services) (e : SeedIssuerEntry) → key_differs sv e (some (key_of sv e)) ≡ false
unfolding key_differs
key_of-same sv e =
    rw (eq_refl (sv.raw_key e.public_key_x), eq_refl (sv.sha256hex (sv.raw_key e.public_key_x)))
      refl

-- A row that was inserted, or was there and passed the check.
settled_row {ℓ} :
    {A : Type ℓ} (same : A → Bool) (differs : Option A → Bool) (x : A) (rows : List A)
    → same x ≡ true
    → differs (find same rows) ≡ false
    → differs (some x) ≡ false
    → (r : A) × (find same (insert_new same x rows) ≡ some r) × (differs (some r) ≡ false)
settled_row same differs x rows s old new =
    let (r, f, which) = find-insert_new same x rows s in
    elim which [
      | inl e ↦ (r, f, subst (λ o. differs o ≡ false) e old)
      | inr (_, e) ↦ (r, f, subst (λ y. differs (some y) ≡ false) (sym e) new)
    ]

insert_issuer-IsSettled :
    (sv : Services) (e : SeedIssuerEntry) (db : Db)
    → principal_differs e (find (has_id e.id) db.principals) ≡ false
    → key_differs sv e (find (is_key e.id e.key_id) db.keys) ≡ false
    → IsSettled sv e (insert_issuer sv e db)
unfolding insert_issuer
insert_issuer-IsSettled sv e db p k = record {
  principal =
      settled_row (has_id e.id) (principal_differs e) (principal_of e) db.principals (eq_refl e.id)
        p (principal_of-same e);
  key =
      settled_row (is_key e.id e.key_id) (key_differs sv e) (key_of sv e) db.keys
        (rw (eq_refl e.id, eq_refl e.key_id) refl) k (key_of-same sv e);
  issuer =
      any-insert_new (is_issuer e.id) (record { principal_id = e.id; is_bootstrap = false })
        db.issuers (eq_refl e.id);
  root =
      let (b, f, _) = find-insert_new (is_root_row e.id) (root_of e) db.roots (eq_refl e.id) in
      (b, f);
}

Grows-IsSettled :
    (sv : Services) (e : SeedIssuerEntry) (db db' : Db)
    → Grows db db'
    → IsSettled sv e db
    → IsSettled sv e db'
Grows-IsSettled sv e db db' g s =
    let (p, found, same) = s.principal in
    let (k, found', same') = s.key in
    let (b, found'') = s.root in
    record {
      principal = (p, g.principals e.id p found, same);
      key = (k, g.keys e.id e.key_id k found', same');
      issuer = g.issuers e.id s.issuer;
      root = (b, g.roots e.id b found'');
    }

insert_issuer-settled :
    (sv : Services) (e : SeedIssuerEntry) (db : Db) → IsSettled sv e db → insert_issuer sv e db ≡ db
unfolding insert_issuer
insert_issuer-settled sv e db s =
    let (p, found, _) = s.principal in
    let (k, found', _) = s.key in
    let (b, found'') = s.root in
    rw
      (
        insert_new-old (has_id e.id) (principal_of e) db.principals
            (any-find_row (has_id e.id) db.principals p found),
        insert_new-old (is_issuer e.id) (record { principal_id = e.id; is_bootstrap = false })
            db.issuers s.issuer,
        insert_new-old (is_key e.id e.key_id) (key_of sv e) db.keys
            (any-find_row (is_key e.id e.key_id) db.keys k found'),
        insert_new-old (is_root_row e.id) (root_of e) db.roots
            (any-find_row (is_root_row e.id) db.roots b found''),
      )
      refl

upsert_seed_issuer-settled :
    (sv : Services) (e : SeedIssuerEntry) (db : Db)
    → IsSettled sv e db
    → upsert_seed_issuer sv e db ≡ some db
unfolding upsert_seed_issuer
upsert_seed_issuer-settled sv e db s =
    let (p, found, same) = s.principal in
    let (k, found', same') = s.key in
    rw (upsert_seed_issuer, found, found', same, same') (ap some (insert_issuer-settled sv e db s))

upsert_issuers-IsSettled :
    (sv : Services) (es : List SeedIssuerEntry) (db db' : Db)
    → upsert_issuers sv es db ≡ some db'
    → All (λ e. IsSettled sv e db') es
unfolding upsert_issuers
upsert_issuers-IsSettled sv [] db db' h = tt
upsert_issuers-IsSettled sv (e ∷ es) db db' h =
    let (mid, one, others) =
      >>=-eq-some (upsert_seed_issuer sv e db) (upsert_issuers sv es) db' h in
    let (p, k, made) = upsert_seed_issuer-eq-some sv e db mid one in
    (
      Grows-IsSettled sv e mid db' (upsert_issuers-Grows sv es mid db' others)
          (subst (IsSettled sv e) made (insert_issuer-IsSettled sv e db p k)),
      upsert_issuers-IsSettled sv es mid db' others,
    )

upsert_issuers-settled :
    (sv : Services) (es : List SeedIssuerEntry) (db : Db)
    → All (λ e. IsSettled sv e db) es
    → upsert_issuers sv es db ≡ some db
unfolding upsert_issuers
upsert_issuers-settled sv [] db h = refl
upsert_issuers-settled sv (e ∷ es) db h =
    rw (upsert_seed_issuer-settled sv e db h.0) (upsert_issuers-settled sv es db h.1)

All-Grows :
    (sv : Services) (es : List SeedIssuerEntry) (db db' : Db)
    → Grows db db'
    → All (λ e. IsSettled sv e db) es
    → All (λ e. IsSettled sv e db') es
All-Grows sv [] db db' g h = tt
All-Grows sv (e ∷ es) db db' g h = (Grows-IsSettled sv e db db' g h.0, All-Grows sv es db db' g h.1)

-- The rows of an agent are there, and as the manifest says.
record IsSeeded (sv : Services) (a : SeedAgentEntry) (db : Db) : Type 0 where
  subject :
      (p : Principal) × (find (has_id a.id) db.principals ≡ some p)
      × (subject_differs a (some p) ≡ false)
  attestation : any (has_digest (sv.sha256hex (sv.token_for a))) db.attestations ≡ true

Grows-IsSeeded :
    (sv : Services) (a : SeedAgentEntry) (db db' : Db)
    → Grows db db'
    → IsSeeded sv a db
    → IsSeeded sv a db'
Grows-IsSeeded sv a db db' g s =
    let (p, found, same) = s.subject in
    record {
      subject = (p, g.principals a.id p found, same);
      attestation = g.attestations (sv.sha256hex (sv.token_for a)) s.attestation;
    }

subject_of-same : (a : SeedAgentEntry) → subject_differs a (some (subject_of a)) ≡ false
unfolding subject_differs
subject_of-same a = rw (eq_refl a.entity_kind, eq_refl a.name) refl

seed_agent-IsSeeded :
    (sv : Services) (a : SeedAgentEntry) (db : Db) (r : Bool × Db)
    → seed_agent sv a db ≡ some r
    → IsSeeded sv a r.1
unfolding insert_seed_attestation seed_attestation_of
seed_agent-IsSeeded sv a db r h =
    let (db', subject, done) = seed_agent-eq-some sv a db r h in
    let (differs, made) = upsert_seed_subject-eq-some a db db' subject in
    let row =
      settled_row (has_id a.id) (subject_differs a) (subject_of a) db.principals (eq_refl a.id)
        differs (subject_of-same a) in
    let att = seed_attestation_of sv a in
    subst (λ x. IsSeeded sv a x.1) done
      (subst (λ x. IsSeeded sv a (insert_seed_attestation att x).1) made
        (record {
          subject = row;
          attestation =
              any-insert_new (has_digest att.token_digest) att db.attestations
                (eq_refl att.token_digest);
        }))

seed_agent-seeded :
    (sv : Services) (a : SeedAgentEntry) (db : Db)
    → IsSeeded sv a db
    → seed_agent sv a db ≡ some (false, db)
unfolding seed_agent
seed_agent-seeded sv a db s =
    let (p, found, same) = s.subject in
    rw
      (
        seed_agent,
        upsert_seed_subject,
        found,
        same,
        insert_new-old (has_id a.id) (subject_of a) db.principals
            (any-find_row (has_id a.id) db.principals p found),
        insert_seed_attestation,
        seed_attestation_of,
        s.attestation,
      )
      refl

seed_bootstrap_attestations-IsSeeded :
    (sv : Services) (agents : List SeedAgentEntry) (n : ℕ) (db : Db) (r : ℕ × Db)
    → seed_bootstrap_attestations sv agents n db ≡ some r
    → All (λ a. IsSeeded sv a r.1) agents
unfolding seed_bootstrap_attestations
seed_bootstrap_attestations-IsSeeded sv [] n db r h = tt
seed_bootstrap_attestations-IsSeeded sv (a ∷ agents) n db r h =
    let (q, one, others) =
      >>=-eq-some (seed_agent sv a db)
        (λ q. seed_bootstrap_attestations sv agents (if q.0 then n + 1 else n) q.1) r h in
    (
      Grows-IsSeeded sv a q.1 r.1
          (seed_bootstrap_attestations-Grows sv agents (if q.0 then n + 1 else n) q.1 r others)
          (seed_agent-IsSeeded sv a db q one),
      seed_bootstrap_attestations-IsSeeded sv agents (if q.0 then n + 1 else n) q.1 r others,
    )

seed_bootstrap_attestations-seeded :
    (sv : Services) (agents : List SeedAgentEntry) (n : ℕ) (db : Db)
    → All (λ a. IsSeeded sv a db) agents
    → seed_bootstrap_attestations sv agents n db ≡ some (n, db)
unfolding seed_bootstrap_attestations
seed_bootstrap_attestations-seeded sv [] n db h = refl
seed_bootstrap_attestations-seeded sv (a ∷ agents) n db h =
    rw (seed_agent-seeded sv a db h.0) (seed_bootstrap_attestations-seeded sv agents n db h.1)

seed_agents_again :
    (sv : Services) (key : Option String) (x : String) (agents : List SeedAgentEntry) (db : Db)
    (r : ℕ × Db)
    → seed_agents sv key x agents db ≡ some r
    → seed_agents sv key x agents r.1 ≡ some (0, r.1)
unfolding seed_agents
seed_agents_again sv none x agents db r h = refl
seed_agents_again sv (some key) x agents db r h =
    let (checked, seeded) =
      throw_if-eq-some (not (str_eq key x)) (seed_bootstrap_attestations sv agents 0 db) r h in
    rw checked (
      seed_bootstrap_attestations-seeded sv agents 0 r.1
        (seed_bootstrap_attestations-IsSeeded sv agents 0 db r seeded))

map-derived_same :
    (roots : List Root) (is : List Issuer)
    → All (λ i. i.is_bootstrap ≡ is_live_root roots i.principal_id) is
    → map (derived roots) is ≡ is
map-derived_same roots [] h = refl
map-derived_same roots (i ∷ is) h = rw (← h.0) (ap (◌∷◌ i) (map-derived_same roots is h.1))

derive_is_bootstrap-same : (db : Db) → IsDerived db → derive_is_bootstrap db ≡ db
unfolding derive_is_bootstrap
derive_is_bootstrap-same db h = rw (map-derived_same db.roots db.issuers h) refl

-- A seed after a seed that succeeded, with the same manifest and key, succeeds, counts no new
-- attestation and changes no row.
pub seed_bootstrap_registry_again :
    (sv : Services) (key : Option String) (entries : List SeedIssuerEntry)
    (agents : List SeedAgentEntry) (db : Db) (r : ℕ × Db)
    → seed_bootstrap_registry sv key entries agents db ≡ some r
    → seed_bootstrap_registry sv key entries agents r.1 ≡ some (0, r.1)
unfolding seed_bootstrap_registry
seed_bootstrap_registry_again sv key entries agents db r h =
    let (db', made, seeded) = seed_bootstrap_registry-eq-some sv key entries agents db r h in
    let settled =
      All-Grows sv entries db' r.1
        (Grows-trans db' (derive_is_bootstrap db') r.1 (derive_is_bootstrap-Grows db')
          (seed_agents-Grows sv key (first_key entries) agents (derive_is_bootstrap db') r seeded))
        (upsert_issuers-IsSettled sv entries db db' made) in
    rw
      (
        upsert_issuers-settled sv entries r.1 settled,
        derive_is_bootstrap-same r.1
            (seed_bootstrap_registry-IsDerived sv key entries agents db r h),
      )
      (seed_agents_again sv key (first_key entries) agents (derive_is_bootstrap db') r seeded)
