-- ===== src/Bootstrap/Registry.antt =====
-- control-plane/src/domains/bootstrap/bootstrapSeeder.ts, bootstrapRepository.ts and
-- seedAttestations.ts: the registry of roots, its seed, and the edits of the staff. A transaction
-- that throws is `none`. Weights are in hundredths, the unit of the column `NUMERIC(3,2)`. The
-- decoding of keys, the hashes and the signature are the `Services`; `sign` is deterministic, as
-- Ed25519 is.
pub mod Flags
pub mod Reruns
pub mod Staff
use verilink.Base.{
  ℕ, ◌+◌, Bool, true, false, not, ◌&&◌, ◌||◌, Option, none, some, List, [], ◌∷◌, ◌++◌, String,
  if◌then◌else◌, ltb, any, find, is_some, insert_new, ◌>>=◌, ◌>>◌, throw_if, map, is_empty,
}
use verilink.Base.Int.{ℤ}
use verilink.Base.Texts.{str_eq}
use verilink.Attestation.Json.{Json}

pub record SeedIssuerEntry : Type 0 where
  pub id : String
  pub name : String
  pub entity_kind : String
  pub key_id : String
  pub public_key_x : String

pub record SeedAgentEntry : Type 0 where
  pub id : String
  pub name : String
  pub entity_kind : String
  pub trust_delta : ℤ
  pub attestation_type : String
  pub facts : Json

-- `token_for` is the signed token of an agent's attestation.
pub record Services : Type 0 where
  pub raw_key : String → String
  pub sha256hex : String → String
  pub compute_facts_hash : Json → String
  pub token_for : SeedAgentEntry → String

pub record Principal : Type 0 where
  pub id : String
  pub entity_kind : String
  pub owner_tenant_id : Option String
  pub name : Option String

pub record Issuer : Type 0 where
  pub principal_id : String
  pub is_bootstrap : Bool

pub record Key : Type 0 where
  pub principal_id : String
  pub key_id : String
  pub public_key_raw : String
  pub key_hash : String

-- A row of `bootstrap_issuers`, less the time of its seed.
pub record Root : Type 0 where
  pub principal_id : String
  pub name : String
  pub current_weight : ℕ
  pub de_emphasis_reason : Option String
  pub de_emphasized_at : Option ℕ
  pub approved_by : Option String
  pub removed_from_registry_at : Option ℕ

-- The columns that differ from one seed attestation to another.
pub record SeedAttestation : Type 0 where
  pub subject_id : String
  pub token_digest : String
  pub facts_hash : String
  pub trust_delta : ℤ
  pub attestation_type : String

pub record Db : Type 0 where
  pub principals : List Principal
  pub issuers : List Issuer
  pub keys : List Key
  pub roots : List Root
  pub attestations : List SeedAttestation

abbrev pub has_id : String → Principal → Bool
has_id id p = str_eq p.id id

abbrev pub is_issuer : String → Issuer → Bool
is_issuer id i = str_eq i.principal_id id

abbrev pub is_key : String → String → Key → Bool
is_key id key_id k = str_eq k.principal_id id && str_eq k.key_id key_id

abbrev pub is_root_row : String → Root → Bool
is_root_row id b = str_eq b.principal_id id

abbrev pub has_digest : String → SeedAttestation → Bool
has_digest digest a = str_eq a.token_digest digest

abbrev pub is_text : Option String → String → Bool
is_text none s = false
is_text (some t) s = str_eq t s

-- Whether a row that is there, if any, is other than the manifest says.
unfoldable pub principal_differs : SeedIssuerEntry → Option Principal → Bool
principal_differs e none = false
principal_differs e (some p) =
    not (str_eq p.entity_kind e.entity_kind) || not (is_text p.name e.name)

unfoldable pub key_differs : Services → SeedIssuerEntry → Option Key → Bool
key_differs sv e none = false
key_differs sv e (some k) =
    not (str_eq k.public_key_raw (sv.raw_key e.public_key_x))
    || not (str_eq k.key_hash (sv.sha256hex (sv.raw_key e.public_key_x)))

abbrev pub principal_of : SeedIssuerEntry → Principal
principal_of e = record {
  id = e.id;
  entity_kind = e.entity_kind;
  owner_tenant_id = none;
  name = some e.name;
}

abbrev pub key_of : Services → SeedIssuerEntry → Key
key_of sv e = record {
  principal_id = e.id;
  key_id = e.key_id;
  public_key_raw = sv.raw_key e.public_key_x;
  key_hash = sv.sha256hex (sv.raw_key e.public_key_x);
}

abbrev pub root_of : SeedIssuerEntry → Root
root_of e = record {
  principal_id = e.id;
  name = e.name;
  current_weight = 100;
  de_emphasis_reason = none;
  de_emphasized_at = none;
  approved_by = none;
  removed_from_registry_at = none;
}

-- The four inserts.
unfoldable pub insert_issuer : Services → SeedIssuerEntry → Db → Db
insert_issuer sv e db = record db {
  principals = insert_new (has_id e.id) (principal_of e) db.principals;
  issuers =
      insert_new (is_issuer e.id) (record { principal_id = e.id; is_bootstrap = false }) db.issuers;
  keys = insert_new (is_key e.id e.key_id) (key_of sv e) db.keys;
  roots = insert_new (is_root_row e.id) (root_of e) db.roots;
}

unfoldable pub upsert_seed_issuer : Services → SeedIssuerEntry → Db → Option Db
unfolding principal_differs key_differs insert_issuer
upsert_seed_issuer sv e db = do
  throw_if (principal_differs e (find (has_id e.id) db.principals))
  throw_if (key_differs sv e (find (is_key e.id e.key_id) db.keys))
  some (insert_issuer sv e db)

-- The condition of the registry: a member that is not removed and carries a weight.
unfoldable pub is_live_root : List Root → String → Bool
is_live_root roots id =
    any
      (λ b.
        str_eq b.principal_id id
        && not (is_some b.removed_from_registry_at)
        && ltb 0 b.current_weight)
      roots

abbrev pub derived : List Root → Issuer → Issuer
derived roots i = record i { is_bootstrap = is_live_root roots i.principal_id }

unfoldable pub derive_is_bootstrap : Db → Db
unfolding is_live_root
derive_is_bootstrap db = record db { issuers = map (derived db.roots) db.issuers }

unfoldable pub derive_is_bootstrap_for_issuer : String → Db → Db
unfolding is_live_root
derive_is_bootstrap_for_issuer id db = record db {
  issuers = map (λ i. if is_issuer id i then derived db.roots i else i) db.issuers;
}

unfoldable pub upsert_issuers : Services → List SeedIssuerEntry → Db → Option Db
unfolding upsert_seed_issuer
upsert_issuers sv [] db = some db
upsert_issuers sv (e ∷ es) db = do db' ← upsert_seed_issuer sv e db; upsert_issuers sv es db'

-- Whether a subject that is there, if any, is other than the manifest says, or owned.
unfoldable pub subject_differs : SeedAgentEntry → Option Principal → Bool
subject_differs a none = false
subject_differs a (some p) =
    not (str_eq p.entity_kind a.entity_kind)
    || not (is_text p.name a.name)
    || is_some p.owner_tenant_id

abbrev pub subject_of : SeedAgentEntry → Principal
subject_of a = record {
  id = a.id;
  entity_kind = a.entity_kind;
  owner_tenant_id = none;
  name = some a.name;
}

unfoldable pub upsert_seed_subject : SeedAgentEntry → Db → Option Db
unfolding subject_differs
upsert_seed_subject a db = do
  throw_if (subject_differs a (find (has_id a.id) db.principals))
  some (record db { principals = insert_new (has_id a.id) (subject_of a) db.principals })

unfoldable pub seed_attestation_of : Services → SeedAgentEntry → SeedAttestation
seed_attestation_of sv a = record {
  subject_id = a.id;
  token_digest = sv.sha256hex (sv.token_for a);
  facts_hash = sv.compute_facts_hash a.facts;
  trust_delta = a.trust_delta;
  attestation_type = a.attestation_type;
}

-- Whether the row is new, and the tables afterwards.
unfoldable pub insert_seed_attestation : SeedAttestation → Db → Bool × Db
insert_seed_attestation a db = (
  not (any (has_digest a.token_digest) db.attestations),
  record db { attestations = insert_new (has_digest a.token_digest) a db.attestations },
)

-- One turn of the loop over the agents.
unfoldable pub seed_agent : Services → SeedAgentEntry → Db → Option (Bool × Db)
unfolding upsert_seed_subject seed_attestation_of insert_seed_attestation
seed_agent sv a db = do
  db' ← upsert_seed_subject a db
  some (insert_seed_attestation (seed_attestation_of sv a) db')

-- The number of new attestations, and the tables afterwards.
unfoldable pub seed_bootstrap_attestations :
    Services → List SeedAgentEntry → ℕ → Db → Option (ℕ × Db)
unfolding seed_agent
seed_bootstrap_attestations sv [] n db = some (n, db)
seed_bootstrap_attestations sv (a ∷ rest) n db = do
  r ← seed_agent sv a db
  seed_bootstrap_attestations sv rest (if r.0 then n + 1 else n) r.1

-- The private key of the environment, by its public `x`: none where it is not set.
unfoldable pub seed_agents :
    Services → Option String → String → List SeedAgentEntry → Db → Option (ℕ × Db)
unfolding seed_bootstrap_attestations
seed_agents sv none x agents db = some (0, db)
seed_agents sv (some key) x agents db = do
  throw_if (not (str_eq key x))
  seed_bootstrap_attestations sv agents 0 db

-- The public key that the private key must have is that of the first entry.
abbrev pub first_key : List SeedIssuerEntry → String
first_key [] = ""
first_key (e ∷ es) = e.public_key_x

unfoldable pub seed_bootstrap_registry :
    Services → Option String → List SeedIssuerEntry → List SeedAgentEntry → Db → Option (ℕ × Db)
unfolding upsert_issuers derive_is_bootstrap seed_agents
seed_bootstrap_registry sv key entries agents db = do
  db' ← upsert_issuers sv entries db
  seed_agents sv key (first_key entries) agents (derive_is_bootstrap db')

-- A field that is left alone is none. `now` is the time of the edit.
pub record BootstrapUpdate : Type 0 where
  pub current_weight : Option ℕ
  pub de_emphasis_reason : Option (Option String)
  pub approved_by : Option (Option String)
  pub remove_from_registry : Option Bool

abbrev pub or_old {ℓ} : {A : Type ℓ} → A → Option A → A
or_old old none = old
or_old old (some new) = new

-- `reason ? new Date() : null`
abbrev pub reason_time : ℕ → Option String → Option ℕ
reason_time now none = none
reason_time now (some s) = if str_eq s "" then none else some now

unfoldable pub edited : ℕ → BootstrapUpdate → Root → Root
edited now u b = record b {
  current_weight = or_old b.current_weight u.current_weight;
  de_emphasis_reason = or_old b.de_emphasis_reason u.de_emphasis_reason;
  de_emphasized_at = elim u.de_emphasis_reason [
    | none ↦ b.de_emphasized_at
    | some reason ↦ reason_time now reason
  ];
  approved_by = or_old b.approved_by u.approved_by;
  removed_from_registry_at = elim u.remove_from_registry [
    | none ↦ b.removed_from_registry_at
    | some remove ↦ if remove then some now else none
  ];
}

abbrev pub is_empty_update : BootstrapUpdate → Bool
is_empty_update u =
    not (is_some u.current_weight)
    && not (is_some u.de_emphasis_reason)
    && not (is_some u.approved_by)
    && not (is_some u.remove_from_registry)

-- The row after the edit, or none, and the tables.
unfoldable pub update_bootstrap_issuer : ℕ → String → BootstrapUpdate → Db → Option Root × Db
unfolding edited derive_is_bootstrap_for_issuer
update_bootstrap_issuer now id u db =
    let roots = map (λ b. if is_root_row id b then edited now u b else b) db.roots in
    if is_empty_update u || not (any (is_root_row id) db.roots) then (none, db) else (
      find (is_root_row id) roots,
      derive_is_bootstrap_for_issuer id (record db { roots = roots }),
    )
