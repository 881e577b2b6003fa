-- ===== src/Graph/Loader.antt =====
-- control-plane/src/domains/graph/attestationGraphLoader.ts: the graph that the trust engine scores,
-- read from one snapshot of the tables. Times are in milliseconds, weights in hundredths.
pub mod Closed
use verilink.Base.{
  ℕ, ◌+◌, Bool, true, false, not, ◌&&◌, ◌||◌, Option, none, some, List, [], ◌∷◌, String,
  if◌then◌else◌, ltb, any, find, keep, map, is_some, is_empty, length,
}
use verilink.Base.Texts.{str_eq}
use verilink.Bootstrap.Registry.{Root}
use verilink.Graph.Grouping.{GroupableAttestation, group_attestations_for_scoring}

-- The rows of `principals`, `issuers` and `attestations`, in the columns that the loader reads.
pub record PrincipalRow : Type 0 where
  pub id : String
  pub entity_kind : String
  pub is_active : Bool

pub record IssuerRow : Type 0 where
  pub principal_id : String
  pub trust_weight : ℕ

pub record AttestationRow : Type 0 where
  pub attestation : GroupableAttestation
  pub superseded_by : Option String

pub record Snapshot : Type 0 where
  pub bootstrap_issuers : List Root
  pub issuers : List IssuerRow
  pub principals : List PrincipalRow
  pub attestations : List AttestationRow
  pub network_score_count : ℕ

pub record GraphPrincipal : Type 0 where
  pub id : String
  pub entity_kind : String
  pub trust_weight : ℕ
  pub is_bootstrap : Bool

pub record GraphRoot : Type 0 where
  pub id : String
  pub weight : ℕ

pub record AttestationGraph : Type 0 where
  pub principals : List GraphPrincipal
  pub roots : List GraphRoot
  pub attestations : List GroupableAttestation
  pub network_score_count : ℕ

-- 1800 days.
abbrev pub half_lives_ms : ℕ
half_lives_ms = 155520000000

abbrev pub is_active_row : String → PrincipalRow → Bool
is_active_row id p = str_eq p.id id && p.is_active

-- The joins with an active principal.
abbrev pub is_active_id : List PrincipalRow → String → Bool
is_active_id principals id = any (is_active_row id) principals

unfoldable pub is_eligible : Snapshot → Root → Bool
is_eligible s b =
    any (λ i. str_eq i.principal_id b.principal_id) s.issuers
    && is_active_id s.principals b.principal_id
    && not (is_some b.removed_from_registry_at)
    && ltb 0 b.current_weight

abbrev pub graph_root : Root → GraphRoot
graph_root b = record { id = b.principal_id; weight = b.current_weight }

unfoldable pub root_rows : Snapshot → List GraphRoot
unfolding is_eligible
root_rows s = map graph_root (keep (is_eligible s) s.bootstrap_issuers)

abbrev pub is_unexpired : ℕ → Option ℕ → Bool
is_unexpired now none = true
is_unexpired now (some t) = ltb now t

-- `issued_at > evaluationTime - HALF_LIVES_MS`, without the difference.
unfoldable pub counts : Snapshot → ℕ → AttestationRow → Bool
counts s now r =
    is_active_id s.principals r.attestation.issuer_id
    && is_active_id s.principals r.attestation.subject_id
    && not (is_some r.superseded_by)
    && is_unexpired now r.attestation.columns.expires_at
    && ltb now (r.attestation.issued_at + half_lives_ms)

unfoldable pub attestation_rows : Snapshot → ℕ → List GroupableAttestation
unfolding counts group_attestations_for_scoring
attestation_rows s now =
    group_attestations_for_scoring (map (λ r. r.attestation) (keep (counts s now) s.attestations))

abbrev pub has_root : List GraphRoot → String → Bool
has_root roots id = any (λ r. str_eq r.id id) roots

-- The set `neededIds`.
unfoldable pub is_needed : List GraphRoot → List GroupableAttestation → String → Bool
is_needed roots attestations id =
    has_root roots id || any (λ a. str_eq a.issuer_id id || str_eq a.subject_id id) attestations

-- `COALESCE(i.trust_weight, 1.0)`.
abbrev pub weight_of : String → List IssuerRow → ℕ
weight_of id [] = 100
weight_of id (i ∷ is) =
    let rest = weight_of id is in if str_eq i.principal_id id then i.trust_weight else rest

unfoldable pub graph_principal : Snapshot → List GraphRoot → PrincipalRow → GraphPrincipal
graph_principal s roots p = record {
  id = p.id;
  entity_kind = p.entity_kind;
  trust_weight = if has_root roots p.id then 100 else weight_of p.id s.issuers;
  is_bootstrap = has_root roots p.id;
}

unfoldable pub graph_principals :
    Snapshot → List GraphRoot → List GroupableAttestation → List GraphPrincipal
unfolding is_needed graph_principal
graph_principals s roots attestations =
    map (graph_principal s roots)
      (keep (λ p. is_needed roots attestations p.id && p.is_active) s.principals)

abbrev pub has_principal : List GraphPrincipal → String → Bool
has_principal principals id = any (λ p. str_eq p.id id) principals

unfoldable pub load_attestation_graph : ℕ → Snapshot → AttestationGraph
unfolding root_rows attestation_rows graph_principals
load_attestation_graph now s =
    let roots = root_rows s in
    let attestations = attestation_rows s now in
    let principals = graph_principals s roots attestations in
    if is_empty roots && is_empty attestations
    then record {
      principals = [];
      roots = [];
      attestations = [];
      network_score_count = s.network_score_count;
    }
    else record {
      principals = principals;
      roots = keep (λ r. has_principal principals r.id) roots;
      attestations =
          keep (λ a. has_principal principals a.issuer_id && has_principal principals a.subject_id)
            attestations;
      network_score_count = s.network_score_count;
    }
