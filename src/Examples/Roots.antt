-- ===== src/Examples/Roots.antt =====
-- Instances for the registry of the roots.
use verilink.Base.{◌≡◌, refl, true, false, none, some, [], ◌∷◌, find}
use verilink.Base.Int.{pos}
use verilink.Attestation.Json.{object, end}
use verilink.Bootstrap.Registry.{
  SeedIssuerEntry, SeedAgentEntry, Services, Root, Db, is_root_row, seed_bootstrap_registry,
  BootstrapUpdate, update_bootstrap_issuer,
}
use verilink.Bootstrap.Registry.Flags.{
  IsDerived, seed_bootstrap_registry-IsDerived, update_bootstrap_issuer-IsDerived,
}
use verilink.Bootstrap.Registry.Staff.{seed_bootstrap_registry-keeps_staff}
use verilink.Bootstrap.Registry.Reruns.{seed_bootstrap_registry_again}

abbrev services : Services
services = record {
  raw_key = λ x. x;
  sha256hex = λ x. x;
  compute_facts_hash = λ _. "h";
  token_for = λ a. a.id;
}

abbrev entry : SeedIssuerEntry
entry = record {
  id = "root";
  name = "Root";
  entity_kind = "org";
  key_id = "k1";
  public_key_x = "x";
}

abbrev agent : SeedAgentEntry
agent = record {
  id = "agent";
  name = "Agent";
  entity_kind = "agent";
  trust_delta = pos 5;
  attestation_type = "identity";
  facts = object end;
}

-- The root that the staff took from the registry.
abbrev removed : Root
removed = record {
  principal_id = "root";
  name = "Root";
  current_weight = 50;
  de_emphasis_reason = none;
  de_emphasized_at = none;
  approved_by = some "staff";
  removed_from_registry_at = some 7;
}

abbrev before : Db
before = record {
  principals = [];
  issuers = record { principal_id = "root"; is_bootstrap = true } ∷ [];
  keys = [];
  roots = removed ∷ [];
  attestations = [];
}

-- The tables after the seed: the flag of the removed root is off.
abbrev after : Db
after = record {
  principals =
      record { id = "root"; entity_kind = "org"; owner_tenant_id = none; name = some "Root" }
      ∷ record { id = "agent"; entity_kind = "agent"; owner_tenant_id = none; name = some "Agent" }
      ∷ [];
  issuers = record { principal_id = "root"; is_bootstrap = false } ∷ [];
  keys = record { principal_id = "root"; key_id = "k1"; public_key_raw = "x"; key_hash = "x" } ∷ [];
  roots = removed ∷ [];
  attestations =
      record {
        subject_id = "agent";
        token_digest = "agent";
        facts_hash = "h";
        trust_delta = pos 5;
        attestation_type = "identity";
      }
      ∷ [];
}

seeded :
    seed_bootstrap_registry services (some "x") (entry ∷ []) (agent ∷ []) before ≡ some (1, after)
unfolding seed_bootstrap_registry
seeded = refl

seed_bootstrap_registry-IsDerived_example : IsDerived after
seed_bootstrap_registry-IsDerived_example =
    seed_bootstrap_registry-IsDerived services (some "x") (entry ∷ []) (agent ∷ []) before
      (1, after) seeded

seed_bootstrap_registry-keeps_staff_example : find (is_root_row "root") after.roots ≡ some removed
seed_bootstrap_registry-keeps_staff_example =
    seed_bootstrap_registry-keeps_staff services (some "x") (entry ∷ []) (agent ∷ []) before
      (1, after) "root" removed seeded refl

seed_bootstrap_registry_again_example :
    seed_bootstrap_registry services (some "x") (entry ∷ []) (agent ∷ []) after ≡ some (0, after)
seed_bootstrap_registry_again_example =
    seed_bootstrap_registry_again services (some "x") (entry ∷ []) (agent ∷ []) before (1, after)
      seeded

-- The staff puts the root back.
abbrev reinstated : BootstrapUpdate
reinstated = record {
  current_weight = none;
  de_emphasis_reason = none;
  approved_by = none;
  remove_from_registry = some false;
}

update_bootstrap_issuer-IsDerived_example :
    IsDerived (update_bootstrap_issuer 9 "root" reinstated after).1
update_bootstrap_issuer-IsDerived_example =
    update_bootstrap_issuer-IsDerived 9 "root" reinstated after (
      seed_bootstrap_registry-IsDerived services (some "x") (entry ∷ []) (agent ∷ []) before
        (1, after) seeded)
