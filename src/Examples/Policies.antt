-- ===== src/Examples/Policies.antt =====
-- Instances for the policies of the tenants.
use verilink.Base.{ℕ, ◌≡◌, refl, inr, true, false, some, [], ◌∷◌, arith}
use verilink.Base.Int.{pos}
use verilink.Policy.Validation.{
  PolicyUpdate, number, object, end, member, finite, default_rate, parse_policy_update,
}
use verilink.Policy.Validation.Accepts.{
  IsPolicy, body_of, parse_policy_update-body_of, parse_policy_update-IsPolicy,
}
use verilink.Policy.Store.{Policy, Db, replace_active_policy}
use verilink.Policy.Store.Active.{Replaces, replace_active_policy-Replaces}

abbrev strict : PolicyUpdate
strict = record {
  threshold = 80;
  below_threshold_action = "deny";
  unsigned_action = "passthrough";
  allow_fingerprints = "f1" ∷ [];
  deny_fingerprints = [];
  fail_open_expired = false;
  no_drop_decisions = false;
  max_snapshot_age_seconds = 300;
  allow_sample_rate = default_rate;
}

strict-IsPolicy : IsPolicy strict
strict-IsPolicy = record {
  threshold = omega arith;
  below = refl;
  unsigned = refl;
  allow = (refl, omega arith);
  deny = (refl, omega arith);
  rate = refl;
}

parse_policy_update-body_of_example : parse_policy_update (body_of strict) ≡ some strict
parse_policy_update-body_of_example = parse_policy_update-body_of strict strict-IsPolicy

-- A body with one field; the others have their defaults.
abbrev lenient : PolicyUpdate
lenient = record strict { threshold = 10; allow_fingerprints = [] }

parse_policy_update-IsPolicy_example : IsPolicy lenient
unfolding parse_policy_update
parse_policy_update-IsPolicy_example =
    parse_policy_update-IsPolicy (object (member "threshold" (number (finite (pos 10) 0)) end))
      lenient refl

abbrev tables : Db (Unit {0})
tables = record {
  policies =
      record { id = "p1"; tenant_id = "a"; name = "default"; settings = lenient; is_active = true }
      ∷ record {
        id = "p2";
        tenant_id = "b";
        name = "default";
        settings = lenient;
        is_active = true;
      }
      ∷ [];
  sync_events = [];
}

replace_active_policy-Replaces_example :
    (r : (Policy × ℕ) × Db (Unit {0})) × (replace_active_policy some "p3" "b" strict tables
      ≡ some r)
    × Replaces "b" strict tables r
replace_active_policy-Replaces_example =
    replace_active_policy-Replaces some "p3" "b" strict strict tables (inr refl, (inr refl, tt))
      refl refl
