-- ===== src/Examples/Graphs.antt =====
-- Instances for the graph and the runs of the engine.
use verilink.Base.{ℕ, ◌≡◌, refl, true, false, none, some, [], ◌∷◌, if◌then◌else◌, ◌==◌, String}
use verilink.Base.Int.{pos}
use verilink.Graph.Grouping.{GroupableAttestation}
use verilink.Graph.Loader.{PrincipalRow, Snapshot, AttestationGraph, load_attestation_graph}
use verilink.Graph.Loader.Closed.{IsWhole, load_attestation_graph-IsWhole}
use verilink.Graph.ScoreWriter.{EngineScore, upsert, Db, get}
use verilink.Graph.ScoreWriter.Changes.{view}
use verilink.Graph.Recompute.{
  Answer, success, failure, unimplemented, RunVeriRankResult, RecomputeResult, applied,
  run_veri_rank_with_retry, recompute_now,
}
use verilink.Graph.Recompute.Retries.{IsTried, run_veri_rank_with_retry-IsTried}
use verilink.Graph.Recompute.Outcome.{recompute_now-view}

abbrev person : String → PrincipalRow
person id = record { id = id; entity_kind = "org"; is_active = true }

abbrev observed : GroupableAttestation
observed = record {
  id = "a1";
  issuer_id = "root";
  subject_id = "s";
  observation_id = none;
  visibility = "public";
  issued_at = 5;
  columns = record { trust_delta = pos 9; expires_at = some 100; attestation_type = "identity" };
}

abbrev snapshot : Snapshot
snapshot = record {
  bootstrap_issuers =
      record {
        principal_id = "root";
        name = "Root";
        current_weight = 50;
        de_emphasis_reason = none;
        de_emphasized_at = none;
        approved_by = none;
        removed_from_registry_at = none;
      }
      ∷ [];
  issuers = record { principal_id = "root"; trust_weight = 70 } ∷ [];
  principals = person "root" ∷ person "s" ∷ person "other" ∷ [];
  attestations = record { attestation = observed; superseded_by = none } ∷ [];
  network_score_count = 0;
}

load_attestation_graph-IsWhole_example : IsWhole 10 snapshot (load_attestation_graph 10 snapshot)
load_attestation_graph-IsWhole_example = load_attestation_graph-IsWhole 10 snapshot

abbrev score : EngineScore
score = record {
  principal_id = "s";
  entity_kind = "org";
  score = pos 60;
  blacklisted = false;
  score_reason = "rank";
}

-- The engine fails once, and then answers.
abbrev engine : AttestationGraph → ℕ → Answer RunVeriRankResult
engine g n =
    if n == 1 then failure none else success (record { rows = score ∷ []; computed_at_unix = 1 })

abbrev refuses : ℕ → Answer RunVeriRankResult
refuses n = failure (some unimplemented)

run_veri_rank_with_retry-IsTried_example : IsTried refuses 1 3 (run_veri_rank_with_retry refuses 3)
run_veri_rank_with_retry-IsTried_example = run_veri_rank_with_retry-IsTried refuses 2

abbrev scores : Db (Unit {0})
scores = record { sync_events = []; network_scores = []; network_score_history = [] }

abbrev outcome : RecomputeResult × Db (Unit {0})
outcome = (
  record { status = applied; upserts = 1; deletes = 0; evaluation_time = 10 },
  record {
    sync_events =
        record {
          sync_version = 1;
          event_type = "score.upsert";
          principal_id = some "s";
          tenant_id = none;
          payload = upsert score;
        }
        ∷ [];
    network_scores = record { entry = score; computed_at = 1000; sync_version = 1 } ∷ [];
    network_score_history = record { entry = score; computed_at = 1000; sync_version = 1 } ∷ [];
  },
)

recompute_now-view_example : view outcome.1.network_scores "s" ≡ get "s" (score ∷ [])
unfolding recompute_now get
recompute_now-view_example =
    recompute_now-view engine 10 20 snapshot scores outcome "s" refl refl (refl, tt)
