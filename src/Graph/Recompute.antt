-- ===== src/Graph/Recompute.antt =====
-- control-plane/src/domains/graph/scoreComputationService.ts and grpc/runVeriRankClient.ts: one run
-- from the graph through the trust engine to the table of scores. The engine is a parameter: what it
-- answers to each attempt.
pub mod Retries
pub mod Outcome
use verilink.Base.{
  ℕ, zero, suc, ◌+◌, ◌*◌, ◌==◌, Bool, true, false, not, ◌||◌, Option, none, some, List, [], ◌∷◌,
  String, if◌then◌else◌, min, length, is_empty, ◌>>=◌,
}
use verilink.Graph.Loader.{Snapshot, AttestationGraph, load_attestation_graph}
use verilink.Graph.ScoreWriter.{EngineScore, Db, apply_score_table, clear_all_scores}

-- The codes of `grpc.status` that the client names.
pub data Status : Type 0 where
  invalid_argument not_found already_exists permission_denied unauthenticated : Status
  failed_precondition out_of_range unimplemented : Status
  other_status : ℕ → Status

-- An error may have no code.
unfoldable pub is_retryable_grpc_error : Option Status → Bool
is_retryable_grpc_error none = true
is_retryable_grpc_error (some (other_status n)) = true
is_retryable_grpc_error (some _) = false

pub data Answer (R : Type 0) : Type 0 where
  success : R → Answer R
  failure : Option Status → Answer R

module _ {R : Type 0} (run : ℕ → Answer R) where
  -- The loop from `attempt` on, of which `left` attempts are left: the result, none where it throws,
  -- and the number of calls made.
  unfoldable pub try_from : ℕ → ℕ → Option R × ℕ
  unfolding is_retryable_grpc_error
  try_from attempt zero = (none, 0)
  try_from attempt (suc left) =
      let rest = try_from (attempt + 1) left in
      elim (run attempt) [
        | success r ↦ (some r, 1)
        | failure code ↦
            if (left == 0) || not (is_retryable_grpc_error code)
            then (none, 1)
            else (rest.0, rest.1 + 1)
      ]

  unfoldable pub run_veri_rank_with_retry : ℕ → Option R × ℕ
  unfolding try_from
  run_veri_rank_with_retry retries = try_from 1 retries

-- In milliseconds from now.
unfoldable pub deadline_for_graph : AttestationGraph → ℕ
deadline_for_graph g =
    min 600000 (60000 + (length g.principals + length g.roots + length g.attestations) * 5)

pub record RunVeriRankResult : Type 0 where
  pub rows : List EngineScore
  pub computed_at_unix : ℕ

pub data RecomputeStatus : Type 0 where
  cold_start cleared_stale applied : RecomputeStatus

pub record RecomputeResult : Type 0 where
  pub status : RecomputeStatus
  pub upserts : ℕ
  pub deletes : ℕ
  pub evaluation_time : ℕ

module _ {Q : Type 0} where
  -- No eligible root: nothing to do, or the scores are cleared, at the time `now`.
  unfoldable pub recompute_rootless : ℕ → ℕ → ℕ → Db Q → RecomputeResult × Db Q
  unfolding clear_all_scores
  recompute_rootless evaluation_time now count db =
      let cleared = clear_all_scores now db in
      if count == 0
      then (
        record { status = cold_start; upserts = 0; deletes = 0; evaluation_time = evaluation_time },
        db,
      )
      else (
        record {
          status = cleared_stale;
          upserts = 0;
          deletes = cleared.1;
          evaluation_time = evaluation_time;
        },
        cleared.0,
      )

  unfoldable pub recompute_applied : ℕ → RunVeriRankResult → Db Q → RecomputeResult × Db Q
  unfolding apply_score_table
  recompute_applied evaluation_time result db =
      let written = apply_score_table result.rows (result.computed_at_unix * 1000) db in
      (
        record {
          status = applied;
          upserts = written.1.upserts;
          deletes = written.1.deletes;
          evaluation_time = evaluation_time;
        },
        written.0,
      )

  -- The run after its load.
  unfoldable pub recompute_graph :
      (AttestationGraph → ℕ → Answer RunVeriRankResult)
      → ℕ
      → ℕ
      → AttestationGraph
      → Db Q
      → Option (RecomputeResult × Db Q)
  unfolding run_veri_rank_with_retry recompute_rootless recompute_applied
  recompute_graph engine evaluation_time now graph db =
      if is_empty graph.roots
      then some (recompute_rootless evaluation_time now graph.network_score_count db)
      else do
        result ← (run_veri_rank_with_retry (engine graph) 3).0
        some (recompute_applied evaluation_time result db)

  unfoldable pub recompute_now :
      (AttestationGraph → ℕ → Answer RunVeriRankResult)
      → ℕ
      → ℕ
      → Snapshot
      → Db Q
      → Option (RecomputeResult × Db Q)
  unfolding recompute_graph load_attestation_graph
  recompute_now engine evaluation_time now snapshot db =
      recompute_graph engine evaluation_time now (load_attestation_graph evaluation_time snapshot)
        db
