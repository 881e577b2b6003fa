-- ===== src/Graph/Recompute/Outcome.antt =====
-- What the table of scores says after a run.
use verilink.Base.{
  ℕ, ◌*◌, ◌==◌, ◌≡◌, refl, sym, ap, ◌∙◌, subst, inl, inr, true, false, Option, none, some, List, [],
  ◌∷◌, String, arith, Bool-cases, if◌then◌else◌, length, is_empty, ◌>>=◌, >>=-eq-some, some_inj,
}
use verilink.Graph.Loader.{Snapshot, AttestationGraph, load_attestation_graph}
use verilink.Graph.ScoreWriter.{
  EngineScore, ScoreRow, Db, clear_all_scores, get, load_existing_scores,
}
use verilink.Graph.ScoreWriter.Changes.{view}
use verilink.Graph.ScoreWriter.View.{IsDistinct, view-apply_score_table}
use verilink.Graph.Recompute.{
  Answer, RunVeriRankResult, RecomputeResult, run_veri_rank_with_retry, recompute_rootless,
  recompute_applied, recompute_graph, recompute_now,
}

length-zero : (rows : List ScoreRow) → (length rows == 0) ≡ true → rows ≡ []
length-zero [] h = refl
length-zero (r ∷ rows) h = absurd (ground arith)

-- What the engine last answered on a graph: its rows, none where it has no root to start from.
abbrev pub rows_of : AttestationGraph → Option RunVeriRankResult → List EngineScore
rows_of g none = []
rows_of g (some result) = if is_empty g.roots then [] else result.rows

rows_of-rootless :
    (g : AttestationGraph) (o : Option RunVeriRankResult)
    → is_empty g.roots ≡ true
    → rows_of g o ≡ []
rows_of-rootless g none e = refl
rows_of-rootless g (some result) e = rw e refl

rows_of-rooted :
    (g : AttestationGraph) (result : RunVeriRankResult)
    → is_empty g.roots ≡ false
    → rows_of g (some result) ≡ result.rows
rows_of-rooted g result e = rw e refl

load-count :
    (t : ℕ) (s : Snapshot)
    → (load_attestation_graph t s).network_score_count ≡ s.network_score_count
unfolding load_attestation_graph
load-count t s = ground arith

module _ {Q : Type 0} where
  rootless-view :
      (t now : ℕ) (db : Db Q) (id : String)
      → view (recompute_rootless t now (length db.network_scores) db).1.network_scores id ≡ none
  unfolding recompute_rootless clear_all_scores view load_existing_scores get
  rootless-view t now db id = elim (Bool-cases (length db.network_scores == 0)) [
    | inl e ↦ rw (e, length-zero db.network_scores e, recompute_rootless) refl
    | inr e ↦ rw (e, recompute_rootless) (view-apply_score_table [] now db id tt)
  ]

  recompute_graph-view :
      (engine : AttestationGraph → ℕ → Answer RunVeriRankResult) (t now : ℕ) (g : AttestationGraph)
      (db : Db Q) (r : RecomputeResult × Db Q) (id : String)
      → g.network_score_count ≡ length db.network_scores
      → recompute_graph engine t now g db ≡ some r
      → IsDistinct (rows_of g (run_veri_rank_with_retry (engine g) 3).0)
      → view r.1.network_scores id ≡ get id (rows_of g (run_veri_rank_with_retry (engine g) 3).0)
  unfolding recompute_graph recompute_applied get
  recompute_graph-view engine t now g db r id n h d =
      let o = (run_veri_rank_with_retry (engine g) 3).0 in
      elim (Bool-cases (is_empty g.roots)) [
        | inl e ↦
            let h' : some (recompute_rootless t now g.network_score_count db) ≡ some r =
              subst
                (λ b.
                  (if b
                    then some (recompute_rootless t now g.network_score_count db)
                    else (o >>= λ result. some (recompute_applied t result db)))
                  ≡ some r)
                e h in
            let none_left : rows_of g o ≡ [] = rows_of-rootless g o e in
            ap (λ x. view x.1.network_scores id) (sym (some_inj h'))
            ∙ subst (λ c. view (recompute_rootless t now c db).1.network_scores id ≡ none) (sym n)
                (rootless-view t now db id)
            ∙ ap (get id) (sym none_left)
        | inr e ↦
            let h' : (o >>= λ result. some (recompute_applied t result db)) ≡ some r =
              subst
                (λ b.
                  (if b
                    then some (recompute_rootless t now g.network_score_count db)
                    else (o >>= λ result. some (recompute_applied t result db)))
                  ≡ some r)
                e h in
            let (result, answered, done) =
              >>=-eq-some o (λ result. some (recompute_applied t result db)) r h' in
            let rows : rows_of g o ≡ result.rows =
              ap (rows_of g) answered ∙ rows_of-rooted g result e in
            ap (λ x. view x.1.network_scores id) (sym (some_inj done))
            ∙ view-apply_score_table result.rows (result.computed_at_unix * 1000) db id
                (subst IsDistinct rows d)
            ∙ ap (get id) (sym rows)
      ]

  -- A run that returns, on a snapshot that counts the table's scores, leaves a table that says of
  -- each id what the engine said of the snapshot's graph, in rows of distinct ids, and nothing of any
  -- id where the graph has no root.
  pub recompute_now-view :
      (engine : AttestationGraph → ℕ → Answer RunVeriRankResult) (t now : ℕ) (s : Snapshot)
      (db : Db Q) (r : RecomputeResult × Db Q) (id : String)
      → s.network_score_count ≡ length db.network_scores
      → recompute_now engine t now s db ≡ some r
      → let g = load_attestation_graph t s in
        let rows = rows_of g (run_veri_rank_with_retry (engine g) 3).0 in
        IsDistinct rows → view r.1.network_scores id ≡ get id rows
  unfolding recompute_now
  recompute_now-view engine t now s db r id n h d =
      recompute_graph-view engine t now (load_attestation_graph t s) db r id (load-count t s ∙ n) h
        d
