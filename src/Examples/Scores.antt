-- ===== src/Examples/Scores.antt =====
-- Instances for control-plane/src/domains/graph.
use verilink.Base.{none, ◌≡◌, refl, true, false, List, [], ◌∷◌, String, ℕ, ◌≤◌, arith}
use verilink.Base.Int.{pos}
use verilink.Graph.ScoreWriter.{EngineScore, Db, apply_score_table, get}
use verilink.Graph.ScoreWriter.Changes.{view}
use verilink.Graph.ScoreWriter.View.{view-apply_score_table}
use verilink.Graph.ScoreWriter.Quiet.{apply_score_table_twice}
use verilink.Graph.ScoreWriter.Mirror.{IsMirrored, apply_score_table-IsMirrored}
use verilink.Base.{some}
use verilink.Graph.Grouping.{GroupableAttestation, group_attestations_for_scoring}
use verilink.Graph.Grouping.Cover.{Represents, group_attestations_for_scoring-Represents}
use verilink.Graph.Scheduler.{Scheduler, Event, starts, marks, debounces, resumes, kicks, run, new}
use verilink.Graph.Scheduler.SingleFlight.{in_flight, run-in_flight}
use verilink.Graph.Scheduler.LostMark.{mark-finishing_lost}

abbrev entry : String → ℕ → EngineScore
entry id score = record {
  principal_id = id;
  entity_kind = "agent";
  score = pos score;
  blacklisted = false;
  score_reason = "r";
}

abbrev scores : List EngineScore
scores = entry "a" 10 ∷ entry "b" 20 ∷ []

abbrev no_scores : Db ℕ
no_scores = record { sync_events = []; network_scores = []; network_score_history = [] }

view-apply_score_table_example :
    view (apply_score_table scores 5 no_scores).0.network_scores "b" ≡ get "b" scores
unfolding get
view-apply_score_table_example = view-apply_score_table scores 5 no_scores "b" (refl, (refl, tt))

apply_score_table-IsMirrored_example : IsMirrored (apply_score_table scores 5 no_scores).0
unfolding view
apply_score_table-IsMirrored_example = apply_score_table-IsMirrored scores 5 no_scores (λ id. refl)

apply_score_table_twice_example :
    apply_score_table scores 6 (apply_score_table scores 5 no_scores).0
    ≡ ((apply_score_table scores 5 no_scores).0, record { upserts = 0; deletes = 0 })
unfolding get
apply_score_table_twice_example = apply_score_table_twice scores 5 6 no_scores (refl, (refl, tt))

abbrev changes : List Event
changes = starts ∷ marks ∷ debounces ∷ marks ∷ resumes 0 ∷ kicks ∷ []

run-in_flight_example : in_flight (run changes new).tasks ≤ 1
run-in_flight_example = run-in_flight changes (omega arith)

abbrev finished : Scheduler
finished = run (starts ∷ marks ∷ debounces ∷ resumes 0 ∷ []) new

mark-finishing_lost_example :
    ((run (marks ∷ resumes 0 ∷ []) finished).dirty ≡ true)
    × ((run (marks ∷ resumes 0 ∷ []) finished).running ≡ false)
    × ((run (marks ∷ resumes 0 ∷ []) finished).debounce_timer ≡ false)
    × ((run (marks ∷ resumes 0 ∷ []) finished).runs ≡ finished.runs)
unfolding run new
mark-finishing_lost_example = mark-finishing_lost finished [] refl refl refl refl refl

abbrev copy_of : String → GroupableAttestation
copy_of visibility = record {
  id = visibility;
  issuer_id = "i";
  subject_id = "s";
  observation_id = some (97 ∷ []);
  visibility = visibility;
  issued_at = 3;
  columns = record { trust_delta = pos 5; expires_at = none; attestation_type = "identity" };
}

abbrev both_copies : List GroupableAttestation
both_copies =
    copy_of "public"
    ∷ record (copy_of "public") { observation_id = none }
    ∷ copy_of "participants"
    ∷ record (copy_of "public") { observation_id = none }
    ∷ []

group_attestations_for_scoring-Represents_example :
    Represents both_copies (group_attestations_for_scoring both_copies)
group_attestations_for_scoring-Represents_example =
    group_attestations_for_scoring-Represents both_copies
