-- ===== src/Graph/ScoreWriter/Changes.antt =====
-- When a row counts as changed, and what one write or delete does to the table by id.
use verilink.Base.{
  ◌≡◌, refl, ap, ◌↔◌, false, Option, none, some, List, [], ◌∷◌, String, arith, if◌then◌else◌,
  some_inj,
}
use verilink.Base.Int.{eq_ℤ_iff}
use verilink.Base.Texts.{str_eq, eq_iff}
use verilink.Graph.ScoreWriter.{
  EngineScore, ScoreRow, score_changed, get, load_existing_scores, is_changed, upsert_score,
  delete_score,
}

-- Two rows of one id that have not changed are equal.
score_changed_iff :
    (prev next : EngineScore)
    → prev.principal_id ≡ next.principal_id
    → (score_changed prev next ≡ false) ↔ (prev ≡ next)
unfolding score_changed
score_changed_iff prev next e = ground (
  arith,
  eq_ℤ_iff prev.score next.score,
  eq_iff prev.score_reason next.score_reason,
  eq_iff prev.entity_kind next.entity_kind,
)

-- What the table says of an id.
unfoldable pub view : List ScoreRow → String → Option EngineScore
unfolding get load_existing_scores
view rows id = get id (load_existing_scores rows)

pub view-upsert_score :
    (row : ScoreRow) (rows : List ScoreRow) (id : String)
    → view (upsert_score row rows) id
      ≡ (if str_eq row.entry.principal_id id then some row.entry else view rows id)
unfolding view upsert_score
view-upsert_score row [] id = refl
view-upsert_score row (r ∷ rs) id = ground (
  arith,
  view-upsert_score row rs id,
  eq_iff r.entry.principal_id row.entry.principal_id,
  eq_iff r.entry.principal_id id,
  eq_iff row.entry.principal_id id,
)

pub view-delete_score :
    (gone : String) (rows : List ScoreRow) (id : String)
    → view (delete_score gone rows) id ≡ (if str_eq gone id then none else view rows id)
unfolding view delete_score
view-delete_score gone [] id = ground arith
view-delete_score gone (r ∷ rs) id = ground (
  arith,
  view-delete_score gone rs id,
  eq_iff r.entry.principal_id gone,
  eq_iff r.entry.principal_id id,
  eq_iff gone id,
)

pub get-principal_id :
    (id : String) (rows : List EngineScore) (r : EngineScore)
    → get id rows ≡ some r
    → r.principal_id ≡ id
unfolding get
get-principal_id id [] r e = cc
get-principal_id id (s ∷ ss) r e =
    ground (arith, eq_iff s.principal_id id, get-principal_id id ss r)

-- A row that has not changed is what the table says.
pub is_changed_iff :
    (row : EngineScore) (prev : Option EngineScore) (existing : List EngineScore)
    → get row.principal_id existing ≡ prev
    → (is_changed prev row ≡ false) ↔ (prev ≡ some row)
unfolding is_changed
is_changed_iff row none existing e = ground arith
is_changed_iff row (some p) existing e =
    let same = score_changed_iff p row (get-principal_id row.principal_id existing p e) in
    (λ h. ap some (same.0 h), λ h. same.1 (some_inj h))
