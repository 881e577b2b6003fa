-- ===== src/Graph/ScoreWriter.antt =====
-- control-plane/src/domains/graph/scoreDiff.ts and scoreWriter.ts: the engine's rows replace the
-- table `network_scores`, and each change is an event of the sync stream. The transaction holds the
-- advisory lock of the stream, so it runs alone. `Q` is the type of the payloads of other writers.
pub mod Changes
pub mod View
pub mod Quiet
pub mod Mirror
use verilink.Base.{
  ℕ, ◌+◌, Bool, true, false, not, ◌||◌, Option, none, some, List, [], ◌∷◌, ◌++◌, String,
  if◌then◌else◌, keep, is_some,
}
use verilink.Base.Int.{ℤ, eq_ℤ}
use verilink.Base.Texts.{str_eq}
use verilink.Sync.EventLog.{SyncEvent, Opts, append_event_with_client}

-- `EngineScore` and `ExistingScore` have the same fields.
pub record EngineScore : Type 0 where
  pub principal_id : String
  pub entity_kind : String
  pub score : ℤ
  pub blacklisted : Bool
  pub score_reason : String

-- A row of `network_scores` and of `network_score_history`.
pub record ScoreRow : Type 0 where
  pub entry : EngineScore
  pub computed_at : ℕ
  pub sync_version : ℕ

pub data Payload (Q : Type 0) : Type 0 where
  upsert : EngineScore → Payload Q
  delete : String → Payload Q
  other : Q → Payload Q

pub record Db (Q : Type 0) : Type 0 where
  pub sync_events : List (SyncEvent (Payload Q))
  pub network_scores : List ScoreRow
  pub network_score_history : List ScoreRow

pub record ApplyScoresResult : Type 0 where
  pub upserts : ℕ
  pub deletes : ℕ

abbrev pub bool_eq : Bool → Bool → Bool
bool_eq true b = b
bool_eq false b = not b

unfoldable pub score_changed : EngineScore → EngineScore → Bool
score_changed prev next =
    not (eq_ℤ prev.score next.score)
    || not (bool_eq prev.blacklisted next.blacklisted)
    || not (str_eq prev.score_reason next.score_reason)
    || not (str_eq prev.entity_kind next.entity_kind)

-- A row of a list by its id; `existing.get(id)` and `nextIds.has(id)` read the map and the set that
-- are built from such a list. The ids of `network_scores` are its primary key.
unfoldable pub get : String → List EngineScore → Option EngineScore
get id [] = none
get id (r ∷ rs) = if str_eq r.principal_id id then some r else get id rs

unfoldable pub load_existing_scores : List ScoreRow → List EngineScore
load_existing_scores [] = []
load_existing_scores (r ∷ rs) = r.entry ∷ load_existing_scores rs

-- `!prev || scoreChanged(prev, row)`.
unfoldable pub is_changed : Option EngineScore → EngineScore → Bool
unfolding score_changed
is_changed none row = true
is_changed (some prev) row = score_changed prev row

-- `INSERT ... ON CONFLICT (principal_id) DO UPDATE` of every column.
unfoldable pub upsert_score : ScoreRow → List ScoreRow → List ScoreRow
upsert_score row [] = row ∷ []
upsert_score row (r ∷ rs) =
    if str_eq r.entry.principal_id row.entry.principal_id then row ∷ rs else r ∷ upsert_score row rs

unfoldable pub delete_score : String → List ScoreRow → List ScoreRow
delete_score id = keep (λ r. not (str_eq r.entry.principal_id id))

module _ {Q : Type 0} where
  -- The body of the first loop for a row that has changed.
  unfoldable pub write_row : ℕ → EngineScore → Db Q → Db Q
  unfolding append_event_with_client upsert_score
  write_row computed_at row db =
      let (events, version) =
        append_event_with_client db.sync_events "score.upsert" (upsert row)
          (record { principal_id = some row.principal_id; tenant_id = none }) in
      let stored : ScoreRow = record {
        entry = row;
        computed_at = computed_at;
        sync_version = version;
      } in
      record {
        sync_events = events;
        network_scores = upsert_score stored db.network_scores;
        network_score_history = db.network_score_history ++ stored ∷ [];
      }

  -- The body of the second loop for a row that the engine no longer has.
  unfoldable pub delete_row : String → Db Q → Db Q
  unfolding append_event_with_client delete_score
  delete_row id db =
      let (events, version) =
        append_event_with_client db.sync_events "score.delete" (delete id)
          (record { principal_id = some id; tenant_id = none }) in
      record db { sync_events = events; network_scores = delete_score id db.network_scores }

  unfoldable pub write_rows : ℕ → List EngineScore → List EngineScore → Db Q → ℕ → Db Q × ℕ
  unfolding write_row is_changed get
  write_rows computed_at existing [] db upserts = (db, upserts)
  write_rows computed_at existing (row ∷ rows) db upserts =
      let changed = is_changed (get row.principal_id existing) row in
      write_rows computed_at existing rows (if changed then write_row computed_at row db else db)
        (if changed then upserts + 1 else upserts)

  unfoldable pub delete_rows : List EngineScore → List EngineScore → Db Q → ℕ → Db Q × ℕ
  unfolding delete_row get
  delete_rows next [] db deletes = (db, deletes)
  delete_rows next (prev ∷ existing) db deletes =
      let gone = not (is_some (get prev.principal_id next)) in
      delete_rows next existing (if gone then delete_row prev.principal_id db else db)
        (if gone then deletes + 1 else deletes)

  unfoldable pub apply_score_table : List EngineScore → ℕ → Db Q → Db Q × ApplyScoresResult
  unfolding write_rows delete_rows load_existing_scores
  apply_score_table engine_rows computed_at db =
      let existing = load_existing_scores db.network_scores in
      let (written, upserts) = write_rows computed_at existing engine_rows db 0 in
      let (done, deletes) = delete_rows engine_rows existing written 0 in
      (done, record { upserts = upserts; deletes = deletes })

  -- The deletes of an empty table of the engine.
  unfoldable pub clear_all_scores : ℕ → Db Q → Db Q × ℕ
  unfolding apply_score_table
  clear_all_scores now db =
      let (done, result) = apply_score_table [] now db in (done, result.deletes)
