-- ===== src/Graph/ScoreWriter/Mirror.antt =====
-- The events of the stream replay to the table, and the counts of the result are those of the
-- events.
use verilink.Base.{
  ℕ, ◌+◌, ◌≡◌, refl, Bool, true, false, not, Option, none, some, List, [], ◌∷◌, ◌++◌, String, arith,
  if◌then◌else◌, is_some, length, length-append,
}
use verilink.Base.Texts.{str_eq}
use verilink.Sync.EventLog.{SyncEvent, append_event_with_client}
use verilink.Graph.ScoreWriter.{
  EngineScore, Payload, upsert, delete, other, Db, get, is_changed, load_existing_scores, write_row,
  delete_row, write_rows, delete_rows, apply_score_table,
}
use verilink.Graph.ScoreWriter.Changes.{view, view-upsert_score, view-delete_score}

-- A reader of the stream keeps a table of its own.
abbrev pub Table : Type 0
Table = String → Option EngineScore

module _ {Q : Type 0} where
  abbrev pub apply_event : Payload Q → Table → Table
  apply_event (upsert r) f id = if str_eq r.principal_id id then some r else f id
  apply_event (delete gone) f id = if str_eq gone id then none else f id
  apply_event (other q) f id = f id

  abbrev pub replay : List (SyncEvent (Payload Q)) → Table → Table
  replay [] f = f
  replay (e ∷ es) f = replay es (apply_event e.payload f)

  replay-append :
      (es fs : List (SyncEvent (Payload Q))) (f : Table)
      → replay (es ++ fs) f ≡ replay fs (replay es f)
  replay-append [] fs f = refl
  replay-append (e ∷ es) fs f = replay-append es fs (apply_event e.payload f)

  -- Replayed from nothing, the stream gives the table.
  abbrev pub IsMirrored : Db Q → Type 0
  IsMirrored db = (id : String) → replay db.sync_events (λ _. none) id ≡ view db.network_scores id

  write_row-IsMirrored :
      (t : ℕ) (row : EngineScore) (db : Db Q) → IsMirrored db → IsMirrored (write_row t row db)
  unfolding write_row append_event_with_client
  write_row-IsMirrored t row db h id =
      rw
        (replay-append db.sync_events _ (λ _. none), view-upsert_score _ db.network_scores id, h id)

  delete_row-IsMirrored :
      (gone : String) (db : Db Q) → IsMirrored db → IsMirrored (delete_row gone db)
  unfolding delete_row append_event_with_client
  delete_row-IsMirrored gone db h id = rw (
    replay-append db.sync_events _ (λ _. none),
    view-delete_score gone db.network_scores id,
    h id,
  )

  -- What each write and delete keeps, the loops keep, if they count it.
  module _ (P : Db Q → ℕ → Type 0) where
    keeps_if :
        (b : Bool) (x db : Db Q) (n : ℕ)
        → P x (n + 1)
        → P db n
        → P (if b then x else db) (if b then n + 1 else n)
    keeps_if true x db n k h = k
    keeps_if false x db n k h = h

    write_rows-keeps :
        ((t : ℕ) (row : EngineScore) (db : Db Q) (n : ℕ) → P db n → P (write_row t row db) (n + 1))
        → (t : ℕ) (existing rows : List EngineScore) (db : Db Q) (n : ℕ) → P db n
        → P (write_rows t existing rows db n).0 (write_rows t existing rows db n).1
    unfolding write_rows
    write_rows-keeps k t existing [] db n h = h
    write_rows-keeps k t existing (r ∷ rs) db n h =
        let b = is_changed (get r.principal_id existing) r in
        write_rows-keeps k t existing rs (if b then write_row t r db else db)
          (if b then n + 1 else n) (keeps_if b (write_row t r db) db n (k t r db n h) h)

    delete_rows-keeps :
        ((gone : String) (db : Db Q) (n : ℕ) → P db n → P (delete_row gone db) (n + 1))
        → (next existing : List EngineScore) (db : Db Q) (n : ℕ) → P db n
        → P (delete_rows next existing db n).0 (delete_rows next existing db n).1
    unfolding delete_rows
    delete_rows-keeps k next [] db n h = h
    delete_rows-keeps k next (r ∷ rs) db n h =
        let b = not (is_some (get r.principal_id next)) in
        let gone = delete_row r.principal_id db in
        delete_rows-keeps k next rs (if b then gone else db) (if b then n + 1 else n)
          (keeps_if b gone db n (k r.principal_id db n h) h)

  apply-keeps :
      (P : Db Q → Type 0)
      → ((t : ℕ) (row : EngineScore) (db : Db Q) → P db → P (write_row t row db))
      → ((gone : String) (db : Db Q) → P db → P (delete_row gone db))
      → (rows : List EngineScore) (t : ℕ) (db : Db Q) → P db
      → P (apply_score_table rows t db).0
  unfolding apply_score_table
  apply-keeps P w d rows t db h =
      let old = load_existing_scores db.network_scores in
      delete_rows-keeps (λ c n. P c) (λ gone c n. d gone c) rows old (write_rows t old rows db 0).0
        0 (write_rows-keeps (λ c n. P c) (λ u r c n. w u r c) t old rows db 0 h)

  -- A reader that replays the stream from the start has the table, also after the engine's rows are
  -- applied, whatever they are.
  pub apply_score_table-IsMirrored :
      (rows : List EngineScore) (t : ℕ) (db : Db Q)
      → IsMirrored db
      → IsMirrored (apply_score_table rows t db).0
  apply_score_table-IsMirrored = apply-keeps IsMirrored write_row-IsMirrored delete_row-IsMirrored

  -- `n` more events than `e`, `m` more rows of history than `k`.
  abbrev Counted : ℕ → ℕ → Db Q → Type 0
  Counted e k db = (length db.sync_events ≡ e) × (length db.network_score_history ≡ k)

  write_row-Counted :
      (e k t : ℕ) (row : EngineScore) (db : Db Q) (n : ℕ)
      → Counted (e + n) (k + n) db
      → Counted (e + (n + 1)) (k + (n + 1)) (write_row t row db)
  unfolding write_row append_event_with_client
  write_row-Counted e k t row db n h = omega (arith, length-append {0}, length-append {0})

  delete_row-Counted :
      (e k : ℕ) (gone : String) (db : Db Q) (n : ℕ)
      → Counted (e + n) k db
      → Counted (e + (n + 1)) k (delete_row gone db)
  unfolding delete_row append_event_with_client
  delete_row-Counted e k gone db n h = omega (arith, length-append {0})

  -- The result counts the changes: the stream has one event more for each upsert and each delete,
  -- and the history one row more for each upsert.
  pub apply_score_table-counts :
      (rows : List EngineScore) (t : ℕ) (db : Db Q)
      → let r = apply_score_table rows t db in
        (length r.0.sync_events ≡ length db.sync_events + r.1.upserts + r.1.deletes)
        × (length r.0.network_score_history ≡ length db.network_score_history + r.1.upserts)
  unfolding apply_score_table
  apply_score_table-counts rows t db =
      let old = load_existing_scores db.network_scores in
      let e = length db.sync_events in
      let k = length db.network_score_history in
      let w = write_rows t old rows db 0 in
      let written =
        write_rows-keeps (λ c n. Counted (e + n) (k + n) c) (write_row-Counted e k) t old rows db 0
          (omega arith, omega arith) in
      delete_rows-keeps (λ c n. Counted (e + w.1 + n) (k + w.1) c)
        (delete_row-Counted (e + w.1) (k + w.1)) rows old w.0 0
        (omega (arith, written.0), written.1)
