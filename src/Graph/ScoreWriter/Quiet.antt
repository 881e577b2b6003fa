-- ===== src/Graph/ScoreWriter/Quiet.antt =====
-- Applying the rows that the table already holds changes nothing and emits nothing.
use verilink.Base.{ℕ, ◌≡◌, refl, ◌∙◌, true, none, some, List, [], ◌∷◌, String, arith, is_some, All}
use verilink.Base.Texts.{eq_iff}
use verilink.Graph.ScoreWriter.{
  EngineScore, Db, get, load_existing_scores, write_rows, delete_rows, apply_score_table,
}
use verilink.Graph.ScoreWriter.Changes.{view, is_changed_iff}
use verilink.Graph.ScoreWriter.View.{IsDistinct, view-apply_score_table}

-- Each row of `rows` is found in `table`; each id of `rows` is.
abbrev AllFound : List EngineScore → List EngineScore → Type 0
AllFound table = All (λ r. get r.principal_id table ≡ some r)

abbrev AllKnown : List EngineScore → List EngineScore → Type 0
AllKnown table = All (λ r. is_some (get r.principal_id table) ≡ true)

AllFound-cons :
    (x : EngineScore) (table rows : List EngineScore)
    → get x.principal_id table ≡ none
    → AllFound table rows
    → AllFound (x ∷ table) rows
unfolding get
AllFound-cons x table [] n h = tt
AllFound-cons x table (r ∷ rs) n h =
    (ground (arith, eq_iff x.principal_id r.principal_id, h.0), AllFound-cons x table rs n h.1)

IsDistinct-AllFound : (rows : List EngineScore) → IsDistinct rows → AllFound rows rows
unfolding get
IsDistinct-AllFound [] d = tt
IsDistinct-AllFound (r ∷ rs) d = (
  ground (arith, eq_iff r.principal_id r.principal_id),
  AllFound-cons r rs rs d.0 (IsDistinct-AllFound rs d.1),
)

AllKnown-cons :
    (x : EngineScore) (table rows : List EngineScore)
    → AllKnown table rows
    → AllKnown (x ∷ table) rows
unfolding get
AllKnown-cons x table [] h = tt
AllKnown-cons x table (r ∷ rs) h = (ground (arith, h.0), AllKnown-cons x table rs h.1)

AllKnown-refl : (rows : List EngineScore) → AllKnown rows rows
unfolding get
AllKnown-refl [] = tt
AllKnown-refl (r ∷ rs) =
    (ground (arith, eq_iff r.principal_id r.principal_id), AllKnown-cons r rs rs (AllKnown-refl rs))

-- A table with the same answers has the same rows.
All_same :
    (a b rows : List EngineScore)
    → ((id : String) → get id a ≡ get id b)
    → AllFound b rows
    → AllFound a rows
All_same a b [] e h = tt
All_same a b (r ∷ rs) e h = (e r.principal_id ∙ h.0, All_same a b rs e h.1)

AllKnown-same :
    (a b rows : List EngineScore)
    → ((id : String) → get id a ≡ get id b)
    → AllKnown a rows
    → AllKnown b rows
AllKnown-same a b [] e h = tt
AllKnown-same a b (r ∷ rs) e h = (rw (e r.principal_id) at h.0, AllKnown-same a b rs e h.1)

module _ {Q : Type 0} where
  write_rows-AllFound :
      (t : ℕ) (existing rows : List EngineScore) (db : Db Q) (n : ℕ)
      → AllFound existing rows
      → write_rows t existing rows db n ≡ (db, n)
  unfolding write_rows
  write_rows-AllFound t existing [] db n h = refl
  write_rows-AllFound t existing (r ∷ rs) db n h =
      rw ((is_changed_iff r (get r.principal_id existing) existing refl).1 h.0)
        (write_rows-AllFound t existing rs db n h.1)

  delete_rows-AllKnown :
      (next existing : List EngineScore) (db : Db Q) (n : ℕ)
      → AllKnown next existing
      → delete_rows next existing db n ≡ (db, n)
  unfolding delete_rows
  delete_rows-AllKnown next [] db n h = refl
  delete_rows-AllKnown next (r ∷ rs) db n h = rw h.0 (delete_rows-AllKnown next rs db n h.1)

  -- Applied a second time, whenever that is, the engine's rows, which have distinct ids, write no
  -- row, delete none, append no event to the stream and no row to the history, and count no change.
  pub apply_score_table_twice :
      (rows : List EngineScore) (t later : ℕ) (db : Db Q)
      → IsDistinct rows
      → apply_score_table rows later (apply_score_table rows t db).0
        ≡ ((apply_score_table rows t db).0, record { upserts = 0; deletes = 0 })
  apply_score_table_twice rows t later db d =
      quiet (apply_score_table rows t db).0
        (λ id. unfold view in view-apply_score_table rows t db id d)
    where
      quiet :
          (done : Db Q)
          → ((id : String) → get id (load_existing_scores done.network_scores) ≡ get id rows)
          → apply_score_table rows later done ≡ (done, record { upserts = 0; deletes = 0 })
      quiet done same =
          let old = load_existing_scores done.network_scores in
          let writes =
            write_rows-AllFound later old rows done 0
              (All_same old rows rows same (IsDistinct-AllFound rows d)) in
          let deletes =
            delete_rows-AllKnown rows old done 0
              (AllKnown-same old rows old same (AllKnown-refl old)) in
          unfold apply_score_table in rw (writes, deletes)
