-- ===== src/Graph/ScoreWriter/View.antt =====
-- What the table says after the engine's rows are applied.
use verilink.Base.{
  ℕ, ◌≡◌, refl, sym, ap, ◌∙◌, inl, inr, true, not, ◌&&◌, Option, none, some, List, [], ◌∷◌, String,
  arith, if◌then◌else◌, is_some, Bool-cases,
}
use verilink.Base.Texts.{str_eq, eq_iff}
use verilink.Graph.ScoreWriter.{
  EngineScore, Db, get, load_existing_scores, is_changed, write_row, delete_row, write_rows,
  delete_rows, apply_score_table,
}
use verilink.Graph.ScoreWriter.Changes.{view, view-upsert_score, view-delete_score, is_changed_iff}

-- No two rows of the engine have one id.
abbrev pub IsDistinct : List EngineScore → Type 0
IsDistinct [] = Unit {0}
IsDistinct (r ∷ rs) = (get r.principal_id rs ≡ none) × IsDistinct rs

abbrev or_else : Option EngineScore → Option EngineScore → Option EngineScore
or_else none b = b
or_else (some a) b = some a

module _ {Q : Type 0} where
  abbrev written : ℕ → List EngineScore → EngineScore → Db Q → Db Q
  written t existing row db =
      if is_changed (get row.principal_id existing) row then write_row t row db else db

  view-write_row :
      (t : ℕ) (row : EngineScore) (db : Db Q) (id : String)
      → view (write_row t row db).network_scores id
        ≡ (if str_eq row.principal_id id then some row else view db.network_scores id)
  unfolding write_row
  view-write_row t row db id = view-upsert_score _ db.network_scores id

  view-delete_row :
      (gone : String) (db : Db Q) (id : String)
      → view (delete_row gone db).network_scores id
        ≡ (if str_eq gone id then none else view db.network_scores id)
  unfolding delete_row
  view-delete_row gone db id = view-delete_score gone db.network_scores id

  view-written :
      (t : ℕ) (existing : List EngineScore) (row : EngineScore) (db : Db Q) (id : String)
      → view db.network_scores row.principal_id ≡ get row.principal_id existing
      → view (written t existing row db).network_scores id
        ≡ (if str_eq row.principal_id id then some row else view db.network_scores id)
  view-written t existing row db id h =
      elim (Bool-cases (is_changed (get row.principal_id existing) row)) [
        | inl e ↦ rw e (view-write_row t row db id)
        | inr e ↦
            let same = (is_changed_iff row (get row.principal_id existing) existing refl).0 e in
            rw e (elim (Bool-cases (str_eq row.principal_id id)) [
              | inl i ↦ rw i (ap (view db.network_scores) (sym ((eq_iff _ _).0 i)) ∙ h ∙ same)
              | inr i ↦ rw i
            ])
      ]

  view-write_rows :
      (t : ℕ) (existing rows : List EngineScore) (db : Db Q) (n : ℕ)
      → IsDistinct rows
      → ((id : String) → is_some (get id rows) ≡ true → view db.network_scores id ≡ get id existing)
      → (id : String)
      → view (write_rows t existing rows db n).0.network_scores id
        ≡ or_else (get id rows) (view db.network_scores id)
  unfolding write_rows get
  view-write_rows t existing [] db n d h id = refl
  view-write_rows t existing (row ∷ rows) db n d h id =
      let here : view db.network_scores row.principal_id ≡ get row.principal_id existing =
        h row.principal_id (rw ((eq_iff row.principal_id row.principal_id).1 refl)) in
      view-write_rows t existing rows (written t existing row db) _ d.1
        (λ j k.
          rw (view-written t existing row db j here)
            (ground (arith, h j, eq_iff row.principal_id j, d.0)))
        id
      ∙ rw (view-written t existing row db id here)
          (ground (arith, eq_iff row.principal_id id, d.0))

  abbrev deleted : List EngineScore → EngineScore → Db Q → Db Q
  deleted next prev db =
      if not (is_some (get prev.principal_id next)) then delete_row prev.principal_id db else db

  view-deleted :
      (next : List EngineScore) (prev : EngineScore) (db : Db Q) (id : String)
      → view (deleted next prev db).network_scores id ≡ (
          if str_eq prev.principal_id id && not (is_some (get prev.principal_id next))
          then none
          else view db.network_scores id)
  view-deleted next prev db id = elim (Bool-cases (is_some (get prev.principal_id next))) [
    | inl e ↦ rw e (ground arith)
    | inr e ↦ rw e (view-delete_row prev.principal_id db id ∙ ground arith)
  ]

  view-delete_rows :
      (next existing : List EngineScore) (db : Db Q) (n : ℕ) (id : String)
      → view (delete_rows next existing db n).0.network_scores id ≡ (
          if is_some (get id existing) && not (is_some (get id next))
          then none
          else view db.network_scores id)
  unfolding delete_rows get
  view-delete_rows next [] db n id = refl
  view-delete_rows next (prev ∷ existing) db n id =
      view-delete_rows next existing (deleted next prev db) _ id
      ∙ rw (view-deleted next prev db id) (ground (arith, eq_iff prev.principal_id id))

  -- Whatever the table held, after the engine's rows are applied, which have distinct ids, it says
  -- of each id what the engine says: the engine's row, or nothing.
  pub view-apply_score_table :
      (rows : List EngineScore) (t : ℕ) (db : Db Q) (id : String)
      → IsDistinct rows
      → view (apply_score_table rows t db).0.network_scores id ≡ get id rows
  unfolding apply_score_table
  view-apply_score_table rows t db id d =
      let old = load_existing_scores db.network_scores in
      let w = write_rows t old rows db 0 in
      view-delete_rows rows old w.0 0 id
      ∙ rw (view-write_rows t old rows db 0 d (λ j k. unfold view in refl) id)
          (unfold view in ground arith)
