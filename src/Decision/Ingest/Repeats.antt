-- ===== src/Decision/Ingest/Repeats.antt =====
-- A batch that is sent again, also while its first transaction runs.
use verilink.Base.{
  ℕ, ◌≡◌, refl, ◌∙◌, ap, ◌&&◌, none, some, List, [], ◌∷◌, ◌++◌, String, arith, find-append,
}
use verilink.Base.Texts.{str_eq, eq_refl, texts_eq, texts_eq_refl}
use verilink.Decision.Sample.{Services, to_lower_case}
use verilink.Decision.Batch.{CheckedBatch}
use verilink.Decision.Ingest.{Batch, Db, duplicate, find_batch, repeated, batch_of, commit}

lower_twice : (s : List ℕ) → to_lower_case (to_lower_case s) ≡ to_lower_case s
lower_twice [] = refl
lower_twice (c ∷ s) = ground (arith, lower_twice s)

-- A transaction for a batch whose row is there already changes nothing. It reports a duplicate when
-- the hashes are the same, and a conflict when they are not.
pub commit_taken :
    (sv : Services) (t n : String) (rate : ℕ) (body : CheckedBatch) (db : Db) (b : Batch)
    → find_batch n body.batch_id db.batches ≡ some b
    → commit sv t n rate body db ≡ (repeated n body b, db)
unfolding commit
commit_taken sv t n rate body db b h = rw (h, commit) refl

found_after :
    (t n : String) (body : CheckedBatch) (rows : List Batch)
    → find_batch n body.batch_id rows ≡ none
    → find_batch n body.batch_id (rows ++ (batch_of t n body ∷ [])) ≡ some (batch_of t n body)
unfolding find_batch
found_after t n body rows h =
    find-append (λ b. str_eq b.edge_node_id n && texts_eq b.batch_id (to_lower_case body.batch_id))
      rows (batch_of t n body) h (rw (eq_refl n, texts_eq_refl (to_lower_case body.batch_id)) refl)

repeated_same :
    (t n : String) (body : CheckedBatch) → repeated n body (batch_of t n body) ≡ duplicate n
repeated_same t n body =
    rw (lower_twice body.payload_hash, texts_eq_refl (to_lower_case body.payload_hash)) refl

batches_after :
    (sv : Services) (t n : String) (rate : ℕ) (body : CheckedBatch) (db : Db)
    → find_batch n body.batch_id db.batches ≡ none
    → find_batch n body.batch_id (commit sv t n rate body db).1.batches ≡ some (batch_of t n body)
unfolding commit
batches_after sv t n rate body db h = rw (h, commit) (found_after t n body db.batches h)

-- After a transaction that stored a batch, a transaction for the same batch and node, under
-- whatever tenant and rate, reports a duplicate and changes nothing: of two ingests that race, one counts.
pub commit_twice :
    (sv : Services) (t n : String) (rate : ℕ) (body : CheckedBatch) (db : Db) (t' : String)
    (rate' : ℕ)
    → find_batch n body.batch_id db.batches ≡ none
    → commit sv t' n rate' body (commit sv t n rate body db).1
      ≡ (duplicate n, (commit sv t n rate body db).1)
commit_twice sv t n rate body db t' rate' h =
    let after = (commit sv t n rate body db).1 in
    commit_taken sv t' n rate' body after (batch_of t n body) (batches_after sv t n rate body db h)
    ∙ ap (λ r. (r, after)) (repeated_same t n body)
