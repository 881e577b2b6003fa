-- ===== src/Decision/Ingest/Counts.antt =====
-- The counts of a batch: what the tables hold for a key afterwards.
use verilink.Base.{
  ℕ, ◌+◌, ◌≡◌, refl, ap, inl, inr, ◌↔◌, Bool, true, false, ◌&&◌, none, List, [], ◌∷◌, String, arith,
  if◌then◌else◌, Bool-cases,
}
use verilink.Base.Texts.{str_eq, eq_iff}
use verilink.Decision.Sample.{DecisionWire, Services}
use verilink.Decision.Batch.{CheckedBatch}
use verilink.Decision.Ingest.{
  Key, AggRow, same_key, bump_agg, keys_of, bump_all, collect, Aggregate, is_aggregate,
  insert_aggregate, insert_aggregates, Db, commit, find_batch,
}

same_key_iff : (a b : Key) → (same_key a b ≡ true) ↔ (a ≡ b)
same_key_iff a b =
    ground (arith, eq_iff a.kind b.kind, eq_iff a.value b.value, eq_iff a.action b.action)

-- 1 for a key that is `k`, and 0 for another.
abbrev pub hit : Key → Key → ℕ
hit k a = if same_key a k then 1 else 0

abbrev pub hits : Key → List Key → ℕ
hits k [] = 0
hits k (a ∷ ks) = hit k a + hits k ks

-- How often the decisions count for the key.
abbrev pub expected : Services → Key → List DecisionWire → ℕ
expected sv k [] = 0
expected sv k (d ∷ ds) = hits k (keys_of sv d) + expected sv k ds

-- What the rows say of the key in all.
abbrev pub count_of : Key → List AggRow → ℕ
count_of k [] = 0
count_of k (r ∷ rs) = (if same_key r.key k then r.count else 0) + count_of k rs

abbrev pub stored_count : String → String → Key → List Aggregate → ℕ
stored_count tenant node k [] = 0
stored_count tenant node k (a ∷ rest) =
    (if is_aggregate tenant node k a then a.row.count else 0) + stored_count tenant node k rest

same_key-step : (a b k : Key) → same_key a b ≡ true → same_key a k ≡ same_key b k
same_key-step a b k h = ap (λ c. same_key c k) ((same_key_iff a b).0 h)

count_of-bump_agg :
    (a k : Key) (rows : List AggRow) → count_of k (bump_agg a rows) ≡ hit k a + count_of k rows
unfolding bump_agg
count_of-bump_agg a k [] = refl
count_of-bump_agg a k (r ∷ rs) = elim (Bool-cases (same_key r.key a)) [
  | inl e ↦ rw (e, same_key-step r.key a k e) (ground arith)
  | inr e ↦ rw e (omega (arith, count_of-bump_agg a k rs))
]

count_of-bump_all :
    (ks : List Key) (k : Key) (rows : List AggRow)
    → count_of k (bump_all ks rows) ≡ hits k ks + count_of k rows
count_of-bump_all [] k rows = omega arith
count_of-bump_all (a ∷ ks) k rows =
    omega (arith, count_of-bump_all ks k (bump_agg a rows), count_of-bump_agg a k rows)

count_of-collect :
    (sv : Services) (k : Key) (ds : List DecisionWire) (rows : List AggRow)
    → count_of k (collect sv ds rows) ≡ expected sv k ds + count_of k rows
unfolding collect
count_of-collect sv k [] rows = omega arith
count_of-collect sv k (d ∷ ds) rows = omega (
  arith,
  count_of-collect sv k ds (bump_all (keys_of sv d) rows),
  count_of-bump_all (keys_of sv d) k rows,
)

-- The node and the tenant of the rows.
abbrev pub of_node : String → String → String → String → Bool
of_node t n t' n' = str_eq t t' && str_eq n n'

and_regroup : (a b c : Bool) → (a && b && c) ≡ ((a && b) && c)
and_regroup true b c = refl
and_regroup false b c = refl

is_aggregate-step :
    (t n : String) (b : Key) (t' n' : String) (k : Key) (a : Aggregate)
    → is_aggregate t n b a ≡ true
    → is_aggregate t' n' k a ≡ of_node t n t' n' && same_key b k
is_aggregate-step t n b t' n' k a h =
    let parts : (a.tenant_id ≡ t) × (a.edge_node_id ≡ n) × (same_key a.row.key b ≡ true) =
      ground (arith, eq_iff a.tenant_id t, eq_iff a.edge_node_id n) in
    rw (parts.0, parts.1, same_key-step a.row.key b k parts.2)
      (and_regroup (str_eq t t') (str_eq n n') (same_key b k))

stored_count-insert_aggregate :
    (t n : String) (r : AggRow) (t' n' : String) (k : Key) (table : List Aggregate)
    → stored_count t' n' k (insert_aggregate t n r table)
      ≡ (if of_node t n t' n' && same_key r.key k then r.count else 0) + stored_count t' n' k table
unfolding insert_aggregate
stored_count-insert_aggregate t n r t' n' k [] = ground arith
stored_count-insert_aggregate t n r t' n' k (a ∷ rest) =
    elim (Bool-cases (is_aggregate t n r.key a)) [
      | inl e ↦ rw (e, is_aggregate-step t n r.key t' n' k a e) (ground arith)
      | inr e ↦ rw e (omega (arith, stored_count-insert_aggregate t n r t' n' k rest))
    ]

stored_count-insert_aggregates :
    (t n : String) (rows : List AggRow) (t' n' : String) (k : Key) (table : List Aggregate)
    → stored_count t' n' k (insert_aggregates t n rows table)
      ≡ (if of_node t n t' n' then count_of k rows else 0) + stored_count t' n' k table
unfolding insert_aggregates
stored_count-insert_aggregates t n [] t' n' k table = ground arith
stored_count-insert_aggregates t n (r ∷ rows) t' n' k table = ground (
  arith,
  stored_count-insert_aggregates t n rows t' n' k (insert_aggregate t n r table),
  stored_count-insert_aggregate t n r t' n' k table,
)

-- The count that the tables hold for a tenant, a node and a key grows, when a new batch commits, by
-- the number of times that the batch's decisions count for the key, and by nothing for another
-- tenant or node.
pub commit-counts :
    (sv : Services) (t n : String) (rate : ℕ) (body : CheckedBatch) (db : Db) (t' n' : String)
    (k : Key)
    → find_batch n body.batch_id db.batches ≡ none
    → stored_count t' n' k (commit sv t n rate body db).1.aggregates
      ≡ (if of_node t n t' n' then expected sv k body.decisions else 0)
        + stored_count t' n' k db.aggregates
unfolding commit
commit-counts sv t n rate body db t' n' k h =
    rw (h, commit)
      (ground (
        arith,
        stored_count-insert_aggregates t n (collect sv body.decisions []) t' n' k db.aggregates,
        count_of-collect sv k body.decisions [],
      ))
