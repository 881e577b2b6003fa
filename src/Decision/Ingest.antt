-- ===== src/Decision/Ingest.antt =====
-- control-plane/src/domains/decision/decisionIngestService.ts: the ingest of a batch. Its check for
-- a batch that is there already and its transaction read the tables at two moments.
pub mod Counts
pub mod Repeats
use verilink.Base.{
  ℕ, ◌+◌, ◌-◌, ◌%◌, Bool, true, false, not, ◌&&◌, Option, none, some, List, [], ◌∷◌, ◌++◌, String,
  if◌then◌else◌, ltb, ◌==◌, length, find, any, is_some, keep,
}
use verilink.Base.Texts.{str_eq, texts_eq}
use verilink.Sync.Cursors.{EdgeNode, resolve_edge_node_for_api_key}
use verilink.Decision.Sample.{DecisionWire, Services, text_or, to_lower_case, should_sample}
use verilink.Decision.Batch.{
  CheckedBatch, Refusal, conflict, assert_batch_shape, text_in, sequence_in, checked, body_in,
}
use verilink.Base.Value.{Value, string, is_truthy, printed_text}

pub record Key : Type 0 where
  pub bucket : ℕ
  pub kind : String
  pub value : String
  pub action : String

pub record AggRow : Type 0 where
  pub key : Key
  pub count : ℕ

abbrev pub same_key : Key → Key → Bool
same_key a b =
    (a.bucket == b.bucket)
    && str_eq a.kind b.kind
    && str_eq a.value b.value
    && str_eq a.action b.action

-- The map of the counts keeps the order in which its keys came.
unfoldable pub bump_agg : Key → List AggRow → List AggRow
bump_agg k [] = record { key = k; count = 1 } ∷ []
bump_agg k (r ∷ rs) =
    let rest = bump_agg k rs in
    if same_key r.key k then record r { count = r.count + 1 } ∷ rs else r ∷ rest

-- The start of the minute. `assert_batch_shape` has refused what is no date.
unfoldable pub minute_bucket : Services → String → ℕ
minute_bucket sv s = let ms = text_or 0 (sv.date_parse s) in ms - ms % 60000

-- The text that a template literal makes of a value.
abbrev pub text_for : Services → Option Value → String
text_for sv none = "undefined"
text_for sv (some (string s)) = s
text_for sv (some v) = sv.print v

-- The text of a date, which the check has read already.
abbrev pub date_in : DecisionWire → String
date_in d = text_or "" (printed_text d.decided_at)

abbrev pub key_at : ℕ → String → String → String → Key
key_at bucket kind value action = record {
  bucket = bucket;
  kind = kind;
  value = value;
  action = action;
}

-- The keys that one decision counts for.
unfoldable pub keys_of : Services → DecisionWire → List Key
unfolding minute_bucket
keys_of sv d =
    let key_for : String → String → Key =
      λ kind value. key_at (minute_bucket sv (date_in d)) kind value (text_in d.action) in
    if is_truthy d.principal_id
    then key_for "all" ""
      ∷ key_for "fingerprint" (text_in d.fingerprint)
      ∷ key_for "principal" (text_for sv d.principal_id)
      ∷ []
    else key_for "all" "" ∷ key_for "fingerprint" (text_in d.fingerprint) ∷ []

abbrev pub bump_all : List Key → List AggRow → List AggRow
bump_all [] rows = rows
bump_all (k ∷ ks) rows = bump_all ks (bump_agg k rows)

-- The loop over the decisions: the counts, and the samples.
unfoldable pub collect : Services → List DecisionWire → List AggRow → List AggRow
unfolding keys_of
collect sv [] rows = rows
collect sv (d ∷ ds) rows = collect sv ds (bump_all (keys_of sv d) rows)

unfoldable pub samples_of : Services → ℕ → List DecisionWire → List DecisionWire
unfolding should_sample
samples_of sv rate ds = keep (λ d. should_sample sv (text_in d.action) (date_in d) rate) ds

-- The rows of the tables, with the node that reported them.
pub record Batch : Type 0 where
  pub edge_node_id : String
  pub batch_id : List ℕ
  pub tenant_id : String
  pub first_wal_seq : ℕ
  pub last_wal_seq : ℕ
  pub payload_hash : List ℕ

pub record Aggregate : Type 0 where
  pub tenant_id : String
  pub edge_node_id : String
  pub row : AggRow

pub record Sample : Type 0 where
  pub tenant_id : String
  pub edge_node_id : String
  pub decision : DecisionWire

-- The rates are those of the active policies.
pub record Db : Type 0 where
  pub edge_nodes : List EdgeNode
  pub rates : List (String × ℕ)
  pub batches : List Batch
  pub aggregates : List Aggregate
  pub samples : List Sample

-- The default is 0.01, and the column's check keeps a rate between 0 and 1.
unfoldable pub load_sample_rate : String → List (String × ℕ) → ℕ
load_sample_rate tenant [] = 10
load_sample_rate tenant ((t, rate) ∷ rest) =
    let others = load_sample_rate tenant rest in
    if str_eq t tenant then (if ltb 1000 rate then 1000 else rate) else others

abbrev pub is_aggregate : String → String → Key → Aggregate → Bool
is_aggregate tenant node k a =
    str_eq a.tenant_id tenant && str_eq a.edge_node_id node && same_key a.row.key k

unfoldable pub insert_aggregate : String → String → AggRow → List Aggregate → List Aggregate
insert_aggregate tenant node r [] = record { tenant_id = tenant; edge_node_id = node; row = r } ∷ []
insert_aggregate tenant node r (a ∷ aggs) =
    let rest = insert_aggregate tenant node r aggs in
    if is_aggregate tenant node r.key a
    then record a { row = record { key = a.row.key; count = a.row.count + r.count } } ∷ aggs
    else a ∷ rest

unfoldable pub insert_aggregates : String → String → List AggRow → List Aggregate → List Aggregate
unfolding insert_aggregate
insert_aggregates tenant node [] table = table
insert_aggregates tenant node (r ∷ rs) table =
    insert_aggregates tenant node rs (insert_aggregate tenant node r table)

-- `ON CONFLICT (edge_node_id, wal_seq) DO NOTHING`
unfoldable pub insert_samples : String → String → List DecisionWire → List Sample → List Sample
unfolding sequence_in
insert_samples tenant node [] table = table
insert_samples tenant node (d ∷ ds) table = insert_samples tenant node ds (
    if any
      (λ s. str_eq s.edge_node_id node && (sequence_in s.decision.wal_seq == sequence_in d.wal_seq))
      table
    then table
    else table ++ (record { tenant_id = tenant; edge_node_id = node; decision = d } ∷ []))

pub data IngestResult : Type 0 where
  refused : Refusal → IngestResult
  duplicate : String → IngestResult
  ingested : String → ℕ → ℕ → IngestResult

-- The column of batch ids is a UUID, which has one spelling.
unfoldable pub find_batch : String → List ℕ → List Batch → Option Batch
find_batch node id rows =
    find (λ b. str_eq b.edge_node_id node && texts_eq b.batch_id (to_lower_case id)) rows

abbrev pub repeated : String → CheckedBatch → Batch → IngestResult
repeated node body b =
    if texts_eq (to_lower_case b.payload_hash) (to_lower_case body.payload_hash)
    then duplicate node
    else refused conflict

abbrev pub batch_of : String → String → CheckedBatch → Batch
batch_of tenant node body = record {
  edge_node_id = node;
  batch_id = to_lower_case body.batch_id;
  tenant_id = tenant;
  first_wal_seq = body.first_wal_seq;
  last_wal_seq = body.last_wal_seq;
  payload_hash = to_lower_case body.payload_hash;
}

-- The transaction, and what follows when the batch's key is taken.
unfoldable pub commit : Services → String → String → ℕ → CheckedBatch → Db → IngestResult × Db
unfolding find_batch collect samples_of insert_aggregates insert_samples
commit sv tenant node rate body db = elim (find_batch node body.batch_id db.batches) [
  | some b ↦ (repeated node body b, db)
  | none ↦
      let samples = samples_of sv rate body.decisions in
      (
        ingested node (length body.decisions) (length samples),
        record db {
          batches = db.batches ++ (batch_of tenant node body ∷ []);
          aggregates = insert_aggregates tenant node (collect sv body.decisions []) db.aggregates;
          samples = insert_samples tenant node samples db.samples;
        },
      )
]

-- The ingest of a body that the check accepted. `later` are the tables when the transaction runs,
-- as a function of the tables that the first query saw.
unfoldable pub ingest_checked :
    Services → String → String → String → CheckedBatch → (Db → Db) → Db → IngestResult × Db
unfolding load_sample_rate commit
ingest_checked sv fresh tenant key body later db =
    let (node, nodes) = resolve_edge_node_for_api_key fresh tenant key db.edge_nodes in
    let seen = record db { edge_nodes = nodes } in
    elim (find_batch node body.batch_id seen.batches) [
      | some b ↦ (repeated node body b, seen)
      | none ↦ commit sv tenant node (load_sample_rate tenant seen.rates) body (later seen)
    ]

-- The result and the tables after the ingest of a request's body.
unfoldable pub ingest_decision_batch :
    Services → String → String → String → Option Value → (Db → Db) → Db → IngestResult × Db
unfolding ingest_checked checked
ingest_decision_batch sv fresh tenant key body later db = elim (assert_batch_shape sv body) [
  | some r ↦ (refused r, db)
  | none ↦ ingest_checked sv fresh tenant key (checked (body_in body)) later db
]
