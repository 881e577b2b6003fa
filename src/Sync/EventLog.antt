-- ===== src/Sync/EventLog.antt =====
-- control-plane/src/domains/sync/syncRepository.ts: the table `sync_events`, of which a statement
-- reads or appends rows. A transaction that appends holds an advisory lock, and a batch is read in
-- one snapshot, so each function here runs alone on the table that it is given. `P` is the type of
-- the JSON payloads.
pub mod Order
pub mod Batches
pub mod Sorted
use verilink.Base.{
  ℕ, suc, ◌+◌, ◌<◌, Bool, true, ◌&&◌, ◌||◌, Option, none, some, List, [], ◌∷◌, ◌++◌, max, ltb, leb,
  if◌then◌else◌, length, take, keep, String,
}
use verilink.Base.Texts.{str_eq}

pub record SyncEvent (P : Type 0) : Type 0 where
  pub sync_version : ℕ
  pub event_type : String
  pub principal_id : Option String
  pub tenant_id : Option String
  pub payload : P

-- `opts.tenantId || null`: the empty string counts as absent.
abbrev pub or_null : Option String → Option String
or_null none = none
or_null (some s) = if str_eq s "" then none else some s

pub record Opts : Type 0 where
  pub principal_id : Option String
  pub tenant_id : Option String

pub record Batch (P : Type 0) : Type 0 where
  pub events : List (SyncEvent P)
  pub high_water : ℕ

pub record InitialBatchResult (P : Type 0) : Type 0 where
  pub events : List (SyncEvent P)
  pub high_water : ℕ
  pub backlog_exceeded : Bool

-- `tenant_id IS NULL OR tenant_id = $2`, which is asked only of a caller that has a tenant.
abbrev pub is_visible : Option String → Option String → Bool
is_visible none row = true
is_visible (some t) none = true
is_visible (some t) (some r) = str_eq r t

module _ {P : Type 0} where
  -- `COALESCE(MAX(sync_version), 0)`.
  unfoldable pub get_high_water_version : List (SyncEvent P) → ℕ
  get_high_water_version [] = 0
  get_high_water_version (r ∷ rs) = max r.sync_version (get_high_water_version rs)

  unfoldable pub append_event_with_client :
      List (SyncEvent P) → String → P → Opts → List (SyncEvent P) × ℕ
  unfolding get_high_water_version
  append_event_with_client table event_type payload opts =
      let version = get_high_water_version table + 1 in
      (
        table
            ++ record {
              sync_version = version;
              event_type = event_type;
              principal_id = or_null opts.principal_id;
              tenant_id = or_null opts.tenant_id;
              payload = payload;
            }
              ∷ [],
        version,
      )

  abbrev pub is_selected : ℕ → Option String → SyncEvent P → Bool
  is_selected since tenant r = ltb since r.sync_version && is_visible (or_null tenant) r.tenant_id

  -- `ORDER BY sync_version ASC`.
  unfoldable pub insert : SyncEvent P → List (SyncEvent P) → List (SyncEvent P)
  insert r [] = r ∷ []
  insert r (s ∷ ss) = if leb r.sync_version s.sync_version then r ∷ s ∷ ss else s ∷ insert r ss

  unfoldable pub order : List (SyncEvent P) → List (SyncEvent P)
  unfolding insert
  order [] = []
  order (r ∷ rs) = insert r (order rs)

  abbrev pub limit_to : Option ℕ → List (SyncEvent P) → List (SyncEvent P)
  limit_to none rows = rows
  limit_to (some n) rows = take n rows

  unfoldable pub get_events_since :
      List (SyncEvent P) → ℕ → Option String → Option ℕ → List (SyncEvent P)
  unfolding order
  get_events_since table since tenant limit =
      limit_to limit (order (keep (is_selected since tenant) table))

  -- One REPEATABLE READ snapshot for the rows and the high-water version.
  unfoldable pub fetch_events_and_high_water : List (SyncEvent P) → ℕ → Option String → ℕ → Batch P
  unfolding order get_high_water_version
  fetch_events_and_high_water table since tenant fetch_limit = record {
    events = take fetch_limit (order (keep (is_selected since tenant) table));
    high_water = get_high_water_version table;
  }

  unfoldable pub get_initial_batch_with_high_water :
      List (SyncEvent P) → ℕ → Option String → ℕ → InitialBatchResult P
  unfolding fetch_events_and_high_water
  get_initial_batch_with_high_water table since tenant max_batch =
      let b = fetch_events_and_high_water table since tenant (max_batch + 1) in
      let exceeded = ltb max_batch (length b.events) in
      record {
        events = if exceeded then take max_batch b.events else b.events;
        high_water = b.high_water;
        backlog_exceeded = exceeded;
      }

  unfoldable pub get_poll_batch_with_high_water :
      List (SyncEvent P) → ℕ → Option String → ℕ → Batch P
  unfolding fetch_events_and_high_water
  get_poll_batch_with_high_water table since tenant limit =
      fetch_events_and_high_water table since tenant limit
