-- ===== src/Sync/Session.antt =====
-- control-plane/src/domains/sync/sseSession.ts: one connection of the stream of events. The
-- function `runSseSession` is a state machine: a phase for each place where it awaits, and one step
-- (`resume`) from there to the next. Between two steps anything else may happen to the connection,
-- so a history is a list of events. `log` and `fetched` are no fields of the source: they list what
-- `enqueueData` accepted, and the events that the database gave, oldest first. The line that sets the
-- time to retry, which goes to the response without the queue, is left out.
pub mod Delivery
pub mod Order
pub mod Fetched
pub mod Ending
pub mod Opened
use verilink.Base.{
  ℕ, zero, suc, ◌+◌, String, Bool, true, false, Option, none, some, List, [], ◌∷◌, ◌++◌, ltb, leb,
  if◌then◌else◌,
}
use verilink.Base.Texts.{byte_length}
use verilink.Sync.EventLog.{SyncEvent, Batch, or_null, get_poll_batch_with_high_water}
use verilink.Sync.Cursors.{EdgeNode, resolve_edge_node_for_api_key, SyncCursor, upsert_sync_cursor}
use verilink.Sync.Frames.{format_sse_event, format_sse_comment}
use verilink.Sync.Registry.{SseRegistry, try_register, unregister, close_all}
use verilink.Sync.Registry
use verilink.Sync.WriteQueue.{
  Options, DataItem, EnqueueResult, ok, oversized, closed, full, WriteResult, Queue, empty, close,
  enqueue_data, enqueue_control,
}
use verilink.Sync.WriteQueue.Pump

-- `config.syncSse`, with the options of the queue.
pub record SseConfig : Type 0 where
  pub queue : Options
  pub max_initial_batch : ℕ
  pub cursor_persist_every_events : ℕ

-- What the session asks its queue to send.
pub data Entry (P : Type 0) : Type 0 where
  event : SyncEvent P → Entry P
  cursor : ℕ → Entry P
  ping : Entry P

-- Where `runSseSession` awaits: a frame of the first batch (then its high-water cursor), the sleep
-- before a poll, or a frame of a poll's batch (then its high-water cursor). `last` is
-- `lastEmittedHw`, of which the first phase needs none.
pub data Phase (P : Type 0) : Type 0 where
  sends_initial : List (SyncEvent P) → ℕ → Phase P
  sleeping : ℕ → Phase P
  sends_batch : ℕ → List (SyncEvent P) → ℕ → Phase P
  ended : Phase P

-- `edge_node` is the tenant and the node whose cursor is kept. `pings` counts the calls of the
-- heartbeat that wait for space, and `finishing` says that `finish` awaits the upsert of the cursor.
pub record State (P : Type 0) : Type 0 where
  pub conn_id : ℕ
  pub tenant_id : Option String
  pub edge_node : Option (String × String)
  pub queue : Queue
  pub phase : Phase P
  pub durable_events_written : ℕ
  pub heartbeat_timer : Bool
  pub persist_timer : Bool
  pub pings : ℕ
  pub aborted : Bool
  pub cleaned : Bool
  pub finishing : Bool
  pub registry : SseRegistry
  pub cursors : List SyncCursor
  pub log : List (Entry P)
  pub fetched : List (SyncEvent P)

-- The node of a caller with a tenant and a key. The look-up may fail, which is logged.
unfoldable pub edge_node_of :
    Bool
    → String
    → Option String
    → Option String
    → List EdgeNode
    → Option (String × String) × List EdgeNode
edge_node_of fails fresh (some tenant) (some key) nodes =
    let r = resolve_edge_node_for_api_key fresh tenant key nodes in
    if fails then (none, nodes) else (some (tenant, r.0), r.1)
edge_node_of fails fresh _ _ nodes = (none, nodes)

-- The upsert of `persistCursor`.
abbrev pub confirm : Option (String × String) → Option ℕ → List SyncCursor → List SyncCursor
confirm (some (tenant, node)) (some written) cursors =
    upsert_sync_cursor tenant node written cursors
confirm _ _ cursors = cursors

module _ {P : Type 0} where
  -- The session up to its first frame; `none` where the registry refuses it, which answers 503.
  unfoldable pub open_session :
      Option String
      → Option (String × String)
      → List (SyncEvent P)
      → ℕ
      → SseRegistry
      → List SyncCursor
      → Option (State P)
  unfolding try_register empty
  open_session tenant node initial_events initial_high_water registry cursors =
      elim (try_register empty registry).0 [
        | none ↦ none
        | some conn ↦ some (record {
          conn_id = conn.id;
          tenant_id = tenant;
          edge_node = node;
          queue = empty;
          phase = sends_initial initial_events initial_high_water;
          durable_events_written = 0;
          heartbeat_timer = false;
          persist_timer = false;
          pings = 0;
          aborted = false;
          cleaned = false;
          finishing = false;
          registry = (try_register empty registry).1;
          cursors = cursors;
          log = [];
          fetched = initial_events;
        })
      ]

  unfoldable pub persist_cursor : State P → State P
  persist_cursor s = record s {
    cursors = confirm s.edge_node s.queue.last_written_cursor s.cursors;
  }

  unfoldable pub cleanup : State P → State P
  unfolding close
  cleanup s = record s { heartbeat_timer = false; persist_timer = false; queue = close s.queue }

  -- `finish` up to its `await`, and the rest of it.
  unfoldable pub finish : State P → State P
  unfolding persist_cursor
  finish s =
      if s.cleaned
      then s
      else persist_cursor (record s { cleaned = true; aborted = true; finishing = true })

  abbrev pub unregistered : State P → State P
  unregistered s = record s { finishing = false; registry = unregister s.conn_id s.registry }

  unfoldable pub finish_rest : State P → State P
  unfolding cleanup unregister
  finish_rest s = if s.finishing then cleanup (unregistered s) else s

  -- `await finish()` and the end of the response.
  unfoldable pub leave : State P → State P
  unfolding finish
  leave s = record (finish s) { phase = ended }

  -- The counter of events, which at its limit has the cursor persisted.
  unfoldable pub count_event : SseConfig → State P → State P
  unfolding persist_cursor
  count_event config s =
      if leb config.cursor_persist_every_events (s.durable_events_written + 1)
      then persist_cursor (record s { durable_events_written = 0 })
      else record s { durable_events_written = s.durable_events_written + 1 }

  -- What the session does after each answer of `enqueueIncremental`. While the queue is full it
  -- waits for space, and asks again.
  unfoldable pub after_initial_event : EnqueueResult → List (SyncEvent P) → ℕ → State P → State P
  unfolding leave
  after_initial_event ok rest hw s = record s {
    phase = sends_initial rest hw;
    durable_events_written = s.durable_events_written + 1;
  }
  after_initial_event full rest hw s = s
  after_initial_event _ rest hw s = leave s

  unfoldable pub after_initial_cursor : EnqueueResult → ℕ → State P → State P
  unfolding leave
  after_initial_cursor ok hw s = record s {
    phase = sleeping hw;
    heartbeat_timer = true;
    persist_timer = true;
  }
  after_initial_cursor full hw s = s
  after_initial_cursor _ hw s = leave s

  unfoldable pub after_batch_event :
      SseConfig → EnqueueResult → ℕ → List (SyncEvent P) → ℕ → State P → State P
  unfolding count_event
  after_batch_event config ok last rest hw s =
      count_event config (record s { phase = sends_batch last rest hw })
  after_batch_event config full last rest hw s = s
  after_batch_event config _ last rest hw s = record s {
    aborted = true;
    phase = sends_batch last [] hw;
  }

  unfoldable pub after_batch_cursor : EnqueueResult → ℕ → State P → State P
  unfolding leave
  after_batch_cursor ok hw s = record s { phase = sleeping hw }
  after_batch_cursor full hw s = s
  after_batch_cursor _ hw s = leave (record s { aborted = true })

  -- The answer of a poll, and the end of a session that has an event too large for a frame.
  unfoldable pub polled : SseConfig → List (SyncEvent P) → ℕ → State P → State P
  unfolding get_poll_batch_with_high_water
  polled config table last s =
      let b = get_poll_batch_with_high_water table last s.tenant_id config.max_initial_batch in
      record s { phase = sends_batch last b.events b.high_water; fetched = s.fetched ++ b.events }

  unfoldable pub told_too_large : ℕ → ℕ → State P → State P
  unfolding enqueue_control format_sse_event
  told_too_large last hw s = record s {
    queue = (enqueue_control (format_sse_event (some "shutdown") none "{}") s.queue).0;
    aborted = true;
    phase = sends_batch last [] hw;
  }

  abbrev pub after_ping : EnqueueResult → ℕ → State P → State P
  after_ping full n s = s
  after_ping _ n s = record s { pings = n }

  abbrev pub log_if_ok : EnqueueResult → Entry P → List (Entry P) → List (Entry P)
  log_if_ok ok e log = log ++ (e ∷ [])
  log_if_ok _ e log = log

-- `JSON.stringify` of the payloads is a parameter, as the payloads are.
module _ {P : Type 0} (stringify : P → String) (config : SseConfig) where
  unfoldable pub event_frame : SyncEvent P → DataItem
  unfolding format_sse_event
  event_frame e = record {
    frame = format_sse_event (some e.event_type) (some e.sync_version) (stringify e.payload);
    cursor = some e.sync_version;
  }

  unfoldable pub item_of : Entry P → DataItem
  unfolding event_frame format_sse_event format_sse_comment
  item_of (event e) = event_frame e
  item_of (cursor v) = record {
    frame = format_sse_event (some "cursor") (some v) "{}";
    cursor = some v;
  }
  item_of ping = record { frame = format_sse_comment "ping"; cursor = none }

  -- One round of the loop of `enqueueIncremental`; `full` stands for the wait for space.
  unfoldable pub enqueue_incremental : Entry P → State P → State P × EnqueueResult
  unfolding item_of enqueue_data
  enqueue_incremental e s =
      let r = enqueue_data config.queue (item_of e).frame (item_of e).cursor s.queue in
      if s.aborted
      then (s, closed)
      else (record s { queue = r.0; log = log_if_ok r.1 e s.log }, r.1)

  abbrev pub is_too_large : SyncEvent P → Bool
  is_too_large e = ltb config.queue.max_frame_bytes (byte_length (event_frame e).frame)

  -- The step from one `await` to the next. A poll reads the `table`.
  unfoldable pub resume_from : List (SyncEvent P) → Phase P → State P → State P
  unfolding enqueue_incremental event_frame after_initial_event after_initial_cursor
      after_batch_event after_batch_cursor leave polled told_too_large
  resume_from table (sends_initial (e ∷ rest) hw) s =
      let r = enqueue_incremental (event e) s in
      if is_too_large e then leave s else after_initial_event r.1 rest hw r.0
  resume_from table (sends_initial [] hw) s =
      let r = enqueue_incremental (cursor hw) s in after_initial_cursor r.1 hw r.0
  resume_from table (sleeping last) s = if s.aborted then leave s else polled config table last s
  resume_from table (sends_batch last (e ∷ rest) hw) s =
      let r = enqueue_incremental (event e) s in
      if is_too_large e
      then told_too_large last hw s
      else after_batch_event config r.1 last rest hw r.0
  resume_from table (sends_batch last [] hw) s =
      let r = enqueue_incremental (cursor hw) s in
      if ltb last hw then after_batch_cursor r.1 hw r.0 else record s { phase = sleeping last }
  resume_from table ended s = s

  unfoldable pub resume : List (SyncEvent P) → State P → State P
  unfolding resume_from
  resume table s = resume_from table s.phase s

  -- The poll of the database throws.
  unfoldable pub poll_fails : Phase P → State P → State P
  unfolding leave
  poll_fails (sleeping last) s = leave s
  poll_fails _ s = s

  unfoldable pub ping_from : ℕ → State P → State P
  unfolding enqueue_incremental
  ping_from zero s = s
  ping_from (suc n) s = let r = enqueue_incremental ping s in after_ping r.1 n r.0

-- What happens to a connection. `queue_event` is a call of the queue by the registry, or a callback
-- of the socket or a timer; `cut_off` is the end of the registry's shutdown, and `others` what other
-- sessions do to the registry.
pub data Event (P : Type 0) : Type 0 where
  resumes : List (SyncEvent P) → Event P
  queue_event : Pump.Event → Event P
  others : Registry.Event → Event P
  poll_failed heartbeat ping_resumes persist_fires request_closes finish_resumes cut_off : Event P

module _ {P : Type 0} (stringify : P → String) (config : SseConfig)
    (write : ℕ → String → WriteResult) where
  -- Only the session enqueues data.
  abbrev pub queue_step : Pump.Event → Queue → Queue
  queue_step (Pump.data_frame frame c) q = q
  queue_step e q = Pump.step config.queue write e q

  unfoldable pub step : Event P → State P → State P
  unfolding resume poll_fails ping_from persist_cursor finish finish_rest cleanup close_all
      Pump.step Registry.step
  step (resumes table) s = resume stringify config table s
  step (queue_event e) s = record s { queue = queue_step e s.queue }
  step (others e) s = record s { registry = Registry.step e s.registry }
  step poll_failed s = poll_fails stringify config s.phase s
  step heartbeat s = if s.heartbeat_timer then record s { pings = s.pings + 1 } else s
  step ping_resumes s = ping_from stringify config s.pings s
  step persist_fires s = if s.persist_timer then persist_cursor s else s
  step request_closes s = finish s
  step finish_resumes s = finish_rest s
  step cut_off s = record (cleanup s) { aborted = true; registry = (close_all s.registry).1 }

  unfoldable pub run : List (Event P) → State P → State P
  unfolding step
  run [] s = s
  run (e ∷ es) s = run es (step e s)
