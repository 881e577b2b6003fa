-- ===== src/Examples/Sessions.antt =====
-- Instances for the sessions of the stream.
use verilink.Base.{
  ℕ, ◌≡◌, refl, ◌⊎◌, true, false, none, some, List, [], ◌∷◌, ◌++◌, map, String, arith, IsAscending,
}
use verilink.Sync.EventLog.{SyncEvent}
use verilink.Sync.Registry.{empty_registry, try_register}
use verilink.Sync.WriteQueue.{WriteResult, accepted, empty}
use verilink.Sync.WriteQueue.Pump
use verilink.Sync.WriteQueue.Delivery.{Delivers}
use verilink.Sync.Session.{
  SseConfig, sends_initial, State, item_of, open_session, Event, resumes, queue_event, heartbeat,
  request_closes, finish_resumes, run,
}
use verilink.Sync.Session.Order.{ids}
use verilink.Sync.Session.Fetched.{events, unsent}
use verilink.Sync.Session.Ending.{IsOver}
use verilink.Sync.Session.Opened.{
  session-Delivers, session-IsPrefix, session-IsAscending, session-IsOver,
}

abbrev config : SseConfig
config = record {
  queue = record { max_frames = 4; max_bytes = 400; max_frame_bytes = 200; slow_client_ms = 10 };
  max_initial_batch = 10;
  cursor_persist_every_events = 2;
}

abbrev row : SyncEvent String
row = record {
  sync_version = 2;
  event_type = "trust_score.update";
  principal_id = none;
  tenant_id = none;
  payload = "{}";
}

abbrev later : SyncEvent String
later = record {
  sync_version = 5;
  event_type = "policy.replace";
  principal_id = none;
  tenant_id = none;
  payload = "{}";
}

abbrev session : State String
session = record {
  conn_id = 1;
  tenant_id = some "t";
  edge_node = some ("t", "n");
  queue = empty;
  phase = sends_initial (row ∷ []) 3;
  durable_events_written = 0;
  heartbeat_timer = false;
  persist_timer = false;
  pings = 0;
  aborted = false;
  cleaned = false;
  finishing = false;
  registry = (try_register empty empty_registry).1;
  cursors = [];
  log = [];
  fetched = row ∷ [];
}

opened : open_session (some "t") (some ("t", "n")) (row ∷ []) 3 empty_registry [] ≡ some session
unfolding open_session empty_registry
opened = refl

-- The first batch, its cursor, and a poll that finds an event.
abbrev history : List (Event String)
history =
    resumes []
    ∷ queue_event Pump.runs_microtask
    ∷ resumes []
    ∷ resumes (row ∷ later ∷ [])
    ∷ heartbeat
    ∷ resumes []
    ∷ []

abbrev takes_all : ℕ → String → WriteResult
takes_all n frame = accepted

abbrev after : State String
after = run (λ p. p) config takes_all history session

sent_ids : ids after.log ≡ 2 ∷ 3 ∷ 5 ∷ []
unfolding run empty
sent_ids = refl

session-Delivers_example : Delivers (map (item_of (λ p. p) config) after.log) after.queue
session-Delivers_example =
    session-Delivers (λ p. p) config takes_all (some "t") (some ("t", "n")) (row ∷ []) 3
      empty_registry [] session opened history

session-IsPrefix_example :
    (rest : List (SyncEvent String)) × (events after.log ++ rest ≡ after.fetched)
    × ((after.aborted ≡ true) ⊎ (rest ≡ unsent after.phase))
session-IsPrefix_example =
    session-IsPrefix (λ p. p) config takes_all (some "t") (some ("t", "n")) (row ∷ []) 3
      empty_registry [] session opened history

session-IsAscending_example : IsAscending (ids after.log)
session-IsAscending_example =
    session-IsAscending (λ p. p) config takes_all (some "t") (some ("t", "n")) (row ∷ []) 3
      empty_registry [] session opened history ((omega arith, tt), (tt, tt))

session-IsOver_example : IsOver (
    run
      (λ p. p)
      config
      takes_all
      (history ++ (request_closes ∷ ((heartbeat ∷ []) ++ (finish_resumes ∷ []))))
      session)
session-IsOver_example =
    session-IsOver (λ p. p) config takes_all (some "t") (some ("t", "n")) (row ∷ []) 3
      empty_registry [] session opened history (heartbeat ∷ []) []
