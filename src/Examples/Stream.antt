-- ===== src/Examples/Stream.antt =====
-- Instances for control-plane/src/domains/sync.
use verilink.Base.{
  ◌≡◌, refl, ◌⊎◌, true, false, none, some, List, [], ◌∷◌, ◌++◌, String, ℕ, ◌+◌, ◌≤◌, ◌<◌,
  if◌then◌else◌, length, arith, ltb,
}
use verilink.Base.Decimal.{to_decimal}
use verilink.Sync.WriteQueue.{
  Options, Queue, WriteResult, accepted, buffered, empty, pending_frames, pending_bytes,
}
use verilink.Sync.WriteQueue.Pump.{
  Event, data_frame, control_frame, runs_microtask, drains, run, pump, pump_all,
}
use verilink.Sync.WriteQueue.Pump.Rounds.{IsResting, pump-total}
use verilink.Sync.WriteQueue.Limits.{total}
use verilink.Sync.WriteQueue.Invariant.{Mode, run-limits, run-Mode}
use verilink.Sync.WriteQueue.Delivery.{Delivers, IsGreatest, sent}
use verilink.Sync.WriteQueue.Delivery.Histories.{all_taken, run-Delivers, run-IsGreatest}
use verilink.Sync.LastEventId.{
  is_space, parse_non_negative_integer, parse_last_event_id, LastEventIdInputs, one, ok,
  pg_bigint_max, first_string, or_defined,
}
use verilink.Sync.LastEventId.Resume.{
  Says, parse_non_negative_integer-to_decimal, parse_last_event_id_sound,
}
use verilink.Sync.EventLog.{
  SyncEvent, Opts, get_high_water_version, get_events_since, get_initial_batch_with_high_water,
  get_poll_batch_with_high_water,
}
use verilink.Sync.EventLog.Batches.{initial-poll_complete, poll_skips}
use verilink.Sync.Registry.{
  SseRegistry, empty_registry, begin_shutdown, close_all, registers, unregisters, starts_accepting,
}
use verilink.Sync.Registry
use verilink.Sync.Registry.Shutdown.{shutdown_complete}
use verilink.Sync.Cursors.{SyncCursor, EdgeNode}

abbrev small : Options
small = record { max_frames = 2; max_bytes = 10; max_frame_bytes = 4; slow_client_ms = 100 }

-- A socket that takes the first frame into its buffer.
abbrev slow_socket : ℕ → String → WriteResult
slow_socket n frame = if ltb n 1 then buffered else accepted

abbrev history : List Event
history =
    data_frame "ab" (some 1)
    ∷ data_frame "cd" (some 2)
    ∷ runs_microtask
    ∷ control_frame "xyz"
    ∷ data_frame "ef" (some 3)
    ∷ drains
    ∷ []

run-Delivers_example :
    Delivers (all_taken small slow_socket history empty) (run small slow_socket history empty)
run-Delivers_example = run-Delivers small slow_socket history

run-IsGreatest_example :
    IsGreatest
      (run small slow_socket history empty).last_written_cursor
      (sent (run small slow_socket history empty).wire)
run-IsGreatest_example = run-IsGreatest small slow_socket history

run-limits_example :
    (pending_frames (run small slow_socket history empty) ≤ 2 + 1)
    × (pending_bytes (run small slow_socket history empty) ≤ 10 + 3 + 3)
    × ((run small slow_socket history empty).data_bytes
        ≡ total (run small slow_socket history empty).items)
run-limits_example =
    run-limits small 3 slow_socket history (tt, (tt, (tt, (omega arith, (tt, (tt, tt))))))

run-Mode_example : Mode (run small slow_socket history empty)
run-Mode_example =
    run-Mode small 3 slow_socket history (tt, (tt, (tt, (omega arith, (tt, (tt, tt))))))

abbrev queued : Queue
queued = run small slow_socket (data_frame "ab" (some 1) ∷ []) empty

pump-total_example :
    (pump slow_socket 1 5 queued ≡ some (pump_all slow_socket queued))
    × IsResting (pump_all slow_socket queued)
    × ((pump_all slow_socket queued).pumping ≡ false)
unfolding run empty
pump-total_example = pump-total slow_socket 0 5 queued refl (omega arith)

parse_non_negative_integer-to_decimal_example :
    parse_non_negative_integer ((32 ∷ []) ++ (to_decimal 42 ++ (9 ∷ []))) ≡ ok 42
unfolding is_space
parse_non_negative_integer-to_decimal_example =
    parse_non_negative_integer-to_decimal 42 (32 ∷ []) (9 ∷ []) (refl, tt) (refl, tt)

abbrev answer : ℕ
answer = 42

abbrev resumed : LastEventIdInputs
resumed = record {
  header = some (one (52 ∷ 50 ∷ []));
  query = none;
  query_key_present = none;
  header_present = none;
}

parse_last_event_id_sound_example :
    (42 ≤ pg_bigint_max)
    × (((or_defined resumed.header_present resumed.header ≡ true)
          × Says (first_string resumed.header) 42)
        ⊎ ((or_defined resumed.header_present resumed.header ≡ false)
            × (or_defined resumed.query_key_present resumed.query ≡ true)
            × Says (first_string resumed.query) 42)
        ⊎ ((or_defined resumed.header_present resumed.header ≡ false)
            × (or_defined resumed.query_key_present resumed.query ≡ false)
            × (answer ≡ 0)))
unfolding parse_last_event_id
parse_last_event_id_sound_example = parse_last_event_id_sound resumed 42 refl

abbrev change : ℕ → SyncEvent ℕ
change n = record {
  sync_version = n;
  event_type = "score.upsert";
  principal_id = none;
  tenant_id = none;
  payload = n;
}

abbrev changes : List (SyncEvent ℕ)
changes = change 1 ∷ change 2 ∷ []

abbrev no_opts : Opts
no_opts = record { principal_id = none; tenant_id = none }

initial-poll_complete_example :
    (get_initial_batch_with_high_water changes 0 none 5).events
      ++ (get_poll_batch_with_high_water
          (changes ++ (change 3 ∷ []))
          (get_initial_batch_with_high_water changes 0 none 5).high_water
          none
          5).events
    ≡ get_events_since (changes ++ (change 3 ∷ [])) 0 none none
unfolding get_initial_batch_with_high_water get_events_since get_high_water_version
initial-poll_complete_example =
    initial-poll_complete changes (change 3 ∷ []) 0 none 5 5
      (omega arith, (omega arith, (omega arith, tt))) (omega arith) refl (omega arith)

poll_skips_example :
    length (get_poll_batch_with_high_water changes 0 none 1).events
      + length (
          get_events_since changes
            (get_poll_batch_with_high_water changes 0 none 1).high_water
            none
            none)
    < length (get_events_since changes 0 none none)
unfolding get_events_since
poll_skips_example = poll_skips changes 0 none 1 (omega arith, (omega arith, tt)) (omega arith)

abbrev cursors : List SyncCursor
cursors = record { tenant_id = "t"; edge_node_id = "n"; last_cursor = 9 } ∷ []

abbrev no_nodes : List EdgeNode
no_nodes = []

abbrev visits : List Registry.Event
visits = registers empty ∷ registers empty ∷ unregisters 1 ∷ registers empty ∷ []

abbrev busy : SseRegistry
busy = Registry.run visits empty_registry

shutdown_complete_example :
    (length
        (Registry.run
          (registers empty ∷ unregisters 2 ∷ [])
          (begin_shutdown "bye" busy)).connections
      ≤ length busy.connections)
    × ((Registry.run
          (registers empty ∷ [])
          (close_all (
            Registry.run
              (registers empty ∷ unregisters 2 ∷ [])
              (begin_shutdown "bye" busy))).1).connections
        ≡ [])
shutdown_complete_example =
    shutdown_complete "bye" busy (registers empty ∷ unregisters 2 ∷ []) (registers empty ∷ [])
      (tt, (tt, tt)) (tt, tt)
