-- ===== src/Sync/Registry.antt =====
-- control-plane/src/domains/sync/sseRegistry.ts: the connections that are open, which a shutdown
-- tells, waits for, and closes. The wait is the history between `begin_shutdown` and `close_all`.
pub mod Shutdown
use verilink.Base.{
  ℕ, suc, ◌+◌, Bool, true, false, not, Option, none, some, List, [], ◌∷◌, ◌++◌, String, map, keep,
  ◌==◌, if◌then◌else◌,
}
use verilink.Sync.WriteQueue.{Queue, enqueue_control, close}

-- The id `sse-n` is the number n. The cleanup of a session closes its queue.
pub record SseConnection : Type 0 where
  pub id : ℕ
  pub queue : Queue
  pub aborted : Bool

pub record SseRegistry : Type 0 where
  pub connections : List SseConnection
  pub accepting : Bool
  pub next_id : ℕ

unfoldable pub empty_registry : SseRegistry
empty_registry = record { connections = []; accepting = true; next_id = 1 }

unfoldable pub stop_accepting : SseRegistry → SseRegistry
stop_accepting r = record r { accepting = false }

unfoldable pub start_accepting : SseRegistry → SseRegistry
start_accepting r = record r { accepting = true }

unfoldable pub try_register : Queue → SseRegistry → Option SseConnection × SseRegistry
try_register queue r =
    let conn : SseConnection = record { id = r.next_id; queue = queue; aborted = false } in
    if not r.accepting then (none, r) else (
      some conn,
      record r { connections = r.connections ++ (conn ∷ []); next_id = r.next_id + 1 },
    )

unfoldable pub unregister : ℕ → SseRegistry → SseRegistry
unregister id r = record r { connections = keep (λ c. not (c.id == id)) r.connections }

abbrev pub tell : String → SseConnection → SseConnection
tell frame c = record c { queue = (enqueue_control frame c.queue).0 }

-- `shutdownAll` up to its wait, for the frame of the shutdown event.
unfoldable pub begin_shutdown : String → SseRegistry → SseRegistry
unfolding stop_accepting
begin_shutdown frame r =
    let stopped = stop_accepting r in
    record stopped { connections = map (tell frame) r.connections }

-- What it does to a connection that is left after the wait.
abbrev pub cut_off : SseConnection → SseConnection
cut_off c = record c { aborted = true; queue = close c.queue }

-- The connections that are cut off, and the registry without them.
unfoldable pub close_all : SseRegistry → List SseConnection × SseRegistry
close_all r = (map cut_off r.connections, record r { connections = [] })

-- What happens between the calls: queues change by themselves, which is no event here.
pub data Event : Type 0 where
  registers : Queue → Event
  unregisters : ℕ → Event
  stops_accepting starts_accepting : Event

unfoldable pub step : Event → SseRegistry → SseRegistry
unfolding try_register unregister stop_accepting start_accepting
step (registers queue) r = (try_register queue r).1
step (unregisters id) r = unregister id r
step stops_accepting r = stop_accepting r
step starts_accepting r = start_accepting r

unfoldable pub run : List Event → SseRegistry → SseRegistry
unfolding step
run [] r = r
run (e ∷ es) r = run es (step e r)
