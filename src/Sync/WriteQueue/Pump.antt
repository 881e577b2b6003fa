-- ===== src/Sync/WriteQueue/Pump.antt =====
-- control-plane/src/domains/sync/sseWriteQueue.ts: the method `pump`, the callbacks of the socket
-- and of the timer, and the histories of a queue.
pub mod Rounds
use verilink.Base.{
  ℕ, zero, suc, ◌+◌, ◌-◌, String, Bool, true, false, not, ◌&&◌, ◌||◌, Option, none, some, List, [],
  ◌∷◌, ◌++◌, if◌then◌else◌, length, is_empty,
}
use verilink.Base.Texts.{byte_length}
use verilink.Sync.WriteQueue.{
  Options, DataItem, Chunk, WriteResult, accepted, buffered, error, Queue, is_truthy, raise_cursor,
  close, arm_slow_timer, clear_slow_timer, slow_timer_fires, enqueue_data, enqueue_control,
}

-- One round of the `while` loop: it continues, or breaks.
pub data Turn : Type 0 where
  continue break : Queue → Turn

-- The frame of the control lane is taken from the queue for a write; the socket takes it.
abbrev pub control_taken : Queue → Queue
control_taken q = record q { control_frame = none; writes = q.writes + 1 }

abbrev pub control_handed : String → Queue → Queue
control_handed next q = record (control_taken q) { wire = q.wire ++ Chunk.control next ∷ [] }

-- The first data item is shifted for a write; the socket takes it. No item is larger than the count
-- of bytes (`Limits`), so the difference is the source's.
abbrev pub item_taken : DataItem → List DataItem → Queue → Queue
item_taken item rest q = record q {
  items = rest;
  data_bytes = q.data_bytes - byte_length item.frame;
  writes = q.writes + 1;
}

abbrev pub item_handed : DataItem → List DataItem → Queue → Queue
item_handed item rest q = record (item_taken item rest q) {
  wire = q.wire ++ Chunk.item item ∷ [];
  last_written_cursor = raise_cursor item.cursor q.last_written_cursor;
}

-- The socket buffers a chunk of `size` bytes.
abbrev pub backpressured : ℕ → Queue → Queue
backpressured size q = record q {
  inflight_bytes = q.inflight_bytes + size;
  waiting_for_drain = true;
}

-- The round after a write of the control lane, and after a write of a data item.
unfoldable pub after_control : WriteResult → String → Queue → Turn
unfolding close arm_slow_timer
after_control error next q = break (close (control_taken q))
after_control accepted next q = continue (control_handed next q)
after_control buffered next q =
    break (arm_slow_timer (backpressured (byte_length next) (control_handed next q)))

unfoldable pub after_item : WriteResult → DataItem → List DataItem → Queue → Turn
unfolding close arm_slow_timer
after_item error item rest q = break (close (item_taken item rest q))
after_item accepted item rest q =
    continue (record (item_handed item rest q) { space_events = q.space_events + 1 })
after_item buffered item rest q =
    break (arm_slow_timer (backpressured (byte_length item.frame) (item_handed item rest q)))

-- The listener of `drain` up to its call of `pump`.
unfoldable pub reset_inflight : Queue → Queue
unfolding clear_slow_timer
reset_inflight q =
    let r = clear_slow_timer (record q { waiting_for_drain = false; inflight_bytes = 0 }) in
    record r { space_events = r.space_events + 1 }

-- The condition in `finally` under which `pump` calls itself again.
unfoldable pub needs_pump : Queue → Bool
needs_pump q =
    not q.waiting_for_drain
    && not q.is_closed
    && (is_truthy q.control_frame || not (is_empty q.items))

module _ (write : ℕ → String → WriteResult) where
  unfoldable pub send_next : Option String → List DataItem → Queue → Turn
  unfolding after_control after_item
  send_next (some next) items q = after_control (write q.writes next) next q
  send_next none [] q = break q
  send_next none (item ∷ rest) q = after_item (write q.writes item.frame) item rest q

  unfoldable pub turn : Queue → Turn
  unfolding send_next
  turn q =
      if q.is_closed || q.waiting_for_drain then break q else send_next q.control_frame q.items q

  -- The loop on fuel: `none` means that the fuel ran out.
  unfoldable pub loop : ℕ → Queue → Option Queue
  unfolding turn
  loop zero q = none
  loop (suc fuel) q = elim (turn q) [ continue r ↦ loop fuel r | break r ↦ some r ]

  -- `pump`, whose first number bounds its calls of itself, and whose second the rounds of a loop.
  unfoldable pub pump : ℕ → ℕ → Queue → Option Queue
  unfolding loop needs_pump
  pump zero rounds q = none
  pump (suc calls) rounds q =
      if q.pumping || q.is_closed || q.waiting_for_drain
      then some q
      else elim (loop rounds (record q { pumping = true })) [
        | none ↦ none
        | some r ↦ elim (needs_pump r) [
          | true ↦ pump calls rounds (record r { pumping = false })
          | false ↦ some (record r { pumping = false })
        ]
      ]

  -- A call with fuel enough: one call, and a round for each chunk and one to stop.
  unfoldable pub pump_all : Queue → Queue
  unfolding pump
  pump_all q = elim (pump 1 (length q.items + 2) q) [ some r ↦ r | none ↦ q ]

  -- The listener of `drain`.
  unfoldable pub drained : Queue → Queue
  unfolding pump_all reset_inflight
  drained q = pump_all (reset_inflight q)

  -- A microtask that `schedulePump` queued, of those that wait.
  unfoldable pub run_microtask : ℕ → Queue → Queue
  unfolding pump_all
  run_microtask zero q = q
  run_microtask (suc n) q = pump_all (record q { microtasks = n })

  unfoldable pub microtask : Queue → Queue
  unfolding run_microtask
  microtask q = run_microtask q.microtasks q

-- What happens to a queue: calls of its methods, and callbacks of the socket and the timer.
pub data Event : Type 0 where
  data_frame : String → Option ℕ → Event
  control_frame : String → Event
  runs_microtask drains closes times_out : Event

module _ (opts : Options) (write : ℕ → String → WriteResult) where
  -- `closes` stands for the socket's `close` and `error` and for a call of `close`.
  unfoldable pub step : Event → Queue → Queue
  unfolding enqueue_data enqueue_control microtask drained close slow_timer_fires
  step (data_frame frame cursor) q = (enqueue_data opts frame cursor q).0
  step (control_frame frame) q = (enqueue_control frame q).0
  step runs_microtask q = microtask write q
  step drains q = drained write q
  step closes q = close q
  step times_out q = slow_timer_fires q

  unfoldable pub run : List Event → Queue → Queue
  unfolding step
  run [] q = q
  run (e ∷ es) q = run es (step e q)
