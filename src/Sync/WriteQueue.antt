-- ===== src/Sync/WriteQueue.antt =====
-- control-plane/src/domains/sync/sseWriteQueue.ts: the bounded outbound queue of one connection.
-- A method is a function on the record of its fields; one call or callback runs to its end before
-- the next one starts, so a history is a list of events (`Event`, `step`, `run`). The socket is the
-- parameter `write`: the answer of the n-th `res.write` of the connection, any function.
pub mod Pump
pub mod Delivery
pub mod Limits
pub mod Invariant
use verilink.Base.{
  ℕ, zero, suc, ◌+◌, ◌-◌, String, Bool, true, false, ◌||◌, Option, none, some, List, [], ◌∷◌, ◌++◌,
  ltb, leb, if◌then◌else◌, length, is_some,
}
use verilink.Base.Texts.{byte_length, str_eq}

-- `EnqueueResult`.
pub data EnqueueResult : Type 0 where
  ok oversized closed full : EnqueueResult

-- `SseWriteQueueOptions`, without the callback, which only logs.
pub record Options : Type 0 where
  pub max_frames : ℕ
  pub max_bytes : ℕ
  pub max_frame_bytes : ℕ
  pub slow_client_ms : ℕ

pub record DataItem : Type 0 where
  pub frame : String
  pub cursor : Option ℕ

-- What the socket was handed: a data item or a frame of the control lane.
pub data Chunk : Type 0 where
  item : DataItem → Chunk
  control : String → Chunk

-- The answer of `safeWrite`: `true`, `false` (the socket buffers, wait for drain), or a throw.
pub data WriteResult : Type 0 where
  accepted buffered error : WriteResult

-- The private fields, and below them what the object has done to its surroundings: the chunks that
-- the socket took (oldest first), the calls of `res.write`, the microtasks that `queueMicrotask`
-- holds, the `space` events emitted, and whether `res.end` was called.
pub record Queue : Type 0 where
  pub items : List DataItem
  pub data_bytes : ℕ
  pub inflight_bytes : ℕ
  pub control_frame : Option String
  pub pumping : Bool
  pub is_closed : Bool
  pub waiting_for_drain : Bool
  pub slow_timer : Bool
  pub last_written_cursor : Option ℕ
  pub wire : List Chunk
  pub writes : ℕ
  pub microtasks : ℕ
  pub space_events : ℕ
  pub ended : Bool

-- The constructor.
unfoldable pub empty : Queue
empty = record {
  items = [];
  data_bytes = 0;
  inflight_bytes = 0;
  control_frame = none;
  pumping = false;
  is_closed = false;
  waiting_for_drain = false;
  slow_timer = false;
  last_written_cursor = none;
  wire = [];
  writes = 0;
  microtasks = 0;
  space_events = 0;
  ended = false;
}

-- `this.control` as a condition: the empty string is falsy.
abbrev pub is_truthy : Option String → Bool
is_truthy none = false
is_truthy (some s) = if str_eq s "" then false else true

abbrev pub frame_bytes : Option String → ℕ
frame_bytes none = 0
frame_bytes (some s) = byte_length s

pub pending_frames : Queue → ℕ
pending_frames q = length q.items + (if is_truthy q.control_frame then 1 else 0)

pub pending_bytes : Queue → ℕ
pending_bytes q = q.data_bytes + q.inflight_bytes + frame_bytes q.control_frame

unfoldable pub schedule_pump : Queue → Queue
schedule_pump q =
    if q.waiting_for_drain || q.is_closed then q else record q { microtasks = q.microtasks + 1 }

pub clear_slow_timer : Queue → Queue
clear_slow_timer q = if q.slow_timer then record q { slow_timer = false } else q

pub arm_slow_timer : Queue → Queue
arm_slow_timer q = if q.slow_timer || q.is_closed then q else record q { slow_timer = true }

-- `close` emits `closed` and `space`, which wake whoever waits for space.
unfoldable pub close : Queue → Queue
unfolding clear_slow_timer
close q =
    if q.is_closed
    then q
    else clear_slow_timer (record q { is_closed = true; space_events = q.space_events + 1 })

-- The callback of the slow timer.
unfoldable pub slow_timer_fires : Queue → Queue
unfolding close
slow_timer_fires q =
    if q.slow_timer then record (close (record q { slow_timer = false })) { ended = true } else q

module _ (opts : Options) where
  -- The two tests of `enqueueData` and `waitForSpace`.
  pub is_oversized : ℕ → Bool
  is_oversized size = ltb opts.max_frame_bytes size || ltb opts.max_bytes size

  pub is_full : Queue → ℕ → Bool
  is_full q size =
      leb opts.max_frames (length q.items)
      || ltb opts.max_bytes (q.data_bytes + q.inflight_bytes + size)

  unfoldable pub enqueue_data : String → Option ℕ → Queue → Queue × EnqueueResult
  unfolding is_oversized is_full schedule_pump
  enqueue_data frame cursor q =
      let size = byte_length frame in
      if q.is_closed
      then (q, closed)
      else if is_oversized size
      then (q, oversized)
      else if is_full q size
      then (q, full)
      else (
        schedule_pump (record q {
          items = q.items ++ record { frame = frame; cursor = cursor } ∷ [];
          data_bytes = q.data_bytes + size;
        }),
        ok,
      )

  -- One round of the loop of `waitForSpace`: answer, or wait (`none`) for the next wake-up.
  unfoldable pub space_now : ℕ → Queue → Option EnqueueResult
  unfolding is_full
  space_now size q = if q.is_closed then some closed else if is_full q size then none else some ok

unfoldable pub enqueue_control : String → Queue → Queue × EnqueueResult
unfolding schedule_pump
enqueue_control frame q =
    if q.is_closed
    then (q, closed)
    else (schedule_pump (record q { control_frame = some frame }), ok)

-- The greatest cursor: `if (last === null || cursor > last) last = cursor`.
pub raise_cursor : Option ℕ → Option ℕ → Option ℕ
raise_cursor none last = last
raise_cursor (some c) none = some c
raise_cursor (some c) (some l) = if ltb l c then some c else some l
