-- ===== src/Sync/WriteQueue/Invariant.antt =====
-- What holds of a queue between two events, and so after every history of a connection.
use verilink.Base.{
  ℕ, zero, suc, ◌+◌, ◌≤◌, ◌<◌, ◌≡◌, refl, ◌⊎◌, inl, inr, true, false, Option, List, [], ◌∷◌, String,
  arith, length-append, Bool-cases, All,
}
use verilink.Base.Texts.{byte_length}
use verilink.Sync.WriteQueue.{
  Options, DataItem, WriteResult, Queue, empty, close, pending_frames, pending_bytes, enqueue_data,
  enqueue_control, slow_timer_fires,
}
use verilink.Sync.WriteQueue.Limits.{
  IsWithin, total, total-append, turn-IsWithin, set_pumping-IsWithin,
}
use verilink.Sync.WriteQueue.Pump.{
  pump_all, drained, reset_inflight, run_microtask, microtask, Event, data_frame, control_frame,
  runs_microtask, drains, closes, times_out, step, run,
}
use verilink.Sync.WriteQueue.Pump.Rounds.{IsResting, pending, pump_all-Keeps, pump-total}

-- What holds between two events: the limits, no loop under way, and no chunk that nothing will send.
pub record Inv (opts : Options) (c : ℕ) (q : Queue) : Type 0 where
  pub within : IsWithin opts c q
  pub idle : q.pumping ≡ false
  pub awake : IsResting q ⊎ (0 < q.microtasks)

module _ (opts : Options) (c : ℕ) (write : ℕ → String → WriteResult) where
  pub empty-Inv : Inv opts c empty
  unfolding empty
  empty-Inv = record { within = ground arith; idle = refl; awake = inl (inr (inr (refl, refl))) }

  pump_all-Inv : (q : Queue) → IsWithin opts c q → q.pumping ≡ false → Inv opts c (pump_all write q)
  pump_all-Inv q h p =
      let (_, resting, idle) = pump-total write 0 (suc (pending q)) q p (omega arith) in
      record {
        within =
            pump_all-Keeps write (IsWithin opts c) (turn-IsWithin opts c write)
              (set_pumping-IsWithin opts c) q p h;
        idle = idle;
        awake = inl resting;
      }

  drained-Inv : (q : Queue) → Inv opts c q → Inv opts c (drained write q)
  unfolding drained
  drained-Inv q h = pump_all-Inv (reset_inflight q) (ground arith) (ground arith)

  run_microtask-Inv : (n : ℕ) (q : Queue) → Inv opts c q → Inv opts c (run_microtask write n q)
  unfolding run_microtask
  run_microtask-Inv zero q h = h
  run_microtask-Inv (suc n) q h =
      pump_all-Inv (record q { microtasks = n }) (ground arith) (ground arith)

  enqueue_data-Inv :
      (frame : String) (cursor : Option ℕ) (q : Queue)
      → Inv opts c q
      → Inv opts c (enqueue_data opts frame cursor q).0
  unfolding enqueue_data
  enqueue_data-Inv frame cursor q h =
      let item : DataItem = record { frame = frame; cursor = cursor } in
      ground (arith, total-append q.items (item ∷ []), length-append q.items (item ∷ []))

  enqueue_control-Inv :
      (frame : String) (q : Queue)
      → byte_length frame ≤ c
      → Inv opts c q
      → Inv opts c (enqueue_control frame q).0
  unfolding enqueue_control
  enqueue_control-Inv frame q small h = ground arith

  close-Inv : (q : Queue) → Inv opts c q → Inv opts c (close q)
  unfolding close
  close-Inv q h = ground arith

  slow_timer_fires-Inv : (q : Queue) → Inv opts c q → Inv opts c (slow_timer_fires q)
  unfolding slow_timer_fires
  slow_timer_fires-Inv q h = ground arith

-- The control frames of a history are no longer than `c`.
abbrev pub ControlWithin : ℕ → Event → Type 0
ControlWithin c (control_frame frame) = byte_length frame ≤ c
ControlWithin c _ = Unit {0}

-- The three modes of a queue between two events.
abbrev pub Mode : Queue → Type 0
Mode q =
    ((q.is_closed ≡ true) × (q.slow_timer ≡ false))
    ⊎ ((q.is_closed ≡ false) × (q.waiting_for_drain ≡ true) × (q.slow_timer ≡ true))
    ⊎ ((q.is_closed ≡ false)
        × (q.waiting_for_drain ≡ false)
        × (q.slow_timer ≡ false)
        × ((pending q ≡ 0) ⊎ (0 < q.microtasks)))

module _ (opts : Options) (c : ℕ) (write : ℕ → String → WriteResult) where
  step-Inv :
      (e : Event) (q : Queue) → ControlWithin c e → Inv opts c q → Inv opts c (step opts write e q)
  unfolding step microtask
  step-Inv (data_frame frame cursor) q k h = enqueue_data-Inv opts c write frame cursor q h
  step-Inv (control_frame frame) q k h = enqueue_control-Inv opts c write frame q k h
  step-Inv runs_microtask q k h = run_microtask-Inv opts c write q.microtasks q h
  step-Inv drains q k h = drained-Inv opts c write q h
  step-Inv closes q k h = close-Inv opts c write q h
  step-Inv times_out q k h = slow_timer_fires-Inv opts c write q h

  run-Inv :
      (es : List Event) (q : Queue)
      → All (ControlWithin c) es
      → Inv opts c q
      → Inv opts c (run opts write es q)
  unfolding run
  run-Inv [] q k h = h
  run-Inv (e ∷ es) q k h = run-Inv es (step opts write e q) k.1 (step-Inv e q k.0 h)

  Inv-limits :
      (q : Queue)
      → Inv opts c q
      → (pending_frames q ≤ opts.max_frames + 1)
        × (pending_bytes q ≤ opts.max_bytes + c + c)
        × (q.data_bytes ≡ total q.items)
  unfolding pending_frames pending_bytes
  Inv-limits q h = ground arith

  -- In every history of a connection whose control frames have at most `c` bytes, the queue holds
  -- at most `maxFrames` data frames and one control frame, its pending bytes, in flight included,
  -- exceed `maxBytes` by two control frames at most, and the count of its data bytes is exact.
  pub run-limits :
      (es : List Event)
      → All (ControlWithin c) es
      → (pending_frames (run opts write es empty) ≤ opts.max_frames + 1)
        × (pending_bytes (run opts write es empty) ≤ opts.max_bytes + c + c)
        × ((run opts write es empty).data_bytes ≡ total (run opts write es empty).items)
  run-limits es k = Inv-limits _ (run-Inv es empty k (empty-Inv opts c write))

  Inv-Mode : (q : Queue) → Inv opts c q → Mode q
  Inv-Mode q h = elim (Bool-cases q.is_closed) [
    | inl e ↦ inl (e, ground arith)
    | inr e ↦ elim (Bool-cases q.waiting_for_drain) [
      | inl w ↦ inr (inl (e, w, ground arith))
      | inr w ↦ inr (inr (e, w, ground arith, ground arith))
    ]
  ]

  -- After every history whose control frames have at most `c` bytes, the queue is in one of three
  -- modes: it is closed and has no slow timer; or it is open, waits for the socket to drain, and
  -- its slow timer is armed; or it is open, does not wait, has no slow timer, and what it holds, if
  -- anything, a queued microtask will send.
  pub run-Mode : (es : List Event) → All (ControlWithin c) es → Mode (run opts write es empty)
  run-Mode es k = Inv-Mode _ (run-Inv es empty k (empty-Inv opts c write))
