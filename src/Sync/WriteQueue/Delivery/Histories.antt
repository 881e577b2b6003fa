-- ===== src/Sync/WriteQueue/Delivery/Histories.antt =====
-- Delivery over every history of a connection.
use verilink.Base.{
  ℕ, zero, suc, ◌≡◌, refl, sym, ap, ◌∙◌, ◌⊎◌, inl, inr, false, Option, List, [], ◌∷◌, ◌++◌,
  append_assoc, append-nil, String, arith,
}
use verilink.Sync.WriteQueue.{
  Options, DataItem, EnqueueResult, ok, WriteResult, Queue, empty, enqueue_data,
}
use verilink.Sync.WriteQueue.Pump.{
  pump_all, drained, reset_inflight, run_microtask, microtask, Event, data_frame, control_frame,
  runs_microtask, drains, closes, times_out, step, run,
}
use verilink.Sync.WriteQueue.Pump.Rounds.{pump-total, pending}
use verilink.Sync.WriteQueue.Delivery.{sent, Delivers, IsGreatest}
use verilink.Sync.WriteQueue.Delivery.Turns.{
  IsFaithful, IsFaithful-of_same, close-IsFaithful, pump_all-IsFaithful, reset_inflight-IsFaithful,
  enqueue_control-IsFaithful, slow_timer_fires-IsFaithful,
}

pump_all-idle :
    (write : ℕ → String → WriteResult) (q : Queue)
    → q.pumping ≡ false
    → (pump_all write q).pumping ≡ false
pump_all-idle write q p = (pump-total write 0 (suc (pending q)) q p (omega arith)).2

run_microtask-idle :
    (write : ℕ → String → WriteResult) (n : ℕ) (q : Queue)
    → q.pumping ≡ false
    → (run_microtask write n q).pumping ≡ false
unfolding run_microtask
run_microtask-idle write zero q p = p
run_microtask-idle write (suc n) q p = pump_all-idle write (record q { microtasks = n }) p

run_microtask-IsFaithful :
    (L : List DataItem) (write : ℕ → String → WriteResult) (n : ℕ) (q : Queue)
    → q.pumping ≡ false
    → IsFaithful L q
    → IsFaithful L (run_microtask write n q)
unfolding run_microtask
run_microtask-IsFaithful L write zero q p h = h
run_microtask-IsFaithful L write (suc n) q p h =
    pump_all-IsFaithful L write (record q { microtasks = n }) p
      (IsFaithful-of_same L q (record q { microtasks = n }) refl refl refl refl h)

-- Between events no loop is under way.
pub step-idle :
    (opts : Options) (write : ℕ → String → WriteResult) (e : Event) (q : Queue)
    → q.pumping ≡ false
    → (step opts write e q).pumping ≡ false
unfolding step microtask drained
step-idle opts write (data_frame frame cursor) q p = ground arith
step-idle opts write (control_frame frame) q p = ground arith
step-idle opts write runs_microtask q p = run_microtask-idle write q.microtasks q p
step-idle opts write drains q p = pump_all-idle write (reset_inflight q) (ground arith)
step-idle opts write closes q p = ground arith
step-idle opts write times_out q p = ground arith

abbrev pub if_ok : EnqueueResult → DataItem → List DataItem
if_ok ok i = i ∷ []
if_ok _ i = []

module _ (opts : Options) (write : ℕ → String → WriteResult) where
  -- The items that the calls of `enqueueData` in a history put into the queue, oldest first.
  unfoldable pub taken : Event → Queue → List DataItem
  taken (data_frame frame cursor) q =
      if_ok (enqueue_data opts frame cursor q).1 (record { frame = frame; cursor = cursor })
  taken _ q = []

  pub all_taken : List Event → Queue → List DataItem
  unfolding taken
  all_taken [] q = []
  all_taken (e ∷ es) q = taken e q ++ all_taken es (step opts write e q)

  enqueue_data_cases :
      (frame : String) (cursor : Option ℕ) (q : Queue)
      → let r = enqueue_data opts frame cursor q in
        let i : DataItem = record { frame = frame; cursor = cursor } in
        ((r.0 ≡ q) × (if_ok r.1 i ≡ []))
        ⊎ ((if_ok r.1 i ≡ i ∷ [])
            × (q.is_closed ≡ false)
            × (r.0.is_closed ≡ false)
            × (r.0.items ≡ q.items ++ i ∷ [])
            × (r.0.wire ≡ q.wire)
            × (r.0.last_written_cursor ≡ q.last_written_cursor))
  unfolding enqueue_data
  enqueue_data_cases frame cursor q = ground arith

  pub enqueue_data-IsFaithful :
      (L : List DataItem) (frame : String) (cursor : Option ℕ) (q : Queue)
      → IsFaithful L q
      → IsFaithful (L ++ taken (data_frame frame cursor) q) (enqueue_data opts frame cursor q).0
  unfolding taken
  enqueue_data-IsFaithful L frame cursor q ((rest, e, c), g) =
      elim (enqueue_data_cases frame cursor q) [
        | inl (same, nothing) ↦ rw (nothing, same, append-nil L) ((rest, e, c), g)
        | inr (one, o, o', items, wire, last) ↦
            let i : DataItem = record { frame = frame; cursor = cursor } in
            let all : rest ≡ q.items = ground arith in
            rw (one, wire, last)
              (
                (
                  rest ++ i ∷ [],
                  sym (append_assoc (sent q.wire) rest (i ∷ [])) ∙ ap (λ l. l ++ i ∷ []) e,
                  inr (ap (λ l. l ++ i ∷ []) all ∙ sym items),
                ),
                g,
              )
      ]

  pub step-IsFaithful :
      (L : List DataItem) (e : Event) (q : Queue)
      → q.pumping ≡ false
      → IsFaithful L q
      → IsFaithful (L ++ taken e q) (step opts write e q)
  unfolding step taken microtask drained
  step-IsFaithful L (data_frame frame cursor) q p h = enqueue_data-IsFaithful L frame cursor q h
  step-IsFaithful L (control_frame frame) q p h =
      rw (append-nil L) (enqueue_control-IsFaithful L frame q h)
  step-IsFaithful L runs_microtask q p h =
      rw (append-nil L) (run_microtask-IsFaithful L write q.microtasks q p h)
  step-IsFaithful L drains q p h = rw (append-nil L) (
      pump_all-IsFaithful L write (reset_inflight q) (ground arith)
        (reset_inflight-IsFaithful L q h))
  step-IsFaithful L closes q p h = rw (append-nil L) (close-IsFaithful L q q refl refl h)
  step-IsFaithful L times_out q p h = rw (append-nil L) (slow_timer_fires-IsFaithful L q h)

  run-IsFaithful :
      (L : List DataItem) (es : List Event) (q : Queue)
      → q.pumping ≡ false
      → IsFaithful L q
      → IsFaithful (L ++ all_taken es q) (run opts write es q)
  unfolding run all_taken
  run-IsFaithful L [] q p h = rw (append-nil L) h
  run-IsFaithful L (e ∷ es) q p h =
      rw (← append_assoc L (taken e q) (all_taken es (step opts write e q))) (
        run-IsFaithful (L ++ taken e q) es (step opts write e q) (step-idle opts write e q p)
          (step-IsFaithful L e q p h))

  -- In every history the data items that the socket took are the first of those that `enqueueData`
  -- accepted, in their order, and while the queue is open the others are what it holds, in order.
  pub run-Delivers : (es : List Event) → Delivers (all_taken es empty) (run opts write es empty)
  unfolding empty
  run-Delivers es = (run-IsFaithful [] es empty refl (([], refl, inr refl), (tt, inl refl))).0

  -- In every history `writtenCursor` is at least the cursor of each data item that the socket took,
  -- and is the cursor of one of them, or null.
  pub run-IsGreatest :
      (es : List Event)
      → let q = run opts write es empty in IsGreatest q.last_written_cursor (sent q.wire)
  unfolding empty
  run-IsGreatest es = (run-IsFaithful [] es empty refl (([], refl, inr refl), (tt, inl refl))).1
