-- ===== src/Sync/Session/Delivery.antt =====
-- The queue of a session holds and sends what its log says.
use verilink.Base.{
  ℕ, zero, suc, ◌≡◌, refl, sym, ap, ◌∙◌, subst, inl, inr, true, false, Option, none, some, List, [],
  ◌∷◌, ◌++◌, map, append-nil, String, arith, Bool-cases, if_both, ltb,
}
use verilink.Sync.EventLog.{SyncEvent}
use verilink.Sync.WriteQueue.{
  EnqueueResult, ok, oversized, closed, full, WriteResult, Queue, close, enqueue_data,
  enqueue_control,
}
use verilink.Sync.Frames.{format_sse_event}
use verilink.Sync.WriteQueue.Pump
use verilink.Sync.WriteQueue.Delivery.Turns.{
  IsFaithful, close-IsFaithful, enqueue_control-IsFaithful,
}
use verilink.Sync.WriteQueue.Delivery.Histories.{
  taken, if_ok, enqueue_data-IsFaithful, step-IsFaithful, step-idle,
}
use verilink.Sync.Session.{
  SseConfig, Entry, event, cursor, ping, Phase, sends_initial, sleeping, sends_batch, ended, State,
  persist_cursor, cleanup, unregistered, finish, finish_rest, leave, count_event,
  after_initial_event, after_initial_cursor, after_batch_event, after_batch_cursor, after_ping,
  log_if_ok, item_of, enqueue_incremental, is_too_large, resume_from, resume, polled,
  told_too_large, poll_fails, ping_from, Event, queue_step, step, run,
}
use verilink.Sync.Session.{
  resumes, queue_event, others, poll_failed, heartbeat, ping_resumes, persist_fires, request_closes,
  finish_resumes, cut_off,
}

map-append {ℓ κ} :
    {A : Type ℓ} {B : Type κ} (f : A → B) (xs ys : List A) → map f (xs ++ ys) ≡ map f xs ++ map f ys
map-append f [] ys = refl
map-append f (x ∷ xs) ys = ap (◌∷◌ (f x)) (map-append f xs ys)

module _ {P : Type 0} where
  -- A step that leaves the queue and the log alone.
  abbrev pub SameQueue : State P → State P → Type 0
  SameQueue s s' = (s'.queue ≡ s.queue) × (s'.log ≡ s.log)

  leave-SameQueue : (s : State P) → SameQueue s (leave s)
  unfolding leave finish persist_cursor
  leave-SameQueue s = ground arith

  after_initial_event-SameQueue :
      (r : EnqueueResult) (rest : List (SyncEvent P)) (hw : ℕ) (s : State P)
      → SameQueue s (after_initial_event r rest hw s)
  unfolding after_initial_event
  after_initial_event-SameQueue ok rest hw s = (refl, refl)
  after_initial_event-SameQueue full rest hw s = (refl, refl)
  after_initial_event-SameQueue oversized rest hw s = leave-SameQueue s
  after_initial_event-SameQueue closed rest hw s = leave-SameQueue s

  after_initial_cursor-SameQueue :
      (r : EnqueueResult) (hw : ℕ) (s : State P) → SameQueue s (after_initial_cursor r hw s)
  unfolding after_initial_cursor
  after_initial_cursor-SameQueue ok hw s = (refl, refl)
  after_initial_cursor-SameQueue full hw s = (refl, refl)
  after_initial_cursor-SameQueue oversized hw s = leave-SameQueue s
  after_initial_cursor-SameQueue closed hw s = leave-SameQueue s

  after_batch_event-SameQueue :
      (config : SseConfig) (r : EnqueueResult) (last : ℕ) (rest : List (SyncEvent P)) (hw : ℕ)
      (s : State P)
      → SameQueue s (after_batch_event config r last rest hw s)
  unfolding after_batch_event count_event persist_cursor
  after_batch_event-SameQueue config ok last rest hw s = ground arith
  after_batch_event-SameQueue config full last rest hw s = (refl, refl)
  after_batch_event-SameQueue config oversized last rest hw s = (refl, refl)
  after_batch_event-SameQueue config closed last rest hw s = (refl, refl)

  after_batch_cursor-SameQueue :
      (r : EnqueueResult) (hw : ℕ) (s : State P) → SameQueue s (after_batch_cursor r hw s)
  unfolding after_batch_cursor
  after_batch_cursor-SameQueue ok hw s = (refl, refl)
  after_batch_cursor-SameQueue full hw s = (refl, refl)
  after_batch_cursor-SameQueue oversized hw s = leave-SameQueue (record s { aborted = true })
  after_batch_cursor-SameQueue closed hw s = leave-SameQueue (record s { aborted = true })

  after_ping-SameQueue : (r : EnqueueResult) (n : ℕ) (s : State P) → SameQueue s (after_ping r n s)
  after_ping-SameQueue ok n s = (refl, refl)
  after_ping-SameQueue full n s = (refl, refl)
  after_ping-SameQueue oversized n s = (refl, refl)
  after_ping-SameQueue closed n s = (refl, refl)

module _ {P : Type 0} (stringify : P → String) (config : SseConfig) where
  -- The queue is idle between steps, and delivers the items of the log.
  abbrev pub HasLog : State P → Type 0
  HasLog s = (s.queue.pumping ≡ false) × IsFaithful (map (item_of stringify config) s.log) s.queue

  HasLog-same : (s s' : State P) → SameQueue s s' → HasLog s → HasLog s'
  HasLog-same s s' (q, l) h = rw (q, l) h

  map-log_if_ok :
      (r : EnqueueResult) (e : Entry P) (log : List (Entry P))
      → map (item_of stringify config) (log_if_ok r e log)
        ≡ map (item_of stringify config) log ++ if_ok r (item_of stringify config e)
  map-log_if_ok ok e log = map-append (item_of stringify config) log (e ∷ [])
  map-log_if_ok full e log = sym (append-nil _)
  map-log_if_ok oversized e log = sym (append-nil _)
  map-log_if_ok closed e log = sym (append-nil _)

  enqueue_data-idle :
      (frame : String) (c : Option ℕ) (q : Queue)
      → q.pumping ≡ false
      → (enqueue_data config.queue frame c q).0.pumping ≡ false
  unfolding enqueue_data
  enqueue_data-idle frame c q h = ground arith

  enqueue_incremental-HasLog :
      (e : Entry P) (s : State P) → HasLog s → HasLog (enqueue_incremental stringify config e s).0
  unfolding enqueue_incremental taken
  enqueue_incremental-HasLog e s (p, f) = elim (Bool-cases s.aborted) [
    | inl a ↦ rw (a, enqueue_incremental) (p, f)
    | inr a ↦
        let i = item_of stringify config e in
        let r = enqueue_data config.queue i.frame i.cursor s.queue in
        rw (a, enqueue_incremental)
          (
            enqueue_data-idle i.frame i.cursor s.queue p,
            subst (λ l. IsFaithful l r.0) (sym (map-log_if_ok r.1 e s.log))
                (enqueue_data-IsFaithful config.queue (λ _ _. WriteResult.error)
                  (map (item_of stringify config) s.log) i.frame i.cursor s.queue f),
          )
  ]

  sent_on :
      (e : Entry P) (s s' : State P)
      → HasLog s
      → SameQueue (enqueue_incremental stringify config e s).0 s'
      → HasLog s'
  sent_on e s s' h same =
      HasLog-same (enqueue_incremental stringify config e s).0 s' same
        (enqueue_incremental-HasLog e s h)

  enqueue_control-idle :
      (frame : String) (q : Queue) → q.pumping ≡ false → (enqueue_control frame q).0.pumping ≡ false
  unfolding enqueue_control
  enqueue_control-idle frame q h = ground arith

  told-HasLog : (last hw : ℕ) (s : State P) → HasLog s → HasLog (told_too_large last hw s)
  unfolding told_too_large
  told-HasLog last hw s (p, f) = (
    enqueue_control-idle (format_sse_event (some "shutdown") none "{}") s.queue p,
    enqueue_control-IsFaithful (map (item_of stringify config) s.log)
        (format_sse_event (some "shutdown") none "{}") s.queue f,
  )

  resume_from-HasLog :
      (table : List (SyncEvent P)) (p : Phase P) (s : State P)
      → HasLog s
      → HasLog (resume_from stringify config table p s)
  unfolding resume_from
  resume_from-HasLog table (sends_initial (e ∷ rest) hw) s h =
      let r = enqueue_incremental stringify config (event e) s in
      if_both HasLog (is_too_large stringify config e) (leave s)
        (after_initial_event r.1 rest hw r.0) (HasLog-same s (leave s) (leave-SameQueue s) h)
        (sent_on (event e) s (after_initial_event r.1 rest hw r.0) h
          (after_initial_event-SameQueue r.1 rest hw r.0))
  resume_from-HasLog table (sends_initial [] hw) s h =
      let r = enqueue_incremental stringify config (cursor hw) s in
      sent_on (cursor hw) s (after_initial_cursor r.1 hw r.0) h
        (after_initial_cursor-SameQueue r.1 hw r.0)
  resume_from-HasLog table (sleeping last) s h =
      if_both HasLog s.aborted (leave s) (polled config table last s)
        (HasLog-same s (leave s) (leave-SameQueue s) h) h
  resume_from-HasLog table (sends_batch last (e ∷ rest) hw) s h =
      let r = enqueue_incremental stringify config (event e) s in
      if_both HasLog (is_too_large stringify config e) (told_too_large last hw s)
        (after_batch_event config r.1 last rest hw r.0) (told-HasLog last hw s h)
        (sent_on (event e) s (after_batch_event config r.1 last rest hw r.0) h
          (after_batch_event-SameQueue config r.1 last rest hw r.0))
  resume_from-HasLog table (sends_batch last [] hw) s h =
      let r = enqueue_incremental stringify config (cursor hw) s in
      if_both HasLog (ltb last hw) (after_batch_cursor r.1 hw r.0)
        (record s { phase = sleeping last })
        (sent_on (cursor hw) s (after_batch_cursor r.1 hw r.0) h
          (after_batch_cursor-SameQueue r.1 hw r.0))
        h
  resume_from-HasLog table ended s h = h

  ping_from-HasLog : (n : ℕ) (s : State P) → HasLog s → HasLog (ping_from stringify config n s)
  unfolding ping_from
  ping_from-HasLog zero s h = h
  ping_from-HasLog (suc n) s h =
      let r = enqueue_incremental stringify config ping s in
      sent_on ping s (after_ping r.1 n r.0) h (after_ping-SameQueue r.1 n r.0)

  poll_fails-HasLog :
      (p : Phase P) (s : State P) → HasLog s → HasLog (poll_fails stringify config p s)
  unfolding poll_fails
  poll_fails-HasLog (sleeping last) s h = HasLog-same s (leave s) (leave-SameQueue s) h
  poll_fails-HasLog (sends_initial rest hw) s h = h
  poll_fails-HasLog (sends_batch last rest hw) s h = h
  poll_fails-HasLog ended s h = h

  cleanup-HasLog : (s : State P) → HasLog s → HasLog (cleanup s)
  unfolding cleanup close
  cleanup-HasLog s (p, f) = (
    ground arith,
    close-IsFaithful (map (item_of stringify config) s.log) s.queue s.queue refl refl f,
  )

module _ {P : Type 0} (stringify : P → String) (config : SseConfig)
    (write : ℕ → String → WriteResult) where
  step-quiet :
      (e : Pump.Event) (s : State P)
      → taken config.queue write e s.queue ≡ []
      → HasLog stringify config s
      → HasLog stringify config (record s { queue = Pump.step config.queue write e s.queue })
  step-quiet e s none_taken (p, f) =
      let L = map (item_of stringify config) s.log in
      (
        step-idle config.queue write e s.queue p,
        subst (λ l. IsFaithful l (Pump.step config.queue write e s.queue))
            (ap (λ l. L ++ l) none_taken ∙ append-nil L)
            (step-IsFaithful config.queue write L e s.queue p f),
      )

  queue_step-HasLog :
      (e : Pump.Event) (s : State P)
      → HasLog stringify config s
      → HasLog stringify config (record s { queue = queue_step stringify config write e s.queue })
  unfolding taken
  queue_step-HasLog (Pump.data_frame frame c) s h = h
  queue_step-HasLog (Pump.control_frame frame) s h = step-quiet (Pump.control_frame frame) s refl h
  queue_step-HasLog Pump.runs_microtask s h = step-quiet Pump.runs_microtask s refl h
  queue_step-HasLog Pump.drains s h = step-quiet Pump.drains s refl h
  queue_step-HasLog Pump.closes s h = step-quiet Pump.closes s refl h
  queue_step-HasLog Pump.times_out s h = step-quiet Pump.times_out s refl h

  step-HasLog :
      (e : Event P) (s : State P)
      → HasLog stringify config s
      → HasLog stringify config (step stringify config write e s)
  unfolding step resume finish persist_cursor finish_rest
  step-HasLog (resumes table) s h = resume_from-HasLog stringify config table s.phase s h
  step-HasLog (queue_event e) s h = queue_step-HasLog e s h
  step-HasLog (others e) s h = h
  step-HasLog poll_failed s h = poll_fails-HasLog stringify config s.phase s h
  step-HasLog heartbeat s h = ground arith
  step-HasLog ping_resumes s h = ping_from-HasLog stringify config s.pings s h
  step-HasLog persist_fires s h = ground arith
  step-HasLog request_closes s h = ground arith
  step-HasLog finish_resumes s h =
      if_both (HasLog stringify config) s.finishing (cleanup (unregistered s)) s
        (cleanup-HasLog stringify config (unregistered s) h) h
  step-HasLog cut_off s h = cleanup-HasLog stringify config s h

  pub run-HasLog :
      (es : List (Event P)) (s : State P)
      → HasLog stringify config s
      → HasLog stringify config (run stringify config write es s)
  unfolding run
  run-HasLog [] s h = h
  run-HasLog (e ∷ es) s h = run-HasLog es (step stringify config write e s) (step-HasLog e s h)
