-- ===== src/Sync/Session/Ending/Over.antt =====
-- The steps of a session that is over.
use verilink.Base.{ℕ, ◌+◌, ◌≡◌, refl, sym, subst, true, List, [], ◌∷◌, String, arith, if◌then◌else◌}
use verilink.Sync.WriteQueue.{WriteResult, Queue, close, enqueue_control, slow_timer_fires}
use verilink.Sync.Registry.{close_all}
use verilink.Sync.Session.{
  SseConfig, State, persist_cursor, cleanup, unregistered, finish, finish_rest, resume, Event, step,
  run,
}
use verilink.Sync.Session.{
  resumes, queue_event, others, poll_failed, heartbeat, ping_resumes, persist_fires, request_closes,
  finish_resumes, cut_off,
}
use verilink.Sync.WriteQueue.Pump
use verilink.Sync.Session.{queue_step}
use verilink.Sync.Session.Ending.Gone.{
  pump_all-closed, run_microtask-closed, reset_inflight-closed, close-closed, step-IsGone,
}
use verilink.Sync.Session.Ending.{IsOver, over, still-IsOver, finish-cleaned}
use verilink.Sync.Session.Ending.Still.{resume_from-IsStill, ping_from-IsStill, poll_fails-IsStill}

module _ {P : Type 0} (stringify : P → String) (config : SseConfig)
    (write : ℕ → String → WriteResult) where
  queue_step-closed :
      (e : Pump.Event) (q : Queue)
      → q.is_closed ≡ true
      → (queue_step stringify config write e q).is_closed ≡ true
  unfolding Pump.step Pump.microtask Pump.drained enqueue_control close slow_timer_fires
  queue_step-closed (Pump.data_frame frame c) q h = h
  queue_step-closed (Pump.control_frame frame) q h = ground arith
  queue_step-closed Pump.runs_microtask q h = run_microtask-closed write q.microtasks q h
  queue_step-closed Pump.drains q h =
      pump_all-closed write (Pump.reset_inflight q) (reset_inflight-closed q h)
  queue_step-closed Pump.closes q h = ground arith
  queue_step-closed Pump.times_out q h = ground arith

  pub step-IsOver :
      (e : Event P) (s : State P) → IsOver s → IsOver (step stringify config write e s)
  unfolding step resume finish finish_rest persist_cursor cleanup close_all
  step-IsOver (resumes table) s h =
      still-IsOver s _ (resume_from-IsStill stringify config table s.phase s h.cleaned h.aborted) h
  step-IsOver (queue_event e) s h =
      over h.cleaned h.aborted h.finished h.heartbeat_off h.persist_off
        (queue_step-closed e s.queue h.queue_closed) h.gone
  step-IsOver (others e) s h =
      over h.cleaned h.aborted h.finished h.heartbeat_off h.persist_off h.queue_closed
        (step-IsGone e s.conn_id s.registry h.gone)
  step-IsOver poll_failed s h =
      still-IsOver s _ (poll_fails-IsStill stringify config s.phase s h.cleaned h.aborted) h
  step-IsOver heartbeat s h =
      subst (λ b. IsOver (if b then record s { pings = s.pings + 1 } else s)) (sym h.heartbeat_off)
        h
  step-IsOver ping_resumes s h =
      still-IsOver s _ (ping_from-IsStill stringify config s.pings s h.aborted) h
  step-IsOver persist_fires s h =
      subst (λ b. IsOver (if b then persist_cursor s else s)) (sym h.persist_off) h
  step-IsOver request_closes s h = subst IsOver (sym (finish-cleaned s h.cleaned)) h
  step-IsOver finish_resumes s h =
      subst (λ b. IsOver (if b then cleanup (unregistered s) else s)) (sym h.finished) h
  step-IsOver cut_off s h =
      over h.cleaned refl h.finished refl refl (close-closed s.queue) (refl, h.gone.1)

  pub run-IsOver :
      (es : List (Event P)) (s : State P) → IsOver s → IsOver (run stringify config write es s)
  unfolding run
  run-IsOver [] s h = h
  run-IsOver (e ∷ es) s h = run-IsOver es (step stringify config write e s) (step-IsOver e s h)
