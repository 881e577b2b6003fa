-- ===== src/Sync/Session/Ending.antt =====
-- How a session ends: what holds once `finish` has run, and before.
pub mod Gone
pub mod Still
pub mod Over
pub mod Early
pub mod Closing
use verilink.Base.{
  ℕ, zero, suc, ◌+◌, ◌≤◌, ◌≡◌, refl, sym, ◌∙◌, subst, ◌⊎◌, inl, inr, Bool, true, false, not, List,
  [], ◌∷◌, ◌++◌, String, arith, Bool-cases, if_both, if◌then◌else◌, any, keep, ◌==◌,
}
use verilink.Sync.EventLog.{SyncEvent}
use verilink.Sync.WriteQueue.{
  EnqueueResult, ok, oversized, closed, full, WriteResult, Queue, close, enqueue_control,
  slow_timer_fires,
}
use verilink.Sync.Registry.{SseRegistry, SseConnection, unregister, close_all, try_register}
use verilink.Sync.Registry
use verilink.Sync.Session.{
  SseConfig, Entry, event, cursor, ping, Phase, sends_initial, sleeping, sends_batch, ended, State,
  persist_cursor, cleanup, unregistered, finish, finish_rest, leave, count_event,
  after_initial_event, after_initial_cursor, after_batch_event, after_batch_cursor, after_ping,
  enqueue_incremental, resume_from, polled, told_too_large, resume, poll_fails, ping_from, Event,
  step, run,
}
use verilink.Sync.Session.{
  resumes, queue_event, others, poll_failed, heartbeat, ping_resumes, persist_fires, request_closes,
  finish_resumes, cut_off,
}
use verilink.Sync.WriteQueue.Pump
use verilink.Sync.Session.{queue_step}
use verilink.Sync.Session.Ending.Gone.{
  pump_all-closed, run_microtask-closed, reset_inflight-closed, close-closed, any-without, IsGone,
  step-IsGone,
}

module _ {P : Type 0} where
  -- The timers are off, the queue is closed, and the registry has let go of the connection.
  pub record IsOver (s : State P) : Type 0 where
    pub cleaned : s.cleaned ≡ true
    pub aborted : s.aborted ≡ true
    pub finished : s.finishing ≡ false
    pub heartbeat_off : s.heartbeat_timer ≡ false
    pub persist_off : s.persist_timer ≡ false
    pub queue_closed : s.queue.is_closed ≡ true
    pub gone : IsGone s.conn_id s.registry

  pub over :
      {s : State P}
      → s.cleaned ≡ true
      → s.aborted ≡ true
      → s.finishing ≡ false
      → s.heartbeat_timer ≡ false
      → s.persist_timer ≡ false
      → s.queue.is_closed ≡ true
      → IsGone s.conn_id s.registry
      → IsOver s
  over c a f h p q g = record {
    cleaned = c;
    aborted = a;
    finished = f;
    heartbeat_off = h;
    persist_off = p;
    queue_closed = q;
    gone = g;
  }

  -- Only the phase and the counters differ.
  pub record IsStill (s s' : State P) : Type 0 where
    pub cleaned : s'.cleaned ≡ s.cleaned
    pub aborted : s'.aborted ≡ true
    pub finished : s'.finishing ≡ s.finishing
    pub heartbeat_off : s'.heartbeat_timer ≡ s.heartbeat_timer
    pub persist_off : s'.persist_timer ≡ s.persist_timer
    pub queue_closed : s'.queue.is_closed ≡ s.queue.is_closed
    pub conn : s'.conn_id ≡ s.conn_id
    pub registry : s'.registry ≡ s.registry

  pub still-IsOver : (s s' : State P) → IsStill s s' → IsOver s → IsOver s'
  still-IsOver s s' t h = record {
    cleaned = t.cleaned ∙ h.cleaned;
    aborted = t.aborted;
    finished = t.finished ∙ h.finished;
    heartbeat_off = t.heartbeat_off ∙ h.heartbeat_off;
    persist_off = t.persist_off ∙ h.persist_off;
    queue_closed = t.queue_closed ∙ h.queue_closed;
    gone = rw (t.conn, t.registry) h.gone;
  }

  pub finish-cleaned : (s : State P) → s.cleaned ≡ true → finish s ≡ s
  unfolding finish
  finish-cleaned s c = rw (c, finish) refl

  pub finish-opened :
      (s : State P)
      → s.cleaned ≡ false
      → ((finish s).cleaned ≡ true)
        × ((finish s).aborted ≡ true)
        × ((finish s).finishing ≡ true)
        × ((finish s).conn_id ≡ s.conn_id)
        × ((finish s).registry ≡ s.registry)
  unfolding finish persist_cursor
  finish-opened s c = rw c (refl, refl, refl, refl, refl)

  leave-cleaned : (s : State P) → s.cleaned ≡ true → leave s ≡ record s { phase = ended }
  unfolding leave finish
  leave-cleaned s c = rw (c, leave) refl

  pub leave-IsStill : (s : State P) → s.cleaned ≡ true → s.aborted ≡ true → IsStill s (leave s)
  leave-IsStill s c a = subst (IsStill s) (sym (leave-cleaned s c)) (record {
    cleaned = refl;
    aborted = a;
    finished = refl;
    heartbeat_off = refl;
    persist_off = refl;
    queue_closed = refl;
    conn = refl;
    registry = refl;
  })

  pub abort_first : (s s' : State P) → IsStill (record s { aborted = true }) s' → IsStill s s'
  abort_first s s' t = record {
    cleaned = t.cleaned;
    aborted = t.aborted;
    finished = t.finished;
    heartbeat_off = t.heartbeat_off;
    persist_off = t.persist_off;
    queue_closed = t.queue_closed;
    conn = t.conn;
    registry = t.registry;
  }

  pub same-IsStill :
      (s s' : State P)
      → s.aborted ≡ true
      → s' ≡ record s { phase = s'.phase; pings = s'.pings }
      → IsStill s s'
  same-IsStill s s' a e = subst (IsStill s) (sym e) (record {
    cleaned = refl;
    aborted = a;
    finished = refl;
    heartbeat_off = refl;
    persist_off = refl;
    queue_closed = refl;
    conn = refl;
    registry = refl;
  })

  -- The id of the session was given out, and the session goes on, or `finish` awaits, or it is over.
  abbrev pub IsSound : State P → Type 0
  IsSound s =
      (s.conn_id + 1 ≤ s.registry.next_id)
      × (((s.cleaned ≡ false) × (s.finishing ≡ false))
          ⊎ ((s.cleaned ≡ true) × (s.aborted ≡ true) × (s.finishing ≡ true))
          ⊎ IsOver s)

  -- The same, of a session that `finish` has begun to end.
  abbrev pub IsClosing : State P → Type 0
  IsClosing s =
      (s.conn_id + 1 ≤ s.registry.next_id)
      × (((s.cleaned ≡ true) × (s.aborted ≡ true) × (s.finishing ≡ true)) ⊎ IsOver s)
