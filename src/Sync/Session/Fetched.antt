-- ===== src/Sync/Session/Fetched.antt =====
-- No event that a session fetched is left out, sent twice or sent out of turn.
use verilink.Base.{
  ℕ, zero, suc, ◌≡◌, refl, sym, ap, ◌∙◌, subst, ◌⊎◌, inl, inr, true, false, List, [], ◌∷◌, ◌++◌,
  append_assoc, append-nil, String, arith, Bool-cases, if_both, ltb, if◌then◌else◌,
}
use verilink.Sync.EventLog.{SyncEvent, get_poll_batch_with_high_water}
use verilink.Sync.WriteQueue.{EnqueueResult, ok, oversized, closed, full, WriteResult}
use verilink.Sync.Session.{
  SseConfig, Entry, event, cursor, ping, Phase, sends_initial, sleeping, sends_batch, ended, State,
  persist_cursor, cleanup, finish, finish_rest, leave, count_event, after_initial_event,
  after_initial_cursor, after_batch_event, after_batch_cursor, after_ping, log_if_ok,
  enqueue_incremental, is_too_large, resume_from, polled, told_too_large, resume, poll_fails,
  ping_from, Event, step, run,
}
use verilink.Sync.Session.{
  resumes, queue_event, others, poll_failed, heartbeat, ping_resumes, persist_fires, request_closes,
  finish_resumes, cut_off,
}

module _ {P : Type 0} where
  abbrev pub events : List (Entry P) → List (SyncEvent P)
  events [] = []
  events (event e ∷ es) = e ∷ events es
  events (cursor v ∷ es) = events es
  events (ping ∷ es) = events es

  abbrev pub unsent : Phase P → List (SyncEvent P)
  unsent (sends_initial rest hw) = rest
  unsent (sleeping last) = []
  unsent (sends_batch last rest hw) = rest
  unsent ended = []

  abbrev pub IsPrefix : List (SyncEvent P) → List (SyncEvent P) → Type 0
  IsPrefix xs ys = (rest : List (SyncEvent P)) × (xs ++ rest ≡ ys)

  -- The session's part in it: what was fetched is what was enqueued and what is still to be, and
  -- once the session is aborted what was enqueued comes first. `finish` leaves it aborted.
  abbrev pub IsComplete : State P → Type 0
  IsComplete s =
      ((s.cleaned ≡ false) ⊎ (s.aborted ≡ true))
      × (((s.aborted ≡ true) × IsPrefix (events s.log) s.fetched)
          ⊎ (events s.log ++ unsent s.phase ≡ s.fetched))

  events-append : (xs ys : List (Entry P)) → events (xs ++ ys) ≡ events xs ++ events ys
  events-append [] ys = refl
  events-append (event e ∷ xs) ys = ap (◌∷◌ e) (events-append xs ys)
  events-append (cursor v ∷ xs) ys = events-append xs ys
  events-append (ping ∷ xs) ys = events-append xs ys

  leave-aborts :
      (s : State P)
      → (s.cleaned ≡ false) ⊎ (s.aborted ≡ true)
      → ((leave s).aborted ≡ true) × ((leave s).log ≡ s.log) × ((leave s).fetched ≡ s.fetched)
  unfolding leave finish persist_cursor
  leave-aborts s h = ground arith

  leave-IsComplete :
      (s : State P)
      → (s.cleaned ≡ false) ⊎ (s.aborted ≡ true)
      → IsPrefix (events s.log) s.fetched
      → IsComplete (leave s)
  leave-IsComplete s h p = let (a, l, f) = leave-aborts s h in (inr a, inl (a, rw (l, f) p))

  -- The state after an answer about the entry `e`, in a session that was not aborted.
  record Asked (r : EnqueueResult) (e : Entry P) (log : List (Entry P)) (p : Phase P) (s : State P)
      : Type 0 where
    logged : s.log ≡ log_if_ok r e log
    waits : s.phase ≡ p
    total : events log ++ unsent p ≡ s.fetched
    clean : (s.cleaned ≡ false) ⊎ (s.aborted ≡ true)

  module _ (e : Entry P) (log : List (Entry P)) (p : Phase P) (s : State P) where
    Asked-ok :
        (rest : List (SyncEvent P))
        → unsent p ≡ events (e ∷ []) ++ rest
        → Asked ok e log p s
        → events s.log ++ rest ≡ s.fetched
    Asked-ok rest k a =
        ap (λ l. events l ++ rest) a.logged
        ∙ ap (λ l. l ++ rest) (events-append log (e ∷ []))
        ∙ append_assoc (events log) (events (e ∷ [])) rest
        ∙ ap (λ l. events log ++ l) (sym k)
        ∙ a.total

    Asked-full : Asked full e log p s → IsComplete s
    Asked-full a = (a.clean, inr (rw (a.logged, a.waits) a.total))

    Asked-closed : Asked closed e log p s → IsPrefix (events s.log) s.fetched
    Asked-closed a = (unsent p, rw a.logged a.total)

    Asked-oversized : Asked oversized e log p s → IsPrefix (events s.log) s.fetched
    Asked-oversized a = (unsent p, rw a.logged a.total)

  count_event-IsComplete :
      (config : SseConfig) (s : State P) → IsComplete s → IsComplete (count_event config s)
  unfolding count_event persist_cursor
  count_event-IsComplete config s h = if_both IsComplete _ _ _ h h

  module _ (log : List (Entry P)) (s : State P) where
    after_initial_event-IsComplete :
        (r : EnqueueResult) (e : SyncEvent P) (rest : List (SyncEvent P)) (hw : ℕ)
        → Asked r (event e) log (sends_initial (e ∷ rest) hw) s
        → IsComplete (after_initial_event r rest hw s)
    unfolding after_initial_event
    after_initial_event-IsComplete ok e rest hw a =
        (a.clean, inr (Asked-ok (event e) log _ s rest refl a))
    after_initial_event-IsComplete full e rest hw a = Asked-full (event e) log _ s a
    after_initial_event-IsComplete closed e rest hw a =
        leave-IsComplete s a.clean (Asked-closed (event e) log _ s a)
    after_initial_event-IsComplete oversized e rest hw a =
        leave-IsComplete s a.clean (Asked-oversized (event e) log _ s a)

    after_initial_cursor-IsComplete :
        (r : EnqueueResult) (hw : ℕ)
        → Asked r (cursor hw) log (sends_initial [] hw) s
        → IsComplete (after_initial_cursor r hw s)
    unfolding after_initial_cursor
    after_initial_cursor-IsComplete ok hw a =
        (a.clean, inr (Asked-ok (cursor hw) log _ s [] refl a))
    after_initial_cursor-IsComplete full hw a = Asked-full (cursor hw) log _ s a
    after_initial_cursor-IsComplete closed hw a =
        leave-IsComplete s a.clean (Asked-closed (cursor hw) log _ s a)
    after_initial_cursor-IsComplete oversized hw a =
        leave-IsComplete s a.clean (Asked-oversized (cursor hw) log _ s a)

    after_batch_event-IsComplete :
        (config : SseConfig) (r : EnqueueResult) (last : ℕ) (e : SyncEvent P)
        (rest : List (SyncEvent P)) (hw : ℕ)
        → Asked r (event e) log (sends_batch last (e ∷ rest) hw) s
        → IsComplete (after_batch_event config r last rest hw s)
    unfolding after_batch_event
    after_batch_event-IsComplete config ok last e rest hw a =
        count_event-IsComplete config (record s { phase = sends_batch last rest hw })
          (a.clean, inr (Asked-ok (event e) log _ s rest refl a))
    after_batch_event-IsComplete config full last e rest hw a = Asked-full (event e) log _ s a
    after_batch_event-IsComplete config closed last e rest hw a =
        (inr refl, inl (refl, Asked-closed (event e) log _ s a))
    after_batch_event-IsComplete config oversized last e rest hw a =
        (inr refl, inl (refl, Asked-oversized (event e) log _ s a))

    after_batch_cursor-IsComplete :
        (r : EnqueueResult) (last hw : ℕ)
        → Asked r (cursor hw) log (sends_batch last [] hw) s
        → IsComplete (after_batch_cursor r hw s)
    unfolding after_batch_cursor
    after_batch_cursor-IsComplete ok last hw a =
        (a.clean, inr (Asked-ok (cursor hw) log _ s [] refl a))
    after_batch_cursor-IsComplete full last hw a = Asked-full (cursor hw) log _ s a
    after_batch_cursor-IsComplete closed last hw a =
        leave-IsComplete (record s { aborted = true }) (inr refl)
          (Asked-closed (cursor hw) log _ s a)
    after_batch_cursor-IsComplete oversized last hw a =
        leave-IsComplete (record s { aborted = true }) (inr refl)
          (Asked-oversized (cursor hw) log _ s a)

  -- Nothing is enqueued or fetched any more.
  abbrev IsFrozen : State P → State P → Type 0
  IsFrozen s s' = (s'.log ≡ s.log) × (s'.fetched ≡ s.fetched) × (s'.aborted ≡ true)

  leave-IsFrozen : (s : State P) → s.aborted ≡ true → IsFrozen s (leave s)
  leave-IsFrozen s h = let (a, l, f) = leave-aborts s (inr h) in (l, f, a)

module _ {P : Type 0} (stringify : P → String) (config : SseConfig) where
  pub aborted-closed :
      (e : Entry P) (s : State P)
      → s.aborted ≡ true
      → enqueue_incremental stringify config e s ≡ (s, closed)
  unfolding enqueue_incremental
  aborted-closed e s h = rw (h, enqueue_incremental) refl

  resume_from-IsFrozen :
      (table : List (SyncEvent P)) (p : Phase P) (s : State P)
      → s.aborted ≡ true
      → IsFrozen s (resume_from stringify config table p s)
  unfolding resume_from after_initial_event after_initial_cursor after_batch_event
      after_batch_cursor told_too_large
  resume_from-IsFrozen table (sends_initial (e ∷ rest) hw) s h =
      if_both (IsFrozen s) _ _ _ (leave-IsFrozen s h) (
        subst (λ r. IsFrozen s (after_initial_event r.1 rest hw r.0))
          (sym (aborted-closed (event e) s h)) (leave-IsFrozen s h))
  resume_from-IsFrozen table (sends_initial [] hw) s h =
      subst (λ r. IsFrozen s (after_initial_cursor r.1 hw r.0))
        (sym (aborted-closed (cursor hw) s h)) (leave-IsFrozen s h)
  resume_from-IsFrozen table (sleeping last) s h =
      subst (λ b. IsFrozen s (if b then leave s else polled config table last s)) (sym h)
        (leave-IsFrozen s h)
  resume_from-IsFrozen table (sends_batch last (e ∷ rest) hw) s h =
      if_both (IsFrozen s) _ _ _ (refl, refl, refl)
        (subst (λ r. IsFrozen s (after_batch_event config r.1 last rest hw r.0))
          (sym (aborted-closed (event e) s h)) (refl, refl, refl))
  resume_from-IsFrozen table (sends_batch last [] hw) s h =
      if_both (IsFrozen s) _ _ _
        (subst (λ r. IsFrozen s (after_batch_cursor r.1 hw r.0))
          (sym (aborted-closed (cursor hw) s h))
          (leave-IsFrozen (record s { aborted = true }) refl))
        (refl, refl, h)
  resume_from-IsFrozen table ended s h = (refl, refl, h)

  enqueue_incremental-keeps :
      (e : Entry P) (s : State P)
      → let r = enqueue_incremental stringify config e s in
        (r.0.log ≡ log_if_ok r.1 e s.log)
        × (r.0.phase ≡ s.phase)
        × (r.0.fetched ≡ s.fetched)
        × (r.0.cleaned ≡ s.cleaned)
        × (r.0.aborted ≡ s.aborted)
  unfolding enqueue_incremental
  enqueue_incremental-keeps e s = elim (Bool-cases s.aborted) [
    | inl a ↦ rw a (refl, refl, refl, refl, refl)
    | inr a ↦ rw a (refl, refl, refl, refl, refl)
  ]

  asked :
      (e : Entry P) (p : Phase P) (s : State P)
      → s.phase ≡ p
      → (s.cleaned ≡ false) ⊎ (s.aborted ≡ true)
      → events s.log ++ unsent s.phase ≡ s.fetched
      → let r = enqueue_incremental stringify config e s in Asked r.1 e s.log p r.0
  asked e p s k c h =
      let (l, w, f, cl, ab) = enqueue_incremental-keeps e s in
      record {
        logged = l;
        waits = w ∙ k;
        total = subst (λ p. events s.log ++ unsent p ≡ s.fetched) k h ∙ sym f;
        clean = rw (cl, ab) c;
      }

  resume_from-total :
      (table : List (SyncEvent P)) (p : Phase P) (s : State P)
      → s.phase ≡ p
      → (s.cleaned ≡ false) ⊎ (s.aborted ≡ true)
      → events s.log ++ unsent s.phase ≡ s.fetched
      → IsComplete (resume_from stringify config table p s)
  unfolding resume_from polled told_too_large
  resume_from-total table (sends_initial (e ∷ rest) hw) s k c h =
      let r = enqueue_incremental stringify config (event e) s in
      if_both IsComplete (is_too_large stringify config e) (leave s)
        (after_initial_event r.1 rest hw r.0) (leave-IsComplete s c (unsent s.phase, h))
        (after_initial_event-IsComplete s.log r.0 r.1 e rest hw
          (asked (event e) (sends_initial (e ∷ rest) hw) s k c h))
  resume_from-total table (sends_initial [] hw) s k c h =
      let r = enqueue_incremental stringify config (cursor hw) s in
      after_initial_cursor-IsComplete s.log r.0 r.1 hw
        (asked (cursor hw) (sends_initial [] hw) s k c h)
  resume_from-total table (sleeping last) s k c h =
      let b = get_poll_batch_with_high_water table last s.tenant_id config.max_initial_batch in
      let all : events s.log ≡ s.fetched =
        sym (append-nil (events s.log)) ∙ subst (λ p. events s.log ++ unsent p ≡ s.fetched) k h in
      if_both IsComplete s.aborted (leave s) (polled config table last s)
        (leave-IsComplete s c (unsent s.phase, h)) (c, inr (ap (λ l. l ++ b.events) all))
  resume_from-total table (sends_batch last (e ∷ rest) hw) s k c h =
      let r = enqueue_incremental stringify config (event e) s in
      if_both IsComplete (is_too_large stringify config e) (told_too_large last hw s)
        (after_batch_event config r.1 last rest hw r.0) (inr refl, inl (refl, (unsent s.phase, h)))
        (after_batch_event-IsComplete s.log r.0 config r.1 last e rest hw
          (asked (event e) (sends_batch last (e ∷ rest) hw) s k c h))
  resume_from-total table (sends_batch last [] hw) s k c h =
      let r = enqueue_incremental stringify config (cursor hw) s in
      if_both IsComplete (ltb last hw) (after_batch_cursor r.1 hw r.0)
        (record s { phase = sleeping last })
        (after_batch_cursor-IsComplete s.log r.0 r.1 last hw
          (asked (cursor hw) (sends_batch last [] hw) s k c h))
        (c, inr (subst (λ p. events s.log ++ unsent p ≡ s.fetched) k h))
  resume_from-total table ended s k c h = (c, inr h)

  -- A step that only aborts, or after which the session stays aborted.
  frozen : (s s' : State P) → IsFrozen s s' → IsPrefix (events s.log) s.fetched → IsComplete s'
  frozen s s' (l, f, a) p = (inr a, inl (a, rw (l, f) p))

  prefix_of : (s : State P) → IsComplete s → IsPrefix (events s.log) s.fetched
  prefix_of s (c, inl (a, p)) = p
  prefix_of s (c, inr h) = (unsent s.phase, h)

  resume-IsComplete :
      (table : List (SyncEvent P)) (s : State P)
      → IsComplete s
      → IsComplete (resume stringify config table s)
  unfolding resume
  resume-IsComplete table s (c, inl (a, p)) =
      frozen s (resume stringify config table s) (resume_from-IsFrozen table s.phase s a) p
  resume-IsComplete table s (c, inr h) = resume_from-total table s.phase s refl c h

  after_ping-IsComplete :
      (r : EnqueueResult) (n : ℕ) (s s' : State P)
      → IsComplete s
      → s'.log ≡ log_if_ok r ping s.log
      → s'.phase ≡ s.phase
      → s'.fetched ≡ s.fetched
      → s'.cleaned ≡ s.cleaned
      → s'.aborted ≡ s.aborted
      → IsComplete (after_ping r n s')
  after_ping-IsComplete ok n s s' h l p f c a =
      rw (l, p, f, c, a, events-append s.log (ping ∷ []), append-nil (events s.log)) h
  after_ping-IsComplete full n s s' h l p f c a = rw (l, p, f, c, a) h
  after_ping-IsComplete closed n s s' h l p f c a = rw (l, p, f, c, a) h
  after_ping-IsComplete oversized n s s' h l p f c a = rw (l, p, f, c, a) h

  ping_from-IsComplete :
      (n : ℕ) (s : State P) → IsComplete s → IsComplete (ping_from stringify config n s)
  unfolding ping_from
  ping_from-IsComplete zero s h = h
  ping_from-IsComplete (suc n) s h =
      let r = enqueue_incremental stringify config ping s in
      let (l, p, f, c, a) = enqueue_incremental-keeps ping s in
      after_ping-IsComplete r.1 n s r.0 h l p f c a

  poll_fails-IsComplete :
      (p : Phase P) (s : State P) → IsComplete s → IsComplete (poll_fails stringify config p s)
  unfolding poll_fails
  poll_fails-IsComplete (sleeping last) s h = leave-IsComplete s h.0 (prefix_of s h)
  poll_fails-IsComplete (sends_initial rest hw) s h = h
  poll_fails-IsComplete (sends_batch last rest hw) s h = h
  poll_fails-IsComplete ended s h = h

  finish-IsComplete : (s : State P) → IsComplete s → IsComplete (finish s)
  unfolding finish persist_cursor
  finish-IsComplete s h = if_both IsComplete s.cleaned s _ h (inr refl, inl (refl, prefix_of s h))

  step-IsComplete :
      (write : ℕ → String → WriteResult) (e : Event P) (s : State P)
      → IsComplete s
      → IsComplete (step stringify config write e s)
  unfolding step persist_cursor finish_rest cleanup
  step-IsComplete write (resumes table) s h = resume-IsComplete table s h
  step-IsComplete write (queue_event e) s h = h
  step-IsComplete write (others e) s h = h
  step-IsComplete write poll_failed s h = poll_fails-IsComplete s.phase s h
  step-IsComplete write heartbeat s h = if_both IsComplete s.heartbeat_timer _ _ h h
  step-IsComplete write ping_resumes s h = ping_from-IsComplete s.pings s h
  step-IsComplete write persist_fires s h = if_both IsComplete s.persist_timer _ _ h h
  step-IsComplete write request_closes s h = finish-IsComplete s h
  step-IsComplete write finish_resumes s h = if_both IsComplete s.finishing _ _ h h
  step-IsComplete write cut_off s h = (inr refl, inl (refl, prefix_of s h))

  pub run-IsComplete :
      (write : ℕ → String → WriteResult) (es : List (Event P)) (s : State P)
      → IsComplete s
      → IsComplete (run stringify config write es s)
  unfolding run
  run-IsComplete write [] s h = h
  run-IsComplete write (e ∷ es) s h =
      run-IsComplete write es (step stringify config write e s) (step-IsComplete write e s h)
