-- ===== src/Sync/Session/Order.antt =====
-- The order of what a session sends.
use verilink.Base.{
  ℕ, zero, suc, ◌≡◌, refl, sym, ap, ◌∙◌, subst, inl, inr, true, List, [], ◌∷◌, ◌++◌, append_assoc,
  append-nil, max, String, arith, Bool-cases, if_both, ltb, if◌then◌else◌, IsAscending,
  IsAscending-prefix, IsAscending-without, IsAscending-on,
}
use verilink.Sync.EventLog.{SyncEvent}
use verilink.Sync.EventLog.Sorted.{versions, poll-IsAscending}
use verilink.Sync.WriteQueue.{EnqueueResult, ok, oversized, closed, full, WriteResult}
use verilink.Sync.Session.{
  SseConfig, Entry, event, cursor, ping, Phase, sends_initial, sleeping, sends_batch, ended, State,
  persist_cursor, cleanup, finish, finish_rest, leave, count_event, after_initial_event,
  after_initial_cursor, after_batch_event, after_batch_cursor, after_ping, log_if_ok,
  enqueue_incremental, is_too_large, resume_from, polled, told_too_large, resume, poll_fails,
  ping_from, Event, step, run,
}
use verilink.Sync.Session.{
  resumes, queue_event, others, poll_failed, heartbeat, ping_resumes, persist_fires, request_closes,
  finish_resumes, cut_off,
}

module _ {P : Type 0} where
  -- The ids of what was enqueued.
  abbrev pub ids : List (Entry P) → List ℕ
  ids [] = []
  ids (event e ∷ es) = e.sync_version ∷ ids es
  ids (cursor v ∷ es) = v ∷ ids es
  ids (ping ∷ es) = ids es

  -- The ids that a phase is still to send, and a bound of those before the next poll.
  abbrev pub pending : Phase P → List ℕ
  pending (sends_initial rest hw) = versions rest ++ hw ∷ []
  pending (sleeping last) = last ∷ []
  pending (sends_batch last rest hw) = versions rest ++ max last hw ∷ []
  pending ended = []

  abbrev pub InOrder : State P → Type 0
  InOrder s = IsAscending (ids s.log ++ pending s.phase)

  ids-append : (xs ys : List (Entry P)) → ids (xs ++ ys) ≡ ids xs ++ ids ys
  ids-append [] ys = refl
  ids-append (event e ∷ xs) ys = ap (◌∷◌ e.sync_version) (ids-append xs ys)
  ids-append (cursor v ∷ xs) ys = ap (◌∷◌ v) (ids-append xs ys)
  ids-append (ping ∷ xs) ys = ids-append xs ys

  -- What comes next is sent.
  sent_next :
      (log : List (Entry P)) (e : Entry P) (rest : List ℕ)
      → IsAscending (ids log ++ (ids (e ∷ []) ++ rest))
      → IsAscending (ids (log ++ e ∷ []) ++ rest)
  sent_next log e rest h =
      subst IsAscending
        (sym (append_assoc (ids log) (ids (e ∷ [])) rest)
          ∙ ap (λ l. l ++ rest) (sym (ids-append log (e ∷ []))))
        h

  leave-log : (s : State P) → (leave s).log ≡ s.log
  unfolding leave finish persist_cursor
  leave-log s = ground arith

  leave-phase : (s : State P) → (leave s).phase ≡ ended
  unfolding leave
  leave-phase s = refl

  leave-InOrder : (s : State P) (ys : List ℕ) → IsAscending (ids s.log ++ ys) → InOrder (leave s)
  leave-InOrder s ys h =
      rw (leave-log s, leave-phase s, append-nil (ids s.log)) (IsAscending-prefix (ids s.log) ys h)

  -- The states after an answer of the queue about the entry `e`, which was to be sent next.
  record Asked (r : EnqueueResult) (e : Entry P) (rest : List ℕ) (log : List (Entry P))
      (p : Phase P) (s : State P) : Type 0 where
    logged : s.log ≡ log_if_ok r e log
    waits : s.phase ≡ p
    to_send : pending p ≡ ids (e ∷ []) ++ rest
    in_order : IsAscending (ids log ++ pending p)

  module _ (e : Entry P) (rest : List ℕ) (log : List (Entry P)) (p : Phase P) (s : State P) where
    Asked-ok : Asked ok e rest log p s → IsAscending (ids s.log ++ rest)
    Asked-ok a =
        subst (λ l. IsAscending (ids l ++ rest)) (sym a.logged)
          (sent_next log e rest (subst (λ l. IsAscending (ids log ++ l)) a.to_send a.in_order))

    Asked-full : Asked full e rest log p s → InOrder s
    Asked-full a = rw (a.logged, a.waits) a.in_order

    Asked-closed : Asked closed e rest log p s → IsAscending (ids s.log ++ pending p)
    Asked-closed a = rw a.logged a.in_order

    Asked-oversized : Asked oversized e rest log p s → IsAscending (ids s.log ++ pending p)
    Asked-oversized a = rw a.logged a.in_order

  -- A cursor that is sent is the bound of what follows.
  sent_last :
      (hw : ℕ) (log : List (Entry P)) (p : Phase P) (s : State P)
      → Asked ok (cursor hw) [] log p s
      → IsAscending (ids s.log ++ hw ∷ [])
  sent_last hw log p s a =
      let here : IsAscending (ids log ++ hw ∷ []) =
        subst (λ l. IsAscending (ids log ++ l)) a.to_send a.in_order in
      subst (λ l. IsAscending (ids l ++ hw ∷ [])) (sym a.logged)
        (sent_next log (cursor hw) (hw ∷ []) (
          IsAscending-on (ids log) (hw ∷ hw ∷ []) hw here (omega arith, (omega arith, tt))
            ((omega arith, tt), (tt, tt))))

  count_event-same :
      (config : SseConfig) (s : State P)
      → ((count_event config s).log ≡ s.log) × ((count_event config s).phase ≡ s.phase)
  unfolding count_event persist_cursor
  count_event-same config s = ground arith

  -- The rest of a batch is dropped.
  dropped :
      (config : SseConfig) (last : ℕ) (rest : List (SyncEvent P)) (hw : ℕ) (s : State P)
      → IsAscending (ids s.log ++ (versions rest ++ max last hw ∷ []))
      → InOrder (record s { aborted = true; phase = sends_batch last [] hw })
  dropped config last rest hw s h =
      IsAscending-without (ids s.log) (versions rest) (max last hw ∷ []) h

  module _ (log : List (Entry P)) (s : State P) where
    after_initial_event-InOrder :
        (r : EnqueueResult) (e : SyncEvent P) (rest : List (SyncEvent P)) (hw : ℕ)
        → Asked r (event e) (versions rest ++ hw ∷ []) log (sends_initial (e ∷ rest) hw) s
        → InOrder (after_initial_event r rest hw s)
    unfolding after_initial_event
    after_initial_event-InOrder ok e rest hw a = Asked-ok _ _ _ _ s a
    after_initial_event-InOrder full e rest hw a = Asked-full _ _ _ _ s a
    after_initial_event-InOrder closed e rest hw a = leave-InOrder s _ (Asked-closed _ _ _ _ s a)
    after_initial_event-InOrder oversized e rest hw a =
        leave-InOrder s _ (Asked-oversized _ _ _ _ s a)

    after_initial_cursor-InOrder :
        (r : EnqueueResult) (hw : ℕ)
        → Asked r (cursor hw) [] log (sends_initial [] hw) s
        → InOrder (after_initial_cursor r hw s)
    unfolding after_initial_cursor
    after_initial_cursor-InOrder ok hw a = sent_last hw log _ s a
    after_initial_cursor-InOrder full hw a = Asked-full _ _ _ _ s a
    after_initial_cursor-InOrder closed hw a = leave-InOrder s _ (Asked-closed _ _ _ _ s a)
    after_initial_cursor-InOrder oversized hw a = leave-InOrder s _ (Asked-oversized _ _ _ _ s a)

    after_batch_event-InOrder :
        (config : SseConfig) (r : EnqueueResult) (last : ℕ) (e : SyncEvent P)
        (rest : List (SyncEvent P)) (hw : ℕ)
        → Asked r
            (event e)
            (versions rest ++ max last hw ∷ [])
            log
            (sends_batch last (e ∷ rest) hw)
            s
        → InOrder (after_batch_event config r last rest hw s)
    unfolding after_batch_event
    after_batch_event-InOrder config ok last e rest hw a =
        let (l, p) = count_event-same config (record s { phase = sends_batch last rest hw }) in
        rw (l, p) (Asked-ok _ _ _ _ s a)
    after_batch_event-InOrder config full last e rest hw a = Asked-full _ _ _ _ s a
    after_batch_event-InOrder config closed last e rest hw a =
        dropped config last (e ∷ rest) hw s (Asked-closed _ _ _ _ s a)
    after_batch_event-InOrder config oversized last e rest hw a =
        dropped config last (e ∷ rest) hw s (Asked-oversized _ _ _ _ s a)

    after_batch_cursor-InOrder :
        (r : EnqueueResult) (last hw : ℕ)
        → Asked r (cursor hw) [] log (sends_batch last [] hw) s
        → InOrder (after_batch_cursor r hw s)
    unfolding after_batch_cursor
    after_batch_cursor-InOrder ok last hw a = sent_last hw log _ s a
    after_batch_cursor-InOrder full last hw a = Asked-full _ _ _ _ s a
    after_batch_cursor-InOrder closed last hw a =
        leave-InOrder (record s { aborted = true }) _ (Asked-closed _ _ _ _ s a)
    after_batch_cursor-InOrder oversized last hw a =
        leave-InOrder (record s { aborted = true }) _ (Asked-oversized _ _ _ _ s a)

module _ {P : Type 0} (stringify : P → String) (config : SseConfig) where
  -- What `enqueueIncremental` does to the log, and that it leaves the phase.
  pub enqueue_incremental-logs :
      (e : Entry P) (s : State P)
      → let r = enqueue_incremental stringify config e s in
        (r.0.log ≡ log_if_ok r.1 e s.log) × (r.0.phase ≡ s.phase)
  unfolding enqueue_incremental
  enqueue_incremental-logs e s = elim (Bool-cases s.aborted) [
    | inl a ↦ rw a (refl, refl)
    | inr a ↦ rw a (refl, refl)
  ]

  asked :
      (e : Entry P) (rest : List ℕ) (p : Phase P) (s : State P)
      → s.phase ≡ p
      → pending p ≡ ids (e ∷ []) ++ rest
      → InOrder s
      → let r = enqueue_incremental stringify config e s in Asked r.1 e rest s.log p r.0
  asked e rest p s k to_send h = record {
    logged = (enqueue_incremental-logs e s).0;
    waits = (enqueue_incremental-logs e s).1 ∙ k;
    to_send = to_send;
    in_order = subst (λ p. IsAscending (ids s.log ++ pending p)) k h;
  }

  resume_from-InOrder :
      (table : List (SyncEvent P)) (p : Phase P) (s : State P)
      → s.phase ≡ p
      → InOrder s
      → InOrder (resume_from stringify config table p s)
  unfolding resume_from polled told_too_large
  resume_from-InOrder table (sends_initial (e ∷ rest) hw) s k h =
      let r = enqueue_incremental stringify config (event e) s in
      if_both InOrder (is_too_large stringify config e) (leave s)
        (after_initial_event r.1 rest hw r.0) (leave-InOrder s (pending s.phase) h)
        (after_initial_event-InOrder s.log r.0 r.1 e rest hw
          (asked (event e) (versions rest ++ hw ∷ []) (sends_initial (e ∷ rest) hw) s k refl h))
  resume_from-InOrder table (sends_initial [] hw) s k h =
      let r = enqueue_incremental stringify config (cursor hw) s in
      after_initial_cursor-InOrder s.log r.0 r.1 hw
        (asked (cursor hw) [] (sends_initial [] hw) s k refl h)
  resume_from-InOrder table (sleeping last) s k h =
      if_both InOrder s.aborted (leave s) (polled config table last s)
        (leave-InOrder s (pending s.phase) h)
        (poll-IsAscending table last s.tenant_id config.max_initial_batch (ids s.log)
          (subst (λ p. IsAscending (ids s.log ++ pending p)) k h))
  resume_from-InOrder table (sends_batch last (e ∷ rest) hw) s k h =
      let r = enqueue_incremental stringify config (event e) s in
      let p : Phase P = sends_batch last (e ∷ rest) hw in
      if_both InOrder (is_too_large stringify config e) (told_too_large last hw s)
        (after_batch_event config r.1 last rest hw r.0)
        (dropped config last (e ∷ rest) hw s
          (subst (λ p. IsAscending (ids s.log ++ pending p)) k h))
        (after_batch_event-InOrder s.log r.0 config r.1 last e rest hw
          (asked (event e) (versions rest ++ max last hw ∷ []) p s k refl h))
  resume_from-InOrder table (sends_batch last [] hw) s k h =
      let r = enqueue_incremental stringify config (cursor hw) s in
      let p : Phase P = sends_batch last [] hw in
      elim (Bool-cases (ltb last hw)) [
        | inl b ↦
            let top : max last hw ∷ [] ≡ hw ∷ [] = ap (λ v. v ∷ []) (ground arith) in
            subst
              (λ b.
                InOrder
                  (if b then after_batch_cursor r.1 hw r.0 else record s { phase = sleeping last }))
              (sym b)
              (after_batch_cursor-InOrder s.log r.0 r.1 last hw (asked (cursor hw) [] p s k top h))
        | inr b ↦
            let top : max last hw ∷ [] ≡ last ∷ [] = ap (λ v. v ∷ []) (ground arith) in
            subst
              (λ b.
                InOrder
                  (if b then after_batch_cursor r.1 hw r.0 else record s { phase = sleeping last }))
              (sym b) (subst (λ l. IsAscending (ids s.log ++ l)) (ap pending k ∙ top) h)
      ]
  resume_from-InOrder table ended s k h = h

  after_ping-InOrder :
      (r : EnqueueResult) (n : ℕ) (s s' : State P)
      → InOrder s
      → s'.log ≡ log_if_ok r ping s.log
      → s'.phase ≡ s.phase
      → InOrder (after_ping r n s')
  after_ping-InOrder ok n s s' h l p =
      rw (l, p, ids-append s.log (ping ∷ []), append-nil (ids s.log)) h
  after_ping-InOrder full n s s' h l p = rw (l, p) h
  after_ping-InOrder closed n s s' h l p = rw (l, p) h
  after_ping-InOrder oversized n s s' h l p = rw (l, p) h

  ping_from-InOrder : (n : ℕ) (s : State P) → InOrder s → InOrder (ping_from stringify config n s)
  unfolding ping_from
  ping_from-InOrder zero s h = h
  ping_from-InOrder (suc n) s h =
      let r = enqueue_incremental stringify config ping s in
      let (l, p) = enqueue_incremental-logs ping s in after_ping-InOrder r.1 n s r.0 h l p

  poll_fails-InOrder :
      (p : Phase P) (s : State P) → InOrder s → InOrder (poll_fails stringify config p s)
  unfolding poll_fails
  poll_fails-InOrder (sleeping last) s h = leave-InOrder s (pending s.phase) h
  poll_fails-InOrder (sends_initial rest hw) s h = h
  poll_fails-InOrder (sends_batch last rest hw) s h = h
  poll_fails-InOrder ended s h = h

  step-InOrder :
      (write : ℕ → String → WriteResult) (e : Event P) (s : State P)
      → InOrder s
      → InOrder (step stringify config write e s)
  unfolding step resume finish persist_cursor finish_rest cleanup
  step-InOrder write (resumes table) s h = resume_from-InOrder table s.phase s refl h
  step-InOrder write (queue_event e) s h = h
  step-InOrder write (others e) s h = h
  step-InOrder write poll_failed s h = poll_fails-InOrder s.phase s h
  step-InOrder write heartbeat s h = ground arith
  step-InOrder write ping_resumes s h = ping_from-InOrder s.pings s h
  step-InOrder write persist_fires s h = ground arith
  step-InOrder write request_closes s h = ground arith
  step-InOrder write finish_resumes s h = ground arith
  step-InOrder write cut_off s h = h

  pub run-InOrder :
      (write : ℕ → String → WriteResult) (es : List (Event P)) (s : State P)
      → InOrder s
      → InOrder (run stringify config write es s)
  unfolding run
  run-InOrder write [] s h = h
  run-InOrder write (e ∷ es) s h =
      run-InOrder write es (step stringify config write e s) (step-InOrder write e s h)
