-- ===== src/Sync/Session/Ending/Early.antt =====
-- The steps of an open session.
use verilink.Base.{
  ℕ, zero, suc, ◌≡◌, refl, ◌⊎◌, inl, inr, true, false, List, [], ◌∷◌, String, if_both,
}
use verilink.Sync.EventLog.{SyncEvent}
use verilink.Sync.WriteQueue.{EnqueueResult, ok, oversized, closed, full}
use verilink.Sync.Registry.{SseRegistry}
use verilink.Sync.Session.{
  SseConfig, Entry, event, cursor, ping, Phase, sends_initial, sleeping, sends_batch, ended, State,
  persist_cursor, finish, leave, count_event, after_initial_event, after_initial_cursor,
  after_batch_event, after_batch_cursor, after_ping, enqueue_incremental, resume_from, polled,
  told_too_large, poll_fails, ping_from,
}

module _ {P : Type 0} where
  -- What the steps of an open session have.
  abbrev pub IsEarly : ℕ → SseRegistry → State P → Type 0
  IsEarly id r s =
      (s.conn_id ≡ id)
      × (s.registry ≡ r)
      × (((s.cleaned ≡ false) × (s.finishing ≡ false))
          ⊎ ((s.cleaned ≡ true) × (s.aborted ≡ true) × (s.finishing ≡ true)))

  abbrev pub IsOpen : ℕ → SseRegistry → State P → Type 0
  IsOpen id r s = (s.conn_id ≡ id) × (s.registry ≡ r) × (s.cleaned ≡ false) × (s.finishing ≡ false)

  early : (id : ℕ) (r : SseRegistry) (s : State P) → IsOpen id r s → IsEarly id r s
  early id r s (c, k, o, f) = (c, k, inl (o, f))

  pub finish-IsEarly :
      (id : ℕ) (r : SseRegistry) (s : State P) → IsOpen id r s → IsEarly id r (finish s)
  unfolding finish persist_cursor
  finish-IsEarly id r s (c, k, o, f) = rw o (c, k, inr (refl, refl, refl))

  leave-IsEarly : (id : ℕ) (r : SseRegistry) (s : State P) → IsOpen id r s → IsEarly id r (leave s)
  unfolding leave
  leave-IsEarly id r s h = finish-IsEarly id r s h

  count_event-IsOpen :
      (config : SseConfig) (id : ℕ) (r : SseRegistry) (s : State P)
      → IsOpen id r s
      → IsOpen id r (count_event config s)
  unfolding count_event persist_cursor
  count_event-IsOpen config id r s h = if_both (IsOpen id r) _ _ _ h h

  after_ping-IsEarly :
      (r : EnqueueResult) (n id : ℕ) (reg : SseRegistry) (s : State P)
      → IsOpen id reg s
      → IsEarly id reg (after_ping r n s)
  after_ping-IsEarly ok n id reg s h = early id reg (record s { pings = n }) h
  after_ping-IsEarly full n id reg s h = early id reg s h
  after_ping-IsEarly closed n id reg s h = early id reg (record s { pings = n }) h
  after_ping-IsEarly oversized n id reg s h = early id reg (record s { pings = n }) h

  module _ (id : ℕ) (reg : SseRegistry) (s : State P) (h : IsOpen id reg s) where
    after_initial_event-IsEarly :
        (r : EnqueueResult) (rest : List (SyncEvent P)) (hw : ℕ)
        → IsEarly id reg (after_initial_event r rest hw s)
    unfolding after_initial_event
    after_initial_event-IsEarly ok rest hw = early id reg s h
    after_initial_event-IsEarly full rest hw = early id reg s h
    after_initial_event-IsEarly closed rest hw = leave-IsEarly id reg s h
    after_initial_event-IsEarly oversized rest hw = leave-IsEarly id reg s h

    after_initial_cursor-IsEarly :
        (r : EnqueueResult) (hw : ℕ) → IsEarly id reg (after_initial_cursor r hw s)
    unfolding after_initial_cursor
    after_initial_cursor-IsEarly ok hw = early id reg s h
    after_initial_cursor-IsEarly full hw = early id reg s h
    after_initial_cursor-IsEarly closed hw = leave-IsEarly id reg s h
    after_initial_cursor-IsEarly oversized hw = leave-IsEarly id reg s h

    after_batch_event-IsEarly :
        (config : SseConfig) (r : EnqueueResult) (last : ℕ) (rest : List (SyncEvent P)) (hw : ℕ)
        → IsEarly id reg (after_batch_event config r last rest hw s)
    unfolding after_batch_event
    after_batch_event-IsEarly config ok last rest hw =
        let s' = record s { phase = sends_batch last rest hw } in
        early id reg (count_event config s') (count_event-IsOpen config id reg s' h)
    after_batch_event-IsEarly config full last rest hw = early id reg s h
    after_batch_event-IsEarly config closed last rest hw =
        early id reg (record s { aborted = true; phase = sends_batch last [] hw }) h
    after_batch_event-IsEarly config oversized last rest hw =
        early id reg (record s { aborted = true; phase = sends_batch last [] hw }) h

    after_batch_cursor-IsEarly :
        (r : EnqueueResult) (hw : ℕ) → IsEarly id reg (after_batch_cursor r hw s)
    unfolding after_batch_cursor
    after_batch_cursor-IsEarly ok hw = early id reg s h
    after_batch_cursor-IsEarly full hw = early id reg s h
    after_batch_cursor-IsEarly closed hw = leave-IsEarly id reg (record s { aborted = true }) h
    after_batch_cursor-IsEarly oversized hw = leave-IsEarly id reg (record s { aborted = true }) h

module _ {P : Type 0} (stringify : P → String) (config : SseConfig) where
  enqueue_incremental-IsOpen :
      (e : Entry P) (id : ℕ) (r : SseRegistry) (s : State P)
      → IsOpen id r s
      → IsOpen id r (enqueue_incremental stringify config e s).0
  unfolding enqueue_incremental
  enqueue_incremental-IsOpen e id r s h =
      if_both {A = State P × EnqueueResult} (λ x. IsOpen id r x.0) s.aborted (s, closed) _ h h

  pub resume_from-IsEarly :
      (table : List (SyncEvent P)) (p : Phase P) (id : ℕ) (reg : SseRegistry) (s : State P)
      → IsOpen id reg s
      → IsEarly id reg (resume_from stringify config table p s)
  unfolding resume_from polled told_too_large
  resume_from-IsEarly table (sends_initial (e ∷ rest) hw) id reg s h =
      let r = enqueue_incremental stringify config (event e) s in
      if_both (IsEarly id reg) _ _ _ (leave-IsEarly id reg s h) (
        after_initial_event-IsEarly id reg r.0 (enqueue_incremental-IsOpen (event e) id reg s h) r.1
          rest hw)
  resume_from-IsEarly table (sends_initial [] hw) id reg s h =
      let r = enqueue_incremental stringify config (cursor hw) s in
      after_initial_cursor-IsEarly id reg r.0 (enqueue_incremental-IsOpen (cursor hw) id reg s h)
        r.1 hw
  resume_from-IsEarly table (sleeping last) id reg s h =
      if_both (IsEarly id reg) _ _ _ (leave-IsEarly id reg s h) (early id reg s h)
  resume_from-IsEarly table (sends_batch last (e ∷ rest) hw) id reg s h =
      let r = enqueue_incremental stringify config (event e) s in
      if_both (IsEarly id reg) _ (told_too_large last hw s) _
        (early id reg (told_too_large last hw s) h)
        (after_batch_event-IsEarly id reg r.0 (enqueue_incremental-IsOpen (event e) id reg s h)
          config r.1 last rest hw)
  resume_from-IsEarly table (sends_batch last [] hw) id reg s h =
      let r = enqueue_incremental stringify config (cursor hw) s in
      if_both (IsEarly id reg) _ _ _
        (after_batch_cursor-IsEarly id reg r.0 (enqueue_incremental-IsOpen (cursor hw) id reg s h)
          r.1 hw)
        (early id reg s h)
  resume_from-IsEarly table ended id reg s h = early id reg s h

  pub ping_from-IsEarly :
      (n id : ℕ) (reg : SseRegistry) (s : State P)
      → IsOpen id reg s
      → IsEarly id reg (ping_from stringify config n s)
  unfolding ping_from
  ping_from-IsEarly zero id reg s h = early id reg s h
  ping_from-IsEarly (suc n) id reg s h =
      let r = enqueue_incremental stringify config ping s in
      after_ping-IsEarly r.1 n id reg r.0 (enqueue_incremental-IsOpen ping id reg s h)

  pub poll_fails-IsEarly :
      (p : Phase P) (id : ℕ) (reg : SseRegistry) (s : State P)
      → IsOpen id reg s
      → IsEarly id reg (poll_fails stringify config p s)
  unfolding poll_fails
  poll_fails-IsEarly (sleeping last) id reg s h = leave-IsEarly id reg s h
  poll_fails-IsEarly (sends_initial rest hw) id reg s h = early id reg s h
  poll_fails-IsEarly (sends_batch last rest hw) id reg s h = early id reg s h
  poll_fails-IsEarly ended id reg s h = early id reg s h
