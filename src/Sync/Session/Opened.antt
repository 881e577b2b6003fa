-- ===== src/Sync/Session/Opened.antt =====
-- What every session does from its first step on.
use verilink.Base.{
  ℕ, ◌+◌, ◌≤◌, ◌≡◌, refl, subst, ◌⊎◌, inl, inr, true, false, Option, some, some_inj, List, [], ◌∷◌,
  ◌++◌, map, String, arith, Bool-cases, IsAscending, IsAscending-prefix,
}
use verilink.Sync.EventLog.{SyncEvent}
use verilink.Sync.EventLog.Sorted.{versions}
use verilink.Sync.Cursors.{SyncCursor}
use verilink.Sync.Registry.{SseRegistry, try_register}
use verilink.Sync.WriteQueue.{WriteResult, empty}
use verilink.Sync.WriteQueue.Delivery.{Delivers}
use verilink.Sync.Session.{
  SseConfig, sends_initial, State, item_of, open_session, Event, run, request_closes,
  finish_resumes,
}
use verilink.Sync.Session.Delivery.{HasLog, run-HasLog}
use verilink.Sync.Session.Order.{ids, pending, run-InOrder}
use verilink.Sync.Session.Fetched.{events, unsent, run-IsComplete}
use verilink.Sync.Session.Ending.{IsOver}
use verilink.Sync.Session.Ending.Closing.{closed-IsOver}

module _ {P : Type 0} where
  -- The state that a session starts in.
  abbrev IsFresh : List (SyncEvent P) → ℕ → State P → Type 0
  IsFresh initial hw s =
      (s.queue ≡ empty)
      × (s.log ≡ [])
      × (s.phase ≡ sends_initial initial hw)
      × (s.fetched ≡ initial)
      × (s.cleaned ≡ false)
      × (s.finishing ≡ false)
      × (s.conn_id + 1 ≤ s.registry.next_id)

  open_session-IsFresh :
      (tenant : Option String) (edge : Option (String × String)) (initial : List (SyncEvent P))
      (hw : ℕ) (registry : SseRegistry) (cursors : List SyncCursor) (s : State P)
      → open_session tenant edge initial hw registry cursors ≡ some s
      → IsFresh initial hw s
  unfolding open_session try_register
  open_session-IsFresh tenant edge initial hw registry cursors s h =
      elim (Bool-cases registry.accepting) [
        | inl e ↦
            let h' = rw e at h in
            subst (IsFresh initial hw) (some_inj h')
              (refl, refl, refl, refl, refl, refl, omega arith)
        | inr e ↦ let h' = rw e at h in absurd (cc)
      ]

module _ {P : Type 0} (stringify : P → String) (config : SseConfig)
    (write : ℕ → String → WriteResult) (tenant : Option String) (edge : Option (String × String))
    (initial : List (SyncEvent P)) (hw : ℕ) (registry : SseRegistry) (cursors : List SyncCursor)
    (s : State P) (opened : open_session tenant edge initial hw registry cursors ≡ some s) where
  -- In every history of a session the data items that the socket took are the first of the frames
  -- that the session enqueued, in their order, and while the queue is open it holds the others.
  pub session-Delivers :
      (es : List (Event P))
      → let r = run stringify config write es s in
        Delivers (map (item_of stringify config) r.log) r.queue
  unfolding empty
  session-Delivers es =
      let (q, l, _, _, _, _, _) =
        open_session-IsFresh tenant edge initial hw registry cursors s opened in
      let start : HasLog stringify config s =
        rw (q, l) (refl, (([], refl, inr refl), (tt, inl refl))) in
      (run-HasLog stringify config write es s start).1.0

  -- In every history of a session the events that it enqueued are the first of those that it
  -- fetched, its first batch and then the polls' batches, each once and in their order; and while
  -- the session is not aborted the others are those of its batch that it is still to enqueue.
  pub session-IsPrefix :
      (es : List (Event P))
      → let r = run stringify config write es s in
        (rest : List (SyncEvent P)) × (events r.log ++ rest ≡ r.fetched)
        × ((r.aborted ≡ true) ⊎ (rest ≡ unsent r.phase))
  session-IsPrefix es =
      let (_, l, p, f, c, _, _) =
        open_session-IsFresh tenant edge initial hw registry cursors s opened in
      let r = run stringify config write es s in
      let (_, h) = run-IsComplete stringify config write es s (inl c, inr (rw (l, p, f) refl)) in
      elim h [ inl (a, (rest, e)) ↦ (rest, e, inl a) | inr e ↦ (unsent r.phase, e, inr refl) ]

  -- When the versions of the first batch rise up to its high-water version, the ids of what a
  -- session enqueues, of events and cursors, never fall in any history.
  pub session-IsAscending :
      (es : List (Event P))
      → IsAscending (versions initial ++ hw ∷ [])
      → IsAscending (ids (run stringify config write es s).log)
  session-IsAscending es h =
      let (_, l, p, _, _, _, _) =
        open_session-IsFresh tenant edge initial hw registry cursors s opened in
      let r = run stringify config write es s in
      IsAscending-prefix (ids r.log) (pending r.phase)
        (run-InOrder stringify config write es s (rw (l, p) h))

  -- Once the client has closed the connection and `finish` has run to its end, whatever happened
  -- before, between the two and after, the timers are off, the queue is closed and the registry does
  -- not hold the connection.
  pub session-IsOver :
      (es ms fs : List (Event P))
      → IsOver
          (run stringify config write (es ++ (request_closes ∷ (ms ++ (finish_resumes ∷ fs)))) s)
  session-IsOver es ms fs =
      let (_, _, _, _, c, f, b) =
        open_session-IsFresh tenant edge initial hw registry cursors s opened in
      closed-IsOver stringify config write es ms fs s (b, inl (c, f))
