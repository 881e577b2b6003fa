-- ===== src/Sync/Session/Ending/Closing.antt =====
-- Every history of a session up to its end, and after it.
use verilink.Base.{
  ℕ, ◌+◌, ◌≤◌, ◌≡◌, refl, sym, ◌∙◌, subst, inl, inr, true, false, List, [], ◌∷◌, ◌++◌, String,
  arith, if_both, if◌then◌else◌,
}
use verilink.Sync.WriteQueue.{WriteResult}
use verilink.Sync.Registry.{SseRegistry, SseConnection, unregister, close_all, try_register}
use verilink.Sync.Registry
use verilink.Sync.Session.{
  SseConfig, State, persist_cursor, cleanup, unregistered, finish, finish_rest, resume, poll_fails,
  Event, step, run,
}
use verilink.Sync.Session.{
  resumes, queue_event, others, poll_failed, heartbeat, ping_resumes, persist_fires, request_closes,
  finish_resumes, cut_off,
}
use verilink.Sync.Session.Ending.Gone.{close-closed, any-without}
use verilink.Sync.Session.Ending.{
  IsOver, over, IsStill, finish-cleaned, finish-opened, IsSound, IsClosing,
}
use verilink.Sync.Session.Ending.Still.{resume_from-IsStill, ping_from-IsStill, poll_fails-IsStill}
use verilink.Sync.Session.Ending.Over.{step-IsOver, run-IsOver}
use verilink.Sync.Session.Ending.Early.{
  IsEarly, finish-IsEarly, resume_from-IsEarly, ping_from-IsEarly, poll_fails-IsEarly,
}

module _ {P : Type 0} (stringify : P → String) (config : SseConfig)
    (write : ℕ → String → WriteResult) where
  -- The three kinds of step of a sound session.
  early-IsSound :
      (s s' : State P)
      → s.conn_id + 1 ≤ s.registry.next_id
      → IsEarly s.conn_id s.registry s'
      → IsSound s'
  early-IsSound s s' b (c, r, inl o) = (rw (c, r) b, inl o)
  early-IsSound s s' b (c, r, inr f) = (rw (c, r) b, inr (inl f))

  still-IsClosing :
      (s s' : State P)
      → s.conn_id + 1 ≤ s.registry.next_id
      → s.cleaned ≡ true
      → s.finishing ≡ true
      → IsStill s s'
      → IsClosing s'
  still-IsClosing s s' b c f t =
      (rw (t.conn, t.registry) b, inl (t.cleaned ∙ c, t.aborted, t.finished ∙ f))

  over-IsClosing : (s : State P) → IsOver s → IsClosing s
  over-IsClosing s h = (h.gone.1, inr h)

  next_id-step : (e : Registry.Event) (r : SseRegistry) → r.next_id ≤ (Registry.step e r).next_id
  unfolding Registry.step Registry.stop_accepting Registry.start_accepting unregister try_register
  next_id-step (Registry.registers queue) r = ground arith
  next_id-step (Registry.unregisters other) r = omega arith
  next_id-step Registry.stops_accepting r = omega arith
  next_id-step Registry.starts_accepting r = omega arith

  finish_rest-IsSound :
      (s : State P)
      → s.conn_id + 1 ≤ s.registry.next_id
      → s.cleaned ≡ true
      → s.aborted ≡ true
      → s.finishing ≡ true
      → IsOver (finish_rest s)
  unfolding finish_rest cleanup unregister
  finish_rest-IsSound s b c a f =
      subst (λ b. IsOver (if b then cleanup (unregistered s) else s)) (sym f)
        (over c a refl refl refl (close-closed s.queue) (any-without _ s.registry.connections, b))

  open-step :
      (e : Event P) (s : State P)
      → s.conn_id + 1 ≤ s.registry.next_id
      → (s.cleaned ≡ false) × (s.finishing ≡ false)
      → IsSound (step stringify config write e s)
  unfolding step resume finish_rest persist_cursor cleanup close_all poll_fails
  open-step (resumes table) s b (c, f) =
      early-IsSound s _ b (
        resume_from-IsEarly stringify config table s.phase s.conn_id s.registry s
          (refl, refl, c, f))
  open-step (queue_event e) s b o = (b, inl o)
  open-step (others e) s b o = (omega (arith, b, next_id-step e s.registry), inl o)
  open-step poll_failed s b (c, f) =
      early-IsSound s _ b
        (poll_fails-IsEarly stringify config s.phase s.conn_id s.registry s (refl, refl, c, f))
  open-step heartbeat s b o = if_both IsSound _ _ s (b, inl o) (b, inl o)
  open-step ping_resumes s b (c, f) =
      early-IsSound s _ b
        (ping_from-IsEarly stringify config s.pings s.conn_id s.registry s (refl, refl, c, f))
  open-step persist_fires s b o = if_both IsSound _ _ s (b, inl o) (b, inl o)
  open-step request_closes s b (c, f) =
      early-IsSound s _ b (finish-IsEarly s.conn_id s.registry s (refl, refl, c, f))
  open-step finish_resumes s b (c, f) =
      subst (λ b. IsSound (if b then cleanup (unregistered s) else s)) (sym f) (b, inl (c, f))
  open-step cut_off s b o = (b, inl o)

  finishing-step :
      (e : Event P) (s : State P)
      → s.conn_id + 1 ≤ s.registry.next_id
      → (s.cleaned ≡ true) × (s.aborted ≡ true) × (s.finishing ≡ true)
      → IsClosing (step stringify config write e s)
  unfolding step resume persist_cursor cleanup close_all
  finishing-step (resumes table) s b (c, a, f) =
      still-IsClosing s _ b c f (resume_from-IsStill stringify config table s.phase s c a)
  finishing-step (queue_event e) s b h = (b, inl h)
  finishing-step (others e) s b h = (omega (arith, b, next_id-step e s.registry), inl h)
  finishing-step poll_failed s b (c, a, f) =
      still-IsClosing s _ b c f (poll_fails-IsStill stringify config s.phase s c a)
  finishing-step heartbeat s b h = if_both IsClosing _ _ s (b, inl h) (b, inl h)
  finishing-step ping_resumes s b (c, a, f) =
      still-IsClosing s _ b c f (ping_from-IsStill stringify config s.pings s a)
  finishing-step persist_fires s b h = if_both IsClosing _ _ s (b, inl h) (b, inl h)
  finishing-step request_closes s b (c, a, f) =
      subst IsClosing (sym (finish-cleaned s c)) (b, inl (c, a, f))
  finishing-step finish_resumes s b (c, a, f) =
      over-IsClosing (finish_rest s) (finish_rest-IsSound s b c a f)
  finishing-step cut_off s b (c, a, f) = (b, inl (c, refl, f))

  step-IsClosing :
      (e : Event P) (s : State P) → IsClosing s → IsClosing (step stringify config write e s)
  step-IsClosing e s (b, inl f) = finishing-step e s b f
  step-IsClosing e s (b, inr h) =
      over-IsClosing (step stringify config write e s) (step-IsOver stringify config write e s h)

  step-IsSound : (e : Event P) (s : State P) → IsSound s → IsSound (step stringify config write e s)
  step-IsSound e s (b, inl o) = open-step e s b o
  step-IsSound e s (b, inr k) = let (b', k') = step-IsClosing e s (b, k) in (b', inr k')

  run-IsSound :
      (es : List (Event P)) (s : State P) → IsSound s → IsSound (run stringify config write es s)
  unfolding run
  run-IsSound [] s h = h
  run-IsSound (e ∷ es) s h = run-IsSound es (step stringify config write e s) (step-IsSound e s h)

  run-IsClosing :
      (es : List (Event P)) (s : State P)
      → IsClosing s
      → IsClosing (run stringify config write es s)
  unfolding run
  run-IsClosing [] s h = h
  run-IsClosing (e ∷ es) s h =
      run-IsClosing es (step stringify config write e s) (step-IsClosing e s h)

  -- The client's close, and the end of `finish`.
  finish-IsClosing : (s : State P) → IsSound s → IsClosing (finish s)
  finish-IsClosing s (b, inl (c, f)) =
      let (cl, ab, fi, id, reg) = finish-opened s c in (rw (id, reg) b, inl (cl, ab, fi))
  finish-IsClosing s (b, inr (inl (c, a, f))) =
      subst IsClosing (sym (finish-cleaned s c)) (b, inl (c, a, f))
  finish-IsClosing s (b, inr (inr h)) =
      subst IsClosing (sym (finish-cleaned s h.cleaned)) (b, inr h)

  finish_rest-IsOver : (s : State P) → IsClosing s → IsOver (finish_rest s)
  unfolding finish_rest
  finish_rest-IsOver s (b, inl (c, a, f)) = finish_rest-IsSound s b c a f
  finish_rest-IsOver s (b, inr h) =
      subst (λ b. IsOver (if b then cleanup (unregistered s) else s)) (sym h.finished) h

  run-append :
      (es fs : List (Event P)) (s : State P)
      → run stringify config write (es ++ fs) s
        ≡ run stringify config write fs (run stringify config write es s)
  unfolding run
  run-append [] fs s = refl
  run-append (e ∷ es) fs s = run-append es fs (step stringify config write e s)

  -- A client's close and later the end of `finish` in a history, from a sound state.
  pub closed-IsOver :
      (es ms fs : List (Event P)) (s : State P)
      → IsSound s
      → IsOver
          (run stringify config write (es ++ (request_closes ∷ (ms ++ (finish_resumes ∷ fs)))) s)
  unfolding run step
  closed-IsOver es ms fs s h =
      let before = run stringify config write es s in
      let between = run stringify config write ms (finish before) in
      subst IsOver
        (sym (
          run-append es (request_closes ∷ (ms ++ (finish_resumes ∷ fs))) s
          ∙ run-append ms (finish_resumes ∷ fs) (finish before)))
        (run-IsOver stringify config write fs (finish_rest between) (
          finish_rest-IsOver between
            (run-IsClosing ms (finish before) (finish-IsClosing before (run-IsSound es s h)))))
