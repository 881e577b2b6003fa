-- ===== src/Sync/Session/Ending/Still.antt =====
-- The steps of a session that `finish` has begun to end.
use verilink.Base.{
  ℕ, zero, suc, ◌≡◌, refl, sym, subst, true, List, [], ◌∷◌, String, arith, if_both, if◌then◌else◌,
}
use verilink.Sync.EventLog.{SyncEvent}
use verilink.Sync.WriteQueue.{enqueue_control}
use verilink.Sync.Session.{
  SseConfig, event, cursor, ping, Phase, sends_initial, sleeping, sends_batch, ended, State, leave,
  after_initial_event, after_initial_cursor, after_batch_event, after_batch_cursor, after_ping,
  resume_from, polled, told_too_large, poll_fails, ping_from,
}
use verilink.Sync.Session.Ending.{IsStill, leave-IsStill, abort_first, same-IsStill}
use verilink.Sync.Session.Fetched.{aborted-closed}

module _ {P : Type 0} (stringify : P → String) (config : SseConfig) where
  told_too_large-IsStill : (last hw : ℕ) (s : State P) → IsStill s (told_too_large last hw s)
  unfolding told_too_large enqueue_control
  told_too_large-IsStill last hw s = record {
    cleaned = refl;
    aborted = refl;
    finished = refl;
    heartbeat_off = refl;
    persist_off = refl;
    queue_closed = ground arith;
    conn = refl;
    registry = refl;
  }

  pub resume_from-IsStill :
      (table : List (SyncEvent P)) (p : Phase P) (s : State P)
      → s.cleaned ≡ true
      → s.aborted ≡ true
      → IsStill s (resume_from stringify config table p s)
  unfolding resume_from after_initial_event after_initial_cursor after_batch_event
      after_batch_cursor
  resume_from-IsStill table (sends_initial (e ∷ rest) hw) s c a =
      if_both (IsStill s) _ _ _ (leave-IsStill s c a) (
        subst (λ r. IsStill s (after_initial_event r.1 rest hw r.0))
          (sym (aborted-closed stringify config (event e) s a)) (leave-IsStill s c a))
  resume_from-IsStill table (sends_initial [] hw) s c a =
      subst (λ r. IsStill s (after_initial_cursor r.1 hw r.0))
        (sym (aborted-closed stringify config (cursor hw) s a)) (leave-IsStill s c a)
  resume_from-IsStill table (sleeping last) s c a =
      subst (λ b. IsStill s (if b then leave s else polled config table last s)) (sym a)
        (leave-IsStill s c a)
  resume_from-IsStill table (sends_batch last (e ∷ rest) hw) s c a =
      if_both (IsStill s) _ _ _ (told_too_large-IsStill last hw s) (
        subst (λ r. IsStill s (after_batch_event config r.1 last rest hw r.0))
          (sym (aborted-closed stringify config (event e) s a))
          (abort_first s _ (same-IsStill (record s { aborted = true }) _ refl refl)))
  resume_from-IsStill table (sends_batch last [] hw) s c a =
      if_both (IsStill s) _ _ _
        (subst (λ r. IsStill s (after_batch_cursor r.1 hw r.0))
          (sym (aborted-closed stringify config (cursor hw) s a))
          (abort_first s _ (leave-IsStill (record s { aborted = true }) c refl)))
        (same-IsStill s (record s { phase = sleeping last }) a refl)
  resume_from-IsStill table ended s c a = same-IsStill s s a refl

  pub ping_from-IsStill :
      (n : ℕ) (s : State P) → s.aborted ≡ true → IsStill s (ping_from stringify config n s)
  unfolding ping_from
  ping_from-IsStill zero s a = same-IsStill s s a refl
  ping_from-IsStill (suc n) s a =
      subst (λ r. IsStill s (after_ping r.1 n r.0)) (sym (aborted-closed stringify config ping s a))
        (same-IsStill s (record s { pings = n }) a refl)

  pub poll_fails-IsStill :
      (p : Phase P) (s : State P)
      → s.cleaned ≡ true
      → s.aborted ≡ true
      → IsStill s (poll_fails stringify config p s)
  unfolding poll_fails
  poll_fails-IsStill (sleeping last) s c a = leave-IsStill s c a
  poll_fails-IsStill (sends_initial rest hw) s c a = same-IsStill s s a refl
  poll_fails-IsStill (sends_batch last rest hw) s c a = same-IsStill s s a refl
  poll_fails-IsStill ended s c a = same-IsStill s s a refl
