-- ===== src/Sync/WriteQueue/Delivery/Turns.antt =====
-- Each round of `pump`, and each callback, delivers faithfully.
use verilink.Base.{
  ℕ, ◌+◌, ◌≡◌, refl, ◌∙◌, inl, inr, true, false, ◌||◌, Option, none, some, List, [], ◌∷◌, ◌++◌,
  append_assoc, String, arith, Bool-cases,
}
use verilink.Base.Texts.{byte_length}
use verilink.Sync.WriteQueue.{
  DataItem, Chunk, WriteResult, accepted, buffered, error, Queue, raise_cursor, close,
  arm_slow_timer, enqueue_control, slow_timer_fires,
}
use verilink.Sync.WriteQueue.Pump.{
  after_control, after_item, control_taken, control_handed, item_taken, item_handed, backpressured,
  send_next, turn, pump_all, reset_inflight,
}
use verilink.Sync.WriteQueue.Pump.Rounds.{Keeps, pump_all-Keeps}
use verilink.Sync.WriteQueue.Delivery.{
  sent, sent-item, sent-control, Delivers, IsGreatest, IsGreatest-raise,
}

-- What a history leaves behind, for the accepted items `L`.
abbrev pub IsFaithful : List DataItem → Queue → Type 0
IsFaithful L q = Delivers L q × IsGreatest q.last_written_cursor (sent q.wire)

module _ (L : List DataItem) where
  -- Only four fields matter.
  pub IsFaithful-of_same :
      (q r : Queue)
      → r.wire ≡ q.wire
      → r.is_closed ≡ q.is_closed
      → r.items ≡ q.items
      → r.last_written_cursor ≡ q.last_written_cursor
      → IsFaithful L q
      → IsFaithful L r
  IsFaithful-of_same q r ew ec ei el h = rw (ew, ec, ei, el) h

  pub close-IsFaithful :
      (q r : Queue)
      → r.wire ≡ q.wire
      → r.last_written_cursor ≡ q.last_written_cursor
      → IsFaithful L q
      → IsFaithful L (close r)
  unfolding close
  close-IsFaithful q r ew el ((rest, e, c), g) =
      let ew' : (close r).wire ≡ q.wire = ground arith in
      let el' : (close r).last_written_cursor ≡ q.last_written_cursor = ground arith in
      let closed : (close r).is_closed ≡ true = ground arith in
      ((rest, rw ew' e, inl closed), rw (ew', el') g)

  arm_slow_timer-IsFaithful : (q : Queue) → IsFaithful L q → IsFaithful L (arm_slow_timer q)
  unfolding arm_slow_timer
  arm_slow_timer-IsFaithful q h =
      IsFaithful-of_same q (arm_slow_timer q) (ground arith) (ground arith) (ground arith)
        (ground arith) h

  hand_control-IsFaithful :
      (q r : Queue) (next : String)
      → r.wire ≡ q.wire ++ Chunk.control next ∷ []
      → r.is_closed ≡ q.is_closed
      → r.items ≡ q.items
      → r.last_written_cursor ≡ q.last_written_cursor
      → IsFaithful L q
      → IsFaithful L r
  hand_control-IsFaithful q r next ew ec ei el h = rw (ew, ec, ei, el, sent-control q.wire next) h

  hand_item-IsFaithful :
      (q r : Queue) (i : DataItem) (is : List DataItem)
      → q.items ≡ i ∷ is
      → q.is_closed ≡ false
      → r.wire ≡ q.wire ++ Chunk.item i ∷ []
      → r.items ≡ is
      → r.last_written_cursor ≡ raise_cursor i.cursor q.last_written_cursor
      → IsFaithful L q
      → IsFaithful L r
  hand_item-IsFaithful q r i is ei o ew er el ((rest, e, inl c), g) = absurd (cc)
  hand_item-IsFaithful q r i is ei o ew er el ((rest, e, inr c), g) =
      rw (ew, er, el, sent-item q.wire i)
        (
          (is, append_assoc (sent q.wire) (i ∷ []) is ∙ rw (c, ei) at e, inr refl),
          IsGreatest-raise q.last_written_cursor (sent q.wire) i g,
        )

  after_control-IsFaithful :
      (a : WriteResult) (next : String) (q : Queue)
      → IsFaithful L q
      → Keeps (IsFaithful L) (after_control a next q)
  unfolding after_control
  after_control-IsFaithful error next q h = close-IsFaithful q (control_taken q) refl refl h
  after_control-IsFaithful accepted next q h =
      hand_control-IsFaithful q (control_handed next q) next refl refl refl refl h
  after_control-IsFaithful buffered next q h =
      let r = backpressured (byte_length next) (control_handed next q) in
      arm_slow_timer-IsFaithful r (hand_control-IsFaithful q r next refl refl refl refl h)

  after_item-IsFaithful :
      (a : WriteResult) (i : DataItem) (is : List DataItem) (q : Queue)
      → q.items ≡ i ∷ is
      → q.is_closed ≡ false
      → IsFaithful L q
      → Keeps (IsFaithful L) (after_item a i is q)
  unfolding after_item
  after_item-IsFaithful error i is q ei o h = close-IsFaithful q (item_taken i is q) refl refl h
  after_item-IsFaithful accepted i is q ei o h =
      hand_item-IsFaithful q (record (item_handed i is q) { space_events = q.space_events + 1 }) i
        is ei o refl refl refl h
  after_item-IsFaithful buffered i is q ei o h =
      let r = backpressured (byte_length i.frame) (item_handed i is q) in
      arm_slow_timer-IsFaithful r (hand_item-IsFaithful q r i is ei o refl refl refl h)

  send_next-IsFaithful :
      (write : ℕ → String → WriteResult) (control : Option String) (items : List DataItem)
      (q : Queue)
      → q.items ≡ items
      → q.is_closed ≡ false
      → IsFaithful L q
      → Keeps (IsFaithful L) (send_next write control items q)
  unfolding send_next
  send_next-IsFaithful write (some s) items q ei o h =
      after_control-IsFaithful (write q.writes s) s q h
  send_next-IsFaithful write none [] q ei o h = h
  send_next-IsFaithful write none (i ∷ is) q ei o h =
      after_item-IsFaithful (write q.writes i.frame) i is q ei o h

  turn-IsFaithful :
      (write : ℕ → String → WriteResult) (q : Queue)
      → IsFaithful L q
      → Keeps (IsFaithful L) (turn write q)
  unfolding turn
  turn-IsFaithful write q h = elim (Bool-cases (q.is_closed || q.waiting_for_drain)) [
    | inl e ↦ rw e h
    | inr e ↦ rw e (send_next-IsFaithful write q.control_frame q.items q refl (ground arith) h)
  ]

  pub pump_all-IsFaithful :
      (write : ℕ → String → WriteResult) (q : Queue)
      → q.pumping ≡ false
      → IsFaithful L q
      → IsFaithful L (pump_all write q)
  pump_all-IsFaithful write q p h =
      pump_all-Keeps write (IsFaithful L) (turn-IsFaithful write) (λ b r k. k) q p h

  pub reset_inflight-IsFaithful : (q : Queue) → IsFaithful L q → IsFaithful L (reset_inflight q)
  unfolding reset_inflight
  reset_inflight-IsFaithful q h =
      IsFaithful-of_same q (reset_inflight q) (ground arith) (ground arith) (ground arith)
        (ground arith) h

  pub enqueue_control-IsFaithful :
      (frame : String) (q : Queue) → IsFaithful L q → IsFaithful L (enqueue_control frame q).0
  unfolding enqueue_control
  enqueue_control-IsFaithful frame q h =
      IsFaithful-of_same q (enqueue_control frame q).0 (ground arith) (ground arith) (ground arith)
        (ground arith) h

  pub slow_timer_fires-IsFaithful : (q : Queue) → IsFaithful L q → IsFaithful L (slow_timer_fires q)
  unfolding slow_timer_fires
  slow_timer_fires-IsFaithful q h = elim (Bool-cases q.slow_timer) [
    | inl e ↦ rw e (close-IsFaithful q (record q { slow_timer = false }) refl refl h)
    | inr e ↦ rw e h
  ]
