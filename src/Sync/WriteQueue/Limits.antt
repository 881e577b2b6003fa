-- ===== src/Sync/WriteQueue/Limits.antt =====
-- The limits of the queue: its byte counts, its capacity, its timer, and its wake-ups.
use verilink.Base.{
  ℕ, ◌+◌, ◌≤◌, ◌≡◌, refl, ap, inl, inr, Bool, true, false, ◌||◌, Option, none, some, List, [], ◌∷◌,
  ◌++◌, String, arith, length, Bool-cases,
}
use verilink.Base.Texts.{byte_length}
use verilink.Sync.WriteQueue.{
  Options, DataItem, WriteResult, accepted, buffered, error, Queue, frame_bytes,
}
use verilink.Sync.WriteQueue.Pump.{after_control, after_item, send_next, turn}
use verilink.Sync.WriteQueue.Pump.Rounds.{Keeps, set_pumping}

abbrev pub total : List DataItem → ℕ
total [] = 0
total (i ∷ is) = byte_length i.frame + total is

pub total-append : (xs ys : List DataItem) → total (xs ++ ys) ≡ total xs + total ys
total-append [] ys = omega arith
total-append (x ∷ xs) ys = omega (arith, total-append xs ys)

-- What holds at every point, inside a loop too; `c` bounds the frames of the control lane.
pub record IsWithin (opts : Options) (c : ℕ) (q : Queue) : Type 0 where
  pub counted : q.data_bytes ≡ total q.items
  pub few : length q.items ≤ opts.max_frames
  pub room : q.data_bytes ≤ opts.max_bytes
  pub budget : q.data_bytes + q.inflight_bytes ≤ opts.max_bytes + c
  pub control_small : frame_bytes q.control_frame ≤ c
  pub drained_empty : q.waiting_for_drain ≡ false → q.inflight_bytes ≡ 0
  pub timed : q.waiting_for_drain ≡ true → q.is_closed ≡ false → q.slow_timer ≡ true
  pub timer_open : q.slow_timer ≡ true → (q.waiting_for_drain ≡ true) × (q.is_closed ≡ false)

module _ (opts : Options) (c : ℕ) where
  after_control-IsWithin :
      (a : WriteResult) (next : String) (q : Queue)
      → q.control_frame ≡ some next
      → q.waiting_for_drain ≡ false
      → q.is_closed ≡ false
      → IsWithin opts c q
      → Keeps (IsWithin opts c) (after_control a next q)
  unfolding after_control
  after_control-IsWithin accepted next q e w o h = ground arith
  after_control-IsWithin buffered next q e w o h = ground arith
  after_control-IsWithin error next q e w o h = ground arith

  after_item-IsWithin :
      (a : WriteResult) (i : DataItem) (is : List DataItem) (q : Queue)
      → q.items ≡ i ∷ is
      → q.waiting_for_drain ≡ false
      → q.is_closed ≡ false
      → IsWithin opts c q
      → Keeps (IsWithin opts c) (after_item a i is q)
  unfolding after_item
  after_item-IsWithin accepted i is q e w o h = ground (arith, ap total e, ap length e)
  after_item-IsWithin buffered i is q e w o h = ground (arith, ap total e, ap length e)
  after_item-IsWithin error i is q e w o h = ground (arith, ap total e, ap length e)

  send_next-IsWithin :
      (write : ℕ → String → WriteResult) (control : Option String) (items : List DataItem)
      (q : Queue)
      → q.control_frame ≡ control
      → q.items ≡ items
      → q.waiting_for_drain ≡ false
      → q.is_closed ≡ false
      → IsWithin opts c q
      → Keeps (IsWithin opts c) (send_next write control items q)
  unfolding send_next
  send_next-IsWithin write (some s) items q ec ei w o h =
      after_control-IsWithin (write q.writes s) s q ec w o h
  send_next-IsWithin write none [] q ec ei w o h = h
  send_next-IsWithin write none (i ∷ is) q ec ei w o h =
      after_item-IsWithin (write q.writes i.frame) i is q ei w o h

  pub turn-IsWithin :
      (write : ℕ → String → WriteResult) (q : Queue)
      → IsWithin opts c q
      → Keeps (IsWithin opts c) (turn write q)
  unfolding turn
  turn-IsWithin write q h = elim (Bool-cases (q.is_closed || q.waiting_for_drain)) [
    | inl e ↦ rw e h
    | inr e ↦ rw e (
        send_next-IsWithin write q.control_frame q.items q refl refl (ground arith) (ground arith)
          h)
  ]

  pub set_pumping-IsWithin :
      (b : Bool) (q : Queue) → IsWithin opts c q → IsWithin opts c (set_pumping b q)
  set_pumping-IsWithin b q h = ground arith
