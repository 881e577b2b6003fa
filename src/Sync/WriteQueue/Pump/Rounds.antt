-- ===== src/Sync/WriteQueue/Pump/Rounds.antt =====
-- The loop of `pump`: it ends, what it leaves behind, and a rule for what it keeps.
use native.Mathlib.Numerals.{add-one}
use verilink.Base.{
  ℕ, zero, suc, ◌+◌, ◌<◌, ◌≡◌, refl, ◌⊎◌, inl, inr, Bool, true, false, ◌||◌, Option, none, some,
  List, [], ◌∷◌, String, arith, length, subst, Bool-cases, some_inj, ◌∙◌,
}
use verilink.Sync.WriteQueue.{DataItem, WriteResult, accepted, buffered, error, Queue}
use verilink.Sync.WriteQueue.Pump.{
  Turn, continue, break, after_control, after_item, send_next, turn, loop, needs_pump, pump,
  pump_all,
}

-- The chunks that wait in the queue.
abbrev pub chunks : Option String → List DataItem → ℕ
chunks none items = length items
chunks (some s) items = length items + 1

abbrev pub pending : Queue → ℕ
pending q = chunks q.control_frame q.items

-- Nothing for `pump` to do.
abbrev pub IsResting : Queue → Type 0
IsResting q =
    (q.is_closed ≡ true)
    ⊎ (q.waiting_for_drain ≡ true)
    ⊎ ((q.control_frame ≡ none) × (q.items ≡ []))

abbrev Progress : ℕ → Turn → Type 0
Progress n (continue r) = pending r < n
Progress n (break r) = IsResting r

abbrev pub Keeps : (Queue → Type 0) → Turn → Type 0
Keeps P (continue r) = P r
Keeps P (break r) = P r

after_control-Progress :
    (a : WriteResult) (next : String) (n : ℕ) (q : Queue)
    → n ≡ length q.items + 1
    → Progress n (after_control a next q)
unfolding after_control
after_control-Progress accepted next n q e = omega arith
after_control-Progress buffered next n q e = ground arith
after_control-Progress error next n q e = ground arith

after_item-Progress :
    (a : WriteResult) (item : DataItem) (rest : List DataItem) (q : Queue)
    → q.control_frame ≡ none
    → Progress (length rest + 1) (after_item a item rest q)
unfolding after_item
after_item-Progress accepted item rest q e = ground arith
after_item-Progress buffered item rest q e = ground arith
after_item-Progress error item rest q e = ground arith

module _ (write : ℕ → String → WriteResult) where
  send_next-Progress :
      (control : Option String) (items : List DataItem) (q : Queue)
      → q.control_frame ≡ control
      → q.items ≡ items
      → Progress (chunks control items) (send_next write control items q)
  unfolding send_next
  send_next-Progress (some s) items q ec ei =
      after_control-Progress (write q.writes s) s (length items + 1) q (rw ei)
  send_next-Progress none [] q ec ei = inr (inr (ec, ei))
  send_next-Progress none (i ∷ is) q ec ei =
      rw (← add-one) (after_item-Progress (write q.writes i.frame) i is q ec)

  turn-Progress : (q : Queue) → Progress (pending q) (turn write q)
  unfolding turn
  turn-Progress q = elim (Bool-cases (q.is_closed || q.waiting_for_drain)) [
    | inl e ↦ rw e (ground arith)
    | inr e ↦ rw e (send_next-Progress q.control_frame q.items q refl refl)
  ]

-- Enough fuel for the loop: a round for each chunk, and one more.
module _ (write : ℕ → String → WriteResult) where
  loop-total :
      (fuel : ℕ) (q : Queue)
      → pending q < fuel
      → (r : Queue) × (loop write fuel q ≡ some r) × IsResting r
  unfolding loop
  loop-total zero q h = elim h [ ]
  loop-total (suc fuel) q h = go (turn write q) (turn-Progress write q) (loop-total fuel)
    where
      go :
          (t : Turn)
          → Progress (pending q) t
          → ((r : Queue)
              → pending r < fuel
              → (s : Queue) × (loop write fuel r ≡ some s) × IsResting s)
          → (r : Queue) × (elim t [ continue r ↦ loop write fuel r | break r ↦ some r ] ≡ some r)
            × IsResting r
      go (continue r) p next = next r (omega arith)
      go (break r) p next = (r, refl, p)

  -- More fuel than that changes nothing.
  loop-fuel :
      (f g : ℕ) (q : Queue) → pending q < f → pending q < g → loop write f q ≡ loop write g q
  unfolding loop
  loop-fuel zero g q hf hg = elim hf [ ]
  loop-fuel (suc f) zero q hf hg = elim hg [ ]
  loop-fuel (suc f) (suc g) q hf hg = go (turn write q) (turn-Progress write q) (loop-fuel f g)
    where
      go :
          (t : Turn)
          → Progress (pending q) t
          → ((r : Queue) → pending r < f → pending r < g → loop write f r ≡ loop write g r)
          → ◌≡◌ {A = Option Queue}
              (elim t [ continue r ↦ loop write f r | break r ↦ some r ])
              (elim t [ continue r ↦ loop write g r | break r ↦ some r ])
      go (continue r) p next = next r (omega arith) (omega arith)
      go (break r) p next = refl

  loop-Keeps :
      (P : Queue → Type 0)
      → ((q : Queue) → P q → Keeps P (turn write q))
      → (fuel : ℕ) (q r : Queue) → P q
      → loop write fuel q ≡ some r
      → P r
  unfolding loop
  loop-Keeps P keep zero q r h e = cc
  loop-Keeps P keep (suc fuel) q r h e =
      go (turn write q) (keep q h) (λ s k. loop-Keeps P keep fuel s r k) e
    where
      go :
          (t : Turn)
          → Keeps P t
          → ((s : Queue) → P s → loop write fuel s ≡ some r → P r)
          → elim t [ continue s ↦ loop write fuel s | break s ↦ some s ] ≡ some r
          → P r
      go (continue s) k next e = next s k e
      go (break s) k next e = subst P (some_inj e) k

-- After the loop the condition in `finally` fails.
pub IsResting-needs_pump : (q : Queue) → IsResting q → needs_pump q ≡ false
unfolding needs_pump
IsResting-needs_pump q (inl e) = ground arith
IsResting-needs_pump q (inr (inl e)) = ground arith
IsResting-needs_pump q (inr (inr (ec, ei))) = rw (ec, ei) (ground arith)

abbrev pub set_pumping : Bool → Queue → Queue
set_pumping b q = record q { pumping = b }

module _ (write : ℕ → String → WriteResult) where
  -- What a call does: nothing, or one loop.
  pump_closed :
      (calls rounds : ℕ) (q : Queue)
      → (q.pumping || q.is_closed || q.waiting_for_drain) ≡ true
      → pump write (suc calls) rounds q ≡ some q
  unfolding pump
  pump_closed calls rounds q e = rw e

  pump_open :
      (calls rounds : ℕ) (q r : Queue)
      → (q.pumping || q.is_closed || q.waiting_for_drain) ≡ false
      → loop write rounds (set_pumping true q) ≡ some r
      → IsResting r
      → pump write (suc calls) rounds q ≡ some (set_pumping false r)
  unfolding pump
  pump_open calls rounds q r e l h = rw (e, l, IsResting-needs_pump r h)

  pump_all_eq : (q r : Queue) → pump write 1 (length q.items + 2) q ≡ some r → pump_all write q ≡ r
  unfolding pump_all
  pump_all_eq q r e = rw (e, pump_all)

  -- From a queue at rest between two events, `pump_all` is one loop or nothing.
  pub pump_all_cases :
      (q : Queue)
      → q.pumping ≡ false
      → ((pump_all write q ≡ q) × IsResting q)
        ⊎ ((r : Queue) × (fuel : ℕ) × (loop write fuel (set_pumping true q) ≡ some r)
            × (pump_all write q ≡ set_pumping false r)
            × IsResting r)
  pump_all_cases q p = elim (Bool-cases (q.pumping || q.is_closed || q.waiting_for_drain)) [
    | inl e ↦ inl (pump_all_eq q q (pump_closed 0 _ q e), ground arith)
    | inr e ↦
        let (r, l, h) = loop-total write (length q.items + 2) (set_pumping true q) (ground arith) in
        inr (r, length q.items + 2, l, pump_all_eq q _ (pump_open 0 _ q r e l h), h)
  ]

  -- A call ends with nothing left to do, and any more fuel, for its calls of itself or for the
  -- rounds, gives the same queue.
  pub pump-total :
      (calls rounds : ℕ) (q : Queue)
      → q.pumping ≡ false
      → pending q < rounds
      → (pump write (suc calls) rounds q ≡ some (pump_all write q))
        × IsResting (pump_all write q)
        × ((pump_all write q).pumping ≡ false)
  pump-total calls rounds q p h =
      elim (Bool-cases (q.pumping || q.is_closed || q.waiting_for_drain)) [
        | inl e ↦
            rw (pump_all_eq q q (pump_closed 0 _ q e))
              (pump_closed calls rounds q e, ground arith, p)
        | inr e ↦
            let (r, l, i) = loop-total write rounds (set_pumping true q) h in
            let l' =
              loop-fuel write (length q.items + 2) rounds (set_pumping true q) (ground arith) h in
            rw (pump_all_eq q _ (pump_open 0 _ q r e (l' ∙ l) i))
              (pump_open calls rounds q r e l i, i, refl)
      ]

  -- What each round and the flag `pumping` leave true, `pump` leaves true.
  pub pump_all-Keeps :
      (P : Queue → Type 0)
      → ((q : Queue) → P q → Keeps P (turn write q))
      → ((b : Bool) (q : Queue) → P q → P (set_pumping b q))
      → (q : Queue) → q.pumping ≡ false
      → P q
      → P (pump_all write q)
  pump_all-Keeps P keep flag q p h = elim (pump_all_cases q p) [
    | inl (e, _) ↦ rw e h
    | inr (r, fuel, l, e, _) ↦
        rw e (flag false r (loop-Keeps write P keep fuel (set_pumping true q) r (flag true q h) l))
  ]
