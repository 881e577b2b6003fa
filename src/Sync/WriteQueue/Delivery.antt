-- ===== src/Sync/WriteQueue/Delivery.antt =====
-- What a queue delivers: the accepted data frames, in order, and the cursor that it reports.
pub mod Turns
pub mod Histories
use verilink.Base.{
  ℕ, zero, suc, ◌+◌, ◌≤◌, ◌≡◌, refl, sym, ap, ◌∙◌, ◌⊎◌, inl, inr, Bool, true, false, ◌||◌, Option,
  none, some, List, [], ◌∷◌, ◌++◌, append_assoc, append-nil, String, arith, Bool-cases, All,
  All-append, Any, Any-append_left, Any-append_right,
}
use verilink.Sync.WriteQueue.{
  Options, DataItem, Chunk, EnqueueResult, ok, WriteResult, accepted, buffered, error, Queue, empty,
  raise_cursor, close, enqueue_data, enqueue_control, slow_timer_fires,
}
use verilink.Sync.WriteQueue.Pump.{
  after_control, after_item, send_next, turn, pump_all, drained, reset_inflight, microtask, Event,
  data_frame, control_frame, runs_microtask, drains, closes, times_out, step, run,
}
use verilink.Sync.WriteQueue.Pump.Rounds.{Keeps, set_pumping, pump_all-Keeps, pump-total, pending}

-- The data items among the chunks that the socket took.
abbrev pub sent : List Chunk → List DataItem
sent [] = []
sent (Chunk.item i ∷ cs) = i ∷ sent cs
sent (Chunk.control s ∷ cs) = sent cs

pub sent-item :
    (cs : List Chunk) (i : DataItem) → sent (cs ++ Chunk.item i ∷ []) ≡ sent cs ++ i ∷ []
sent-item [] i = refl
sent-item (Chunk.item j ∷ cs) i = ap (◌∷◌ j) (sent-item cs i)
sent-item (Chunk.control s ∷ cs) i = sent-item cs i

pub sent-control : (cs : List Chunk) (s : String) → sent (cs ++ Chunk.control s ∷ []) ≡ sent cs
sent-control [] s = refl
sent-control (Chunk.item j ∷ cs) s = ap (◌∷◌ j) (sent-control cs s)
sent-control (Chunk.control t ∷ cs) s = sent-control cs s

-- `L` is what was sent and a rest, and the rest is what the queue holds, if it is open.
abbrev pub Delivers : List DataItem → Queue → Type 0
Delivers L q =
    (rest : List DataItem) × (sent q.wire ++ rest ≡ L) × ((q.is_closed ≡ true) ⊎ (rest ≡ q.items))

-- The reported cursor is the greatest of those sent.
abbrev pub LeCursor : Option ℕ → Option ℕ → Type 0
LeCursor none last = Unit
LeCursor (some c) none = ⊥
LeCursor (some c) (some l) = c ≤ l

abbrev pub IsGreatest : Option ℕ → List DataItem → Type 0
IsGreatest last items =
    All (λ i. LeCursor i.cursor last) items × ((last ≡ none) ⊎ Any (λ i. i.cursor ≡ last) items)

raise_cursor_le : (c last : Option ℕ) → LeCursor c (raise_cursor c last)
unfolding raise_cursor
raise_cursor_le none last = tt
raise_cursor_le (some c) none = omega arith
raise_cursor_le (some c) (some l) = ground arith

raise_cursor_mono : (c last d : Option ℕ) → LeCursor d last → LeCursor d (raise_cursor c last)
unfolding raise_cursor
raise_cursor_mono none last d h = h
raise_cursor_mono (some c) none none h = tt
raise_cursor_mono (some c) (some l) none h = tt
raise_cursor_mono (some c) (some l) (some d) h = ground arith
raise_cursor_mono (some c) none (some d) h = elim h [ ]

raise_cursor_either : (c last : Option ℕ) → (raise_cursor c last ≡ last) ⊎ (raise_cursor c last ≡ c)
unfolding raise_cursor
raise_cursor_either none last = inl refl
raise_cursor_either (some c) none = inr refl
raise_cursor_either (some c) (some l) = ground arith

All-raise :
    (c last : Option ℕ) (items : List DataItem)
    → All (λ i. LeCursor i.cursor last) items
    → All (λ i. LeCursor i.cursor (raise_cursor c last)) items
All-raise c last [] h = tt
All-raise c last (i ∷ is) h = (raise_cursor_mono c last i.cursor h.0, All-raise c last is h.1)

pub IsGreatest-raise :
    (last : Option ℕ) (items : List DataItem) (i : DataItem)
    → IsGreatest last items
    → IsGreatest (raise_cursor i.cursor last) (items ++ i ∷ [])
IsGreatest-raise last items i (all, any) = (
  All-append _ items (i ∷ []) (All-raise i.cursor last items all)
      (raise_cursor_le i.cursor last, tt),
  elim (raise_cursor_either i.cursor last) [
    | inl e ↦ elim any [
      | inl n ↦ inl (e ∙ n)
      | inr a ↦ inr (rw e (Any-append_left _ items (i ∷ []) a))
    ]
    | inr e ↦ inr (rw e (Any-append_right _ items (i ∷ []) (inl refl)))
  ],
)
