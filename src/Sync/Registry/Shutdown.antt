-- ===== src/Sync/Registry/Shutdown.antt =====
-- Ids are not shared, and a shutdown lets nobody in.
use verilink.Base.{
  ℕ, ◌+◌, ◌≤◌, ◌≡◌, refl, inl, inr, Bool, true, false, not, List, [], ◌∷◌, ◌++◌, String, keep, ◌==◌,
  arith, length, length-keep, length-map, All, Bool-cases,
}
use verilink.Sync.WriteQueue.{Queue}
use verilink.Sync.Registry.{
  SseConnection, SseRegistry, empty_registry, try_register, begin_shutdown, tell, close_all, Event,
  registers, unregisters, stops_accepting, starts_accepting, step, run,
}

-- The ids rise from `n` to below `m`, so no two connections share one.
abbrev pub Between : ℕ → List SseConnection → ℕ → Type 0
Between n [] m = n ≤ m
Between n (c ∷ cs) m = (n ≤ c.id) × Between (c.id + 1) cs m

Between-grow : (n k : ℕ) (cs : List SseConnection) (m : ℕ) → n ≤ k → Between k cs m → Between n cs m
Between-grow n k [] m l h = omega arith
Between-grow n k (c ∷ cs) m l h = (omega (arith, h.0), h.1)

Between-append :
    (n : ℕ) (cs : List SseConnection) (m : ℕ) (c : SseConnection)
    → c.id ≡ m
    → Between n cs m
    → Between n (cs ++ (c ∷ [])) (m + 1)
Between-append n [] m c e h = (omega (arith, h), omega arith)
Between-append n (d ∷ cs) m c e h = (h.0, Between-append (d.id + 1) cs m c e h.1)

Between-keep :
    (p : SseConnection → Bool) (n : ℕ) (cs : List SseConnection) (m : ℕ)
    → Between n cs m
    → Between n (keep p cs) m
Between-keep p n [] m h = h
Between-keep p n (c ∷ cs) m h = elim (Bool-cases (p c)) [
  | inl e ↦ rw e (h.0, Between-keep p (c.id + 1) cs m h.1)
  | inr e ↦ rw e (Between-keep p n cs m (Between-grow n (c.id + 1) cs m (omega (arith, h.0)) h.1))
]

register_shut :
    (queue : Queue) (r : SseRegistry)
    → r.accepting ≡ false
    → Between 1 r.connections r.next_id
    → Between 1 (try_register queue r).1.connections (try_register queue r).1.next_id
unfolding try_register
register_shut queue r e h = rw (try_register, e) h

register_open :
    (queue : Queue) (r : SseRegistry)
    → r.accepting ≡ true
    → Between 1 r.connections r.next_id
    → Between 1 (try_register queue r).1.connections (try_register queue r).1.next_id
unfolding try_register
register_open queue r e h =
    let conn : SseConnection = record { id = r.next_id; queue = queue; aborted = false } in
    rw (try_register, e) (Between-append 1 r.connections r.next_id conn refl h)

step-Between :
    (e : Event) (r : SseRegistry)
    → Between 1 r.connections r.next_id
    → Between 1 (step e r).connections (step e r).next_id
unfolding step
step-Between (registers queue) r h = elim (Bool-cases r.accepting) [
  | inl e ↦ register_open queue r e h
  | inr e ↦ register_shut queue r e h
]
step-Between (unregisters id) r h = Between-keep (λ c. not (c.id == id)) 1 r.connections r.next_id h
step-Between stops_accepting r h = h
step-Between starts_accepting r h = h

run-Between :
    (es : List Event) (r : SseRegistry)
    → Between 1 r.connections r.next_id
    → Between 1 (run es r).connections (run es r).next_id
unfolding run
run-Between [] r h = h
run-Between (e ∷ es) r h = run-Between es (step e r) (step-Between e r h)

-- In every history of a registry the ids of the open connections rise strictly, so no two share
-- one, and they are below the next id that is given out.
run-ids :
    (es : List Event)
    → Between 1 (run es empty_registry).connections (run es empty_registry).next_id
unfolding empty_registry
run-ids es = run-Between es empty_registry (omega arith)

-- A history in which nothing starts to accept again.
abbrev pub StaysShut : Event → Type 0
StaysShut (registers queue) = Unit
StaysShut (unregisters id) = Unit
StaysShut stops_accepting = Unit
StaysShut starts_accepting = ⊥

step-shut :
    (e : Event) (r : SseRegistry)
    → StaysShut e
    → r.accepting ≡ false
    → ((step e r).accepting ≡ false) × (length (step e r).connections ≤ length r.connections)
unfolding step
step-shut (registers queue) r k h = ground arith
step-shut (unregisters id) r k h = (h, length-keep (λ c. not (c.id == id)) r.connections)
step-shut stops_accepting r k h = (refl, omega arith)
step-shut starts_accepting r k h = elim k [ ]

run-shut :
    (es : List Event) (r : SseRegistry)
    → All StaysShut es
    → r.accepting ≡ false
    → ((run es r).accepting ≡ false) × (length (run es r).connections ≤ length r.connections)
unfolding run
run-shut [] r k h = (h, omega arith)
run-shut (e ∷ es) r k h =
    let (shut, less) = step-shut e r k.0 h in
    let (shut', less') = run-shut es (step e r) k.1 shut in (shut', omega (arith, less, less'))

no_connection : (cs : List SseConnection) → length cs ≤ 0 → cs ≡ []
no_connection [] h = refl
no_connection (c ∷ cs) h = absurd (omega arith)

-- After a shutdown has begun, whatever asks to be registered, no connection is added while it waits,
-- and when it has closed the rest none is open from then on, as long as nothing starts to accept
-- again.
pub shutdown_complete :
    (frame : String) (r : SseRegistry) (waiting later : List Event)
    → All StaysShut waiting
    → All StaysShut later
    → (length (run waiting (begin_shutdown frame r)).connections ≤ length r.connections)
      × ((run later (close_all (run waiting (begin_shutdown frame r))).1).connections ≡ [])
unfolding begin_shutdown close_all
shutdown_complete frame r waiting later k l =
    let begun = begin_shutdown frame r in
    let (shut, less) = run-shut waiting begun k refl in
    let waited = run waiting begun in
    let (_, none_left) = run-shut later (close_all waited).1 l shut in
    (
      omega (arith, less, length-map (tell frame) r.connections),
      no_connection (run later (close_all waited).1).connections none_left,
    )
