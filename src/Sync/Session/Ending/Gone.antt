-- ===== src/Sync/Session/Ending/Gone.antt =====
-- A connection that the registry has let go of, and a queue that is closed, stay so.
use verilink.Base.{
  ℕ, zero, suc, ◌+◌, ◌≤◌, ◌≡◌, refl, inl, inr, Bool, true, false, not, List, [], ◌∷◌, ◌++◌, String,
  arith, Bool-cases, any, keep, ◌==◌,
}
use verilink.Sync.WriteQueue.{WriteResult, Queue, close}
use verilink.Sync.Registry.{SseRegistry, SseConnection, unregister, close_all, try_register}
use verilink.Sync.Registry
use verilink.Sync.WriteQueue.Pump

pub pump_all-closed :
    (write : ℕ → String → WriteResult) (q : Queue)
    → q.is_closed ≡ true
    → (Pump.pump_all write q).is_closed ≡ true
unfolding Pump.pump_all Pump.pump
pump_all-closed write q h = ground arith

pub run_microtask-closed :
    (write : ℕ → String → WriteResult) (n : ℕ) (q : Queue)
    → q.is_closed ≡ true
    → (Pump.run_microtask write n q).is_closed ≡ true
unfolding Pump.run_microtask
run_microtask-closed write zero q h = h
run_microtask-closed write (suc n) q h = pump_all-closed write (record q { microtasks = n }) h

pub reset_inflight-closed :
    (q : Queue) → q.is_closed ≡ true → (Pump.reset_inflight q).is_closed ≡ true
unfolding Pump.reset_inflight
reset_inflight-closed q h = ground arith

pub close-closed : (q : Queue) → (close q).is_closed ≡ true
unfolding close
close-closed q = ground arith

any-keep {ℓ} :
    {A : Type ℓ} (p q : A → Bool) (xs : List A) → any p xs ≡ false → any p (keep q xs) ≡ false
any-keep p q [] h = refl
any-keep p q (x ∷ xs) h = ground (arith, any-keep p q xs)

pub any-without {ℓ} :
    {A : Type ℓ} (p : A → Bool) (xs : List A) → any p (keep (λ x. not (p x)) xs) ≡ false
any-without p [] = refl
any-without p (x ∷ xs) = ground (arith, any-without p xs)

any-snoc {ℓ} :
    {A : Type ℓ} (p : A → Bool) (xs : List A) (x : A)
    → any p xs ≡ false
    → p x ≡ false
    → any p (xs ++ x ∷ []) ≡ false
any-snoc p [] x h k = ground arith
any-snoc p (y ∷ xs) x h k = ground (arith, any-snoc p xs x)

-- The registry has no connection of this id, and gives it to none.
abbrev pub IsGone : ℕ → SseRegistry → Type 0
IsGone id r = (any (λ c. c.id == id) r.connections ≡ false) × (id + 1 ≤ r.next_id)

try_register-IsGone :
    (queue : Queue) (id : ℕ) (r : SseRegistry) → IsGone id r → IsGone id (try_register queue r).1
unfolding try_register
try_register-IsGone queue id r (h, k) = elim (Bool-cases r.accepting) [
  | inl e ↦ rw e (any-snoc (λ c. c.id == id) r.connections _ h (ground arith), omega arith)
  | inr e ↦ rw e (h, k)
]

pub step-IsGone :
    (e : Registry.Event) (id : ℕ) (r : SseRegistry) → IsGone id r → IsGone id (Registry.step e r)
unfolding Registry.step Registry.stop_accepting Registry.start_accepting unregister
step-IsGone (Registry.registers queue) id r h = try_register-IsGone queue id r h
step-IsGone (Registry.unregisters other) id r (h, k) = (any-keep _ _ r.connections h, k)
step-IsGone Registry.stops_accepting id r h = h
step-IsGone Registry.starts_accepting id r h = h
