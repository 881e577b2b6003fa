-- ===== src/Graph/Scheduler/SingleFlight.antt =====
-- One recompute at a time.
use verilink.Base.{
  ℕ, zero, suc, ◌≤◌, ◌≡◌, refl, inl, inr, ◌≢◌, Bool, true, false, not, ◌||◌, List, [], ◌∷◌, arith,
  none, some, ap, sym, subst, Bool-cases,
}
use verilink.Graph.Scheduler.{
  Task, computing, draining, finishing, idle_draining, Scheduler, new, start, mark_dirty, kick,
  debounce_fires, interval_fires, stop, resume_task, pick, resume, Event, starts, marks, kicks,
  debounces, ticks, stops, resumes, step, run,
}

-- The recomputes that are under way.
abbrev pub in_flight : List Task → ℕ
in_flight [] = 0
in_flight (computing ∷ ts) = suc (in_flight ts)
in_flight (draining ∷ ts) = suc (in_flight ts)
in_flight (finishing ∷ ts) = in_flight ts
in_flight (idle_draining ∷ ts) = suc (in_flight ts)

-- The calls of `stop` in a history.
abbrev pub stops_in : List Event → ℕ
stops_in [] = 0
stops_in (stops ∷ es) = suc (stops_in es)
stops_in (starts ∷ es) = stops_in es
stops_in (marks ∷ es) = stops_in es
stops_in (kicks ∷ es) = stops_in es
stops_in (debounces ∷ es) = stops_in es
stops_in (ticks ∷ es) = stops_in es
stops_in (resumes n ∷ es) = stops_in es

resume-some :
    (n : ℕ) (s : Scheduler) (t : Task) (rest : List Task)
    → pick n s.tasks ≡ some (t, rest)
    → resume n s ≡ resume_task t rest s
unfolding resume
resume-some n s t rest e = rw (e, resume)

resume-none : (n : ℕ) (s : Scheduler) → pick n s.tasks ≡ none → resume n s ≡ s
unfolding resume
resume-none n s e = rw (e, resume)

debounce_fires_lem :
    (s : Scheduler)
    → s.debounce_timer ≡ true
    → s.stopping ≡ false
    → debounce_fires s ≡ kick (record s { debounce_timer = false })
unfolding debounce_fires
debounce_fires_lem s e p = simp (e, p)

interval_fires_none :
    (s : Scheduler) → (not s.interval_timer || s.stopping) ≡ true → interval_fires s ≡ s
unfolding interval_fires
interval_fires_none s e = simp e

interval_fires-kick :
    (s : Scheduler) → (not s.interval_timer || s.stopping) ≡ false → interval_fires s ≡ kick s
unfolding interval_fires
interval_fires-kick s e = simp e

-- The flags show the one task; `b` calls of `stop` may still come.
abbrev pub Shape : ℕ → Bool → Bool → List Task → Type 0
Shape b running active [] = (running ≡ false) × (active ≡ false)
Shape b running active (computing ∷ []) = (running ≡ true) × (active ≡ true)
Shape b running active (draining ∷ []) = (running ≡ true) × (active ≡ true)
Shape b running active (finishing ∷ []) = (running ≡ true) × (active ≡ true)
Shape b running active (idle_draining ∷ []) = (running ≡ true) × (active ≡ false) × (b ≡ 0)
Shape b running active (t ∷ u ∷ ts) = ⊥

abbrev pub IsSingle : ℕ → Scheduler → Type 0
IsSingle b s = Shape b s.running s.active_run s.tasks

Shape-idle : (b : ℕ) (a : Bool) (ts : List Task) → Shape b false a ts → ts ≡ []
Shape-idle b a [] h = refl
Shape-idle b a (computing ∷ []) h = cc
Shape-idle b a (draining ∷ []) h = cc
Shape-idle b a (finishing ∷ []) h = cc
Shape-idle b a (idle_draining ∷ []) h = cc
Shape-idle b a (t ∷ u ∷ ts) h = elim h [ ]

-- Only three fields matter.
IsSingle-of_same :
    (b : ℕ) (s r : Scheduler)
    → r.tasks ≡ s.tasks
    → r.running ≡ s.running
    → r.active_run ≡ s.active_run
    → IsSingle b s
    → IsSingle b r
IsSingle-of_same b s r et er ea h = rw (et, er, ea) h

kick-IsSingle : (b : ℕ) (s : Scheduler) → IsSingle b s → IsSingle b (kick s)
unfolding kick
kick-IsSingle b s h = elim (Bool-cases s.running) [
  | inl e ↦ IsSingle-of_same b s (kick s) (ground arith) (ground arith) (ground arith) h
  | inr e ↦ elim (Bool-cases s.stopping) [
    | inl p ↦ IsSingle-of_same b s (kick s) (ground arith) (ground arith) (ground arith) h
    | inr p ↦
        let nothing : s.tasks ≡ [] =
          Shape-idle b s.active_run s.tasks (subst (λ r. Shape b r s.active_run s.tasks) e h) in
        let tasks : (kick s).tasks ≡ computing ∷ [] = ground arith in
        let running : (kick s).running ≡ true = ground arith in
        let active : (kick s).active_run ≡ true = ground arith in
        rw (tasks, running, active) (refl, refl)
  ]
]

resume_task-IsSingle :
    (b : ℕ) (t : Task) (s : Scheduler)
    → Shape b s.running s.active_run (t ∷ [])
    → IsSingle b (resume_task t [] s)
unfolding resume_task
resume_task-IsSingle b computing s h = ground arith
resume_task-IsSingle b draining s h = h
resume_task-IsSingle b finishing s h = (refl, refl)
resume_task-IsSingle b idle_draining s h = (refl, h.1)

resume-IsSingle :
    (b k : ℕ) (ts : List Task) (s : Scheduler)
    → s.tasks ≡ ts
    → Shape b s.running s.active_run ts
    → IsSingle b s
    → IsSingle b (resume k s)
unfolding pick
resume-IsSingle b k [] s e h i = rw (resume-none k s (ap (pick k) e)) i
resume-IsSingle b zero (t ∷ []) s e h i =
    rw (resume-some zero s t [] (ap (pick zero) e)) (resume_task-IsSingle b t s h)
resume-IsSingle b (suc k) (t ∷ []) s e h i = rw (resume-none (suc k) s (ap (pick (suc k)) e)) i
resume-IsSingle b k (t ∷ u ∷ ts) s e h i = elim h [ ]

step-IsSingle :
    (b : ℕ) (e : Event) (s : Scheduler) → e ≢ stops → IsSingle b s → IsSingle b (step e s)
unfolding step
step-IsSingle b starts s n h = IsSingle-of_same b s (start s) refl refl refl h
step-IsSingle b marks s n h =
    IsSingle-of_same b s (mark_dirty s) (ground arith) (ground arith) (ground arith) h
step-IsSingle b kicks s n h = kick-IsSingle b s h
step-IsSingle b debounces s n h = elim (Bool-cases s.debounce_timer) [
  | inr e ↦ IsSingle-of_same b s (debounce_fires s) (ground arith) (ground arith) (ground arith) h
  | inl e ↦ elim (Bool-cases s.stopping) [
    | inl p ↦ IsSingle-of_same b s (debounce_fires s) (ground arith) (ground arith) (ground arith) h
    | inr p ↦
        let fired : Scheduler = record s { debounce_timer = false } in
        let same : debounce_fires s ≡ kick fired = debounce_fires_lem s e p in
        rw same (kick-IsSingle b fired h)
  ]
]
step-IsSingle b ticks s n h = elim (Bool-cases (not s.interval_timer || s.stopping)) [
  | inl e ↦ subst (IsSingle b) (sym (interval_fires_none s e)) h
  | inr e ↦ subst (IsSingle b) (sym (interval_fires-kick s e)) (kick-IsSingle b s h)
]
step-IsSingle b stops s n h = absurd (n refl)
step-IsSingle b (resumes k) s n h = resume-IsSingle b k s.tasks s refl h h

Shape-weaken : (b : ℕ) (r a : Bool) (ts : List Task) → Shape (suc b) r a ts → Shape b r a ts
Shape-weaken b r a [] h = h
Shape-weaken b r a (computing ∷ []) h = h
Shape-weaken b r a (draining ∷ []) h = h
Shape-weaken b r a (finishing ∷ []) h = h
Shape-weaken b r a (idle_draining ∷ []) h = absurd (omega arith)
Shape-weaken b r a (t ∷ u ∷ ts) h = elim h [ ]

Shape-inactive : (b : ℕ) (r : Bool) (ts : List Task) → Shape (suc b) r false ts → ts ≡ []
Shape-inactive b r [] h = refl
Shape-inactive b r (computing ∷ []) h = cc
Shape-inactive b r (draining ∷ []) h = cc
Shape-inactive b r (finishing ∷ []) h = cc
Shape-inactive b r (idle_draining ∷ []) h = absurd (omega arith)
Shape-inactive b r (t ∷ u ∷ ts) h = elim h [ ]

-- The calls of `stop` that may still come are counted down.
stop-IsSingle_last : (s : Scheduler) → IsSingle 1 s → IsSingle 0 (stop s)
unfolding stop
stop-IsSingle_last s h = elim (Bool-cases s.active_run) [
  | inl e ↦
      IsSingle-of_same 0 s (stop s) (ground arith) (ground arith) (ground arith)
        (Shape-weaken 0 s.running s.active_run s.tasks h)
  | inr e ↦
      let nothing : s.tasks ≡ [] =
        Shape-inactive 0 s.running s.tasks (subst (λ a. Shape 1 s.running a s.tasks) e h) in
      elim (Bool-cases s.dirty) [
        | inr d ↦
            IsSingle-of_same 0 s (stop s) (ground arith) (ground arith) (ground arith)
              (Shape-weaken 0 s.running s.active_run s.tasks h)
        | inl d ↦
            let tasks : (stop s).tasks ≡ idle_draining ∷ [] = ground arith in
            let running : (stop s).running ≡ true = ground arith in
            let active : (stop s).active_run ≡ false = ground arith in
            rw (tasks, running, active) (refl, refl, refl)
      ]
]

run_without_stop-IsSingle :
    (es : List Event) (s : Scheduler) → stops_in es ≡ 0 → IsSingle 0 s → IsSingle 0 (run es s)
unfolding run
run_without_stop-IsSingle [] s k h = h
run_without_stop-IsSingle (stops ∷ es) s k h = absurd (omega arith)
run_without_stop-IsSingle (e ∷ es) s k h =
    run_without_stop-IsSingle es (step e s) k (step-IsSingle 0 e s (λ p. cc) h)

run-IsSingle :
    (es : List Event) (s : Scheduler) → stops_in es ≤ 1 → IsSingle 1 s → IsSingle 0 (run es s)
unfolding run step
run-IsSingle [] s k h = Shape-weaken 0 s.running s.active_run s.tasks h
run-IsSingle (stops ∷ es) s k h =
    run_without_stop-IsSingle es (stop s) (omega arith) (stop-IsSingle_last s h)
run-IsSingle (e ∷ es) s k h = run-IsSingle es (step e s) k (step-IsSingle 1 e s (λ p. cc) h)

Shape-in_flight : (b : ℕ) (r a : Bool) (ts : List Task) → Shape b r a ts → in_flight ts ≤ 1
Shape-in_flight b r a [] h = omega arith
Shape-in_flight b r a (computing ∷ []) h = omega arith
Shape-in_flight b r a (draining ∷ []) h = omega arith
Shape-in_flight b r a (finishing ∷ []) h = omega arith
Shape-in_flight b r a (idle_draining ∷ []) h = omega arith
Shape-in_flight b r a (t ∷ u ∷ ts) h = elim h [ ]

-- In every history of a new scheduler with at most one call of `stop`, at most one recompute is
-- under way.
pub run-in_flight : (es : List Event) → stops_in es ≤ 1 → in_flight (run es new).tasks ≤ 1
unfolding new
run-in_flight es k =
    let s = run es new in
    Shape-in_flight 0 s.running s.active_run s.tasks (run-IsSingle es new k (refl, refl))
