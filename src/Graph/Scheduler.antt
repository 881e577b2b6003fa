-- ===== src/Graph/Scheduler.antt =====
-- control-plane/src/domains/graph/recomputeScheduler.ts: the scheduler of score recomputes. A method
-- runs to its next `await`; what waits is a task, and a history is a list of calls, timers that
-- fire, and resumptions of tasks. A recompute that fails is logged, and goes on like one that
-- succeeds. The waits of `stop` for an active run change no state.
pub mod SingleFlight
pub mod LostMark
use verilink.Base.{
  ℕ, zero, suc, ◌+◌, Bool, true, false, not, ◌&&◌, ◌||◌, Option, none, some, List, [], ◌∷◌, ◌++◌,
  if◌then◌else◌,
}

-- Where a run waits: in the loop for a recompute, for the rerun of a shutdown, for the callback of
-- `finally`, and in `stop` for the rerun of an idle scheduler.
pub data Task : Type 0 where
  computing draining finishing idle_draining : Task

-- `runs` counts the calls of `recompute`.
pub record Scheduler : Type 0 where
  pub running : Bool
  pub dirty : Bool
  pub stopping : Bool
  pub started : Bool
  pub debounce_timer : Bool
  pub interval_timer : Bool
  pub active_run : Bool
  pub tasks : List Task
  pub runs : ℕ

unfoldable pub new : Scheduler
new = record {
  running = false;
  dirty = false;
  stopping = false;
  started = false;
  debounce_timer = false;
  interval_timer = false;
  active_run = false;
  tasks = [];
  runs = 0;
}

unfoldable pub start : Scheduler → Scheduler
start s = record s { stopping = false; started = true; interval_timer = true }

pub schedule_debounce : Scheduler → Scheduler
schedule_debounce s =
    if s.stopping || s.debounce_timer then s else record s { debounce_timer = true }

unfoldable pub mark_dirty : Scheduler → Scheduler
unfolding schedule_debounce
mark_dirty s =
    if s.stopping || not s.started
    then s
    else if s.running
    then record s { dirty = true }
    else schedule_debounce (record s { dirty = true })

-- `kick`, with the part of `runLoop` up to its first `await`.
unfoldable pub kick : Scheduler → Scheduler
kick s =
    if s.stopping && not s.running
    then s
    else if s.running
    then record s { dirty = true }
    else record s {
      debounce_timer = false;
      running = true;
      active_run = true;
      dirty = false;
      runs = s.runs + 1;
      tasks = computing ∷ s.tasks;
    }

-- The callbacks of the two timers.
unfoldable pub debounce_fires : Scheduler → Scheduler
unfolding kick
debounce_fires s =
    let fired = record s { debounce_timer = false } in
    if not s.debounce_timer then s else if s.stopping then fired else kick fired

unfoldable pub interval_fires : Scheduler → Scheduler
unfolding kick
interval_fires s = if not s.interval_timer || s.stopping then s else kick s

unfoldable pub stop : Scheduler → Scheduler
stop s =
    let stopped = record s {
      stopping = true;
      started = false;
      debounce_timer = false;
      interval_timer = false;
    } in
    if s.active_run
    then stopped
    else if s.dirty
    then record stopped {
      running = true;
      dirty = false;
      runs = s.runs + 1;
      tasks = idle_draining ∷ s.tasks;
    }
    else stopped

-- The task resumes, and `rest` are the other tasks.
unfoldable pub resume_task : Task → List Task → Scheduler → Scheduler
resume_task computing rest s =
    if s.dirty && not s.stopping
    then record s { dirty = false; runs = s.runs + 1; tasks = computing ∷ rest }
    else if s.stopping && s.dirty
    then record s { dirty = false; runs = s.runs + 1; tasks = draining ∷ rest }
    else record s { tasks = finishing ∷ rest }
resume_task draining rest s = record s { dirty = false; tasks = finishing ∷ rest }
resume_task finishing rest s = record s { running = false; active_run = false; tasks = rest }
resume_task idle_draining rest s = record s { dirty = false; running = false; tasks = rest }

-- The n-th of the tasks, and the others.
unfoldable pub pick : ℕ → List Task → Option (Task × List Task)
pick n [] = none
pick zero (t ∷ ts) = some (t, ts)
pick (suc n) (t ∷ ts) = elim (pick n ts) [ none ↦ none | some (u, us) ↦ some (u, t ∷ us) ]

unfoldable pub resume : ℕ → Scheduler → Scheduler
unfolding pick resume_task
resume n s = elim (pick n s.tasks) [ none ↦ s | some (t, rest) ↦ resume_task t rest s ]

pub data Event : Type 0 where
  starts marks kicks debounces ticks stops : Event
  resumes : ℕ → Event

unfoldable pub step : Event → Scheduler → Scheduler
unfolding start mark_dirty kick debounce_fires interval_fires stop resume
step starts s = start s
step marks s = mark_dirty s
step kicks s = kick s
step debounces s = debounce_fires s
step ticks s = interval_fires s
step stops s = stop s
step (resumes n) s = resume n s

unfoldable pub run : List Event → Scheduler → Scheduler
unfolding step
run [] s = s
run (e ∷ es) s = run es (step e s)
