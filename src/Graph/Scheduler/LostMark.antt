-- ===== src/Graph/Scheduler/LostMark.antt =====
-- A change that is marked after the loop has returned and before its `finally` callback runs.
use verilink.Base.{◌≡◌, true, false, List, [], ◌∷◌, arith}
use verilink.Graph.Scheduler.{Task, finishing, Scheduler, run, marks, resumes}

-- A change that is marked in a started scheduler whose loop has returned, before the callback of
-- `finally` runs, is left behind: when the callback has run, the scheduler is dirty, no recompute
-- runs or was started, and the debounce timer is not armed.
pub mark-finishing_lost :
    (s : Scheduler) (rest : List Task)
    → s.started ≡ true
    → s.stopping ≡ false
    → s.running ≡ true
    → s.debounce_timer ≡ false
    → s.tasks ≡ finishing ∷ rest
    → ((run (marks ∷ resumes 0 ∷ []) s).dirty ≡ true)
      × ((run (marks ∷ resumes 0 ∷ []) s).running ≡ false)
      × ((run (marks ∷ resumes 0 ∷ []) s).debounce_timer ≡ false)
      × ((run (marks ∷ resumes 0 ∷ []) s).runs ≡ s.runs)
unfolding run
mark-finishing_lost s rest a b c d e = ground arith
