-- ===== src/Scheduler/Routine/Drain.antt =====
-- `CheckTimeQueue` of scheduler.cpp comes to an end, and no task is lost.
use coroxx.Base.{ℕ, ◌≡◌, ◌⊎◌, some, List, [], ◌∷◌, ◌++◌, sym, ◌∙◌, ap}
use mathlib.Core.List.{append_assoc}
use coroxx.Base.Int.{ℤ, pos, ◌-ℤ◌, ◌<ℤ◌}
use coroxx.Scheduler.State.{World, current_mills}
use coroxx.Scheduler.TimeQueue.{TimeTable, bucket}
use coroxx.Scheduler.TimeQueue.Order.{Sorted}
use coroxx.Scheduler.Routine.Census.{Accounted}
use coroxx.Scheduler.Routine.Sweep.{Grows}

-- The tasks of `q` were invoked, one after the other.
abbrev pub Ran : List ℕ → List ℕ → Type 0
Ran q log = (before : List ℕ) × (after : List ℕ) × (log ≡ before ++ q ++ after)

pub Ran-more : (q log log' : List ℕ) → Grows log log' → Ran q log → Ran q log'
Ran-more q log log' (more, e) (before, after, r) =
    (before, after ++ more, e ∙ ap (◌++ more) r ∙ append_assoc (before ++ q) after more)

pub Ran-part : (q more log : List ℕ) → Ran (q ++ more) log → Ran q log
Ran-part q more log (before, after, r) = (
  before,
  more ++ after,
  r ∙ ap (◌++ after) (sym (append_assoc before q more)) ∙ append_assoc (before ++ q) more after,
)

-- `t` milliseconds remain until the first deadline, by the reading of the clock that led to `w`; 0 if
-- there is none.
pub data Remains (w : World) (t : ℤ) : Type 0 where
  idle : w.scheduler.coro_time_queue ≡ [] → t ≡ pos 0 → Remains w t
  until :
      (ts : ℤ) (q : List ℕ) (rest : TimeTable) (now : ℕ) (v : World)
      → w.scheduler.coro_time_queue ≡ (ts, q) ∷ rest
      → current_mills v ≡ (now, w)
      → pos now <ℤ ts
      → t ≡ ts -ℤ pos now
      → Remains w t

-- The queue of every deadline of `w` was invoked, or waits on, perhaps with further tasks behind.
abbrev pub Conserved : TimeTable → World → Type 0
Conserved m w' =
    (ts : ℤ) (q : List ℕ)
    → bucket ts m ≡ some q
    → Ran q w'.dispatched
      ⊎ ((more : List ℕ) × (bucket ts w'.scheduler.coro_time_queue ≡ some (q ++ more)))

pub record Drained (w : World) (t : ℤ) (w' : World) : Type 0 where
  pub sorted : Sorted w'.scheduler.coro_time_queue
  pub remains : Remains w' t
  pub conserved : Conserved w.scheduler.coro_time_queue w'
  pub tasks : Grows w.scheduler.coro_queue w'.scheduler.coro_queue
  pub log : Grows w.dispatched w'.dispatched
  pub accounted : Accounted [] w'

abbrev Ends : World → ℤ × World → Type 0
Ends w (t, w') = Drained w t w'
