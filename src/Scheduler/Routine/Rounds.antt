-- ===== src/Scheduler/Routine/Rounds.antt =====
-- `Routine` of scheduler.cpp comes to an end when no other thread adds tasks.
use coroxx.Base.{ℕ, ◌≡◌, ◌⊎◌, Bool, false, Option, List, [], ◌++◌}
use coroxx.Base.Int.{ℤ}
use coroxx.Scheduler.State.{World, set_scheduler}
use coroxx.Scheduler.TimeQueue.Order.{Sorted}
use coroxx.Scheduler.Routine.{set_wait}
use coroxx.Scheduler.Routine.Sweep.{Grows, Call}
use coroxx.Scheduler.Routine.Census.{Accounted, Rearranged}
use coroxx.Scheduler.Routine.Drain.{Remains, Conserved}

-- The queues and the log of `w` are those of `w'`, and the tasks.
pub record Still (w w' : World) : Type 0 where
  pub rearranged : Rearranged w w'
  pub same_queue : w'.scheduler.coro_queue ≡ w.scheduler.coro_queue
  pub same_times : w'.scheduler.coro_time_queue ≡ w.scheduler.coro_time_queue
  pub same_log : w'.dispatched ≡ w.dispatched

-- The loop ran from `w` to `w'`: it invoked the tasks of `coro_queue` first and in their order, then
-- looked at the delayed ones in the state `checked`, and will wait until the first of those is due.
pub record Rested (w w' : World) : Type 0 where
  pub checked : World
  pub wait : ℤ
  pub remains : Remains checked wait
  pub same : w' ≡ set_wait wait checked
  pub sorted : Sorted checked.scheduler.coro_time_queue
  pub log : Grows (w.dispatched ++ w.scheduler.coro_queue) checked.dispatched
  pub conserved : Conserved w.scheduler.coro_time_queue checked
  pub accounted : Accounted [] checked

module _ (Ready : World → Type 0) (stable : (w w' : World) → Rearranged w w' → Ready w → Ready w')
    (weight : ℕ → ℕ) (invoke : ℕ → World → Option World)
    (calls : (a : ℕ) (w : World) → Call Ready weight invoke a w) (arrivals : World → World)
    (wait : Bool) (calm : (wait ≡ false) ⊎ ((w : World) → Still w (arrivals w))) where
  -- The front of the queue is gone.
  abbrev popped : List ℕ → World → World
  popped rest w = set_scheduler (record w.scheduler { coro_queue = rest }) w
