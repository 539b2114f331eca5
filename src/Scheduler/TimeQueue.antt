-- ===== src/Scheduler/TimeQueue.antt =====
-- `coro_time_queue`, a `std::map` from deadlines to queues of tasks, with the smallest deadline
-- first.
pub mod Order
pub mod Load
use coroxx.Base.{ℕ, Option, none, some, List, [], ◌∷◌, ◌++◌, if◌then◌else◌}
use coroxx.Base.Int.{ℤ, pos, ◌+ℤ◌, ltz, eqz}
use coroxx.Scheduler.State.{World, current_mills}

abbrev pub TimeTable : Type 0
TimeTable = List (ℤ × List ℕ)

-- `coro_time_queue[ts].push_back(data)`.
unfoldable pub add_at : ℤ → ℕ → TimeTable → TimeTable
add_at ts a [] = (ts, a ∷ []) ∷ []
add_at ts a ((k, q) ∷ m) =
    if eqz ts k
    then (k, q ++ a ∷ []) ∷ m
    else if ltz ts k
    then (ts, a ∷ []) ∷ (k, q) ∷ m
    else (k, q) ∷ add_at ts a m

-- The queue of a deadline.
unfoldable pub bucket : ℤ → TimeTable → Option (List ℕ)
bucket ts [] = none
bucket ts ((k, q) ∷ m) = if eqz ts k then some q else bucket ts m

-- `coro_time_queue.erase(it)`.
unfoldable pub erase_at : ℤ → TimeTable → TimeTable
erase_at ts [] = []
erase_at ts ((k, q) ∷ m) = if eqz ts k then m else (k, q) ∷ erase_at ts m

unfoldable pub add_time_coro_task : ℕ → ℤ → World → World
unfolding current_mills add_at
add_time_coro_task a wait_time w =
    let (now, w') = current_mills w in
    let s = w'.scheduler in
    record w' {
      scheduler = record s { coro_time_queue = add_at (pos now +ℤ wait_time) a s.coro_time_queue };
    }
