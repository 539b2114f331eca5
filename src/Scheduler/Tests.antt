-- ===== src/Scheduler/Tests.antt =====
-- The theorems on scheduler.cpp at concrete schedulers.
mod Starts
mod Loops
mod Sleeps
mod Handoffs
mod Processes
mod Rejoins
mod Bodies
use coroxx.Base.{
  ℕ, ◌+◌, ◌*◌, ◌≤◌, ◌<◌, ◌≡◌, ◌≢◌, refl, false, none, some, List, [], ◌∷◌, ◌++◌, arith, Ensures,
  length,
}
use coroxx.Base.Int.{pos, negsuc}
use coroxx.Base.Assoc.{find}
use coroxx.CoroBase.{default_options}
use coroxx.LibCoro.Safety.Leave.{Switched}
use coroxx.Scheduler.Coroutines.{init_coro_pool}
use coroxx.Scheduler.Coroutines.Pool.{Filled, init_coro_pool-Filled}
use coroxx.LibCoro.Tests.{thread, thread-Settled}
use coroxx.LibCoro.Tests.{
  site, started, started-Settled, started-Fits, started-Spares, started-target, started-current,
  started-Others,
}
use coroxx.Threads.Lock.{wait_call, to_uint64}
use coroxx.Threads.Lock.Deadline.{Until, now_nanos}
use coroxx.Scheduler.State.{Scheduler, World, new_scheduler, boot}
use coroxx.Scheduler.TimeQueue.{TimeTable, add_at, bucket}
use coroxx.Scheduler.TimeQueue.Order.{Sorted, queue_of, add_at_lem}
use coroxx.Scheduler.Coroutines.{JoinOutcome, waits, join, coro_done}
use coroxx.Scheduler.Coroutines.Counts.{Counted, enter_exec-Counted}
use coroxx.Scheduler.Coroutines.Done.{Joinable, Finished, successor, coro_done-Finished}
use coroxx.Scheduler.Coroutines.Joins.{join-Switched}
use coroxx.Scheduler.Tasks.{enter_exec}
use coroxx.Scheduler.Routine.{clamp_wait}
use coroxx.Scheduler.Routine.Waits.{clamp_wait-Until}
use coroxx.Scheduler.Manager.{get_scheduler}
use coroxx.Scheduler.Manager.Choice.{chosen, get_scheduler-first_idle}

abbrev busy : List (ℕ × ℕ) → Scheduler
busy table = record (new_scheduler default_options) { exec_table = table }

abbrev three_schedulers : List Scheduler
three_schedulers = busy ((4, 4) ∷ (5, 5) ∷ []) ∷ busy ((6, 6) ∷ []) ∷ busy ((7, 7) ∷ []) ∷ []

get_scheduler-first_idle_example :
    get_scheduler none three_schedulers ≡ some (chosen three_schedulers)
get_scheduler-first_idle_example = get_scheduler-first_idle three_schedulers (omega arith)

clamp_wait-Until_example :
    (n : ℕ) × (0 < n)
    × (n ≤ 100)
    × Until (wait_call 7 5 (to_uint64 (clamp_wait (negsuc 3)))) (now_nanos 7 5 + n * 1000000)
clamp_wait-Until_example = clamp_wait-Until 7 5 (negsuc 3) (omega arith)

abbrev two_deadlines : TimeTable
two_deadlines = (pos 5, 1 ∷ []) ∷ (pos 9, 2 ∷ 3 ∷ []) ∷ []

add_at_lem_example :
    Sorted (add_at (pos 9) 4 two_deadlines)
    × (bucket (pos 9) (add_at (pos 9) 4 two_deadlines)
        ≡ some (queue_of (bucket (pos 9) two_deadlines) ++ 4 ∷ []))
    × (bucket (pos 5) (add_at (pos 9) 4 two_deadlines) ≡ bucket (pos 5) two_deadlines)
add_at_lem_example = add_at_lem (pos 9) (pos 5) 4 two_deadlines ((omega arith, tt), (tt, tt)) refl

-- A thread that runs coroutine 0, with tables of running and of joined coroutines.
abbrev world : List (ℕ × ℕ) → List (ℕ × ℕ) → World
world running joined =
    let w = boot default_options started (λ n. record { tv_sec = n; tv_usec = 0 }) in
    record w {
      scheduler = record w.scheduler {
        exec_table = running;
        join_table = joined;
        exec_coro_num = pos (length running);
      };
    }

enter_exec-Counted_example :
    Counted (enter_exec 1 (world ((0, 0) ∷ []) [])).scheduler
    × (find 1 (enter_exec 1 (world ((0, 0) ∷ []) [])).scheduler.exec_table ≡ some 1)
unfolding find
enter_exec-Counted_example = enter_exec-Counted 1 (world ((0, 0) ∷ []) []) refl ((refl, tt), refl)

-- Coroutine 0 joins coroutine 1.
joining_found : find 1 (world ((0, 0) ∷ (1, 1) ∷ []) []).scheduler.exec_table ≡ some 1
unfolding find
joining_found = refl

joining_free : find 1 (world ((0, 0) ∷ (1, 1) ∷ []) []).scheduler.join_table ≡ none
unfolding find
joining_free = refl

join-Switched_example :
    Ensures
      (λ ((outcome, w') : JoinOutcome × World).
        (outcome ≡ waits)
        × Switched 2 190 2 started w'.env
        × (successor 1 w' ≡ some 0)
        × ((c : ℕ) → c ≢ 1 → find c w'.scheduler.join_table ≡ find c [])
        × (w'.scheduler.exec_table ≡ (0, 0) ∷ (1, 1) ∷ []))
      (join 1 (site 190 300) (world ((0, 0) ∷ (1, 1) ∷ []) []))
join-Switched_example =
    join-Switched 2 (site 190 300) 1 0 2 (world ((0, 0) ∷ (1, 1) ∷ []) []) 1 started-Settled
      started-Fits (started-Spares 2) started-target started-current joining_found joining_free

-- Coroutine 0, which coroutine 1 joined, is done.
abbrev joined_world : World
joined_world = world ((0, 0) ∷ []) ((0, 1) ∷ [])

joined_world-Joinable : Joinable joined_world
unfolding find
joined_world-Joinable = ((refl, tt), λ c waiting q. started-Others waiting (ground arith))

joined_world-Counted : Counted joined_world.scheduler
unfolding find
joined_world-Counted = ((refl, tt), refl)

joined_world_next : successor 0 joined_world ≡ some 1
unfolding find
joined_world_next = refl

coro_done-Finished_example :
    Ensures
      (λ w'. Switched 2 190 1 started w'.env × Finished 0 false joined_world.scheduler w'.scheduler)
      (coro_done 0 false (site 190 300) joined_world)
coro_done-Finished_example =
    coro_done-Finished 2 (site 190 300) 0 1 false joined_world started-Settled started-Fits
      (started-Spares 1) joined_world-Joinable joined_world-Counted joined_world_next
