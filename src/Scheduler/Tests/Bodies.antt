-- ===== src/Scheduler/Tests/Bodies.antt =====
-- The theorem on the bodies of coroutines at a concrete scheduler.
use coroxx.Base.{ℕ, true, false, Option, none, some, refl, Ensures, result}
use coroxx.Base.Store.{update}
use coroxx.CoroBase.{CoroutineFunction, user}
use coroxx.LibCoro.Tests.{site, started-Settled, started-Fits, started-Spares}
use coroxx.Scheduler.State.{World}
use coroxx.Scheduler.Tasks.{non_pool_body, pool_round}
use coroxx.Scheduler.Tasks.Bodies.{Returned, Over, non_pool_body-pool_round}
use coroxx.Scheduler.Tests.{
  joined_world, joined_world-Joinable, joined_world-Counted, joined_world_next,
}

-- Coroutine 0 runs function 7, which returns at once.
abbrev called_world : World
called_world = record joined_world {
  call_data = update (λ _. none) 3 (some (record { coro = 0; arg = some 5; func = user 7 }));
}

abbrev returns : CoroutineFunction → Option ℕ → World → Option World
returns f a w = some w

called_world-Returned : Returned 2 (site 190 300) 0 1 called_world
called_world-Returned = record {
  settled = started-Settled;
  fits = started-Fits;
  spares = started-Spares 1;
  joinable = joined_world-Joinable;
  counted = joined_world-Counted;
  next = joined_world_next;
}

non_pool_body-pool_round_example :
    Ensures
      (Over 2 (site 190 300) 0 1 false (some called_world))
      (non_pool_body returns 3 (site 190 300) called_world)
    × Ensures
        (Over 2 (site 190 300) 0 1 true (some called_world))
        (pool_round returns 0 3 (site 190 300) called_world)
non_pool_body-pool_round_example =
    non_pool_body-pool_round returns 2 (site 190 300) 3 1 called_world
      (record { coro = 0; arg = some 5; func = user 7 }) refl refl
      (result called_world called_world-Returned)
