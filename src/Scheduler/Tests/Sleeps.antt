-- ===== src/Scheduler/Tests/Sleeps.antt =====
-- The theorems on `CoroSleep` at a concrete scheduler.
use coroxx.Scheduler.TimeQueue.{bucket}
use coroxx.Scheduler.TimeQueue.Order.{queue_of}
use coroxx.Base.{
  Option, [], ◌∷◌, ◌++◌, ◌>>=◌, ℕ, ◌+◌, ◌-◌, ◌≡◌, ◌≢◌, refl, false, none, some, arith, Ensures, inr,
}
use coroxx.Base.Int.{pos}
use coroxx.Base.Store.{update, read_block}
use coroxx.CoroBase.{CoroutineFunction, coro_sleep_cb, default_options}
use coroxx.LibCoro.Objects.{init, new_share_stack, new_coro}
use coroxx.LibCoro.Safety.{Settled, SiteFits, Spares}
use coroxx.LibCoro.Safety.History.{Steps, creates, done, then}
use coroxx.LibCoro.Tests.{
  site, started, started-Settled, started-Fits, started-Spares, started-target, started-current,
  started-coro, started-On, shared_stack, shared_stack-shared, Sized-Fits, once_used,
  once_used-Sized,
}
use coroxx.Scheduler.State.{World, boot}
use coroxx.Scheduler.Tasks.{coro_sleep, sleep_callback, invoke}
use coroxx.Scheduler.Tasks.Sleep.{
  wake_time, Sleeping, coro_sleep-Sleeping, coro_sleep-sleep_callback,
}

abbrev sleep_world : World
sleep_world = boot default_options started (λ n. record { tv_sec = n; tv_usec = 0 })

coro_sleep-Sleeping_example :
    Ensures
      (Sleeping 2 (site 190 300) 2 0 (pos 5) sleep_world)
      (coro_sleep (pos 5) (site 190 300) sleep_world)
coro_sleep-Sleeping_example =
    coro_sleep-Sleeping 2 (site 190 300) 2 0 (pos 5) sleep_world started-Settled started-Fits
      (started-Spares 2) started-current started-target tt

-- Coroutine 0 sleeps.
asleep : World
unfolding coro_sleep
asleep = elim (coro_sleep (pos 5) (site 190 300) sleep_world) [ some w ↦ w | none ↦ sleep_world ]

asleep_eq : coro_sleep (pos 5) (site 190 300) sleep_world ≡ some asleep
unfolding asleep started init new_share_stack new_coro
asleep_eq = refl

-- Another coroutine is made meanwhile.
later : World
later = record asleep { env = new_coro false asleep.env }

later-Steps : Steps 2 0 asleep.env later.env
unfolding later
later-Steps = then _ _ _ (creates asleep.env) (done _)

later-Fits : SiteFits (site 180 300) later.env
unfolding later asleep started init new_share_stack new_coro shared_stack once_used
later-Fits = Sized-Fits 180 later.env (omega arith) (omega arith) once_used-Sized

later-Spares : Spares 2 (site 180 300) later.env.coros 0
later-Spares k q = inr (omega arith)

two_ne_zero : ◌≢◌ {A = ℕ} 2 0
two_ne_zero = omega arith

-- The functions of the program that do not switch do nothing here, and no other coroutine runs.
abbrev run_nothing : CoroutineFunction → Option ℕ → World → Option World
run_nothing f v w = some w

later_task : later.tasks sleep_world.next_address ≡ asleep.tasks sleep_world.next_address
unfolding later
later_task = refl

coro_sleep-sleep_callback_example :
    (bucket (wake_time (pos 5) sleep_world) asleep.scheduler.coro_time_queue
      ≡ some (
          queue_of (bucket (wake_time (pos 5) sleep_world) sleep_world.scheduler.coro_time_queue)
          ++ sleep_world.next_address ∷ []))
    × (invoke run_nothing (λ w. some w) (site 180 300) sleep_world.next_address later ≡ (
        run_nothing coro_sleep_cb (some 0) later >>= λ w.
        some (record w { tasks = update w.tasks sleep_world.next_address none })))
    × Ensures
        (λ d.
          Settled d.env
          × (d.env.current ≡ some 0)
          × (read_block d.env.mem 190
                ((shared_stack (some 0)).sptr + (shared_stack (some 0)).ssze - 190 - 2)
              ≡ read_block started.mem 190
                  ((shared_stack (some 0)).sptr + (shared_stack (some 0)).ssze - 190 - 2)))
        (sleep_callback (some 0) (site 180 300) later)
coro_sleep-sleep_callback_example =
    coro_sleep-sleep_callback 2 (site 190 300) 2 0 (pos 5) sleep_world started-Settled started-Fits
      (started-Spares 2) started-current started-target tt (site 180 300) (site 180 300) run_nothing
      (λ w. some w) 0 started-coro.0 (shared_stack (some 0)) asleep later started-On
      shared_stack-shared two_ne_zero asleep_eq later-Steps later_task later-Fits later-Spares
