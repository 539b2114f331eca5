-- ===== src/Scheduler/Tests/Starts.antt =====
-- The theorems on new coroutines and on deleted ones at a concrete scheduler.
use coroxx.Base.{ℕ, ◌≡◌, refl, true, none, some, [], ◌∷◌, arith, Ensures, result, All-mono, Option}
use coroxx.CoroBase.{CoroutineFunction, default_options, coro_sleep_cb}
use coroxx.LibCoro.Objects.{CoroEnv, init, new_share_stack, new_coro, reset_context}
use coroxx.LibCoro.Safety.{SiteFits}
use coroxx.LibCoro.Tests.{thread, thread-Settled, site}
use coroxx.Scheduler.State.{World, boot, set_scheduler}
use coroxx.Scheduler.Coroutines.{
  init_coro_pool, get_coroutine, coro_gc, create_coroutine, new_call_data,
}
use coroxx.Scheduler.Coroutines.Pool.{
  Filled, rescheduled, init_coro_pool-Filled, Addressed, Obtained,
}
use coroxx.Scheduler.Coroutines.Given.{Origin, get_coroutine-Obtained}
use coroxx.Scheduler.Coroutines.Collect.{AllSpent, Collected, coro_gc-Collected}
use coroxx.Scheduler.Routine.{start}
use coroxx.Scheduler.Routine.Launch.{Prepared, start-Prepared}
use coroxx.Base.{false}
use coroxx.Base.Int.{ℤ, pos}
use coroxx.Scheduler.Tasks.{start_coro}
use coroxx.Scheduler.Tasks.Starts.{Sound, Launched, start_coro-Launched}

abbrev new_world : World
new_world = boot default_options thread (λ n. record { tv_sec = n; tv_usec = 0 })

new_world-Addressed : Addressed new_world
new_world-Addressed a d q = cc

init_coro_pool-Filled_example : Ensures (Filled 2 new_world) (init_coro_pool 2 new_world)
init_coro_pool-Filled_example =
    init_coro_pool-Filled 2 new_world thread-Settled new_world-Addressed tt

-- A scheduler with two coroutines in its pool, and one to delete.
filled : World
unfolding init_coro_pool
filled = elim (init_coro_pool 2 new_world) [ some w ↦ w | none ↦ new_world ]

Ensures_run :
    {P : World → Type 0} (e : Option World) (d : World)
    → Ensures P e
    → P (elim e [ some x ↦ x | none ↦ d ])
Ensures_run _ d (result a p) = p

filled-Filled : Filled 2 new_world filled
unfolding filled
filled-Filled = Ensures_run (init_coro_pool 2 new_world) new_world init_coro_pool-Filled_example

used_world : World
used_world = set_scheduler (record filled.scheduler { deleting_coros = 1 ∷ [] }) filled

used_world-Spent : AllSpent (1 ∷ []) used_world.env
unfolding used_world filled init_coro_pool create_coroutine new_call_data init new_share_stack
    new_coro reset_context
used_world-Spent = (
  (record { exists = (_, refl); idle = λ q. cc; not_main = λ q. cc; not_stacked = tt }, tt),
  (tt, tt),
)

used_world-Sound : Sound used_world
unfolding used_world filled init_coro_pool create_coroutine new_call_data init new_share_stack
    new_coro reset_context
used_world-Sound = record {
  settled = filled-Filled.settled;
  addressed = λ a d q. filled-Filled.addressed a d q;
  spent = used_world-Spent;
  pooled = All-mono filled.scheduler.coro_pool (rescheduled _ filled) filled-Filled.pooled;
  apart = ((omega arith, tt), ((omega arith, tt), tt));
}

used_world-Fits : SiteFits (site 0 100) used_world.env
unfolding used_world filled init_coro_pool create_coroutine new_call_data init new_share_stack
    new_coro reset_context
used_world-Fits = record {
  frame = λ c s k st q. cc;
  fresh = record { fits = omega arith; roomy = omega arith; apart = λ s st q. cc };
  roomy = λ s st q. cc;
}

coro_gc-Collected_example :
    Ensures
      (λ (w' : World).
        Collected used_world.scheduler.deleting_coros used_world.env w'.env
        × (w'
            ≡ set_scheduler
                (record used_world.scheduler { deleting_coros = [] })
                (record used_world { env = w'.env })))
      (coro_gc used_world)
coro_gc-Collected_example =
    coro_gc-Collected used_world used_world-Sound.settled used_world-Sound.spent

get_coroutine-Obtained_example :
    Ensures
      (λ ((coro, w') : ℕ × World).
        (entry : CoroutineFunction) × Obtained coro entry coro_sleep_cb (some 4) used_world w'
        × Origin used_world coro entry w')
      (get_coroutine coro_sleep_cb (some 4) used_world)
get_coroutine-Obtained_example =
    get_coroutine-Obtained coro_sleep_cb (some 4) used_world used_world-Sound.settled
      used_world-Sound.addressed used_world-Sound.pooled

start_coro-Launched_example :
    Ensures
      (λ ((task, w') : ℕ × World).
        Launched 2 (site 0 100) coro_sleep_cb (some 4) used_world task w')
      (start_coro (some 0) coro_sleep_cb (some 4) true (site 0 100) used_world)
start_coro-Launched_example =
    start_coro-Launched 2 coro_sleep_cb (some 4) (site 0 100) used_world used_world-Sound
      used_world-Fits (omega arith) 0 true

-- A scheduler in the thread that starts it.
abbrev here : World
here = record new_world {
  scheduler = record new_world.scheduler {
    options = record default_options { create_thread = false; init_coro_pool_num = 2 };
  };
}

here-Addressed : Addressed here
here-Addressed a d q = cc

start-Prepared_example :
    Ensures
      (λ ((code, caller', w') : ℤ × CoroEnv × World).
        (code ≡ pos 0) × (caller' ≡ w'.env) × Prepared here.scheduler.options w')
      (start (pos 0) (pos 11) thread here)
start-Prepared_example =
    start-Prepared (pos 0) (pos 11) thread here refl thread-Settled here-Addressed refl
