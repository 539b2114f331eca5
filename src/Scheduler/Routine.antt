-- ===== src/Scheduler/Routine.antt =====
-- The loop of a scheduler (scheduler.cpp): `CheckTimeQueue`, `Routine`, `Run` and `Start`. The loops
-- take fuel. `invoke` is a call of `Invoke()` on a task until it returns, and `arrivals` what other
-- threads do to the queues while the scheduler waits for the condition.
pub mod Waits
pub mod Census
pub mod Sweep
pub mod Drain
pub mod Rounds
pub mod Adds
pub mod Launch
use coroxx.Base.{
  ℕ, zero, suc, ◌+◌, Bool, true, false, ◌||◌, Option, none, some, [], ◌∷◌, ◌++◌, if◌then◌else◌,
  ◌>>=◌, get_elem?,
}
use coroxx.Base.Int.{ℤ, pos, ◌-ℤ◌, ltz, eqz}
use coroxx.CoroBase.{routine_func}
use coroxx.LibCoro.Objects.{CoroEnv, CallSite, new_coro, reset_context, new_share_stack}
use coroxx.LibCoro.Switch.{switch_to}
use coroxx.Scheduler.State.{World, set_scheduler, with_env, current_mills}
use coroxx.Scheduler.TimeQueue.{bucket, erase_at}
use coroxx.Scheduler.Coroutines.{init_coro_pool, coro_gc}

-- `!(0 < wait ≤ 100)` gives 10.
unfoldable pub clamp_wait : ℤ → ℤ
clamp_wait t = if ltz t (pos 1) || ltz (pos 100) t then pos 10 else t

unfoldable pub set_wait : ℤ → World → World
set_wait t w = set_scheduler (record w.scheduler { routine_wait_ms = t }) w

unfoldable pub erase_time : ℤ → World → World
unfolding erase_at
erase_time ts w =
    let s = w.scheduler in
    set_scheduler (record s { coro_time_queue = erase_at ts s.coro_time_queue }) w

module _ (invoke : ℕ → World → Option World) where
  unfoldable pub dispatch : ℕ → World → Option World
  dispatch a w = invoke a (record w { dispatched = w.dispatched ++ a ∷ [] })

  -- `for (i = 0; i < queue.size(); i++)`; `queue` refers into the map.
  unfoldable pub run_bucket : ℕ → ℤ → ℕ → World → Option World
  unfolding bucket dispatch
  run_bucket zero ts i w = none
  run_bucket (suc fuel) ts i w = do
    q ← bucket ts w.scheduler.coro_time_queue
    elim (get_elem? q i) [
      | none ↦ some w
      | some a ↦ do w' ← dispatch a w; run_bucket fuel ts (i + 1) w'
    ]

  unfoldable pub check_time_queue : ℕ → World → Option (ℤ × World)
  unfolding current_mills run_bucket erase_time
  check_time_queue zero w = none
  check_time_queue (suc fuel) w = elim w.scheduler.coro_time_queue [
    | [] ↦ some (pos 0, w)
    | (ts, _) ∷ _ ↦
        let (now, w₁) = current_mills w in
        elim (ltz (pos now) ts) [
          | true ↦ some (ts -ℤ pos now, w₁)
          | false ↦ do w₂ ← run_bucket (suc fuel) ts 0 w₁; check_time_queue fuel (erase_time ts w₂)
        ]
  ]

  module _ (arrivals : World → World) where
    -- With the queue locked: the wait if there is no task.
    unfoldable pub await_task : Bool → World → World
    unfolding clamp_wait set_wait
    await_task wait w = elim w.scheduler.coro_queue [
      | _ ∷ _ ↦ w
      | [] ↦ if wait then arrivals (set_wait (clamp_wait w.scheduler.routine_wait_ms) w) else w
    ]

    -- The loop of `Routine`.
    unfoldable pub routine_loop : ℕ → Bool → World → Option World
    unfolding await_task check_time_queue set_wait dispatch
    routine_loop zero wait w = none
    routine_loop (suc fuel) wait w =
        let w₁ = await_task wait w in
        elim w₁.scheduler.coro_queue [
          | [] ↦ do (t, w₂) ← check_time_queue (suc fuel) w₁; some (set_wait t w₂)
          | a ∷ rest ↦ do
            w₂ ← dispatch a (set_scheduler (record w₁.scheduler { coro_queue = rest }) w₁)
            routine_loop fuel wait w₂
        ]

    unfoldable pub routine : ℕ → Bool → World → Option World
    unfolding coro_gc routine_loop
    routine fuel wait w = do w' ← coro_gc w; routine_loop fuel wait w'

    -- `n` rounds of the loop of `RoutineFunc`, which has no end.
    unfoldable pub routine_rounds : ℕ → ℕ → World → Option World
    unfolding routine
    routine_rounds fuel zero w = some w
    routine_rounds fuel (suc n) w = do w' ← routine fuel true w; routine_rounds fuel n w'

-- `Run()`, up to its switch to the coroutine that loops over `Routine(true)`.
unfoldable pub run : CallSite → World → Option World
unfolding init_coro_pool new_coro reset_context switch_to
run site w = do
  w ← init_coro_pool w.scheduler.options.init_coro_pool_num w
  let sched = w.env.g_coro_id_seed
  let s = w.scheduler
  w ←
      with_env (set_scheduler (record s { sched_coro = some sched }) w)
        (reset_context sched routine_func (some 0) (new_coro false w.env))
  with_env w (switch_to sched false site w.env)

-- `Start()` without a thread of its own; Process.antt sets `g_current_scheduler`. `NewShareStack`
-- returns null.
unfoldable pub start_in_thread : World → Option World
unfolding new_share_stack init_coro_pool
start_in_thread w =
    let s = w.scheduler in
    let o = s.options in
    init_coro_pool o.init_coro_pool_num (record w {
      env = new_share_stack o.share_stack_count o.max_stack_size w.env;
      scheduler = record s { options = record o { share_stack = none } };
    })

-- `Start()` in the thread `caller`. `created` is what `pthread_create` returns; the new thread has not
-- run yet, and is that of `w`.
unfoldable pub start : ℤ → ℤ → CoroEnv → World → Option (ℤ × CoroEnv × World)
unfolding new_share_stack start_in_thread
start created errno caller w =
    let s = w.scheduler in
    let o = s.options in
    if o.create_thread
    then some (
      if eqz created (pos 0) then pos 0 else errno,
      new_share_stack o.share_stack_count o.max_stack_size caller,
      set_scheduler (record s { options = record o { share_stack = none } }) w,
    )
    else (do w' ← start_in_thread (record w { env = caller }); some (pos 0, w'.env, w'))
