-- ===== src/Scheduler/Tasks.antt =====
-- The tasks of a scheduler (scheduler.cpp): the calls that queue them, that start coroutines, and
-- what runs when a task is invoked. `caller` is `g_current_scheduler` of the calling thread. The
-- parameter `run_func` is a function of the program until it returns, the switches to and from
-- other coroutines on its way included, and `others` what other coroutines do from a switch until
-- the one that made it runs again.
pub mod Starts
pub mod Sleep
pub mod Bodies
pub mod Pushes
use coroxx.Base.{
  ℕ, ◌-◌, ◌^◌, Bool, true, false, ◌&&◌, Option, none, some, [], ◌∷◌, ◌++◌, if◌then◌else◌, ◌>>=◌,
  ◌+◌, ◌%◌, length,
}
use coroxx.Base.Int.{ℤ, pos, negsuc, ◌+ℤ◌, ltz}
use coroxx.Base.Assoc.{put}
use coroxx.Base.Store.{update}
use coroxx.CoroBase.{CoroutineFunction, coro_sleep_cb, invoke_func, is_set}
use coroxx.LibCoro.Objects.{CallSite}
use coroxx.LibCoro.Switch.{switch_to}
use coroxx.Scheduler.State.{World, set_scheduler, with_env, new_task}
use coroxx.Scheduler.TimeQueue.{add_time_coro_task}
use coroxx.Scheduler.Coroutines.{
  is_overload, get_coroutine, coro_gc, wakeup, wait_coro, coro_done, join, JoinOutcome, returned,
  waits,
}

-- A task joins `coro_queue`, and the scheduler is woken by its event file or by the condition.
unfoldable pub enqueue : ℕ → World → World
enqueue task w =
    let s = w.scheduler in
    let w' = set_scheduler (record s { coro_queue = s.coro_queue ++ task ∷ [] }) w in
    if ltz (pos 0) s.options.eventfd
    then record w' { events = w.events + 1 }
    else record w' { notified = w.notified + 1 }

unfoldable pub push_coro_task : CoroutineFunction → Option ℕ → Bool → ℤ → World → ℤ × World
unfolding is_overload new_task add_time_coro_task enqueue
push_coro_task func arg create_coro wait_time w =
    let (task, w') = new_task (record { call = func; arg = arg; create_coro = create_coro }) w in
    if create_coro && is_overload w
    then (negsuc 0, w)
    else if ltz (pos 0) wait_time
    then (pos 0, add_time_coro_task task wait_time w')
    else (pos 0, enqueue task w')

-- `InvokeQueueSize`, as a `uint32_t`.
unfoldable pub invoke_queue_size : World → ℕ
invoke_queue_size w = length w.scheduler.coro_queue % 2 ^ 32

-- A coroutine of the table of running ones.
unfoldable pub enter_exec : ℕ → World → World
unfolding put
enter_exec id w =
    let s = w.scheduler in
    set_scheduler
      (record s { exec_table = put id id s.exec_table; exec_coro_num = s.exec_coro_num +ℤ pos 1 }) w

-- The part of `StartCoro` on the scheduler's own thread. The id is returned after the switch.
unfoldable pub start_here : CoroutineFunction → Option ℕ → CallSite → World → Option (ℕ × World)
unfolding coro_gc get_coroutine enter_exec wakeup
start_here func arg site w = do
  w ← coro_gc w
  (task, w) ← get_coroutine func arg w
  w ← wakeup task site (enter_exec task w)
  some (task, w)

-- `(coro_id)` of what `PushCoroTask` returns.
abbrev pub to_coro_id : ℤ → ℕ
to_coro_id (pos n) = n
to_coro_id (negsuc n) = 2 ^ 64 - 1 - n

unfoldable pub start_coro :
    Option ℕ → CoroutineFunction → Option ℕ → Bool → CallSite → World → Option (ℕ × World)
unfolding push_coro_task is_overload start_here
start_coro caller func arg create_coro site w = elim caller [
  | none ↦
      let (code, w') = push_coro_task func arg create_coro (pos 0) w in some (to_coro_id code, w')
  | some _ ↦ if is_overload w then some (to_coro_id (negsuc 0), w) else start_here func arg site w
]

unfoldable pub start_coro_after :
    Option ℕ → CoroutineFunction → Option ℕ → ℤ → Bool → World → ℤ × World
unfolding push_coro_task new_task add_time_coro_task
start_coro_after caller func arg wait_time create_coro w = elim caller [
  | none ↦ push_coro_task func arg false wait_time w
  | some _ ↦
      let (task, w') = new_task (record { call = func; arg = arg; create_coro = create_coro }) w in
      (pos 0, add_time_coro_task task wait_time w')
]

-- `CoroSleep(ms)` in a coroutine, up to the switch.
unfoldable pub coro_sleep : ℤ → CallSite → World → Option World
unfolding start_coro_after wait_coro
coro_sleep ms site w = do
  c ← w.env.current
  wait_coro c site (start_coro_after (some 0) coro_sleep_cb (some c) ms false w).1

-- `CoroSleepCB(data)`.
unfoldable pub sleep_callback : Option ℕ → CallSite → World → Option World
unfolding switch_to
sleep_callback arg site w = do c ← arg; with_env w (switch_to c false site w.env)

module _ (run_func : CoroutineFunction → Option ℕ → World → Option World) where
  -- `CoroDiaptchData::InvokeFunc(data)`.
  unfoldable pub run_task : Option ℕ → World → Option World
  run_task v w = elim v [
    | none ↦ some w
    | some a ↦ do
      t ← w.tasks a
      if is_set t.call
          then (do
            w' ← run_func t.call t.arg w
            some (record w' { tasks = update w'.tasks a none }))
          else some w
  ]

  -- `CoroutineNonPoolFunc(data)`, up to the switch that it does not come back from.
  unfoldable pub non_pool_body : ℕ → CallSite → World → Option World
  unfolding coro_done
  non_pool_body cdata site w = do
    d ← w.call_data cdata
    if is_set d.func
        then (do
          w' ← run_func d.func d.arg w
          coro_done d.coro false site (record w' { call_data = update w'.call_data cdata none }))
        else none

  -- A round of the loop of `CoroutinePoolFunc(data)`, for the coroutine that it read at its start.
  unfoldable pub pool_round : ℕ → ℕ → CallSite → World → Option World
  unfolding coro_done
  pool_round coro cdata site w = do
    d ← w.call_data cdata
    if is_set d.func then (do w' ← run_func d.func d.arg w; coro_done coro true site w') else none

  module _ (others : World → Option World) where
    -- `Invoke()`.
    unfoldable pub invoke : CallSite → ℕ → World → Option World
    unfolding run_task start_coro
    invoke site a w = do
      t ← w.tasks a
      if t.create_coro
          then (do (_, w') ← start_coro (some 0) invoke_func (some a) true site w; others w')
          else run_task (some a) w

module _ (others : World → Option World) where
  -- The state after a `Join`.
  unfoldable pub join_then : JoinOutcome × World → Option World
  join_then (returned _, w) = some w
  join_then (waits, w) = others w

  -- `Join(c1, c2)` and `Join(c1, c2, c3)`, to their end; both return 0.
  unfoldable pub join_both : ℕ → ℕ → CallSite → World → Option World
  unfolding join join_then
  join_both c1 c2 site w = do r ← join c1 site w; w ← join_then r; r ← join c2 site w; join_then r

  unfoldable pub join_three : ℕ → ℕ → ℕ → CallSite → World → Option World
  unfolding join join_then join_both
  join_three c1 c2 c3 site w = do w ← join_both c1 c2 site w; r ← join c3 site w; join_then r
