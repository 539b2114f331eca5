-- ===== src/Scheduler/Process.antt =====
-- The schedulers of a process (scheduler.cpp): `SchedulerManager` with what each of its schedulers has,
-- and the functions of scheduler.h that call one of them. `threads` gives the coroutines and the clock
-- of the thread that a new scheduler starts, which has not run yet. Without a thread of its own, a
-- scheduler has the coroutines of the thread that calls. The functions that switch are called in a coroutine: `here` is its thread's scheduler.
pub mod Serves
use coroxx.Base.{
  if◌then◌else◌, ℕ, zero, suc, ◌+◌, Option, none, some, List, [], ◌∷◌, ◌>>=◌, map, get_elem?,
  set_elem, false, true,
}
use coroxx.Base.Int.{ℤ, pos, negsuc}
use coroxx.CoroBase.{CoroutineFunction, CoroOptions, default_options}
use coroxx.LibCoro.Objects.{CoroEnv, CallSite}
use coroxx.Scheduler.State.{Scheduler, World, TimeVal, boot}
use coroxx.Scheduler.Coroutines.{JoinOutcome, join, wait_coro}
use coroxx.Scheduler.Tasks.{start_coro, start_coro_after, join_both, join_three, coro_sleep}
use coroxx.Scheduler.Routine.{start}
use coroxx.Scheduler.Manager.{get_scheduler}

-- What has its own value in each thread is in the schedulers; `none` is the null pointer
-- `g_scheduler_manager`.
abbrev pub Manager : Type 0
Manager = Option (List World)

abbrev pub schedulers : List World → List Scheduler
schedulers ws = map (λ w. w.scheduler) ws

-- `GetScheduler().f(...)` for a call `f` of the scheduler that serves.
unfoldable pub forward {ℓ} :
    {A : Type ℓ} → Option ℕ → (World → Option (A × World)) → List World → Option (A × List World)
unfolding get_scheduler
forward caller call ws = do
  i ← get_scheduler caller (schedulers ws)
  w ← get_elem? ws i
  (a, w') ← call w
  some (a, set_elem ws i w')

-- What a thread that calls has of its own: its coroutines, and its `g_current_scheduler`.
pub record Caller : Type 0 where
  pub env : CoroEnv
  pub current : Option ℕ

-- A scheduler without a thread of its own has the coroutines of the thread that made it.
abbrev in_thread : CoroOptions → CoroEnv → World → World
in_thread opt env w = if opt.create_thread then w else record w { env = env }

-- `created` gives what `pthread_create` returns for each scheduler, with `errno`.
module _ (threads : ℕ → CoroEnv × (ℕ → TimeVal)) (created : ℕ → ℤ × ℤ) where
  -- The loop of the constructor, from the scheduler `i` on with `n` to go.
  unfoldable pub make_worlds : CoroOptions → ℕ → ℕ → Caller → Option (Caller × List World)
  unfolding start
  make_worlds opt i zero c = some (c, [])
  make_worlds opt i (suc n) c = do
    let thread = threads i
    let result = created i
    (code, e, w) ← start result.0 result.1 c.env (boot opt thread.0 thread.1)
    let current = if opt.create_thread then c.current else some i
    (c', ws) ← make_worlds opt (i + 1) n (record { env = e; current = current })
    some (c', in_thread opt c'.env w ∷ ws)

  unfoldable pub create_manager : CoroOptions → Caller → Manager → Option (ℤ × Caller × Manager)
  unfolding make_worlds
  create_manager opt c manager = elim manager [
    | some ws ↦ some (negsuc 0, c, some ws)
    | none ↦ do (c', ws) ← make_worlds opt 0 opt.sheduler_num c; some (pos 0, c', some ws)
  ]

  -- `Singleton()`, which makes the manager at its first call.
  unfoldable pub the_manager : Caller → Manager → Option (Caller × List World)
  unfolding create_manager
  the_manager c manager = do
    (code, c', manager') ← create_manager default_options c manager
    ws ← manager'
    some (c', ws)

  -- The manager as a call reads it: a thread with a scheduler of its own does not make it.
  unfoldable pub reach : Caller → Manager → Option (Caller × List World)
  unfolding the_manager
  reach c manager = elim c.current [
    | some _ ↦ do ws ← manager; some (c, ws)
    | none ↦ the_manager c manager
  ]

  -- `StartCoro(func, data)`. The thread is read again at the call of the scheduler's own.
  unfoldable pub start_coro_anywhere :
      Caller → CoroutineFunction → Option ℕ → CallSite → Manager → Option (ℕ × Caller × List World)
  unfolding forward start_coro reach
  start_coro_anywhere c func arg site manager = do
    (c', ws) ← reach c manager
    (id, ws') ← forward c.current (start_coro c'.current func arg true site) ws
    some (id, c', ws')

  -- `StartCoroAfter(func, data, ms)`.
  unfoldable pub start_coro_after_anywhere :
      Caller → CoroutineFunction → Option ℕ → ℤ → Manager → Option (ℤ × Caller × List World)
  unfolding forward start_coro_after reach
  start_coro_after_anywhere c func arg ms manager = do
    (c', ws) ← reach c manager
    (code, ws') ← forward c.current (λ w. some (start_coro_after c'.current func arg ms true w)) ws
    some (code, c', ws')

-- `JoinCoro(cid)`.
unfoldable pub join_coro : ℕ → ℕ → CallSite → List World → Option (JoinOutcome × List World)
unfolding forward join
join_coro here cid site ws = forward (some here) (join cid site) ws

-- `CoroSelf()` in a thread.
unfoldable pub coro_self : World → Option ℕ
coro_self w = w.env.current

-- A call that returns nothing.
abbrev procedure : (World → Option World) → World → Option (Unit {0} × World)
procedure call w = do w' ← call w; some (tt, w')

-- `WaitCoro(coro)`.
unfoldable pub wait_coro_here : ℕ → ℕ → CallSite → List World → Option (Unit {0} × List World)
unfolding forward wait_coro
wait_coro_here here coro site ws = forward (some here) (procedure (wait_coro coro site)) ws

module _ (others : World → Option World) where
  -- `JoinCoro(c1, c2)` and `JoinCoro(c1, c2, c3)`, to their end.
  unfoldable pub join_coro_both : ℕ → ℕ → ℕ → CallSite → List World → Option (Unit {0} × List World)
  unfolding forward join_both
  join_coro_both here c1 c2 site ws =
      forward (some here) (procedure (join_both others c1 c2 site)) ws

  unfoldable pub join_coro_three :
      ℕ → ℕ → ℕ → ℕ → CallSite → List World → Option (Unit {0} × List World)
  unfolding forward join_three
  join_coro_three here c1 c2 c3 site ws =
      forward (some here) (procedure (join_three others c1 c2 c3 site)) ws
