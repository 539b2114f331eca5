-- ===== src/Scheduler/Coroutines.antt =====
-- The coroutines of a scheduler (scheduler.cpp): their creation, the pool, the tables of running and
-- of joined coroutines, and the calls that switch between them. A function that switches gives the
-- state at the moment when another coroutine runs; what it does after the switch is said at each.
pub mod Counts
pub mod Done
pub mod Joins
pub mod Rejoin
pub mod Pool
pub mod Given
pub mod Collect
use coroxx.Base.{
  ℕ, zero, suc, ◌+◌, ◌%◌, ◌^◌, Bool, true, false, Option, none, some, List, [], ◌∷◌, ◌++◌,
  if◌then◌else◌, ◌>>=◌, length,
}
use coroxx.Base.Int.{ℤ, pos, negsuc, ◌-ℤ◌}
use coroxx.Base.Assoc.{find, put, erase}
use coroxx.Base.Store.{update}
use coroxx.CoroBase.{CoroutineFunction, empty, coroutine_pool_func, coroutine_non_pool_func}
use coroxx.LibCoro.Objects.{CoroEnv, CallSite, new_coro, reset_context}
use coroxx.LibCoro.Switch.{switch_to, yield_coro, wait, delete_coro}
use coroxx.Scheduler.State.{CoroCallData, Scheduler, World, set_scheduler, with_env}

unfoldable pub is_overload : World → Bool
is_overload w = false

-- `GetCoroutineById` and `GetCoroById`.
unfoldable pub get_coro_by_id : ℕ → World → Option ℕ
get_coro_by_id id w = find id w.scheduler.exec_table

-- As a `uint32_t`.
unfoldable pub get_coro_num : Scheduler → ℕ
get_coro_num s = (length s.exec_table + length s.deleting_coros) % 2 ^ 32

unfoldable pub get_retired_coro_num : Scheduler → ℕ
get_retired_coro_num s = length s.deleting_coros % 2 ^ 32

-- `new CoroCallData` with its assignments.
unfoldable pub new_call_data : CoroCallData → World → World
new_call_data d w = record w {
  call_data = update w.call_data w.next_address (some d);
  next_address = suc w.next_address;
}

unfoldable pub create_coroutine : CoroutineFunction → Option ℕ → Bool → World → Option (ℕ × World)
unfolding new_call_data new_coro reset_context
create_coroutine func arg pool w = do
  let task = w.env.g_coro_id_seed
  let entry = if pool then coroutine_pool_func else coroutine_non_pool_func
  w' ← with_env w (reset_context task entry (some w.next_address) (new_coro false w.env))
  some (task, new_call_data (record { coro = task; arg = arg; func = func }) w')

-- A coroutine from the pool gets new call data.
unfoldable pub reuse : ℕ → CoroutineFunction → Option ℕ → World → Option World
reuse coro func arg w = do
  k ← w.env.coros coro
  cdata ← k.data_ctx.arg
  d ← w.call_data cdata
  some (record w {
    call_data = update w.call_data cdata (some (record d { arg = arg; func = func }));
  })

unfoldable pub get_coroutine : CoroutineFunction → Option ℕ → World → Option (ℕ × World)
unfolding create_coroutine reuse
get_coroutine func arg w = elim w.scheduler.coro_pool [
  | [] ↦ create_coroutine func arg false w
  | coro ∷ rest ↦ do
    w' ← reuse coro func arg (set_scheduler (record w.scheduler { coro_pool = rest }) w)
    some (coro, w')
]

-- `InitCoroPool`, with the number of coroutines to go.
unfoldable pub init_coro_pool : ℕ → World → Option World
unfolding create_coroutine
init_coro_pool zero w = some w
init_coro_pool (suc n) w = do
  (coro, w') ← create_coroutine empty none true w
  let s = w'.scheduler
  init_coro_pool n (set_scheduler (record s { coro_pool = s.coro_pool ++ coro ∷ [] }) w')

-- The loop of `CoroGC`.
unfoldable pub delete_all : List ℕ → CoroEnv → Option CoroEnv
unfolding delete_coro
delete_all [] e = some e
delete_all (c ∷ cs) e = do e' ← delete_coro c e; delete_all cs e'

unfoldable pub coro_gc : World → Option World
unfolding delete_all
coro_gc w = do
  w' ← with_env w (delete_all w.scheduler.deleting_coros w.env)
  some (set_scheduler (record w.scheduler { deleting_coros = [] }) w')

-- `Wakeup(coro)`.
unfoldable pub wakeup : ℕ → CallSite → World → Option World
unfolding switch_to
wakeup coro site w = with_env w (switch_to coro false site w.env)

-- `Scheduler::Wait(coro)`, and `WaitCoro`.
unfoldable pub wait_coro : ℕ → CallSite → World → Option World
unfolding wait
wait_coro coro site w = with_env w (wait coro site w.env)

-- The coroutine is no longer among the running ones.
unfoldable pub leave_exec : ℕ → World → World
unfolding find erase
leave_exec coro w =
    let s = w.scheduler in
    elim (find coro s.exec_table) [
      | none ↦ w
      | some _ ↦
          set_scheduler
            (record s {
              exec_table = erase coro s.exec_table;
              exec_coro_num = s.exec_coro_num -ℤ pos 1;
            })
            w
    ]

-- Back to the pool, or among those to delete.
unfoldable pub retire : ℕ → Bool → World → World
retire coro pool w =
    let s = w.scheduler in
    set_scheduler
      (if pool
        then record s { coro_pool = s.coro_pool ++ coro ∷ [] }
        else record s { deleting_coros = s.deleting_coros ++ coro ∷ [] })
      w

-- The coroutine that waits for `coro` runs next, else the one below on the stack of coroutines.
unfoldable pub hand_over : ℕ → CallSite → World → Option World
unfolding find erase switch_to yield_coro
hand_over coro site w = elim (find coro w.scheduler.join_table) [
  | none ↦ with_env w (yield_coro true site w.env)
  | some waiting ↦
      with_env
        (set_scheduler (record w.scheduler { join_table = erase coro w.scheduler.join_table }) w)
        (switch_to waiting true site w.env)
]

-- `CoroDone(coro, pool)`. Only a coroutine of the pool runs again after the switch.
unfoldable pub coro_done : ℕ → Bool → CallSite → World → Option World
unfolding leave_exec retire hand_over
coro_done coro pool site w = hand_over coro site (retire coro pool (leave_exec coro w))

-- What `Join` does: it returns a code at once, or it switches and returns 0 when resumed.
pub data JoinOutcome : Type 0 where
  returned : ℤ → JoinOutcome
  waits : JoinOutcome

unfoldable pub join : ℕ → CallSite → World → Option (JoinOutcome × World)
unfolding find put wait_coro
join cid site w =
    let s = w.scheduler in
    elim (find cid s.exec_table) [
      | none ↦ some (returned (pos 0), w)
      | some _ ↦ elim (find cid s.join_table) [
        | some _ ↦ some (returned (negsuc 1), w)
        | none ↦ do
          current ← w.env.current
          w' ←
              wait_coro current site
                (set_scheduler (record s { join_table = put cid current s.join_table }) w)
          some (waits, w')
      ]
    ]

-- `IsInMainCoro`.
unfoldable pub is_in_main_coro : World → Bool
is_in_main_coro w = elim w.env.current [ none ↦ true | some _ ↦ false ]
