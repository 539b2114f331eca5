-- ===== src/Scheduler/State.antt =====
-- The data of scheduler.h and scheduler.cpp: what one scheduler and its thread have. A `CoroPtr` is
-- the coroutine's id, a pointer to a task or to call data its address.
use coroxx.Base.{ℕ, suc, ◌+◌, ◌*◌, ◌/◌, Bool, Option, none, some, List, [], ◌>>=◌}
use coroxx.Base.Int.{ℤ, pos}
use coroxx.Base.Store.{update}
use coroxx.CoroBase.{CoroutineFunction, CoroOptions}
use coroxx.LibCoro.Objects.{CoroEnv}

pub record CoroDiaptchData : Type 0 where
  pub call : CoroutineFunction
  pub arg : Option ℕ
  pub create_coro : Bool

pub record CoroCallData : Type 0 where
  pub coro : ℕ
  pub arg : Option ℕ
  pub func : CoroutineFunction

pub record TimeVal : Type 0 where
  pub tv_sec : ℕ
  pub tv_usec : ℕ

pub record Scheduler : Type 0 where
  pub join_table : List (ℕ × ℕ)
  pub exec_table : List (ℕ × ℕ)
  pub coro_queue : List ℕ
  pub coro_time_queue : List (ℤ × List ℕ)
  pub deleting_coros : List ℕ
  pub coro_pool : List ℕ
  pub sched_coro : Option ℕ
  pub routine_wait_ms : ℤ
  pub exec_coro_num : ℤ
  pub options : CoroOptions

-- The scheduler, the coroutines of its thread, the heap objects that it allocates, and what it does
-- outside: `clock n` is what the reading number `n` of the clock gives, `dispatched` lists the tasks
-- that were invoked, `notified` and `events` count the wake-ups by the condition variable and by the
-- event file.
pub record World : Type 0 where
  pub env : CoroEnv
  pub scheduler : Scheduler
  pub call_data : ℕ → Option CoroCallData
  pub tasks : ℕ → Option CoroDiaptchData
  pub next_address : ℕ
  pub clock : ℕ → TimeVal
  pub readings : ℕ
  pub dispatched : List ℕ
  pub notified : ℕ
  pub events : ℕ

-- The constructor.
abbrev pub new_scheduler : CoroOptions → Scheduler
new_scheduler options = record {
  join_table = [];
  exec_table = [];
  coro_queue = [];
  coro_time_queue = [];
  deleting_coros = [];
  coro_pool = [];
  sched_coro = none;
  routine_wait_ms = pos 10;
  exec_coro_num = pos 0;
  options = options;
}

abbrev pub boot : CoroOptions → CoroEnv → (ℕ → TimeVal) → World
boot options env clock = record {
  env = env;
  scheduler = new_scheduler options;
  call_data = λ _. none;
  tasks = λ _. none;
  next_address = 0;
  clock = clock;
  readings = 0;
  dispatched = [];
  notified = 0;
  events = 0;
}

abbrev pub set_scheduler : Scheduler → World → World
set_scheduler s w = record w { scheduler = s }

-- A call into libcoro.cpp.
abbrev pub with_env : World → Option CoroEnv → Option World
with_env w result = do e ← result; some (record w { env = e })

unfoldable pub current_mills : World → ℕ × World
current_mills w =
    let t = w.clock w.readings in
    (t.tv_sec * 1000 + t.tv_usec / 1000, record w { readings = suc w.readings })

-- `new CoroDiaptchData` with its three assignments.
unfoldable pub new_task : CoroDiaptchData → World → ℕ × World
new_task t w = (
  w.next_address,
  record w { tasks = update w.tasks w.next_address (some t); next_address = suc w.next_address },
)
