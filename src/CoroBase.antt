-- ===== src/CoroBase.antt =====
-- coro_base.h: the functions, data contexts and options that the backends and the scheduler share.
-- A `void*` is an address, null being `none`.
use coroxx.Base.{ℕ, Bool, true, false, Option, none}
use coroxx.Base.Int.{ℤ, negsuc}

-- `std::function<void(void*)>`: the empty one, the functions of scheduler.cpp that are passed as
-- such, and the functions of a program that uses the library, by number.
pub data CoroutineFunction : Type 0 where
  empty : CoroutineFunction
  coroutine_pool_func : CoroutineFunction
  coroutine_non_pool_func : CoroutineFunction
  routine_func : CoroutineFunction
  invoke_func : CoroutineFunction
  coro_sleep_cb : CoroutineFunction
  user : ℕ → CoroutineFunction

-- Its test as a `bool`.
abbrev pub is_set : CoroutineFunction → Bool
is_set empty = false
is_set _ = true

pub record CoroutineDataContext : Type 0 where
  pub func : CoroutineFunction
  pub arg : Option ℕ
  pub coro : Option ℕ

pub record CoroOptions : Type 0 where
  pub create_thread : Bool
  pub max_stack_size : ℕ
  pub max_coro_num : ℕ
  pub init_coro_pool_num : ℕ
  pub sheduler_num : ℕ
  pub share_stack_count : ℕ
  pub eventfd : ℤ
  pub share_stack : Option ℕ

abbrev pub default_options : CoroOptions
default_options = record {
  create_thread = true;
  max_stack_size = 0;
  max_coro_num = 10000;
  init_coro_pool_num = 0;
  sheduler_num = 1;
  share_stack_count = 16;
  eventfd = negsuc 0;
  share_stack = none;
}
