-- ===== src/LibCoro/Objects.antt =====
-- libcoro.h, and `SwapContext` and `CoroEnv` of libcoro.cpp: the objects and the state of a thread.
-- A pointer to a coroutine is its `id`, a pointer to a `CoroStack` its number in `stacks`; a null
-- pointer is `none`, and a table has `none` at what is not allocated.
use coroxx.Base.{ℕ, suc, Bool, false, Option, none, some, List, []}
use coroxx.Base.Store.{update}
use coroxx.CoroBase.{CoroutineFunction, CoroutineDataContext, empty}

-- `stack.sptr` and `stack.ssze` are the two fields of the wrapped `coro_stack`.
pub record CoroStack : Type 0 where
  pub sptr : ℕ
  pub ssze : ℕ
  pub coro : Option ℕ
  pub shared : Bool

pub record LibCoroCoroutine : Type 0 where
  pub stack : Option ℕ
  pub data_ctx : CoroutineDataContext
  pub ctx_inited : Bool
  pub waiting : Bool
  pub save_buffer : Option (List ℕ)
  pub save_buffer_size : ℕ
  pub stack_sp : Option ℕ

pub record SwapContext : Type 0 where
  pub «from» : Option ℕ
  pub to : Option ℕ
  pub inited : Bool

-- A `coro_context` that control can be transferred to.
pub data Context : Type 0 where
  coro_ctx : ℕ → Context
  swap_coro : Context

-- The first seven fields are those of `CoroEnv`, its share pool opened (`pool`, `cursor`).
-- `coro_stack` has its top first. The others are what the code reaches by pointers: the objects,
-- the next free numbers, the memory, and the context that the processor runs.
pub record CoroEnv : Type 0 where
  pub current : Option ℕ
  pub main : Option ℕ
  pub coro_stack : List ℕ
  pub pool : List ℕ
  pub cursor : ℕ
  pub swap_ctx : SwapContext
  pub stack_size : ℕ
  pub share_stack_count : ℕ
  pub coros : ℕ → Option LibCoroCoroutine
  pub g_coro_id_seed : ℕ
  pub stacks : ℕ → Option CoroStack
  pub next_stack : ℕ
  pub mem : ℕ → ℕ
  pub running : Option Context

-- What the machine and coro.c supply at a call: the address of a local variable of the running
-- coroutine, the `sptr` and `ssze` that `coro_stack_alloc` gives a stack of a requested size, and
-- the bytes that `coro_create` leaves at the upper end of a stack.
pub record CallSite : Type 0 where
  pub frame : ℕ
  pub coro_stack_alloc : ℕ → ℕ × ℕ
  pub coro_create : List ℕ

abbrev pub set_coro : ℕ → LibCoroCoroutine → CoroEnv → CoroEnv
set_coro c k e = record e { coros = update e.coros c (some k) }

abbrev pub set_stack : ℕ → CoroStack → CoroEnv → CoroEnv
set_stack s st e = record e { stacks = update e.stacks s (some st) }

-- The state of a thread before its first coroutine.
unfoldable pub init : ℕ → (ℕ → ℕ) → CoroEnv
init seed mem = record {
  current = none;
  main = none;
  coro_stack = [];
  pool = [];
  cursor = 0;
  swap_ctx = record { «from» = none; to = none; inited = false };
  stack_size = 0;
  share_stack_count = 0;
  coros = λ _. none;
  g_coro_id_seed = seed;
  stacks = λ _. none;
  next_stack = 0;
  mem = mem;
  running = none;
}

-- `LibCoroCoroutine::NewShareStack`. The arguments are values of a `uint32_t`, which the way through
-- `int` leaves as they are.
unfoldable pub new_share_stack : ℕ → ℕ → CoroEnv → CoroEnv
new_share_stack count size e = record e { share_stack_count = count; stack_size = size }

-- `ResetContext`.
unfoldable pub reset_context : ℕ → CoroutineFunction → Option ℕ → CoroEnv → Option CoroEnv
reset_context c func arg e = elim (e.coros c) [
  | none ↦ none
  | some k ↦
      some (set_coro c (record k { data_ctx = record k.data_ctx { func = func; arg = arg } }) e)
]

-- The constructor; `main` marks the thread's own context, which needs no stack.
unfoldable pub new_coro : Bool → CoroEnv → CoroEnv
new_coro main e = record e {
  coros = update e.coros e.g_coro_id_seed (
      some (record {
        stack = none;
        data_ctx = record { func = empty; arg = none; coro = some e.g_coro_id_seed };
        ctx_inited = main;
        waiting = false;
        save_buffer = none;
        save_buffer_size = 0;
        stack_sp = none;
      }));
  g_coro_id_seed = suc e.g_coro_id_seed;
}
