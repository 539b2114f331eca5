-- ===== src/LibCo.antt =====
-- libco.h and libco.cpp: the backend on Tencent's libco, whose functions are given.
use coroxx.Base.{ℕ, ◌*◌, Option, none, some, if◌then◌else◌, ◌==◌}
use coroxx.Base.Int.{ℤ, pos}
use coroxx.CoroBase.{CoroutineDataContext, CoroOptions, empty, is_set}

-- `stCoRoutineAttr_t`.
pub record Attr : Type 0 where
  pub stack_size : ℕ
  pub share_stack : Option ℕ

-- The functions of co_routine.h that libco.cpp calls, over libco's own state. A `stCoRoutine_t*` is
-- a number.
pub record CoRoutine : Type 1 where
  pub State : Type 0
  pub co_create : Attr → State → ℕ × State
  pub co_attach : ℕ → ℕ → State → State
  pub co_getattach : ℕ → State → Option ℕ
  pub co_self : State → Option ℕ
  pub co_resume : ℕ → State → State
  pub co_yield : ℕ → State → State
  pub co_release : ℕ → State → State
  pub co_alloc_sharestack : ℕ → ℕ → State → ℕ × State

pub record LibCoCoroutine : Type 0 where
  pub ctx : ℕ
  pub id : ℕ
  pub data_ctx : CoroutineDataContext

-- The stack that a coroutine asks for.
unfoldable pub stack_attr : CoroOptions → Attr
stack_attr opt = record {
  stack_size = elim opt.share_stack [ none ↦ opt.max_stack_size | some _ ↦ 0 ];
  share_stack = opt.share_stack;
}

module _ (lib : CoRoutine) where
  open lib use {
    State, co_create, co_attach, co_getattach, co_self, co_resume, co_yield, co_release,
    co_alloc_sharestack,
  }

  -- The constructor, for an object at the address `this` and with the next id.
  unfoldable pub create : CoroOptions → ℕ → ℕ → State → LibCoCoroutine × State
  unfolding stack_attr
  create opt this seed s =
      let (ctx, s') = co_create (stack_attr opt) s in
      (
        record {
          ctx = ctx;
          id = seed;
          data_ctx = record { func = empty; arg = none; coro = some this };
        },
        co_attach ctx this s',
      )

  -- The destructor.
  unfoldable pub destroy : LibCoCoroutine → State → State
  destroy c s = co_release c.ctx s

  unfoldable pub yield : LibCoCoroutine → State → State
  yield c s = co_yield c.ctx s

  unfoldable pub wait : LibCoCoroutine → State → State
  unfolding yield
  wait c s = yield c s

  unfoldable pub resume : LibCoCoroutine → State → State
  resume c s = if is_set c.data_ctx.func then co_resume c.ctx s else s

  unfoldable pub current_coro : State → Option ℕ
  current_coro s = elim (co_self s) [ none ↦ none | some self ↦ co_getattach self s ]

  -- `count` and `size` are of type `int`.
  unfoldable pub new_share_stack : ℤ → ℤ → State → Option ℕ × State
  new_share_stack count size s =
      let size' : ℕ = (elim size [ pos n ↦ if n == 0 then 256 * 1024 else n | _ ↦ 256 * 1024 ]) in
      elim count [
        | pos n ↦
            if n == 0
            then (none, s)
            else let (stack, s') = co_alloc_sharestack n size' s in (some stack, s')
        | _ ↦ (none, s)
      ]
