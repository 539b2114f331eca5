-- ===== src/LibCoro/Stacks.antt =====
-- `CoroEnv::GetCoroStack` of libcoro.cpp: which stack a coroutine gets when it first runs.
pub mod Rounds
use coroxx.Base.{
  ℕ, suc, ◌+◌, Bool, true, false, Option, none, some, [], ◌∷◌, ◌++◌, ltb, leb, if◌then◌else◌, ◌>>=◌,
  length, get_elem?,
}
use coroxx.Base.Store.{update}
use coroxx.LibCoro.Objects.{CoroStack, CoroEnv, CallSite}

-- The constructor of `CoroStack`; what `coro_stack_alloc` returns is not read.
unfoldable pub make_stack : CallSite → ℕ → Bool → CoroStack
make_stack site size shared = record {
  sptr = (site.coro_stack_alloc size).0;
  ssze = (site.coro_stack_alloc size).1;
  coro = none;
  shared = shared;
}

-- `new CoroStack(stack_size, shared)`.
unfoldable pub new_coro_stack : CallSite → Bool → CoroEnv → CoroEnv
unfolding make_stack
new_coro_stack site shared e = record e {
  stacks = update e.stacks e.next_stack (some (make_stack site e.stack_size shared));
  next_stack = suc e.next_stack;
}

-- A new shared stack joins the pool.
unfoldable pub grow_pool : CallSite → CoroEnv → CoroEnv
unfolding new_coro_stack
grow_pool site e = record (new_coro_stack site true e) { pool = e.pool ++ e.next_stack ∷ [] }

-- The cursor after the test that wraps it round.
unfoldable pub wrap_cursor : ℕ → ℕ → ℕ
wrap_cursor cursor size = if leb size cursor then 0 else cursor

-- The next shared stack in turn; `none` is a read past the end of the pool.
unfoldable pub take_turn : CoroEnv → Option (ℕ × CoroEnv)
unfolding wrap_cursor
take_turn e = do
  let idx = wrap_cursor e.cursor (length e.pool)
  s ← get_elem? e.pool idx
  some (s, record e { cursor = idx + 1 })

unfoldable pub get_coro_stack : CallSite → CoroEnv → Option (ℕ × CoroEnv)
unfolding new_coro_stack grow_pool take_turn
get_coro_stack site e =
    if ltb (length e.pool) e.share_stack_count
    then some (e.next_stack, grow_pool site e)
    else elim e.pool [ [] ↦ some (e.next_stack, new_coro_stack site false e) | _ ∷ _ ↦ take_turn e ]
