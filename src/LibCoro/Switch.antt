-- ===== src/LibCoro/Switch.antt =====
-- `Resume`, `Yield`, `Wait`, `swapCoroFunc` and the destructor of libcoro.cpp. `coro_create` and
-- `coro_transfer` are those of coro.c: the first makes a context that starts in `LibCoroFunc`, the
-- second is the point where the processor leaves one context for another (`running`).
use coroxx.Base.{
  ℕ, ◌+◌, ◌-◌, length, Bool, true, false, ◌&&◌, not, Option, none, some, [], ◌∷◌, if◌then◌else◌,
  ◌>>=◌, same_pointer,
}
use coroxx.Base.Store.{update, write_block}
use coroxx.LibCoro.Objects.{
  CoroStack, Context, coro_ctx, swap_coro, CoroEnv, CallSite, set_coro, set_stack, new_coro,
}
use coroxx.LibCoro.Stacks.{get_coro_stack}
use coroxx.LibCoro.Buffer.{mark_stack_resume_point, save_stack_buffer, resume_stack_buffer}

unfoldable pub coro_transfer : Context → CoroEnv → CoroEnv
coro_transfer next e = record e { running = some next }

-- The thread's own context becomes a coroutine when a coroutine is first resumed.
unfoldable pub ensure_main : CoroEnv → CoroEnv
unfolding new_coro
ensure_main e = elim e.current [
  | some _ ↦ e
  | none ↦ elim e.main [
    | some _ ↦ e
    | none ↦ record (new_coro true e) { main = some e.g_coro_id_seed }
  ]
]

-- The running coroutine is to be resumed later, unless it waits or is released.
unfoldable pub push_current : Bool → CoroEnv → Option CoroEnv
push_current release e = elim e.current [
  | none ↦ some e
  | some c ↦ do
    k ← e.coros c
    some (if not k.waiting && not release then record e { coro_stack = c ∷ e.coro_stack } else e)
]

-- `coro_env.current = this; waiting = false;`
unfoldable pub set_current : ℕ → CoroEnv → Option CoroEnv
set_current this e = do
  k ← e.coros this
  some (set_coro this (record k { waiting = false }) (record e { current = some this }))

-- A coroutine gets its stack when it first runs.
unfoldable pub assign_stack : ℕ → CallSite → CoroEnv → Option CoroEnv
unfolding get_coro_stack
assign_stack this site e = do
  k ← e.coros this
  elim k.stack [
    | some _ ↦ some e
    | none ↦ if k.ctx_inited then some e else do
      (s, e') ← get_coro_stack site e
      some (set_coro this (record k { stack = some s }) e')
  ]

-- The coroutine whose bytes lie on the stack of `this` and have to be saved.
unfoldable pub find_save_coro : ℕ → Option ℕ → Bool → CoroEnv → Option (Option ℕ)
find_save_coro this current release e = do
  k ← e.coros this
  elim k.stack [
    | none ↦ some none
    | some s ↦ do
      st ← e.stacks s
      some (
          if same_pointer st.coro (some this)
          then none
          else if same_pointer st.coro current && release
          then none
          else st.coro)
  ]

-- `if (NULL != stack) stack->coro = this;`
unfoldable pub occupy : ℕ → CoroEnv → Option CoroEnv
occupy this e = do
  k ← e.coros this
  elim k.stack [
    | none ↦ some e
    | some s ↦ do st ← e.stacks s; some (set_stack s (record st { coro = some this }) e)
  ]

-- `coro_create` writes to the upper end of the stack of `this`.
unfoldable pub create_frame : CallSite → CoroStack → CoroEnv → CoroEnv
unfolding write_block
create_frame site st e = record e {
  mem = write_block e.mem (st.sptr + st.ssze - length site.coro_create) site.coro_create;
}

unfoldable pub init_ctx : ℕ → CallSite → CoroEnv → Option CoroEnv
unfolding create_frame
init_ctx this site e = do
  k ← e.coros this
  if k.ctx_inited then some e else do
    s ← k.stack
    st ← e.stacks s
    some (set_coro this (record k { ctx_inited = true }) (create_frame site st e))

unfoldable pub save_other : Option ℕ → Option ℕ → CoroEnv → Option CoroEnv
unfolding save_stack_buffer
save_other save_coro current e = elim save_coro [
  | none ↦ some e
  | some o ↦ if same_pointer current (some o) then some e else save_stack_buffer o e
]

-- The end of `Resume`: through the swap coroutine where both run on one stack, else at once.
unfoldable pub leave : ℕ → Option ℕ → CallSite → CoroEnv → Option CoroEnv
unfolding coro_transfer mark_stack_resume_point resume_stack_buffer
leave this current site e = elim current [
  | none ↦ some (coro_transfer (coro_ctx this) e)
  | some c ↦ do
    e ← mark_stack_resume_point site.frame c e
    kc ← e.coros c
    k ← e.coros this
    if same_pointer kc.stack k.stack
        then some (
            coro_transfer swap_coro
              (record e { swap_ctx = record { «from» = some c; to = some this; inited = true } }))
        else do e ← resume_stack_buffer this e; some (coro_transfer (coro_ctx this) e)
]

-- `this->Resume(release_current)`, up to the point where the processor leaves the caller.
unfoldable pub resume : ℕ → Bool → CallSite → CoroEnv → Option CoroEnv
unfolding ensure_main push_current set_current assign_stack find_save_coro occupy init_ctx
    save_other leave
resume this release site e = do
  let current = e.current
  e ← push_current release (ensure_main e)
  e ← set_current this e
  e ← assign_stack this site e
  save_coro ← find_save_coro this current release e
  e ← occupy this e
  e ← init_ctx this site e
  e ← save_other save_coro current e
  leave this current site e

-- One round of the loop of `swapCoroFunc`.
unfoldable pub swap_coro_func : CoroEnv → Option CoroEnv
unfolding coro_transfer save_stack_buffer resume_stack_buffer
swap_coro_func e = do
  c ← e.swap_ctx.«from»
  this ← e.swap_ctx.to
  e ← save_stack_buffer c e
  e ← resume_stack_buffer this e
  some (coro_transfer (coro_ctx this) (record e { current = some this }))

-- Where the processor runs the swap coroutine, that one goes on.
unfoldable pub settle : CoroEnv → Option CoroEnv
unfolding swap_coro_func
settle e = elim e.running [ some swap_coro ↦ swap_coro_func e | _ ↦ some e ]

-- `Resume` until a coroutine runs again.
unfoldable pub switch_to : ℕ → Bool → CallSite → CoroEnv → Option CoroEnv
unfolding resume settle
switch_to this release site e = do e ← resume this release site e; settle e

-- `Yield(release_current)`.
unfoldable pub yield_coro : Bool → CallSite → CoroEnv → Option CoroEnv
unfolding switch_to
yield_coro release site e = elim e.coro_stack [
  | [] ↦ do next ← e.main; switch_to next release site e
  | next ∷ rest ↦ switch_to next release site (record e { coro_stack = rest })
]

-- `coro->Wait()`.
unfoldable pub wait : ℕ → CallSite → CoroEnv → Option CoroEnv
unfolding yield_coro
wait c site e = do k ← e.coros c; yield_coro false site (set_coro c (record k { waiting = true }) e)

-- What the destructor does to the stack: a shared one loses its user, another is freed.
unfoldable pub release_stack : ℕ → ℕ → CoroStack → CoroEnv → CoroEnv
release_stack c s st e =
    if st.shared
    then (if same_pointer st.coro (some c) then set_stack s (record st { coro = none }) e else e)
    else record e { stacks = update e.stacks s none }

-- The destructor, and the release of the object.
unfoldable pub delete_coro : ℕ → CoroEnv → Option CoroEnv
unfolding release_stack
delete_coro c e = do
  k ← e.coros c
  e ← elim k.stack [ none ↦ some e | some s ↦ do st ← e.stacks s; some (release_stack c s st e) ]
  some (record e { coros = update e.coros c none })
