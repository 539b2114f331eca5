-- ===== src/LibCoro/Buffer.antt =====
-- `MarkStackResumePoint`, `SaveStackBuffer` and `ResumeStackBuffer` of libcoro.cpp: a coroutine that
-- leaves a shared stack to another keeps its part of the stack in a buffer. `none` is a fault: a
-- pointer to a freed object, or a copy past the end of a buffer.
use coroxx.Base.{
  ℕ, ◌+◌, ◌-◌, ◌%◌, ◌^◌, Bool, false, Option, none, some, List, leb, if◌then◌else◌, ◌>>=◌, length,
  take,
}
use coroxx.Base.Store.{read_block, write_block}
use coroxx.LibCoro.Objects.{CoroStack, LibCoroCoroutine, CoroEnv, set_coro}

-- `NULL != stack && stack->shared`.
unfoldable pub on_shared_stack : LibCoroCoroutine → CoroEnv → Option Bool
on_shared_stack k e = elim k.stack [
  | none ↦ some false
  | some s ↦ do st ← e.stacks s; some st.shared
]

-- The number of bytes from `sp` to the upper end of the stack, as a `size_t`.
unfoldable pub used_size : CoroStack → ℕ → ℕ
used_size st sp = (st.sptr + st.ssze + 2 ^ 64 - sp) % 2 ^ 64

-- `sp` is the address of the local variable `c`.
unfoldable pub mark_stack_resume_point : ℕ → ℕ → CoroEnv → Option CoroEnv
unfolding used_size
mark_stack_resume_point sp c e = do
  k ← e.coros c
  elim k.stack [
    | none ↦ some e
    | some s ↦ do
      st ← e.stacks s
      if st.shared
          then some
              (set_coro c (record k { stack_sp = some sp; save_buffer_size = used_size st sp }) e)
          else some e
  ]

unfoldable pub save_stack_buffer : ℕ → CoroEnv → Option CoroEnv
unfolding read_block on_shared_stack
save_stack_buffer c e = do
  k ← e.coros c
  shared ← on_shared_stack k e
  elim k.stack_sp [
    | none ↦ some e
    | some sp ↦
        if shared
        then some (
            set_coro c (record k { save_buffer = some (read_block e.mem sp k.save_buffer_size) }) e)
        else some e
  ]

-- `memcpy(stack_sp, save_buffer, save_buffer_size)` and the reset of the three fields.
unfoldable pub copy_back : ℕ → LibCoroCoroutine → List ℕ → CoroEnv → Option CoroEnv
unfolding write_block
copy_back c k bytes e = do
  sp ← k.stack_sp
  let k' = record k { save_buffer = none; stack_sp = none; save_buffer_size = 0 }
  let mem' = write_block e.mem sp (take k.save_buffer_size bytes)
  if leb k.save_buffer_size (length bytes)
      then some (set_coro c k' (record e { mem = mem' }))
      else none

unfoldable pub resume_stack_buffer : ℕ → CoroEnv → Option CoroEnv
unfolding copy_back on_shared_stack
resume_stack_buffer c e = do
  k ← e.coros c
  elim k.save_buffer [
    | none ↦ some e
    | some bytes ↦ do shared ← on_shared_stack k e; if shared then copy_back c k bytes e else some e
  ]
