-- ===== src/LibCoro/Layout.antt =====
-- Where the bytes of each coroutine are: the laws that tie the coroutines of libcoro.cpp to their
-- stacks and buffers. `coros` and `stacks` are the two tables of a `CoroEnv`. The children say how
-- the laws and the bytes survive the change of one object.
pub mod Change
pub mod Grow
pub mod Occupy
pub mod Bytes
pub mod Drop
use coroxx.Base.{
  ℕ, ◌+◌, ◌-◌, ◌^◌, ◌≤◌, ◌<◌, ◌≡◌, ◌≢◌, ◌⊎◌, Option, true, false, none, some, List, length, take,
}
use coroxx.Base.Store.{read_block}
use coroxx.LibCoro.Objects.{CoroStack, LibCoroCoroutine}

abbrev pub Coros : Type 0
Coros = ℕ → Option LibCoroCoroutine

abbrev pub Stacks : Type 0
Stacks = ℕ → Option CoroStack

-- The bytes of a suspended coroutine reach from `stack_sp` to the upper end of its stack.
pub record Parked (st : CoroStack) (k : LibCoroCoroutine) : Type 0 where
  pub sp : ℕ
  pub marked : k.stack_sp ≡ some sp
  pub above : st.sptr ≤ sp
  pub exact : sp + k.save_buffer_size ≡ st.sptr + st.ssze

-- Coroutine `c`, which is `k`, has the stack number `s`, which is `st`.
pub record On (coros : Coros) (stacks : Stacks) (c s : ℕ) (k : LibCoroCoroutine) (st : CoroStack)
    : Type 0 where
  pub coro : coros c ≡ some k
  pub stack : k.stack ≡ some s
  pub live : stacks s ≡ some st

-- A buffer holds the whole of a suspended coroutine's part of a shared stack.
pub record Saved (coros : Coros) (stacks : Stacks) (c : ℕ) (k : LibCoroCoroutine) (bytes : List ℕ)
    : Type 0 where
  pub number : ℕ
  pub stack : CoroStack
  pub on : On coros stacks c number k stack
  pub shared : stack.shared ≡ true
  pub parked : Parked stack k
  pub whole : length bytes ≡ k.save_buffer_size

-- A coroutine that has not started has nothing on a stack.
abbrev pub Started : LibCoroCoroutine → Type 0
Started k = (k.ctx_inited ≡ true) ⊎ ((k.stack_sp ≡ none) × (k.save_buffer ≡ none))

-- The laws at a moment of a switch. Except for those in `X`, a coroutine without a buffer is the one
-- that its stack serves; except for those in `Y`, one on a shared stack is suspended at a marked
-- point; except for those in `Z`, the one that a stack serves has no buffer.
pub record Laws (X Y Z : ℕ → Type 0) (coros : Coros) (stacks : Stacks) (next_stack seed : ℕ)
    : Type 0 where
  pub live_stack :
      (c s : ℕ) (k : LibCoroCoroutine)
      → coros c ≡ some k
      → k.stack ≡ some s
      → (st : CoroStack) × (stacks s ≡ some st)
  pub user :
      (s o : ℕ) (st : CoroStack)
      → stacks s ≡ some st
      → st.coro ≡ some o
      → (k : LibCoroCoroutine) × On coros stacks o s k st
  pub saved :
      (c : ℕ) (k : LibCoroCoroutine) (bytes : List ℕ)
      → coros c ≡ some k
      → k.save_buffer ≡ some bytes
      → Saved coros stacks c k bytes
  pub apart :
      (s s' : ℕ) (st st' : CoroStack)
      → s ≢ s'
      → stacks s ≡ some st
      → stacks s' ≡ some st'
      → (st.sptr + st.ssze ≤ st'.sptr) ⊎ (st'.sptr + st'.ssze ≤ st.sptr)
  pub fits : (s : ℕ) (st : CoroStack) → stacks s ≡ some st → st.sptr + st.ssze < 2 ^ 64
  pub stack_numbers : (s : ℕ) (st : CoroStack) → stacks s ≡ some st → s < next_stack
  pub coro_numbers : (c : ℕ) (k : LibCoroCoroutine) → coros c ≡ some k → c < seed
  pub alone :
      (c c' s : ℕ) (k k' : LibCoroCoroutine) (st : CoroStack)
      → On coros stacks c s k st
      → On coros stacks c' s k' st
      → st.shared ≡ false
      → c ≡ c'
  pub started : (c : ℕ) (k : LibCoroCoroutine) → coros c ≡ some k → Started k
  pub resident :
      (c s : ℕ) (k : LibCoroCoroutine) (st : CoroStack)
      → On coros stacks c s k st
      → k.save_buffer ≡ none
      → (st.coro ≡ some c) ⊎ X c
  pub suspended :
      (c s : ℕ) (k : LibCoroCoroutine) (st : CoroStack)
      → On coros stacks c s k st
      → st.shared ≡ true
      → Parked st k ⊎ Y c
  pub users :
      (c s : ℕ) (k : LibCoroCoroutine) (st : CoroStack)
      → On coros stacks c s k st
      → st.coro ≡ some c
      → (k.save_buffer ≡ none) ⊎ Z c

-- The bytes from `sp` on of a suspended coroutine, wherever they are.
abbrev pub held : (ℕ → ℕ) → Option (List ℕ) → ℕ → ℕ → List ℕ
held mem buffer size sp = elim buffer [ some bytes ↦ bytes | none ↦ read_block mem sp size ]

abbrev pub image : (ℕ → ℕ) → LibCoroCoroutine → ℕ → List ℕ
image mem k sp = held mem k.save_buffer k.save_buffer_size sp

-- Coroutine `c` is suspended on a shared stack at `at`, and has `size` bytes there, of which all
-- but the `r` uppermost are `img`.
pub record Kept (r : ℕ) (coros : Coros) (stacks : Stacks) (mem : ℕ → ℕ) (c at size : ℕ)
    (img : List ℕ) : Type 0 where
  pub number : ℕ
  pub coroutine : LibCoroCoroutine
  pub stack : CoroStack
  pub on : On coros stacks c number coroutine stack
  pub shared : stack.shared ≡ true
  pub parked : Parked stack coroutine
  pub place : parked.sp ≡ at
  pub extent : coroutine.save_buffer_size ≡ size
  pub bytes : take (coroutine.save_buffer_size - r) (image mem coroutine parked.sp) ≡ img
