-- ===== src/LibCoro/Safety.antt =====
-- What holds of a thread's coroutines between two switches, what a switch needs of its call site,
-- and what its parts preserve. The children follow `Resume` part by part.
pub mod Parts
pub mod Start
pub mod Assign
pub mod Enter
pub mod Save
pub mod Mark
pub mod Back
pub mod Swap
pub mod Leave
pub mod Switching
pub mod Begin
pub mod Turns
pub mod Upon
pub mod Flags
pub mod Waits
pub mod Delete
pub mod History
use coroxx.Base.{ℕ, ◌+◌, ◌^◌, ◌≤◌, ◌<◌, ◌≡◌, ◌≢◌, ◌⊎◌, Option, true, none, some, List, length, All}
use coroxx.LibCoro.Objects.{CoroStack, LibCoroCoroutine, CoroEnv, CallSite}
use coroxx.Base.{◌-◌}
use coroxx.Base.Store.{read_block}
use coroxx.LibCoro.Layout.{Coros, Stacks, On, Laws, Kept}

abbrev pub Nobody : ℕ → Type 0
Nobody c = ⊥

-- The coroutine `c` exists.
abbrev pub Has : Coros → ℕ → Type 0
Has coros c = (k : LibCoroCoroutine) × (coros c ≡ some k)

-- `s` is a shared stack.
abbrev pub IsShared : Stacks → ℕ → Type 0
IsShared stacks s = (st : CoroStack) × (stacks s ≡ some st) × (st.shared ≡ true)

-- The pointers of a thread lead to what they should.
pub record Alive (coros : Coros) (stacks : Stacks) (main : Option ℕ) (coro_stack pool : List ℕ)
    : Type 0 where
  pub main_live : (m : ℕ) → main ≡ some m → Has coros m
  pub stacked : All (Has coros) coro_stack
  pub pooled : All (IsShared stacks) pool

-- The coroutine that runs has started and has no buffer, and none has one before the first runs.
pub record Quiet (coros : Coros) (old : Option ℕ) : Type 0 where
  pub old_live : (c : ℕ) → old ≡ some c → Has coros c
  pub clean :
      (c : ℕ) (k : LibCoroCoroutine) → old ≡ some c → coros c ≡ some k → k.save_buffer ≡ none
  pub inited :
      (c : ℕ) (k : LibCoroCoroutine) → old ≡ some c → coros c ≡ some k → k.ctx_inited ≡ true
  pub first :
      old ≡ none
      → (c : ℕ) (k : LibCoroCoroutine) → coros c ≡ some k
      → (k.save_buffer ≡ none) × (k.stack_sp ≡ none)

-- Between two switches.
pub record Settled (e : CoroEnv) : Type 0 where
  pub laws :
      Laws Nobody (λ c. e.current ≡ some c) Nobody e.coros e.stacks e.next_stack e.g_coro_id_seed
  pub alive : Alive e.coros e.stacks e.main e.coro_stack e.pool
  pub current_live : (c : ℕ) → e.current ≡ some c → Has e.coros c
  pub serving :
      (c s : ℕ) (k : LibCoroCoroutine) (st : CoroStack)
      → e.current ≡ some c
      → On e.coros e.stacks c s k st
      → st.coro ≡ some c
  pub inited :
      (c : ℕ) (k : LibCoroCoroutine) → e.current ≡ some c → e.coros c ≡ some k → k.ctx_inited ≡ true
  pub has_main : (c : ℕ) → e.current ≡ some c → (m : ℕ) × (e.main ≡ some m)
  pub first :
      e.current ≡ none
      → (c : ℕ) (k : LibCoroCoroutine) → e.coros c ≡ some k
      → (k.save_buffer ≡ none) × (k.stack_sp ≡ none)

-- `coro_create` stays inside the stacks.
abbrev pub Roomy : CallSite → Stacks → Type 0
Roomy site stacks =
    (s : ℕ) (st : CoroStack) → stacks s ≡ some st → length site.coro_create ≤ st.ssze

-- A stack that `coro_stack_alloc` gives lies apart from those that there are.
pub record Fresh (site : CallSite) (stacks : Stacks) (stack_size : ℕ) : Type 0 where
  pub fits : (site.coro_stack_alloc stack_size).0 + (site.coro_stack_alloc stack_size).1 < 2 ^ 64
  pub roomy : length site.coro_create ≤ (site.coro_stack_alloc stack_size).1
  pub apart :
      (s : ℕ) (st : CoroStack)
      → stacks s ≡ some st
      → (st.sptr + st.ssze ≤ (site.coro_stack_alloc stack_size).0)
        ⊎ ((site.coro_stack_alloc stack_size).0 + (site.coro_stack_alloc stack_size).1 ≤ st.sptr)

-- The coroutine that runs, `old`, has its local variables on its own stack.
abbrev pub InFrame : CallSite → Coros → Stacks → Option ℕ → Type 0
InFrame site coros stacks old =
    (c s : ℕ) (k : LibCoroCoroutine) (st : CoroStack)
    → old ≡ some c
    → On coros stacks c s k st
    → (st.sptr ≤ site.frame) × (site.frame ≤ st.sptr + st.ssze)

-- The running coroutine `c` has its stack `s`, which is `st`, from the time of `e₀`, with its bytes
-- from `frame` on, all but the `r` uppermost.
pub record Placing (r frame : ℕ) (e₀ : CoroEnv) (mem : ℕ → ℕ) (c s : ℕ) (st : CoroStack)
    : Type 0 where
  pub low : st.sptr ≤ frame
  pub high : frame ≤ st.sptr + st.ssze
  pub former : LibCoroCoroutine
  pub former_stack : CoroStack
  pub on : On e₀.coros e₀.stacks c s former former_stack
  pub same_sptr : st.sptr ≡ former_stack.sptr
  pub same_ssze : st.ssze ≡ former_stack.ssze
  pub same_shared : st.shared ≡ former_stack.shared
  pub bytes : (x : ℕ) → frame ≤ x → x < st.sptr + st.ssze - r → mem x ≡ e₀.mem x

-- The coroutine that ran in `e₀` keeps its stack and its bytes.
pub record Framed (r frame : ℕ) (e₀ : CoroEnv) (old : Option ℕ) (coros : Coros) (stacks : Stacks)
    (mem : ℕ → ℕ) : Type 0 where
  pub place :
      (c s : ℕ) (k : LibCoroCoroutine) (st : CoroStack)
      → old ≡ some c
      → On coros stacks c s k st
      → Placing r frame e₀ mem c s st
  pub stays :
      (c : ℕ) (k : LibCoroCoroutine)
      → old ≡ some c
      → coros c ≡ some k
      → (k₀ : LibCoroCoroutine) × (e₀.coros c ≡ some k₀) × (k.stack ≡ k₀.stack)

-- If the coroutine `c` was on a shared stack in `e₀`, it is suspended there at `frame`, with the bytes
-- that it had, all but the `r` uppermost.
abbrev pub Departed : ℕ → ℕ → CoroEnv → ℕ → Coros → Stacks → (ℕ → ℕ) → Type 0
Departed r frame e₀ c coros stacks mem =
    (s : ℕ) (k : LibCoroCoroutine) (st : CoroStack)
    → On e₀.coros e₀.stacks c s k st
    → st.shared ≡ true
    → Kept r coros stacks mem c frame (st.sptr + st.ssze - frame)
        (read_block e₀.mem frame (st.sptr + st.ssze - frame - r))

-- The call site of a switch in the state `e`.
pub record SiteFits (site : CallSite) (e : CoroEnv) : Type 0 where
  pub frame : InFrame site e.coros e.stacks e.current
  pub fresh : Fresh site e.stacks e.stack_size
  pub roomy : Roomy site e.stacks

-- `coro_create` writes to at most the `r` uppermost bytes of the stack of `this`, or is not called.
abbrev pub Spares : ℕ → CallSite → Coros → ℕ → Type 0
Spares r site coros this =
    (k : LibCoroCoroutine)
    → coros this ≡ some k
    → (k.ctx_inited ≡ true) ⊎ (length site.coro_create ≤ r)

-- The bytes that were suspended coroutines' in `e₀`, but for those in `B`, are in `e`.
abbrev pub Keeps : ℕ → (ℕ → Type 0) → CoroEnv → CoroEnv → Type 0
Keeps r B e₀ e =
    (c at size : ℕ) (img : List ℕ)
    → ¬ B c
    → Kept r e₀.coros e₀.stacks e₀.mem c at size img
    → Kept r e.coros e.stacks e.mem c at size img

-- What every part of a switch to `this` keeps, with the exceptions `X`, `Y`, `Z` of `Laws` and `B`.
-- It reads the tables, the memory and the pointers of `e` alone.
abbrev pub Stage :
    ℕ
    → CallSite
    → ℕ
    → CoroEnv
    → (ℕ → Type 0)
    → (ℕ → Type 0)
    → (ℕ → Type 0)
    → (ℕ → Type 0)
    → CoroEnv
    → Type 0
Stage r site this e₀ B X Y Z e =
    Laws X Y Z e.coros e.stacks e.next_stack e.g_coro_id_seed
    × Keeps r B e₀ e
    × Alive e.coros e.stacks e.main e.coro_stack e.pool
    × Roomy site e.stacks
    × Has e.coros this
