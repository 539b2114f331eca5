-- ===== src/Scheduler/Handoff.antt =====
-- How tasks get from other threads to a scheduler (scheduler.cpp): `PushCoroTask` with a `wait_time`
-- of 0 and the locked part of `Routine`, interleaved in any order over `coro_queue_mutex`. The steps
-- on the mutex and the condition are those of pthreads: a lock is taken when nobody holds it, a wait
-- gives the lock back, a signal, the time-out or pthreads itself may end it, and then it takes the lock
-- again. The queue is the `coro_queue` of a scheduler; another thread has a number.
pub mod Order
pub mod Wakes
pub mod Progress
use coroxx.Base.{
  ℕ, Bool, true, false, Option, none, some, List, [], ◌∷◌, ◌++◌, ◌==◌, if◌then◌else◌, ◌≡◌,
}
use coroxx.Base.Store.{update}

-- Where the thread of the scheduler is in `Routine`: elsewhere, behind `Lock`, in the wait of the
-- condition, after the end of that wait but without the lock, behind `Wait` with the lock, or before
-- `Unlock` with its task, if it has one.
pub data Reader : Type 0 where
  away : Reader
  entered : Reader
  asleep : Reader
  woken : Reader
  resumed : Reader
  leaving : Option ℕ → Reader

-- Where another thread is in `PushCoroTask`: elsewhere, behind `Lock` with its task, behind
-- `push_back`, or before `Unlock`.
pub data Writer : Type 0 where
  out : Writer
  inside : ℕ → Writer
  stored : Writer
  done : Writer

pub data Thread : Type 0 where
  scheduler : Thread
  other : ℕ → Thread

-- `pushed` lists the tasks that came to the queue and `taken` those that left it, in their orders.
pub record Shared : Type 0 where
  pub holder : Option Thread
  pub coro_queue : List ℕ
  pub reader : Reader
  pub writers : ℕ → Writer
  pub pushed : List ℕ
  pub taken : List ℕ

abbrev pub initial : Shared
initial = record {
  holder = none;
  coro_queue = [];
  reader = away;
  writers = λ _. out;
  pushed = [];
  taken = [];
}

-- `pthread_cond_signal`.
abbrev pub signal : Reader → Reader
signal asleep = woken
signal r = r

-- Behind `push_back`: with an event file the condition is not signalled.
unfoldable pub announce : Bool → Reader → Reader
announce eventfd r = if eventfd then r else signal r

-- `front` and `pop_front` if the queue is not empty.
unfoldable pub take_front : Shared → Shared
take_front s = elim s.coro_queue [
  | [] ↦ record s { reader = leaving none }
  | a ∷ rest ↦ record s { coro_queue = rest; reader = leaving (some a); taken = s.taken ++ a ∷ [] }
]

-- `push_back`.
unfoldable pub push_back : ℕ → ℕ → Shared → Shared
push_back i a s = record s {
  coro_queue = s.coro_queue ++ a ∷ [];
  writers = update s.writers i stored;
  pushed = s.pushed ++ a ∷ [];
}

-- The steps of `Routine(wait)`.
pub data RoutineStep (wait : Bool) (s : Shared) : Shared → Type 0 where
  reader_locks :
      s.reader ≡ away
      → s.holder ≡ none
      → RoutineStep wait s (record s { reader = entered; holder = some scheduler })
  reader_waits :
      s.reader ≡ entered
      → s.coro_queue ≡ []
      → wait ≡ true
      → RoutineStep wait s (record s { reader = asleep; holder = none })
  reader_wakes : s.reader ≡ asleep → RoutineStep wait s (record s { reader = woken })
  reader_relocks :
      s.reader ≡ woken
      → s.holder ≡ none
      → RoutineStep wait s (record s { reader = resumed; holder = some scheduler })
  reader_takes : s.reader ≡ resumed → RoutineStep wait s (take_front s)
  reader_goes_on :
      (a : ℕ) (rest : List ℕ)
      → s.reader ≡ entered
      → s.coro_queue ≡ a ∷ rest
      → RoutineStep wait s (take_front s)
  reader_skips : s.reader ≡ entered → wait ≡ false → RoutineStep wait s (take_front s)
  reader_unlocks :
      (task : Option ℕ)
      → s.reader ≡ leaving task
      → RoutineStep wait s (record s { reader = away; holder = none })

-- The steps of `PushCoroTask` on other threads; `eventfd` says that the options have an event file.
pub data PushStep (eventfd : Bool) (s : Shared) : Shared → Type 0 where
  writer_locks :
      (i a : ℕ)
      → s.writers i ≡ out
      → s.holder ≡ none
      → PushStep eventfd s
          (record s { writers = update s.writers i (inside a); holder = some (other i) })
  writer_stores : (i a : ℕ) → s.writers i ≡ inside a → PushStep eventfd s (push_back i a s)
  writer_notifies :
      (i : ℕ)
      → s.writers i ≡ stored
      → PushStep eventfd s
          (record s { writers = update s.writers i done; reader = announce eventfd s.reader })
  writer_unlocks :
      (i : ℕ)
      → s.writers i ≡ done
      → PushStep eventfd s (record s { writers = update s.writers i out; holder = none })

pub data Step (eventfd wait : Bool) (s : Shared) : Shared → Type 0 where
  reader_step : {t : Shared} → RoutineStep wait s t → Step eventfd wait s t
  writer_step : {t : Shared} → PushStep eventfd s t → Step eventfd wait s t

pub data Reach (eventfd wait : Bool) : Shared → Type 0 where
  start : Reach eventfd wait initial
  later : {s t : Shared} → Reach eventfd wait s → Step eventfd wait s t → Reach eventfd wait t
