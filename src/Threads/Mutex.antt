-- ===== src/Threads/Mutex.antt =====
-- thread_mutex.h, thread_condition.h and the methods of thread_mutex_lock.h that do not wait. The
-- functions of pthreads are given, over a state of their own; a mutex, a condition and an attribute
-- are numbers in it, and what a function returns is its error code.
use coroxx.Base.{ℕ, Bool}
use coroxx.Base.Int.{ℤ, pos, eqz}

pub record Pthread : Type 1 where
  pub State : Type 0
  pub mutexattr_init : State → ℕ × State
  pub mutexattr_settype : ℕ → ℤ → State → State
  pub mutexattr_destroy : ℕ → State → State
  pub mutex_init : ℕ → State → ℕ × State
  pub mutex_destroy : ℕ → State → State
  pub mutex_lock : ℕ → State → ℤ × State
  pub mutex_trylock : ℕ → State → ℤ × State
  pub mutex_unlock : ℕ → State → ℤ × State
  pub cond_init : State → ℕ × State
  pub cond_destroy : ℕ → State → State
  pub cond_signal : ℕ → State → ℤ × State
  pub cond_broadcast : ℕ → State → ℤ × State

-- A `ThreadMutexLock` is a `ThreadMutex` and a `ThreadCondition`.
pub record ThreadMutexLock : Type 0 where
  pub m_mutex : ℕ
  pub m_cond : ℕ

module _ (lib : Pthread) where
  open lib use {
    State, mutexattr_init, mutexattr_settype, mutexattr_destroy, mutex_init, mutex_destroy,
    mutex_lock, mutex_trylock, mutex_unlock, cond_init, cond_destroy, cond_signal, cond_broadcast,
  }

  -- `0 == f(...)`.
  abbrev succeeds : ℤ × State → Bool × State
  succeeds (code, s) = (eqz (pos 0) code, s)

  -- The constructor of `ThreadMutex`.
  unfoldable pub new_mutex : ℤ → State → ℕ × State
  new_mutex type s =
      let (attr, s₁) = mutexattr_init s in
      let (mutex, s₂) = mutex_init attr (mutexattr_settype attr type s₁) in
      (mutex, mutexattr_destroy attr s₂)

  -- The constructor of `ThreadCondition`.
  unfoldable pub new_condition : State → ℕ × State
  new_condition s = cond_init s

  -- The constructor of `ThreadMutexLock`, with the default type of a mutex.
  unfoldable pub new_lock : ℤ → State → ThreadMutexLock × State
  unfolding new_mutex new_condition
  new_lock default_type s =
      let (mutex, s₁) = new_mutex default_type s in
      let (cond, s₂) = new_condition s₁ in (record { m_mutex = mutex; m_cond = cond }, s₂)

  unfoldable pub lock : ℕ → State → Bool × State
  lock m_mutex s = succeeds (mutex_lock m_mutex s)

  unfoldable pub unlock : ℕ → State → Bool × State
  unlock m_mutex s = succeeds (mutex_unlock m_mutex s)

  unfoldable pub try_lock : ℕ → State → Bool × State
  try_lock m_mutex s = succeeds (mutex_trylock m_mutex s)

  unfoldable pub notify : ThreadMutexLock → State → Bool × State
  notify l s = succeeds (cond_signal l.m_cond s)

  unfoldable pub notify_all : ThreadMutexLock → State → Bool × State
  notify_all l s = succeeds (cond_broadcast l.m_cond s)

  -- The destructors of `ThreadMutex`, `ThreadCondition` and of both.
  unfoldable pub delete_mutex : ℕ → State → State
  delete_mutex m_mutex s = mutex_destroy m_mutex s

  unfoldable pub delete_condition : ℕ → State → State
  delete_condition m_cond s = cond_destroy m_cond s

  unfoldable pub delete_lock : ThreadMutexLock → State → State
  unfolding delete_mutex delete_condition
  delete_lock l s = delete_mutex l.m_mutex (delete_condition l.m_cond s)
