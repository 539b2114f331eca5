-- ===== src/Threads/Lock.antt =====
-- thread_mutex_lock.h: the deadline of a timed wait, and which wait a timeout asks for.
pub mod Deadline
use coroxx.Base.{ℕ, suc, ◌+◌, ◌-◌, ◌*◌, ◌/◌, ◌%◌, ◌^◌, Bool, true, false, if◌then◌else◌, ◌==◌, ltb}
use coroxx.Base.Int.{ℤ, pos, negsuc, sub_ℕ, pos_part, neg_part, ◌+ℤ◌, eqz}

pub record TimeSpec : Type 0 where
  pub tv_sec : ℤ
  pub tv_nsec : ℤ

-- `/` and `%` of C by a positive number: they round towards 0.
unfoldable pub quotient : ℤ → ℕ → ℤ
quotient a d = sub_ℕ (pos_part a / d) (neg_part a / d)

unfoldable pub remainder : ℤ → ℕ → ℤ
remainder a d = elim a [ pos n ↦ pos (n % d) | negsuc n ↦ sub_ℕ 0 (suc n % d) ]

-- A multiple by a positive number.
unfoldable pub scale : ℤ → ℕ → ℤ
scale a d = sub_ℕ (pos_part a * d) (neg_part a * d)

unfoldable pub set_wait_time : ℤ → ℤ → TimeSpec
unfolding quotient remainder scale ◌+ℤ◌
set_wait_time now_micros mills =
    let nanos = scale now_micros 1000 +ℤ scale mills 1000000 in
    record { tv_sec = quotient nanos 1000000000; tv_nsec = remainder nanos 1000000000 }

-- `(int64_t)` of a `uint64_t`, and back.
unfoldable pub to_int64 : ℕ → ℤ
to_int64 n = if ltb n (2 ^ 63) then pos n else negsuc (2 ^ 64 - 1 - n)

unfoldable pub to_uint64 : ℤ → ℕ
to_uint64 (pos n) = n % 2 ^ 64
to_uint64 (negsuc n) = 2 ^ 64 - 1 - n % 2 ^ 64

-- The call of pthreads that a `Wait` makes.
pub data WaitCall : Type 0 where
  pthread_cond_wait : WaitCall
  pthread_cond_timedwait : TimeSpec → WaitCall

-- `tv_sec` and `tv_usec` are what `gettimeofday` gives.
unfoldable pub wait_call : ℕ → ℕ → ℕ → WaitCall
unfolding set_wait_time to_int64
wait_call tv_sec tv_usec timeout =
    if timeout == 0
    then pthread_cond_wait
    else pthread_cond_timedwait
        (set_wait_time (pos (tv_sec * 1000 * 1000 + tv_usec)) (to_int64 timeout))

-- `Wait`, with what pthreads returns for a call.
unfoldable pub wait : (WaitCall → ℤ) → ℕ → ℕ → ℕ → Bool
unfolding wait_call
wait pthread tv_sec tv_usec timeout = eqz (pos 0) (pthread (wait_call tv_sec tv_usec timeout))
