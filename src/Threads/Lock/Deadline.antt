-- ===== src/Threads/Lock/Deadline.antt =====
-- When a timed wait of thread_mutex_lock.h ends.
use coroxx.Base.{ℕ, ◌+◌, ◌-◌, ◌/◌, ◌%◌, ◌*◌, ◌^◌, ◌≤◌, ◌<◌, ◌≡◌, arith}
use coroxx.Base.Int.{pos, negsuc}
use coroxx.Threads.Lock.{wait_call, pthread_cond_timedwait, to_uint64, WaitCall}

-- The call waits until `nanos` nanoseconds after the epoch.
abbrev pub Until : WaitCall → ℕ → Type 0
Until c nanos =
    (sec nsec : ℕ) × (c ≡ pthread_cond_timedwait (record { tv_sec = pos sec; tv_nsec = pos nsec }))
    × (nsec < 1000000000)
    × (sec * 1000000000 + nsec ≡ nanos)

abbrev pub now_nanos : ℕ → ℕ → ℕ
now_nanos tv_sec tv_usec = (tv_sec * 1000000 + tv_usec) * 1000

-- With a timeout of at least 1 millisecond a wait ends that long after the present time. The end, in
-- nanoseconds after the epoch, fits an `int64_t`.
pub wait_call-Until :
    (tv_sec tv_usec timeout : ℕ)
    → 0 < timeout
    → now_nanos tv_sec tv_usec + timeout * 1000000 < 2 ^ 63
    → Until (wait_call tv_sec tv_usec timeout) (now_nanos tv_sec tv_usec + timeout * 1000000)
unfolding wait_call
wait_call-Until s u t h k = (
  (now_nanos s u + t * 1000000) / 1000000000,
  (now_nanos s u + t * 1000000) % 1000000000,
  ground arith,
  omega arith,
  omega arith,
)

-- A negative timeout of t milliseconds, as the `uint64_t` that `Wait` takes, does not wait for ever:
-- the wait ends t milliseconds before the present time. That is after the epoch, and the present time
-- fits an `int64_t`.
pub wait_call_negative :
    (tv_sec tv_usec n : ℕ)
    → now_nanos tv_sec tv_usec < 2 ^ 63
    → (n + 1) * 1000000 ≤ now_nanos tv_sec tv_usec
    → (nanos : ℕ) × Until (wait_call tv_sec tv_usec (to_uint64 (negsuc n))) nanos
      × (nanos + (n + 1) * 1000000 ≡ now_nanos tv_sec tv_usec)
unfolding wait_call to_uint64
wait_call_negative s u n h k =
    let nanos = now_nanos s u - (n + 1) * 1000000 in
    (
      nanos,
      (nanos / 1000000000, nanos % 1000000000, ground arith, omega arith, omega arith),
      omega arith,
    )
