-- ===== src/Scheduler/Routine/Waits.antt =====
-- How long the loop of scheduler.cpp waits for a task.
use coroxx.Base.{ℕ, ◌+◌, ◌*◌, ◌≤◌, ◌<◌, ◌^◌, ◌≡◌, refl, arith, subst, sym}
use coroxx.Base.Int.{ℤ, pos, negsuc}
use coroxx.Threads.Lock.{wait_call, to_uint64}
use coroxx.Threads.Lock.Deadline.{Until, now_nanos, wait_call-Until}
use coroxx.Scheduler.Routine.{clamp_wait}

clamp_wait_range : (t : ℤ) → (n : ℕ) × (to_uint64 (clamp_wait t) ≡ n) × (0 < n) × (n ≤ 100)
unfolding clamp_wait to_uint64
clamp_wait_range (pos n) = (to_uint64 (clamp_wait (pos n)), refl, ground arith, ground arith)
clamp_wait_range (negsuc n) = (10, ground arith, ground arith, ground arith)

-- The scheduler's wait for a task is a timed one whatever the time to the next deadline is: it ends
-- 1 to 100 milliseconds after the present time, never at once and never without a limit. The present
-- time and 100 milliseconds, in nanoseconds, fit an `int64_t`.
pub clamp_wait-Until :
    (tv_sec tv_usec : ℕ) (t : ℤ)
    → now_nanos tv_sec tv_usec + 100 * 1000000 < 2 ^ 63
    → (n : ℕ) × (0 < n)
      × (n ≤ 100)
      × Until
          (wait_call tv_sec tv_usec (to_uint64 (clamp_wait t)))
          (now_nanos tv_sec tv_usec + n * 1000000)
clamp_wait-Until s u t now =
    let (n, e, low, high) = clamp_wait_range t in
    (
      n,
      low,
      high,
      subst (λ m. Until (wait_call s u m) (now_nanos s u + n * 1000000)) (sym e)
          (wait_call-Until s u n low (omega (arith, high, now))),
    )
