-- ===== src/Scheduler/Tests/Handoffs.antt =====
-- The theorems on the queue between threads in runs of two threads.
use coroxx.Base.{ℕ, true, false, some, [], ◌++◌, ◌≡◌, refl}
use coroxx.Scheduler.Handoff.{
  Shared, push_back, take_front, announce, reader_step, writer_step, reader_locks, reader_waits,
  reader_goes_on, reader_unlocks, writer_locks, writer_stores, writer_notifies, writer_unlocks,
  Reach, start, later,
}
use coroxx.Scheduler.Handoff.Wakes.{Reach-taken}
use coroxx.Scheduler.Handoff.Order.{reads, writes, Reach-Ordered}
use coroxx.Scheduler.Handoff.Progress.{Takes, Reach-Takes}

-- A state with the way to it.
abbrev Run : Type 0
Run = (s : Shared) × Reach false true s

-- The scheduler sleeps, and thread 3 has just pushed task 7.
half_pushed : Run
unfolding push_back take_front announce
half_pushed = (
  _,
  later
      (later
        (later (later start (reader_step (reader_locks refl refl)))
          (reader_step (reader_waits refl refl refl)))
        (writer_step (writer_locks 3 7 refl refl)))
      (writer_step (writer_stores 3 7 refl)),
)

Reach-Takes_example : Takes true half_pushed.0 7
unfolding half_pushed push_back
Reach-Takes_example = Reach-Takes true half_pushed.0 7 [] half_pushed.1 refl

-- Thread 3 has pushed task 7, and the scheduler has taken it and sleeps.
settled_down : Run
unfolding push_back take_front announce
settled_down = (
  _,
  later
      (later
        (later
          (later
            (later
              (later
                (later
                  (later (later start (writer_step (writer_locks 3 7 refl refl)))
                    (writer_step (writer_stores 3 7 refl)))
                  (writer_step (writer_notifies 3 refl)))
                (writer_step (writer_unlocks 3 refl)))
              (reader_step (reader_locks refl refl)))
            (reader_step (reader_goes_on 7 [] refl refl)))
          (reader_step (reader_unlocks (some 7) refl)))
        (reader_step (reader_locks refl refl)))
      (reader_step (reader_waits refl refl refl)),
)

Reach-taken_example : settled_down.0.taken ≡ settled_down.0.pushed
unfolding settled_down push_back take_front announce
Reach-taken_example = Reach-taken true settled_down.0 settled_down.1 refl refl

Reach-Ordered_example :
    (half_pushed.0.pushed ≡ half_pushed.0.taken ++ half_pushed.0.coro_queue)
    × (reads half_pushed.0.reader ≡ true → (i : ℕ) → writes (half_pushed.0.writers i) ≡ false)
    × ((i j : ℕ)
        → writes (half_pushed.0.writers i) ≡ true
        → writes (half_pushed.0.writers j) ≡ true
        → i ≡ j)
Reach-Ordered_example = Reach-Ordered false true half_pushed.0 half_pushed.1
