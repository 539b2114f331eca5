-- ===== src/Scheduler/Tests/Processes.antt =====
-- The theorem on calls from other threads at a concrete process.
use coroxx.Base.{◌⊎◌, ℕ, ◌≡◌, none, some, List, [], ◌∷◌, arith, Ensures, true}
use coroxx.CoroBase.{default_options, coro_sleep_cb}
use coroxx.LibCoro.Tests.{site, thread}
use coroxx.Base.Int.{pos, ◌+ℤ◌, ◌<ℤ◌, ◌≤ℤ◌}
use coroxx.Scheduler.Tasks.{push_coro_task}
use coroxx.Scheduler.State.{World, boot, current_mills}
use coroxx.Scheduler.Manager.Choice.{chosen}
use coroxx.Scheduler.Process.{Caller, schedulers, start_coro_anywhere}
use coroxx.Scheduler.Tasks.Pushes.{Queued, Delayed, task, push_coro_task-Queued}
use coroxx.Scheduler.Process.Serves.{Served, start_coro_anywhere-Served}

-- A scheduler that runs some coroutines.
abbrev running : List (ℕ × ℕ) → World
running table =
    let w = boot default_options thread (λ n. record { tv_sec = n; tv_usec = 0 }) in
    record w { scheduler = record w.scheduler { exec_table = table } }

abbrev worlds : List World
worlds = running ((4, 4) ∷ []) ∷ running [] ∷ running ((6, 6) ∷ (7, 7) ∷ []) ∷ []

start_coro_anywhere-Served_example :
    Ensures
      (λ ((id, c, ws') : ℕ × Caller × List World).
        (c ≡ record { env = thread; current = none })
        × Served
            (λ w (id, w').
              (id ≡ 0)
              × Queued (record { call = coro_sleep_cb; arg = some 4; create_coro = true }) w w')
            (chosen (schedulers worlds))
            worlds
            id
            ws')
      (start_coro_anywhere
        (λ _. (thread, λ n. record { tv_sec = n; tv_usec = 0 }))
        (λ _. (pos 0, pos 0))
        (record { env = thread; current = none })
        coro_sleep_cb
        (some 4)
        (site 0 100)
        (some worlds))
start_coro_anywhere-Served_example =
    start_coro_anywhere-Served (λ _. (thread, λ n. record { tv_sec = n; tv_usec = 0 }))
      (λ _. (pos 0, pos 0)) coro_sleep_cb (some 4) (site 0 100) thread worlds (omega arith)

push_coro_task-Queued_example :
    ((push_coro_task coro_sleep_cb (some 4) true (pos 30) (running [])).0 ≡ pos 0)
    × ((pos 30 ≤ℤ pos 0
          × Queued
              (task coro_sleep_cb (some 4) true (running []))
              (running [])
              (push_coro_task coro_sleep_cb (some 4) true (pos 30) (running [])).1)
        ⊎ (pos 0 <ℤ pos 30
            × Delayed
                (task coro_sleep_cb (some 4) true (running []))
                (pos (current_mills (running [])).0 +ℤ pos 30)
                (running [])
                (push_coro_task coro_sleep_cb (some 4) true (pos 30) (running [])).1))
push_coro_task-Queued_example =
    push_coro_task-Queued coro_sleep_cb (some 4) true (pos 30) (running []) tt
