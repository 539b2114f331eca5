-- ===== src/Scheduler/Tests/Loops.antt =====
-- The theorems on the loops of scheduler.cpp at a concrete scheduler.
use coroxx.Base.{ℕ, ◌<◌, ◌≡◌, false, none, some, Option, [], ◌∷◌, ◌==◌, ltb, if◌then◌else◌}
use coroxx.Base.Int.{pos}
use coroxx.Base.Store.{update}
use coroxx.CoroBase.{CoroutineFunction, user, default_options}
use coroxx.LibCoro.Tests.{started, site}
use coroxx.Scheduler.State.{CoroDiaptchData, World, boot}
use coroxx.Scheduler.Tasks.{start_coro_after, invoke}

-- Task 1 weighs more than the one that it delays.
abbrev weight : ℕ → ℕ
weight a = if a == 1 then 3 else 1

abbrev user_task : ℕ → CoroDiaptchData
user_task n = record { call = user n; arg = none; create_coro = false }

-- The function 1 of the program delays its function 2, and the others return at once.
abbrev run_user : CoroutineFunction → Option ℕ → World → Option World
run_user f arg w = elim f [
  | user n ↦
      if n == 1 then some (start_coro_after (some 0) (user 2) none (pos 5) false w).1 else some w
  | _ ↦ some w
]

abbrev invoke_user : ℕ → World → Option World
invoke_user = invoke run_user (λ w. some w) (site 0 100)

-- All tasks are calls of functions of the program, and only task 1 is one of function 1.
abbrev Ready : World → Type 0
Ready w =
    ((a : ℕ) (t : CoroDiaptchData)
      → w.tasks a ≡ some t
      → (n : ℕ) × (t ≡ user_task n) × (n ≡ 1 → a ≡ 1) × (a < w.next_address))
    × (1 < w.next_address)

-- The world after the delay, without the task that was invoked.
delayed : ℕ → World → World
delayed a w =
    let w' = (start_coro_after (some 0) (user 2) none (pos 5) false w).1 in
    record w' { tasks = update w'.tasks a none }

abbrev busy_tasks : ℕ → Option CoroDiaptchData
busy_tasks a = if a == 1 then some (user_task 1) else if ltb a 5 then some (user_task 3) else none

-- A task to run now, and delayed ones of which tasks 1 and 3 are due.
abbrev busy_world : World
busy_world =
    let w = boot default_options started (λ n. record { tv_sec = n; tv_usec = 0 }) in
    record w {
      scheduler = record w.scheduler {
        coro_queue = 2 ∷ [];
        coro_time_queue = (pos 0, 1 ∷ 3 ∷ []) ∷ (pos 90000, 4 ∷ []) ∷ [];
      };
      tasks = busy_tasks;
      next_address = 5;
    }
