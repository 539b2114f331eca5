-- ===== src/Scheduler/Manager.antt =====
-- `SchedulerManager` of scheduler.cpp: which of the schedulers of a process serves a call. A reference
-- to a scheduler is its place in `schedulers_`; `none` for the manager is the null pointer
-- `g_scheduler_manager`. Its constructor is in Process.antt.
pub mod Choice
use coroxx.Base.{
  ℕ, zero, suc, ◌+◌, Bool, true, false, Option, none, some, List, [], ◌∷◌, ◌==◌, ltb, if◌then◌else◌,
  ◌>>=◌, length, get_elem?,
}
use coroxx.Scheduler.State.{Scheduler}
use coroxx.Scheduler.Coroutines.{get_coro_num}

-- The loop of `GetScheduler`, from the place `i` on.
unfoldable pub pick : List Scheduler → ℕ → ℕ → ℕ → ℕ
unfolding get_coro_num
pick [] i min_coro_num min_scheduler_idx = min_scheduler_idx
pick (s ∷ ss) i min_coro_num min_scheduler_idx =
    let numk = get_coro_num s in
    elim (numk == 0) [
      | true ↦ i
      | false ↦ elim (ltb numk min_coro_num) [
        | true ↦ pick ss (i + 1) numk i
        | false ↦ pick ss (i + 1) min_coro_num min_scheduler_idx
      ]
    ]

-- The scheduler of the thread, or one of those of `Singleton()`. `none` is a read past the end.
unfoldable pub get_scheduler : Option ℕ → List Scheduler → Option ℕ
unfolding pick
get_scheduler current schedulers = elim current [
  | some s ↦ some s
  | none ↦
      let idx = if ltb 1 (length schedulers) then pick schedulers 0 0 0 else 0 in
      elim (get_elem? schedulers idx) [ none ↦ none | some _ ↦ some idx ]
]

-- `GetRunningCoroNum`; `none` follows a null pointer.
unfoldable pub get_running_coro_num : Option (List Scheduler) → Option ℕ
get_running_coro_num manager = elim manager [ some _ ↦ some 0 | none ↦ none ]
