-- ===== src/Scheduler/Manager/Choice.antt =====
-- What `GetScheduler` of scheduler.cpp gives.
use coroxx.Base.{
  ℕ, ◌+◌, ◌<◌, ◌≡◌, refl, ◌⊎◌, inr, true, false, Option, none, some, List, [], ◌∷◌, arith, ◌==◌,
  length, ltb, get-of-lt, if◌then◌else◌,
}
use coroxx.Scheduler.State.{Scheduler}
use coroxx.Scheduler.Coroutines.{get_coro_num}
use coroxx.Scheduler.Manager.{pick, get_scheduler}

-- The first scheduler with no coroutine, counted from `i`.
abbrev pub first_idle : List Scheduler → ℕ → Option ℕ
first_idle [] i = none
first_idle (s ∷ ss) i = elim (get_coro_num s == 0) [ true ↦ some i | false ↦ first_idle ss (i + 1) ]

abbrev pub or_first : Option ℕ → ℕ
or_first none = 0
or_first (some i) = i

pick-first_idle : (ss : List Scheduler) (i : ℕ) → pick ss i 0 0 ≡ or_first (first_idle ss i)
unfolding pick
pick-first_idle [] i = refl
pick-first_idle (s ∷ ss) i = ground (arith, pick-first_idle ss (i + 1))

first_idle_range :
    (ss : List Scheduler) (i : ℕ)
    → or_first (first_idle ss i) < i + length ss ⊎ (first_idle ss i ≡ none)
first_idle_range [] i = inr refl
first_idle_range (s ∷ ss) i = ground (arith, first_idle_range ss (i + 1))

abbrev pub chosen : List Scheduler → ℕ
chosen ss = if ltb 1 (length ss) then or_first (first_idle ss 0) else 0

pub chosen-lt : (ss : List Scheduler) → 0 < length ss → chosen ss < length ss
chosen-lt ss h = ground (arith, first_idle_range ss 0)

-- A thread without a scheduler of its own is served by the manager's first scheduler that has no
-- coroutine, and by the scheduler at place 0 if each has one, whatever their loads. The manager has
-- at least one scheduler.
pub get_scheduler-first_idle :
    (ss : List Scheduler) → 0 < length ss → get_scheduler none ss ≡ some (chosen ss)
unfolding get_scheduler
get_scheduler-first_idle ss h =
    let (s, e) = get-of-lt ss (chosen ss) (chosen-lt ss h) in
    ground (arith, e, pick-first_idle ss 0)
