-- ===== src/Scheduler/Routine/Adds.antt =====
-- Calls of tasks (scheduler.cpp) that come to an end: one that adds nothing, and one that delays
-- another by `StartCoroAfter`.
use coroxx.Base.{
  ℕ, suc, ◌+◌, ◌≤◌, ◌<◌, refl, inl, inr, some, [], ◌∷◌, ◌++◌, arith, Bool-cases, sym, ◌∙◌, ap,
}
use coroxx.Base.Int.{ℤ, pos, eqz, ltz, eqz→eq, ◌+ℤ◌}
use coroxx.Base.{false, none, ◌≡◌, Option}
use coroxx.Base.Store.{update}
use coroxx.CoroBase.{CoroutineFunction}
use coroxx.Scheduler.State.{CoroDiaptchData, World, current_mills, new_task}
use coroxx.Scheduler.Tasks.{start_coro_after}
use coroxx.Scheduler.Routine.Census.{tally-add_at, live_new, live_gone}
use coroxx.Scheduler.TimeQueue.{TimeTable, add_at, bucket, add_time_coro_task}
use coroxx.Scheduler.TimeQueue.Order.{
  Sorted, add_same, add_before, add_after, add_at-Sorted, bucket-add_at, bucket_other, queue_of,
}
use coroxx.Scheduler.TimeQueue.Load.{load, weights-append}
use coroxx.Scheduler.Routine.Sweep.{Extends, Grows-refl, Extends-refl, Invoked}

add_at-Extends : (ts : ℤ) (a : ℕ) (m : TimeTable) → Sorted m → Extends m (add_at ts a m)
add_at-Extends ts a m s x q p = elim (Bool-cases (eqz x ts)) [
  | inl e ↦
      let same = eqz→eq x ts e in
      (
        a ∷ [],
        ap (λ y. bucket y (add_at ts a m)) same
            ∙ bucket-add_at ts a m s
            ∙ ap (λ o. some (queue_of o ++ a ∷ [])) (ap (λ y. bucket y m) (sym same) ∙ p),
      )
  | inr n ↦ let (more, e) = Extends-refl m x q p in (more, bucket_other ts x a m n ∙ e)
]

load-add_at :
    (weight : ℕ → ℕ) (ts : ℤ) (a : ℕ) (m : TimeTable)
    → load weight (add_at ts a m) ≤ load weight m + suc (weight a)
unfolding add_at
load-add_at weight ts a [] = omega arith
load-add_at weight ts a ((j, q) ∷ m) = elim (Bool-cases (eqz ts j)) [
  | inl p ↦
      omega (arith, ap (load weight) (add_same ts a j q m p), weights-append weight q (a ∷ []))
  | inr p ↦ elim (Bool-cases (ltz ts j)) [
    | inl l ↦ omega (arith, ap (load weight) (add_before ts a j q m p l))
    | inr l ↦ omega (arith, ap (load weight) (add_after ts a j q m p l), load-add_at weight ts a m)
  ]
]

-- A task that is deleted after its call and adds nothing does what is expected of it.
pub deleted-Invoked :
    (weight : ℕ → ℕ) (a : ℕ) (w : World)
    → 0 < weight a
    → Sorted w.scheduler.coro_time_queue
    → Invoked weight a w (record w { tasks = update w.tasks a none })
deleted-Invoked weight a w heavy s = record {
  sorted = s;
  later = Extends-refl w.scheduler.coro_time_queue;
  tasks = Grows-refl w.scheduler.coro_queue;
  lighter = omega (arith, heavy);
  same_log = refl;
  accounted = λ b. omega (arith, live_gone b a w.tasks);
}

-- So does one that delays another by `StartCoroAfter`, which has less weight by at least two.
pub start_coro_after-Invoked :
    (weight : ℕ → ℕ) (a : ℕ) (f : CoroutineFunction) (arg : Option ℕ) (ms : ℤ) (w : World)
    → weight w.next_address + 1 < weight a
    → w.tasks w.next_address ≡ none
    → Sorted w.scheduler.coro_time_queue
    → Invoked weight a w (
        let w' = (start_coro_after (some 0) f arg ms false w).1 in
        record w' { tasks = update w'.tasks a none })
unfolding start_coro_after new_task add_time_coro_task current_mills
start_coro_after-Invoked weight a f arg ms w less free s =
    let ts = pos (current_mills w).0 +ℤ ms in
    let m = w.scheduler.coro_time_queue in
    let n = w.next_address in
    let task : CoroDiaptchData = record { call = f; arg = arg; create_coro = false } in
    record {
      sorted = add_at-Sorted ts n m s;
      later = add_at-Extends ts n m s;
      tasks = Grows-refl w.scheduler.coro_queue;
      lighter = omega (arith, less, load-add_at weight ts n m);
      same_log = refl;
      accounted = λ b. omega (
        arith,
        tally-add_at b ts n m,
        live_new b n task w.tasks free,
        live_gone b a (update w.tasks n (some task)),
      );
    }
