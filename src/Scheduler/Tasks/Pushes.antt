-- ===== src/Scheduler/Tasks/Pushes.antt =====
-- The calls of scheduler.cpp that leave a task: `PushCoroTask` and what it does on each branch.
use coroxx.Base.{
  ℕ, suc, ◌+◌, ◌≡◌, refl, true, false, Bool, Bool-cases, ◌⊎◌, inl, inr, Option, some, [], ◌∷◌, ◌++◌,
  arith, sym, subst,
}
use coroxx.Base.Store.{update, update_self}
use coroxx.Base.Int.{ℤ, pos, ltz, ◌+ℤ◌, ◌<ℤ◌, ◌≤ℤ◌}
use coroxx.CoroBase.{CoroutineFunction}
use coroxx.Scheduler.State.{CoroDiaptchData, World, new_task, set_scheduler, current_mills}
use coroxx.Scheduler.TimeQueue.{bucket, add_time_coro_task}
use coroxx.Scheduler.TimeQueue.Order.{Sorted, queue_of, add_at-Sorted, bucket-add_at}
use coroxx.Scheduler.Coroutines.{is_overload}
use coroxx.Scheduler.Tasks.{push_coro_task, enqueue}

-- The scheduler was woken once: by its event file if it has one, else by the condition.
abbrev pub Woken : World → World → Type 0
Woken w w' =
    ((pos 0 <ℤ w.scheduler.options.eventfd)
      × (w'.events ≡ suc w.events)
      × (w'.notified ≡ w.notified))
    ⊎ ((w.scheduler.options.eventfd ≤ℤ pos 0)
        × (w'.events ≡ w.events)
        × (w'.notified ≡ suc w.notified))

gtz : (x : ℤ) → ltz (pos 0) x ≡ true → pos 0 <ℤ x
gtz x p = ground arith

lez : (x : ℤ) → ltz (pos 0) x ≡ false → x ≤ℤ pos 0
lez x p = ground arith

-- A task came to the end of the queue, and its scheduler was woken once.
pub record Queued (task : CoroDiaptchData) (w w' : World) : Type 0 where
  pub queue : w'.scheduler.coro_queue ≡ w.scheduler.coro_queue ++ w.next_address ∷ []
  pub stored : w'.tasks w.next_address ≡ some task
  pub woken : Woken w w'

module _ (a : ℕ) (w : World) where
  -- The queue with the task.
  abbrev longer : World
  longer = set_scheduler (record w.scheduler { coro_queue = w.scheduler.coro_queue ++ a ∷ [] }) w

  by_event :
      ltz (pos 0) w.scheduler.options.eventfd ≡ true
      → enqueue a w ≡ record longer { events = w.events + 1 }
  unfolding enqueue
  by_event p = ground (arith, p)

  by_condition :
      ltz (pos 0) w.scheduler.options.eventfd ≡ false
      → enqueue a w ≡ record longer { notified = w.notified + 1 }
  unfolding enqueue
  by_condition p = ground (arith, p)

module _ (func : CoroutineFunction) (arg : Option ℕ) (create_coro : Bool) (w : World) where
  abbrev pub task : CoroDiaptchData
  task = record { call = func; arg = arg; create_coro = create_coro }

  -- The task is there, but not in the queue.
  abbrev pub made : World
  made = record w {
    tasks = update w.tasks w.next_address (some task);
    next_address = suc w.next_address;
  }

  pub made-Queued : Queued task w (enqueue w.next_address made)
  made-Queued = elim (Bool-cases (ltz (pos 0) w.scheduler.options.eventfd)) [
    | inl p ↦ subst (Queued task w) (sym (by_event w.next_address made p)) (record {
      queue = refl;
      stored = update_self w.tasks w.next_address (some task);
      woken = inl (gtz w.scheduler.options.eventfd p, omega arith, refl);
    })
    | inr p ↦ subst (Queued task w) (sym (by_condition w.next_address made p)) (record {
      queue = refl;
      stored = update_self w.tasks w.next_address (some task);
      woken = inr (lez w.scheduler.options.eventfd p, refl, omega arith);
    })
  ]

  push_now :
      (wait_time : ℤ)
      → ltz (pos 0) wait_time ≡ false
      → push_coro_task func arg create_coro wait_time w ≡ (pos 0, enqueue w.next_address made)
  unfolding push_coro_task is_overload new_task
  push_now wait_time p = elim (Bool-cases create_coro) [
    | inl q ↦ ground (arith, p, q)
    | inr q ↦ ground (arith, p, q)
  ]

  push_later :
      (wait_time : ℤ)
      → ltz (pos 0) wait_time ≡ true
      → push_coro_task func arg create_coro wait_time w
        ≡ (pos 0, add_time_coro_task w.next_address wait_time made)
  unfolding push_coro_task is_overload new_task
  push_later wait_time p = elim (Bool-cases create_coro) [
    | inl q ↦ ground (arith, p, q)
    | inr q ↦ ground (arith, p, q)
  ]

-- A task is the last of the deadline `ts`, and nobody was woken.
pub record Delayed (task : CoroDiaptchData) (ts : ℤ) (w w' : World) : Type 0 where
  pub sorted : Sorted w'.scheduler.coro_time_queue
  pub queued :
      bucket ts w'.scheduler.coro_time_queue
      ≡ some (queue_of (bucket ts w.scheduler.coro_time_queue) ++ w.next_address ∷ [])
  pub stored : w'.tasks w.next_address ≡ some task
  pub same_queue : w'.scheduler.coro_queue ≡ w.scheduler.coro_queue
  pub same_events : w'.events ≡ w.events
  pub same_notified : w'.notified ≡ w.notified

-- `PushCoroTask` returns 0, since no scheduler is ever overloaded. With a `wait_time` of at most 0 the
-- task is at the end of the queue and the scheduler was woken once, by its event file if it has one and
-- by the condition if not. With a positive one the task is the last of the deadline that lies so far
-- from the present time, in the queue of deadlines, which stays sorted, and the scheduler is not woken.
-- The deadlines were sorted.
pub push_coro_task-Queued :
    (func : CoroutineFunction) (arg : Option ℕ) (create_coro : Bool) (wait_time : ℤ) (w : World)
    → Sorted w.scheduler.coro_time_queue
    → ((push_coro_task func arg create_coro wait_time w).0 ≡ pos 0)
      × ((wait_time ≤ℤ pos 0
            × Queued
                (task func arg create_coro w)
                w
                (push_coro_task func arg create_coro wait_time w).1)
          ⊎ (pos 0 <ℤ wait_time
              × Delayed
                  (task func arg create_coro w)
                  (pos (current_mills w).0 +ℤ wait_time)
                  w
                  (push_coro_task func arg create_coro wait_time w).1))
unfolding add_time_coro_task current_mills
push_coro_task-Queued func arg create_coro wait_time w s =
    let ts = pos (current_mills w).0 +ℤ wait_time in
    elim (Bool-cases (ltz (pos 0) wait_time)) [
      | inl p ↦ subst Good (sym (push_later func arg create_coro w wait_time p)) (
        refl,
        inr (
          gtz wait_time p,
          record {
            sorted = add_at-Sorted ts w.next_address w.scheduler.coro_time_queue s;
            queued = bucket-add_at ts w.next_address w.scheduler.coro_time_queue s;
            stored = update_self w.tasks w.next_address (some (task func arg create_coro w));
            same_queue = refl;
            same_events = refl;
            same_notified = refl;
          },
        ),
      )
      | inr p ↦
          subst Good (sym (push_now func arg create_coro w wait_time p))
            (refl, inl (lez wait_time p, made-Queued func arg create_coro w))
    ]
  where
    Good : ℤ × World → Type 0
    Good (code, w') =
        (code ≡ pos 0)
        × ((wait_time ≤ℤ pos 0 × Queued (task func arg create_coro w) w w')
            ⊎ (pos 0 <ℤ wait_time
                × Delayed (task func arg create_coro w) (pos (current_mills w).0 +ℤ wait_time) w
                    w'))
