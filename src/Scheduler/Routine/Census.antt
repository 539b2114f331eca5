-- ===== src/Scheduler/Routine/Census.antt =====
-- The tasks of a scheduler (scheduler.cpp): how often each waits in the queues, and which exist.
use coroxx.Base.{
  ℕ, ◌+◌, ◌≤◌, ◌≡◌, inl, inr, Option, none, some, some_injective, List, [], ◌∷◌, arith, Bool-cases,
  Option-cases, sym, ◌∙◌, ap, ◌==◌, ==-refl, ne→==, ◌≢◌, if◌then◌else◌, eq-or-ne,
}
use coroxx.Base.Int.{ℤ, eqz, ltz}
use coroxx.Base.Store.{update, update_self, update_ne}
use coroxx.Scheduler.State.{CoroDiaptchData, World}
use coroxx.Scheduler.TimeQueue.{TimeTable, bucket, erase_at, add_at}
use coroxx.Scheduler.TimeQueue.Order.{bucket_here, bucket_there, add_same, add_before, add_after}
use coroxx.Scheduler.TimeQueue.Load.{weights, weights-append, erase_here, erase_there}

-- The task counts once.
abbrev pub one : ℕ → ℕ → ℕ
one b a = if a == b then 1 else 0

pub one_self : (a : ℕ) → one a a ≡ 1
one_self a = ground (arith, ==-refl a)

one_other : (b a : ℕ) → a ≢ b → one b a ≡ 0
one_other b a h = ground (arith, ne→== a b h)

-- How often the task waits for a deadline.
abbrev pub tally : ℕ → TimeTable → ℕ
tally b [] = 0
tally b ((ts, q) ∷ m) = weights (one b) q + tally b m

-- How often it waits.
abbrev pub occurs : ℕ → World → ℕ
occurs b w = tally b w.scheduler.coro_time_queue + weights (one b) w.scheduler.coro_queue

-- 1 for a task that exists.
abbrev pub alive : Option CoroDiaptchData → ℕ
alive none = 0
alive (some _) = 1

abbrev pub live : ℕ → (ℕ → Option CoroDiaptchData) → ℕ
live b tasks = alive (tasks b)

abbrev pub Lives : ℕ → World → Type 0
Lives a w = (t : CoroDiaptchData) × (w.tasks a ≡ some t)

-- A task that waits exists, and waits once; those of `done` were invoked and are still in the queue.
abbrev pub Accounted : List ℕ → World → Type 0
Accounted done w = (b : ℕ) → occurs b w ≤ weights (one b) done + live b w.tasks

pub live-Lives : (a : ℕ) (w : World) → 1 ≤ live a w.tasks → Lives a w
live-Lives a w h = elim (Option-cases (w.tasks a)) [
  | inl p ↦ absurd (omega (arith, ap alive p, h))
  | inr (t, p) ↦ (t, p)
]

-- The two worlds differ only in the queues, and in what the scheduler did outside.
abbrev pub Rearranged : World → World → Type 0
Rearranged w w' = w' ≡ record w {
  scheduler = record w.scheduler {
    coro_queue = w'.scheduler.coro_queue;
    coro_time_queue = w'.scheduler.coro_time_queue;
    routine_wait_ms = w'.scheduler.routine_wait_ms;
  };
  readings = w'.readings;
  dispatched = w'.dispatched;
  notified = w'.notified;
  events = w'.events;
}

pub tally-erase_at :
    (b : ℕ) (ts : ℤ) (q : List ℕ) (m : TimeTable)
    → bucket ts m ≡ some q
    → tally b m ≡ weights (one b) q + tally b (erase_at ts m)
unfolding erase_at bucket
tally-erase_at b ts q [] h = cc
tally-erase_at b ts q ((j, p) ∷ m) h = elim (Bool-cases (eqz ts j)) [
  | inl e ↦
      let same : p ≡ q = some_injective (sym (bucket_here ts 0 j p m e) ∙ h) in
      omega (arith, ap (weights (one b)) same, ap (tally b) (erase_here ts j p m e))
  | inr e ↦ omega (
    arith,
    tally-erase_at b ts q m (sym (bucket_there ts 0 j p m e) ∙ h),
    ap (tally b) (erase_there ts j p m e),
  )
]

pub tally-add_at :
    (b : ℕ) (ts : ℤ) (a : ℕ) (m : TimeTable) → tally b (add_at ts a m) ≡ tally b m + one b a
unfolding add_at
tally-add_at b ts a [] = omega arith
tally-add_at b ts a ((j, q) ∷ m) = elim (Bool-cases (eqz ts j)) [
  | inl p ↦ omega (arith, ap (tally b) (add_same ts a j q m p), weights-append (one b) q (a ∷ []))
  | inr p ↦ elim (Bool-cases (ltz ts j)) [
    | inl l ↦ omega (arith, ap (tally b) (add_before ts a j q m p l))
    | inr l ↦ omega (arith, ap (tally b) (add_after ts a j q m p l), tally-add_at b ts a m)
  ]
]

-- A task that is made, and one that is deleted.
pub live_new :
    (b n : ℕ) (t : CoroDiaptchData) (tasks : ℕ → Option CoroDiaptchData)
    → tasks n ≡ none
    → live b tasks + one b n ≡ live b (update tasks n (some t))
live_new b n t tasks free = elim (eq-or-ne b n) [
  | inl p ↦ omega (
    arith,
    ap alive (ap tasks p ∙ free),
    ap alive (ap (update tasks n (some t)) p ∙ update_self tasks n (some t)),
    ap (λ x. one x n) p ∙ one_self n,
  )
  | inr p ↦ omega (arith, ap alive (update_ne tasks n b (some t) p), one_other b n λ h. p (sym h))
]

pub live_gone :
    (b a : ℕ) (tasks : ℕ → Option CoroDiaptchData)
    → live b tasks ≤ live b (update tasks a none) + one b a
live_gone b a tasks = elim (eq-or-ne b a) [
  | inl p ↦ elim (Option-cases (tasks b)) [
    | inl q ↦ omega (arith, ap alive q)
    | inr (t, q) ↦ omega (arith, ap alive q, ap (λ x. one x a) p ∙ one_self a)
  ]
  | inr p ↦ omega (arith, ap alive (update_ne tasks a b none p))
]
