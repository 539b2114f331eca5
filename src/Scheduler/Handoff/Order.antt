-- ===== src/Scheduler/Handoff/Order.antt =====
-- Who holds the lock of `coro_queue` (scheduler.cpp), and the order of the tasks.
use coroxx.Base.{
  ℕ, Bool, true, false, Option, none, some, List, [], ◌∷◌, ◌++◌, ◌==◌, ◌≡◌, ◌≢◌, refl, sym, ap, ◌∙◌,
  subst, arith, inl, inr, List-cases, eq-or-ne,
}
use mathlib.Core.List.{append_assoc}
use coroxx.Base.Store.{update, update_self, update_ne}
use coroxx.Scheduler.Handoff.{
  Reader, away, entered, asleep, woken, resumed, leaving, Writer, out, inside, stored, done, Thread,
  scheduler, other, Shared, announce, take_front, push_back, Step, reader_step, writer_step,
  reader_locks, reader_waits, reader_wakes, reader_relocks, reader_takes, reader_goes_on,
  reader_skips, reader_unlocks, writer_locks, writer_stores, writer_notifies, writer_unlocks, Reach,
  start, later,
}

-- The thread is between its `Lock` and its `Unlock`.
abbrev pub reads : Reader → Bool
reads away = false
reads entered = true
reads asleep = false
reads woken = false
reads resumed = true
reads (leaving task) = true

abbrev pub writes : Writer → Bool
writes out = false
writes (inside a) = true
writes stored = true
writes done = true

abbrev pub by_scheduler : Option Thread → Bool
by_scheduler none = false
by_scheduler (some scheduler) = true
by_scheduler (some (other i)) = false

abbrev pub by_other : ℕ → Option Thread → Bool
by_other i none = false
by_other i (some scheduler) = false
by_other i (some (other j)) = i == j

-- The lock is held by the thread that is between its calls, and the queue has what came and did not
-- leave.
pub record Held (s : Shared) : Type 0 where
  pub reader_holds : by_scheduler s.holder ≡ reads s.reader
  pub writer_holds : (i : ℕ) → by_other i s.holder ≡ writes (s.writers i)
  pub in_order : s.pushed ≡ s.taken ++ s.coro_queue

pub holder_scheduler : (o : Option Thread) → by_scheduler o ≡ true → o ≡ some scheduler
holder_scheduler none h = cc
holder_scheduler (some scheduler) h = refl
holder_scheduler (some (other i)) h = cc

pub holder_other : (i : ℕ) (o : Option Thread) → by_other i o ≡ true → o ≡ some (other i)
holder_other i none h = cc
holder_other i (some scheduler) h = cc
holder_other i (some (other j)) h = ap (λ n. some (other n)) (ground arith)

-- A writer that stays between its calls, or outside of them.
writer_moves :
    (h : Option Thread) (t : ℕ → Writer) (i : ℕ) (w : Writer)
    → ((j : ℕ) → by_other j h ≡ writes (t j))
    → writes w ≡ writes (t i)
    → (j : ℕ) → by_other j h ≡ writes (update t i w j)
writer_moves h t i w holds same j = elim (eq-or-ne j i) [
  | inl p ↦
      holds j
      ∙ ap (λ n. writes (t n)) p
      ∙ sym same
      ∙ ap writes (sym (ap (update t i w) p ∙ update_self t i w))
  | inr n ↦ holds j ∙ ap writes (sym (update_ne t i j w n))
]

-- The lock is free, so nobody writes.
pub free_writers :
    (h : Option Thread) (t : ℕ → Writer)
    → ((j : ℕ) → by_other j h ≡ writes (t j))
    → h ≡ none
    → (j : ℕ) → writes (t j) ≡ false
free_writers h t holds p j = sym (holds j) ∙ ap (by_other j) p

-- So is it when the scheduler's thread has it.
pub scheduler_writers :
    (s : Shared) → Held s → reads s.reader ≡ true → (j : ℕ) → writes (s.writers j) ≡ false
scheduler_writers s w r j =
    sym (w.writer_holds j) ∙ ap (by_other j) (holder_scheduler s.holder (w.reader_holds ∙ r))

take_front-Held : (s : Shared) → Held s → reads s.reader ≡ true → Held (take_front s)
unfolding take_front
take_front-Held s w r = elim (List-cases s.coro_queue) [
  | inl p ↦ subst Held (sym (empty p)) (record {
    reader_holds = w.reader_holds ∙ r;
    writer_holds = w.writer_holds;
    in_order = w.in_order;
  })
  | inr (a, rest, p) ↦ subst Held (sym (front a rest p)) (record {
    reader_holds = w.reader_holds ∙ r;
    writer_holds = w.writer_holds;
    in_order = w.in_order ∙ ap (λ q. s.taken ++ q) p ∙ sym (append_assoc s.taken (a ∷ []) rest);
  })
]
  where
    empty : s.coro_queue ≡ [] → take_front s ≡ record s { reader = leaving none }
    empty p = ground (arith, p)

    front :
        (a : ℕ) (rest : List ℕ)
        → s.coro_queue ≡ a ∷ rest
        → take_front s
          ≡ record s { coro_queue = rest; reader = leaving (some a); taken = s.taken ++ a ∷ [] }
    front a rest p = ground (arith, p)

reads-announce : (eventfd : Bool) (r : Reader) → reads (announce eventfd r) ≡ reads r
unfolding announce
reads-announce true r = refl
reads-announce false away = refl
reads-announce false entered = refl
reads-announce false asleep = refl
reads-announce false woken = refl
reads-announce false resumed = refl
reads-announce false (leaving task) = refl

not_writing : (i : ℕ) (h : Option Thread) → by_other i h ≡ true → by_scheduler h ≡ false
not_writing i h p = ap by_scheduler (holder_other i h p)

pub Step-Held : (eventfd wait : Bool) (s t : Shared) → Step eventfd wait s t → Held s → Held t
unfolding push_back
Step-Held e b s _ (reader_step (reader_locks p q)) w = record {
  reader_holds = refl;
  writer_holds = λ i. sym (free_writers s.holder s.writers w.writer_holds q i);
  in_order = w.in_order;
}
Step-Held e b s _ (reader_step (reader_waits p q h)) w = record {
  reader_holds = refl;
  writer_holds = λ i. sym (scheduler_writers s w (ap reads p) i);
  in_order = w.in_order;
}
Step-Held e b s _ (reader_step (reader_wakes p)) w = record {
  reader_holds = w.reader_holds ∙ ap reads p;
  writer_holds = w.writer_holds;
  in_order = w.in_order;
}
Step-Held e b s _ (reader_step (reader_relocks p q)) w = record {
  reader_holds = refl;
  writer_holds = λ i. sym (free_writers s.holder s.writers w.writer_holds q i);
  in_order = w.in_order;
}
Step-Held e b s _ (reader_step (reader_takes p)) w = take_front-Held s w (ap reads p)
Step-Held e b s _ (reader_step (reader_goes_on a rest p q)) w = take_front-Held s w (ap reads p)
Step-Held e b s _ (reader_step (reader_skips p q)) w = take_front-Held s w (ap reads p)
Step-Held e b s _ (reader_step (reader_unlocks task p)) w = record {
  reader_holds = refl;
  writer_holds = λ i. sym (scheduler_writers s w (ap reads p) i);
  in_order = w.in_order;
}
Step-Held e b s _ (writer_step (writer_locks i a p q)) w = record {
  reader_holds = sym (ap by_scheduler q) ∙ w.reader_holds;
  writer_holds = λ j. elim (eq-or-ne j i) [
    | inl n ↦ ground (arith, n)
    | inr n ↦ ground (arith, n, free_writers s.holder s.writers w.writer_holds q j)
  ];
  in_order = w.in_order;
}
Step-Held e b s _ (writer_step (writer_stores i a p)) w = record {
  reader_holds = w.reader_holds;
  writer_holds = writer_moves s.holder s.writers i stored w.writer_holds (sym (ap writes p));
  in_order = ap (λ q. q ++ a ∷ []) w.in_order ∙ append_assoc s.taken s.coro_queue (a ∷ []);
}
Step-Held e b s _ (writer_step (writer_notifies i p)) w = record {
  reader_holds = w.reader_holds ∙ sym (reads-announce e s.reader);
  writer_holds = writer_moves s.holder s.writers i done w.writer_holds (sym (ap writes p));
  in_order = w.in_order;
}
Step-Held e b s _ (writer_step (writer_unlocks i p)) w = record {
  reader_holds = sym (not_writing i s.holder (w.writer_holds i ∙ ap writes p)) ∙ w.reader_holds;
  writer_holds = λ j. elim (eq-or-ne j i) [
    | inl n ↦ ground (arith, n)
    | inr n ↦ ground (arith, n, others i j p n w)
  ];
  in_order = w.in_order;
}
  where
    others : (i j : ℕ) → s.writers i ≡ done → j ≢ i → Held s → writes (s.writers j) ≡ false
    others i j p n w =
        sym (w.writer_holds j)
        ∙ ap (by_other j) (holder_other i s.holder (w.writer_holds i ∙ ap writes p))
        ∙ ground (arith, n)

pub Reach-Held : (eventfd wait : Bool) (s : Shared) → Reach eventfd wait s → Held s
Reach-Held e b _ start = record { reader_holds = refl; writer_holds = λ i. refl; in_order = refl }
Reach-Held e b _ (later {s} {t} r step) = Step-Held e b s t step (Reach-Held e b s r)

-- In every state that the threads reach, no two of them are between their `Lock` and their `Unlock`,
-- and the queue has the tasks that were pushed and not taken, in the order in which they came.
pub Reach-Ordered :
    (eventfd wait : Bool) (s : Shared)
    → Reach eventfd wait s
    → (s.pushed ≡ s.taken ++ s.coro_queue)
      × (reads s.reader ≡ true → (i : ℕ) → writes (s.writers i) ≡ false)
      × ((i j : ℕ) → writes (s.writers i) ≡ true → writes (s.writers j) ≡ true → i ≡ j)
Reach-Ordered eventfd wait s r =
    let held = Reach-Held eventfd wait s r in
    (
      held.in_order,
      scheduler_writers s held,
      λ i j p q. same_other i j (
          sym (holder_other i s.holder (held.writer_holds i ∙ p))
          ∙ holder_other j s.holder (held.writer_holds j ∙ q)),
    )
  where
    same_other : (i j : ℕ) → some (other i) ≡ some (other j) → i ≡ j
    same_other i j h = cc
