-- ===== src/Scheduler/Handoff/Wakes.antt =====
-- No task waits in `coro_queue` (scheduler.cpp) while the scheduler sleeps.
use coroxx.Base.{
  ℕ, Bool, true, false, Option, none, some, List, [], ◌∷◌, ◌++◌, ◌≡◌, refl, sym, ap, ◌∙◌, arith,
  ◌⊎◌, inl, inr, List-cases, eq-or-ne,
}
use mathlib.Core.List.{append-nil}
use coroxx.Base.Store.{update, update_self, update_ne}
use coroxx.Scheduler.Handoff.{
  Reader, away, entered, asleep, woken, resumed, leaving, Writer, out, inside, stored, done, Shared,
  announce, take_front, push_back, Step, reader_step, writer_step, reader_locks, reader_waits,
  reader_wakes, reader_relocks, reader_takes, reader_goes_on, reader_skips, reader_unlocks,
  writer_locks, writer_stores, writer_notifies, writer_unlocks, Reach, start, later,
}
use coroxx.Scheduler.Handoff.Order.{writes, Reach-Held, free_writers}

-- The scheduler sleeps only while there is no task, or one whose signal is still to come.
abbrev Awake : Shared → Type 0
Awake s = s.reader ≡ asleep → (s.coro_queue ≡ []) ⊎ ((i : ℕ) × (s.writers i ≡ stored))

left : (task : Option ℕ) → leaving task ≡ asleep → ⊥
left task h = cc

take_front-Awake : (s : Shared) → Awake (take_front s)
unfolding take_front
take_front-Awake s h = elim (List-cases s.coro_queue) [
  | inl p ↦ inl (ground (arith, p))
  | inr (a, rest, p) ↦ absurd (left (some a) (sym (front a rest p) ∙ h))
]
  where
    front :
        (a : ℕ) (rest : List ℕ) → s.coro_queue ≡ a ∷ rest → (take_front s).reader ≡ leaving (some a)
    front a rest p = ground (arith, p)

signalled : (r : Reader) → announce false r ≡ asleep → ⊥
unfolding announce
signalled away h = cc
signalled entered h = cc
signalled asleep h = cc
signalled woken h = cc
signalled resumed h = cc
signalled (leaving task) h = cc

-- A writer that is not about to signal does not stand in the way.
elsewhere :
    (t : ℕ → Writer) (i : ℕ) (v w : Writer)
    → t i ≡ v
    → (v ≡ stored → ⊥)
    → (j : ℕ) × (t j ≡ stored)
    → (j : ℕ) × (update t i w j ≡ stored)
elsewhere t i v w p n (j, q) = elim (eq-or-ne j i) [
  | inl e ↦ absurd (n (sym p ∙ ap t (sym e) ∙ q))
  | inr m ↦ (j, update_ne t i j w m ∙ q)
]

Step-Awake : (wait : Bool) (s t : Shared) → Step false wait s t → Awake s → Awake t
unfolding push_back
Step-Awake b s _ (reader_step (reader_locks p q)) w h = cc
Step-Awake b s _ (reader_step (reader_waits p q x)) w h = inl q
Step-Awake b s _ (reader_step (reader_wakes p)) w h = cc
Step-Awake b s _ (reader_step (reader_relocks p q)) w h = cc
Step-Awake b s _ (reader_step (reader_takes p)) w h = take_front-Awake s h
Step-Awake b s _ (reader_step (reader_goes_on a rest p q)) w h = take_front-Awake s h
Step-Awake b s _ (reader_step (reader_skips p q)) w h = take_front-Awake s h
Step-Awake b s _ (reader_step (reader_unlocks task p)) w h = cc
Step-Awake b s _ (writer_step (writer_locks i a p q)) w h = elim (w h) [
  | inl e ↦ inl e
  | inr x ↦ inr (elsewhere s.writers i out (inside a) p (λ z. cc) x)
]
Step-Awake b s _ (writer_step (writer_stores i a p)) w h = inr (i, update_self s.writers i stored)
Step-Awake b s _ (writer_step (writer_notifies i p)) w h = absurd (signalled s.reader h)
Step-Awake b s _ (writer_step (writer_unlocks i p)) w h = elim (w h) [
  | inl e ↦ inl e
  | inr x ↦ inr (elsewhere s.writers i done out p (λ z. cc) x)
]

Reach-Awake : (wait : Bool) (s : Shared) → Reach false wait s → Awake s
Reach-Awake b _ start h = inl refl
Reach-Awake b _ (later {s} {t} r step) h = Step-Awake b s t step (Reach-Awake b s r) h

-- The queue is empty when the scheduler sleeps and the lock is free.
pub Reach-empty :
    (wait : Bool) (s : Shared)
    → Reach false wait s
    → s.reader ≡ asleep
    → s.holder ≡ none
    → s.coro_queue ≡ []
Reach-empty wait s r sleeps free = elim (Reach-Awake wait s r sleeps) [
  | inl e ↦ e
  | inr (i, q) ↦ absurd (
      busy (
        sym (free_writers s.holder s.writers (Reach-Held false wait s r).writer_holds free i)
        ∙ ap writes q))
]
  where
    busy : false ≡ true → ⊥
    busy h = cc

-- Without an event file, in every state that the threads reach: while the scheduler sleeps in its wait
-- and nobody holds the lock, all tasks that other threads pushed were taken, in the order in which they
-- came. So no wake-up is lost, whatever the order of the steps.
pub Reach-taken :
    (wait : Bool) (s : Shared)
    → Reach false wait s
    → s.reader ≡ asleep
    → s.holder ≡ none
    → s.taken ≡ s.pushed
Reach-taken wait s r sleeps free = sym (
    (Reach-Held false wait s r).in_order
    ∙ ap (λ q. s.taken ++ q) (Reach-empty wait s r sleeps free)
    ∙ append-nil s.taken)
