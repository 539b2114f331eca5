-- ===== src/Scheduler/Handoff/Progress.antt =====
-- A task in `coro_queue` (scheduler.cpp) can be taken, whatever the threads have done.
use coroxx.Base.{
  ℕ, Bool, true, false, Option, none, some, List, [], ◌∷◌, ◌++◌, ◌≡◌, refl, sym, ap, ◌∙◌, arith,
}
use coroxx.Base.Store.{update, update_self}
use coroxx.Scheduler.Handoff.{
  Reader, away, entered, asleep, woken, resumed, leaving, Writer, out, inside, stored, done, Thread,
  scheduler, other, Shared, announce, take_front, push_back, Step, reader_step, writer_step,
  reader_locks, reader_relocks, reader_takes, reader_goes_on, reader_unlocks, writer_stores,
  writer_notifies, writer_unlocks, Reach, later,
}
use coroxx.Scheduler.Handoff.Order.{reads, writes, Held, Reach-Held, by_other, by_scheduler}
use coroxx.Scheduler.Handoff.Wakes.{Reach-empty}

-- A sequence of steps from one state to another.
pub data Leads (wait : Bool) : Shared → Shared → Type 0 where
  here : (s : Shared) → Leads wait s s
  next : (s t u : Shared) → Step false wait s t → Leads wait t u → Leads wait s u

-- The threads can go on from `s` to a state in which `task` was taken next.
abbrev pub Takes : Bool → Shared → ℕ → Type 0
Takes wait s task = (t : Shared) × Leads wait s t × (t.taken ≡ s.taken ++ task ∷ [])

module _ (wait : Bool) where
  -- The front of the queue, and what is behind it.
  abbrev Front : Shared → ℕ → Type 0
  Front s a = (rest : List ℕ) × (s.coro_queue ≡ a ∷ rest)

  -- A step that takes nothing, and the rest of the way.
  first-Step :
      (s u : Shared) (a : ℕ)
      → Step false wait s u
      → u.taken ≡ s.taken
      → Takes wait u a
      → Takes wait s a
  first-Step s u a step same (t, way, taken) =
      (t, next s u t step way, taken ∙ ap (λ l. l ++ a ∷ []) same)

  at-Front : (s : Shared) (a : ℕ) → Front s a → Step false wait s (take_front s) → Takes wait s a
  unfolding take_front
  at-Front s a (rest, p) step = (
    take_front s,
    next s (take_front s) (take_front s) step (here (take_front s)),
    ground (arith, p),
  )

  from_away : (s : Shared) (a : ℕ) → Front s a → s.reader ≡ away → s.holder ≡ none → Takes wait s a
  from_away s a front p q =
      let u = record s { reader = entered; holder = some scheduler } in
      first-Step s u a (reader_step (reader_locks p q)) refl
        (at-Front u a front (reader_step (reader_goes_on a front.0 refl front.1)))

  from_woken :
      (s : Shared) (a : ℕ) → Front s a → s.reader ≡ woken → s.holder ≡ none → Takes wait s a
  from_woken s a front p q =
      let u = record s { reader = resumed; holder = some scheduler } in
      first-Step s u a (reader_step (reader_relocks p q)) refl
        (at-Front u a front (reader_step (reader_takes refl)))

  from_leaving :
      (s : Shared) (a : ℕ)
      → Front s a
      → (task : Option ℕ) → s.reader ≡ leaving task
      → Takes wait s a
  from_leaving s a front task p =
      let u = record s { reader = away; holder = none } in
      first-Step s u a (reader_step (reader_unlocks task p)) refl (from_away u a front refl refl)

  -- Nobody holds the lock.
  from_free :
      (s : Shared) (a : ℕ) → Front s a → Reach false wait s → s.holder ≡ none → Takes wait s a
  from_free s a front r q = go s.reader refl
    where
      idle : reads s.reader ≡ false
      idle = sym (Reach-Held false wait s r).reader_holds ∙ ap by_scheduler q

      go : (x : Reader) → s.reader ≡ x → Takes wait s a
      go away p = from_away s a front p q
      go entered p = cc (ap reads p, idle)
      go asleep p = cc (Reach-empty wait s r p q, front.1)
      go woken p = from_woken s a front p q
      go resumed p = cc (ap reads p, idle)
      go (leaving task) p = from_leaving s a front task p

  -- The scheduler holds it.
  from_reader : (s : Shared) (a : ℕ) → Front s a → reads s.reader ≡ true → Takes wait s a
  from_reader s a front h = go s.reader refl
    where
      go : (x : Reader) → s.reader ≡ x → Takes wait s a
      go away p = cc (ap reads p, h)
      go entered p = at-Front s a front (reader_step (reader_goes_on a front.0 p front.1))
      go asleep p = cc (ap reads p, h)
      go woken p = cc (ap reads p, h)
      go resumed p = at-Front s a front (reader_step (reader_takes p))
      go (leaving task) p = from_leaving s a front task p

  -- Another thread holds it.
  module _ (i : ℕ) where
    from_done :
        (s : Shared) (a : ℕ) → Front s a → Reach false wait s → s.writers i ≡ done → Takes wait s a
    from_done s a front r p =
        let u = record s { writers = update s.writers i out; holder = none } in
        first-Step s u a (writer_step (writer_unlocks i p)) refl
          (from_free u a front (later r (writer_step (writer_unlocks i p))) refl)

    from_stored :
        (s : Shared) (a : ℕ)
        → Front s a
        → Reach false wait s
        → s.writers i ≡ stored
        → Takes wait s a
    from_stored s a front r p =
        let u = record s { writers = update s.writers i done; reader = announce false s.reader } in
        first-Step s u a (writer_step (writer_notifies i p)) refl (
          from_done u a front (later r (writer_step (writer_notifies i p)))
            (update_self s.writers i done))

    from_inside :
        (s : Shared) (a b : ℕ)
        → Front s a
        → Reach false wait s
        → s.writers i ≡ inside b
        → Takes wait s a
    unfolding push_back
    from_inside s a b (rest, f) r p =
        first-Step s (push_back i b s) a (writer_step (writer_stores i b p)) refl (
          from_stored (push_back i b s) a (rest ++ b ∷ [], ap (λ q. q ++ b ∷ []) f)
            (later r (writer_step (writer_stores i b p))) (update_self s.writers i stored))

    from_writer :
        (s : Shared) (a : ℕ)
        → Front s a
        → Reach false wait s
        → writes (s.writers i) ≡ true
        → Takes wait s a
    from_writer s a front r h = go (s.writers i) refl
      where
        go : (x : Writer) → s.writers i ≡ x → Takes wait s a
        go out p = cc (ap writes p, h)
        go (inside b) p = from_inside s a b front r p
        go stored p = from_stored s a front r p
        go done p = from_done s a front r p

  -- Without an event file, from every state that the threads reach with a task at the front of the
  -- queue they can go on to one in which that task was taken next: no order of the steps leads to a
  -- deadlock or to a task that stays behind.
  pub Reach-Takes :
      (s : Shared) (a : ℕ) (rest : List ℕ)
      → Reach false wait s
      → s.coro_queue ≡ a ∷ rest
      → Takes wait s a
  Reach-Takes s a rest r f = go s.holder refl
    where
      held : Held s
      held = Reach-Held false wait s r

      go : (x : Option Thread) → s.holder ≡ x → Takes wait s a
      go none p = from_free s a (rest, f) r p
      go (some scheduler) p = from_reader s a (rest, f) (sym held.reader_holds ∙ ap by_scheduler p)
      go (some (other i)) p =
          from_writer i s a (rest, f) r
            (sym (held.writer_holds i) ∙ ap (by_other i) p ∙ ground arith)
