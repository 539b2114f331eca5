-- ===== src/Scheduler/Routine/Sweep.antt =====
-- The inner loop of `CheckTimeQueue` (scheduler.cpp), over the queue of one deadline. An invoked task
-- may add tasks, to this queue too.
use coroxx.Base.{
  ℕ, zero, suc, ◌+◌, ◌≤◌, ◌<◌, ◌≡◌, refl, Option, none, some, List, [], ◌∷◌, ◌++◌, arith, sym, ◌∙◌,
  ap, subst, ◌>>=◌, length, get_elem?, length-append, Ensures, Ensures_bind, Ensures_mono, result,
}
use mathlib.Core.List.{append-nil, append_assoc}
use coroxx.Base.Int.{ℤ}
use coroxx.Scheduler.State.{World}
use coroxx.Scheduler.TimeQueue.{TimeTable, bucket}
use coroxx.Scheduler.TimeQueue.Order.{Sorted}
use coroxx.Scheduler.TimeQueue.Load.{weights, load, weights-append, load-erase_at}
use coroxx.Scheduler.Routine.{run_bucket, dispatch}
use coroxx.Scheduler.Routine.Census.{
  one, one_self, occurs, live, Lives, Accounted, live-Lives, Rearranged, tally-erase_at,
}

-- The queues of `m` are in `m'`, perhaps with further tasks behind.
abbrev pub Extends : TimeTable → TimeTable → Type 0
Extends m m' =
    (ts : ℤ) (q : List ℕ)
    → bucket ts m ≡ some q
    → (more : List ℕ) × (bucket ts m' ≡ some (q ++ more))

-- `m` is a part of `log` from its start on.
abbrev pub Grows : List ℕ → List ℕ → Type 0
Grows l l' = (more : List ℕ) × (l' ≡ l ++ more)

pub Grows-trans : (k l m : List ℕ) → Grows k l → Grows l m → Grows k m
Grows-trans k l m (x, p) (y, q) = (x ++ y, q ∙ ap (◌++ y) p ∙ append_assoc k x y)

pub Extends-trans : (k l m : TimeTable) → Extends k l → Extends l m → Extends k m
Extends-trans k l m h h' ts q p =
    let (x, e) = h ts q p in
    let (y, f) = h' ts (q ++ x) e in (x ++ y, f ∙ ap some (append_assoc q x y))

pub Extends-refl : (m : TimeTable) → Extends m m
Extends-refl m ts q p = ([], p ∙ ap some (sym (append-nil q)))

pub Grows-refl : (l : List ℕ) → Grows l l
Grows-refl l = ([], sym (append-nil l))

-- All tasks that wait.
abbrev pub total : (ℕ → ℕ) → World → ℕ
total weight w = load weight w.scheduler.coro_time_queue + weights weight w.scheduler.coro_queue

-- What the call of the task `a` does to the queues: it adds tasks at their ends, of less weight than
-- `a` has. Tasks that are added exist, and none that waits is deleted, but `a` may be.
pub record Invoked (weight : ℕ → ℕ) (a : ℕ) (w w' : World) : Type 0 where
  pub sorted : Sorted w'.scheduler.coro_time_queue
  pub later : Extends w.scheduler.coro_time_queue w'.scheduler.coro_time_queue
  pub tasks : Grows w.scheduler.coro_queue w'.scheduler.coro_queue
  pub lighter : total weight w' < total weight w + weight a
  pub same_log : w'.dispatched ≡ w.dispatched
  pub accounted : (b : ℕ) → occurs b w' + live b w.tasks ≤ occurs b w + live b w'.tasks + one b a

get_elem?-middle : (xs ys : List ℕ) (a : ℕ) → get_elem? (xs ++ a ∷ ys) (length xs) ≡ some a
get_elem?-middle [] ys a = refl
get_elem?-middle (x ∷ xs) ys a = get_elem?-middle xs ys a

get_elem?-length : (xs : List ℕ) → get_elem? xs (length xs) ≡ none
get_elem?-length [] = refl
get_elem?-length (x ∷ xs) = get_elem?-length xs

-- What a call of a task takes and leaves: it ends if the deadlines are sorted, the task exists, and
-- the world is ready.
abbrev pub Call : (World → Type 0) → (ℕ → ℕ) → (ℕ → World → Option World) → ℕ → World → Type 0
Call Ready weight invoke a w =
    Sorted w.scheduler.coro_time_queue
    → Ready w
    → Lives a w
    → Ensures (λ w'. Invoked weight a w w' × Ready w') (invoke a w)

-- The rest `todo` of the queue of the deadline `ts` was invoked in its order, and the tasks that were
-- added to it meanwhile.
pub record Swept (Ready : World → Type 0) (weight : ℕ → ℕ) (ts : ℤ) (done todo : List ℕ)
    (w w' : World) : Type 0 where
  pub ran : List ℕ
  pub extra : List ℕ
  pub all : ran ≡ todo ++ extra
  pub there : bucket ts w'.scheduler.coro_time_queue ≡ some (done ++ ran)
  pub log : w'.dispatched ≡ w.dispatched ++ ran
  pub sorted : Sorted w'.scheduler.coro_time_queue
  pub later : Extends w.scheduler.coro_time_queue w'.scheduler.coro_time_queue
  pub tasks : Grows w.scheduler.coro_queue w'.scheduler.coro_queue
  pub lighter : total weight w' ≤ total weight w + weights weight ran
  pub ready : Ready w'
  pub accounted : Accounted (done ++ ran) w'

module _ (Ready : World → Type 0) (stable : (w w' : World) → Rearranged w w' → Ready w → Ready w')
    (weight : ℕ → ℕ) (invoke : ℕ → World → Option World)
    (calls : (a : ℕ) (w : World) → Call Ready weight invoke a w) where
  -- The call of one task, with the note of it.
  pub dispatch-Invoked :
      (a : ℕ) (w : World)
      → Sorted w.scheduler.coro_time_queue
      → Ready w
      → Lives a w
      → Ensures
          (λ w'.
            Sorted w'.scheduler.coro_time_queue
            × Extends w.scheduler.coro_time_queue w'.scheduler.coro_time_queue
            × Grows w.scheduler.coro_queue w'.scheduler.coro_queue
            × (total weight w' < total weight w + weight a)
            × (w'.dispatched ≡ w.dispatched ++ a ∷ [])
            × Ready w'
            × ((b : ℕ) → occurs b w' + live b w.tasks ≤ occurs b w + live b w'.tasks + one b a))
          (dispatch invoke a w)
  unfolding dispatch
  dispatch-Invoked a w s ready lives =
      let noted = record w { dispatched = w.dispatched ++ a ∷ [] } in
      Ensures_mono (calls a noted s (stable w noted refl ready) lives)
        λ w' (h, ready'). (h.sorted, h.later, h.tasks, h.lighter, h.same_log, ready', h.accounted)

  module _ (ts : ℤ) where
    bucket_ends :
        (fuel : ℕ) (done : List ℕ) (w : World)
        → bucket ts w.scheduler.coro_time_queue ≡ some done
        → run_bucket invoke (suc fuel) ts (length done) w ≡ some w
    unfolding run_bucket
    bucket_ends fuel done w p = ground (arith, p, get_elem?-length done)

    bucket_goes_on :
        (fuel a : ℕ) (done todo : List ℕ) (w : World)
        → bucket ts w.scheduler.coro_time_queue ≡ some (done ++ a ∷ todo)
        → run_bucket invoke (suc fuel) ts (length done) w
          ≡ (dispatch invoke a w >>= λ w'. run_bucket invoke fuel ts (length done + 1) w')
    unfolding run_bucket
    bucket_goes_on fuel a done todo w p = ground (arith, p, get_elem?-middle done todo a)

    bounded :
        (done todo : List ℕ) (w : World)
        → bucket ts w.scheduler.coro_time_queue ≡ some (done ++ todo)
        → weights weight done < total weight w
    bounded done todo w p = omega (
      arith,
      load-erase_at weight ts (done ++ todo) w.scheduler.coro_time_queue p,
      weights-append weight done todo,
    )

    -- The next task of the queue exists.
    next-Lives :
        (a : ℕ) (done todo : List ℕ) (w : World)
        → bucket ts w.scheduler.coro_time_queue ≡ some (done ++ a ∷ todo)
        → Accounted done w
        → Lives a w
    next-Lives a done todo w p accounted = live-Lives a w (
        omega (
          arith,
          accounted a,
          tally-erase_at a ts (done ++ a ∷ todo) w.scheduler.coro_time_queue p,
          weights-append (one a) done (a ∷ todo),
          one_self a,
        ))

    pub run_bucket-Swept :
        (fuel : ℕ) (done todo : List ℕ) (w : World)
        → Sorted w.scheduler.coro_time_queue
        → Ready w
        → Accounted done w
        → bucket ts w.scheduler.coro_time_queue ≡ some (done ++ todo)
        → total weight w < fuel + weights weight done
        → Ensures (Swept Ready weight ts done todo w) (run_bucket invoke fuel ts (length done) w)
    run_bucket-Swept zero done todo w s ready accounted p h =
        absurd (omega (arith, bounded done todo w p, h))
    run_bucket-Swept (suc fuel) done [] w s ready accounted p h =
        subst (Ensures (Swept Ready weight ts done [] w))
          (sym (bucket_ends fuel done w (p ∙ ap some (append-nil done))))
          (result w (record {
            ran = [];
            extra = [];
            all = refl;
            there = p;
            log = sym (append-nil w.dispatched);
            sorted = s;
            later = Extends-refl w.scheduler.coro_time_queue;
            tasks = Grows-refl w.scheduler.coro_queue;
            lighter = omega arith;
            ready = ready;
            accounted = λ b. omega (arith, accounted b, weights-append (one b) done []);
          }))
    run_bucket-Swept (suc fuel) done (a ∷ todo) w s ready accounted p h =
        subst (Ensures (Swept Ready weight ts done (a ∷ todo) w))
          (sym (bucket_goes_on fuel a done todo w p))
          (Ensures_bind (dispatch-Invoked a w s ready (next-Lives a done todo w p accounted))
            λ w₁ (s₁, later, tasks, lighter, log, ready₁, account).
              let (more, p₁) = later ts (done ++ a ∷ todo) p in
              subst
                (λ n.
                  Ensures (Swept Ready weight ts done (a ∷ todo) w)
                    (run_bucket invoke fuel ts n w₁))
                (length-append done (a ∷ []))
                (Ensures_mono
                  (run_bucket-Swept fuel (done ++ a ∷ []) (todo ++ more) w₁ s₁ ready₁
                    (λ b.
                      omega (arith, account b, accounted b, weights-append (one b) done (a ∷ [])))
                    (p₁ ∙ ap some (regroup more))
                    (omega (arith, lighter, h, weights-append weight done (a ∷ []))))
                  λ w₂ r. record {
                    ran = a ∷ r.ran;
                    extra = more ++ r.extra;
                    all = ap (λ l. a ∷ l) (r.all ∙ append_assoc todo more r.extra);
                    there = r.there ∙ ap some (append_assoc done (a ∷ []) r.ran);
                    log =
                        r.log ∙ ap (λ l. l ++ r.ran) log ∙ append_assoc w.dispatched (a ∷ []) r.ran;
                    sorted = r.sorted;
                    later = Extends-trans _ _ _ later r.later;
                    tasks = Grows-trans _ _ _ tasks r.tasks;
                    lighter = omega (arith, r.lighter, lighter);
                    ready = r.ready;
                    accounted =
                        subst (λ l. Accounted l w₂) (append_assoc done (a ∷ []) r.ran) r.accounted;
                  }))
      where
        regroup : (more : List ℕ) → done ++ (a ∷ todo) ++ more ≡ done ++ a ∷ [] ++ (todo ++ more)
        regroup more =
            append_assoc done (a ∷ todo) more ∙ sym (append_assoc done (a ∷ []) (todo ++ more))
