-- ===== src/Scheduler/Tasks/Starts.antt =====
-- `StartCoro` of scheduler.cpp on the scheduler's own thread.
use coroxx.Base.{
  ℕ, Bool, ◌≡◌, false, Option, some, List, [], ◌∷◌, arith, sym, ap, ◌∙◌, subst, length, ◌≤◌, inr,
  ==-refl, Ensures, Ensures_bind, result, All,
}
use coroxx.Base.Assoc.{find, find-put}
use coroxx.CoroBase.{CoroutineFunction, coroutine_pool_func, coroutine_non_pool_func}
use coroxx.LibCoro.Switch.{switch_to}
use coroxx.Base.{◌≢◌, refl, ◌⊎◌, none, inl, Ensures_value, All-mono}
use coroxx.LibCoro.Objects.{CallSite}
use coroxx.LibCoro.Layout.{Kept}
use coroxx.LibCoro.Safety.{Settled, SiteFits, Has}
use coroxx.LibCoro.Safety.Leave.{Switched}
use coroxx.LibCoro.Safety.Switching.{switch_to-Switched}
use coroxx.Scheduler.State.{Scheduler, World, with_env}
use coroxx.Scheduler.Coroutines.{is_overload, wakeup}
use coroxx.Scheduler.Coroutines.Pool.{Calls, Pooled, Addressed, Obtained}
use coroxx.Scheduler.Coroutines.Given.{
  rescheduled_Calls, Origin, from_pool, created, get_coroutine-Obtained,
}
use coroxx.Scheduler.Coroutines.Collect.{IsApart, AllSpent, Collected, coro_gc-Collected}
use coroxx.Scheduler.Tasks.{start_coro, start_here, enter_exec}

-- The scheduler of a thread between two switches.
pub record Sound (w : World) : Type 0 where
  pub settled : Settled w.env
  pub addressed : Addressed w
  pub spent : AllSpent w.scheduler.deleting_coros w.env
  pub pooled : All (Pooled w) w.scheduler.coro_pool
  pub apart : All (IsApart w.scheduler.deleting_coros) w.scheduler.coro_pool

-- The coroutine `task` is the first of the pool, which it leaves, or a new one if the pool is empty.
-- Each starts in its own function.
abbrev pub Chosen : World → ℕ → CoroutineFunction → World → Type 0
Chosen w task entry w' =
    ((entry ≡ coroutine_pool_func) × (w.scheduler.coro_pool ≡ task ∷ w'.scheduler.coro_pool))
    ⊎ ((entry ≡ coroutine_non_pool_func)
        × (w.scheduler.coro_pool ≡ [])
        × ((c : ℕ) → Has w.env.coros c → c ≢ task)
        × (w'.scheduler.coro_pool ≡ []))

-- The coroutine `task` was started in `w`, with the state `before` at the switch to it, after which
-- only the thread is another. At the switch its context leads to the function and its argument, those
-- that were done are deleted, and suspended coroutines have their bytes. It is among the running
-- ones, and runs.
pub record Launched (r : ℕ) (site : CallSite) (func : CoroutineFunction) (arg : Option ℕ)
    (w : World) (task : ℕ) (w' : World) : Type 0 where
  pub before : World
  pub entry : CoroutineFunction
  pub calls : Calls before task entry func arg
  pub chosen : Chosen w task entry before
  pub gone : All (λ c. before.env.coros c ≡ none) w.scheduler.deleting_coros
  pub same_current : before.env.current ≡ w.env.current
  pub kept :
      (x at size : ℕ) (img : List ℕ)
      → IsApart w.scheduler.deleting_coros x
      → Kept r w.env.coros w.env.stacks w.env.mem x at size img
      → Kept r before.env.coros before.env.stacks before.env.mem x at size img
  pub switch : switch_to task false site before.env ≡ some w'.env
  pub after : w' ≡ record before { env = w'.env }
  pub switched : Switched r site.frame task before.env w'.env
  pub running : find task before.scheduler.exec_table ≡ some task
  pub collected : before.scheduler.deleting_coros ≡ []

-- What the coroutines that were not deleted call.
unmoved :
    (w w₁ : World) (cs : List ℕ)
    → Collected cs w.env w₁.env
    → w₁.call_data ≡ w.call_data
    → (c : ℕ) → IsApart cs c
    → Pooled w c
    → Pooled w₁ c
unmoved w w₁ cs done same c apart (func, arg, calls) = (
  func,
  arg,
  record {
    coroutine = calls.coroutine;
    cdata = calls.cdata;
    call = calls.call;
    there = done.same c apart ∙ calls.there;
    has_entry = calls.has_entry;
    context = calls.context;
    found = ap (λ (t : ℕ → _). t calls.cdata) same ∙ calls.found;
    mine = calls.mine;
    has_func = calls.has_func;
    has_arg = calls.has_arg;
  },
)

All-both :
    {P Q R : ℕ → Type 0} (xs : List ℕ)
    → ((x : ℕ) → P x → Q x → R x)
    → All P xs
    → All Q xs
    → All R xs
All-both [] f h k = tt
All-both (x ∷ xs) f h k = (f x h.0 k.0, All-both xs f h.1 k.1)

-- `GetCoroutine` leaves the list of the coroutines to delete.
Origin-same :
    (w w' : World) (coro : ℕ) (entry : CoroutineFunction)
    → Origin w coro entry w'
    → w'.scheduler.deleting_coros ≡ w.scheduler.deleting_coros
Origin-same w w' coro entry (from_pool rest p f q) = ap (λ (s : Scheduler). s.deleting_coros) q
Origin-same w w' coro entry (created p f i n q) = ap (λ (s : Scheduler). s.deleting_coros) q

entered : (task : ℕ) (w : World) → find task (enter_exec task w).scheduler.exec_table ≡ some task
unfolding enter_exec
entered task w = ground (arith, find-put task task task w.scheduler.exec_table, ==-refl task)

module _ (r : ℕ) (func : CoroutineFunction) (arg : Option ℕ) (site : CallSite) (w : World)
    (sound : Sound w) (fit : SiteFits site w.env) (spare : length site.coro_create ≤ r) where
  -- The thread that `CoroGC` leaves, with the pool as it was.
  module _ (w₁ w₂ : World) (task : ℕ) (entry : CoroutineFunction)
      (done : Collected w.scheduler.deleting_coros w.env w₁.env)
      (same_pool : w₁.scheduler.coro_pool ≡ w.scheduler.coro_pool)
      (origin : Origin w₁ task entry w₂) where
    -- The coroutine that runs is not one of those that were deleted.
    task-IsApart : IsApart w.scheduler.deleting_coros task
    task-IsApart = apart origin
      where
        apart : Origin w₁ task entry w₂ → IsApart w.scheduler.deleting_coros task
        apart (from_pool rest p f q) =
            (subst (All (IsApart w.scheduler.deleting_coros)) (sym same_pool ∙ p) sound.apart).0
        apart (created p f i n q) =
            All-mono w.scheduler.deleting_coros
              (λ c spent.
                let (k, there) = spent.exists in
                λ h.
                  absurd (
                    omega (arith, sound.settled.laws.coro_numbers c k there, h, i, done.same_seed)))
              sound.spent.0

    task-Chosen : Chosen w task entry w₂
    task-Chosen = choice origin
      where
        choice : Origin w₁ task entry w₂ → Chosen w task entry w₂
        choice (from_pool rest p f q) = inl (
          f,
          sym same_pool
              ∙ p
              ∙ ap (λ (cs : List ℕ). task ∷ cs) (ap (λ (s : Scheduler). s.coro_pool) (sym q)),
        )
        choice (created p f i n q) = inr (
          f,
          sym same_pool ∙ p,
          λ c (k, there) h.
              absurd
                (omega (arith, sound.settled.laws.coro_numbers c k there, h, i, done.same_seed)),
          ap (λ (s : Scheduler). s.coro_pool) q ∙ p,
        )

    -- The switch to a coroutine that `GetCoroutine` gave after `CoroGC`.
    start_from :
        w₂.scheduler.deleting_coros ≡ []
        → Obtained task entry func arg w₁ w₂
        → Ensures (Launched r site func arg w task) (wakeup task site (enter_exec task w₂))
    unfolding wakeup enter_exec
    start_from empty o =
        let (e, q, switched) = Ensures_value (
          switch_to-Switched r site task w₂.env o.settled (o.fits site (done.fits site fit))
            (o.calls.coroutine, o.calls.there) (λ k q. inr spare) false) in
        subst (Ensures (Launched r site func arg w task))
          (sym (ap (with_env (enter_exec task w₂)) q))
          (result (record (enter_exec task w₂) { env = e })
            (record {
              before = enter_exec task w₂;
              entry = entry;
              calls =
                  rescheduled_Calls (enter_exec task w₂).scheduler w₂ task entry func arg o.calls;
              chosen = task-Chosen;
              gone =
                  All-both w.scheduler.deleting_coros (λ c n g. o.same c (λ h. n (sym h)) ∙ g)
                    task-IsApart done.gone;
              same_current = o.same_current ∙ done.same_current;
              kept = λ x at size img apart h.
                  o.kept r x at size img (done.kept r x at size img apart h);
              switch = q;
              after = refl;
              switched = switched;
              running = entered task w₂;
              collected = empty;
            }))

  start_here-Launched :
      Ensures
        (λ ((task, w') : ℕ × World). Launched r site func arg w task w')
        (start_here func arg site w)
  unfolding start_here
  start_here-Launched =
      Ensures_bind (coro_gc-Collected w sound.settled sound.spent) λ w₁ (done, same).
        let pool : All (Pooled w₁) w.scheduler.coro_pool =
          All-both w.scheduler.coro_pool
            (unmoved w w₁ w.scheduler.deleting_coros done (ap (λ (x : World). x.call_data) same))
            sound.apart sound.pooled in
        let addressed : Addressed w₁ =
          subst (λ (x : World). Addressed x) (sym same) (λ a d q. sound.addressed a d q) in
        let same_pool : w₁.scheduler.coro_pool ≡ w.scheduler.coro_pool =
          ap (λ (x : World). x.scheduler.coro_pool) same in
        Ensures_bind
          (get_coroutine-Obtained func arg w₁ done.settled addressed
            (subst (All (Pooled w₁)) (sym same_pool) pool))
          λ (task, w₂) (entry, o, origin).
            Ensures_bind
              (start_from w₁ w₂ task entry done same_pool origin
                (Origin-same w₁ w₂ task entry origin
                  ∙ ap (λ (x : World). x.scheduler.deleting_coros) same)
                o)
              λ w₃ launched. result (task, w₃) launched

  -- `StartCoro` on a scheduler's own thread comes to an end at its switch. The coroutines that were
  -- done are deleted, and the first coroutine of the pool, which leaves it, or a new one if the pool is
  -- empty, runs, found in the table of running ones by the id that is returned. At the switch its
  -- context has the function of its kind, and leads to call data with the function and the argument
  -- that were given. All other suspended coroutines keep their bytes, all but the `r` uppermost. The
  -- thread is settled, the call site fits it, a context that `coro_create` makes takes at most `r`
  -- bytes, call data stands below the next address, the coroutines that were done can be deleted, and
  -- those of the pool have call data and are not among them.
  pub start_coro-Launched :
      (caller : ℕ) (create_coro : Bool)
      → Ensures
          (λ ((task, w') : ℕ × World). Launched r site func arg w task w')
          (start_coro (some caller) func arg create_coro site w)
  unfolding start_coro is_overload
  start_coro-Launched caller create_coro = start_here-Launched
