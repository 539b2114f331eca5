-- ===== src/Scheduler/Coroutines/Pool.antt =====
-- The coroutines that a scheduler makes (scheduler.cpp): `CreateCoroutine`, `InitCoroPool` and
-- `GetCoroutine`, and the call data that their functions read.
use coroxx.Base.{
  ℕ, zero, suc, ◌+◌, ◌<◌, ◌≡◌, ◌≢◌, refl, inl, inr, Bool, true, false, Option, none, some, List, [],
  ◌∷◌, ◌++◌, if◌then◌else◌, length, length-append, arith, sym, ap, ◌∙◌, subst, Ensures,
  Ensures_bind, Ensures_mono, result, All, All-mono, All-append,
}
use coroxx.Base.Store.{update, update_cases, update_self, update_ne}
use coroxx.CoroBase.{CoroutineFunction, empty, coroutine_pool_func, coroutine_non_pool_func}
use coroxx.LibCoro.Objects.{LibCoroCoroutine, CoroEnv, CallSite, new_coro}
use coroxx.LibCoro.Layout.{Kept}
use coroxx.LibCoro.Layout.Grow.{create_Kept}
use coroxx.LibCoro.Safety.{Has, Settled, SiteFits}
use coroxx.LibCoro.Safety.Begin.{
  Reset, new_coro-Settled, new_coro-Has, new_coro-Fits, reset_context-Reset,
}
use coroxx.Scheduler.State.{CoroCallData, Scheduler, World, set_scheduler}
use coroxx.Scheduler.Coroutines.{create_coroutine, init_coro_pool}

-- The coroutine `c` starts in `entry` when it runs, which calls `func` with `arg`: its context has the
-- one function and leads to the call data with the other.
pub record Calls (w : World) (c : ℕ) (entry func : CoroutineFunction) (arg : Option ℕ)
    : Type 0 where
  pub coroutine : LibCoroCoroutine
  pub cdata : ℕ
  pub call : CoroCallData
  pub there : w.env.coros c ≡ some coroutine
  pub has_entry : coroutine.data_ctx.func ≡ entry
  pub context : coroutine.data_ctx.arg ≡ some cdata
  pub found : w.call_data cdata ≡ some call
  pub mine : call.coro ≡ c
  pub has_func : call.func ≡ func
  pub has_arg : call.arg ≡ arg

-- Where a coroutine starts.
abbrev pub entry_of : Bool → CoroutineFunction
entry_of pool = if pool then coroutine_pool_func else coroutine_non_pool_func

-- The stacks that are made are as many, and as large.
abbrev pub SameSizes : CoroEnv → CoroEnv → Type 0
SameSizes e e' = (e'.share_stack_count ≡ e.share_stack_count) × (e'.stack_size ≡ e.stack_size)

-- A coroutine of the pool has call data, and runs them in rounds.
abbrev pub Pooled : World → ℕ → Type 0
Pooled w c = (func : CoroutineFunction) × (arg : Option ℕ) × Calls w c coroutine_pool_func func arg

pub pooled_Has : (w : World) (c : ℕ) → Pooled w c → Has w.env.coros c
pooled_Has w c (func, arg, calls) = (calls.coroutine, calls.there)

-- What a coroutine calls is not in the record of the scheduler.
pub rescheduled : (s : Scheduler) (w : World) (c : ℕ) → Pooled w c → Pooled (set_scheduler s w) c
rescheduled s w c (func, arg, calls) = (
  func,
  arg,
  record {
    coroutine = calls.coroutine;
    cdata = calls.cdata;
    call = calls.call;
    there = calls.there;
    has_entry = calls.has_entry;
    context = calls.context;
    found = calls.found;
    mine = calls.mine;
    has_func = calls.has_func;
    has_arg = calls.has_arg;
  },
)

-- Call data stands below the next address.
abbrev pub Addressed : World → Type 0
Addressed w = (a : ℕ) (d : CoroCallData) → w.call_data a ≡ some d → a < w.next_address

-- `coro` calls `func` in `w'`, from `entry`. All else is as in `w`: what the other coroutines call, their bytes,
-- and the one that runs.
pub record Obtained (coro : ℕ) (entry func : CoroutineFunction) (arg : Option ℕ) (w w' : World)
    : Type 0 where
  pub settled : Settled w'.env
  pub addressed : Addressed w'
  pub calls : Calls w' coro entry func arg
  pub others : (c : ℕ) → c ≢ coro → Pooled w c → Pooled w' c
  pub exists : (c : ℕ) → Has w.env.coros c → Has w'.env.coros c
  pub same_current : w'.env.current ≡ w.env.current
  pub same : (c : ℕ) → c ≢ coro → w'.env.coros c ≡ w.env.coros c
  pub same_sizes : SameSizes w.env w'.env
  pub fits : (site : CallSite) → SiteFits site w.env → SiteFits site w'.env
  pub kept :
      (r x at size : ℕ) (img : List ℕ)
      → Kept r w.env.coros w.env.stacks w.env.mem x at size img
      → Kept r w'.env.coros w'.env.stacks w'.env.mem x at size img

-- A new coroutine, which has a number of its own.
pub record Made (entry func : CoroutineFunction) (arg : Option ℕ) (w : World) (coro : ℕ)
    (w' : World) : Type 0 where
  pub obtained : Obtained coro entry func arg w w'
  pub fresh : (c : ℕ) → Has w.env.coros c → c ≢ coro
  pub next_number : coro ≡ w.env.g_coro_id_seed
  pub same_scheduler : w'.scheduler ≡ w.scheduler

module _ (func : CoroutineFunction) (arg : Option ℕ) (w : World) (settled : Settled w.env)
    (addressed : Addressed w) where
  abbrev seed : ℕ
  seed = w.env.g_coro_id_seed

  abbrev call : CoroCallData
  call = record { coro = seed; arg = arg; func = func }

  -- What `CreateCoroutine` makes of the thread that `ResetContext` leaves.
  abbrev made : CoroEnv → World
  made e = record w {
    env = e;
    call_data = update w.call_data w.next_address (some call);
    next_address = suc w.next_address;
  }

  new_seed : (c : ℕ) → Has w.env.coros c → c ≢ seed
  new_seed c (k, there) p = absurd (omega (arith, settled.laws.coro_numbers c k there, p))

  made-Made :
      (entry : CoroutineFunction) (e : CoroEnv)
      → Reset seed entry (some w.next_address) (new_coro false w.env) e
      → Made entry func arg w seed (made e)
  unfolding new_coro
  made-Made entry e reset = record {
    obtained = record {
      settled = reset.settled;
      addressed = λ a d q. elim (update_cases w.call_data w.next_address a (some call) (some d) q) [
        | inl (p, x) ↦ omega (arith, p)
        | inr (n, x) ↦ omega (arith, addressed a d x)
      ];
      calls = record {
        coroutine = reset.coroutine;
        cdata = w.next_address;
        call = call;
        there = reset.there;
        has_entry = reset.has_func;
        context = reset.has_arg;
        found = update_self w.call_data w.next_address (some call);
        mine = refl;
        has_func = refl;
        has_arg = refl;
      };
      others = λ c n (f, a, calls). (
        f,
        a,
        record {
          coroutine = calls.coroutine;
          cdata = calls.cdata;
          call = calls.call;
          there = reset.same c n ∙ update_ne w.env.coros seed c _ n ∙ calls.there;
          has_entry = calls.has_entry;
          context = calls.context;
          found =
              update_ne w.call_data w.next_address calls.cdata (some call)
                (λ p. absurd (omega (arith, addressed calls.cdata calls.call calls.found, p)))
              ∙ calls.found;
          mine = calls.mine;
          has_func = calls.has_func;
          has_arg = calls.has_arg;
        },
      );
      exists = λ c h. reset.exists c (new_coro-Has w.env c h);
      same_current = reset.same_current;
      same = λ c n. reset.same c n ∙ update_ne w.env.coros seed c _ n;
      same_sizes = reset.same_sizes;
      fits = λ site fit. reset.fits site (new_coro-Fits site w.env fit);
      kept = λ r x at size img h.
          reset.kept r x at size img (create_Kept settled.laws _ refl refl (inr (refl, refl)) h);
    };
    fresh = new_seed;
    next_number = refl;
    same_scheduler = refl;
  }

  -- `CreateCoroutine` comes to an end, with a new coroutine that calls the function.
  pub create_coroutine-Made :
      (pool : Bool)
      → Ensures
          (λ (x : ℕ × World). Made (entry_of pool) func arg w x.0 x.1)
          (create_coroutine func arg pool w)
  unfolding create_coroutine
  create_coroutine-Made pool =
      let (fresh, has) = new_coro-Settled w.env settled in
      let entry = if pool then coroutine_pool_func else coroutine_non_pool_func in
      Ensures_bind
        {P = λ (w₁ : World).
          (e : CoroEnv) × (w₁ ≡ record w { env = e })
          × Reset seed entry (some w.next_address) (new_coro false w.env) e}
        (Ensures_bind
          (reset_context-Reset seed entry (some w.next_address) (new_coro false w.env) has fresh)
          λ e reset. result (record w { env = e }) (e, refl, reset))
        λ w₁ (e, same, reset).
          subst
            (λ (x : World).
              Ensures (λ (x : ℕ × World). Made (entry_of pool) func arg w x.0 x.1)
                (some (
                  seed,
                  record x {
                    call_data =
                        update x.call_data x.next_address
                          (some (record { coro = seed; arg = arg; func = func }));
                    next_address = suc x.next_address;
                  },
                )))
            (sym same) (result (seed, made e) (made-Made (entry_of pool) e reset))

-- The pool has `n` coroutines more.
pub record Filled (n : ℕ) (w w' : World) : Type 0 where
  pub settled : Settled w'.env
  pub addressed : Addressed w'
  pub pooled : All (Pooled w') w'.scheduler.coro_pool
  pub size : length w'.scheduler.coro_pool ≡ length w.scheduler.coro_pool + n
  pub same_sizes : SameSizes w.env w'.env

-- `InitCoroPool` with `n` coroutines to make comes to an end: the pool has `n` more, all of its
-- coroutines have call data of their own, and the thread is settled. It was settled before, call data
-- stood below the next address, and the coroutines that were in the pool had call data.
pub init_coro_pool-Filled :
    (n : ℕ) (w : World)
    → Settled w.env
    → Addressed w
    → All (Pooled w) w.scheduler.coro_pool
    → Ensures (Filled n w) (init_coro_pool n w)
unfolding init_coro_pool
init_coro_pool-Filled zero w settled addressed pooled = result w (record {
  settled = settled;
  addressed = addressed;
  pooled = pooled;
  size = omega arith;
  same_sizes = (refl, refl);
})
init_coro_pool-Filled (suc n) w settled addressed pooled =
    Ensures_bind (create_coroutine-Made empty none w settled addressed true) λ (coro, w') made.
      let s = w'.scheduler in
      let w₁ = set_scheduler (record s { coro_pool = s.coro_pool ++ coro ∷ [] }) w' in
      let same : s.coro_pool ≡ w.scheduler.coro_pool =
        ap (λ (t : Scheduler). t.coro_pool) made.same_scheduler in
      let old : All (Pooled w') s.coro_pool = subst (All (Pooled w')) (sym same) (
        All-mono w.scheduler.coro_pool
          (λ c h. made.obtained.others c (made.fresh c (pooled_Has w c h)) h) pooled) in
      let all : All (Pooled w') (s.coro_pool ++ coro ∷ []) =
        All-append (Pooled w') s.coro_pool (coro ∷ []) old
          ((empty, none, made.obtained.calls), tt) in
      Ensures_mono
        (init_coro_pool-Filled n w₁ made.obtained.settled made.obtained.addressed (
          All-mono (s.coro_pool ++ coro ∷ [])
            (rescheduled (record s { coro_pool = s.coro_pool ++ coro ∷ [] }) w') all))
        λ w₂ filled. record {
          settled = filled.settled;
          addressed = filled.addressed;
          pooled = filled.pooled;
          same_sizes = (
            filled.same_sizes.0 ∙ made.obtained.same_sizes.0,
            filled.same_sizes.1 ∙ made.obtained.same_sizes.1,
          );
          size =
              filled.size
              ∙ ap (λ m. m + n)
                  (length-append s.coro_pool (coro ∷ []) ∙ ap (λ (p : List ℕ). length p + 1) same)
              ∙ omega arith;
        }
