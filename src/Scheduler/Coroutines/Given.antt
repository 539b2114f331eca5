-- ===== src/Scheduler/Coroutines/Given.antt =====
-- `GetCoroutine` of scheduler.cpp: a coroutine of the pool, or a new one.
use coroxx.Base.{
  ℕ, ◌<◌, ◌≡◌, ◌≢◌, refl, inl, inr, false, Option, some, some_injective, List, [], ◌∷◌, arith, sym,
  ap, ◌∙◌, subst, Ensures, Ensures_mono, result, All, List-cases,
}
use coroxx.Base.Store.{update, update_cases, update_self, update_ne}
use coroxx.CoroBase.{CoroutineFunction, coroutine_pool_func, coroutine_non_pool_func}
use coroxx.LibCoro.Safety.{Has, Settled}
use coroxx.Scheduler.State.{CoroCallData, Scheduler, World, set_scheduler}
use coroxx.Scheduler.Coroutines.{reuse, get_coroutine, create_coroutine}
use coroxx.Scheduler.Coroutines.Pool.{
  Calls, Pooled, Addressed, Obtained, create_coroutine-Made, rescheduled,
}

-- The coroutine that `GetCoroutine` gives is the first of the pool, or a new one if there is none.
-- Each starts in its own function.
pub data Origin (w : World) (coro : ℕ) (entry : CoroutineFunction) (w' : World) : Type 0 where
  from_pool :
      (rest : List ℕ)
      → w.scheduler.coro_pool ≡ coro ∷ rest
      → entry ≡ coroutine_pool_func
      → w'.scheduler ≡ record w.scheduler { coro_pool = rest }
      → Origin w coro entry w'
  created :
      w.scheduler.coro_pool ≡ []
      → entry ≡ coroutine_non_pool_func
      → coro ≡ w.env.g_coro_id_seed
      → ((c : ℕ) → Has w.env.coros c → c ≢ coro)
      → w'.scheduler ≡ w.scheduler
      → Origin w coro entry w'

module _ (func : CoroutineFunction) (arg : Option ℕ) (w : World) (settled : Settled w.env)
    (addressed : Addressed w) where
  module _ (coro : ℕ) (f : CoroutineFunction) (a : Option ℕ)
      (calls : Calls w coro coroutine_pool_func f a) where
    abbrev renewed : CoroCallData
    renewed = record calls.call { arg = arg; func = func }

    abbrev reused : World
    reused = record w { call_data = update w.call_data calls.cdata (some renewed) }

    reuse_eq : reuse coro func arg w ≡ some reused
    unfolding reuse
    reuse_eq = ground (arith, calls.there, calls.context, calls.found)

    reused-Obtained : Obtained coro coroutine_pool_func func arg w reused
    reused-Obtained = record {
      settled = settled;
      addressed = λ x d q. elim (update_cases w.call_data calls.cdata x (some renewed) (some d) q) [
        | inl (p, y) ↦
            subst (λ z. z < w.next_address) (sym p) (addressed calls.cdata calls.call calls.found)
        | inr (n, y) ↦ addressed x d y
      ];
      calls = record {
        coroutine = calls.coroutine;
        cdata = calls.cdata;
        call = renewed;
        there = calls.there;
        has_entry = calls.has_entry;
        context = calls.context;
        found = update_self w.call_data calls.cdata (some renewed);
        mine = calls.mine;
        has_func = refl;
        has_arg = refl;
      };
      others = λ c n (f', a', calls'). (
        f',
        a',
        record {
          coroutine = calls'.coroutine;
          cdata = calls'.cdata;
          call = calls'.call;
          there = calls'.there;
          has_entry = calls'.has_entry;
          context = calls'.context;
          found =
              update_ne w.call_data calls.cdata calls'.cdata (some renewed)
                (λ p. n (apart c f' a' calls' p))
              ∙ calls'.found;
          mine = calls'.mine;
          has_func = calls'.has_func;
          has_arg = calls'.has_arg;
        },
      );
      exists = λ c h. h;
      same_current = refl;
      same = λ c n. refl;
      same_sizes = (refl, refl);
      fits = λ site fit. fit;
      kept = λ r x at size img h. h;
    }
      where
        -- Two coroutines have two calls.
        apart :
            (c : ℕ) (f' : CoroutineFunction) (a' : Option ℕ)
            (calls' : Calls w c coroutine_pool_func f' a')
            → calls'.cdata ≡ calls.cdata
            → c ≡ coro
        apart c f' a' calls' p =
            sym calls'.mine
            ∙ ap (λ (d : CoroCallData). d.coro)
                (some_injective (sym calls'.found ∙ ap w.call_data p ∙ calls.found))
            ∙ calls.mine

-- The table of the pool is not what a coroutine calls.
module _ (s : Scheduler) (w : World) where
  pub rescheduled_Calls :
      (c : ℕ) (entry func : CoroutineFunction) (arg : Option ℕ)
      → Calls w c entry func arg
      → Calls (set_scheduler s w) c entry func arg
  rescheduled_Calls c entry func arg calls = record {
    coroutine = calls.coroutine;
    cdata = calls.cdata;
    call = calls.call;
    there = calls.there;
    has_entry = calls.has_entry;
    context = calls.context;
    found = calls.found;
    mine = calls.mine;
    has_func = calls.has_func;
    has_arg = calls.has_arg;
  }

  rescheduled-Obtained :
      (coro : ℕ) (entry func : CoroutineFunction) (arg : Option ℕ) (w' : World)
      → Obtained coro entry func arg (set_scheduler s w) w'
      → Obtained coro entry func arg w w'
  rescheduled-Obtained coro entry func arg w' o = record {
    settled = o.settled;
    addressed = o.addressed;
    calls = o.calls;
    others = λ c n h. o.others c n (rescheduled s w c h);
    exists = o.exists;
    same_current = o.same_current;
    same = o.same;
    same_sizes = o.same_sizes;
    fits = o.fits;
    kept = o.kept;
  }

-- `GetCoroutine` comes to an end with the first coroutine of the pool, which leaves it, or with a new
-- coroutine with the next number if there is none. Its context has the function of the pool or the one
-- for a new coroutine, and leads to call data with the given function and argument; the other
-- coroutines are as before, with what those of the pool call and all the bytes of the others. The thread was settled, call data
-- stood below the next address, and the coroutines of the pool had call data.
pub get_coroutine-Obtained :
    (func : CoroutineFunction) (arg : Option ℕ) (w : World)
    → Settled w.env
    → Addressed w
    → All (Pooled w) w.scheduler.coro_pool
    → Ensures
        (λ ((coro, w') : ℕ × World).
          (entry : CoroutineFunction) × Obtained coro entry func arg w w' × Origin w coro entry w')
        (get_coroutine func arg w)
unfolding get_coroutine
get_coroutine-Obtained func arg w settled addressed pooled =
    elim (List-cases w.scheduler.coro_pool) [
      | inl p ↦ subst (Ensures Good) (sym (at_empty p)) (
          Ensures_mono (create_coroutine-Made func arg w settled addressed false) λ (coro, w') made.
            (_, made.obtained, created p refl made.next_number made.fresh made.same_scheduler))
      | inr (coro, rest, p) ↦
          let (f, a, calls) = (subst (All (Pooled w)) p pooled).0 in
          let w₁ = set_scheduler (record w.scheduler { coro_pool = rest }) w in
          let calls₁ =
            rescheduled_Calls (record w.scheduler { coro_pool = rest }) w coro _ f a calls in
          let o = reused-Obtained func arg w₁ settled addressed coro f a calls₁ in
          subst (Ensures Good)
            (sym (at_pool coro rest p (reuse_eq func arg w₁ settled addressed coro f a calls₁)))
            (result (coro, reused func arg w₁ settled addressed coro f a calls₁)
              (
                coroutine_pool_func,
                rescheduled-Obtained (record w.scheduler { coro_pool = rest }) w coro _ func arg _
                    o,
                from_pool rest p refl refl,
              ))
    ]
  where
    Good : ℕ × World → Type 0
    Good (coro, w') =
        (entry : CoroutineFunction) × Obtained coro entry func arg w w' × Origin w coro entry w'

    at_empty :
        w.scheduler.coro_pool ≡ [] → get_coroutine func arg w ≡ create_coroutine func arg false w
    at_empty p = ground (arith, p)

    at_pool :
        (coro : ℕ) (rest : List ℕ)
        → w.scheduler.coro_pool ≡ coro ∷ rest
        → {w₂ : World}
        → reuse coro func arg (set_scheduler (record w.scheduler { coro_pool = rest }) w) ≡ some w₂
        → get_coroutine func arg w ≡ some (coro, w₂)
    at_pool coro rest p q = ground (arith, p, q)
