-- ===== src/Scheduler/Routine/Launch.antt =====
-- What `Start` of scheduler.cpp leaves, in the caller's thread.
use coroxx.Base.{
  ℕ, List, ◌+◌, length, ap, ◌∙◌, ◌≡◌, refl, false, none, some, [], ◌>>=◌, arith, sym, subst,
  Ensures, Ensures_bind, result, All,
}
use coroxx.Base.Int.{ℤ, pos}
use coroxx.CoroBase.{CoroOptions}
use coroxx.LibCoro.Objects.{CoroEnv, new_share_stack}
use coroxx.LibCoro.Safety.{Settled}
use coroxx.LibCoro.Safety.Begin.{new_share_stack-Settled}
use coroxx.Scheduler.State.{World, set_scheduler}
use coroxx.Scheduler.Coroutines.Pool.{Addressed, Pooled, init_coro_pool-Filled}
use coroxx.Scheduler.Routine.{start, start_in_thread}

-- The pool has the `n` coroutines that it was asked for, all with call data of their own, in a settled
-- thread that has the numbers of its stack options.
pub record Prepared (o : CoroOptions) (w' : World) : Type 0 where
  pub settled : Settled w'.env
  pub addressed : Addressed w'
  pub pooled : All (Pooled w') w'.scheduler.coro_pool
  pub size : length w'.scheduler.coro_pool ≡ o.init_coro_pool_num
  pub stack_count : w'.env.share_stack_count ≡ o.share_stack_count
  pub stack_size : w'.env.stack_size ≡ o.max_stack_size

-- Without `create_thread`, `Start` in a settled thread comes to an end with 0: the thread that calls it
-- makes its shared stacks in the number and of the size that the options give from then on, it stays
-- settled, and the pool has as many coroutines as the options ask for, all of which have call data. No
-- coroutine was in the pool, and call data stood below the next address.
pub start-Prepared :
    (created errno : ℤ) (caller : CoroEnv) (w : World)
    → w.scheduler.options.create_thread ≡ false
    → Settled caller
    → Addressed w
    → w.scheduler.coro_pool ≡ []
    → Ensures
        (λ ((code, caller', w') : ℤ × CoroEnv × World).
          (code ≡ pos 0) × (caller' ≡ w'.env) × Prepared w.scheduler.options w')
        (start created errno caller w)
unfolding start start_in_thread new_share_stack
start-Prepared created errno caller w h settled addressed empty =
    let o = w.scheduler.options in
    let e = new_share_stack o.share_stack_count o.max_stack_size caller in
    let w₁ =
      set_scheduler (record w.scheduler { options = record o { share_stack = none } })
        (record w { env = e }) in
    subst (Ensures Good) (sym same) (
      Ensures_bind
        (init_coro_pool-Filled o.init_coro_pool_num w₁
          (new_share_stack-Settled o.share_stack_count o.max_stack_size caller settled)
          (λ a d q. addressed a d q) (subst (All (Pooled w₁)) (sym empty) tt))
        λ w' f.
          result (pos 0, w'.env, w')
            (
              refl,
              refl,
              record {
                settled = f.settled;
                addressed = f.addressed;
                pooled = f.pooled;
                size =
                    f.size
                    ∙ ap (λ (p : List ℕ). length p + o.init_coro_pool_num) empty
                    ∙ omega arith;
                stack_count = f.same_sizes.0;
                stack_size = f.same_sizes.1;
              },
            ))
  where
    Good : ℤ × CoroEnv × World → Type 0
    Good (code, caller', w') = (code ≡ pos 0) × (caller' ≡ w'.env) × Prepared w.scheduler.options w'

    same :
        start created errno caller w
        ≡ (start_in_thread (record w { env = caller }) >>= λ w'. some (pos 0, w'.env, w'))
    same = ground (arith, h)
