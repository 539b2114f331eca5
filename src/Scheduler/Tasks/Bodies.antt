-- ===== src/Scheduler/Tasks/Bodies.antt =====
-- `CoroutineNonPoolFunc` and `CoroutinePoolFunc` of scheduler.cpp: what a coroutine does when its
-- function has returned.
use coroxx.Base.{
  ℕ, ◌≡◌, Bool, true, false, Option, some, ◌>>=◌, arith, sym, subst, ap, Ensures, Ensures_mono,
  Ensures_value, none, ◌∙◌,
}
use coroxx.Base.Store.{update}
use coroxx.CoroBase.{CoroutineFunction, is_set}
use coroxx.LibCoro.Objects.{CallSite}
use coroxx.LibCoro.Safety.{Settled, SiteFits, Spares}
use coroxx.LibCoro.Safety.Leave.{Switched}
use coroxx.Scheduler.State.{CoroCallData, World}
use coroxx.Scheduler.Coroutines.{coro_done}
use coroxx.Scheduler.Coroutines.Counts.{Counted}
use coroxx.Scheduler.Coroutines.Done.{Joinable, Finished, successor, coro_done-Finished}
use coroxx.Scheduler.Tasks.{non_pool_body, pool_round}

-- The state in which the function of `coro` has returned, when `this` is to run next.
pub record Returned (r : ℕ) (site : CallSite) (coro this : ℕ) (w : World) : Type 0 where
  pub settled : Settled w.env
  pub fits : SiteFits site w.env
  pub spares : Spares r site w.env.coros this
  pub joinable : Joinable w
  pub counted : Counted w.scheduler
  pub next : successor coro w ≡ some this

-- `this` runs after `coro` is over, whose function had returned in a state `w`.
abbrev pub Over : ℕ → CallSite → ℕ → ℕ → Bool → Option World → World → Type 0
Over r site coro this pool returned w' =
    (w : World) × (returned ≡ some w)
    × Switched r site.frame this w.env w'.env
    × Finished coro pool w.scheduler w'.scheduler

module _ (run_func : CoroutineFunction → Option ℕ → World → Option World) (r : ℕ) (site : CallSite)
    (cdata this : ℕ) (w : World) (d : CoroCallData) (found : w.call_data cdata ≡ some d)
    (set : is_set d.func ≡ true) where
  abbrev call : Option World
  call = run_func d.func d.arg w

  non_pool_lem : non_pool_body run_func cdata site w ≡ (
      call >>= λ w'.
      coro_done d.coro false site (record w' { call_data = update w'.call_data cdata none }))
  unfolding non_pool_body
  non_pool_lem = ground (arith, found, set)

  pool_lem :
      pool_round run_func d.coro cdata site w ≡ (call >>= λ w'. coro_done d.coro true site w')
  unfolding pool_round
  pool_lem = ground (arith, found, set)

  -- A coroutine whose call data has a function runs it and then hands over to the coroutine that
  -- joined it, or that `Yield` goes to: one outside of the pool ends among those to delete, one of the
  -- pool in the pool again, and neither is in a table. The function returns in a settled thread with
  -- sound tables, which the call site fits.
  pub non_pool_body-pool_round :
      Ensures (Returned r site d.coro this) call
      → Ensures (Over r site d.coro this false call) (non_pool_body run_func cdata site w)
        × Ensures (Over r site d.coro this true call) (pool_round run_func d.coro cdata site w)
  non_pool_body-pool_round ends =
      let (w', same, e) = Ensures_value ends in
      (
        subst (Ensures (Over r site d.coro this false call))
            (sym (
              non_pool_lem
              ∙ ap
                  (λ o. o >>= λ x.
                    coro_done d.coro false site
                      (record x { call_data = update x.call_data cdata none }))
                  same))
            (Ensures_mono
              (coro_done-Finished r site d.coro this false
                (record w' { call_data = update w'.call_data cdata none }) e.settled e.fits e.spares
                (e.joinable.0, e.joinable.1) e.counted e.next)
              λ x (switched, finished). (w', same, switched, finished)),
        subst (Ensures (Over r site d.coro this true call))
            (sym (pool_lem ∙ ap (λ o. o >>= λ x. coro_done d.coro true site x) same))
            (Ensures_mono
              (coro_done-Finished r site d.coro this true w' e.settled e.fits e.spares e.joinable
                e.counted e.next)
              λ x (switched, finished). (w', same, switched, finished)),
      )
