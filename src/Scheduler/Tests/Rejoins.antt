-- ===== src/Scheduler/Tests/Rejoins.antt =====
-- The theorem on `Join` and `CoroDone` at a concrete scheduler.
use coroxx.Base.{ℕ, ◌+◌, ◌-◌, ◌≡◌, ◌≢◌, refl, false, none, some, [], ◌∷◌, arith, Ensures, inr}
use coroxx.Base.Assoc.{find, put}
use coroxx.Base.Store.{read_block}
use coroxx.LibCoro.Objects.{init, new_share_stack, new_coro}
use coroxx.LibCoro.Safety.{Settled, SiteFits, Spares}
use coroxx.LibCoro.Safety.History.{Steps, creates, done, then}
use coroxx.LibCoro.Tests.{
  site, started, started-Settled, started-Fits, started-Spares, started-target, started-current,
  started-coro, started-On, shared_stack, shared_stack-shared, Sized-Fits, once_used,
  once_used-Sized,
}
use coroxx.Scheduler.State.{World}
use coroxx.Scheduler.Coroutines.{waits, JoinOutcome, join, coro_done}
use coroxx.Scheduler.Coroutines.Rejoin.{join-coro_done}
use coroxx.Scheduler.Tests.{world, joining_found, joining_free}

abbrev before : World
before = world ((0, 0) ∷ (1, 1) ∷ []) []

-- Coroutine 0 waits for coroutine 1.
joined : JoinOutcome × World
unfolding join
joined = elim (join 1 (site 190 300) before) [ some x ↦ x | none ↦ (waits, before) ]

joined_eq : join 1 (site 190 300) before ≡ some (joined.0, joined.1)
unfolding joined started init new_share_stack new_coro find
joined_eq = refl

-- Another coroutine is made meanwhile.
later : World
later = record joined.1 { env = new_coro false joined.1.env }

later-Steps : Steps 2 0 joined.1.env later.env
unfolding later
later-Steps = then _ _ _ (creates joined.1.env) (done _)

later-Fits : SiteFits (site 180 300) later.env
unfolding later joined started init new_share_stack new_coro shared_stack once_used find
later-Fits = Sized-Fits 180 later.env (omega arith) (omega arith) once_used-Sized

later_entry : find 1 later.scheduler.join_table ≡ find 1 joined.1.scheduler.join_table
unfolding later joined started init new_share_stack new_coro find put
later_entry = refl

later-Spares : Spares 2 (site 180 300) later.env.coros 0
later-Spares k q = inr (omega arith)

two_ne_zero : ◌≢◌ {A = ℕ} 2 0
two_ne_zero = omega arith

join-coro_done_example :
    Ensures
      (λ d.
        Settled d.env
        × (d.env.current ≡ some 0)
        × (read_block d.env.mem 190
              ((shared_stack (some 0)).sptr + (shared_stack (some 0)).ssze - 190 - 2)
            ≡ read_block started.mem 190
                ((shared_stack (some 0)).sptr + (shared_stack (some 0)).ssze - 190 - 2)))
      (coro_done 1 false (site 180 300) later)
join-coro_done_example =
    join-coro_done 2 (site 190 300) (site 180 300) 1 0 2 1 0 started-coro.0 (shared_stack (some 0))
      false joined.0 before joined.1 later started-Settled started-Fits (started-Spares 2)
      started-target started-current joining_found joining_free started-On shared_stack-shared
      two_ne_zero joined_eq later-Steps later_entry later-Fits later-Spares
