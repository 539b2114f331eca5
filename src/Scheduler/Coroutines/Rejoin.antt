-- ===== src/Scheduler/Coroutines/Rejoin.antt =====
-- `Join` and the `CoroDone` that ends its wait (scheduler.cpp).
use coroxx.Base.{
  ℕ, ◌+◌, ◌-◌, ◌≡◌, ◌≢◌, Bool, true, some, none, sym, ap, ◌∙◌, subst, Ensures, Ensures_at,
  Ensures_bind, result,
}
use coroxx.Base.Assoc.{find, erase}
use coroxx.Base.Store.{read_block}
use coroxx.LibCoro.Objects.{CoroStack, LibCoroCoroutine, CallSite}
use coroxx.LibCoro.Switch.{switch_to}
use coroxx.LibCoro.Layout.{On}
use coroxx.LibCoro.Safety.{Settled, SiteFits, Spares}
use coroxx.LibCoro.Safety.Turns.{target}
use coroxx.LibCoro.Safety.History.{Steps, Switch-Steps}
use coroxx.Scheduler.State.{World, set_scheduler, with_env}
use coroxx.Scheduler.Coroutines.{JoinOutcome, join, coro_done}
use coroxx.Scheduler.Coroutines.Done.{coro_done_lem, left, left_env, left_joins, hand_over-some}
use coroxx.Scheduler.Coroutines.Joins.{join-Switch}

-- The end of `cid` goes to the coroutine that joined it, in the thread as it was.
done_lem :
    (cid c : ℕ) (pool : Bool) (site : CallSite) (w : World)
    → find cid w.scheduler.join_table ≡ some c
    → coro_done cid pool site w
      ≡ with_env
          (set_scheduler
            (record (left cid pool w).scheduler {
              join_table = erase cid (left cid pool w).scheduler.join_table;
            })
            (left cid pool w))
          (switch_to c true site w.env)
done_lem cid c pool site w p =
    coro_done_lem cid pool site w
    ∙ hand_over-some 0 site cid 0 (left cid pool w) c (ap (find cid) (left_joins cid pool w) ∙ p)
    ∙ ap
        (λ e.
          with_env
            (set_scheduler
              (record (left cid pool w).scheduler {
                join_table = erase cid (left cid pool w).scheduler.join_table;
              })
              (left cid pool w))
            (switch_to c true site e))
        (left_env cid pool w)

-- A coroutine `c` on a shared stack joins the running coroutine `cid`, which nobody had joined, and
-- gives way. After any sequence of operations of its thread that do not resume it, the end of `cid`
-- comes to an end: `c` runs, and it finds every byte of its stack from its frame on as it left it, all
-- but the `r` uppermost. The entry of `cid` in the table of joiners is the one that `Join` left, the
-- thread was settled, and each call site fits the thread.
pub join-coro_done :
    (r : ℕ) (first last : CallSite) (cid c this v s : ℕ) (k : LibCoroCoroutine) (st : CoroStack)
    (pool : Bool) (outcome : JoinOutcome) (w w₁ w₂ : World)
    → Settled w.env
    → SiteFits first w.env
    → Spares r first w.env.coros this
    → target w.env ≡ some this
    → w.env.current ≡ some c
    → find cid w.scheduler.exec_table ≡ some v
    → find cid w.scheduler.join_table ≡ none
    → On w.env.coros w.env.stacks c s k st
    → st.shared ≡ true
    → this ≢ c
    → join cid first w ≡ some (outcome, w₁)
    → Steps r c w₁.env w₂.env
    → find cid w₂.scheduler.join_table ≡ find cid w₁.scheduler.join_table
    → SiteFits last w₂.env
    → Spares r last w₂.env.coros c
    → Ensures
        (λ d.
          Settled d.env
          × (d.env.current ≡ some c)
          × (read_block d.env.mem first.frame (st.sptr + st.ssze - first.frame - r)
              ≡ read_block w.env.mem first.frame (st.sptr + st.ssze - first.frame - r)))
        (coro_done cid pool last w₂)
join-coro_done r first last cid c this v s k st pool outcome w w₁ w₂ settled fit spare goes runs
      running free on shared other joined steps entry fits spares =
    let (switch, entered) =
      Ensures_at (join-Switch r first cid c this w v settled fit spare goes runs running free)
        joined in
    subst (Ensures _) (sym (done_lem cid c pool last w₂ (entry ∙ entered))) (
      Ensures_bind
        (Switch-Steps r c first last this s k st w.env w₁.env w₂.env true settled runs on shared
          other switch steps fits spares)
        λ e d. result _ d)
