-- ===== src/Scheduler/Coroutines/Joins.antt =====
-- `Join` of scheduler.cpp, in a caller that waits.
use coroxx.Base.{
  ℕ, ◌≡◌, ◌≢◌, refl, Option, none, some, ◌>>=◌, arith, ==-refl, subst, sym, ap, ◌∙◌, Ensures,
  Ensures_bind, Ensures_value, result, ne→==,
}
use coroxx.Base.Assoc.{find, put, find-put}
use coroxx.LibCoro.Objects.{CallSite}
use coroxx.LibCoro.Safety.{Settled, SiteFits, Spares}
use coroxx.LibCoro.Safety.Leave.{Switched}
use coroxx.LibCoro.Safety.Turns.{target, wait-Switched}
use coroxx.LibCoro.Safety.History.{Switch, waits_for}
use coroxx.Scheduler.State.{Scheduler, World, set_scheduler, with_env}
use coroxx.Scheduler.Coroutines.{wait_coro, JoinOutcome, waits, join}
use coroxx.Scheduler.Coroutines.Done.{successor}

module _ (r : ℕ) (site : CallSite) (cid current this : ℕ) (w : World) where
  registered : World
  registered =
      set_scheduler (record w.scheduler { join_table = put cid current w.scheduler.join_table }) w

  join_waits :
      (v : ℕ)
      → find cid w.scheduler.exec_table ≡ some v
      → find cid w.scheduler.join_table ≡ none
      → w.env.current ≡ some current
      → join cid site w ≡ (wait_coro current site registered >>= λ w'. some (waits, w'))
  unfolding join registered
  join_waits v p q h = ground arith

  wait_registered :
      Settled w.env
      → SiteFits site w.env
      → Spares r site w.env.coros this
      → target w.env ≡ some this
      → w.env.current ≡ some current
      → Ensures
          (λ w'. Switched r site.frame this w.env w'.env × (w'.scheduler ≡ registered.scheduler))
          (wait_coro current site registered)
  unfolding wait_coro registered
  wait_registered settled fit spare goes runs =
      let (k, there) = settled.current_live current runs in
      Ensures_bind (wait-Switched r site this w.env settled fit spare current k there goes)
        λ e switched. result _ (switched, refl)

  -- The switch of a `Join` that waits, with the entry that it leaves in the table.
  pub join-Switch :
      (v : ℕ)
      → Settled w.env
      → SiteFits site w.env
      → Spares r site w.env.coros this
      → target w.env ≡ some this
      → w.env.current ≡ some current
      → find cid w.scheduler.exec_table ≡ some v
      → find cid w.scheduler.join_table ≡ none
      → Ensures
          (λ ((outcome, w') : JoinOutcome × World).
            Switch r site this w.env w'.env × (find cid w'.scheduler.join_table ≡ some current))
          (join cid site w)
  unfolding wait_coro registered
  join-Switch v settled fit spare goes runs running free =
      let (k, there) = settled.current_live current runs in
      let (e, q, sw) =
        Ensures_value (wait-Switched r site this w.env settled fit spare current k there goes) in
      subst
        (Ensures (λ ((outcome, w') : JoinOutcome × World).
          Switch r site this w.env w'.env × (find cid w'.scheduler.join_table ≡ some current)))
        (sym (
          join_waits v running free runs
          ∙ ap (λ x. with_env registered x >>= λ w'. some (waits, w')) q))
        (result (waits, record registered { env = e })
          (waits_for w.env e current goes (k, there) fit spare q, entered))
    where
      entered : find cid (put cid current w.scheduler.join_table) ≡ some current
      entered = ground (arith, find-put cid cid current w.scheduler.join_table, ==-refl cid)

  -- The caller of `Join` on a running coroutine that nobody has joined gives way to the coroutine
  -- that `Yield` goes to, which runs with its own bytes, and will run next when the joined one is
  -- done; all other entries of the table stay. The thread is settled and the call site fits it.
  pub join-Switched :
      (v : ℕ)
      → Settled w.env
      → SiteFits site w.env
      → Spares r site w.env.coros this
      → target w.env ≡ some this
      → w.env.current ≡ some current
      → find cid w.scheduler.exec_table ≡ some v
      → find cid w.scheduler.join_table ≡ none
      → Ensures
          (λ (outcome, w').
            (outcome ≡ waits)
            × Switched r site.frame this w.env w'.env
            × (successor cid w' ≡ some current)
            × ((c : ℕ) → c ≢ cid → find c w'.scheduler.join_table ≡ find c w.scheduler.join_table)
            × (w'.scheduler.exec_table ≡ w.scheduler.exec_table))
          (join cid site w)
  unfolding wait_coro registered
  join-Switched v settled fit spare goes runs running free =
      let joins = put cid current w.scheduler.join_table in
      let found : find cid joins ≡ some current =
        ground (arith, find-put cid cid current w.scheduler.join_table, ==-refl cid) in
      subst
        (Ensures (λ (x : JoinOutcome × World).
          (x.0 ≡ waits)
          × Switched r site.frame this w.env x.1.env
          × (successor cid x.1 ≡ some current)
          × ((c : ℕ) → c ≢ cid → find c x.1.scheduler.join_table ≡ find c w.scheduler.join_table)
          × (x.1.scheduler.exec_table ≡ w.scheduler.exec_table)))
        (sym (join_waits v running free runs))
        (Ensures_bind (wait_registered settled fit spare goes runs) λ w' (switched, same).
          result (waits, w')
            (
              refl,
              switched,
              ap
                    (λ (s : Scheduler). elim (find cid s.join_table) [
                      | none ↦ target w'.env
                      | some waiting ↦ some waiting
                    ])
                    same
                  ∙ ap
                      (λ (o : Option ℕ). elim o [
                        | none ↦ target w'.env
                        | some waiting ↦ some waiting
                      ])
                      found,
              λ c n.
                  ap (λ (s : Scheduler). find c s.join_table) same
                  ∙ ground (
                    arith,
                    find-put cid c current w.scheduler.join_table,
                    ne→== cid c λ p. n (sym p),
                  ),
              ap (λ (s : Scheduler). s.exec_table) same,
            ))
