-- ===== src/Scheduler/Coroutines/Done.antt =====
-- `CoroDone` of scheduler.cpp: what a finished coroutine leaves, and who runs next.
use coroxx.Base.{
  ℕ, ◌≡◌, refl, inl, inr, Bool, true, Option, none, some, List, [], ◌∷◌, ◌++◌, if◌then◌else◌, arith,
  ==-refl, Option-cases, subst, sym, ap, ◌∙◌, Ensures, Ensures_bind, Ensures_mono, result,
}
use coroxx.Base.Assoc.{find, erase, Distinct, find-erase, erase_missing}
use coroxx.LibCoro.Objects.{CoroEnv, CallSite}
use coroxx.LibCoro.Switch.{switch_to, yield_coro}
use coroxx.LibCoro.Safety.{Has, Settled, SiteFits, Spares}
use coroxx.LibCoro.Safety.Leave.{Switched}
use coroxx.LibCoro.Safety.Switching.{switch_to-Switched}
use coroxx.LibCoro.Safety.Turns.{target, yield_coro-Switched}
use coroxx.Scheduler.State.{Scheduler, World, set_scheduler, with_env}
use coroxx.Scheduler.Coroutines.{leave_exec, retire, hand_over, coro_done}
use coroxx.Scheduler.Coroutines.Counts.{Counted, leave_exec-Counted}

-- The coroutine that runs when `coro` is done: the one that joined it, else where `Yield` goes.
abbrev pub successor : ℕ → World → Option ℕ
successor coro w = elim (find coro w.scheduler.join_table) [
  | none ↦ target w.env
  | some waiting ↦ some waiting
]

-- No two entries of `join_table` have one key, and those who wait exist.
abbrev pub Joinable : World → Type 0
Joinable w =
    Distinct w.scheduler.join_table
    × ((c waiting : ℕ) → find c w.scheduler.join_table ≡ some waiting → Has w.env.coros waiting)

-- Where the coroutine goes to.
abbrev pub pool_after : ℕ → Bool → Scheduler → List ℕ
pool_after coro pool s = if pool then s.coro_pool ++ coro ∷ [] else s.coro_pool

abbrev pub deleting_after : ℕ → Bool → Scheduler → List ℕ
deleting_after coro pool s = if pool then s.deleting_coros else s.deleting_coros ++ coro ∷ []

-- The scheduler that `coro` leaves.
pub record Finished (coro : ℕ) (pool : Bool) (before after : Scheduler) : Type 0 where
  pub counted : Counted after
  pub gone : find coro after.exec_table ≡ none
  pub not_joined : find coro after.join_table ≡ none
  pub pooled : after.coro_pool ≡ pool_after coro pool before
  pub deleting : after.deleting_coros ≡ deleting_after coro pool before

module _ (coro : ℕ) (pool : Bool) (w : World) where
  pub left : World
  left = retire coro pool (leave_exec coro w)

  pub left_env : left.env ≡ w.env
  unfolding left retire leave_exec
  left_env = elim (Option-cases (find coro w.scheduler.exec_table)) [
    | inl p ↦ ground arith
    | inr (v, p) ↦ ground arith
  ]

  pub left_joins : left.scheduler.join_table ≡ w.scheduler.join_table
  unfolding left retire leave_exec
  left_joins = ground arith

  left_pool : left.scheduler.coro_pool ≡ pool_after coro pool w.scheduler
  unfolding left retire leave_exec
  left_pool = ground arith

  left_deleting : left.scheduler.deleting_coros ≡ deleting_after coro pool w.scheduler
  unfolding left retire leave_exec
  left_deleting = ground arith

  left-Finished :
      Counted w.scheduler
      → (joins : List (ℕ × ℕ)) → find coro joins ≡ none
      → Finished coro pool w.scheduler (record left.scheduler { join_table = joins })
  unfolding left retire
  left-Finished c joins alone =
      let (counted, gone) = leave_exec-Counted coro w c in
      record {
        counted = (ground (arith, counted.0), ground (arith, counted.1));
        gone = ground (arith, gone);
        not_joined = alone;
        pooled = left_pool;
        deleting = left_deleting;
      }

-- `CoroDone` hands over after the coroutine left.
pub coro_done_lem :
    (coro : ℕ) (pool : Bool) (site : CallSite) (w : World)
    → coro_done coro pool site w ≡ hand_over coro site (left coro pool w)
unfolding coro_done left
coro_done_lem coro pool site w = refl

module _ (r : ℕ) (site : CallSite) (coro this : ℕ) where
  -- A switch to `this` goes well.
  abbrev Fine : CoroEnv → Type 0
  Fine e = Settled e × SiteFits site e × Spares r site e.coros this

  -- `coro` has handed over to `this`.
  abbrev Handed : World → World → Type 0
  Handed w w' =
      Switched r site.frame this w.env w'.env
      × (w'.scheduler ≡ record w.scheduler { join_table = erase coro w.scheduler.join_table })

  hand_over-none :
      (w : World)
      → find coro w.scheduler.join_table ≡ none
      → hand_over coro site w ≡ with_env w (yield_coro true site w.env)
  unfolding hand_over
  hand_over-none w p = ground arith

  pub hand_over-some :
      (w : World) (waiting : ℕ)
      → find coro w.scheduler.join_table ≡ some waiting
      → hand_over coro site w
        ≡ with_env
            (set_scheduler
              (record w.scheduler { join_table = erase coro w.scheduler.join_table })
              w)
            (switch_to waiting true site w.env)
  unfolding hand_over
  hand_over-some w waiting p = ground arith

  hand_over-Handed :
      (w : World)
      → Fine w.env
      → Joinable w
      → successor coro w ≡ some this
      → Ensures (Handed w) (hand_over coro site w)
  hand_over-Handed w (settled, fit, spare) (distinct, live) next =
      elim (Option-cases (find coro w.scheduler.join_table)) [
        | inl p ↦
            let goes : target w.env ≡ some this = ground (arith, p) in
            subst (Ensures (Handed w)) (sym (hand_over-none w p)) (
              Ensures_bind (yield_coro-Switched r site this w.env settled fit spare goes true)
                λ e switched. result _ (
                  switched,
                  ap (λ (t : List (ℕ × ℕ)). record w.scheduler { join_table = t })
                      (sym (erase_missing coro w.scheduler.join_table p)),
                ))
        | inr (waiting, p) ↦
            let goes : waiting ≡ this = ground (arith, p) in
            let has = subst (Has w.env.coros) goes (live coro waiting p) in
            subst (Ensures (Handed w))
              (sym (
                hand_over-some w waiting p
                ∙ ap
                    (λ x.
                      with_env
                        (set_scheduler
                          (record w.scheduler { join_table = erase coro w.scheduler.join_table }) w)
                        (switch_to x true site w.env))
                    goes))
              (Ensures_bind (switch_to-Switched r site this w.env settled fit has spare true)
                λ e switched. result _ (switched, refl))
      ]

  successor-left : (pool : Bool) (w : World) → successor coro (left coro pool w) ≡ successor coro w
  successor-left pool w =
      let a = left_env coro pool w in
      let b = left_joins coro pool w in
      ap (λ (e : CoroEnv). next_of e (left coro pool w).scheduler.join_table) a
      ∙ ap (next_of w.env) b
    where
      next_of : CoroEnv → List (ℕ × ℕ) → Option ℕ
      next_of e t = elim (find coro t) [ none ↦ target e | some waiting ↦ some waiting ]

  -- When a coroutine is done, the coroutine that joined it runs next, or, if none did, the one that
  -- `Yield` goes to, with the bytes that it was suspended with. The finished coroutine is in the pool
  -- or among those to delete, and in no table; the counter of running coroutines counts the table.
  -- The thread is settled, the call site fits it, and those who wait exist.
  pub coro_done-Finished :
      (pool : Bool) (w : World)
      → Settled w.env
      → SiteFits site w.env
      → Spares r site w.env.coros this
      → Joinable w
      → Counted w.scheduler
      → successor coro w ≡ some this
      → Ensures
          (λ w'.
            Switched r site.frame this w.env w'.env × Finished coro pool w.scheduler w'.scheduler)
          (coro_done coro pool site w)
  unfolding coro_done left
  coro_done-Finished pool w settled fit spare (distinct, live) counted next =
      let a = left_env coro pool w in
      let b = left_joins coro pool w in
      let w₁ = left coro pool w in
      let gone : find coro (erase coro w₁.scheduler.join_table) ≡ none =
        ground (arith, b, find-erase coro coro w.scheduler.join_table distinct, ==-refl coro) in
      Ensures_mono
        (hand_over-Handed w₁ (subst Fine (sym a) (settled, fit, spare))
          (
            subst Distinct (sym b) distinct,
            λ c waiting q.
                subst (λ (e : CoroEnv). Has e.coros waiting) (sym a)
                  (live c waiting (ap (find c) (sym b) ∙ q)),
          )
          (successor-left pool w ∙ next))
        λ w' (switched, same). (
          subst (λ (e : CoroEnv). Switched r site.frame this e w'.env) a switched,
          subst (Finished coro pool w.scheduler) (sym same)
              (left-Finished coro pool w counted (erase coro w₁.scheduler.join_table) gone),
        )
