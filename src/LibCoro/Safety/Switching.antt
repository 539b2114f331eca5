-- ===== src/LibCoro/Safety/Switching.antt =====
-- A whole switch: `Resume` until a coroutine runs again (libcoro.cpp).
use coroxx.Base.{
  ℕ, ◌≡◌, refl, ◌⊎◌, inl, inr, Bool, Option, none, some, arith, Ensures, Ensures_bind, ◌>>=◌,
}
use coroxx.LibCoro.Objects.{CoroEnv, CallSite}
use coroxx.LibCoro.Safety.{Has, Settled, SiteFits, Spares}
use coroxx.LibCoro.Safety.Parts.{widen}
use coroxx.LibCoro.Safety.Start.{ensure_main-Ready, push_current-Ready, set_current-Ready}
use coroxx.LibCoro.Safety.Assign.{Prepared, assign_stack-Prepared}
use coroxx.LibCoro.Safety.Enter.{former, find_save_coro-Chosen, occupy-Met}
use coroxx.LibCoro.Safety.Save.{init_ctx-Met, Entered, save_other-Entered}
use coroxx.LibCoro.Safety.Leave.{Switched, leave_first, leave_second}
use coroxx.LibCoro.Switch.{
  ensure_main, find_save_coro, occupy, init_ctx, save_other, leave, resume, settle, switch_to,
}

module _ (r : ℕ) (site : CallSite) (this : ℕ) (e₀ : CoroEnv) where
  -- A switch from `old` that has come to its end goes on to `this`.
  abbrev Arrives : CoroEnv → Type 0
  Arrives e = Ensures (Switched r site.frame this e₀) (settle e)

  left :
      (old : Option ℕ) (e : CoroEnv)
      → e₀.current ≡ old
      → Entered r site this e₀ old none e
      → Ensures Arrives (leave this old site e)
  left none e ran entered = leave_first r site this e₀ e ran entered
  left (some c) e ran entered = leave_second r site this e₀ c ran e entered

  -- `this` runs once.
  collapse :
      (Y : ℕ → Type 0) (old : Option ℕ) (e : CoroEnv)
      → Prepared r site this e₀ old (λ c. Y c ⊎ (c ≡ this)) e
      → Prepared r site this e₀ old Y e
  collapse Y old e (((laws, keeps, alive, roomy, live), quiet, frame, spare, main, current), has) =
      (
        (
          (
            widen laws (λ c s k st on x q. inr x) (λ c s k st on q y. once c y)
                (λ c s k st on z. inr z),
            keeps,
            alive,
            roomy,
            live,
          ),
          quiet,
          frame,
          spare,
          main,
          current,
        ),
        has,
      )
    where
      once : (c : ℕ) → (Y c ⊎ (c ≡ this)) ⊎ (c ≡ this) → Y c ⊎ (c ≡ this)
      once c (inl y) = y
      once c (inr p) = inr p

  -- From the choice of the coroutine to save to the end.
  finish : Option ℕ → Bool → CoroEnv → Option CoroEnv
  finish old release e = do
    save_coro ← find_save_coro this old release e
    e ← occupy this e
    e ← init_ctx this site e
    e ← save_other save_coro old e
    leave this old site e

  prepared-Arrives :
      (release : Bool) (e : CoroEnv)
      → Prepared r site this e₀ e₀.current (λ c. e₀.current ≡ some c) e
      → Ensures Arrives (finish e₀.current release e)
  unfolding finish
  prepared-Arrives release e prepared =
      let (k, there) = prepared.0.0.4 in
      let old = e₀.current in
      let Y : ℕ → Type 0 = λ c. e₀.current ≡ some c in
      let u = former e k in
      Ensures_bind (find_save_coro-Chosen r site this e₀ old Y e prepared k there release)
        λ sc chosen. Ensures_bind (occupy-Met r site this e₀ old Y e prepared k there) λ e₁ met.
          Ensures_bind (init_ctx-Met r site this e₀ old Y u e₁ met) λ e₂ met'.
            Ensures_bind (save_other-Entered r site this e₀ old u e₂ sc chosen met')
              λ e₃ entered. left old e₃ refl entered

module _ (r : ℕ) (site : CallSite) (this : ℕ) (e : CoroEnv) (settled : Settled e)
    (fit : SiteFits site e) (live : Has e.coros this) (spare : Spares r site e.coros this) where
  main_current : (ensure_main e).current ≡ e.current
  unfolding ensure_main
  main_current = ground arith

  resume-Arrives : (release : Bool) → Ensures (Arrives r site this e) (resume this release site e)
  unfolding resume finish
  resume-Arrives release =
      let old = e.current in
      let Y : ℕ → Type 0 = λ c. e.current ≡ some c in
      Ensures_bind
        (push_current-Ready r site this e old Y release (ensure_main e) main_current
          (ensure_main-Ready r site this e settled fit live spare))
        λ e₁ ready. Ensures_bind (set_current-Ready r site this e old Y e₁ ready) λ e₂ (ready', is).
          Ensures_bind
            (assign_stack-Prepared r site this e old (λ c. Y c ⊎ (c ≡ this)) e₂ ready' is)
            λ e₃ prepared.
              prepared-Arrives r site this e release e₃ (collapse r site this e Y old e₃ prepared)

  -- A switch to the coroutine `this` from a settled thread comes to an end, and the thread is settled
  -- again: `this` runs, with the bytes that it was suspended with, and all other suspended coroutines
  -- keep theirs, in a buffer or in their place, whether they share the stack or not. All but the `r`
  -- uppermost bytes are meant, where a context that `coro_create` makes takes at most `r`. `this`
  -- exists, and the call site fits the thread.
  pub switch_to-Switched :
      (release : Bool) → Ensures (Switched r site.frame this e) (switch_to this release site e)
  unfolding switch_to
  switch_to-Switched release = Ensures_bind (resume-Arrives release) λ e₁ arrives. arrives
