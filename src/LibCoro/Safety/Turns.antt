-- ===== src/LibCoro/Safety/Turns.antt =====
-- `Yield` and `Wait` of libcoro.cpp, from a settled thread to a settled thread.
use coroxx.Base.{
  ℕ, ◌≡◌, refl, ◌⊎◌, inl, inr, Bool, true, false, Option, none, some, some_injective, List, [], ◌∷◌,
  arith, subst, ap, sym, ◌∙◌, Ensures, Ensures_mono, List-cases, All, ◌≤◌, length,
}
use coroxx.Base.Store.{update_cases}
use coroxx.LibCoro.Objects.{LibCoroCoroutine, CoroEnv, CoroStack, CallSite, set_coro}
use coroxx.LibCoro.Layout.{Kept, On}
use coroxx.LibCoro.Layout.Change.{On-before, Kept-any, change}
use coroxx.LibCoro.Safety.{Settled, Has, SiteFits, Spares}
use coroxx.Base.{◌-◌, ◌+◌}
use coroxx.Base.Store.{read_block}
use coroxx.LibCoro.Layout.Change.{On-any}
use coroxx.LibCoro.Safety.Parts.{Has-update, Alive-update, flags_AtSelf}
use coroxx.LibCoro.Safety.Leave.{Switched}
use coroxx.LibCoro.Safety.Switching.{switch_to-Switched}
use coroxx.LibCoro.Switch.{switch_to, yield_coro, wait}

-- Where `Yield` goes: to the coroutine on top of the stack of coroutines, else to the thread's own.
abbrev pub target : CoroEnv → Option ℕ
target e = elim e.coro_stack [ [] ↦ e.main | next ∷ rest ↦ some next ]

popped-Settled :
    (e : CoroEnv) (next : ℕ) (rest : List ℕ)
    → e.coro_stack ≡ next ∷ rest
    → Settled e
    → Settled (record e { coro_stack = rest }) × Has e.coros next
popped-Settled e next rest q w =
    let (has, others) = subst (All (Has e.coros)) q w.alive.stacked in
    (
      record {
        laws = w.laws;
        alive = record { main_live = w.alive.main_live; stacked = others; pooled = w.alive.pooled };
        current_live = w.current_live;
        serving = w.serving;
        inited = w.inited;
        has_main = w.has_main;
        first = w.first;
      },
      has,
    )

-- A switch from a state with the same coroutines, stacks and bytes.
Switched-from :
    {r frame this : ℕ} {e e' d : CoroEnv}
    → e.current ≡ e'.current
    → e.mem ≡ e'.mem
    → ((c s : ℕ) (k : LibCoroCoroutine) (st : CoroStack)
        → On e'.coros e'.stacks c s k st
        → (k₁ : LibCoroCoroutine) × On e.coros e.stacks c s k₁ st)
    → ((c at size : ℕ) (img : List ℕ)
        → Kept r e'.coros e'.stacks e'.mem c at size img
        → Kept r e.coros e.stacks e.mem c at size img)
    → Switched r frame this e d
    → Switched r frame this e' d
Switched-from {r} {frame} {this} {e} {e'} {d} same mem g f w = record {
  settled = w.settled;
  current = w.current;
  running = w.running;
  others =
      λ c at size img n m k. w.others c at size img (λ q. n (sym same ∙ q)) m (f c at size img k);
  back = λ at size img n k. w.back at size img (λ q. n (sym same ∙ q)) (f this at size img k);
  departed = λ c p n s k st on shared.
      let (k₁, on') = g c s k st on in
      subst
        (λ m.
          Kept r d.coros d.stacks d.mem c frame (st.sptr + st.ssze - frame)
            (read_block m frame (st.sptr + st.ssze - frame - r)))
        mem (w.departed c (same ∙ p) n s k₁ st on' shared);
}

module _ (r : ℕ) (site : CallSite) (this : ℕ) (e : CoroEnv) (settled : Settled e)
    (fit : SiteFits site e) (spare : Spares r site e.coros this) where
  yield_main :
      (release : Bool)
      → e.coro_stack ≡ []
      → e.main ≡ some this
      → yield_coro release site e ≡ switch_to this release site e
  unfolding yield_coro
  yield_main release p q = ground arith

  yield_next :
      (release : Bool) (rest : List ℕ)
      → e.coro_stack ≡ this ∷ rest
      → yield_coro release site e ≡ switch_to this release site (record e { coro_stack = rest })
  unfolding yield_coro
  yield_next release rest p = ground arith

  -- `Yield` of a settled thread resumes the coroutine on top of the stack of coroutines, or the
  -- thread's own if that is empty, with the bytes that it was suspended with; the thread is settled
  -- again and all other suspended coroutines keep their bytes. The call site fits the thread.
  pub yield_coro-Switched :
      target e ≡ some this
      → (release : Bool) → Ensures (Switched r site.frame this e) (yield_coro release site e)
  yield_coro-Switched q release = elim (List-cases e.coro_stack) [
    | inl p ↦
        let main : e.main ≡ some this = ground arith in
        subst (Ensures (Switched r site.frame this e)) (sym (yield_main release p main)) (
          switch_to-Switched r site this e settled fit (settled.alive.main_live this main) spare
            release)
    | inr (next, rest, p) ↦
        let is : next ≡ this = ground arith in
        let p' : e.coro_stack ≡ this ∷ rest = p ∙ ap (λ n. n ∷ rest) is in
        let (settled', has) = popped-Settled e this rest p' settled in
        subst (Ensures (Switched r site.frame this e)) (sym (yield_next release rest p')) (
          Ensures_mono
            (switch_to-Switched r site this (record e { coro_stack = rest }) settled'
              (record { frame = fit.frame; fresh = fit.fresh; roomy = fit.roomy }) has spare
              release)
            λ d w.
              Switched-from {e = record e { coro_stack = rest }} {e' = e} refl refl
                (λ c s k st on. (k, on)) (λ c at size img k. k) w)
  ]

module _ (r : ℕ) (site : CallSite) (this : ℕ) (e : CoroEnv) (settled : Settled e)
    (fit : SiteFits site e) (spare : Spares r site e.coros this) (c : ℕ) (k : LibCoroCoroutine)
    (there : e.coros c ≡ some k) where
  waiting : CoroEnv
  waiting = set_coro c (record k { waiting = true }) e

  On-waiting :
      {x s : ℕ} {k₁ : LibCoroCoroutine} {st : CoroStack}
      → On waiting.coros e.stacks x s k₁ st
      → (k₂ : LibCoroCoroutine) × On e.coros e.stacks x s k₂ st
  unfolding waiting
  On-waiting on = On-before e.coros e.stacks c k (record k { waiting = true }) there refl on

  -- A flag of a coroutine.
  field_waiting :
      (P : LibCoroCoroutine → Type 0) (x : ℕ)
      → (P k → P (record k { waiting = true }))
      → ((k₁ : LibCoroCoroutine) → e.coros x ≡ some k₁ → P k₁)
      → (k₁ : LibCoroCoroutine) → waiting.coros x ≡ some k₁
      → P k₁
  unfolding waiting
  field_waiting P x f h k₁ q =
      elim (update_cases e.coros c x (some (record k { waiting = true })) (some k₁) q) [
        | inl (p, y) ↦ subst P (some_injective y) (f (h k (ap e.coros p ∙ there)))
        | inr (n, y) ↦ h k₁ y
      ]

  waiting-Settled : Settled waiting
  unfolding waiting
  waiting-Settled =
      let k' : LibCoroCoroutine = record k { waiting = true } in
      record {
        laws =
            change e.coros e.stacks c k k' there refl settled.laws
              (flags_AtSelf c k k' there refl refl refl refl settled.laws
                (settled.laws.started c k there))
              (λ x n. (λ z. z, λ y. y, λ z. z));
        alive = Alive-update c k' settled.alive;
        current_live = λ x q. Has-update e.coros c x k' (settled.current_live x q);
        serving =
            λ x s k₁ st q on. let (k₂, on') = On-waiting on in settled.serving x s k₂ st q on';
        inited = λ x k₁ q w.
            field_waiting (λ y. y.ctx_inited ≡ true) x (λ z. z) (λ k₂ v. settled.inited x k₂ q v) k₁
              w;
        has_main = settled.has_main;
        first = λ q x k₁ w.
            field_waiting (λ y. (y.save_buffer ≡ none) × (y.stack_sp ≡ none)) x (λ z. z)
              (λ k₂ v. settled.first q x k₂ v) k₁ w;
      }

  waiting-Fits : SiteFits site waiting
  unfolding waiting
  waiting-Fits = record {
    frame = λ x s k₁ st q on. let (k₂, on') = On-waiting on in fit.frame x s k₂ st q on';
    fresh = fit.fresh;
    roomy = fit.roomy;
  }

  waiting-Spares : Spares r site waiting.coros this
  unfolding waiting
  waiting-Spares k₁ q =
      field_waiting (λ y. (y.ctx_inited ≡ true) ⊎ (length site.coro_create ≤ r)) this (λ z. z) spare
        k₁ q

  wait_lem : wait c site e ≡ yield_coro false site waiting
  unfolding wait waiting
  wait_lem = ground arith

  -- `Wait` of a coroutine `c` switches as `Yield` does, under the same conditions.
  pub wait-Switched : target e ≡ some this → Ensures (Switched r site.frame this e) (wait c site e)
  unfolding waiting
  wait-Switched q = subst (Ensures (Switched r site.frame this e)) (sym wait_lem) (
      Ensures_mono
        (yield_coro-Switched r site this waiting waiting-Settled waiting-Fits waiting-Spares q
          false)
        λ d w.
          Switched-from {e = waiting} {e' = e} refl refl
            (λ x s k₁ st on.
              On-any e.coros e.stacks c k (record k { waiting = true }) there refl on)
            (λ x at size img h.
              Kept-any e.coros e.stacks c k (record k { waiting = true }) there refl refl refl refl
                h)
            w)
