-- ===== src/LibCoro/Safety/Start.antt =====
-- The beginning of `Resume` (libcoro.cpp): the thread's own coroutine, the stack of coroutines, and
-- the change of `current`.
use coroxx.Base.{
  ℕ, ◌≤◌, length, ◌≡◌, refl, ◌⊎◌, inl, inr, Bool, true, false, not, ◌&&◌, Option, none, some,
  some_injective, ◌∷◌, arith, subst, sym, ap, ◌∙◌, if◌then◌else◌, Option-cases, Ensures, result,
}
use coroxx.Base.Store.{update, update_cases, update_self}
use coroxx.CoroBase.{empty}
use coroxx.LibCoro.Objects.{CoroStack, LibCoroCoroutine, CoroEnv, CallSite, new_coro}
use coroxx.LibCoro.Layout.{Coros, Stacks, On, Laws}
use coroxx.LibCoro.Layout.Change.{Kept-any, On-before}
use coroxx.LibCoro.Layout.Grow.{create_Laws, create_Kept}
use coroxx.LibCoro.Safety.{Nobody, Has, Quiet, Settled, Fresh, Framed, SiteFits, Spares, Stage}
use coroxx.LibCoro.Safety.Parts.{
  Framed-update, Has-update, Alive-update, Quiet-update, flags_AtSelf, Stage-change, widen,
}
use coroxx.LibCoro.Switch.{ensure_main, push_current, set_current}

-- The stack of the coroutine that runs serves it.
abbrev pub Serving : Coros → Stacks → Option ℕ → (ℕ → Type 0) → Type 0
Serving coros stacks old X =
    (c s : ℕ) (k : LibCoroCoroutine) (st : CoroStack)
    → old ≡ some c
    → On coros stacks c s k st
    → (st.coro ≡ some c) ⊎ X c

module _ (r : ℕ) (site : CallSite) (this : ℕ) (e₀ : CoroEnv) (old : Option ℕ) where
  -- Before `this` has a stack. `Y` are the coroutines that run.
  abbrev pub Ready : (ℕ → Type 0) → CoroEnv → Type 0
  Ready Y e =
      Stage r site this e₀ Nobody Nobody Y Nobody e
      × Quiet e.coros old
      × Fresh site e.stacks e.stack_size
      × Framed r site.frame e₀ old e.coros e.stacks e.mem
      × Serving e.coros e.stacks old Nobody
      × Spares r site e.coros this
      × ((m : ℕ) × (e.main ≡ some m))

module _ (r : ℕ) (site : CallSite) (this : ℕ) (e : CoroEnv) (settled : Settled e)
    (fit : SiteFits site e) (live : Has e.coros this) (spare : Spares r site e.coros this) where
  abbrev Runs : ℕ → Type 0
  Runs c = e.current ≡ some c

  -- The coroutine that runs has no buffer: its stack serves it.
  running_clean :
      (c : ℕ) (k : LibCoroCoroutine)
      → e.current ≡ some c
      → e.coros c ≡ some k
      → k.save_buffer ≡ none
  running_clean c k runs there = elim (Option-cases k.save_buffer) [
    | inl p ↦ p
    | inr (bytes, p) ↦
        let w = settled.laws.saved c k bytes there p in
        elim (settled.laws.users c w.number k w.stack w.on
          (settled.serving c w.number k w.stack runs w.on)) [ inl q ↦ q | inr z ↦ absurd z ]
  ]

  unchanged : (m : ℕ) → e.main ≡ some m → Ready r site this e e.current Runs e
  unchanged m is = (
    (settled.laws, λ c at size img b w. w, settled.alive, fit.roomy, live),
    record {
      old_live = settled.current_live;
      clean = running_clean;
      inited = settled.inited;
      first = settled.first;
    },
    fit.fresh,
    own_frame,
    λ c s k st h on. inl (settled.serving c s k st h on),
    spare,
    (m, is),
  )
    where
      own_frame : Framed r site.frame e e.current e.coros e.stacks e.mem
      own_frame = record {
        place = λ c s k st p on. record {
          low = (fit.frame c s k st p on).0;
          high = (fit.frame c s k st p on).1;
          former = k;
          former_stack = st;
          on = on;
          same_sptr = refl;
          same_ssze = refl;
          same_shared = refl;
          bytes = λ x a b. refl;
        };
        stays = λ c k p w. (k, w, refl);
      }

  started_main :
      e.current ≡ none
      → e.main ≡ none
      → Ready r site this e e.current Runs
          (record (new_coro true e) { main = some e.g_coro_id_seed })
  unfolding new_coro
  started_main none_runs no_main =
      let k' : LibCoroCoroutine = main_coroutine in
      let seed = e.g_coro_id_seed in
      (
        (
          create_Laws settled.laws k' refl refl (inl refl),
          λ c at size img b w. create_Kept settled.laws k' refl refl (inl refl) w,
          record {
            main_live = λ m q. (
              k',
              ap (update e.coros seed (some k')) (some_injective (sym q))
                  ∙ update_self e.coros seed (some k'),
            );
            stacked = (Alive-update seed k' settled.alive).stacked;
            pooled = settled.alive.pooled;
          },
          fit.roomy,
          Has-update e.coros seed this k' live,
        ),
        record {
          old_live = λ c q. cc;
          clean = λ c k q. cc;
          inited = λ c k q. cc;
          first = λ q c k w. elim (update_cases e.coros seed c (some k') (some k) w) [
            | inl (p, x) ↦
                subst (λ (y : LibCoroCoroutine). (y.save_buffer ≡ none) × (y.stack_sp ≡ none))
                  (some_injective x) (refl, refl)
            | inr (n, x) ↦ settled.first q c k x
          ];
        },
        fit.fresh,
        record { place = λ c s k st q on. cc; stays = λ c k q w. cc },
        λ c s k st q. cc,
        λ k w. elim (update_cases e.coros seed this (some k') (some k) w) [
          | inl (p, x) ↦ inl (ap (λ y. y.ctx_inited) (sym (some_injective x)))
          | inr (n, x) ↦ spare k x
        ],
        (seed, refl),
      )
    where
      main_coroutine : LibCoroCoroutine
      main_coroutine = record {
        stack = none;
        data_ctx = record { func = empty; arg = none; coro = some e.g_coro_id_seed };
        ctx_inited = true;
        waiting = false;
        save_buffer = none;
        save_buffer_size = 0;
        stack_sp = none;
      }

  known_main : (m : ℕ) → e.main ≡ some m → ensure_main e ≡ e
  unfolding ensure_main
  known_main m q = ground arith

  running_main : (c : ℕ) → e.current ≡ some c → ensure_main e ≡ e
  unfolding ensure_main
  running_main m q = ground arith

  new_main :
      e.current ≡ none
      → e.main ≡ none
      → ensure_main e ≡ record (new_coro true e) { main = some e.g_coro_id_seed }
  unfolding ensure_main
  new_main p q = ground arith

  pub ensure_main-Ready : Ready r site this e e.current Runs (ensure_main e)
  ensure_main-Ready = elim (Option-cases e.current) [
    | inr (c, p) ↦
        let (m, q) = settled.has_main c p in
        subst (Ready r site this e e.current Runs) (sym (running_main c p)) (unchanged m q)
    | inl p ↦ elim (Option-cases e.main) [
      | inr (m, q) ↦
          subst (Ready r site this e e.current Runs) (sym (known_main m q)) (unchanged m q)
      | inl q ↦ subst (Ready r site this e e.current Runs) (sym (new_main p q)) (started_main p q)
    ]
  ]

module _ (r : ℕ) (site : CallSite) (this : ℕ) (e₀ : CoroEnv) (old : Option ℕ) (Y : ℕ → Type 0) where
  pushed : CoroEnv → ℕ → CoroEnv
  pushed e c = record e { coro_stack = c ∷ e.coro_stack }

  pushed-Ready :
      (e : CoroEnv) (c : ℕ)
      → Has e.coros c
      → Ready r site this e₀ old Y e
      → Ready r site this e₀ old Y (pushed e c)
  unfolding pushed
  pushed-Ready e c has
        ((laws, keeps, alive, roomy, live), quiet, fresh, frame, serving, spare, main) =
      (
        (
          laws,
          keeps,
          record {
            main_live = alive.main_live;
            stacked = (has, alive.stacked);
            pooled = alive.pooled;
          },
          roomy,
          live,
        ),
        quiet,
        fresh,
        frame,
        serving,
        spare,
        main,
      )

  push_none : (release : Bool) (e : CoroEnv) → e.current ≡ none → push_current release e ≡ some e
  unfolding push_current
  push_none release e p = ground arith

  push_some :
      (release : Bool) (e : CoroEnv) (c : ℕ) (k : LibCoroCoroutine)
      → e.current ≡ some c
      → e.coros c ≡ some k
      → push_current release e ≡ some (if not k.waiting && not release then pushed e c else e)
  unfolding push_current pushed
  push_some release e c k p q = ground arith

  pub push_current-Ready :
      (release : Bool) (e : CoroEnv)
      → e.current ≡ old
      → Ready r site this e₀ old Y e
      → Ensures (Ready r site this e₀ old Y) (push_current release e)
  push_current-Ready release e is ready = elim (Option-cases e.current) [
    | inl p ↦
        subst (Ensures (Ready r site this e₀ old Y)) (sym (push_none release e p)) (result e ready)
    | inr (c, p) ↦
        let (k, q) = ready.1.old_live c (sym is ∙ p) in
        subst (Ensures (Ready r site this e₀ old Y)) (sym (push_some release e c k p q))
          (elim (not k.waiting && not release)
            as (λ b. Ensures (Ready r site this e₀ old Y) (some (if b then pushed e c else e))) [
              | true ↦ result (pushed e c) (pushed-Ready e c (k, q) ready)
              | false ↦ result e ready
            ])
  ]

  switched : CoroEnv → LibCoroCoroutine → CoroEnv
  switched e k = record e {
    coros = update e.coros this (some (record k { waiting = false }));
    current = some this;
  }

  set_current_lem :
      (e : CoroEnv) (k : LibCoroCoroutine)
      → e.coros this ≡ some k
      → set_current this e ≡ some (switched e k)
  unfolding set_current switched
  set_current_lem e k q = ground arith

  -- The coroutines that run are now `this` too.
  abbrev Y' : ℕ → Type 0
  Y' c = Y c ⊎ (c ≡ this)

  switched-Ready :
      (e : CoroEnv) (k : LibCoroCoroutine)
      → e.coros this ≡ some k
      → Ready r site this e₀ old Y e
      → Ready r site this e₀ old Y' (switched e k)
  unfolding switched
  switched-Ready e k there (stage, quiet, fresh, frame, serving, spare, main) =
      let k' : LibCoroCoroutine = record k { waiting = false } in
      (
        Stage-change r site this e₀ e this k k' e.mem there refl stage
            (flags_AtSelf this k k' there refl refl refl refl wider (stage.0.started this k there))
            (λ c n. (λ x. x, λ y. inl y, λ z. z))
            (λ c at size img b.
              (b, λ w. Kept-any e.coros e.stacks this k k' there refl refl refl refl w)),
        Quiet-update this k' (λ p. (quiet.clean this k p there, quiet.inited this k p there))
            (λ p. quiet.first p this k there) quiet,
        fresh,
        Framed-update this k k' there refl frame,
        λ c s k'' st p on. let (k₁, on') = before on in serving c s k₁ st p on',
        λ k'' w. elim (update_cases e.coros this this (some k') (some k'') w) [
          | inl (p, x) ↦
              subst (λ y. (y.ctx_inited ≡ true) ⊎ (length site.coro_create ≤ r)) (some_injective x)
                (spare k there)
          | inr (n, x) ↦ absurd (n refl)
        ],
        main,
      )
    where
      wider : Laws Nobody Y' Nobody e.coros e.stacks e.next_stack e.g_coro_id_seed
      wider =
          widen stage.0 (λ c s k'' st on x q. absurd x) (λ c s k st on q y. inl y)
            (λ c s k'' st on z. absurd z)

      before :
          {c s : ℕ} {k'' : LibCoroCoroutine} {st : CoroStack}
          → On (update e.coros this (some (record k { waiting = false }))) e.stacks c s k'' st
          → (k₁ : LibCoroCoroutine) × On e.coros e.stacks c s k₁ st
      before on = On-before e.coros e.stacks this k (record k { waiting = false }) there refl on

  pub set_current-Ready :
      (e : CoroEnv)
      → Ready r site this e₀ old Y e
      → Ensures
          (λ e'. Ready r site this e₀ old Y' e' × (e'.current ≡ some this))
          (set_current this e)
  unfolding switched
  set_current-Ready e ready =
      let (k, q) = ready.0.4 in
      subst (Ensures (λ e'. Ready r site this e₀ old Y' e' × (e'.current ≡ some this)))
        (sym (set_current_lem e k q)) (result (switched e k) (switched-Ready e k q ready, refl))
