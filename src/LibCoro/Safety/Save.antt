-- ===== src/LibCoro/Safety/Save.antt =====
-- `coro_create` in `Resume`, and the copy of the former user's bytes (libcoro.cpp).
use coroxx.Base.{
  ℕ, ◌+◌, ◌-◌, ◌≤◌, ◌<◌, length, ◌≡◌, refl, ◌≢◌, ◌⊎◌, inl, inr, true, false, Option, none, some,
  some_injective, arith, subst, sym, ap, ◌∙◌, Bool-cases, Ensures, result, same_pointer,
  same_pointer→eq, same_pointer_refl, eq-or-ne,
}
use coroxx.Base.Store.{
  write_block_outside, update, update_cases, update_ne, write_block, read_block, length-read_block,
}
use coroxx.LibCoro.Objects.{CoroStack, LibCoroCoroutine, CoroEnv, CallSite, set_coro}
use coroxx.LibCoro.Buffer.{save_stack_buffer}
use coroxx.LibCoro.Layout.{Coros, Stacks, On, Parked}
use coroxx.LibCoro.Layout.Change.{Kept-any, On-before, On-other, On-any}
use coroxx.LibCoro.Layout.Bytes.{write_Kept, save_Kept}
use coroxx.LibCoro.Safety.{Nobody, Quiet, Framed, Stage}
use coroxx.LibCoro.Safety.Parts.{
  Framed-update, Framed-mem, widen, flags_AtSelf, Stage-change, Quiet-update, On-unique,
  Parked_flags,
}
use coroxx.LibCoro.Safety.Enter.{Met, Taken, Shares, Inited, Chosen}
use coroxx.LibCoro.Switch.{create_frame, init_ctx, save_other}

-- A change of another coroutine's marks leaves it where it is.
Shares-update :
    {coros : Coros} {stacks : Stacks} {c this : ℕ} (c₀ : ℕ) (k₀ k' : LibCoroCoroutine)
    → coros c₀ ≡ some k₀
    → k'.stack ≡ k₀.stack
    → c ≢ c₀
    → Shares coros stacks c this
    → Shares (update coros c₀ (some k')) stacks c this
Shares-update {coros} {stacks} {c} {this} c₀ k₀ k' there same n w =
    let (mine, on) = On-any coros stacks c₀ k₀ k' there same w.on_mine in
    record {
      number = w.number;
      other = w.other;
      mine = mine;
      stack = w.stack;
      on_other = On-other coros stacks c₀ k₀ k' there same n w.on_other;
      on_mine = on;
      bare = w.bare;
    }

module _ (r : ℕ) (site : CallSite) (this : ℕ) (e₀ : CoroEnv) (old : Option ℕ) (Y : ℕ → Type 0)
    (u : Option ℕ) where
  created : CoroEnv → LibCoroCoroutine → CoroStack → CoroEnv
  unfolding create_frame
  created e k st = set_coro this (record k { ctx_inited = true }) (create_frame site st e)

  init_done :
      (e : CoroEnv) (k : LibCoroCoroutine)
      → e.coros this ≡ some k
      → k.ctx_inited ≡ true
      → init_ctx this site e ≡ some e
  unfolding init_ctx
  init_done e k p q = ground arith

  init_new :
      (e : CoroEnv) (k : LibCoroCoroutine) (s : ℕ) (st : CoroStack)
      → e.coros this ≡ some k
      → k.ctx_inited ≡ false
      → k.stack ≡ some s
      → e.stacks s ≡ some st
      → init_ctx this site e ≡ some (created e k st)
  unfolding init_ctx created
  init_new e k s st p q h l = ground arith

  created-Met :
      (e : CoroEnv) (k : LibCoroCoroutine) (s : ℕ) (st : CoroStack)
      → e.coros this ≡ some k
      → k.ctx_inited ≡ false
      → k.stack ≡ some s
      → e.stacks s ≡ some st
      → Met r site this e₀ old Y u e
      → Met r site this e₀ old Y u (created e k st)
  unfolding created
  created-Met e k s st there new h l
        ((stage, quiet, frame, spare, main, current), taken, shares, has) =
      let k' : LibCoroCoroutine = record k { ctx_inited = true } in
      (
        (
          Stage-change r site this e₀ e this k k'
              (write_block e.mem (st.sptr + st.ssze - length site.coro_create) site.coro_create)
              there refl stage (flags_AtSelf this k k' there refl refl refl refl stage.0 (inl refl))
              (λ c n. (λ x. x, λ y. y, λ z. z))
              (λ c at size img b. (
                b,
                λ w. Kept-any e.coros e.stacks this k k' there refl refl refl refl (
                    write_Kept stage.0 s st l _ site.coro_create low high e.mem
                      (λ k₁ st₁. below {c₁ = c} k₁ st₁) w),
              )),
          Quiet-update this k' (λ p. (quiet.clean this k p there, refl))
              (λ p. quiet.first p this k there) quiet,
          Framed-update this k k' there refl (
              Framed-mem
                (write_block e.mem (st.sptr + st.ssze - length site.coro_create) site.coro_create)
                (λ c s₁ k₁ st₁ p on x a b.
                  write_block_outside e.mem _ x site.coro_create (beside s₁ k₁ st₁ on x a b))
                frame),
          λ k'' w. elim (update_cases e.coros this this (some k') (some k'') w) [
            | inl (p, x) ↦ inl (ap (λ y. y.ctx_inited) (sym (some_injective x)))
            | inr (n, x) ↦ absurd (n refl)
          ],
          main,
          current,
        ),
        λ s k'' st on.
            let (k₁, on') = On-before e.coros e.stacks this k k' there refl on in taken s k₁ st on',
        λ c p n. Shares-update this k k' there refl n (shares c p n),
        λ k'' w. elim (update_cases e.coros this this (some k') (some k'') w) [
          | inl (p, x) ↦ inl (ap (λ y. y.ctx_inited) (sym (some_injective x)))
          | inr (n, x) ↦ absurd (n refl)
        ],
      )
    where
      room : length site.coro_create ≤ st.ssze
      room = stage.3 s st l

      low : st.sptr ≤ st.sptr + st.ssze - length site.coro_create
      low = omega (arith, room)

      high :
          st.sptr + st.ssze - length site.coro_create + length site.coro_create ≤ st.sptr + st.ssze
      high = omega (arith, room)

      -- What is not among the uppermost bytes of a stack stays.
      beside :
          {c₁ : ℕ} (s₁ : ℕ) (k₁ : LibCoroCoroutine) (st₁ : CoroStack)
          → On e.coros e.stacks c₁ s₁ k₁ st₁
          → (x : ℕ) → st₁.sptr ≤ x
          → x < st₁.sptr + st₁.ssze - r
          → (x < st.sptr + st.ssze - length site.coro_create)
            ⊎ (st.sptr + st.ssze - length site.coro_create + length site.coro_create ≤ x)
      beside s₁ k₁ st₁ on x a b = elim (eq-or-ne s₁ s) [
        | inl p ↦
            let same : st₁ ≡ st = some_injective (sym on.live ∙ ap e.stacks p ∙ l) in
            ground (arith, spare k there, room)
        | inr n ↦ ground (arith, stage.0.apart s₁ s st₁ st n on.live l, room)
      ]

      below :
          {c₁ : ℕ} (k₁ : LibCoroCoroutine) (st₁ : CoroStack)
          → On e.coros e.stacks c₁ s k₁ st₁
          → k₁.save_buffer ≡ none
          → (p : Parked st₁ k₁) (x : ℕ) → p.sp ≤ x
          → x < p.sp + (k₁.save_buffer_size - r)
          → x < st.sptr + st.ssze - length site.coro_create
      below {c₁} k₁ st₁ on bare p x a b =
          let same : st₁ ≡ st = some_injective (sym on.live ∙ l) in
          ground (arith, spare k there, p.exact, room)

  created-Inited :
      (e : CoroEnv) (k : LibCoroCoroutine) (st : CoroStack) → Inited (created e k st).coros this
  unfolding created
  created-Inited e k st k'' w =
      elim (update_cases e.coros this this (some (record k { ctx_inited = true })) (some k'') w) [
        | inl (p, x) ↦ ap (λ y. y.ctx_inited) (sym (some_injective x))
        | inr (n, x) ↦ absurd (n refl)
      ]

  pub init_ctx-Met :
      (e : CoroEnv)
      → Met r site this e₀ old Y u e
      → Ensures (λ e'. Met r site this e₀ old Y u e' × Inited e'.coros this) (init_ctx this site e)
  init_ctx-Met e met =
      let (k, there) = met.0.0.4 in
      elim (Bool-cases k.ctx_inited) [
        | inl p ↦
            subst (Ensures (λ e'. Met r site this e₀ old Y u e' × Inited e'.coros this))
              (sym (init_done e k there p))
              (result e (met, λ k' q. ap (λ y. y.ctx_inited) (some_injective (sym q ∙ there)) ∙ p))
        | inr p ↦ elim (met.3 k there) [
          | inl q ↦ cc
          | inr (s, q) ↦
              let (st, l) = met.0.0.0.live_stack this s k there q in
              subst (Ensures (λ e'. Met r site this e₀ old Y u e' × Inited e'.coros this))
                (sym (init_new e k s st there p q l))
                (result (created e k st)
                  (created-Met e k s st there p q l met, created-Inited e k st))
        ]
      ]

module _ (r : ℕ) (site : CallSite) (this : ℕ) (e₀ : CoroEnv) (old : Option ℕ) (u : Option ℕ) where
  -- The coroutine that runs, if it is on the stack of `this`.
  abbrev pub Behind : CoroEnv → ℕ → Type 0
  Behind e c = (old ≡ some c) × (c ≢ this) × Shares e.coros e.stacks c this

  abbrev pub Running : ℕ → Type 0
  Running c = (old ≡ some c) ⊎ (c ≡ this)

  -- All but the coroutine that runs are in their buffers or on stacks that serve them.
  abbrev pub Entered : CoroEnv → Type 0
  Entered e =
      Stage r site this e₀ Nobody (Behind e) Running (λ c. Nobody c ⊎ (c ≡ this)) e
      × Quiet e.coros old
      × Framed r site.frame e₀ old e.coros e.stacks e.mem
      × ((m : ℕ) × (e.main ≡ some m))
      × (e.current ≡ some this)
      × Taken e.coros e.stacks this
      × Inited e.coros this

  abbrev pub Met' : CoroEnv → Type 0
  Met' e = Met r site this e₀ old (λ c. old ≡ some c) u e × Inited e.coros this

  -- Nobody else has to be saved.
  met-Entered :
      (e : CoroEnv) → Met' e → ((c : ℕ) → u ≡ some c → (c ≡ this) ⊎ (old ≡ some c)) → Entered e
  met-Entered e
        (
          (
            ((laws, keeps, alive, roomy, live), quiet, frame, spare, main, current),
            taken,
            shares,
            has,
          ),
          inited,
        )
        all =
      (
        (
          widen laws
              (λ c s k st on is q. elim (eq-or-ne c this) [
                | inl p ↦ inl (
                    taken s k st (subst (λ x. On e.coros e.stacks x s k st) p on) ∙ ap some (sym p))
                | inr n ↦ elim (all c is) [
                  | inl p ↦ absurd (n p)
                  | inr p ↦ inr (p, n, shares c is n)
                ]
              ])
              (λ c s k st on q y. y) (λ c s k st on z. inr z),
          keeps,
          alive,
          roomy,
          live,
        ),
        quiet,
        frame,
        main,
        current,
        taken,
        inited,
      )

  saved_other : CoroEnv → ℕ → LibCoroCoroutine → ℕ → CoroEnv
  saved_other e o k sp =
      set_coro o (record k { save_buffer = some (read_block e.mem sp k.save_buffer_size) }) e

  save_one :
      (e : CoroEnv) (o s : ℕ) (k : LibCoroCoroutine) (st : CoroStack) (sp : ℕ)
      → On e.coros e.stacks o s k st
      → st.shared ≡ true
      → k.stack_sp ≡ some sp
      → save_stack_buffer o e ≡ some (saved_other e o k sp)
  unfolding save_stack_buffer saved_other
  save_one e o s k st sp on h m = ground (arith, on.coro, on.stack, on.live)

  saved-Entered :
      (e : CoroEnv) (o s : ℕ) (k : LibCoroCoroutine) (st : CoroStack) (parked : Parked st k)
      → On e.coros e.stacks o s k st
      → st.shared ≡ true
      → k.save_buffer ≡ none
      → u ≡ some o
      → o ≢ this
      → old ≢ some o
      → Met' e
      → Entered (saved_other e o k parked.sp)
  unfolding saved_other
  saved-Entered e o s k st parked on shared bare is n m
        (
          (
            ((laws, keeps, alive, roomy, live), quiet, frame, spare, main, current),
            taken,
            shares,
            has,
          ),
          inited,
        ) =
      let k' : LibCoroCoroutine = record k {
        save_buffer = some (read_block e.mem parked.sp k.save_buffer_size);
      } in
      let taken' : Taken (update e.coros o (some k')) e.stacks this = λ s' k'' st' on'.
        let (k₁, a) = On-before e.coros e.stacks o k k' on.coro refl on' in taken s' k₁ st' a in
      (
        Stage-change r site this e₀ e o k k' e.mem on.coro refl (laws, keeps, alive, roomy, live)
            (record {
              saved = λ bytes q. (
                s,
                st,
                on,
                shared,
                Parked_flags refl refl parked,
                ap length (some_injective (sym q))
                    ∙ length-read_block e.mem parked.sp k.save_buffer_size,
              );
              started = inl (running k on.coro parked);
              resident = λ s' st' a q. cc;
              suspended = λ s' st' a q. inl (Parked_flags refl refl (parked_on a));
              users = λ s' st' a q. absurd (n (some_injective (sym q ∙ mine s' st' a)));
            })
            (λ c d. (λ q. absurd (d (some_injective (sym q ∙ is))), λ y. y, λ z. z))
            (λ c at size img b. (
              b,
              λ w. save_Kept e.coros e.stacks o k on.coro parked.sp parked.marked bare e.mem w,
            )),
        Quiet-update o k' (λ p. absurd (m p))
            (λ p. cc ((quiet.first p o k on.coro).1, parked.marked)) quiet,
        Framed-update o k k' on.coro refl frame,
        main,
        current,
        taken',
        λ k'' w. inited k'' (sym (update_ne e.coros o this (some k') (λ p. n (sym p))) ∙ w),
      )
    where
      running : (k : LibCoroCoroutine) → e.coros o ≡ some k → Parked st k → k.ctx_inited ≡ true
      running k there p = elim (laws.started o k there) [
        | inl i ↦ i
        | inr (a, b) ↦ cc (a, p.marked)
      ]

      parked_on : {s' : ℕ} {st' : CoroStack} → On e.coros e.stacks o s' k st' → Parked st' k
      parked_on a = let (x, y, z) = On-unique on a in subst (λ t. Parked t k) z parked

      mine : (s' : ℕ) (st' : CoroStack) → On e.coros e.stacks o s' k st' → st'.coro ≡ some this
      mine s' st' a =
          let w = shares o is n in
          let (x, y, z) = On-unique w.on_other a in
          subst (λ (t : CoroStack). t.coro ≡ some this) z (taken w.number w.mine w.stack w.on_mine)

  saved_result :
      (e : CoroEnv) (o : ℕ)
      → u ≡ some o
      → o ≢ this
      → old ≢ some o
      → Met' e
      → Ensures Entered (save_stack_buffer o e)
  saved_result e o is n m met =
      let w = met.0.2 o is n in
      let laws = met.0.0.0.0 in
      elim (Bool-cases w.stack.shared) [
        | inr private ↦
            absurd
              (n (laws.alone o this w.number w.other w.mine w.stack w.on_other w.on_mine private))
        | inl shared ↦ elim (laws.suspended o w.number w.other w.stack w.on_other shared) [
          | inr (inl y) ↦ absurd (m y)
          | inr (inr y) ↦ absurd (n y)
          | inl parked ↦
              subst (Ensures Entered)
                (sym
                  (save_one e o w.number w.other w.stack parked.sp w.on_other shared parked.marked))
                (result (saved_other e o w.other parked.sp) (
                  saved-Entered e o w.number w.other w.stack parked w.on_other shared w.bare is n m
                    met))
        ]
      ]

  pub save_other-Entered :
      (e : CoroEnv) (sc : Option ℕ)
      → Chosen u sc this old
      → Met' e
      → Ensures Entered (save_other sc old e)
  unfolding save_other
  save_other-Entered e none chosen met = result e (met-Entered e met (chosen.1 refl))
  save_other-Entered e (some o) chosen met =
      let (is, n) = chosen.0 o refl in
      elim (Bool-cases (same_pointer old (some o))) [
        | inl p ↦
            let eq : save_other (some o) old e ≡ some e = ground arith in
            subst (Ensures Entered) (sym eq) (
              result e (met-Entered e met λ c q. inr (same_pointer→eq old (some o) p ∙ sym is ∙ q)))
        | inr p ↦
            let eq : save_other (some o) old e ≡ save_stack_buffer o e = ground arith in
            subst (Ensures Entered) (sym eq)
              (saved_result e o is n (λ q. cc (same_pointer_refl (some o), q, p)) met)
      ]
