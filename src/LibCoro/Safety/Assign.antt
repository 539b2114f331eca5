-- ===== src/LibCoro/Safety/Assign.antt =====
-- `GetCoroStack` and the part of `Resume` that gives a coroutine its stack (libcoro.cpp).
use coroxx.Base.{
  ℕ, ◌+◌, ◌≤◌, ◌<◌, length, ◌≡◌, refl, ◌≢◌, ◌⊎◌, inl, inr, Bool, true, false, Option, none, some,
  some_injective, List, [], ◌∷◌, arith, subst, sym, ap, ◌∙◌, Bool-cases, Option-cases, Ensures,
  result, ◌>>=◌, All-mono, All-append, All-get, get-of-lt, ltb, Ensures_bind, List-cases,
}
use coroxx.Base.Store.{update, update_cases, update_self}
use coroxx.LibCoro.Objects.{CoroStack, LibCoroCoroutine, CoroEnv, CallSite}
use coroxx.LibCoro.Layout.{On}
use coroxx.LibCoro.Layout.Grow.{
  extend_Laws, extend_Kept, assign_Laws, assign_Kept, stack_entry, On-less, On-before,
}
use coroxx.LibCoro.Safety.{Nobody, IsShared, Quiet, Framed, Spares, Stage}
use coroxx.LibCoro.Safety.Parts.{Has-update, Alive-update, Quiet-update, widen}
use coroxx.LibCoro.Safety.Start.{Ready}
use coroxx.LibCoro.Stacks.{
  make_stack, new_coro_stack, grow_pool, wrap_cursor, take_turn, get_coro_stack,
}
use coroxx.LibCoro.Switch.{assign_stack}

module _ (r : ℕ) (site : CallSite) (this : ℕ) (e₀ : CoroEnv) (old : Option ℕ) where
  -- `this` is the current coroutine. `X`, `Y` and `Z` are the exceptions of `Laws`.
  abbrev pub Placed : (ℕ → Type 0) → (ℕ → Type 0) → (ℕ → Type 0) → CoroEnv → Type 0
  Placed X Y Z e =
      Stage r site this e₀ Nobody X Y Z e
      × Quiet e.coros old
      × Framed r site.frame e₀ old e.coros e.stacks e.mem
      × Spares r site e.coros this
      × ((m : ℕ) × (e.main ≡ some m))
      × (e.current ≡ some this)

-- What `GetCoroStack` gives: a stack that may take one more coroutine.
abbrev pub Admits : CoroEnv → ℕ → Type 0
Admits e s =
    (st : CoroStack) × (e.stacks s ≡ some st)
    × ((st.shared ≡ true) ⊎ ((c : ℕ) (k : LibCoroCoroutine) → ¬ On e.coros e.stacks c s k st))

wrap_cursor-lt : (cursor size : ℕ) → 0 < size → wrap_cursor cursor size < size
unfolding wrap_cursor
wrap_cursor-lt cursor size h = ground arith

module _ (r : ℕ) (site : CallSite) (this : ℕ) (e₀ : CoroEnv) (old : Option ℕ) (Y : ℕ → Type 0)
    (e : CoroEnv) (ready : Ready r site this e₀ old Y e) (current : e.current ≡ some this) where
  extended :
      (shared : Bool) → Placed r site this e₀ old Nobody Y Nobody (new_coro_stack site shared e)
  unfolding new_coro_stack make_stack
  extended shared =
      let ((laws, keeps, alive, roomy, live), quiet, fresh, frame, serving, spare, main) = ready in
      let st : CoroStack = make_stack site e.stack_size shared in
      (
        (
          extend_Laws laws st refl fresh.fits fresh.apart,
          λ c at size img b w.
              extend_Kept laws st refl fresh.fits fresh.apart (keeps c at size img b w),
          record {
            main_live = alive.main_live;
            stacked = alive.stacked;
            pooled =
                All-mono e.pool
                  (λ s (x, q, h). (x, stack_entry laws st refl fresh.fits fresh.apart q, h))
                  alive.pooled;
          },
          λ s st' q. elim (update_cases e.stacks e.next_stack s (some st) (some st') q) [
            | inl (p, x) ↦
                subst (λ (y : CoroStack). length site.coro_create ≤ y.ssze) (some_injective x)
                  fresh.roomy
            | inr (n, x) ↦ roomy s st' x
          ],
          live,
        ),
        quiet,
        record {
          place = λ c s k st' p on.
              frame.place c s k st' p (On-less laws st refl fresh.fits fresh.apart on);
          stays = frame.stays;
        },
        spare,
        main,
        current,
      )

  new_stack :
      (shared : Bool)
      → (new_coro_stack site shared e).stacks e.next_stack
        ≡ some (make_stack site e.stack_size shared)
  unfolding new_coro_stack
  new_stack shared = update_self e.stacks e.next_stack (some (make_stack site e.stack_size shared))

  -- Nobody has the next stack.
  unused :
      (c : ℕ) (k : LibCoroCoroutine) (st : CoroStack)
      → ¬ On e.coros (new_coro_stack site false e).stacks c e.next_stack k st
  unfolding new_coro_stack
  unused c k st on =
      let (st', q) = ready.0.0.live_stack c e.next_stack k on.coro on.stack in
      absurd (omega (arith, ready.0.0.stack_numbers e.next_stack st' q))

  grown : Placed r site this e₀ old Nobody Y Nobody (grow_pool site e)
  unfolding grow_pool new_coro_stack make_stack
  grown =
      let ((laws, keeps, alive, roomy, live), quiet, frame, spare, main, current') =
        extended true in
      (
        (
          laws,
          keeps,
          record {
            main_live = alive.main_live;
            stacked = alive.stacked;
            pooled =
                All-append (IsShared (new_coro_stack site true e).stacks) e.pool (e.next_stack ∷ [])
                  alive.pooled ((make_stack site e.stack_size true, new_stack true, refl), tt);
          },
          roomy,
          live,
        ),
        quiet,
        frame,
        spare,
        main,
        current',
      )

  -- A stack that the pool or the system gives to `this`.
  abbrev Got : ℕ × CoroEnv → Type 0
  Got (s, e') = Placed r site this e₀ old Nobody Y Nobody e' × (e'.coros ≡ e.coros) × Admits e' s

  turn : (p : ℕ) (ps : List ℕ) → e.pool ≡ p ∷ ps → Ensures Got (take_turn e)
  unfolding take_turn
  turn p ps h =
      let idx = wrap_cursor e.cursor (length e.pool) in
      let (s, q) =
        get-of-lt e.pool idx
          (wrap_cursor-lt e.cursor (length e.pool) (omega (arith, ap length h))) in
      let e' : CoroEnv = record e { cursor = idx + 1 } in
      let (st, l, shared) = All-get (IsShared e.stacks) e.pool idx ready.0.2.pooled q in
      let eq : take_turn e ≡ some (s, e') = ground (arith, q) in
      subst (Ensures Got) (sym eq) (
        result (s, e')
          ((ready.0, ready.1, ready.3, ready.5, ready.6, current), refl, (st, l, inl shared)))

  pub get_coro_stack-Placed : Ensures Got (get_coro_stack site e)
  unfolding get_coro_stack
  get_coro_stack-Placed = elim (Bool-cases (ltb (length e.pool) e.share_stack_count)) [
    | inl h ↦
        let eq : get_coro_stack site e ≡ some (e.next_stack, grow_pool site e) = ground arith in
        subst (Ensures Got) (sym eq) (
          result (e.next_stack, grow_pool site e)
            (grown, refl, (make_stack site e.stack_size true, new_stack true, inl refl)))
    | inr h ↦ elim (List-cases e.pool) [
      | inl q ↦
          let eq : get_coro_stack site e ≡ some (e.next_stack, new_coro_stack site false e) =
            ground arith in
          subst (Ensures Got) (sym eq) (
            result (e.next_stack, new_coro_stack site false e)
              (
                extended false,
                refl,
                (
                  make_stack site e.stack_size false,
                  new_stack false,
                  inr (λ c k. unused c k (make_stack site e.stack_size false)),
                ),
              ))
      | inr (p, ps, q) ↦
          let eq : get_coro_stack site e ≡ take_turn e = ground arith in
          subst (Ensures Got) (sym eq) (turn p ps q)
    ]
  ]

given : ℕ → LibCoroCoroutine → ℕ × CoroEnv → CoroEnv
given this k (s, e') = record e' {
  coros = update e'.coros this (some (record k { stack = some s }));
}

-- `assign_stack` by the state of `this`.
module _ (site : CallSite) (this : ℕ) (e : CoroEnv) (k : LibCoroCoroutine)
    (there : e.coros this ≡ some k) where
  assign_none :
      (k.ctx_inited ≡ true) ⊎ ((s : ℕ) × (k.stack ≡ some s)) → assign_stack this site e ≡ some e
  unfolding assign_stack
  assign_none (inl p) = ground arith
  assign_none (inr (s, p)) = ground arith

  assign_some :
      k.ctx_inited ≡ false
      → k.stack ≡ none
      → assign_stack this site e ≡ (get_coro_stack site e >>= λ x. some (given this k x))
  unfolding assign_stack given
  assign_some p q = ground arith

module _ (r : ℕ) (site : CallSite) (this : ℕ) (e₀ : CoroEnv) (old : Option ℕ) (Y : ℕ → Type 0) where
  -- `this` has a stack, or runs on the thread's own.
  abbrev pub Prepared : CoroEnv → Type 0
  Prepared e =
      Placed r site this e₀ old (λ c. Nobody c ⊎ (c ≡ this)) (λ c. Y c ⊎ (c ≡ this)) Nobody e
      × ((k : LibCoroCoroutine)
          → e.coros this ≡ some k
          → (k.ctx_inited ≡ true) ⊎ ((s : ℕ) × (k.stack ≡ some s)))

  given-Prepared :
      (e' : CoroEnv) (k : LibCoroCoroutine) (s : ℕ)
      → e'.coros this ≡ some k
      → k.ctx_inited ≡ false
      → k.stack ≡ none
      → Placed r site this e₀ old Nobody Y Nobody e'
      → Admits e' s
      → Prepared (given this k (s, e'))
  unfolding given
  given-Prepared e' k s there young bare placed (st, live, admits) =
      let ((laws, keeps, alive, roomy, has), quiet, frame, spare, main, current) = placed in
      let k' : LibCoroCoroutine = record k { stack = some s } in
      let (no_sp, no_buffer) = bare_bytes (laws.started this k there) in
      let not_old : old ≢ some this = λ p. cc (quiet.inited this k p there, young) in
      (
        (
          (
            assign_Laws this k k' s st there bare refl live laws (inr (no_sp, no_buffer)) no_buffer
                admits,
            λ c at size img b w.
                assign_Kept this k k' s st there bare refl live (keeps c at size img b w),
            Alive-update this k' alive,
            roomy,
            Has-update e'.coros this this k' has,
          ),
          Quiet-update this k' (λ p. absurd (not_old p)) (λ p. (no_buffer, no_sp)) quiet,
          record {
            place = λ c s' k'' st' p on. elim (On-before this k k' s st there bare refl live on) [
              | inl (q, _, _, _) ↦ absurd (not_old (p ∙ ap some q))
              | inr (n, a) ↦ frame.place c s' k'' st' p a
            ];
            stays = λ c k'' p w. elim (update_cases e'.coros this c (some k') (some k'') w) [
              | inl (q, x) ↦ absurd (not_old (p ∙ ap some q))
              | inr (n, x) ↦ frame.stays c k'' p x
            ];
          },
          λ k'' w. elim (update_cases e'.coros this this (some k') (some k'') w) [
            | inl (p, x) ↦
                subst
                  (λ (y : LibCoroCoroutine). (y.ctx_inited ≡ true) ⊎ (length site.coro_create ≤ r))
                  (some_injective x) (spare k there)
            | inr (n, x) ↦ absurd (n refl)
          ],
          main,
          current,
        ),
        λ k'' w. inr (
          s,
          elim (update_cases e'.coros this this (some k') (some k'') w) [
            | inl (p, x) ↦ ap (λ y. y.stack) (sym (some_injective x))
            | inr (n, x) ↦ absurd (n refl)
          ],
        ),
      )
    where
      bare_bytes :
          (k.ctx_inited ≡ true) ⊎ ((k.stack_sp ≡ none) × (k.save_buffer ≡ none))
          → (k.stack_sp ≡ none) × (k.save_buffer ≡ none)
      bare_bytes (inl p) = cc
      bare_bytes (inr p) = p

  kept-Prepared :
      (e : CoroEnv) (k : LibCoroCoroutine)
      → e.coros this ≡ some k
      → (k.ctx_inited ≡ true) ⊎ ((s : ℕ) × (k.stack ≡ some s))
      → Ready r site this e₀ old Y e
      → e.current ≡ some this
      → Prepared e
  kept-Prepared e k there has
        ((laws, keeps, alive, roomy, live), quiet, fresh, frame, serving, spare, main) current =
      (
        (
          (
            widen laws (λ c s k st on x q. absurd x) (λ c s k st on q y. inl y)
                (λ c s k st on z. absurd z),
            keeps,
            alive,
            roomy,
            live,
          ),
          quiet,
          frame,
          spare,
          main,
          current,
        ),
        λ k' q.
            subst (λ (y : LibCoroCoroutine). (y.ctx_inited ≡ true) ⊎ ((s : ℕ) × (y.stack ≡ some s)))
              (some_injective (sym there ∙ q)) has,
      )

  pub assign_stack-Prepared :
      (e : CoroEnv)
      → Ready r site this e₀ old Y e
      → e.current ≡ some this
      → Ensures Prepared (assign_stack this site e)
  assign_stack-Prepared e ready current =
      let (k, there) = ready.0.4 in
      elim (Bool-cases k.ctx_inited) [
        | inl p ↦ kept e k there (inl p) ready current
        | inr p ↦ elim (Option-cases k.stack) [
          | inr (s, q) ↦ kept e k there (inr (s, q)) ready current
          | inl q ↦ subst (Ensures Prepared) (sym (assign_some site this e k there p q)) (
              Ensures_bind (get_coro_stack-Placed r site this e₀ old Y e ready current)
                λ (s, e') (placed, same, admits).
                  result (given this k (s, e'))
                    (given-Prepared e' k s (ap (λ t. t this) same ∙ there) p q placed admits))
        ]
      ]
    where
      kept :
          (e : CoroEnv) (k : LibCoroCoroutine) (there : e.coros this ≡ some k)
          → (k.ctx_inited ≡ true) ⊎ ((s : ℕ) × (k.stack ≡ some s))
          → Ready r site this e₀ old Y e
          → e.current ≡ some this
          → Ensures Prepared (assign_stack this site e)
      kept e k there has ready current =
          subst (Ensures Prepared) (sym (assign_none site this e k there has))
            (result e (kept-Prepared e k there has ready current))
