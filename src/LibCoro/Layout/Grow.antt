-- ===== src/LibCoro/Layout/Grow.antt =====
-- New coroutines, new stacks, and a stack for a coroutine that has none.
use mathlib.Core.Path.{subst₂}
use coroxx.Base.{
  ℕ, suc, ◌+◌, ◌^◌, ◌≤◌, ◌<◌, ◌≡◌, ◌≢◌, ◌⊎◌, inl, inr, true, false, none, some, some_injective,
  List, arith, subst, sym, ap, ◌∙◌,
}
use coroxx.Base.Store.{update, update_cases, update_ne}
use coroxx.LibCoro.Objects.{CoroStack, LibCoroCoroutine}
use coroxx.LibCoro.Layout.{Coros, Stacks, On, Saved, Started, Laws, Kept}

-- A table of coroutines that holds what another holds.
module _ {stacks : Stacks} {coros coros' : Coros} where
  move_On :
      {c s : ℕ} {k : LibCoroCoroutine} {st : CoroStack}
      → coros' c ≡ coros c
      → On coros stacks c s k st
      → On coros' stacks c s k st
  move_On e on = record { coro = e ∙ on.coro; stack = on.stack; live = on.live }

  move_Saved :
      {c : ℕ} {k : LibCoroCoroutine} {bytes : List ℕ}
      → coros' c ≡ coros c
      → Saved coros stacks c k bytes
      → Saved coros' stacks c k bytes
  move_Saved e w = record {
    number = w.number;
    stack = w.stack;
    on = move_On e w.on;
    shared = w.shared;
    parked = w.parked;
    whole = w.whole;
  }

  move_Kept :
      {r : ℕ} {mem : ℕ → ℕ} {c at size : ℕ} {img : List ℕ}
      → coros' c ≡ coros c
      → Kept r coros stacks mem c at size img
      → Kept r coros' stacks mem c at size img
  move_Kept e w = record {
    number = w.number;
    coroutine = w.coroutine;
    stack = w.stack;
    on = move_On e w.on;
    shared = w.shared;
    parked = w.parked;
    place = w.place;
    extent = w.extent;
    bytes = w.bytes;
  }

module _ {X Y Z : ℕ → Type 0} {coros : Coros} {stacks : Stacks} {next seed : ℕ}
    (v : Laws X Y Z coros stacks next seed) where
  numbered : {c : ℕ} {k : LibCoroCoroutine} → coros c ≡ some k → c ≢ seed
  numbered {c} {k} h p = absurd (omega (arith, v.coro_numbers c k h))

  -- The next coroutine, without a stack.
  module _ (k' : LibCoroCoroutine) (bare : k'.stack ≡ none) (clean : k'.save_buffer ≡ none)
      (young : Started k') where
    abbrev with_new : Coros
    with_new = update coros seed (some k')

    entry : {c : ℕ} {k : LibCoroCoroutine} → coros c ≡ some k → with_new c ≡ coros c
    entry {c} h = update_ne coros seed c (some k') (numbered h)

    On-old :
        {c s : ℕ} {k : LibCoroCoroutine} {st : CoroStack}
        → On with_new stacks c s k st
        → On coros stacks c s k st
    On-old {c} {s} {k} {st} on = elim (update_cases coros seed c (some k') (some k) on.coro) [
      | inl (p, q) ↦ cc (bare, on.stack, q)
      | inr (n, q) ↦ record { coro = q; stack = on.stack; live = on.live }
    ]

    pub create_Kept :
        {r : ℕ} {mem : ℕ → ℕ} {c at size : ℕ} {img : List ℕ}
        → Kept r coros stacks mem c at size img
        → Kept r with_new stacks mem c at size img
    create_Kept w = move_Kept (entry w.on.coro) w

    pub create_Laws : Laws X Y Z with_new stacks next (suc seed)
    create_Laws = record {
      live_stack = λ c s k q r. elim (update_cases coros seed c (some k') (some k) q) [
        | inl (p, w) ↦ cc (bare, r, w)
        | inr (n, w) ↦ v.live_stack c s k w r
      ];
      user = λ s o st q r. let (k, on) = v.user s o st q r in (k, move_On (entry on.coro) on);
      saved = λ c k bytes q r. elim (update_cases coros seed c (some k') (some k) q) [
        | inl (p, w) ↦ cc (clean, r, w)
        | inr (n, w) ↦ move_Saved (entry w) (v.saved c k bytes w r)
      ];
      apart = v.apart;
      fits = v.fits;
      stack_numbers = v.stack_numbers;
      coro_numbers = λ c k q. elim (update_cases coros seed c (some k') (some k) q) [
        | inl (p, w) ↦ omega arith
        | inr (n, w) ↦ omega (arith, v.coro_numbers c k w)
      ];
      alone = λ c c' s k k'' st on on' h. v.alone c c' s k k'' st (On-old on) (On-old on') h;
      started = λ c k q. elim (update_cases coros seed c (some k') (some k) q) [
        | inl (p, w) ↦ subst Started (some_injective w) young
        | inr (n, w) ↦ v.started c k w
      ];
      resident = λ c s k st on q. v.resident c s k st (On-old on) q;
      suspended = λ c s k st on q. v.suspended c s k st (On-old on) q;
      users = λ c s k st on q. v.users c s k st (On-old on) q;
    }

  -- The next stack, which serves nobody and lies apart from the others.
  module _ (st₀ : CoroStack) (free : st₀.coro ≡ none) (fits : st₀.sptr + st₀.ssze < 2 ^ 64)
      (apart : (s : ℕ) (st : CoroStack)
        → stacks s ≡ some st
        → (st.sptr + st.ssze ≤ st₀.sptr) ⊎ (st₀.sptr + st₀.ssze ≤ st.sptr)) where
    abbrev with_stack : Stacks
    with_stack = update stacks next (some st₀)

    pub stack_entry : {s : ℕ} {st : CoroStack} → stacks s ≡ some st → with_stack s ≡ some st
    stack_entry {s} {st} h =
        update_ne stacks next s (some st₀) (λ p. absurd (omega (arith, v.stack_numbers s st h))) ∙ h

    On-more :
        {c s : ℕ} {k : LibCoroCoroutine} {st : CoroStack}
        → On coros stacks c s k st
        → On coros with_stack c s k st
    On-more on = record { coro = on.coro; stack = on.stack; live = stack_entry on.live }

    pub On-less :
        {c s : ℕ} {k : LibCoroCoroutine} {st : CoroStack}
        → On coros with_stack c s k st
        → On coros stacks c s k st
    On-less {c} {s} {k} {st} on =
        let (st', live) = v.live_stack c s k on.coro on.stack in
        record {
          coro = on.coro;
          stack = on.stack;
          live = subst (λ x. stacks s ≡ x) (sym (stack_entry live) ∙ on.live) live;
        }

    pub extend_Kept :
        {r : ℕ} {mem : ℕ → ℕ} {c at size : ℕ} {img : List ℕ}
        → Kept r coros stacks mem c at size img
        → Kept r coros with_stack mem c at size img
    extend_Kept w = record {
      number = w.number;
      coroutine = w.coroutine;
      stack = w.stack;
      on = On-more w.on;
      shared = w.shared;
      parked = w.parked;
      place = w.place;
      extent = w.extent;
      bytes = w.bytes;
    }

    pub extend_Laws : Laws X Y Z coros with_stack (suc next) seed
    extend_Laws = record {
      live_stack = λ c s k q r. let (st, l) = v.live_stack c s k q r in (st, stack_entry l);
      user = λ s o st q r. elim (update_cases stacks next s (some st₀) (some st) q) [
        | inl (p, w) ↦ cc (free, r, w)
        | inr (n, w) ↦ let (k, on) = v.user s o st w r in (k, On-more on)
      ];
      saved = λ c k bytes q r.
          let w = v.saved c k bytes q r in
          record {
            number = w.number;
            stack = w.stack;
            on = On-more w.on;
            shared = w.shared;
            parked = w.parked;
            whole = w.whole;
          };
      apart = λ s s' st st' d q q'. elim (update_cases stacks next s (some st₀) (some st) q) [
        | inl (p, w) ↦ elim (update_cases stacks next s' (some st₀) (some st') q') [
          | inl (p', w') ↦ absurd (d (p ∙ sym p'))
          | inr (n', w') ↦ ground (arith, apart s' st' w')
        ]
        | inr (n, w) ↦ elim (update_cases stacks next s' (some st₀) (some st') q') [
          | inl (p', w') ↦ ground (arith, apart s st w)
          | inr (n', w') ↦ v.apart s s' st st' d w w'
        ]
      ];
      fits = λ s st q. elim (update_cases stacks next s (some st₀) (some st) q) [
        | inl (p, w) ↦ subst (λ (x : CoroStack). x.sptr + x.ssze < 2 ^ 64) (some_injective w) fits
        | inr (n, w) ↦ v.fits s st w
      ];
      stack_numbers = λ s st q. elim (update_cases stacks next s (some st₀) (some st) q) [
        | inl (p, w) ↦ omega arith
        | inr (n, w) ↦ omega (arith, v.stack_numbers s st w)
      ];
      coro_numbers = v.coro_numbers;
      alone = λ c c' s k k'' st on on' h. v.alone c c' s k k'' st (On-less on) (On-less on') h;
      started = v.started;
      resident = λ c s k st on q. v.resident c s k st (On-less on) q;
      suspended = λ c s k st on q. v.suspended c s k st (On-less on) q;
      users = λ c s k st on q. v.users c s k st (On-less on) q;
    }

-- A coroutine that has no stack gets one that may take it.
module _ {coros : Coros} {stacks : Stacks} (c₀ : ℕ) (k₀ k' : LibCoroCoroutine) (s₀ : ℕ)
    (st₀ : CoroStack) (there : coros c₀ ≡ some k₀) (bare : k₀.stack ≡ none)
    (given : k'.stack ≡ some s₀) (live : stacks s₀ ≡ some st₀) where
  keep_entry :
      {c s : ℕ} {k : LibCoroCoroutine} {st : CoroStack}
      → On coros stacks c s k st
      → update coros c₀ (some k') c ≡ coros c
  keep_entry {c} on =
      update_ne coros c₀ c (some k') λ p. cc (bare, on.stack, on.coro, there, ap coros p)

  pub On-before :
      {c s : ℕ} {k : LibCoroCoroutine} {st : CoroStack}
      → On (update coros c₀ (some k')) stacks c s k st
      → ((c ≡ c₀) × (k' ≡ k) × (s₀ ≡ s) × (st₀ ≡ st)) ⊎ ((c ≢ c₀) × On coros stacks c s k st)
  On-before {c} {s} {k} {st} on = elim (update_cases coros c₀ c (some k') (some k) on.coro) [
    | inl (p, q) ↦
        let e : s₀ ≡ s = cc (given, on.stack, q) in
        inl (p, some_injective q, e, some_injective (sym live ∙ ap stacks e ∙ on.live))
    | inr (n, q) ↦ inr (n, record { coro = q; stack = on.stack; live = on.live })
  ]

  pub assign_Kept :
      {r : ℕ} {mem : ℕ → ℕ} {c at size : ℕ} {img : List ℕ}
      → Kept r coros stacks mem c at size img
      → Kept r (update coros c₀ (some k')) stacks mem c at size img
  assign_Kept w = move_Kept (keep_entry w.on) w

  module _ {X Y Z : ℕ → Type 0} {next seed : ℕ} (v : Laws X Y Z coros stacks next seed)
      (young : Started k') (clean : k'.save_buffer ≡ none)
      (admits : (st₀.shared ≡ true)
        ⊎ ((c : ℕ) (k : LibCoroCoroutine) → ¬ On coros stacks c s₀ k st₀)) where
    alone_before :
        {c : ℕ} {k : LibCoroCoroutine} {A : Type 0}
        → st₀.shared ≡ false
        → On coros stacks c s₀ k st₀
        → A
    alone_before {c} {k} h on = elim admits [
      | inl shared ↦ cc
      | inr none_there ↦ absurd (none_there c k on)
    ]

    pub assign_Laws :
        Laws
          (λ c. X c ⊎ (c ≡ c₀))
          (λ c. Y c ⊎ (c ≡ c₀))
          Z
          (update coros c₀ (some k'))
          stacks
          next
          seed
    assign_Laws = record {
      live_stack = λ c s k q r. elim (update_cases coros c₀ c (some k') (some k) q) [
        | inl (p, w) ↦ (st₀, subst (λ x. stacks x ≡ some st₀) (cc (given, r, w)) live)
        | inr (n, w) ↦ v.live_stack c s k w r
      ];
      user = λ s o st q r. let (k, on) = v.user s o st q r in (k, move_On (keep_entry on) on);
      saved = λ c k bytes q r. elim (update_cases coros c₀ c (some k') (some k) q) [
        | inl (p, w) ↦ cc (clean, r, w)
        | inr (n, w) ↦ let x = v.saved c k bytes w r in move_Saved (keep_entry x.on) x
      ];
      apart = v.apart;
      fits = v.fits;
      stack_numbers = v.stack_numbers;
      coro_numbers = λ c k q. elim (update_cases coros c₀ c (some k') (some k) q) [
        | inl (p, w) ↦ subst (λ x. x < seed) (sym p) (v.coro_numbers c₀ k₀ there)
        | inr (n, w) ↦ v.coro_numbers c k w
      ];
      alone = λ c c' s k k'' st on on' h. elim (On-before on) [
        | inl (p, _, e, e') ↦ elim (On-before on') [
          | inl (p', _, _, _) ↦ p ∙ sym p'
          | inr (n', a') ↦
              alone_before (ap (λ (x : CoroStack). x.shared) e' ∙ h)
                (subst₂ (λ x y. On coros stacks c' x k'' y) (sym e) (sym e') a')
        ]
        | inr (n, a) ↦ elim (On-before on') [
          | inl (p', _, e, e') ↦
              alone_before (ap (λ (x : CoroStack). x.shared) e' ∙ h)
                (subst₂ (λ x y. On coros stacks c x k y) (sym e) (sym e') a)
          | inr (n', a') ↦ v.alone c c' s k k'' st a a' h
        ]
      ];
      started = λ c k q. elim (update_cases coros c₀ c (some k') (some k) q) [
        | inl (p, w) ↦ subst Started (some_injective w) young
        | inr (n, w) ↦ v.started c k w
      ];
      resident = λ c s k st on q. elim (On-before on) [
        | inl (p, _, _, _) ↦ inr (inr p)
        | inr (n, a) ↦ elim (v.resident c s k st a q) [ inl u ↦ inl u | inr x ↦ inr (inl x) ]
      ];
      suspended = λ c s k st on q. elim (On-before on) [
        | inl (p, _, _, _) ↦ inr (inr p)
        | inr (n, a) ↦ elim (v.suspended c s k st a q) [ inl u ↦ inl u | inr x ↦ inr (inl x) ]
      ];
      users = λ c s k st on q. elim (On-before on) [
        | inl (p, w, _, _) ↦ inl (ap (λ y. y.save_buffer) (sym w) ∙ clean)
        | inr (n, a) ↦ v.users c s k st a q
      ];
    }
