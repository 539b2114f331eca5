-- ===== src/LibCoro/Layout/Occupy.antt =====
-- A stack changes its user.
use mathlib.Core.Path.{subst₂}
use coroxx.Base.{
  ℕ, ◌≡◌, refl, ◌≢◌, ◌⊎◌, inl, inr, some, some_injective, List, arith, subst, sym, ap, ◌∙◌,
  eq-or-ne,
}
use coroxx.Base.Store.{update, update_cases, update_self, update_ne}
use coroxx.LibCoro.Objects.{CoroStack, LibCoroCoroutine}
use coroxx.LibCoro.Layout.{Coros, Stacks, Parked, On, Saved, Laws, Kept}

-- The stack number `s₀` serves `c₀` from now on, which has it.
module _ {coros : Coros} {stacks : Stacks} (c₀ s₀ : ℕ) (k₀ : LibCoroCoroutine) (st₀ : CoroStack)
    (on₀ : On coros stacks c₀ s₀ k₀ st₀) where
  abbrev taken : CoroStack
  taken = record st₀ { coro = some c₀ }

  abbrev occupied : Stacks
  occupied = update stacks s₀ (some taken)

  -- A coroutine on `s₀` is on it still, and nobody is there who was not.
  pub On-taken :
      {c : ℕ} {k : LibCoroCoroutine} {st : CoroStack}
      → On coros stacks c s₀ k st
      → On coros occupied c s₀ k taken
  On-taken on = record {
    coro = on.coro;
    stack = on.stack;
    live = update_self stacks s₀ (some taken);
  }

  On-beside :
      {c s : ℕ} {k : LibCoroCoroutine} {st : CoroStack}
      → s ≢ s₀
      → On coros stacks c s k st
      → On coros occupied c s k st
  On-beside {c} {s} n on = record {
    coro = on.coro;
    stack = on.stack;
    live = update_ne stacks s₀ s (some taken) n ∙ on.live;
  }

  pub On-from :
      {c s : ℕ} {k : LibCoroCoroutine} {st : CoroStack}
      → On coros occupied c s k st
      → ((s ≡ s₀) × (taken ≡ st) × On coros stacks c s₀ k st₀)
        ⊎ ((s ≢ s₀) × On coros stacks c s k st)
  On-from {c} {s} {k} {st} on = elim (update_cases stacks s₀ s (some taken) (some st) on.live) [
    | inl (p, q) ↦ inl (
      p,
      some_injective q,
      record { coro = on.coro; stack = on.stack ∙ ap some p; live = on₀.live },
    )
    | inr (n, q) ↦ inr (n, record { coro = on.coro; stack = on.stack; live = q })
  ]

  parked_taken : {st : CoroStack} {k : LibCoroCoroutine} → st₀ ≡ st → Parked st k → Parked taken k
  parked_taken e w = record {
    sp = w.sp;
    marked = w.marked;
    above = ground (arith, w.above, e);
    exact = ground (arith, w.exact, e);
  }

  Saved-taken :
      {c : ℕ} {k : LibCoroCoroutine} {bytes : List ℕ}
      → Saved coros stacks c k bytes
      → Saved coros occupied c k bytes
  Saved-taken {c} {k} w = elim (eq-or-ne w.number s₀) [
    | inl p ↦
        let same : st₀ ≡ w.stack = some_injective (sym on₀.live ∙ ap stacks (sym p) ∙ w.on.live) in
        record {
          number = s₀;
          stack = taken;
          on = On-taken (subst (λ x. On coros stacks c x k w.stack) p w.on);
          shared = ap (λ (x : CoroStack). x.shared) same ∙ w.shared;
          parked = parked_taken same w.parked;
          whole = w.whole;
        }
    | inr n ↦ record {
      number = w.number;
      stack = w.stack;
      on = On-beside n w.on;
      shared = w.shared;
      parked = w.parked;
      whole = w.whole;
    }
  ]

  pub occupy_Kept :
      {r : ℕ} {mem : ℕ → ℕ} {c at size : ℕ} {img : List ℕ}
      → Kept r coros stacks mem c at size img
      → Kept r coros occupied mem c at size img
  unfolding parked_taken
  occupy_Kept {c = c} w = elim (eq-or-ne w.number s₀) [
    | inl p ↦
        let same : st₀ ≡ w.stack = some_injective (sym on₀.live ∙ ap stacks (sym p) ∙ w.on.live) in
        record {
          number = s₀;
          coroutine = w.coroutine;
          stack = taken;
          on = On-taken (subst (λ x. On coros stacks c x w.coroutine w.stack) p w.on);
          shared = ap (λ (x : CoroStack). x.shared) same ∙ w.shared;
          parked = parked_taken same w.parked;
          place = w.place;
          extent = w.extent;
          bytes = w.bytes;
        }
    | inr n ↦ record {
      number = w.number;
      coroutine = w.coroutine;
      stack = w.stack;
      on = On-beside n w.on;
      shared = w.shared;
      parked = w.parked;
      place = w.place;
      extent = w.extent;
      bytes = w.bytes;
    }
  ]

  -- The laws that read a stack's place, size and kind alone.
  module _ {X Y Z : ℕ → Type 0} {next seed : ℕ} (v : Laws X Y Z coros stacks next seed)
      (only : (c : ℕ) → X c → c ≡ c₀) where
    origin :
        {s : ℕ} {st : CoroStack}
        → occupied s ≡ some st
        → (st' : CoroStack) × (stacks s ≡ some st') × (st'.sptr ≡ st.sptr) × (st'.ssze ≡ st.ssze)
    origin {s} {st} h = elim (update_cases stacks s₀ s (some taken) (some st) h) [
      | inl (p, q) ↦ (st₀, ap stacks p ∙ on₀.live, ground arith, ground arith)
      | inr (n, q) ↦ (st, q, ground arith, ground arith)
    ]

    pub occupy_Laws : Laws (λ c. st₀.coro ≡ some c) Y (λ c. Z c ⊎ (c ≡ c₀)) coros occupied next seed
    occupy_Laws = record {
      live_stack = λ c s k q r. elim (eq-or-ne s s₀) [
        | inl p ↦ (taken, ap occupied p ∙ update_self stacks s₀ (some taken))
        | inr n ↦
            let (st, l) = v.live_stack c s k q r in (st, update_ne stacks s₀ s (some taken) n ∙ l)
      ];
      user = λ s o st q r. elim (update_cases stacks s₀ s (some taken) (some st) q) [
        | inl (p, w) ↦ (
          k₀,
          subst₂ (λ x y. On coros occupied x y k₀ st)
              (some_injective (ap (λ (y : CoroStack). y.coro) (some_injective w) ∙ r)) (sym p)
              (subst (λ y. On coros occupied c₀ s₀ k₀ y) (some_injective w) (On-taken on₀)),
        )
        | inr (n, w) ↦ let (k, on) = v.user s o st w r in (k, On-beside n on)
      ];
      saved = λ c k bytes q r. Saved-taken (v.saved c k bytes q r);
      apart = λ s s' st st' d q q'.
          let (a, la, pa, za) = origin q in
          let (b, lb, pb, zb) = origin q' in ground (arith, v.apart s s' a b d la lb);
      fits = λ s st q. let (a, la, pa, za) = origin q in ground (arith, v.fits s a la);
      stack_numbers = λ s st q. let (a, la, pa, za) = origin q in v.stack_numbers s a la;
      coro_numbers = v.coro_numbers;
      alone = λ c c' s k k'' st on on' h. elim (On-from on) [
        | inl (p, w, a) ↦ elim (On-from on') [
          | inl (p', w', a') ↦
              v.alone c c' s₀ k k'' st₀ a a' (ap (λ (y : CoroStack). y.shared) w ∙ h)
          | inr (n', a') ↦ absurd (n' p)
        ]
        | inr (n, a) ↦ elim (On-from on') [
          | inl (p', w', a') ↦ absurd (n p')
          | inr (n', a') ↦ v.alone c c' s k k'' st a a' h
        ]
      ];
      started = v.started;
      resident = λ c s k st on q. elim (On-from on) [
        | inl (p, w, a) ↦ elim (v.resident c s₀ k st₀ a q) [
          | inl u ↦ inr u
          | inr x ↦ inl (ap (λ (y : CoroStack). y.coro) (sym w) ∙ ap some (sym (only c x)))
        ]
        | inr (n, a) ↦ elim (v.resident c s k st a q) [
          | inl u ↦ inl u
          | inr x ↦ absurd (
              n (
                some_injective (
                  sym a.stack
                  ∙ ap (λ y. y.stack) (some_injective (sym a.coro ∙ ap coros (only c x) ∙ on₀.coro))
                  ∙ on₀.stack)))
        ]
      ];
      suspended = λ c s k st on q. elim (On-from on) [
        | inl (p, w, a) ↦ elim (v.suspended c s₀ k st₀ a (ap (λ (y : CoroStack). y.shared) w ∙ q)) [
          | inl u ↦ inl (subst (λ y. Parked y k) w (parked_taken refl u))
          | inr x ↦ inr x
        ]
        | inr (n, a) ↦ v.suspended c s k st a q
      ];
      users = λ c s k st on q. elim (On-from on) [
        | inl (p, w, a) ↦
            inr (inr (some_injective (sym q ∙ ap (λ (y : CoroStack). y.coro) (sym w))))
        | inr (n, a) ↦ elim (v.users c s k st a q) [ inl u ↦ inl u | inr x ↦ inr (inl x) ]
      ];
    }
