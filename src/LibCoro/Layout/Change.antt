-- ===== src/LibCoro/Layout/Change.antt =====
-- The change of one coroutine whose stack stays the same asks for the laws at that coroutine alone.
use mathlib.Core.Path.{subst₂}
use coroxx.Base.{
  ℕ, ◌-◌, ◌<◌, ◌≡◌, ◌≢◌, ◌⊎◌, inl, inr, true, none, some, some_injective, List, arith, length,
  subst, sym, ap, ◌∙◌, eq-or-ne, take,
}
use coroxx.Base.Store.{update, update_cases, update_self, update_ne}
use coroxx.LibCoro.Objects.{CoroStack, LibCoroCoroutine}
use coroxx.LibCoro.Layout.{Coros, Stacks, Parked, On, Saved, Started, Laws, Kept, held}

module _ (coros : Coros) (stacks : Stacks) (c₀ : ℕ) (k₀ k' : LibCoroCoroutine)
    (there : coros c₀ ≡ some k₀) (same : k'.stack ≡ k₀.stack) where
  On-back :
      {c s : ℕ} {k : LibCoroCoroutine} {st : CoroStack}
      → On (update coros c₀ (some k')) stacks c s k st
      → ((c ≡ c₀) × (k' ≡ k) × On coros stacks c₀ s k₀ st) ⊎ ((c ≢ c₀) × On coros stacks c s k st)
  On-back {c} {s} {k} {st} on = elim (update_cases coros c₀ c (some k') (some k) on.coro) [
    | inl (p, q) ↦ inl (p, cc, record { coro = there; stack = ground arith; live = on.live })
    | inr (n, q) ↦ inr (n, record { coro = q; stack = on.stack; live = on.live })
  ]

  pub On-before :
      {c s : ℕ} {k : LibCoroCoroutine} {st : CoroStack}
      → On (update coros c₀ (some k')) stacks c s k st
      → (k'' : LibCoroCoroutine) × On coros stacks c s k'' st
  On-before {s = s} {st = st} on = elim (On-back on) [
    | inl (p, q, a) ↦ (k₀, subst (λ x. On coros stacks x s k₀ st) (sym p) a)
    | inr (n, a) ↦ (_, a)
  ]

  pub On-other :
      {c s : ℕ} {k : LibCoroCoroutine} {st : CoroStack}
      → c ≢ c₀
      → On coros stacks c s k st
      → On (update coros c₀ (some k')) stacks c s k st
  On-other {c} n on = record {
    coro = update_ne coros c₀ c (some k') n ∙ on.coro;
    stack = on.stack;
    live = on.live;
  }

  pub On-self :
      {s : ℕ} {st : CoroStack}
      → On coros stacks c₀ s k₀ st
      → On (update coros c₀ (some k')) stacks c₀ s k' st
  On-self on = record {
    coro = update_self coros c₀ (some k');
    stack = same ∙ on.stack;
    live = on.live;
  }

  pub On-any :
      {c s : ℕ} {k : LibCoroCoroutine} {st : CoroStack}
      → On coros stacks c s k st
      → (k'' : LibCoroCoroutine) × On (update coros c₀ (some k')) stacks c s k'' st
  On-any {c} {s} {k} {st} on = elim (eq-or-ne c c₀) [
    | inl p ↦ (
      k',
      subst (λ x. On (update coros c₀ (some k')) stacks x s k' st) (sym p)
          (On-self (record {
            coro = there;
            stack =
                subst (λ y. y.stack ≡ some s) (some_injective (sym on.coro ∙ ap coros p ∙ there))
                  on.stack;
            live = on.live;
          })),
    )
    | inr n ↦ (k, On-other n on)
  ]

  Saved-other :
      {c : ℕ} {k : LibCoroCoroutine} {bytes : List ℕ}
      → c ≢ c₀
      → Saved coros stacks c k bytes
      → Saved (update coros c₀ (some k')) stacks c k bytes
  Saved-other n w = record {
    number = w.number;
    stack = w.stack;
    on = On-other n w.on;
    shared = w.shared;
    parked = w.parked;
    whole = w.whole;
  }

  pub Kept-other :
      {r : ℕ} {mem : ℕ → ℕ} {c at size : ℕ} {img : List ℕ}
      → c ≢ c₀
      → Kept r coros stacks mem c at size img
      → Kept r (update coros c₀ (some k')) stacks mem c at size img
  Kept-other n w = record {
    number = w.number;
    coroutine = w.coroutine;
    stack = w.stack;
    on = On-other n w.on;
    shared = w.shared;
    parked = w.parked;
    place = w.place;
    extent = w.extent;
    bytes = w.bytes;
  }

  -- A change that leaves the marks and the buffer alone moves no bytes.
  pub Kept-any :
      {r : ℕ} {mem : ℕ → ℕ} {c at size : ℕ} {img : List ℕ}
      → k'.stack_sp ≡ k₀.stack_sp
      → k'.save_buffer_size ≡ k₀.save_buffer_size
      → k'.save_buffer ≡ k₀.save_buffer
      → Kept r coros stacks mem c at size img
      → Kept r (update coros c₀ (some k')) stacks mem c at size img
  Kept-any {r} {mem} {c} {at} {size} {img} e₁ e₂ e₃ w = elim (eq-or-ne c c₀) [
    | inr n ↦ Kept-other n w
    | inl p ↦
        let is : w.coroutine ≡ k₀ = some_injective (sym w.on.coro ∙ ap coros p ∙ there) in
        subst (λ x. Kept r (update coros c₀ (some k')) stacks mem x at size img) (sym p)
          (record {
            number = w.number;
            coroutine = k';
            stack = w.stack;
            on = On-self (record {
              coro = there;
              stack = subst (λ y. y.stack ≡ some w.number) is w.on.stack;
              live = w.on.live;
            });
            shared = w.shared;
            parked = record {
              sp = w.parked.sp;
              marked = e₁ ∙ ap (λ y. y.stack_sp) (sym is) ∙ w.parked.marked;
              above = w.parked.above;
              exact = ground (arith, is);
            };
            place = w.place;
            extent = e₂ ∙ ap (λ y. y.save_buffer_size) (sym is) ∙ w.extent;
            bytes =
                subst₂ (λ b n. take (n - r) (held mem b n w.parked.sp) ≡ img)
                  (ap (λ y. y.save_buffer) is ∙ sym e₃) (ap (λ y. y.save_buffer_size) is ∙ sym e₂)
                  w.bytes;
          })
  ]

  -- What is in force at the changed coroutine.
  pub record AtSelf (X Y Z : ℕ → Type 0) : Type 0 where
    pub saved :
        (bytes : List ℕ)
        → k'.save_buffer ≡ some bytes
        → (s : ℕ) × (st : CoroStack) × On coros stacks c₀ s k₀ st
          × (st.shared ≡ true)
          × Parked st k'
          × (length bytes ≡ k'.save_buffer_size)
    pub started : Started k'
    pub resident :
        (s : ℕ) (st : CoroStack)
        → On coros stacks c₀ s k₀ st
        → k'.save_buffer ≡ none
        → (st.coro ≡ some c₀) ⊎ X c₀
    pub suspended :
        (s : ℕ) (st : CoroStack)
        → On coros stacks c₀ s k₀ st
        → st.shared ≡ true
        → Parked st k' ⊎ Y c₀
    pub users :
        (s : ℕ) (st : CoroStack)
        → On coros stacks c₀ s k₀ st
        → st.coro ≡ some c₀
        → (k'.save_buffer ≡ none) ⊎ Z c₀

  module _ {X Y Z X' Y' Z' : ℕ → Type 0} {next seed : ℕ} (v : Laws X Y Z coros stacks next seed)
      (at_self : AtSelf X' Y' Z')
      (outside : (c : ℕ) → c ≢ c₀ → (X c → X' c) × (Y c → Y' c) × (Z c → Z' c)) where
    Saved-self :
        (bytes : List ℕ)
        → k'.save_buffer ≡ some bytes
        → Saved (update coros c₀ (some k')) stacks c₀ k' bytes
    Saved-self bytes q =
        let (s, st, on, shared, parked, whole) = at_self.saved bytes q in
        record {
          number = s;
          stack = st;
          on = On-self on;
          shared = shared;
          parked = parked;
          whole = whole;
        }

    pub change : Laws X' Y' Z' (update coros c₀ (some k')) stacks next seed
    change = record {
      live_stack = λ c s k q r. elim (update_cases coros c₀ c (some k') (some k) q) [
        | inl (p, w) ↦ v.live_stack c₀ s k₀ there (ground arith)
        | inr (n, w) ↦ v.live_stack c s k w r
      ];
      user = λ s o st q r. let (k, on) = v.user s o st q r in On-any on;
      saved = λ c k bytes q r. elim (update_cases coros c₀ c (some k') (some k) q) [
        | inl (p, w) ↦
            subst₂ (λ x y. Saved (update coros c₀ (some k')) stacks x y bytes) (sym p)
              (some_injective w) (Saved-self bytes (ground arith))
        | inr (n, w) ↦ Saved-other n (v.saved c k bytes w r)
      ];
      apart = v.apart;
      fits = v.fits;
      stack_numbers = v.stack_numbers;
      coro_numbers = λ c k q. elim (update_cases coros c₀ c (some k') (some k) q) [
        | inl (p, w) ↦ subst (λ x. x < seed) (sym p) (v.coro_numbers c₀ k₀ there)
        | inr (n, w) ↦ v.coro_numbers c k w
      ];
      alone = λ c c' s k k'' st on on' h. elim (On-back on) [
        | inl (p, w, a) ↦ elim (On-back on') [
          | inl (p', w', a') ↦ p ∙ sym p'
          | inr (n', a') ↦ p ∙ v.alone c₀ c' s k₀ k'' st a a' h
        ]
        | inr (n, a) ↦ elim (On-back on') [
          | inl (p', w', a') ↦ v.alone c c₀ s k k₀ st a a' h ∙ sym p'
          | inr (n', a') ↦ v.alone c c' s k k'' st a a' h
        ]
      ];
      started = λ c k q. elim (update_cases coros c₀ c (some k') (some k) q) [
        | inl (p, w) ↦ subst Started (some_injective w) at_self.started
        | inr (n, w) ↦ v.started c k w
      ];
      resident = λ c s k st on q. elim (On-back on) [
        | inl (p, w, a) ↦
            subst (λ x. (st.coro ≡ some x) ⊎ X' x) (sym p)
              (at_self.resident s st a (ap (λ y. y.save_buffer) w ∙ q))
        | inr (n, a) ↦ elim (v.resident c s k st a q) [
          | inl u ↦ inl u
          | inr x ↦ inr ((outside c n).0 x)
        ]
      ];
      suspended = λ c s k st on q. elim (On-back on) [
        | inl (p, w, a) ↦ subst₂ (λ x y. Parked st y ⊎ Y' x) (sym p) w (at_self.suspended s st a q)
        | inr (n, a) ↦ elim (v.suspended c s k st a q) [
          | inl u ↦ inl u
          | inr x ↦ inr ((outside c n).1 x)
        ]
      ];
      users = λ c s k st on q. elim (On-back on) [
        | inl (p, w, a) ↦
            subst₂ (λ x y. (y.save_buffer ≡ none) ⊎ Z' x) (sym p) w
              (at_self.users s st a (q ∙ ap some p))
        | inr (n, a) ↦ elim (v.users c s k st a q) [
          | inl u ↦ inl u
          | inr x ↦ inr ((outside c n).2 x)
        ]
      ];
    }
