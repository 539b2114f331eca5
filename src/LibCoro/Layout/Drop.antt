-- ===== src/LibCoro/Layout/Drop.antt =====
-- The laws when a coroutine is deleted (libcoro.cpp): its stack, if shared, may lose its user, and is
-- freed if not.
use coroxx.Base.{ℕ, ◌≡◌, ◌≢◌, inl, inr, none, some, some_injective, List, arith, subst, sym, ◌∙◌}
use coroxx.Base.Store.{update, update_cases, update_ne}
use coroxx.LibCoro.Objects.{CoroStack, LibCoroCoroutine}
use coroxx.LibCoro.Layout.{Coros, Stacks, Parked, On, Laws, Kept}

-- `st'` is what the deletion of `c₀` leaves of the stack `st`.
pub record Like (c₀ : ℕ) (st st' : CoroStack) : Type 0 where
  pub same_sptr : st'.sptr ≡ st.sptr
  pub same_ssze : st'.ssze ≡ st.ssze
  pub same_shared : st'.shared ≡ st.shared
  pub fewer : (o : ℕ) → st'.coro ≡ some o → (st.coro ≡ some o) × (o ≢ c₀)
  pub others : (o : ℕ) → o ≢ c₀ → st.coro ≡ some o → st'.coro ≡ some o

pub Like-Parked :
    {c₀ : ℕ} {st st' : CoroStack} {k : LibCoroCoroutine}
    → Like c₀ st st'
    → Parked st k
    → Parked st' k
Like-Parked like p = record {
  sp = p.sp;
  marked = p.marked;
  above = omega (arith, p.above, like.same_sptr);
  exact = omega (arith, p.exact, like.same_sptr, like.same_ssze);
}

module _ (coros : Coros) (stacks stacks' : Stacks) (c₀ : ℕ) where
  -- The stacks that are left, and those of the coroutines that are left.
  pub record Dropped : Type 0 where
    pub before :
        (s : ℕ) (st' : CoroStack)
        → stacks' s ≡ some st'
        → (st : CoroStack) × (stacks s ≡ some st) × Like c₀ st st'
    pub after :
        (c s : ℕ) (k : LibCoroCoroutine) (st : CoroStack)
        → c ≢ c₀
        → On coros stacks c s k st
        → (st' : CoroStack) × (stacks' s ≡ some st') × Like c₀ st st'

  module _ (d : Dropped) where
    -- A coroutine that is left had its stack before.
    pub On-dropped :
        {c s : ℕ} {k : LibCoroCoroutine} {st' : CoroStack}
        → On (update coros c₀ none) stacks' c s k st'
        → (c ≢ c₀) × (st : CoroStack) × On coros stacks c s k st × Like c₀ st st'
    On-dropped {c} {s} {k} {st'} on = elim (update_cases coros c₀ c none (some k) on.coro) [
      | inl (p, q) ↦ cc
      | inr (n, q) ↦
          let (st, l, like) = d.before s st' on.live in
          (n, st, record { coro = q; stack = on.stack; live = l }, like)
    ]

    pub On-left :
        {c s : ℕ} {k : LibCoroCoroutine} {st : CoroStack}
        → c ≢ c₀
        → On coros stacks c s k st
        → (st' : CoroStack) × On (update coros c₀ none) stacks' c s k st' × Like c₀ st st'
    On-left {c} {s} {k} {st} n on =
        let (st', l, like) = d.after c s k st n on in
        (
          st',
          record { coro = update_ne coros c₀ c none n ∙ on.coro; stack = on.stack; live = l },
          like,
        )

    pub drop_Kept :
        {r : ℕ} {mem : ℕ → ℕ} {c at size : ℕ} {img : List ℕ}
        → c ≢ c₀
        → Kept r coros stacks mem c at size img
        → Kept r (update coros c₀ none) stacks' mem c at size img
    unfolding Like-Parked
    drop_Kept n w =
        let (st', on, like) = On-left n w.on in
        record {
          number = w.number;
          coroutine = w.coroutine;
          stack = st';
          on = on;
          shared = like.same_shared ∙ w.shared;
          parked = Like-Parked like w.parked;
          place = w.place;
          extent = w.extent;
          bytes = w.bytes;
        }

    pub drop_Laws :
        {Y : ℕ → Type 0} {next seed : ℕ}
        → Laws (λ c. ⊥) Y (λ c. ⊥) coros stacks next seed
        → Laws (λ c. ⊥) Y (λ c. ⊥) (update coros c₀ none) stacks' next seed
    drop_Laws v = record {
      live_stack = λ c s k q h. elim (update_cases coros c₀ c none (some k) q) [
        | inl (p, w) ↦ cc
        | inr (n, w) ↦
            let (st, l) = v.live_stack c s k w h in
            let (st', l', like) = d.after c s k st n (record { coro = w; stack = h; live = l }) in
            (st', l')
      ];
      user = λ s o st' q h.
          let (st, l, like) = d.before s st' q in
          let (was, n) = like.fewer o h in
          let (k, on) = v.user s o st l was in
          (k, record { coro = update_ne coros c₀ o none n ∙ on.coro; stack = on.stack; live = q });
      saved = λ c k bytes q h. elim (update_cases coros c₀ c none (some k) q) [
        | inl (p, w) ↦ cc
        | inr (n, w) ↦
            let a = v.saved c k bytes w h in
            let (st', on, like) = On-left n a.on in
            record {
              number = a.number;
              stack = st';
              on = on;
              shared = like.same_shared ∙ a.shared;
              parked = Like-Parked like a.parked;
              whole = a.whole;
            }
      ];
      apart = λ s s' st' t' n q h.
          let (st, l, like) = d.before s st' q in
          let (t, m, like') = d.before s' t' h in
          omega (
            arith,
            v.apart s s' st t n l m,
            like.same_sptr,
            like.same_ssze,
            like'.same_sptr,
            like'.same_ssze,
          );
      fits = λ s st' q.
          let (st, l, like) = d.before s st' q in
          omega (arith, v.fits s st l, like.same_sptr, like.same_ssze);
      stack_numbers = λ s st' q. let (st, l, like) = d.before s st' q in v.stack_numbers s st l;
      coro_numbers = λ c k q. elim (update_cases coros c₀ c none (some k) q) [
        | inl (p, w) ↦ cc
        | inr (n, w) ↦ v.coro_numbers c k w
      ];
      alone = λ c c' s k k' st' on on' private.
          let (n, st, a, like) = On-dropped on in
          let (n', t, a', like') = On-dropped on' in
          let same : t ≡ st = some_injective (sym a'.live ∙ a.live) in
          v.alone c c' s k k' st a (subst (On coros stacks c' s k') same a')
            (sym like.same_shared ∙ private);
      started = λ c k q. elim (update_cases coros c₀ c none (some k) q) [
        | inl (p, w) ↦ cc
        | inr (n, w) ↦ v.started c k w
      ];
      resident = λ c s k st' on bare.
          let (n, st, a, like) = On-dropped on in
          elim (v.resident c s k st a bare) [ inl p ↦ inl (like.others c n p) | inr z ↦ inr z ];
      suspended = λ c s k st' on shared.
          let (n, st, a, like) = On-dropped on in
          elim (v.suspended c s k st a (sym like.same_shared ∙ shared)) [
            | inl p ↦ inl (Like-Parked like p)
            | inr y ↦ inr y
          ];
      users = λ c s k st' on h.
          let (n, st, a, like) = On-dropped on in v.users c s k st a (like.fewer c h).0;
    }
