-- ===== src/LibCoro/Safety/Delete.antt =====
-- The destructor of a coroutine (libcoro.cpp) in a settled thread.
use coroxx.Base.{
  ℕ, ◌≡◌, refl, ◌≢◌, inl, inr, true, false, none, some, some_injective, List, [], ◌∷◌, arith, subst,
  sym, ap, ◌∙◌, Bool-cases, Option-cases, Ensures, result, All, All-mono, same_pointer,
  same_pointer→eq, same_pointer_refl, eq-or-ne,
}
use coroxx.Base.Store.{update, update_cases, update_self, update_ne}
use coroxx.LibCoro.Objects.{CoroStack, LibCoroCoroutine, CoroEnv, CallSite}
use coroxx.LibCoro.Layout.{Stacks, On, Kept}
use coroxx.LibCoro.Layout.Drop.{Like, Dropped, drop_Laws, drop_Kept, On-dropped}
use coroxx.LibCoro.Safety.{Has, IsShared, Settled, SiteFits}
use coroxx.LibCoro.Switch.{delete_coro}

-- A coroutine that can be deleted: it exists, does not run, and nothing leads to it.
pub record Spent (e : CoroEnv) (c : ℕ) : Type 0 where
  pub exists : Has e.coros c
  pub idle : e.current ≢ some c
  pub not_main : e.main ≢ some c
  pub not_stacked : All (λ x. x ≢ c) e.coro_stack

-- The coroutine `c` is gone, and no other has changed or lost its bytes.
pub record Deleted (c : ℕ) (e e' : CoroEnv) : Type 0 where
  pub settled : Settled e'
  pub gone : e'.coros c ≡ none
  pub same : (x : ℕ) → x ≢ c → e'.coros x ≡ e.coros x
  pub same_current : e'.current ≡ e.current
  pub same_seed : e'.g_coro_id_seed ≡ e.g_coro_id_seed
  pub same_main : e'.main ≡ e.main
  pub same_coro_stack : e'.coro_stack ≡ e.coro_stack
  pub fits : (site : CallSite) → SiteFits site e → SiteFits site e'
  pub kept :
      (r x at size : ℕ) (img : List ℕ)
      → x ≢ c
      → Kept r e.coros e.stacks e.mem x at size img
      → Kept r e'.coros e'.stacks e'.mem x at size img

module _ (e : CoroEnv) (c : ℕ) (settled : Settled e) (spent : Spent e c) where
  -- The thread with other stacks and without the coroutine.
  without : Stacks → CoroEnv
  without stacks' = record e { stacks = stacks'; coros = update e.coros c none }

  without-Deleted :
      (stacks' : Stacks)
      → Dropped e.coros e.stacks stacks' c
      → All (IsShared stacks') e.pool
      → Deleted c e (without stacks')
  unfolding without
  without-Deleted stacks' d pooled = record {
    settled = record {
      laws = drop_Laws e.coros e.stacks stacks' c d settled.laws;
      alive = record {
        main_live =
            λ m q. stays m (λ p. spent.not_main (q ∙ ap some p)) (settled.alive.main_live m q);
        stacked = stacked e.coro_stack settled.alive.stacked spent.not_stacked;
        pooled = pooled;
      };
      current_live = λ x q. stays x (λ p. spent.idle (q ∙ ap some p)) (settled.current_live x q);
      serving = λ x s k st' q on.
          let (n, st, a, like) = On-dropped e.coros e.stacks stacks' c d on in
          like.others x n (settled.serving x s k st q a);
      inited = λ x k q w. elim (update_cases e.coros c x none (some k) w) [
        | inl (p, y) ↦ cc
        | inr (n, y) ↦ settled.inited x k q y
      ];
      has_main = settled.has_main;
      first = λ q x k w. elim (update_cases e.coros c x none (some k) w) [
        | inl (p, y) ↦ cc
        | inr (n, y) ↦ settled.first q x k y
      ];
    };
    gone = update_self e.coros c none;
    same = λ x n. update_ne e.coros c x none n;
    same_current = refl;
    same_seed = refl;
    same_main = refl;
    same_coro_stack = refl;
    fits = λ site fit. record {
      frame = λ x s k st' q on.
          let (n, st, a, like) = On-dropped e.coros e.stacks stacks' c d on in
          let (low, high) = fit.frame x s k st q a in
          (omega (arith, low, like.same_sptr), omega (arith, high, like.same_sptr, like.same_ssze));
      fresh = record {
        fits = fit.fresh.fits;
        roomy = fit.fresh.roomy;
        apart = λ s st' q.
            let (st, l, like) = d.before s st' q in
            omega (arith, fit.fresh.apart s st l, like.same_sptr, like.same_ssze);
      };
      roomy = λ s st' q.
          let (st, l, like) = d.before s st' q in omega (arith, fit.roomy s st l, like.same_ssze);
    };
    kept = λ r x at size img n w. drop_Kept e.coros e.stacks stacks' c d n w;
  }
    where
      stays : (x : ℕ) → x ≢ c → Has e.coros x → Has (update e.coros c none) x
      stays x n (k, there) = (k, update_ne e.coros c x none n ∙ there)

      stacked :
          (xs : List ℕ)
          → All (Has e.coros) xs
          → All (λ x. x ≢ c) xs
          → All (Has (update e.coros c none)) xs
      stacked [] h n = tt
      stacked (x ∷ xs) h n = (stays x n.0 h.0, stacked xs h.1 n.1)

  alike : (st : CoroStack) → st.coro ≢ some c → Like c st st
  alike st n = record {
    same_sptr = refl;
    same_ssze = refl;
    same_shared = refl;
    fewer = λ o q. (q, λ p. n (q ∙ ap some p));
    others = λ o m q. q;
  }

  -- No stack has `c` as its user.
  unused-Dropped :
      ((s : ℕ) (st : CoroStack) → e.stacks s ≡ some st → st.coro ≢ some c)
      → Dropped e.coros e.stacks e.stacks c
  unused-Dropped free = record {
    before = λ s st q. (st, q, alike st (free s st q));
    after = λ x s k st n on. (st, on.live, alike st (free s st on.live));
  }

  module _ (k : LibCoroCoroutine) (s : ℕ) (st : CoroStack) (on : On e.coros e.stacks c s k st) where
    -- Another stack does not serve `c`.
    elsewhere : (s' : ℕ) (st' : CoroStack) → s' ≢ s → e.stacks s' ≡ some st' → st'.coro ≢ some c
    elsewhere s' st' n l q =
        let (k', on') = settled.laws.user s' c st' l q in
        n (
          some_injective (
            sym on'.stack
            ∙ ap (λ (y : LibCoroCoroutine). y.stack) (some_injective (sym on'.coro ∙ on.coro))
            ∙ on.stack))

    abbrev freed : CoroStack
    freed = record st { coro = none }

    freed-Like : st.coro ≡ some c → Like c st freed
    freed-Like mine = record {
      same_sptr = refl;
      same_ssze = refl;
      same_shared = refl;
      fewer = λ o q. cc;
      others = λ o n q. absurd (n (some_injective (sym q ∙ mine)));
    }

    freed-Dropped : st.coro ≡ some c → Dropped e.coros e.stacks (update e.stacks s (some freed)) c
    freed-Dropped mine = record {
      before = λ s' st' q. elim (update_cases e.stacks s s' (some freed) (some st') q) [
        | inl (p, x) ↦
            (st, ap e.stacks p ∙ on.live, subst (Like c st) (some_injective x) (freed-Like mine))
        | inr (n, x) ↦ (st', x, alike st' (elsewhere s' st' n x))
      ];
      after = λ x s' k' st' n on'. elim (eq-or-ne s' s) [
        | inl p ↦
            let same : st ≡ st' = some_injective (sym on.live ∙ ap e.stacks (sym p) ∙ on'.live) in
            (
              freed,
              ap (update e.stacks s (some freed)) p ∙ update_self e.stacks s (some freed),
              subst (λ t. Like c t freed) same (freed-Like mine),
            )
        | inr m ↦ (
          st',
          update_ne e.stacks s s' (some freed) m ∙ on'.live,
          alike st' (elsewhere s' st' m on'.live),
        )
      ];
    }

    freed_pool : (i : ℕ) → IsShared e.stacks i → IsShared (update e.stacks s (some freed)) i
    freed_pool i (x, l, h) = elim (eq-or-ne i s) [
      | inl p ↦ (
        freed,
        ap (update e.stacks s (some freed)) p ∙ update_self e.stacks s (some freed),
        ap (λ (y : CoroStack). y.shared) (some_injective (sym on.live ∙ ap e.stacks (sym p) ∙ l))
            ∙ h,
      )
      | inr n ↦ (x, update_ne e.stacks s i (some freed) n ∙ l, h)
    ]

    private-Dropped : st.shared ≡ false → Dropped e.coros e.stacks (update e.stacks s none) c
    private-Dropped private = record {
      before = λ s' st' q. elim (update_cases e.stacks s s' none (some st') q) [
        | inl (p, x) ↦ cc
        | inr (n, x) ↦ (st', x, alike st' (elsewhere s' st' n x))
      ];
      after = λ x s' k' st' n on'. elim (eq-or-ne s' s) [
        | inl p ↦
            let same : st' ≡ st = some_injective (sym on'.live ∙ ap e.stacks p ∙ on.live) in
            absurd (
              n (
                settled.laws.alone x c s k' k st
                  (subst (On e.coros e.stacks x s k') same
                    (subst (λ i. On e.coros e.stacks x i k' st') p on'))
                  on private))
        | inr m ↦ (
          st',
          update_ne e.stacks s s' none m ∙ on'.live,
          alike st' (elsewhere s' st' m on'.live),
        )
      ];
    }

    private_pool :
        st.shared ≡ false → (i : ℕ) → IsShared e.stacks i → IsShared (update e.stacks s none) i
    private_pool private i (x, l, h) = elim (eq-or-ne i s) [
      | inl p ↦ cc (
        ap (λ (y : CoroStack). y.shared) (some_injective (sym on.live ∙ ap e.stacks (sym p) ∙ l)),
        h,
        private,
      )
      | inr n ↦ (x, update_ne e.stacks s i none n ∙ l, h)
    ]

    delete_freed :
        st.shared ≡ true
        → st.coro ≡ some c
        → delete_coro c e ≡ some (without (update e.stacks s (some freed)))
    unfolding delete_coro without
    delete_freed h q = ground (arith, on.coro, on.stack, on.live, same_pointer_refl (some c))

    delete_shared :
        st.shared ≡ true
        → same_pointer st.coro (some c) ≡ false
        → delete_coro c e ≡ some (without e.stacks)
    unfolding delete_coro without
    delete_shared h q = ground (arith, on.coro, on.stack, on.live)

    delete_private : st.shared ≡ false → delete_coro c e ≡ some (without (update e.stacks s none))
    unfolding delete_coro without
    delete_private h = ground (arith, on.coro, on.stack, on.live)

    delete_on : Ensures (Deleted c e) (delete_coro c e)
    delete_on = elim (Bool-cases st.shared) [
      | inr h ↦ subst (Ensures (Deleted c e)) (sym (delete_private h)) (
          result _ (
            without-Deleted (update e.stacks s none) (private-Dropped h)
              (All-mono e.pool (private_pool h) settled.alive.pooled)))
      | inl h ↦ elim (Bool-cases (same_pointer st.coro (some c))) [
        | inl q ↦
            let mine = same_pointer→eq st.coro (some c) q in
            subst (Ensures (Deleted c e)) (sym (delete_freed h mine)) (
              result _ (
                without-Deleted (update e.stacks s (some freed)) (freed-Dropped mine)
                  (All-mono e.pool freed_pool settled.alive.pooled)))
        | inr q ↦ subst (Ensures (Deleted c e)) (sym (delete_shared h q)) (
            result _ (
              without-Deleted e.stacks (unused-Dropped (λ s' st' l p. unused h q s' st' l p))
                settled.alive.pooled))
      ]
    ]
      where
        unused :
            st.shared ≡ true
            → same_pointer st.coro (some c) ≡ false
            → (s' : ℕ) (st' : CoroStack) → e.stacks s' ≡ some st'
            → st'.coro ≢ some c
        unused h q s' st' l p = elim (eq-or-ne s' s) [
          | inl i ↦
              let same : st' ≡ st = some_injective (sym l ∙ ap e.stacks i ∙ on.live) in
              cc (same_pointer_refl (some c), ap (λ (y : CoroStack). y.coro) same, p, q)
          | inr n ↦ elsewhere s' st' n l p
        ]

  delete_bare :
      (k : LibCoroCoroutine)
      → e.coros c ≡ some k
      → k.stack ≡ none
      → delete_coro c e ≡ some (without e.stacks)
  unfolding delete_coro without
  delete_bare k p q = ground arith

  -- The destructor of a coroutine that does not run and that nothing leads to comes to an end; the
  -- thread stays settled, the coroutine is gone, and no other changes or loses its bytes, those on the
  -- same stack included.
  pub delete_coro-Deleted : Ensures (Deleted c e) (delete_coro c e)
  delete_coro-Deleted =
      let (k, there) = spent.exists in
      elim (Option-cases k.stack) [
        | inl p ↦ subst (Ensures (Deleted c e)) (sym (delete_bare k there p)) (
            result _ (
              without-Deleted e.stacks
                (unused-Dropped (λ s st l q.
                  let (k', on) = settled.laws.user s c st l q in
                  cc (some_injective (sym on.coro ∙ there), p, on.stack)))
                settled.alive.pooled))
        | inr (s, p) ↦
            let (st, l) = settled.laws.live_stack c s k there p in
            delete_on k s st (record { coro = there; stack = p; live = l })
      ]
