-- ===== src/LibCoro/Safety/Swap.antt =====
-- The copy that the swap coroutine makes of the coroutine that ran (`swapCoroFunc` of libcoro.cpp).
use coroxx.Base.{
  ℕ, length, ◌≡◌, refl, ◌≢◌, inl, inr, true, false, none, some, some_injective, arith, subst, sym,
  ap, ◌∙◌, Bool-cases, Option-cases, Ensures, result,
}
use coroxx.Base.Store.{update_cases, read_block, length-read_block}
use coroxx.LibCoro.Objects.{CoroStack, LibCoroCoroutine, CoroEnv, CallSite, set_coro}
use coroxx.LibCoro.Buffer.{save_stack_buffer}
use coroxx.LibCoro.Layout.{On, Parked}
use coroxx.LibCoro.Layout.Change.{On-before}
use coroxx.LibCoro.Layout.Bytes.{save_Kept}
use coroxx.LibCoro.Safety.{Keeps, Nobody}
use coroxx.LibCoro.Safety.Parts.{widen, Stage-change, On-unique, Parked_flags}
use coroxx.LibCoro.Safety.Enter.{Shares}
use coroxx.LibCoro.Safety.Mark.{Marked}
use coroxx.LibCoro.Safety.Back.{Alone}

module _ (r : ℕ) (site : CallSite) (this : ℕ) (e₀ : CoroEnv) (c : ℕ) where
  abbrev Ran : ℕ → Type 0
  Ran x = some c ≡ some x

  swapped : CoroEnv → LibCoroCoroutine → ℕ → CoroEnv
  swapped e k sp =
      set_coro c (record k { save_buffer = some (read_block e.mem sp k.save_buffer_size) }) e

  swap_shared :
      (e : CoroEnv) (s : ℕ) (k : LibCoroCoroutine) (st : CoroStack) (sp : ℕ)
      → On e.coros e.stacks c s k st
      → st.shared ≡ true
      → k.stack_sp ≡ some sp
      → save_stack_buffer c e ≡ some (swapped e k sp)
  unfolding save_stack_buffer swapped
  swap_shared e s k st sp on h m = ground (arith, on.coro, on.stack, on.live)

  swap_private :
      (e : CoroEnv) (s : ℕ) (k : LibCoroCoroutine) (st : CoroStack)
      → On e.coros e.stacks c s k st
      → st.shared ≡ false
      → save_stack_buffer c e ≡ some e
  unfolding save_stack_buffer
  swap_private e s k st on h = ground (arith, on.coro, on.stack, on.live)

  swap_none :
      (e : CoroEnv) (k : LibCoroCoroutine)
      → e.coros c ≡ some k
      → k.stack ≡ none
      → save_stack_buffer c e ≡ some e
  unfolding save_stack_buffer
  swap_none e k p q = ground arith

  -- The copy keeps the bytes of all, those of `c` too.
  swapped-Keeps :
      (e : CoroEnv) (k : LibCoroCoroutine) (sp : ℕ)
      → e.coros c ≡ some k
      → k.stack_sp ≡ some sp
      → k.save_buffer ≡ none
      → Keeps r Nobody e (swapped e k sp)
  unfolding swapped
  swapped-Keeps e k sp there marked bare x at size img b w =
      save_Kept e.coros e.stacks c k there sp marked bare e.mem w

  -- Nothing of `c` is on the stack of `this`.
  pub clear-Alone :
      (e : CoroEnv)
      → (c ≢ this → Shares e.coros e.stacks c this → ⊥)
      → Marked r site this e₀ c e
      → Alone r site this e₀ Ran e
  clear-Alone e off ((laws, keeps, alive, roomy, live), main, current, taken, inited, known) = (
    (
      widen laws
          (λ x s k st on (p, n, w) q. absurd (
            off (λ h. n (some_injective (sym p) ∙ h))
              (subst (λ y. Shares e.coros e.stacks y this) (some_injective (sym p)) w)))
          (λ x s k st on q y. y) (λ x s k st on z. inr z),
      keeps,
      alive,
      roomy,
      live,
    ),
    main,
    taken,
    inited,
  )

  swapped-Alone :
      (e : CoroEnv) (s : ℕ) (k kt : LibCoroCoroutine) (st : CoroStack) (parked : Parked st k)
      → On e.coros e.stacks c s k st
      → On e.coros e.stacks this s kt st
      → st.shared ≡ true
      → Marked r site this e₀ c e
      → Alone r site this e₀ Ran (swapped e k parked.sp)
  unfolding swapped
  swapped-Alone e s k kt st parked on mine shared (stage, main, current, taken, inited, known) =
      let k' : LibCoroCoroutine = record k {
        save_buffer = some (read_block e.mem parked.sp k.save_buffer_size);
      } in
      let same : known.0 ≡ k = some_injective (sym known.1 ∙ on.coro) in
      let bare = ap (λ (y : LibCoroCoroutine). y.save_buffer) (sym same) ∙ known.2 in
      let begun = ap (λ (y : LibCoroCoroutine). y.ctx_inited) (sym same) ∙ known.3 in
      (
        Stage-change r site this e₀ e c k k' e.mem on.coro refl stage
            (record {
              saved = λ bytes q. (
                s,
                st,
                on,
                shared,
                Parked_flags refl refl parked,
                ap length (some_injective (sym q))
                    ∙ length-read_block e.mem parked.sp k.save_buffer_size,
              );
              started = inl begun;
              resident = λ s₁ st₁ a q. cc;
              suspended = λ s₁ st₁ a q.
                  let (x, y, z) = On-unique on a in
                  inl (subst (λ t. Parked t k') z (Parked_flags refl refl parked));
              users = λ s₁ st₁ a q.
                  let (x, y, z) = On-unique on a in
                  inr (
                    some_injective
                      (sym q ∙ ap (λ (t : CoroStack). t.coro) (sym z) ∙ taken s kt st mine));
            })
            (λ x n. ((λ (p, q, w). absurd (n (some_injective (sym p)))), (λ y. y), (λ z. z)))
            (λ x at size img b. (
              b,
              λ w. save_Kept e.coros e.stacks c k on.coro parked.sp parked.marked bare e.mem w,
            )),
        main,
        λ s₁ k₁ st₁ a.
            let (k₂, a') = On-before e.coros e.stacks c k k' on.coro refl a in taken s₁ k₂ st₁ a',
        λ k₁ w. elim (update_cases e.coros c this (some k') (some k₁) w) [
          | inl (p, x) ↦ ap (λ y. y.ctx_inited) (sym (some_injective x)) ∙ begun
          | inr (n, x) ↦ inited k₁ x
        ],
      )

  -- `c` and `this` have one stack, or neither has one.
  pub swap-Alone :
      (e : CoroEnv) (k : LibCoroCoroutine)
      → e.coros this ≡ some k
      → ((kc : LibCoroCoroutine) → e.coros c ≡ some kc → kc.stack ≡ k.stack)
      → Marked r site this e₀ c e
      → Ensures (λ e'. Alone r site this e₀ Ran e' × Keeps r Nobody e e') (save_stack_buffer c e)
  swap-Alone e k there same marked =
      let (kc, here, bare, begun, parked) = marked.5 in
      elim (Option-cases kc.stack) [
        | inl p ↦
            subst (Ensures (λ e'. Alone r site this e₀ Ran e' × Keeps r Nobody e e'))
              (sym (swap_none e kc here p))
              (result e (
                clear-Alone e
                    (λ n w. cc (some_injective (sym here ∙ w.on_other.coro), p, w.on_other.stack))
                    marked,
                λ x at size img b w. w,
              ))
        | inr (s, p) ↦
            let (st, l) = marked.0.0.live_stack c s kc here p in
            let on : On e.coros e.stacks c s kc st = record { coro = here; stack = p; live = l } in
            let mine : On e.coros e.stacks this s k st = record {
              coro = there;
              stack = sym (same kc here) ∙ p;
              live = l;
            } in
            elim (Bool-cases st.shared) [
              | inl q ↦
                  let w = parked s st on q in
                  subst (Ensures (λ e'. Alone r site this e₀ Ran e' × Keeps r Nobody e e'))
                    (sym (swap_shared e s kc st w.sp on q w.marked))
                    (result (swapped e kc w.sp) (
                      swapped-Alone e s kc k st w on mine q marked,
                      swapped-Keeps e kc w.sp here w.marked bare,
                    ))
              | inr q ↦
                  subst (Ensures (λ e'. Alone r site this e₀ Ran e' × Keeps r Nobody e e'))
                    (sym (swap_private e s kc st on q))
                    (result e (
                      clear-Alone e (λ n w. n (marked.0.0.alone c this s kc k st on mine q)) marked,
                      λ x at size img b w. w,
                    ))
            ]
      ]
