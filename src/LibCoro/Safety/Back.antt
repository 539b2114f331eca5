-- ===== src/LibCoro/Safety/Back.antt =====
-- `ResumeStackBuffer` (libcoro.cpp) when no other bytes are on the stack.
use coroxx.Base.{
  ℕ, ◌+◌, ◌-◌, ◌≤◌, length, take, ◌≡◌, refl, ◌⊎◌, inl, inr, true, none, some, some_injective, List,
  arith, subst, sym, ap, ◌∙◌, Option-cases, Ensures, result, leb, take-length,
}
use coroxx.Base.Store.{update_cases, read_block, write_block}
use coroxx.LibCoro.Objects.{CoroStack, LibCoroCoroutine, CoroEnv, CallSite, set_coro}
use coroxx.LibCoro.Buffer.{resume_stack_buffer}
use coroxx.LibCoro.Layout.{On, Kept, Parked}
use coroxx.LibCoro.Layout.Change.{Kept-other, On-before}
use coroxx.LibCoro.Layout.Bytes.{write_Kept, Kept_resident, Kept_buffered}
use coroxx.LibCoro.Safety.{Nobody, Stage}
use coroxx.LibCoro.Safety.Parts.{widen, Stage-change}
use coroxx.LibCoro.Safety.Enter.{Taken, Inited}

module _ (r : ℕ) (site : CallSite) (this : ℕ) (e₀ : CoroEnv) (B : ℕ → Type 0) where
  -- All coroutines but `this` are in their buffers or on stacks that serve them.
  abbrev pub Alone : CoroEnv → Type 0
  Alone e =
      Stage r site this e₀ B Nobody (λ x. x ≡ this) (λ x. x ≡ this) e
      × ((m : ℕ) × (e.main ≡ some m))
      × Taken e.coros e.stacks this
      × Inited e.coros this

  -- `this` can run: its bytes are where they were when it was suspended.
  abbrev pub Back : CoroEnv → CoroEnv → Type 0
  Back e e' =
      Stage r site this e₀ (λ x. B x ⊎ (x ≡ this)) Nobody (λ x. x ≡ this) Nobody e'
      × ((m : ℕ) × (e'.main ≡ some m))
      × Taken e'.coros e'.stacks this
      × Inited e'.coros this
      × ((at size : ℕ) (img : List ℕ)
          → Kept r e.coros e.stacks e.mem this at size img
          → read_block e'.mem at (size - r) ≡ img)
      × (e'.current ≡ e.current)

  no_buffer :
      (e : CoroEnv) (k : LibCoroCoroutine)
      → e.coros this ≡ some k
      → k.save_buffer ≡ none
      → resume_stack_buffer this e ≡ some e
  unfolding resume_stack_buffer
  no_buffer e k p q = ground arith

  restored : CoroEnv → LibCoroCoroutine → ℕ → List ℕ → CoroEnv
  restored e k sp bytes =
      set_coro this (record k { save_buffer = none; stack_sp = none; save_buffer_size = 0 })
        (record e { mem = write_block e.mem sp bytes })

  copied :
      (e : CoroEnv) (s : ℕ) (k : LibCoroCoroutine) (st : CoroStack) (sp : ℕ) (bytes : List ℕ)
      → On e.coros e.stacks this s k st
      → st.shared ≡ true
      → k.stack_sp ≡ some sp
      → k.save_buffer ≡ some bytes
      → take k.save_buffer_size bytes ≡ bytes
      → leb k.save_buffer_size (length bytes) ≡ true
      → resume_stack_buffer this e ≡ some (restored e k sp bytes)
  unfolding resume_stack_buffer restored
  copied e s k st sp bytes on q m b t l = ground (arith, on.coro, on.stack, on.live)

  pub resident-Back :
      (e : CoroEnv) (k : LibCoroCoroutine)
      → e.coros this ≡ some k
      → k.save_buffer ≡ none
      → Alone e
      → Back e e
  resident-Back e k there bare ((laws, keeps, alive, roomy, live), main, taken, inited) = (
    (
      widen laws (λ x s k₁ st on z q. absurd z) (λ x s k₁ st on q y. y)
          (λ x s k₁ st on z.
            inl (
              ap (λ y. y.save_buffer) (some_injective (sym on.coro ∙ ap e.coros z ∙ there))
              ∙ bare)),
      λ x at size img b w. keeps x at size img (λ z. b (inl z)) w,
      alive,
      roomy,
      live,
    ),
    main,
    taken,
    inited,
    λ at size img w. Kept_resident w k there bare,
    refl,
  )

  buffered-Back :
      (e : CoroEnv) (s : ℕ) (k : LibCoroCoroutine) (st : CoroStack) (parked : Parked st k)
      (bytes : List ℕ)
      → On e.coros e.stacks this s k st
      → k.save_buffer ≡ some bytes
      → length bytes ≡ k.save_buffer_size
      → Alone e
      → Back e (restored e k parked.sp bytes)
  unfolding restored
  buffered-Back e s k st parked bytes on held_bytes whole
        ((laws, keeps, alive, roomy, live), main, taken, inited) =
      let k' : LibCoroCoroutine = record k {
        save_buffer = none;
        stack_sp = none;
        save_buffer_size = 0;
      } in
      (
        Stage-change r site this e₀ e this k k' (write_block e.mem parked.sp bytes) on.coro refl
            (laws, keeps, alive, roomy, live)
            (record {
              saved = λ b q. cc;
              started = inl (inited k on.coro);
              resident = λ s₁ st₁ a q. inl (taken s₁ k st₁ a);
              suspended = λ s₁ st₁ a q. inr refl;
              users = λ s₁ st₁ a q. inl refl;
            })
            (λ x n. ((λ z. z), (λ y. y), (λ z. absurd (n z))))
            (λ x at size img b. (
              (λ z. b (inl z)),
              λ w.
                  Kept-other e.coros e.stacks this k k' on.coro refl (λ p. b (inr p))
                    (write_Kept laws s st on.live parked.sp bytes parked.above high e.mem
                      (λ k₁ st₁ a q p y _ _. absurd (b (inr (lone a q)))) w),
            )),
        main,
        λ s₁ k₁ st₁ a.
            let (k₂, a') = On-before e.coros e.stacks this k k' on.coro refl a in
            taken s₁ k₂ st₁ a',
        λ k₁ w. elim (update_cases e.coros this this (some k') (some k₁) w) [
          | inl (p, x) ↦ ap (λ y. y.ctx_inited) (sym (some_injective x)) ∙ inited k on.coro
          | inr (n, x) ↦ absurd (n refl)
        ],
        λ at size img w. Kept_buffered w k on.coro bytes parked.sp held_bytes parked.marked whole,
        refl,
      )
    where
      high : parked.sp + length bytes ≤ st.sptr + st.ssze
      high = ground (arith, parked.exact)

      lone :
          {x : ℕ} {k₁ : LibCoroCoroutine} {st₁ : CoroStack}
          → On e.coros e.stacks x s k₁ st₁
          → k₁.save_buffer ≡ none
          → x ≡ this
      lone {x} {k₁} {st₁} a q = elim (laws.resident x s k₁ st₁ a q) [
        | inr z ↦ absurd z
        | inl u ↦ some_injective (
            sym u
            ∙ ap (λ (t : CoroStack). t.coro) (some_injective (sym a.live ∙ on.live))
            ∙ taken s k st on)
      ]

  pub resume_stack_buffer-Back :
      (e : CoroEnv) → Alone e → Ensures (Back e) (resume_stack_buffer this e)
  resume_stack_buffer-Back e al =
      let (k, there) = al.0.4 in
      elim (Option-cases k.save_buffer) [
        | inl p ↦
            subst (Ensures (Back e)) (sym (no_buffer e k there p))
              (result e (resident-Back e k there p al))
        | inr (bytes, p) ↦
            let w = al.0.0.saved this k bytes there p in
            subst (Ensures (Back e))
              (sym (
                copied e w.number k w.stack w.parked.sp bytes w.on w.shared w.parked.marked p
                  (ap (λ n. take n bytes) (sym w.whole) ∙ take-length bytes)
                  (ground (arith, w.whole))))
              (result (restored e k w.parked.sp bytes)
                (buffered-Back e w.number k w.stack w.parked bytes w.on p w.whole al))
      ]
