-- ===== src/LibCoro/Safety/Mark.antt =====
-- The mark of the coroutine that runs at the end of `Resume` (libcoro.cpp).
use mathlib.Core.Path.{subst₂}
use coroxx.Base.{
  ℕ, ◌+◌, ◌^◌, ◌≤◌, ◌<◌, ◌≡◌, refl, ◌≢◌, ◌⊎◌, inl, inr, true, false, none, some, some_injective,
  arith, subst, sym, ap, ◌∙◌, Bool-cases, Option-cases, Ensures, result,
}
use coroxx.Base.Store.{update, update_cases, update_self}
use coroxx.LibCoro.Objects.{CoroStack, LibCoroCoroutine, CoroEnv, CallSite, set_coro}
use coroxx.LibCoro.Buffer.{used_size, mark_stack_resume_point}
use coroxx.LibCoro.Layout.{On, Parked}
use coroxx.LibCoro.Layout.Change.{Kept-other, On-before, On-any, On-self}
use coroxx.LibCoro.Layout.{held}
use coroxx.LibCoro.Layout.Bytes.{take-read_block}
use coroxx.Base.{take, ◌-◌}
use coroxx.Base.Store.{read_block, read_block-congr}
use coroxx.LibCoro.Safety.{Departed, Nobody, Stage}
use coroxx.LibCoro.Safety.Parts.{widen, Stage-change, On-unique}
use coroxx.LibCoro.Safety.Enter.{Taken, Shares, Inited}
use coroxx.LibCoro.Safety.Save.{Entered}

-- The size that a mark gives a coroutine reaches from the mark to the upper end of the stack without
-- wrapping round. The mark is on the stack, which is inside the address space.
pub used_size_lem :
    (st : CoroStack) (sp : ℕ)
    → st.sptr ≤ sp
    → sp ≤ st.sptr + st.ssze
    → st.sptr + st.ssze < 2 ^ 64
    → sp + used_size st sp ≡ st.sptr + st.ssze
unfolding used_size
used_size_lem st sp a b c = omega arith

module _ (r : ℕ) (site : CallSite) (this : ℕ) (e₀ : CoroEnv) (c : ℕ) where
  -- The coroutine `c`, which ran, can be put aside.
  abbrev pub Marked : CoroEnv → Type 0
  Marked e =
      Stage r site this e₀ (λ x. some c ≡ some x)
        (λ x. (some c ≡ some x) × (x ≢ this) × Shares e.coros e.stacks x this) (λ x. x ≡ this)
        (λ x. x ≡ this) e
      × ((m : ℕ) × (e.main ≡ some m))
      × (e.current ≡ some this)
      × Taken e.coros e.stacks this
      × Inited e.coros this
      × ((k : LibCoroCoroutine) × (e.coros c ≡ some k)
          × (k.save_buffer ≡ none)
          × (k.ctx_inited ≡ true)
          × ((s : ℕ) (st : CoroStack)
              → On e.coros e.stacks c s k st
              → st.shared ≡ true
              → Parked st k))

  -- What the mark leaves of the coroutine that ran.
  abbrev pub Gone : CoroEnv → Type 0
  Gone e = Marked e × Departed r site.frame e₀ c e.coros e.stacks e.mem

  -- The stack that the coroutine had is still its own.
  stack_now :
      (e : CoroEnv)
      → Entered r site this e₀ (some c) none e
      → (s : ℕ) (k₀ : LibCoroCoroutine) (st₀ : CoroStack) → On e₀.coros e₀.stacks c s k₀ st₀
      → (k : LibCoroCoroutine) → e.coros c ≡ some k
      → (st : CoroStack) × On e.coros e.stacks c s k st
        × (st.sptr ≡ st₀.sptr)
        × (st.ssze ≡ st₀.ssze)
        × (st.shared ≡ st₀.shared)
  stack_now e entered s k₀ st₀ on₀ k there =
      let frame = entered.2 in
      let (k₁, was, same) = frame.stays c k refl there in
      let mine : k.stack ≡ some s =
        same
        ∙ ap (λ (y : LibCoroCoroutine). y.stack) (some_injective (sym was ∙ on₀.coro))
        ∙ on₀.stack in
      let (st, l) = entered.0.0.live_stack c s k there mine in
      let on : On e.coros e.stacks c s k st = record { coro = there; stack = mine; live = l } in
      let w = frame.place c s k st refl on in
      let (_, _, former) = On-unique w.on on₀ in
      (
        st,
        on,
        w.same_sptr ∙ ap (λ (y : CoroStack). y.sptr) former,
        w.same_ssze ∙ ap (λ (y : CoroStack). y.ssze) former,
        w.same_shared ∙ ap (λ (y : CoroStack). y.shared) former,
      )

  marked : CoroEnv → LibCoroCoroutine → CoroStack → CoroEnv
  marked e k st =
      set_coro c
        (record k { stack_sp = some site.frame; save_buffer_size = used_size st site.frame }) e

  mark_none :
      (e : CoroEnv) (k : LibCoroCoroutine)
      → e.coros c ≡ some k
      → k.stack ≡ none
      → mark_stack_resume_point site.frame c e ≡ some e
  unfolding mark_stack_resume_point
  mark_none e k p q = ground arith

  mark_private :
      (e : CoroEnv) (s : ℕ) (k : LibCoroCoroutine) (st : CoroStack)
      → On e.coros e.stacks c s k st
      → st.shared ≡ false
      → mark_stack_resume_point site.frame c e ≡ some e
  unfolding mark_stack_resume_point
  mark_private e s k st on q = ground (arith, on.coro, on.stack, on.live)

  mark_shared :
      (e : CoroEnv) (s : ℕ) (k : LibCoroCoroutine) (st : CoroStack)
      → On e.coros e.stacks c s k st
      → st.shared ≡ true
      → mark_stack_resume_point site.frame c e ≡ some (marked e k st)
  unfolding mark_stack_resume_point marked
  mark_shared e s k st on q = ground (arith, on.coro, on.stack, on.live)

  unmarked-Marked :
      (e : CoroEnv) (k : LibCoroCoroutine)
      → e.coros c ≡ some k
      → ((s : ℕ) (st : CoroStack) → On e.coros e.stacks c s k st → st.shared ≡ true → ⊥)
      → Entered r site this e₀ (some c) none e
      → Marked e
  unmarked-Marked e k there off
        ((laws, keeps, alive, roomy, live), quiet, frame, main, current, taken, inited) =
      (
        (
          widen laws (λ x s k₁ st on w q. inr w) (λ x s k₁ st on q y. runs x s k₁ st on q y)
              (λ x s k₁ st on z. inr (only x z)),
          λ x at size img b w. keeps x at size img (λ z. z) w,
          alive,
          roomy,
          live,
        ),
        main,
        current,
        taken,
        inited,
        (
          k,
          there,
          quiet.clean c k refl there,
          quiet.inited c k refl there,
          λ s st on q. absurd (off s st on q),
        ),
      )
    where
      only : (x : ℕ) → Nobody x ⊎ (x ≡ this) → x ≡ this
      only x (inl z) = absurd z
      only x (inr p) = p

      runs :
          (x s : ℕ) (k₁ : LibCoroCoroutine) (st : CoroStack)
          → On e.coros e.stacks x s k₁ st
          → st.shared ≡ true
          → (some c ≡ some x) ⊎ (x ≡ this)
          → x ≡ this
      runs x s k₁ st on q (inl p) = absurd (
          off s st
            (record {
              coro = there;
              stack =
                  subst (λ (y : LibCoroCoroutine). y.stack ≡ some s)
                    (some_injective (sym on.coro ∙ ap e.coros (some_injective (sym p)) ∙ there))
                    on.stack;
              live = on.live;
            })
            q)
      runs x s k₁ st on q (inr p) = p

  marked-Marked :
      (e : CoroEnv) (s : ℕ) (k : LibCoroCoroutine) (st : CoroStack)
      → On e.coros e.stacks c s k st
      → st.shared ≡ true
      → Entered r site this e₀ (some c) none e
      → Marked (marked e k st)
  unfolding marked
  marked-Marked e s k st on shared
        ((laws, keeps, alive, roomy, live), quiet, frame, main, current, taken, inited) =
      let clean = quiet.clean c k refl on.coro in
      (
        Stage-change r site this e₀ e c k k' e.mem on.coro refl (laws, keeps, alive, roomy, live)
            (record {
              saved = λ bytes q. cc;
              started = inl (quiet.inited c k refl on.coro);
              resident = λ s₁ st₁ a q. elim (laws.resident c s₁ k st₁ a clean) [
                | inl p ↦ inl p
                | inr (p, n, w) ↦ inr (p, n, shares w)
              ];
              suspended = λ s₁ st₁ a q.
                  let (x, y, z) = On-unique on a in inl (subst (λ t. Parked t k') z parked);
              users = λ s₁ st₁ a q. inl clean;
            })
            (λ x n. ((λ (p, q, w). absurd (n (some_injective (sym p)))), other x n, only x))
            (λ x at size img b. (
              (λ z. z),
              λ w. Kept-other e.coros e.stacks c k k' on.coro refl (λ p. b (ap some (sym p))) w,
            )),
        main,
        current,
        λ s₁ k₁ st₁ a.
            let (k₂, a') = On-before e.coros e.stacks c k k' on.coro refl a in taken s₁ k₂ st₁ a',
        λ k₁ w. elim (update_cases e.coros c this (some k') (some k₁) w) [
          | inl (p, x) ↦
              ap (λ y. y.ctx_inited) (sym (some_injective x)) ∙ quiet.inited c k refl on.coro
          | inr (n, x) ↦ inited k₁ x
        ],
        (
          k',
          update_self e.coros c (some k'),
          clean,
          quiet.inited c k refl on.coro,
          λ s₁ st₁ a q.
              let before : On e.coros e.stacks c s₁ k st₁ = record {
                coro = on.coro;
                stack = a.stack;
                live = a.live;
              } in
              let (x, y, z) = On-unique on before in subst (λ t. Parked t k') z parked,
        ),
      )
    where
      k' : LibCoroCoroutine
      k' = record k { stack_sp = some site.frame; save_buffer_size = used_size st site.frame }

      parked : Parked st k'
      parked = record {
        sp = site.frame;
        marked = refl;
        above = (frame.place c s k st refl on).low;
        exact =
            used_size_lem st site.frame (frame.place c s k st refl on).low
              (frame.place c s k st refl on).high (laws.fits s st on.live);
      }

      only : (x : ℕ) → Nobody x ⊎ (x ≡ this) → x ≡ this
      only x (inl z) = absurd z
      only x (inr p) = p

      other : (x : ℕ) → x ≢ c → (some c ≡ some x) ⊎ (x ≡ this) → x ≡ this
      other x n (inl p) = absurd (n (some_injective (sym p)))
      other x n (inr p) = p

      shares : Shares e.coros e.stacks c this → Shares (update e.coros c (some k')) e.stacks c this
      shares w =
          let (x, y, z) = On-unique w.on_other on in
          let (mine, a) = On-any e.coros e.stacks c k k' on.coro refl w.on_mine in
          record {
            number = s;
            other = k';
            mine = mine;
            stack = st;
            on_other = On-self e.coros e.stacks c k k' on.coro refl on;
            on_mine = subst₂ (λ i t. On (update e.coros c (some k')) e.stacks this i mine t) y z a;
            bare = quiet.clean c k refl on.coro;
          }

  unmarked-Departed :
      (e : CoroEnv) (k : LibCoroCoroutine)
      → e.coros c ≡ some k
      → ((s : ℕ) (st : CoroStack) → On e.coros e.stacks c s k st → st.shared ≡ true → ⊥)
      → Entered r site this e₀ (some c) none e
      → Departed r site.frame e₀ c e.coros e.stacks e.mem
  unmarked-Departed e k there off entered s k₀ st₀ on₀ shared =
      let (st, on, _, _, same) = stack_now e entered s k₀ st₀ on₀ k there in
      absurd (off s st on (same ∙ shared))

  marked-Departed :
      (e : CoroEnv) (k : LibCoroCoroutine) (s : ℕ) (st : CoroStack)
      → On e.coros e.stacks c s k st
      → Entered r site this e₀ (some c) none e
      → Departed r site.frame e₀ c (marked e k st).coros (marked e k st).stacks (marked e k st).mem
  unfolding marked
  marked-Departed e k s st on entered s₀ k₀ st₀ on₀ shared =
      let (st', on', sptr, ssze, same) = stack_now e entered s₀ k₀ st₀ on₀ k on.coro in
      let (_, number, stack) = On-unique on on' in
      let k' : LibCoroCoroutine = record k {
        stack_sp = some site.frame;
        save_buffer_size = used_size st site.frame;
      } in
      let w = entered.2.place c s k st refl on in
      let exact = used_size_lem st site.frame w.low w.high (entered.0.0.fits s st on.live) in
      let sptr' : st.sptr ≡ st₀.sptr = ap (λ (y : CoroStack). y.sptr) stack ∙ sptr in
      let ssze' : st.ssze ≡ st₀.ssze = ap (λ (y : CoroStack). y.ssze) stack ∙ ssze in
      record {
        number = s;
        coroutine = k';
        stack = st;
        on = On-self e.coros e.stacks c k k' on.coro refl on;
        shared = ap (λ (y : CoroStack). y.shared) stack ∙ same ∙ shared;
        parked = record { sp = site.frame; marked = refl; above = w.low; exact = exact };
        place = refl;
        extent = omega (arith, exact, sptr', ssze');
        bytes =
            subst
              (λ b.
                take (used_size st site.frame - r)
                  (held e.mem b (used_size st site.frame) site.frame)
                ≡ read_block e₀.mem site.frame (st₀.sptr + st₀.ssze - site.frame - r))
              (sym (entered.1.clean c k refl on.coro))
              (take-read_block e.mem site.frame (used_size st site.frame - r)
                  (used_size st site.frame) (omega arith)
                ∙ read_block-congr e.mem e₀.mem site.frame (used_size st site.frame - r)
                    (λ x a b. w.bytes x a (omega (arith, exact, b)))
                ∙ ap (read_block e₀.mem site.frame) (omega (arith, exact, sptr', ssze')));
      }

  pub mark-Marked :
      (e : CoroEnv)
      → Entered r site this e₀ (some c) none e
      → Ensures Gone (mark_stack_resume_point site.frame c e)
  mark-Marked e entered =
      let (k, there) = entered.1.old_live c refl in
      let off_stack : ((s : ℕ) (st : CoroStack)
            → On e.coros e.stacks c s k st
            → st.shared ≡ true
            → ⊥)
          → Gone e =
        λ off. (unmarked-Marked e k there off entered, unmarked-Departed e k there off entered) in
      elim (Option-cases k.stack) [
        | inl p ↦
            subst (Ensures Gone) (sym (mark_none e k there p))
              (result e (off_stack (λ s st on q. cc (on.stack, p))))
        | inr (s, p) ↦
            let (st, l) = entered.0.0.live_stack c s k there p in
            let on : On e.coros e.stacks c s k st = record { coro = there; stack = p; live = l } in
            elim (Bool-cases st.shared) [
              | inl q ↦ subst (Ensures Gone) (sym (mark_shared e s k st on q)) (
                  result (marked e k st)
                    (marked-Marked e s k st on q entered, marked-Departed e k s st on entered))
              | inr q ↦ subst (Ensures Gone) (sym (mark_private e s k st on q)) (
                  result e (
                    off_stack (λ s' st' on' h.
                      let (x, y, z) = On-unique on on' in
                      cc (ap (λ (t : CoroStack). t.shared) z, q, h))))
            ]
      ]
