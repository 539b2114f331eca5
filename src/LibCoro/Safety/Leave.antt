-- ===== src/LibCoro/Safety/Leave.antt =====
-- The end of a switch: from `Resume`, or through the swap coroutine, to `this` (libcoro.cpp).
use coroxx.Base.{
  ℕ, ◌-◌, ◌≡◌, refl, ◌≢◌, ◌⊎◌, inl, inr, true, false, Option, none, some, some_injective, List,
  arith, subst, sym, ap, ◌∙◌, Bool-cases, Ensures, Ensures_bind, result, ◌>>=◌, same_pointer,
  same_pointer→eq, same_pointer_refl, if◌then◌else◌,
}
use coroxx.Base.Store.{read_block}
use coroxx.LibCoro.Objects.{LibCoroCoroutine, CoroEnv, CallSite, coro_ctx, swap_coro}
use coroxx.LibCoro.Buffer.{resume_stack_buffer}
use coroxx.LibCoro.Layout.{On, Kept}
use coroxx.Base.{◌+◌, Ensures_both}
use coroxx.LibCoro.Safety.{Nobody, Departed, Nobody, Settled}
use coroxx.LibCoro.Safety.Parts.{widen}
use coroxx.LibCoro.Safety.Enter.{Shares}
use coroxx.LibCoro.Safety.Save.{Entered}
use coroxx.LibCoro.Safety.Mark.{Gone, mark-Marked}
use coroxx.LibCoro.Safety.Back.{Alone, Back, resident-Back, resume_stack_buffer-Back}
use coroxx.LibCoro.Safety.Swap.{clear-Alone, swap-Alone}
use coroxx.LibCoro.Switch.{coro_transfer, leave, settle}

-- After a switch to `this` in the state `e₀`: `this` runs, with the bytes that it was suspended
-- with, and every other suspended coroutine keeps its bytes, wherever they are.
pub record Switched (r frame this : ℕ) (e₀ e : CoroEnv) : Type 0 where
  pub settled : Settled e
  pub current : e.current ≡ some this
  pub running : e.running ≡ some (coro_ctx this)
  pub others :
      (c at size : ℕ) (img : List ℕ)
      → e₀.current ≢ some c
      → c ≢ this
      → Kept r e₀.coros e₀.stacks e₀.mem c at size img
      → Kept r e.coros e.stacks e.mem c at size img
  pub back :
      (at size : ℕ) (img : List ℕ)
      → e₀.current ≢ some this
      → Kept r e₀.coros e₀.stacks e₀.mem this at size img
      → read_block e.mem at (size - r) ≡ img
  pub departed :
      (c : ℕ) → e₀.current ≡ some c → c ≢ this → Departed r frame e₀ c e.coros e.stacks e.mem

module _ (r : ℕ) (site : CallSite) (this : ℕ) (e₀ : CoroEnv) (old : Option ℕ)
    (ran : e₀.current ≡ old) where
  abbrev Ran₀ : ℕ → Type 0
  Ran₀ x = old ≡ some x

  -- The transfer to `this`.
  abbrev arrive : CoroEnv → CoroEnv
  arrive e = record e { current = some this; running = some (coro_ctx this) }

  arrive-Switched :
      (e e' : CoroEnv)
      → Alone r site this e₀ Ran₀ e
      → Back r site this e₀ Ran₀ e e'
      → ((c : ℕ) → old ≡ some c → c ≢ this → Departed r site.frame e₀ c e'.coros e'.stacks e'.mem)
      → Switched r site.frame this e₀ (arrive e')
  arrive-Switched e e' al ((laws, keeps, alive, roomy, live), main, taken, inited, back, same)
        gone =
      record {
        settled = record {
          laws =
              widen laws (λ x s k st on z q. absurd z) (λ x s k st on q y. ap some (sym y))
                (λ x s k st on z. absurd z);
          alive = alive;
          current_live = λ c q.
              subst (λ x. (k : LibCoroCoroutine) × (e'.coros x ≡ some k)) (some_injective q) live;
          serving = λ c s k st q on.
              taken s k st (subst (λ x. On e'.coros e'.stacks x s k st) (sym (some_injective q)) on)
              ∙ q;
          inited = λ c k q w. inited k (ap e'.coros (some_injective q) ∙ w);
          has_main = λ c q. main;
          first = λ q. cc;
        };
        current = refl;
        running = refl;
        others = λ c at size img n m w. keeps c at size img (or_else c n m) w;
        back = λ at size img n w. back at size img (al.0.1 this at size img (λ b. n (ran ∙ b)) w);
        departed = λ c p n. gone c (sym ran ∙ p) n;
      }
    where
      or_else : (c : ℕ) → e₀.current ≢ some c → c ≢ this → (old ≡ some c) ⊎ (c ≡ this) → ⊥
      or_else c n m (inl p) = n (ran ∙ p)
      or_else c n m (inr p) = m p

  -- Where the processor goes, a coroutine runs.
  abbrev pub Left : CoroEnv → Type 0
  Left e = Ensures (Switched r site.frame this e₀) (settle e)

  direct :
      (e e' : CoroEnv)
      → Alone r site this e₀ Ran₀ e
      → Back r site this e₀ Ran₀ e e'
      → e'.current ≡ some this
      → ((c : ℕ) → old ≡ some c → c ≢ this → Departed r site.frame e₀ c e'.coros e'.stacks e'.mem)
      → Left (coro_transfer (coro_ctx this) e')
  unfolding settle coro_transfer
  direct e e' al back is gone =
      subst (Ensures (Switched r site.frame this e₀))
        (λ i. some (record e' { current = sym is i; running = some (coro_ctx this) }))
        (result (arrive e') (arrive-Switched e e' al back gone))

module _ (r : ℕ) (site : CallSite) (this : ℕ) (e₀ : CoroEnv) where
  first-Alone :
      (e : CoroEnv)
      → Entered r site this e₀ none none e
      → Alone r site this e₀ (λ x. none ≡ some x) e
  first-Alone e ((laws, keeps, alive, roomy, live), quiet, frame, main, current, taken, inited) = (
    (
      widen laws (λ x s k st on (p, n, w) q. cc) (λ x s k st on q y. runs x y)
          (λ x s k st on z. inr (only x z)),
      λ x at size img b w. keeps x at size img (λ z. z) w,
      alive,
      roomy,
      live,
    ),
    main,
    taken,
    inited,
  )
    where
      runs : (x : ℕ) → (◌≡◌ {A = Option ℕ} none (some x)) ⊎ (x ≡ this) → x ≡ this
      runs x (inl p) = cc
      runs x (inr p) = p

      only : (x : ℕ) → Nobody x ⊎ (x ≡ this) → x ≡ this
      only x (inl z) = absurd z
      only x (inr p) = p

  pub leave_first :
      (e : CoroEnv)
      → (ran : e₀.current ≡ none) → Entered r site this e₀ none none e
      → Ensures (Left r site this e₀ none ran) (leave this none site e)
  unfolding leave
  leave_first e ran entered =
      let (k, there) = entered.0.4 in
      let al = first-Alone e entered in
      result (coro_transfer (coro_ctx this) e) (
        direct r site this e₀ none ran e e al
          (resident-Back r site this e₀ (λ x. none ≡ some x) e k there
            (entered.1.first refl this k there).0 al)
          entered.4 (λ c p. cc))

module _ (r : ℕ) (site : CallSite) (this : ℕ) (e₀ : CoroEnv) (c : ℕ)
    (ran : e₀.current ≡ some c) where
  abbrev Ran₁ : ℕ → Type 0
  Ran₁ x = some c ≡ some x

  -- All but `this` keep their bytes in the end, `c` too.
  abbrev Rest : CoroEnv → CoroEnv → Type 0
  Rest e e' = Back r site this e₀ Ran₁ e e' × Back r site this e Nobody e e'

  resumed :
      (e : CoroEnv) → Alone r site this e₀ Ran₁ e → Ensures (Rest e) (resume_stack_buffer this e)
  resumed e al =
      let ((laws, keeps, alive, roomy, live), main, taken, inited) = al in
      Ensures_both (resume_stack_buffer-Back r site this e₀ Ran₁ e al) (
        resume_stack_buffer-Back r site this e Nobody e
          ((laws, λ x at size img b w. w, alive, roomy, live), main, taken, inited))

  Departed-rest :
      (e e' : CoroEnv)
      → Rest e e'
      → Departed r site.frame e₀ c e.coros e.stacks e.mem
      → (x : ℕ) → some c ≡ some x
      → x ≢ this
      → Departed r site.frame e₀ x e'.coros e'.stacks e'.mem
  Departed-rest e e' rest gone x p n s k st on shared =
      let is : c ≡ x = some_injective p in
      let kept = gone s k st (subst (λ y. On e₀.coros e₀.stacks y s k st) (sym is) on) shared in
      rest.1.0.1 x _ _ _ (or_this n) (
        subst
          (λ y.
            Kept r e.coros e.stacks e.mem y site.frame (st.sptr + st.ssze - site.frame)
              (read_block e₀.mem site.frame (st.sptr + st.ssze - site.frame - r)))
          is kept)
    where
      or_this : {x : ℕ} → x ≢ this → ¬ (Nobody x ⊎ (x ≡ this))
      or_this n (inl z) = z
      or_this n (inr q) = n q

  -- Through the swap coroutine.
  through_swap :
      (e : CoroEnv) (k : LibCoroCoroutine)
      → e.coros this ≡ some k
      → ((kc : LibCoroCoroutine) → e.coros c ≡ some kc → kc.stack ≡ k.stack)
      → Gone r site this e₀ c e
      → Left r site this e₀ (some c) ran (
          coro_transfer swap_coro
            (record e { swap_ctx = record { «from» = some c; to = some this; inited = true } }))
  unfolding settle coro_transfer
  through_swap e k there same (marked, gone) =
      Ensures_bind (swap-Alone r site this e₀ c _ k there same marked) λ e₁ (al, keeps).
        Ensures_bind (resumed e₁ al) λ e₂ rest. result (arrive r site this e₀ (some c) ran e₂) (
          arrive-Switched r site this e₀ (some c) ran e₁ e₂ al rest.0 (
            Departed-rest e₁ e₂ rest
              (λ s k₁ st on shared. keeps c _ _ _ (λ z. z) (gone s k₁ st on shared))))

  -- What follows the mark.
  after : CoroEnv → Option CoroEnv
  after e = do
    kc ← e.coros c
    k ← e.coros this
    if same_pointer kc.stack k.stack
        then some (
            coro_transfer swap_coro
              (record e { swap_ctx = record { «from» = some c; to = some this; inited = true } }))
        else do e ← resume_stack_buffer this e; some (coro_transfer (coro_ctx this) e)

  after_swap :
      (e : CoroEnv) (kc k : LibCoroCoroutine)
      → e.coros c ≡ some kc
      → e.coros this ≡ some k
      → same_pointer kc.stack k.stack ≡ true
      → after e
        ≡ some (
            coro_transfer swap_coro
              (record e { swap_ctx = record { «from» = some c; to = some this; inited = true } }))
  unfolding after
  after_swap e kc k p q h = ground arith

  after_direct :
      (e : CoroEnv) (kc k : LibCoroCoroutine)
      → e.coros c ≡ some kc
      → e.coros this ≡ some k
      → same_pointer kc.stack k.stack ≡ false
      → after e ≡ (resume_stack_buffer this e >>= λ e. some (coro_transfer (coro_ctx this) e))
  unfolding after
  after_direct e kc k p q h = ground arith

  after-Left :
      (e : CoroEnv) → Gone r site this e₀ c e → Ensures (Left r site this e₀ (some c) ran) (after e)
  after-Left e (marked, gone) =
      let (k, there) = marked.0.4 in
      let (kc, here, bare, begun, parked) = marked.5 in
      elim (Bool-cases (same_pointer kc.stack k.stack)) [
        | inl p ↦
            subst (Ensures (Left r site this e₀ (some c) ran))
              (sym (after_swap e kc k here there p))
              (result _ (
                through_swap e k there
                  (λ kc' q.
                    ap (λ (y : LibCoroCoroutine). y.stack) (some_injective (sym q ∙ here))
                    ∙ same_pointer→eq kc.stack k.stack p)
                  (marked, gone)))
        | inr p ↦
            let al =
              clear-Alone r site this e₀ c e (λ n w. apart_stacks e kc k here there p w) marked in
            subst (Ensures (Left r site this e₀ (some c) ran))
              (sym (after_direct e kc k here there p))
              (Ensures_bind (resumed e al) λ e₂ rest. result _ (
                direct r site this e₀ (some c) ran e e₂ al rest.0 (rest.0.5 ∙ marked.2)
                  (Departed-rest e e₂ rest gone)))
      ]
    where
      apart_stacks :
          (e : CoroEnv) (kc k : LibCoroCoroutine)
          → e.coros c ≡ some kc
          → e.coros this ≡ some k
          → same_pointer kc.stack k.stack ≡ false
          → Shares e.coros e.stacks c this
          → ⊥
      apart_stacks e kc k here there p w =
          let a : kc.stack ≡ some w.number =
            ap (λ (y : LibCoroCoroutine). y.stack) (some_injective (sym here ∙ w.on_other.coro))
            ∙ w.on_other.stack in
          let b : k.stack ≡ some w.number =
            ap (λ (y : LibCoroCoroutine). y.stack) (some_injective (sym there ∙ w.on_mine.coro))
            ∙ w.on_mine.stack in
          cc (same_pointer_refl kc.stack, a, b, p)

  pub leave_second :
      (e : CoroEnv)
      → Entered r site this e₀ (some c) none e
      → Ensures (Left r site this e₀ (some c) ran) (leave this (some c) site e)
  unfolding leave after
  leave_second e entered =
      Ensures_bind (mark-Marked r site this e₀ c e entered) λ e₁ marked. after-Left e₁ marked
