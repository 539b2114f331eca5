-- ===== src/LibCoro/Safety/Enter.antt =====
-- The middle of `Resume` (libcoro.cpp): which coroutine has to be saved, and the stack's new user.
use coroxx.Base.{
  ℕ, ◌≤◌, length, ◌≡◌, refl, ◌≢◌, ◌⊎◌, inl, inr, Bool, true, false, ◌&&◌, Option, none, some,
  some_injective, arith, subst, sym, ap, ◌∙◌, if◌then◌else◌, Bool-cases, Option-cases, Ensures,
  result, All-mono, same_pointer, same_pointer→eq, same_pointer_refl, eq-or-ne,
}
use coroxx.Base.Store.{update, update_cases, update_self, update_ne}
use coroxx.LibCoro.Objects.{CoroStack, LibCoroCoroutine, CoroEnv, CallSite, set_stack}
use coroxx.LibCoro.Layout.{Coros, Stacks, On}
use coroxx.LibCoro.Layout.Occupy.{occupy_Laws, occupy_Kept, On-from, On-taken}
use coroxx.LibCoro.Safety.{Placing, Nobody, IsShared}
use coroxx.LibCoro.Safety.Parts.{widen}
use coroxx.LibCoro.Safety.Assign.{Placed, Prepared}
use coroxx.LibCoro.Switch.{find_save_coro, occupy}

-- The coroutine that a stack served before it served `this`.
abbrev pub former : CoroEnv → LibCoroCoroutine → Option ℕ
former e k = elim k.stack [
  | none ↦ none
  | some s ↦ elim (e.stacks s) [ none ↦ none | some st ↦ st.coro ]
]

-- The stack of `this`, if it has one, serves it.
abbrev pub Taken : Coros → Stacks → ℕ → Type 0
Taken coros stacks this =
    (s : ℕ) (k : LibCoroCoroutine) (st : CoroStack)
    → On coros stacks this s k st
    → st.coro ≡ some this

-- `c` and `this` are on one stack, and the bytes of `c` are there.
pub record Shares (coros : Coros) (stacks : Stacks) (c this : ℕ) : Type 0 where
  pub number : ℕ
  pub other : LibCoroCoroutine
  pub mine : LibCoroCoroutine
  pub stack : CoroStack
  pub on_other : On coros stacks c number other stack
  pub on_mine : On coros stacks this number mine stack
  pub bare : other.save_buffer ≡ none

-- `this` has a context.
abbrev pub Inited : Coros → ℕ → Type 0
Inited coros this = (k : LibCoroCoroutine) → coros this ≡ some k → k.ctx_inited ≡ true

-- The choice of the coroutine to save: with none to save, the former user is `this` or the one that
-- runs.
abbrev pub Chosen : Option ℕ → Option ℕ → ℕ → Option ℕ → Type 0
Chosen u sc this old =
    ((o : ℕ) → sc ≡ some o → (u ≡ some o) × (o ≢ this))
    × (sc ≡ none → (c : ℕ) → u ≡ some c → (c ≡ this) ⊎ (old ≡ some c))

choice : (u : Option ℕ) (this : ℕ) (current : Option ℕ) (release : Bool) → Option ℕ
choice u this current release =
    if same_pointer u (some this)
    then none
    else if same_pointer u current && release
    then none
    else u

choice-Chosen :
    (u : Option ℕ) (this : ℕ) (current : Option ℕ) (release : Bool)
    → Chosen u (choice u this current release) this current
unfolding choice
choice-Chosen u this current release = elim (Bool-cases (same_pointer u (some this))) [
  | inl p ↦ (λ o q. cc, λ q c h. inl (some_injective (sym h ∙ same_pointer→eq u (some this) p)))
  | inr p ↦ elim (Bool-cases (same_pointer u current && release)) [
    | inl q ↦ (λ o w. cc, λ w c h. inr (sym (same_pointer→eq u current (ground arith)) ∙ h))
    | inr q ↦ (
      λ o w.
          let is : u ≡ some o = ground arith in
          (is, λ t. cc (same_pointer_refl (some this), is, ap some t, p)),
      λ w c h. let is : u ≡ none = ground arith in cc,
    )
  ]
]

module _ (r : ℕ) (site : CallSite) (this : ℕ) (e₀ : CoroEnv) (old : Option ℕ) (Y : ℕ → Type 0) where
  -- The stack of `this` serves it, and served `u` before.
  abbrev pub Met : Option ℕ → CoroEnv → Type 0
  Met u e =
      Placed r site this e₀ old (λ c. u ≡ some c) (λ c. Y c ⊎ (c ≡ this))
        (λ c. Nobody c ⊎ (c ≡ this)) e
      × Taken e.coros e.stacks this
      × ((c : ℕ) → u ≡ some c → c ≢ this → Shares e.coros e.stacks c this)
      × ((k : LibCoroCoroutine)
          → e.coros this ≡ some k
          → (k.ctx_inited ≡ true) ⊎ ((s : ℕ) × (k.stack ≡ some s)))

  module _ (e : CoroEnv) (prepared : Prepared r site this e₀ old Y e) (k : LibCoroCoroutine)
      (there : e.coros this ≡ some k) where
    no_stack :
        k.stack ≡ none
        → (release : Bool)
        → (find_save_coro this old release e ≡ some none)
          × (occupy this e ≡ some e)
          × (former e k ≡ none)
    unfolding find_save_coro occupy
    no_stack p release = (ground arith, ground arith, ground arith)

    on_stack :
        (s : ℕ) (st : CoroStack)
        → k.stack ≡ some s
        → e.stacks s ≡ some st
        → (release : Bool)
        → (find_save_coro this old release e ≡ some (choice st.coro this old release))
          × (occupy this e ≡ some (set_stack s (record st { coro = some this }) e))
          × (former e k ≡ st.coro)
    unfolding find_save_coro occupy choice
    on_stack s st p q release = (ground arith, ground arith, ground arith)

    pub find_save_coro-Chosen :
        (release : Bool)
        → Ensures (λ sc. Chosen (former e k) sc this old) (find_save_coro this old release e)
    find_save_coro-Chosen release = elim (Option-cases k.stack) [
      | inl p ↦
          let (a, b, c) = no_stack p release in
          subst (Ensures (λ sc. Chosen (former e k) sc this old)) (sym a)
            (result none ((λ o q. cc), λ q c' h. cc))
      | inr (s, p) ↦
          let (st, q) = prepared.0.0.0.live_stack this s k there p in
          let (a, b, c) = on_stack s st p q release in
          subst (Ensures (λ sc. Chosen (former e k) sc this old)) (sym a) (
            result (choice st.coro this old release) (
              subst (λ u. Chosen u (choice st.coro this old release) this old) (sym c)
                (choice-Chosen st.coro this old release)))
    ]

    bare-Met : k.stack ≡ none → Met none e
    bare-Met p =
        let (((laws, keeps, alive, roomy, live), quiet, frame, spare, main, current), has) =
          prepared in
        (
          (
            (
              widen laws (λ c s k' st on x q. absurd (off on x)) (λ c s k st on q y. y)
                  (λ c s k' st on z. absurd z),
              keeps,
              alive,
              roomy,
              live,
            ),
            quiet,
            frame,
            spare,
            main,
            current,
          ),
          λ s k' st on. absurd (off on (inr refl)),
          λ c q. cc,
          has,
        )
      where
        off :
            {c s : ℕ} {k' : LibCoroCoroutine} {st : CoroStack}
            → On e.coros e.stacks c s k' st
            → Nobody c ⊎ (c ≡ this)
            → ⊥
        off on (inl z) = z
        off on (inr q) = cc (on.stack, p, some_injective (sym on.coro ∙ ap e.coros q ∙ there))

    taken-Met :
        (s : ℕ) (st : CoroStack)
        → k.stack ≡ some s
        → e.stacks s ≡ some st
        → Met st.coro (set_stack s (record st { coro = some this }) e)
    taken-Met s st p q =
        let (((laws, keeps, alive, roomy, live), quiet, frame, spare, main, current), has) =
          prepared in
        (
          (
            (
              occupy_Laws this s k st on₀ laws only,
              λ c at size img b w. occupy_Kept this s k st on₀ (keeps c at size img b w),
              record {
                main_live = alive.main_live;
                stacked = alive.stacked;
                pooled = All-mono e.pool shared_still alive.pooled;
              },
              λ s' st' w. elim (update_cases e.stacks s s' (some user) (some st') w) [
                | inl (i, x) ↦
                    subst (λ (y : CoroStack). length site.coro_create ≤ y.ssze) (some_injective x)
                      (roomy s st q)
                | inr (n, x) ↦ roomy s' st' x
              ],
              live,
            ),
            quiet,
            record {
              place = λ c s' k' st' w on. elim (On-from this s k st on₀ on) [
                | inl (i, x, a) ↦
                    subst (λ (y : CoroStack). Placing r site.frame e₀ e.mem c s' y) x
                      (subst (λ n. Placing r site.frame e₀ e.mem c n user) (sym i)
                        (placing (frame.place c s k' st w a)))
                | inr (n, a) ↦ frame.place c s' k' st' w a
              ];
              stays = frame.stays;
            },
            spare,
            main,
            current,
          ),
          λ s' k' st' on. elim (On-from this s k st on₀ on) [
            | inl (i, x, a) ↦ ap (λ (y : CoroStack). y.coro) (sym x)
            | inr (n, a) ↦ absurd (
                n (
                  some_injective
                    (sym a.stack ∙ ap (λ y. y.stack) (some_injective (sym a.coro ∙ there)) ∙ p)))
          ],
          λ c h n.
              let (kc, on) = laws.user s c st q h in
              record {
                number = s;
                other = kc;
                mine = k;
                stack = user;
                on_other = On-taken this s k st on₀ on;
                on_mine = On-taken this s k st on₀ on₀;
                bare = elim (laws.users c s kc st on h) [ inl b ↦ b | inr z ↦ absurd z ];
              },
          has,
        )
      where
        user : CoroStack
        user = record st { coro = some this }

        placing :
            {c : ℕ} → Placing r site.frame e₀ e.mem c s st → Placing r site.frame e₀ e.mem c s user
        placing w = record {
          low = w.low;
          high = w.high;
          former = w.former;
          former_stack = w.former_stack;
          on = w.on;
          same_sptr = w.same_sptr;
          same_ssze = w.same_ssze;
          same_shared = w.same_shared;
          bytes = w.bytes;
        }

        on₀ : On e.coros e.stacks this s k st
        on₀ = record { coro = there; stack = p; live = q }

        only : (c : ℕ) → Nobody c ⊎ (c ≡ this) → c ≡ this
        only c (inl z) = absurd z
        only c (inr h) = h

        shared_still : (i : ℕ) → IsShared e.stacks i → IsShared (update e.stacks s (some user)) i
        shared_still i (x, l, h) = elim (eq-or-ne i s) [
          | inl w ↦ (
            user,
            ap (update e.stacks s (some user)) w ∙ update_self e.stacks s (some user),
            ap (λ (y : CoroStack). y.shared) (some_injective (sym q ∙ ap e.stacks (sym w) ∙ l)) ∙ h,
          )
          | inr n ↦ (x, update_ne e.stacks s i (some user) n ∙ l, h)
        ]

    pub occupy-Met : Ensures (Met (former e k)) (occupy this e)
    occupy-Met = elim (Option-cases k.stack) [
      | inl p ↦
          let (a, b, c) = no_stack p false in
          subst (Ensures (Met (former e k))) (sym b)
            (result e (subst (λ u. Met u e) (sym c) (bare-Met p)))
      | inr (s, p) ↦
          let (st, q) = prepared.0.0.0.live_stack this s k there p in
          let (a, b, c) = on_stack s st p q false in
          subst (Ensures (Met (former e k))) (sym b) (
            result (set_stack s (record st { coro = some this }) e) (
              subst (λ u. Met u (set_stack s (record st { coro = some this }) e)) (sym c)
                (taken-Met s st p q)))
    ]
