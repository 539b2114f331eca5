-- ===== src/LibCoro/Safety/Parts.antt =====
-- Steps that the parts of a switch share.
use coroxx.Base.{
  ℕ, ◌≡◌, ◌≢◌, ◌⊎◌, inl, inr, true, Option, none, some, some_injective, List, arith, subst, sym, ap,
  ◌∙◌, eq-or-ne, All-mono,
}
use coroxx.Base.Store.{update, update_cases, update_self, update_ne}
use coroxx.LibCoro.Objects.{CoroStack, LibCoroCoroutine, CoroEnv, CallSite, set_coro}
use coroxx.LibCoro.Layout.{Coros, Stacks, Parked, On, Laws, Kept, Started}
use coroxx.LibCoro.Layout.Change.{AtSelf, change, On-before}
use coroxx.LibCoro.Safety.{Framed}
use coroxx.Base.{◌≤◌, ◌<◌, ◌+◌, ◌-◌}
use coroxx.LibCoro.Safety.{Has, Alive, Quiet, Stage}

-- A coroutine has one stack.
pub On-unique :
    {coros : Coros} {stacks : Stacks} {c s s' : ℕ} {k k' : LibCoroCoroutine} {st st' : CoroStack}
    → On coros stacks c s k st
    → On coros stacks c s' k' st'
    → (k ≡ k') × (s ≡ s') × (st ≡ st')
On-unique {stacks = stacks} {k = k} {k'} a b =
    let same : k ≡ k' = some_injective (sym a.coro ∙ b.coro) in
    let there =
      some_injective (sym a.stack ∙ ap (λ (y : LibCoroCoroutine). y.stack) same ∙ b.stack) in
    (same, there, some_injective (sym a.live ∙ ap stacks there ∙ b.live))

pub Has-update :
    (coros : Coros) (c₀ c : ℕ) (k' : LibCoroCoroutine)
    → Has coros c
    → Has (update coros c₀ (some k')) c
Has-update coros c₀ c k' (k, e) = elim (eq-or-ne c c₀) [
  | inl p ↦ (k', ap (update coros c₀ (some k')) p ∙ update_self coros c₀ (some k'))
  | inr n ↦ (k, update_ne coros c₀ c (some k') n ∙ e)
]

pub Alive-update :
    {coros : Coros} {stacks : Stacks} {main : Option ℕ} {coro_stack pool : List ℕ} (c₀ : ℕ)
    (k' : LibCoroCoroutine)
    → Alive coros stacks main coro_stack pool
    → Alive (update coros c₀ (some k')) stacks main coro_stack pool
Alive-update {coros} {coro_stack = cs} c₀ k' a = record {
  main_live = λ m q. Has-update coros c₀ m k' (a.main_live m q);
  stacked = All-mono cs (λ c h. Has-update coros c₀ c k' h) a.stacked;
  pooled = a.pooled;
}

pub Quiet-update :
    {coros : Coros} {old : Option ℕ} (c₀ : ℕ) (k' : LibCoroCoroutine)
    → (old ≡ some c₀ → (k'.save_buffer ≡ none) × (k'.ctx_inited ≡ true))
    → (old ≡ none → (k'.save_buffer ≡ none) × (k'.stack_sp ≡ none))
    → Quiet coros old
    → Quiet (update coros c₀ (some k')) old
Quiet-update {coros} {old} c₀ k' f g q = record {
  old_live = λ c h. Has-update coros c₀ c k' (q.old_live c h);
  clean = λ c k h w. elim (update_cases coros c₀ c (some k') (some k) w) [
    | inl (p, x) ↦ ap (λ y. y.save_buffer) (sym (some_injective x)) ∙ (f (h ∙ ap some p)).0
    | inr (n, x) ↦ q.clean c k h x
  ];
  inited = λ c k h w. elim (update_cases coros c₀ c (some k') (some k) w) [
    | inl (p, x) ↦ ap (λ y. y.ctx_inited) (sym (some_injective x)) ∙ (f (h ∙ ap some p)).1
    | inr (n, x) ↦ q.inited c k h x
  ];
  first = λ h c k w. elim (update_cases coros c₀ c (some k') (some k) w) [
    | inl (p, x) ↦
        subst (λ (y : LibCoroCoroutine). (y.save_buffer ≡ none) × (y.stack_sp ≡ none))
          (some_injective x) (g h)
    | inr (n, x) ↦ q.first h c k x
  ];
}

pub Parked_flags :
    {k₀ k' : LibCoroCoroutine} {st : CoroStack}
    → k'.stack_sp ≡ k₀.stack_sp
    → k'.save_buffer_size ≡ k₀.save_buffer_size
    → Parked st k₀
    → Parked st k'
Parked_flags same_sp same_size w = record {
  sp = w.sp;
  marked = same_sp ∙ w.marked;
  above = w.above;
  exact = ground (arith, w.exact);
}

-- A coroutine changes, its stack kept.
pub Framed-update :
    {r frame : ℕ} {e₀ : CoroEnv} {old : Option ℕ} {coros : Coros} {stacks : Stacks} {mem : ℕ → ℕ}
    (c₀ : ℕ) (k₀ k' : LibCoroCoroutine) (there : coros c₀ ≡ some k₀) (same : k'.stack ≡ k₀.stack)
    → Framed r frame e₀ old coros stacks mem
    → Framed r frame e₀ old (update coros c₀ (some k')) stacks mem
Framed-update {coros = coros} {stacks} c₀ k₀ k' there same f = record {
  place = λ c s k st p on.
      let (k₁, on') = On-before coros stacks c₀ k₀ k' there same on in f.place c s k₁ st p on';
  stays = λ c k p w. elim (update_cases coros c₀ c (some k') (some k) w) [
    | inl (q, x) ↦
        let (k₁, was, eq) = f.stays c k₀ p (ap coros q ∙ there) in
        (k₁, was, ap (λ (y : LibCoroCoroutine). y.stack) (sym (some_injective x)) ∙ same ∙ eq)
    | inr (n, x) ↦ f.stays c k p x
  ];
}

-- The memory changes, but not in the bytes of the running coroutine.
pub Framed-mem :
    {r frame : ℕ} {e₀ : CoroEnv} {old : Option ℕ} {coros : Coros} {stacks : Stacks} {mem : ℕ → ℕ}
    (mem' : ℕ → ℕ)
    → ((c s : ℕ) (k : LibCoroCoroutine) (st : CoroStack)
        → old ≡ some c
        → On coros stacks c s k st
        → (x : ℕ) → st.sptr ≤ x
        → x < st.sptr + st.ssze - r
        → mem' x ≡ mem x)
    → Framed r frame e₀ old coros stacks mem
    → Framed r frame e₀ old coros stacks mem'
Framed-mem mem' same f = record {
  place = λ c s k st p on.
      let w = f.place c s k st p on in
      record {
        low = w.low;
        high = w.high;
        former = w.former;
        former_stack = w.former_stack;
        on = w.on;
        same_sptr = w.same_sptr;
        same_ssze = w.same_ssze;
        same_shared = w.same_shared;
        bytes = λ x a b. same c s k st p on x (omega (arith, w.low, a)) b ∙ w.bytes x a b;
      };
  stays = f.stays;
}

-- A change of flags.
module _ {coros : Coros} {stacks : Stacks} (c₀ : ℕ) (k₀ k' : LibCoroCoroutine)
    (there : coros c₀ ≡ some k₀) (same : k'.stack ≡ k₀.stack) (same_sp : k'.stack_sp ≡ k₀.stack_sp)
    (same_size : k'.save_buffer_size ≡ k₀.save_buffer_size)
    (same_buffer : k'.save_buffer ≡ k₀.save_buffer) where
  pub flags_AtSelf :
      {X Y Z : ℕ → Type 0} {next seed : ℕ}
      → Laws X Y Z coros stacks next seed
      → Started k'
      → AtSelf coros stacks c₀ k₀ k' there same X Y Z
  flags_AtSelf v young = record {
    saved = λ bytes q.
        let w = v.saved c₀ k₀ bytes there (sym same_buffer ∙ q) in
        (
          w.number,
          w.stack,
          w.on,
          w.shared,
          Parked_flags same_sp same_size w.parked,
          w.whole ∙ sym same_size,
        );
    started = young;
    resident = λ s st on q. v.resident c₀ s k₀ st on (sym same_buffer ∙ q);
    suspended = λ s st on q. elim (v.suspended c₀ s k₀ st on q) [
      | inl p ↦ inl (Parked_flags same_sp same_size p)
      | inr y ↦ inr y
    ];
    users = λ s st on q. elim (v.users c₀ s k₀ st on q) [
      | inl p ↦ inl (same_buffer ∙ p)
      | inr y ↦ inr y
    ];
  }

module _ (r : ℕ) (site : CallSite) (this : ℕ) (e₀ : CoroEnv) where
  -- The coroutine `c₀` changes, its stack kept, with the memory.
  pub Stage-change :
      {B X Y Z B' X' Y' Z' : ℕ → Type 0} (e : CoroEnv) (c₀ : ℕ) (k₀ k' : LibCoroCoroutine)
      (mem' : ℕ → ℕ) (there : e.coros c₀ ≡ some k₀) (same : k'.stack ≡ k₀.stack)
      → Stage r site this e₀ B X Y Z e
      → AtSelf e.coros e.stacks c₀ k₀ k' there same X' Y' Z'
      → ((c : ℕ) → c ≢ c₀ → (X c → X' c) × (Y c → Y' c) × (Z c → Z' c))
      → ((c at size : ℕ) (img : List ℕ)
          → ¬ B' c
          → (¬ B c)
            × (Kept r e.coros e.stacks e.mem c at size img
                → Kept r (update e.coros c₀ (some k')) e.stacks mem' c at size img))
      → Stage r site this e₀ B' X' Y' Z' (set_coro c₀ k' (record e { mem = mem' }))
  Stage-change e c₀ k₀ k' mem' there same (laws, keeps, alive, roomy, this_live) at_self outside
        keep =
      (
        change e.coros e.stacks c₀ k₀ k' there same laws at_self outside,
        λ c at size img b w. let (b', f) = keep c at size img b in f (keeps c at size img b' w),
        Alive-update c₀ k' alive,
        roomy,
        Has-update e.coros c₀ this k' this_live,
      )

-- Fewer coroutines need an exception, or more are given one.
pub widen :
    {X Y Z X' Y' Z' : ℕ → Type 0} {coros : Coros} {stacks : Stacks} {next seed : ℕ}
    → Laws X Y Z coros stacks next seed
    → ((c s : ℕ) (k : LibCoroCoroutine) (st : CoroStack)
        → On coros stacks c s k st
        → X c
        → (k.save_buffer ≡ none)
        → (st.coro ≡ some c) ⊎ X' c)
    → ((c s : ℕ) (k : LibCoroCoroutine) (st : CoroStack)
        → On coros stacks c s k st
        → st.shared ≡ true
        → Y c
        → Y' c)
    → ((c s : ℕ) (k : LibCoroCoroutine) (st : CoroStack)
        → On coros stacks c s k st
        → Z c
        → (k.save_buffer ≡ none) ⊎ Z' c)
    → Laws X' Y' Z' coros stacks next seed
widen v f g h = record {
  live_stack = v.live_stack;
  user = v.user;
  saved = v.saved;
  apart = v.apart;
  fits = v.fits;
  stack_numbers = v.stack_numbers;
  coro_numbers = v.coro_numbers;
  alone = v.alone;
  started = v.started;
  resident = λ c s k st on q. elim (v.resident c s k st on q) [
    | inl p ↦ inl p
    | inr x ↦ f c s k st on x q
  ];
  suspended = λ c s k st on q. elim (v.suspended c s k st on q) [
    | inl p ↦ inl p
    | inr y ↦ inr (g c s k st on q y)
  ];
  users = λ c s k st on q. elim (v.users c s k st on q) [ inl p ↦ inl p | inr z ↦ h c s k st on z ];
}
