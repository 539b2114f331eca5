-- ===== src/LibCoro/Safety/Begin.antt =====
-- A thread of libcoro.cpp outside its switches: its start, new coroutines and `ResetContext`.
use coroxx.Base.{
  ℕ, ◌≡◌, refl, inl, inr, false, none, some, some_injective, arith, subst, ap, sym, ◌∙◌, Option,
  Ensures, result,
}
use coroxx.Base.Store.{update_cases, update_self}
use coroxx.CoroBase.{CoroutineFunction, empty}
use coroxx.LibCoro.Layout.{Started}
use coroxx.Base.{List, ◌≢◌}
use coroxx.Base.Store.{update_ne}
use coroxx.LibCoro.Layout.{Kept}
use coroxx.LibCoro.Layout.Change.{Kept-any, On-before, change}
use coroxx.LibCoro.Objects.{
  LibCoroCoroutine, CoroEnv, set_coro, reset_context, init, new_share_stack, new_coro,
}
use coroxx.LibCoro.Layout.Grow.{create_Laws}
use coroxx.LibCoro.Objects.{CallSite}
use coroxx.LibCoro.Safety.{SiteFits, Settled, Has}
use coroxx.LibCoro.Safety.Parts.{flags_AtSelf, Has-update, Alive-update}

-- A thread that has no coroutine yet is settled.
pub init-Settled : (seed : ℕ) (mem : ℕ → ℕ) → Settled (init seed mem)
unfolding init
init-Settled seed mem = record {
  laws = record {
    live_stack = λ c s k q w. cc;
    user = λ s o st q w. cc;
    saved = λ c k bytes q w. cc;
    apart = λ s s' st st' n q w. cc;
    fits = λ s st q. cc;
    stack_numbers = λ s st q. cc;
    coro_numbers = λ c k q. cc;
    alone = λ c c' s k k' st on on' h. cc (on.coro);
    started = λ c k q. cc;
    resident = λ c s k st on h. cc (on.coro);
    suspended = λ c s k st on h. cc (on.coro);
    users = λ c s k st on h. cc (on.coro);
  };
  alive = record { main_live = λ m q. cc; stacked = tt; pooled = tt };
  current_live = λ c q. cc;
  serving = λ c s k st q on. cc;
  inited = λ c k q w. cc;
  has_main = λ c q. cc;
  first = λ q c k w. cc;
}

-- A settled thread is settled after `NewShareStack`.
pub new_share_stack-Settled :
    (count size : ℕ) (e : CoroEnv) → Settled e → Settled (new_share_stack count size e)
unfolding new_share_stack
new_share_stack-Settled count size e w = record {
  laws = w.laws;
  alive = w.alive;
  current_live = w.current_live;
  serving = w.serving;
  inited = w.inited;
  has_main = w.has_main;
  first = w.first;
}

-- A settled thread is settled after the construction of a coroutine, and the coroutine has the
-- number that was next.
pub new_coro-Settled :
    (e : CoroEnv)
    → Settled e
    → Settled (new_coro false e) × Has (new_coro false e).coros e.g_coro_id_seed
unfolding new_coro
new_coro-Settled e w = (
  record {
    laws = create_Laws w.laws k' refl refl (inr (refl, refl));
    alive = record {
      main_live = λ m q. Has-update e.coros seed m k' (w.alive.main_live m q);
      stacked = (Alive-update seed k' w.alive).stacked;
      pooled = w.alive.pooled;
    };
    current_live = λ c q. Has-update e.coros seed c k' (w.current_live c q);
    serving = λ c s k st q on. elim (update_cases e.coros seed c (some k') (some k) on.coro) [
      | inl (p, x) ↦ cc (ap (λ y. y.stack) (some_injective x), on.stack)
      | inr (n, x) ↦ w.serving c s k st q (record { coro = x; stack = on.stack; live = on.live })
    ];
    inited = λ c k q x. elim (update_cases e.coros seed c (some k') (some k) x) [
      | inl (p, y) ↦
          let (k₀, there) = w.current_live c q in
          absurd (omega (arith, w.laws.coro_numbers c k₀ there, p))
      | inr (n, y) ↦ w.inited c k q y
    ];
    has_main = w.has_main;
    first = λ q c k x. elim (update_cases e.coros seed c (some k') (some k) x) [
      | inl (p, y) ↦
          subst (λ (z : LibCoroCoroutine). (z.save_buffer ≡ none) × (z.stack_sp ≡ none))
            (some_injective y) (refl, refl)
      | inr (n, y) ↦ w.first q c k y
    ];
  },
  (k', update_self e.coros seed (some k')),
)
  where
    seed : ℕ
    seed = e.g_coro_id_seed

    k' : LibCoroCoroutine
    k' = record {
      stack = none;
      data_ctx = record { func = empty; arg = none; coro = some e.g_coro_id_seed };
      ctx_inited = false;
      waiting = false;
      save_buffer = none;
      save_buffer_size = 0;
      stack_sp = none;
    }

-- A settled thread stays settled when a coroutine changes in nothing that a switch reads.
pub flags-Settled :
    (e : CoroEnv) (c : ℕ) (k k' : LibCoroCoroutine)
    → e.coros c ≡ some k
    → k'.stack ≡ k.stack
    → k'.stack_sp ≡ k.stack_sp
    → k'.save_buffer_size ≡ k.save_buffer_size
    → k'.save_buffer ≡ k.save_buffer
    → k'.ctx_inited ≡ k.ctx_inited
    → Settled e
    → Settled (set_coro c k' e)
flags-Settled e c k k' there same same_sp same_size same_buffer same_inited w = record {
  laws =
      change e.coros e.stacks c k k' there same w.laws
        (flags_AtSelf c k k' there same same_sp same_size same_buffer w.laws young)
        (λ x n. (λ z. z, λ y. y, λ z. z));
  alive = Alive-update c k' w.alive;
  current_live = λ x q. Has-update e.coros c x k' (w.current_live x q);
  serving = λ x s k₁ st q on.
      let (k₂, on') = On-before e.coros e.stacks c k k' there same on in w.serving x s k₂ st q on';
  inited = λ x k₁ q h. elim (update_cases e.coros c x (some k') (some k₁) h) [
    | inl (p, y) ↦
        ap (λ z. z.ctx_inited) (sym (some_injective y))
        ∙ same_inited
        ∙ w.inited x k q (ap e.coros p ∙ there)
    | inr (n, y) ↦ w.inited x k₁ q y
  ];
  has_main = w.has_main;
  first = λ q x k₁ h. elim (update_cases e.coros c x (some k') (some k₁) h) [
    | inl (p, y) ↦
        let (a, b) = w.first q c k there in
        subst (λ (z : LibCoroCoroutine). (z.save_buffer ≡ none) × (z.stack_sp ≡ none))
          (some_injective y) (same_buffer ∙ a, same_sp ∙ b)
    | inr (n, y) ↦ w.first q x k₁ y
  ];
}
  where
    young : Started k'
    young = elim (w.laws.started c k there) [
      | inl i ↦ inl (same_inited ∙ i)
      | inr (a, b) ↦ inr (same_sp ∙ a, same_buffer ∙ b)
    ]

-- `ResetContext` of the coroutine `c`: it has its new function and argument, no other coroutine has
-- changed, and a settled thread stays settled, with the bytes of all coroutines.
pub record Reset (c : ℕ) (func : CoroutineFunction) (arg : Option ℕ) (e e' : CoroEnv) : Type 0 where
  pub settled : Settled e'
  pub same_current : e'.current ≡ e.current
  pub same_sizes : (e'.share_stack_count ≡ e.share_stack_count) × (e'.stack_size ≡ e.stack_size)
  pub exists : (x : ℕ) → Has e.coros x → Has e'.coros x
  pub same : (x : ℕ) → x ≢ c → e'.coros x ≡ e.coros x
  pub coroutine : LibCoroCoroutine
  pub there : e'.coros c ≡ some coroutine
  pub has_func : coroutine.data_ctx.func ≡ func
  pub has_arg : coroutine.data_ctx.arg ≡ arg
  pub fits : (site : CallSite) → SiteFits site e → SiteFits site e'
  pub kept :
      (r x at size : ℕ) (img : List ℕ)
      → Kept r e.coros e.stacks e.mem x at size img
      → Kept r e'.coros e'.stacks e'.mem x at size img

pub reset_context-Reset :
    (c : ℕ) (func : CoroutineFunction) (arg : Option ℕ) (e : CoroEnv)
    → Has e.coros c
    → Settled e
    → Ensures (Reset c func arg e) (reset_context c func arg e)
unfolding reset_context
reset_context-Reset c func arg e (k, there) w =
    let k' : LibCoroCoroutine = record k {
      data_ctx = record k.data_ctx { func = func; arg = arg };
    } in
    let eq : reset_context c func arg e ≡ some (set_coro c k' e) = ground arith in
    subst (Ensures (Reset c func arg e)) (sym eq) (
      result (set_coro c k' e) (record {
        settled = flags-Settled e c k k' there refl refl refl refl refl w;
        same_current = refl;
        same_sizes = (refl, refl);
        exists = λ x h. Has-update e.coros c x k' h;
        same = λ x n. update_ne e.coros c x (some k') n;
        coroutine = k';
        there = update_self e.coros c (some k');
        has_func = refl;
        has_arg = refl;
        fits = λ site fit. record {
          frame = λ x s k₁ st p on.
              let (k₂, on') = On-before e.coros e.stacks c k k' there refl on in
              fit.frame x s k₂ st p on';
          fresh = record {
            fits = fit.fresh.fits;
            roomy = fit.fresh.roomy;
            apart = fit.fresh.apart;
          };
          roomy = fit.roomy;
        };
        kept = λ r x at size img h. Kept-any e.coros e.stacks c k k' there refl refl refl refl h;
      }))

-- The coroutines that there are go on to exist after the construction of another.
pub new_coro-Has : (e : CoroEnv) (c : ℕ) → Has e.coros c → Has (new_coro false e).coros c
unfolding new_coro
new_coro-Has e c h = Has-update e.coros e.g_coro_id_seed c _ h

-- A call site that fits the thread does so after the construction of a coroutine.
pub new_coro-Fits :
    (site : CallSite) (e : CoroEnv) → SiteFits site e → SiteFits site (new_coro false e)
unfolding new_coro
new_coro-Fits site e fit = record {
  frame = λ c s k st q on. elim (update_cases e.coros e.g_coro_id_seed c _ (some k) on.coro) [
    | inl (p, x) ↦ cc (ap (λ y. y.stack) (some_injective x), on.stack)
    | inr (n, x) ↦ fit.frame c s k st q (record { coro = x; stack = on.stack; live = on.live })
  ];
  fresh = record { fits = fit.fresh.fits; roomy = fit.fresh.roomy; apart = fit.fresh.apart };
  roomy = fit.roomy;
}
