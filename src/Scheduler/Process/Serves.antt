-- ===== src/Scheduler/Process/Serves.antt =====
-- Which scheduler of scheduler.cpp a call of scheduler.h reaches, and what it does there.
use coroxx.Base.{
  ℕ, zero, suc, ◌<◌, ◌≡◌, ◌≢◌, refl, true, Option, none, some, List, [], ◌∷◌, get_elem?, set_elem,
  length, get-of-lt, get_elem?-set_elem, get_elem?-set_elem_ne, arith, sym, ap, subst, Ensures,
  result, Ensures_bind,
}
use coroxx.CoroBase.{CoroutineFunction}
use coroxx.Base.Int.{ℤ}
use coroxx.LibCoro.Objects.{CoroEnv, CallSite}
use coroxx.Scheduler.State.{World, TimeVal, new_task}
use coroxx.Scheduler.Tasks.Pushes.{Queued, task, made, made-Queued}
use coroxx.Scheduler.Tasks.{start_coro, push_coro_task, enqueue}
use coroxx.Scheduler.Coroutines.{is_overload}
use coroxx.Scheduler.Manager.{get_scheduler}
use coroxx.Scheduler.Manager.Choice.{chosen, chosen-lt, get_scheduler-first_idle}
use coroxx.Scheduler.Process.{
  schedulers, forward, Caller, reach, create_manager, start_coro_anywhere, the_manager,
}

-- The call did at the scheduler `i` what `P` says of its result, and left the others.
pub record Served {ℓ} {A : Type ℓ} (P : World → A × World → Type 0) (i : ℕ) (ws : List World)
    (a : A) (ws' : List World) : Type 0 where
  pub before : World
  pub after : World
  pub at_before : get_elem? ws i ≡ some before
  pub at_after : get_elem? ws' i ≡ some after
  pub did : P before (a, after)
  pub others : (j : ℕ) → j ≢ i → get_elem? ws' j ≡ get_elem? ws j

get-lt : (ws : List World) (i : ℕ) {w : World} → get_elem? ws i ≡ some w → i < length ws
get-lt [] i h = cc
get-lt (w ∷ ws) zero h = omega arith
get-lt (w ∷ ws) (suc i) h = omega (arith, get-lt ws i h)

pub forward-Served {ℓ} :
    {A : Type ℓ}
    → (P : World → A × World → Type 0) (caller : Option ℕ) (call : World → Option (A × World))
      (ws : List World) (i : ℕ) (w : World)
    → get_scheduler caller (schedulers ws) ≡ some i
    → get_elem? ws i ≡ some w
    → Ensures (P w) (call w)
    → Ensures (λ ((a, ws') : A × List World). Served P i ws a ws') (forward caller call ws)
unfolding forward
forward-Served P caller call ws i w p q done =
    rw (p, q)
      (Ensures_bind done λ (a, w') h.
        result (a, set_elem ws i w')
          (record {
            before = w;
            after = w';
            at_before = q;
            at_after = get_elem?-set_elem ws i w' (get-lt ws i q);
            did = h;
            others = λ j n. get_elem?-set_elem_ne ws i j w' n;
          }))

module _ (func : CoroutineFunction) (arg : Option ℕ) (w : World) where
  start_lem :
      (site : CallSite)
      → start_coro none func arg true site w
        ≡ some (0, enqueue w.next_address (made func arg true w))
  unfolding start_coro push_coro_task is_overload new_task
  start_lem site = refl

  -- `StartCoro` from another thread leaves a task and returns 0.
  start-Queued :
      (site : CallSite)
      → Ensures
          (λ ((id, w') : ℕ × World). (id ≡ 0) × Queued (task func arg true w) w w')
          (start_coro none func arg true site w)
  start-Queued site =
      subst (Ensures (λ ((id, w') : ℕ × World). (id ≡ 0) × Queued (task func arg true w) w w'))
        (sym (start_lem site))
        (result (0, enqueue w.next_address (made func arg true w))
          (refl, made-Queued func arg true w))

length-schedulers : (ws : List World) → length (schedulers ws) ≡ length ws
length-schedulers [] = refl
length-schedulers (w ∷ ws) = ap suc (length-schedulers ws)

-- `StartCoro(func, data)` on a thread without a scheduler comes to an end and returns 0. Of the
-- manager's schedulers, of which there is at least one, the first that has no coroutine, or the one at
-- place 0 if each has one, has a task for the function at the end of its queue and was woken once; the
-- others and the thread that calls are as before.
pub start_coro_anywhere-Served :
    (threads : ℕ → CoroEnv × (ℕ → TimeVal)) (created : ℕ → ℤ × ℤ) (func : CoroutineFunction)
    (arg : Option ℕ) (site : CallSite) (e : CoroEnv) (ws : List World)
    → 0 < length ws
    → Ensures
        (λ ((id, c, ws') : ℕ × Caller × List World).
          (c ≡ record { env = e; current = none })
          × Served
              (λ w (id, w').
                (id ≡ 0) × Queued (record { call = func; arg = arg; create_coro = true }) w w')
              (chosen (schedulers ws))
              ws
              id
              ws')
        (start_coro_anywhere threads created
          (record { env = e; current = none })
          func
          arg
          site
          (some ws))
unfolding start_coro_anywhere reach the_manager create_manager
start_coro_anywhere-Served threads created func arg site e ws h =
    let ss = schedulers ws in
    let some_scheduler : 0 < length ss = omega (arith, h, length-schedulers ws) in
    let low = chosen-lt ss some_scheduler in
    let (w, there) = get-of-lt ws (chosen ss) (omega (arith, low, length-schedulers ws)) in
    Ensures_bind
      (forward-Served
        (λ w (id, w').
          (id ≡ 0) × Queued (record { call = func; arg = arg; create_coro = true }) w w')
        none (start_coro none func arg true site) ws (chosen ss) w
        (get_scheduler-first_idle ss some_scheduler) there (start-Queued func arg w site))
      λ (id, ws') served. result (id, record { env = e; current = none }, ws') (refl, served)
