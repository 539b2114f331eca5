-- ===== src/Scheduler/Tasks/Sleep.antt =====
-- `CoroSleep` of scheduler.cpp and the callback that ends the sleep.
use coroxx.Base.{
  none, Option, ◌>>=◌, ℕ, ◌+◌, ◌-◌, ◌≡◌, ◌≢◌, refl, true, false, some, [], ◌∷◌, ◌++◌, arith, sym,
  ap, ◌∙◌, subst, Ensures, Ensures_bind, Ensures_value, Ensures_at, result,
}
use coroxx.Base.Int.{ℤ, pos, ◌+ℤ◌}
use coroxx.Base.Store.{update, update_self, read_block}
use coroxx.CoroBase.{CoroutineFunction, coro_sleep_cb}
use coroxx.LibCoro.Objects.{CoroStack, LibCoroCoroutine, CoroEnv, CallSite}
use coroxx.LibCoro.Switch.{wait}
use coroxx.LibCoro.Layout.{On}
use coroxx.LibCoro.Safety.{Settled, SiteFits, Spares}
use coroxx.LibCoro.Safety.Turns.{target, wait-Switched}
use coroxx.LibCoro.Safety.History.{Switch, waits_for, Steps, Switch-Steps}
use coroxx.Scheduler.State.{World, with_env, new_task, current_mills}
use coroxx.Scheduler.TimeQueue.{bucket, add_time_coro_task}
use coroxx.Scheduler.TimeQueue.Order.{Sorted, queue_of, add_at-Sorted, bucket-add_at}
use coroxx.Scheduler.Coroutines.{wait_coro}
use coroxx.Scheduler.Tasks.{start_coro_after, coro_sleep, sleep_callback, run_task, invoke}

-- The time at which the sleep is over.
abbrev pub wake_time : ℤ → World → ℤ
wake_time ms w = pos (current_mills w).0 +ℤ ms

-- The coroutine `c` gave way to `this`, and a task to wake it is the last of its deadline.
pub record Sleeping (r : ℕ) (site : CallSite) (this c : ℕ) (ms : ℤ) (w w' : World) : Type 0 where
  pub switch : Switch r site this w.env w'.env
  pub task :
      w'.tasks w.next_address
      ≡ some (record { call = coro_sleep_cb; arg = some c; create_coro = false })
  pub sorted : Sorted w'.scheduler.coro_time_queue
  pub queued :
      bucket (wake_time ms w) w'.scheduler.coro_time_queue
      ≡ some (queue_of (bucket (wake_time ms w) w.scheduler.coro_time_queue) ++ w.next_address ∷ [])
  pub same_queue : w'.scheduler.coro_queue ≡ w.scheduler.coro_queue

module _ (r : ℕ) (site : CallSite) (this c : ℕ) (ms : ℤ) (w : World) (settled : Settled w.env)
    (fit : SiteFits site w.env) (spare : Spares r site w.env.coros this)
    (runs : w.env.current ≡ some c) (goes : target w.env ≡ some this)
    (sorted : Sorted w.scheduler.coro_time_queue) where
  -- The task is in the table.
  delayed : World
  delayed = (start_coro_after (some 0) coro_sleep_cb (some c) ms false w).1

  sleep_lem : coro_sleep ms site w ≡ wait_coro c site delayed
  unfolding coro_sleep delayed
  sleep_lem = ground (arith, runs)

  delayed_waits :
      (e : CoroEnv)
      → wait c site w.env ≡ some e
      → wait_coro c site delayed ≡ some (record delayed { env = e })
  unfolding wait_coro delayed start_coro_after new_task add_time_coro_task current_mills
  delayed_waits e q = ap (with_env delayed) q

  -- What `Invoke` does with the task of a sleep.
  invoke_lem :
      (run_func : CoroutineFunction → Option ℕ → World → Option World)
      (others : World → Option World) (host : CallSite) (v : World)
      → v.tasks w.next_address
        ≡ some (record { call = coro_sleep_cb; arg = some c; create_coro = false })
      → invoke run_func others host w.next_address v ≡ (
          run_func coro_sleep_cb (some c) v >>= λ v'.
          some (record v' { tasks = update v'.tasks w.next_address none }))
  unfolding invoke run_task
  invoke_lem run_func others host v p = rw (p) refl

  -- `CoroSleep` comes to an end at the switch: the coroutine that runs gave way to the one that
  -- `Yield` goes to, and the task to resume it is the last of its deadline in the sorted queue, which
  -- is the present time and `ms` milliseconds. The thread is settled and the call site fits it.
  pub coro_sleep-Sleeping : Ensures (Sleeping r site this c ms w) (coro_sleep ms site w)
  unfolding delayed start_coro_after new_task add_time_coro_task current_mills
  coro_sleep-Sleeping =
      let (k, there) = settled.current_live c runs in
      let (e, q, sw) =
        Ensures_value (wait-Switched r site this w.env settled fit spare c k there goes) in
      subst (Ensures (Sleeping r site this c ms w)) (sym (sleep_lem ∙ delayed_waits e q)) (
        result (record delayed { env = e })
          (record {
            switch = waits_for w.env e c goes (k, there) fit spare q;
            task = update_self w.tasks w.next_address _;
            sorted =
                add_at-Sorted (wake_time ms w) w.next_address w.scheduler.coro_time_queue sorted;
            queued =
                bucket-add_at (wake_time ms w) w.next_address w.scheduler.coro_time_queue sorted;
            same_queue = refl;
          }))

  -- A coroutine on a shared stack sleeps by `CoroSleep`, which leaves a task as the last of its
  -- deadline. After any sequence of operations of its thread that do not resume the coroutine, and
  -- with the task as `CoroSleep` left it, `Invoke` of this task runs the sleep callback for the
  -- coroutine and then deletes the task. This callback comes to an end at its switch: the coroutine
  -- runs, and it finds every byte of its stack from its frame on as it left it, all but the `r`
  -- uppermost. It had given way to another, the thread was settled, and each call site fits the thread.
  pub coro_sleep-sleep_callback :
      (last host : CallSite) (run_func : CoroutineFunction → Option ℕ → World → Option World)
      (others : World → Option World) (s : ℕ) (k : LibCoroCoroutine) (st : CoroStack)
      (w₁ w₂ : World)
      → On w.env.coros w.env.stacks c s k st
      → st.shared ≡ true
      → this ≢ c
      → coro_sleep ms site w ≡ some w₁
      → Steps r c w₁.env w₂.env
      → w₂.tasks w.next_address ≡ w₁.tasks w.next_address
      → SiteFits last w₂.env
      → Spares r last w₂.env.coros c
      → (bucket (wake_time ms w) w₁.scheduler.coro_time_queue
          ≡ some (
              queue_of (bucket (wake_time ms w) w.scheduler.coro_time_queue)
              ++ w.next_address ∷ []))
        × (invoke run_func others host w.next_address w₂ ≡ (
            run_func coro_sleep_cb (some c) w₂ >>= λ w₃.
            some (record w₃ { tasks = update w₃.tasks w.next_address none })))
        × Ensures
            (λ d.
              Settled d.env
              × (d.env.current ≡ some c)
              × (read_block d.env.mem site.frame (st.sptr + st.ssze - site.frame - r)
                  ≡ read_block w.env.mem site.frame (st.sptr + st.ssze - site.frame - r)))
            (sleep_callback (some c) last w₂)
  unfolding sleep_callback
  coro_sleep-sleep_callback last host run_func others s k st w₁ w₂ on shared other slept steps kept
        fits spares =
      let asleep = Ensures_at coro_sleep-Sleeping slept in
      (
        asleep.queued,
        invoke_lem run_func others host w₂ (kept ∙ asleep.task),
        Ensures_bind
            (Switch-Steps r c site last this s k st w.env w₁.env w₂.env false settled runs on shared
              other asleep.switch steps fits spares)
            λ e d. result (record w₂ { env = e }) d,
      )
