-- ===== src/LibCoro/Tests.antt =====
-- Runs of libcoro.cpp's model, and the theorems at concrete threads.
use mathlib.Core.Option
use coroxx.Base.{
  ◌≢◌, ℕ, ◌+◌, ◌-◌, ◌≤◌, ◌≡◌, inl, inr, refl, true, false, Option, none, some, some_injective, List,
  [], ◌∷◌, ◌>>=◌, arith, ap, sym, subst, Ensures, result,
}
use coroxx.Base.Store.{update, update_cases, read_block}
use coroxx.LibCoro.Objects.{CoroStack, CoroEnv, CallSite, init, new_share_stack, new_coro}
use coroxx.LibCoro.Stacks.Rounds.{turns, at_cursor, turns-get_coro_stack}
use coroxx.LibCoro.Switch.{switch_to, yield_coro, wait, delete_coro}
use coroxx.LibCoro.Safety.History.{
  Switch, resumes, Switch-Steps, Steps, done, then, stores, stored, Asleep, Steps-Switched,
}
use coroxx.LibCoro.Layout.{On, Stacks, Kept}
use coroxx.LibCoro.Buffer.{used_size}
use coroxx.LibCoro.Safety.Mark.{used_size_lem}
use coroxx.LibCoro.Safety.{Has, Settled, SiteFits, Spares}
use coroxx.LibCoro.Safety.Leave.{Switched}
use coroxx.LibCoro.Safety.Switching.{switch_to-Switched}
use coroxx.LibCoro.Safety.Delete.{Spent, Deleted, delete_coro-Deleted}
use coroxx.LibCoro.Safety.Begin.{init-Settled, new_share_stack-Settled, new_coro-Settled}
use coroxx.LibCoro.Safety.Turns.{target, yield_coro-Switched}
use coroxx.LibCoro.Safety.Flags.{Waiting}
use coroxx.LibCoro.Safety.Waits.{below, wait-Waiting}

abbrev pub site : ℕ → ℕ → CallSite
site frame place = record {
  frame = frame;
  coro_stack_alloc = λ _. (place, 100);
  coro_create = 1 ∷ 1 ∷ [];
}

abbrev pub empty_thread : CoroEnv
empty_thread = new_share_stack 1 0 (init 0 (λ a. a))

-- A thread with one shared stack and two coroutines.
abbrev pub thread : CoroEnv
thread = new_coro false (new_coro false empty_thread)

poke : ℕ → ℕ → CoroEnv → CoroEnv
poke a b e = record e { mem = update e.mem a b }

-- Coroutine 0 starts, starts coroutine 1 on the same stack, which overwrites it and waits.
round : Option CoroEnv
unfolding switch_to wait poke
round = do
  e ← switch_to 0 false (site 0 100) thread
  e ← switch_to 1 false (site 190 100) (poke 195 7 e)
  wait 1 (site 180 100) (poke 195 9 e)

abbrev view : CoroEnv → Option ℕ × ℕ × List ℕ × Option ℕ
view e = (e.current, e.mem 195, e.coro_stack, e.main)

round_restores : Option.map view round ≡ some (some 0, 7, [], some 2)
unfolding round init new_share_stack new_coro
round_restores = refl

empty_thread-Settled : Settled empty_thread
empty_thread-Settled = new_share_stack-Settled 1 0 (init 0 (λ a. a)) (init-Settled 0 (λ a. a))

new_coro-Settled_example :
    Settled (new_coro false empty_thread)
    × Has (new_coro false empty_thread).coros empty_thread.g_coro_id_seed
new_coro-Settled_example = new_coro-Settled empty_thread empty_thread-Settled

pub thread-Settled : Settled thread
thread-Settled = (new_coro-Settled (new_coro false empty_thread) new_coro-Settled_example.0).0

thread-Fits : SiteFits (site 0 100) thread
unfolding init new_share_stack new_coro
thread-Fits = record {
  frame = λ c s k st q. cc;
  fresh = record { fits = omega arith; roomy = omega arith; apart = λ s st q. cc };
  roomy = λ s st q. cc;
}

thread-Has : Has thread.coros 0
unfolding init new_share_stack new_coro
thread-Has = (_, refl)

switch_to-Switched_example : Ensures (Switched 2 0 0 thread) (switch_to 0 false (site 0 100) thread)
switch_to-Switched_example =
    switch_to-Switched 2 (site 0 100) 0 thread thread-Settled thread-Fits thread-Has
      (λ k q. inr (omega arith)) false

-- The thread while coroutine 0 runs.
unfoldable pub started : CoroEnv
unfolding switch_to
started = elim (switch_to 0 false (site 0 100) thread) [ some e ↦ e | none ↦ thread ]

Ensures_run :
    {P : CoroEnv → Type 0} (e : Option CoroEnv) (d : CoroEnv)
    → Ensures P e
    → P (elim e [ some x ↦ x | none ↦ d ])
Ensures_run _ d (result a p) = p

pub started-Settled : Settled started
unfolding started
started-Settled =
    (Ensures_run (switch_to 0 false (site 0 100) thread) thread switch_to-Switched_example).settled

unfoldable pub shared_stack : Option ℕ → CoroStack
shared_stack user = record { sptr = 100; ssze = 100; coro = user; shared = true }

-- All stacks have the bytes from 100 to 199.
abbrev pub Sized : Stacks → Type 0
Sized t = (s : ℕ) (st : CoroStack) → t s ≡ some st → (st.sptr ≡ 100) × (st.ssze ≡ 100)

none-Sized : Sized (λ _. none)
none-Sized s st q = cc

update-Sized :
    (t : Stacks) (user : Option ℕ) → Sized t → Sized (update t 0 (some (shared_stack user)))
unfolding shared_stack
update-Sized t user h s st q = elim (update_cases t 0 s (some (shared_stack user)) (some st) q) [
  | inl (p, x) ↦ (
    ap (λ (y : CoroStack). y.sptr) (sym (some_injective x)),
    ap (λ (y : CoroStack). y.ssze) (sym (some_injective x)),
  )
  | inr (n, x) ↦ h s st x
]

pub Sized-Fits :
    (frame : ℕ) (e : CoroEnv)
    → 100 ≤ frame
    → frame ≤ 200
    → Sized e.stacks
    → SiteFits (site frame 300) e
Sized-Fits frame e low high h = record {
  frame = λ c s k st q on.
      let (a, b) = h s st on.live in (omega (arith, a, low), omega (arith, a, b, high));
  fresh = record {
    fits = omega arith;
    roomy = omega arith;
    apart = λ s st q. let (a, b) = h s st q in inl (omega (arith, a, b));
  };
  roomy = λ s st q. let (a, b) = h s st q in omega (arith, b);
}

unfoldable pub once_used : Stacks
once_used =
    update (update (λ _. none) 0 (some (shared_stack none))) 0 (some (shared_stack (some 0)))

pub once_used-Sized : Sized once_used
unfolding once_used
once_used-Sized =
    update-Sized (update (λ _. none) 0 (some (shared_stack none))) (some 0)
      (update-Sized (λ _. none) none none-Sized)

pub started-Fits : SiteFits (site 190 300) started
unfolding started init new_share_stack new_coro shared_stack once_used
started-Fits = Sized-Fits 190 started (omega arith) (omega arith) once_used-Sized

pub started-Spares : (this : ℕ) → Spares 2 (site 190 300) started.coros this
started-Spares this k q = inr (omega arith)

pub started-target : target started ≡ some 2
unfolding started init new_share_stack new_coro
started-target = refl

started-other : Has started.coros 1
unfolding started init new_share_stack new_coro
started-other = (_, refl)

pub started-Others : (c : ℕ) → c ≡ 1 → Has started.coros c
started-Others c p = subst (Has started.coros) (sym p) started-other

pub started-current : started.current ≡ some 0
unfolding started init new_share_stack new_coro
started-current = refl

pub started-coro : Has started.coros 0
unfolding started init new_share_stack new_coro
started-coro = (_, refl)

yield_coro-Switched_example :
    Ensures (Switched 2 190 2 started) (yield_coro false (site 190 300) started)
yield_coro-Switched_example =
    yield_coro-Switched 2 (site 190 300) 2 started started-Settled started-Fits (started-Spares 2)
      started-target false

two_ne_zero : ◌≢◌ {A = ℕ} 2 0
two_ne_zero = omega arith

wait-Waiting_example :
    Ensures
      (λ e'. Switched 2 190 2 started e' × Waiting 0 (below started.coro_stack) e')
      (wait 0 (site 190 300) started)
wait-Waiting_example =
    wait-Waiting 2 (site 190 300) 2 started started-Settled started-Fits (started-Spares 2) 0
      started-current started-target two_ne_zero

abbrev small_stack : CoroStack
small_stack = record { sptr = 100; ssze = 100; coro = none; shared = true }

used_size_lem_example : 150 + used_size small_stack 150 ≡ 100 + 100
used_size_lem_example = used_size_lem small_stack 150 (omega arith) (omega arith) (omega arith)

-- Coroutine 1 runs on the stack of coroutine 0, which is suspended.
second : CoroEnv
unfolding started init new_share_stack new_coro switch_to
second = elim (switch_to 1 false (site 190 300) started) [ some e ↦ e | none ↦ started ]

second-Switched : Switched 2 190 1 started second
unfolding second
second-Switched = Ensures_run (switch_to 1 false (site 190 300) started) started (
    switch_to-Switched 2 (site 190 300) 1 started started-Settled started-Fits started-other
      (started-Spares 1) false)

second-Fits : SiteFits (site 180 300) second
unfolding second started init new_share_stack new_coro shared_stack once_used
second-Fits =
    Sized-Fits 180 second (omega arith) (omega arith)
      (update-Sized once_used (some 1) once_used-Sized)

abbrev bytes_of_0 : List ℕ
bytes_of_0 = 190 ∷ 191 ∷ 192 ∷ 193 ∷ 194 ∷ 195 ∷ 196 ∷ 197 ∷ []

second-Kept : Kept 2 second.coros second.stacks second.mem 0 190 10 bytes_of_0
unfolding second started init new_share_stack new_coro shared_stack
second-Kept = record {
  number = 0;
  coroutine = _;
  stack = _;
  on = record { coro = refl; stack = refl; live = refl };
  shared = refl;
  parked = record { sp = 190; marked = refl; above = omega arith; exact = refl };
  place = refl;
  extent = refl;
  bytes = refl;
}

second-Asleep : Asleep 2 0 190 10 bytes_of_0 second
second-Asleep = record {
  settled = second-Switched.settled;
  away = λ q. cc (q, second-Switched.current);
  kept = second-Kept;
}

second-Has : Has second.coros 1
second-Has = second-Switched.settled.current_live 1 second-Switched.current

-- Coroutine 1 writes over the place of coroutine 0.
overwritten : Steps 2 0 second (stored 195 (9 ∷ []) second)
unfolding second started init new_share_stack new_coro shared_stack
overwritten =
    then second (stored 195 (9 ∷ []) second) (stored 195 (9 ∷ []) second)
      (stores second 1 0 _ _ 195 (9 ∷ []) second-Switched.current
        (record { coro = refl; stack = refl; live = refl }) (omega arith) (omega arith))
      (done (stored 195 (9 ∷ []) second))

overwritten-Fits : SiteFits (site 180 300) (stored 195 (9 ∷ []) second)
overwritten-Fits = record {
  frame = second-Fits.frame;
  fresh = second-Fits.fresh;
  roomy = second-Fits.roomy;
}

overwritten-Spares : Spares 2 (site 180 300) (stored 195 (9 ∷ []) second).coros 0
overwritten-Spares k q = inr (omega arith)

Steps-Switched_example :
    Ensures
      (λ d. Settled d × (d.current ≡ some 0) × (read_block d.mem 190 (10 - 2) ≡ bytes_of_0))
      (switch_to 0 false (site 180 300) (stored 195 (9 ∷ []) second))
Steps-Switched_example =
    Steps-Switched 2 0 190 10 bytes_of_0 second (stored 195 (9 ∷ []) second) (site 180 300) false
      second-Asleep overwritten overwritten-Fits overwritten-Spares

pub started-On : On started.coros started.stacks 0 0 started-coro.0 (shared_stack (some 0))
unfolding started init new_share_stack new_coro shared_stack started-coro
started-On = record { coro = refl; stack = refl; live = refl }

second-Switch : Switch 2 (site 190 300) 1 started second
unfolding second started init new_share_stack new_coro
second-Switch = resumes started second false started-other started-Fits (started-Spares 1) refl

pub shared_stack-shared : (shared_stack (some 0)).shared ≡ true
unfolding shared_stack
shared_stack-shared = refl

one_ne_zero : ◌≢◌ {A = ℕ} 1 0
one_ne_zero = omega arith

Switch-Steps_example :
    Ensures
      (λ d.
        Settled d
        × (d.current ≡ some 0)
        × (read_block d.mem 190
              ((shared_stack (some 0)).sptr + (shared_stack (some 0)).ssze - 190 - 2)
            ≡ read_block started.mem 190
                ((shared_stack (some 0)).sptr + (shared_stack (some 0)).ssze - 190 - 2)))
      (switch_to 0 false (site 180 300) (stored 195 (9 ∷ []) second))
Switch-Steps_example =
    Switch-Steps 2 0 (site 190 300) (site 180 300) 1 0 started-coro.0 (shared_stack (some 0))
      started second (stored 195 (9 ∷ []) second) false started-Settled started-current started-On
      shared_stack-shared one_ne_zero second-Switch overwritten overwritten-Fits overwritten-Spares

started-Spent : Spent started 1
unfolding started init new_share_stack new_coro
started-Spent = record {
  exists = started-other;
  idle = λ q. cc;
  not_main = λ q. cc;
  not_stacked = tt;
}

delete_coro-Deleted_example : Ensures (Deleted 1 started) (delete_coro 1 started)
delete_coro-Deleted_example = delete_coro-Deleted started 1 started-Settled started-Spent

-- Three shared stacks, of which the last is next.
abbrev turning : CoroEnv
turning = record empty_thread { pool = 5 ∷ 6 ∷ 7 ∷ []; cursor = 2 }

turns-get_coro_stack_example :
    (turns (site 0 100) 1 turning ≡ some (7 ∷ [], at_cursor 3 turning))
    × (turns (site 0 100) 3 (at_cursor 3 turning) ≡ some (5 ∷ 6 ∷ 7 ∷ [], at_cursor 3 turning))
unfolding init new_share_stack
turns-get_coro_stack_example =
    turns-get_coro_stack (site 0 100) turning (5 ∷ 6 ∷ []) (7 ∷ []) (omega arith) (omega arith) refl
      refl
