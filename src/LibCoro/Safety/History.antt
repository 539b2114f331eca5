-- ===== src/LibCoro/Safety/History.antt =====
-- Any sequence of operations of a thread of libcoro.cpp while one coroutine is suspended.
use coroxx.Base.{
  true, ℕ, ◌+◌, ◌-◌, ◌≤◌, length, ◌≡◌, ◌≢◌, refl, inl, inr, Bool, false, Option, none, some,
  some_injective, List, sym, ap, ◌∙◌, Ensures, Ensures_at, Ensures_mono,
}
use coroxx.Base.Store.{read_block, write_block}
use coroxx.LibCoro.Objects.{CoroStack, LibCoroCoroutine, CoroEnv, CallSite, new_coro}
use coroxx.LibCoro.Switch.{switch_to, yield_coro, wait}
use coroxx.LibCoro.Layout.{On, Kept}
use coroxx.LibCoro.Layout.Bytes.{write_Kept}
use coroxx.LibCoro.Layout.Grow.{create_Kept}
use coroxx.LibCoro.Safety.{Has, Settled, SiteFits, Spares}
use coroxx.LibCoro.Safety.Leave.{Switched}
use coroxx.LibCoro.Safety.Switching.{switch_to-Switched}
use coroxx.CoroBase.{CoroutineFunction}
use coroxx.LibCoro.Objects.{reset_context}
use coroxx.LibCoro.Switch.{delete_coro}
use coroxx.LibCoro.Safety.Delete.{Spent, delete_coro-Deleted}
use coroxx.LibCoro.Safety.Begin.{reset_context-Reset, new_coro-Settled}
use coroxx.LibCoro.Safety.Turns.{target, yield_coro-Switched, wait-Switched}

-- The coroutine that runs writes to its own stack.
abbrev pub stored : ℕ → List ℕ → CoroEnv → CoroEnv
stored a bytes e = record e { mem = write_block e.mem a bytes }

-- A switch to `this` by `Resume`, `Yield` or `Wait`, at a call site that fits the thread.
pub data Switch (r : ℕ) (site : CallSite) (this : ℕ) : CoroEnv → CoroEnv → Type 0 where
  resumes :
      (e e' : CoroEnv) (release : Bool)
      → Has e.coros this
      → SiteFits site e
      → Spares r site e.coros this
      → switch_to this release site e ≡ some e'
      → Switch r site this e e'
  yields :
      (e e' : CoroEnv) (release : Bool)
      → target e ≡ some this
      → SiteFits site e
      → Spares r site e.coros this
      → yield_coro release site e ≡ some e'
      → Switch r site this e e'
  waits_for :
      (e e' : CoroEnv) (o : ℕ)
      → target e ≡ some this
      → Has e.coros o
      → SiteFits site e
      → Spares r site e.coros this
      → wait o site e ≡ some e'
      → Switch r site this e e'

-- What a thread does while the coroutine `c` does not run: it makes coroutines and gives them their
-- functions, deletes others than `c`, the coroutine that runs writes to its own stack, and switches
-- lead to others than `c`.
pub data Step (r c : ℕ) : CoroEnv → CoroEnv → Type 0 where
  creates : (e : CoroEnv) → Step r c e (new_coro false e)
  resets :
      (e e' : CoroEnv) (o : ℕ) (func : CoroutineFunction) (arg : Option ℕ)
      → Has e.coros o
      → reset_context o func arg e ≡ some e'
      → Step r c e e'
  deletes : (e e' : CoroEnv) (o : ℕ) → o ≢ c → Spent e o → delete_coro o e ≡ some e' → Step r c e e'
  stores :
      (e : CoroEnv) (o s : ℕ) (k : LibCoroCoroutine) (st : CoroStack) (a : ℕ) (bytes : List ℕ)
      → e.current ≡ some o
      → On e.coros e.stacks o s k st
      → st.sptr ≤ a
      → a + length bytes ≤ st.sptr + st.ssze
      → Step r c e (stored a bytes e)
  switches :
      (e e' : CoroEnv) (site : CallSite) (this : ℕ)
      → this ≢ c
      → Switch r site this e e'
      → Step r c e e'

pub data Steps (r c : ℕ) : CoroEnv → CoroEnv → Type 0 where
  done : (e : CoroEnv) → Steps r c e e
  then : (e e' e'' : CoroEnv) → Step r c e e' → Steps r c e' e'' → Steps r c e e''

Switch-Switched :
    {r : ℕ} {site : CallSite} {this : ℕ} {e e' : CoroEnv}
    → Settled e
    → Switch r site this e e'
    → Switched r site.frame this e e'
Switch-Switched {r} {site} {this} settled (resumes e e' release has fit spare q) =
    Ensures_at (switch_to-Switched r site this e settled fit has spare release) q
Switch-Switched {r} {site} {this} settled (yields e e' release goes fit spare q) =
    Ensures_at (yield_coro-Switched r site this e settled fit spare goes release) q
Switch-Switched {r} {site} {this} settled (waits_for e e' o goes (k, there) fit spare q) =
    Ensures_at (wait-Switched r site this e settled fit spare o k there goes) q

module _ (r c at size : ℕ) (img : List ℕ) where
  -- `c` is suspended on a shared stack in a settled thread.
  pub record Asleep (e : CoroEnv) : Type 0 where
    pub settled : Settled e
    pub away : e.current ≢ some c
    pub kept : Kept r e.coros e.stacks e.mem c at size img

  Switched-Asleep :
      {frame : ℕ} {e e' : CoroEnv} (this : ℕ)
      → this ≢ c
      → Asleep e
      → Switched r frame this e e'
      → Asleep e'
  Switched-Asleep this n w sw = record {
    settled = sw.settled;
    away = λ q. n (some_injective (sym sw.current ∙ q));
    kept = sw.others c at size img w.away (λ p. n (sym p)) w.kept;
  }

  stored-Asleep :
      (e : CoroEnv) (o s : ℕ) (k : LibCoroCoroutine) (st : CoroStack) (a : ℕ) (bytes : List ℕ)
      → e.current ≡ some o
      → On e.coros e.stacks o s k st
      → st.sptr ≤ a
      → a + length bytes ≤ st.sptr + st.ssze
      → Asleep e
      → Asleep (stored a bytes e)
  stored-Asleep e o s k st a bytes runs on low high w =
      let settled = w.settled in
      record {
        settled = record {
          laws = settled.laws;
          alive = settled.alive;
          current_live = settled.current_live;
          serving = settled.serving;
          inited = settled.inited;
          has_main = settled.has_main;
          first = settled.first;
        };
        away = w.away;
        kept =
            write_Kept settled.laws s st on.live a bytes low high e.mem
              (λ k₁ st₁ on₁ bare p x _ _. absurd (other k₁ st₁ on₁ bare)) w.kept;
      }
    where
      other :
          (k₁ : LibCoroCoroutine) (st₁ : CoroStack)
          → On e.coros e.stacks c s k₁ st₁
          → k₁.save_buffer ≡ none
          → ⊥
      other k₁ st₁ on₁ bare = elim (w.settled.laws.resident c s k₁ st₁ on₁ bare) [
        | inr z ↦ z
        | inl q ↦ w.away (
            runs
            ∙ sym (w.settled.serving o s k st runs on)
            ∙ ap (λ (t : CoroStack). t.coro) (some_injective (sym on.live ∙ on₁.live))
            ∙ q)
      ]

  Step-Asleep : {e e' : CoroEnv} → Step r c e e' → Asleep e → Asleep e'
  unfolding new_coro
  Step-Asleep (creates e) w = record {
    settled = (new_coro-Settled e w.settled).0;
    away = w.away;
    kept = create_Kept w.settled.laws _ refl refl (inr (refl, refl)) w.kept;
  }
  Step-Asleep (resets e e' o func arg has q) w =
      let reset = Ensures_at (reset_context-Reset o func arg e has w.settled) q in
      record {
        settled = reset.settled;
        away = λ p. w.away (sym reset.same_current ∙ p);
        kept = reset.kept r c at size img w.kept;
      }
  Step-Asleep (deletes e e' o n spent q) w =
      let d = Ensures_at (delete_coro-Deleted e o w.settled spent) q in
      record {
        settled = d.settled;
        away = λ p. w.away (sym d.same_current ∙ p);
        kept = d.kept r c at size img (λ p. n (sym p)) w.kept;
      }
  Step-Asleep (stores e o s k st a bytes runs on low high) w =
      stored-Asleep e o s k st a bytes runs on low high w
  Step-Asleep (switches e e' site this n switch) w =
      Switched-Asleep this n w (Switch-Switched w.settled switch)

  Steps-Asleep : {e e' : CoroEnv} → Steps r c e e' → Asleep e → Asleep e'
  Steps-Asleep (done e) w = w
  Steps-Asleep (then e e' e'' s t) w = Steps-Asleep t (Step-Asleep s w)

  -- A coroutine is suspended on a shared stack of a settled thread. After any sequence of operations
  -- that do not resume it, in which others may run on that stack and write to all of it, a `Resume` of
  -- it comes to an end and it runs with its bytes in their place. All but the `r` uppermost bytes are
  -- meant, and each call site fits the thread.
  pub Steps-Switched :
      (e e' : CoroEnv) (site : CallSite) (release : Bool)
      → Asleep e
      → Steps r c e e'
      → SiteFits site e'
      → Spares r site e'.coros c
      → Ensures
          (λ d. Settled d × (d.current ≡ some c) × (read_block d.mem at (size - r) ≡ img))
          (switch_to c release site e')
  Steps-Switched e e' site release w steps fit spare =
      let w' = Steps-Asleep steps w in
      Ensures_mono
        (switch_to-Switched r site c e' w'.settled fit (w'.kept.coroutine, w'.kept.on.coro) spare
          release)
        λ d sw. (sw.settled, sw.current, sw.back at size img w'.away w'.kept)

-- A coroutine runs on a shared stack of a settled thread and gives way to another, by `Resume`, `Yield`
-- or `Wait`. After any sequence of operations that do not resume it, a `Resume` of it comes to an end,
-- and it finds every byte of its stack from its frame on as it left it, all but the `r` uppermost,
-- whatever others that share the stack wrote to it. Each call site fits the thread.
pub Switch-Steps :
    (r c : ℕ) (first last : CallSite) (this s : ℕ) (k : LibCoroCoroutine) (st : CoroStack)
    (e e₁ e₂ : CoroEnv) (release : Bool)
    → Settled e
    → e.current ≡ some c
    → On e.coros e.stacks c s k st
    → st.shared ≡ true
    → this ≢ c
    → Switch r first this e e₁
    → Steps r c e₁ e₂
    → SiteFits last e₂
    → Spares r last e₂.coros c
    → Ensures
        (λ d.
          Settled d
          × (d.current ≡ some c)
          × (read_block d.mem first.frame (st.sptr + st.ssze - first.frame - r)
              ≡ read_block e.mem first.frame (st.sptr + st.ssze - first.frame - r)))
        (switch_to c release last e₂)
Switch-Steps r c first last this s k st e e₁ e₂ release settled runs on shared other switch steps
      fit spare =
    let sw = Switch-Switched settled switch in
    Steps-Switched r c first.frame (st.sptr + st.ssze - first.frame) _ e₁ e₂ last release
      (record {
        settled = sw.settled;
        away = λ q. other (some_injective (sym sw.current ∙ q));
        kept = sw.departed c runs (λ p. other (sym p)) s k st on shared;
      })
      steps fit spare
