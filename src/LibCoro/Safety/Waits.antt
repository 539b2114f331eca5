-- ===== src/LibCoro/Safety/Waits.antt =====
-- `Wait` of libcoro.cpp and its mark.
use coroxx.Base.{
  ℕ, ◌≡◌, ◌≢◌, refl, true, false, some, List, [], ◌∷◌, ◌>>=◌, arith, sym, ◌∙◌, subst, Ensures,
  Ensures_value, result,
}
use coroxx.Base.Store.{update_self}
use coroxx.LibCoro.Objects.{CoroEnv, CallSite, set_coro}
use coroxx.LibCoro.Safety.{Settled, SiteFits, Spares}
use coroxx.LibCoro.Safety.Leave.{Switched}
use coroxx.LibCoro.Safety.Turns.{target, wait-Switched}
use coroxx.LibCoro.Switch.{switch_to, yield_coro, wait}
use coroxx.LibCoro.Safety.Upon.{Upon, Upon_at, Upon-bind}
use coroxx.LibCoro.Safety.Flags.{Waiting, switch_lem}

-- The stack of coroutines after a `Yield`.
abbrev pub below : List ℕ → List ℕ
below [] = []
below (next ∷ rest) = rest

module _ (r : ℕ) (site : CallSite) (this : ℕ) (e : CoroEnv) (settled : Settled e)
    (fit : SiteFits site e) (spare : Spares r site e.coros this) (c : ℕ) (runs : e.current ≡ some c)
    (goes : target e ≡ some this) (other : this ≢ c) where
  yield_lem :
      (d : CoroEnv)
      → d.current ≡ some c
      → target d ≡ some this
      → d.coro_stack ≡ e.coro_stack
      → Waiting c d.coro_stack d
      → Upon (Waiting c (below e.coro_stack)) (yield_coro false site d)
  unfolding yield_coro
  yield_lem d running going same w =
      subst (λ (s : List ℕ). Upon (Waiting c (below s)) (yield_coro false site d)) same
        (go d.coro_stack refl)
    where
      away : (next : ℕ) → next ≡ this → next ≢ c
      away next p q = other (sym p ∙ q)

      go :
          (s : List ℕ)
          → s ≡ d.coro_stack
          → Upon (Waiting c (below s)) (elim s [
            | [] ↦ do next ← d.main; switch_to next false site d
            | next ∷ rest ↦ switch_to next false site (record d { coro_stack = rest })
          ])
      go [] p = Upon-bind d.main λ next q.
          switch_lem c [] next false site d running (away next (ground (arith, going, sym p, q)))
            (record {
              coroutine = w.coroutine;
              there = w.there;
              marked = w.marked;
              same_stack = sym p;
            })
      go (next ∷ rest) p =
          switch_lem c rest next false site (record d { coro_stack = rest }) running
            (away next (ground (arith, going, sym p)))
            (record {
              coroutine = w.coroutine;
              there = w.there;
              marked = w.marked;
              same_stack = refl;
            })

  wait_lem : Upon (Waiting c (below e.coro_stack)) (wait c site e)
  unfolding wait
  wait_lem = Upon-bind (e.coros c) λ k p.
      let d = set_coro c (record k { waiting = true }) e in
      yield_lem d runs goes refl (record {
        coroutine = record k { waiting = true };
        there = update_self e.coros c (some (record k { waiting = true }));
        marked = refl;
        same_stack = refl;
      })

  -- `Wait` of the coroutine that runs comes to an end as `Yield` does, in a settled thread in which the
  -- coroutine on top of the stack of coroutines runs, or the thread's own if that is empty, with the
  -- bytes that it was suspended with; all other suspended coroutines keep theirs. The one that waits is
  -- marked, and was not put on the stack of coroutines, from which the one that runs was taken. It is
  -- not the one that `Yield` goes to, the thread was settled, and the call site fits it.
  pub wait-Waiting :
      Ensures
        (λ e'. Switched r site.frame this e e' × Waiting c (below e.coro_stack) e')
        (wait c site e)
  wait-Waiting =
      let (k, there) = settled.current_live c runs in
      let (e', q, switched) =
        Ensures_value (wait-Switched r site this e settled fit spare c k there goes) in
      subst (Ensures (λ e'. Switched r site.frame this e e' × Waiting c (below e.coro_stack) e'))
        (sym q) (result e' (switched, Upon_at wait_lem q))
