-- ===== src/Scheduler/Coroutines/Collect.antt =====
-- `CoroGC` of scheduler.cpp: the destructors of the coroutines that are done.
use coroxx.Base.{
  ℕ, ◌≡◌, ◌≢◌, refl, none, some, List, [], ◌∷◌, sym, ◌∙◌, subst, Ensures, Ensures_bind,
  Ensures_mono, result, All,
}
use coroxx.LibCoro.Objects.{CoroEnv, CallSite}
use coroxx.LibCoro.Layout.{Kept}
use coroxx.LibCoro.Safety.{Settled, SiteFits}
use coroxx.LibCoro.Safety.Delete.{Spent, Deleted, delete_coro-Deleted}
use coroxx.Scheduler.State.{World, set_scheduler}
use coroxx.Scheduler.Coroutines.{delete_all, coro_gc}

-- `c` is not in the list.
abbrev pub IsApart : List ℕ → ℕ → Type 0
IsApart cs c = All (λ x. c ≢ x) cs

abbrev pub AllDistinct : List ℕ → Type 0
AllDistinct [] = Unit
AllDistinct (c ∷ cs) = IsApart cs c × AllDistinct cs

-- The coroutines of the list can be deleted, one after the other.
abbrev pub AllSpent : List ℕ → CoroEnv → Type 0
AllSpent cs e = All (Spent e) cs × AllDistinct cs

-- They are gone, and no other coroutine has changed or lost its bytes.
pub record Collected (cs : List ℕ) (e e' : CoroEnv) : Type 0 where
  pub settled : Settled e'
  pub gone : All (λ c. e'.coros c ≡ none) cs
  pub same : (x : ℕ) → IsApart cs x → e'.coros x ≡ e.coros x
  pub same_current : e'.current ≡ e.current
  pub same_seed : e'.g_coro_id_seed ≡ e.g_coro_id_seed
  pub same_main : e'.main ≡ e.main
  pub same_coro_stack : e'.coro_stack ≡ e.coro_stack
  pub fits : (site : CallSite) → SiteFits site e → SiteFits site e'
  pub kept :
      (r x at size : ℕ) (img : List ℕ)
      → IsApart cs x
      → Kept r e.coros e.stacks e.mem x at size img
      → Kept r e'.coros e'.stacks e'.mem x at size img

-- Another coroutine can still be deleted.
Deleted-Spent : (c x : ℕ) (e e' : CoroEnv) → Deleted c e e' → c ≢ x → Spent e x → Spent e' x
Deleted-Spent c x e e' d n spent = record {
  exists = (spent.exists.0, d.same x (λ p. n (sym p)) ∙ spent.exists.1);
  idle = λ p. spent.idle (sym d.same_current ∙ p);
  not_main = λ p. spent.not_main (sym d.same_main ∙ p);
  not_stacked = subst (All (λ y. y ≢ x)) (sym d.same_coro_stack) spent.not_stacked;
}

still-Spent :
    (c : ℕ) (xs : List ℕ) (e e' : CoroEnv)
    → Deleted c e e'
    → IsApart xs c
    → All (Spent e) xs
    → All (Spent e') xs
still-Spent c [] e e' d n h = tt
still-Spent c (x ∷ xs) e e' d n h =
    (Deleted-Spent c x e e' d n.0 h.0, still-Spent c xs e e' d n.1 h.1)

pub delete_all-Collected :
    (cs : List ℕ) (e : CoroEnv)
    → Settled e
    → AllSpent cs e
    → Ensures (Collected cs e) (delete_all cs e)
unfolding delete_all
delete_all-Collected [] e settled spent = result e (record {
  settled = settled;
  gone = tt;
  same = λ x n. refl;
  same_current = refl;
  same_seed = refl;
  same_main = refl;
  same_coro_stack = refl;
  fits = λ site fit. fit;
  kept = λ r x at size img n h. h;
})
delete_all-Collected (c ∷ cs) e settled (spent, distinct) =
    Ensures_bind (delete_coro-Deleted e c settled spent.0) λ e₁ d.
      Ensures_mono
        (delete_all-Collected cs e₁ d.settled
          (still-Spent c cs e e₁ d distinct.0 spent.1, distinct.1))
        λ e₂ rest. record {
          settled = rest.settled;
          gone = (rest.same c distinct.0 ∙ d.gone, rest.gone);
          same = λ x n. rest.same x n.1 ∙ d.same x n.0;
          same_current = rest.same_current ∙ d.same_current;
          same_seed = rest.same_seed ∙ d.same_seed;
          same_main = rest.same_main ∙ d.same_main;
          same_coro_stack = rest.same_coro_stack ∙ d.same_coro_stack;
          fits = λ site fit. rest.fits site (d.fits site fit);
          kept =
              λ r x at size img n h. rest.kept r x at size img n.1 (d.kept r x at size img n.0 h);
        }

-- `CoroGC` comes to an end: the coroutines that were done are deleted, the list of them is empty, and
-- no other coroutine changes or loses its bytes; what else the scheduler has stays. The thread was
-- settled, and the coroutines that were done existed, none of them twice in the list, did not run, and
-- were neither the main coroutine nor on the stack of coroutines.
pub coro_gc-Collected :
    (w : World)
    → Settled w.env
    → AllSpent w.scheduler.deleting_coros w.env
    → Ensures
        (λ (w' : World).
          Collected w.scheduler.deleting_coros w.env w'.env
          × (w'
              ≡ set_scheduler
                  (record w.scheduler { deleting_coros = [] })
                  (record w { env = w'.env })))
        (coro_gc w)
unfolding coro_gc
coro_gc-Collected w settled spent =
    Ensures_bind
      {P = λ (w' : World).
        (e : CoroEnv) × (w' ≡ record w { env = e }) × Collected w.scheduler.deleting_coros w.env e}
      (Ensures_bind (delete_all-Collected w.scheduler.deleting_coros w.env settled spent)
        λ e c. result (record w { env = e }) (e, refl, c))
      λ w₁ (e, same, c).
        subst
          (λ (x : World).
            Ensures Good (some (set_scheduler (record w.scheduler { deleting_coros = [] }) x)))
          (sym same)
          (result
            (set_scheduler (record w.scheduler { deleting_coros = [] }) (record w { env = e }))
            (c, refl))
  where
    Good : World → Type 0
    Good w' =
        Collected w.scheduler.deleting_coros w.env w'.env
        × (w'
            ≡ set_scheduler (record w.scheduler { deleting_coros = [] })
                (record w { env = w'.env }))
