-- ===== src/LibCoro/Stacks/Rounds.antt =====
-- The turns in which `GetCoroStack` (libcoro.cpp) gives the shared stacks of a full pool.
use coroxx.Base.{
  ℕ, zero, suc, ◌+◌, ◌≤◌, ◌<◌, ◌≡◌, refl, Option, some, List, [], ◌∷◌, ◌++◌, ◌>>=◌, length,
  length-append, get_elem?, arith, ap, sym, ◌∙◌, List-cases, inl, inr,
}
use mathlib.Core.List.{append_assoc, append-nil}
use coroxx.LibCoro.Objects.{CoroEnv, CallSite}
use coroxx.LibCoro.Stacks.{get_coro_stack, take_turn, wrap_cursor}

-- The stacks that `n` coroutines get, one after the other.
pub turns : CallSite → ℕ → CoroEnv → Option (List ℕ × CoroEnv)
turns site zero e = some ([], e)
turns site (suc n) e = do (s, e) ← get_coro_stack site e; (ss, e) ← turns site n e; some (s ∷ ss, e)

abbrev pub at_cursor : ℕ → CoroEnv → CoroEnv
at_cursor n e = record e { cursor = n }

get_middle : (pre post : List ℕ) (s : ℕ) → get_elem? (pre ++ s ∷ post) (length pre) ≡ some s
get_middle [] post s = refl
get_middle (x ∷ pre) post s = get_middle pre post s

module _ (site : CallSite) where
  -- A full pool is only read.
  full_turn :
      (e : CoroEnv)
      → e.share_stack_count ≤ length e.pool
      → 0 < length e.pool
      → get_coro_stack site e ≡ take_turn e
  unfolding get_coro_stack
  full_turn e full some_stack = elim (List-cases e.pool) [
    | inl p ↦ absurd (omega (arith, some_stack, ap length p))
    | inr (s, rest, p) ↦ read s rest p
  ]
    where
      read : (s : ℕ) (rest : List ℕ) → e.pool ≡ s ∷ rest → get_coro_stack site e ≡ take_turn e
      read s rest p = ground (arith, full, p)

  turn_at :
      (e : CoroEnv) (pre post : List ℕ) (s : ℕ)
      → e.pool ≡ pre ++ s ∷ post
      → wrap_cursor e.cursor (length e.pool) ≡ length pre
      → take_turn e ≡ some (s, at_cursor (length pre + 1) e)
  unfolding take_turn
  turn_at e pre post s p q =
      let at : get_elem? e.pool (wrap_cursor e.cursor (length e.pool)) ≡ some s =
        ap (λ l. get_elem? l (wrap_cursor e.cursor (length e.pool))) p
        ∙ ap (get_elem? (pre ++ s ∷ post)) q
        ∙ get_middle pre post s in
      rw (at, q) refl

  wrapped :
      (e : CoroEnv) (pre post : List ℕ) (s : ℕ)
      → e.pool ≡ pre ++ s ∷ post
      → e.cursor ≡ length pre
      → wrap_cursor e.cursor (length e.pool) ≡ length pre
  unfolding wrap_cursor
  wrapped e pre post s p q = ground (arith, ap length p, length-append pre (s ∷ post), q)

  next_turn :
      (n : ℕ) (e e' e'' : CoroEnv) (s : ℕ) (ss : List ℕ)
      → get_coro_stack site e ≡ some (s, e')
      → turns site n e' ≡ some (ss, e'')
      → turns site (suc n) e ≡ some (s ∷ ss, e'')
  unfolding turns
  next_turn n e e' e'' s ss p q = ground (arith, p, q)

  pass :
      (post pre : List ℕ) (e : CoroEnv)
      → e.share_stack_count ≤ length e.pool
      → e.pool ≡ pre ++ post
      → e.cursor ≡ length pre
      → turns site (length post) e ≡ some (post, at_cursor (length e.pool) e)
  unfolding turns
  pass [] pre e full p q =
      ap (λ n. some ([], at_cursor n e)) (q ∙ ap length (sym (append-nil pre)) ∙ sym (ap length p))
  pass (s ∷ rest) pre e full p q =
      next_turn (length rest) e (at_cursor (length pre + 1) e) (at_cursor (length e.pool) e) s rest
        (full_turn e full (omega (arith, ap length p, length-append pre (s ∷ rest)))
          ∙ turn_at e pre rest s p (wrapped e pre rest s p q))
        (pass rest (pre ++ s ∷ []) (at_cursor (length pre + 1) e) full
          (p ∙ sym (append_assoc pre (s ∷ []) rest)) (sym (length-append pre (s ∷ []))))

  -- The pool of shared stacks is full, with a stack in it. The coroutines that get a stack next get
  -- those from the cursor to the end of the pool, in their order; after that each round of as many
  -- coroutines as there are stacks gets every stack once, in the order of the pool.
  pub turns-get_coro_stack :
      (e : CoroEnv) (pre post : List ℕ)
      → e.share_stack_count ≤ length e.pool
      → 0 < length e.pool
      → e.pool ≡ pre ++ post
      → e.cursor ≡ length pre
      → (turns site (length post) e ≡ some (post, at_cursor (length e.pool) e))
        × (turns site (length e.pool) (at_cursor (length e.pool) e)
            ≡ some (e.pool, at_cursor (length e.pool) e))
  unfolding wrap_cursor
  turns-get_coro_stack e pre post full some_stack p q = (
    pass post pre e full p q,
    elim (List-cases e.pool) [
      | inl w ↦ absurd (omega (arith, some_stack, ap length w))
      | inr (s, rest, w) ↦ round s rest w
    ],
  )
    where
      again : (n : ℕ) → wrap_cursor n n ≡ 0
      again n = ground arith

      round :
          (s : ℕ) (rest : List ℕ)
          → e.pool ≡ s ∷ rest
          → turns site (length e.pool) (at_cursor (length e.pool) e)
            ≡ some (e.pool, at_cursor (length e.pool) e)
      round s rest w =
          let n = length e.pool in
          ap (λ m. turns site m (at_cursor n e)) (ap length w)
          ∙ next_turn (length rest) (at_cursor n e) (at_cursor 1 e) (at_cursor n e) s rest
              (full_turn (at_cursor n e) full some_stack
                ∙ turn_at (at_cursor n e) [] rest s w (again n))
              (pass rest (s ∷ []) (at_cursor 1 e) full w refl)
          ∙ ap (λ l. some (l, at_cursor n e)) (sym w)
