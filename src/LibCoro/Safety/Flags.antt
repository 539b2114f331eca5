-- ===== src/LibCoro/Safety/Flags.antt =====
-- The mark of a coroutine that waits, through a switch (libcoro.cpp): `Resume` takes it from the
-- coroutine that it resumes only, and does not put a coroutine with it on the stack of coroutines.
use coroxx.Base.{
  ℕ, ◌≡◌, ◌≢◌, refl, inl, inr, Bool, true, false, not, ◌&&◌, Option, none, some, some_injective,
  List, [], ◌∷◌, if◌then◌else◌, ◌>>=◌, arith, sym, ap, ◌∙◌, subst,
}
use coroxx.Base.Store.{update, update_self, update_ne, write_block}
use coroxx.Base.{eq-or-ne, ltb, leb, length, take, get_elem?, same_pointer}
use coroxx.LibCoro.Objects.{
  LibCoroCoroutine, CoroEnv, CallSite, Context, coro_ctx, swap_coro, set_coro,
}
use coroxx.LibCoro.Stacks.{get_coro_stack, grow_pool, new_coro_stack, take_turn, wrap_cursor}
use coroxx.LibCoro.Buffer.{
  on_shared_stack, mark_stack_resume_point, save_stack_buffer, copy_back, resume_stack_buffer,
}
use coroxx.LibCoro.Switch.{
  coro_transfer, ensure_main, push_current, set_current, assign_stack, find_save_coro, occupy,
  init_ctx, create_frame, save_other, leave, resume, swap_coro_func, settle, switch_to,
}
use coroxx.LibCoro.Safety.Upon.{Upon, absent, present, Upon-bind, Upon-then, Upon-if, Upon-option}

-- The coroutine `c` is marked as waiting, and the stack of coroutines is `s`.
pub record Waiting (c : ℕ) (s : List ℕ) (e : CoroEnv) : Type 0 where
  pub coroutine : LibCoroCoroutine
  pub there : e.coros c ≡ some coroutine
  pub marked : coroutine.waiting ≡ true
  pub same_stack : e.coro_stack ≡ s

module _ (x : ℕ) (s : List ℕ) where
  -- Another thread with the same coroutines.
  moved :
      (e e' : CoroEnv)
      → Waiting x s e
      → e'.coros ≡ e.coros
      → e'.coro_stack ≡ e.coro_stack
      → Waiting x s e'
  moved e e' w p q = record {
    coroutine = w.coroutine;
    there = ap (λ (t : ℕ → Option LibCoroCoroutine). t x) p ∙ w.there;
    marked = w.marked;
    same_stack = q ∙ w.same_stack;
  }

  -- A change of a coroutine that leaves its mark.
  set-Waiting :
      (i : ℕ) (k k' : LibCoroCoroutine) (e : CoroEnv)
      → e.coros i ≡ some k
      → k'.waiting ≡ k.waiting
      → Waiting x s e
      → Waiting x s (set_coro i k' e)
  set-Waiting i k k' e there same w = elim (eq-or-ne x i) [
    | inl p ↦ record {
      coroutine = k';
      there = ap (update e.coros i (some k')) p ∙ update_self e.coros i (some k');
      marked =
          same
          ∙ ap (λ (y : LibCoroCoroutine). y.waiting)
              (some_injective (sym there ∙ ap e.coros (sym p) ∙ w.there))
          ∙ w.marked;
      same_stack = w.same_stack;
    }
    | inr n ↦ record {
      coroutine = w.coroutine;
      there = update_ne e.coros i x (some k') n ∙ w.there;
      marked = w.marked;
      same_stack = w.same_stack;
    }
  ]

  -- What an operation keeps, if it comes to an end.
  abbrev Keeps : Option CoroEnv → Type 0
  Keeps m = Upon (Waiting x s) m

  mark_lem : (sp c : ℕ) (e : CoroEnv) → Waiting x s e → Keeps (mark_stack_resume_point sp c e)
  unfolding mark_stack_resume_point
  mark_lem sp c e w = Upon-bind (e.coros c) λ k p. Upon-option k.stack (present e w) λ i q.
      Upon-bind (e.stacks i)
        λ st l. Upon-if st.shared (λ h. present _ (set-Waiting c k _ e p refl w)) (λ h. present e w)

  save_lem : (c : ℕ) (e : CoroEnv) → Waiting x s e → Keeps (save_stack_buffer c e)
  unfolding save_stack_buffer
  save_lem c e w = Upon-bind (e.coros c) λ k p. Upon-bind (on_shared_stack k e) λ shared l.
      Upon-option k.stack_sp (present e w)
        λ sp q. Upon-if shared (λ h. present _ (set-Waiting c k _ e p refl w)) (λ h. present e w)

  copy_lem :
      (c : ℕ) (k : LibCoroCoroutine) (bytes : List ℕ) (e : CoroEnv)
      → e.coros c ≡ some k
      → Waiting x s e
      → Keeps (copy_back c k bytes e)
  unfolding copy_back
  copy_lem c k bytes e p w = Upon-bind k.stack_sp λ sp q.
      let e' = record e { mem = write_block e.mem sp (take k.save_buffer_size bytes) } in
      let k' = record k { save_buffer = none; stack_sp = none; save_buffer_size = 0 } in
      Upon-if (leb k.save_buffer_size (length bytes))
        (λ h. present (set_coro c k' e') (set-Waiting c k k' e' p refl (moved e e' w refl refl)))
        (λ h. absent)

  back_lem : (c : ℕ) (e : CoroEnv) → Waiting x s e → Keeps (resume_stack_buffer c e)
  unfolding resume_stack_buffer
  back_lem c e w = Upon-bind (e.coros c) λ k p. Upon-option k.save_buffer (present e w) λ bytes q.
      Upon-bind (on_shared_stack k e)
        λ shared l. Upon-if shared (λ h. copy_lem c k bytes e p w) (λ h. present e w)

  -- A coroutine that waits does not join the stack of coroutines.
  push_lem :
      (release : Bool) (e : CoroEnv)
      → e.current ≡ some x
      → Waiting x s e
      → Keeps (push_current release e)
  unfolding push_current
  push_lem release e runs w = Upon-option e.current (present e w) λ c q.
      Upon-bind (e.coros c) λ k p. present _ (
        unchanged (not k.waiting && not release) (record e { coro_stack = c ∷ e.coro_stack })
          (waits k (ap e.coros (some_injective (sym runs ∙ q)) ∙ p)))
    where
      waits : (k : LibCoroCoroutine) → e.coros x ≡ some k → (not k.waiting && not release) ≡ false
      waits k p =
          let is : k.waiting ≡ true =
            ap (λ (y : LibCoroCoroutine). y.waiting) (some_injective (sym p ∙ w.there))
            ∙ w.marked in
          ground (arith, is)

      unchanged : (b : Bool) (d : CoroEnv) → b ≡ false → Waiting x s (if b then d else e)
      unchanged true d h = cc
      unchanged false d h = w

  current_lem : (this : ℕ) (e : CoroEnv) → this ≢ x → Waiting x s e → Keeps (set_current this e)
  unfolding set_current
  current_lem this e other w = Upon-bind (e.coros this) λ k p. present _ (record {
    coroutine = w.coroutine;
    there = update_ne e.coros this x _ (λ q. other (sym q)) ∙ w.there;
    marked = w.marked;
    same_stack = w.same_stack;
  })

  abbrev Alike : CoroEnv → ℕ × CoroEnv → Type 0
  Alike e (i, e') = (e'.coros ≡ e.coros) × (e'.coro_stack ≡ e.coro_stack)

  stack_lem : (site : CallSite) (e : CoroEnv) → Upon (Alike e) (get_coro_stack site e)
  unfolding get_coro_stack grow_pool new_coro_stack take_turn
  stack_lem site e =
      Upon-if (ltb (length e.pool) e.share_stack_count) (λ h. present _ (refl, refl))
        λ h. go (e.pool)
    where
      go :
          (pool : List ℕ)
          → Upon (Alike e) (elim pool [
            | [] ↦ some (e.next_stack, new_coro_stack site false e)
            | _ ∷ _ ↦ take_turn e
          ])
      go [] = present _ (refl, refl)
      go (i ∷ pool) =
          Upon-bind (get_elem? e.pool (wrap_cursor e.cursor (length e.pool)))
            λ i q. present _ (refl, refl)

  assign_lem :
      (this : ℕ) (site : CallSite) (e : CoroEnv) → Waiting x s e → Keeps (assign_stack this site e)
  unfolding assign_stack
  assign_lem this site e w = Upon-bind (e.coros this) λ k p. alone k p k.stack
    where
      alone :
          (k : LibCoroCoroutine)
          → e.coros this ≡ some k
          → (o : Option ℕ)
          → Keeps (elim o [
            | some _ ↦ some e
            | none ↦ if k.ctx_inited then some e else do
              (i, e') ← get_coro_stack site e
              some (set_coro this (record k { stack = some i }) e')
          ])
      alone k p (some i) = present e w
      alone k p none =
          Upon-if k.ctx_inited (λ h. present e w)
            λ h. Upon-then (stack_lem site e) λ (i, e') (same, same_stack). present _ (
              set-Waiting this k (record k { stack = some i }) e'
                (ap (λ (t : ℕ → Option LibCoroCoroutine). t this) same ∙ p) refl
                (moved e e' w same same_stack))

  occupy_lem : (this : ℕ) (e : CoroEnv) → Waiting x s e → Keeps (occupy this e)
  unfolding occupy
  occupy_lem this e w = Upon-bind (e.coros this) λ k p.
      Upon-option k.stack (present e w)
        λ i q. Upon-bind (e.stacks i) λ st l. present _ (moved e _ w refl refl)

  init_lem :
      (this : ℕ) (site : CallSite) (e : CoroEnv) → Waiting x s e → Keeps (init_ctx this site e)
  unfolding init_ctx create_frame
  init_lem this site e w = Upon-bind (e.coros this) λ k p.
      Upon-if k.ctx_inited (λ h. present e w)
        λ h. Upon-bind k.stack λ i q. Upon-bind (e.stacks i) λ st l.
          let e' = create_frame site st e in
          let k' = record k { ctx_inited = true } in
          present (set_coro this k' e') (set-Waiting this k k' e' p refl (moved e e' w refl refl))

  other_lem :
      (save_coro current : Option ℕ) (e : CoroEnv)
      → Waiting x s e
      → Keeps (save_other save_coro current e)
  unfolding save_other
  other_lem save_coro current e w =
      Upon-option save_coro (present e w)
        λ o q. Upon-if (same_pointer current (some o)) (λ h. present e w) (λ h. save_lem o e w)

  leave_lem :
      (this : ℕ) (current : Option ℕ) (site : CallSite) (e : CoroEnv)
      → Waiting x s e
      → Keeps (leave this current site e)
  unfolding leave coro_transfer
  leave_lem this current site e w = Upon-option current (present _ (moved e _ w refl refl)) λ c q.
      Upon-then (mark_lem site.frame c e w) λ e₁ w₁. Upon-bind (e₁.coros c) λ kc p.
        Upon-bind (e₁.coros this) λ k p'.
          Upon-if (same_pointer kc.stack k.stack) (λ h. present _ (moved e₁ _ w₁ refl refl))
            λ h. Upon-then (back_lem this e₁ w₁) λ e₂ w₂. present _ (moved e₂ _ w₂ refl refl)

  settle_lem : (e : CoroEnv) → Waiting x s e → Keeps (settle e)
  unfolding settle swap_coro_func coro_transfer
  settle_lem e w = go e.running
    where
      swaps : Keeps (swap_coro_func e)
      swaps = Upon-bind e.swap_ctx.«from» λ c p. Upon-bind e.swap_ctx.to λ this q.
          Upon-then (save_lem c e w)
            λ e₁ w₁. Upon-then (back_lem this e₁ w₁) λ e₂ w₂. present _ (moved e₂ _ w₂ refl refl)

      go : (o : Option Context) → Keeps (elim o [ some swap_coro ↦ swap_coro_func e | _ ↦ some e ])
      go none = present e w
      go (some (coro_ctx c)) = present e w
      go (some swap_coro) = swaps

  pub switch_lem :
      (this : ℕ) (release : Bool) (site : CallSite) (e : CoroEnv)
      → e.current ≡ some x
      → this ≢ x
      → Waiting x s e
      → Keeps (switch_to this release site e)
  unfolding switch_to resume ensure_main
  switch_lem this release site e runs other w =
      let running : ensure_main e ≡ e = same_main in
      Upon-then
        (Upon-then
          (push_lem release (ensure_main e) (ap (λ (d : CoroEnv). d.current) running ∙ runs)
            (subst (λ (d : CoroEnv). Waiting x s d) (sym running) w))
          λ e₁ w₁. Upon-then (current_lem this e₁ other w₁) λ e₂ w₂.
            Upon-then (assign_lem this site e₂ w₂) λ e₃ w₃.
              Upon-bind (find_save_coro this e.current release e₃) λ save_coro q.
                Upon-then (occupy_lem this e₃ w₃) λ e₄ w₄.
                  Upon-then (init_lem this site e₄ w₄) λ e₅ w₅.
                    Upon-then (other_lem save_coro e.current e₅ w₅)
                      λ e₆ w₆. leave_lem this e.current site e₆ w₆)
        λ e₇ w₇. settle_lem e₇ w₇
    where
      same_main : ensure_main e ≡ e
      same_main = ground (arith, runs)
