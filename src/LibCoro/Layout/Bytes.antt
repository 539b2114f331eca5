-- ===== src/LibCoro/Layout/Bytes.antt =====
-- Which bytes of suspended coroutines a write to one stack can reach, and the copy of a coroutine's
-- bytes to its buffer.
use mathlib.Core.Path.{subst₂}
use coroxx.Base.{
  ℕ, zero, suc, ◌+◌, ◌-◌, ◌≤◌, ◌<◌, ◌≡◌, refl, ◌⊎◌, inl, inr, Option, none, some, some_injective,
  List, ◌∷◌, arith, length, take, subst, sym, ap, ◌∙◌, eq-or-ne,
}
use coroxx.Base.Store.{
  read_block, write_block, SameBlock, read_block-congr, write_block_outside, update, update_self,
  read_block-write_block,
}
use coroxx.LibCoro.Objects.{CoroStack, LibCoroCoroutine}
use coroxx.LibCoro.Layout.{Coros, Stacks, Parked, On, Laws, Kept, held}
use coroxx.LibCoro.Layout.Change.{Kept-other}

pub take-read_block :
    (mem : ℕ → ℕ) (a m n : ℕ) → m ≤ n → take m (read_block mem a n) ≡ read_block mem a m
unfolding read_block
take-read_block mem a zero n h = refl
take-read_block mem a (suc m) zero h = absurd (omega arith)
take-read_block mem a (suc m) (suc n) h =
    ap (◌∷◌ (mem a)) (take-read_block mem (suc a) m n (omega arith))

-- Memories that agree on all but the `r` uppermost bytes of a coroutine that has no buffer.
Kept-same :
    {r : ℕ} {coros : Coros} {stacks : Stacks} (mem mem' : ℕ → ℕ) {c at size : ℕ} {img : List ℕ}
    (w : Kept r coros stacks mem c at size img)
    → (w.coroutine.save_buffer ≡ none
        → SameBlock mem' mem w.parked.sp (w.coroutine.save_buffer_size - r))
    → Kept r coros stacks mem' c at size img
Kept-same {r} mem mem' {img = img} w same = record {
  number = w.number;
  coroutine = w.coroutine;
  stack = w.stack;
  on = w.on;
  shared = w.shared;
  parked = w.parked;
  place = w.place;
  extent = w.extent;
  bytes = go w.coroutine.save_buffer same w.bytes;
}
  where
    size : ℕ
    size = w.coroutine.save_buffer_size

    go :
        (b : Option (List ℕ))
        → (b ≡ none → SameBlock mem' mem w.parked.sp (size - r))
        → take (size - r) (held mem b size w.parked.sp) ≡ img
        → take (size - r) (held mem' b size w.parked.sp) ≡ img
    go (some bytes) f e = e
    go none f e =
        take-read_block mem' w.parked.sp (size - r) size (omega arith)
        ∙ read_block-congr mem' mem w.parked.sp (size - r) (f refl)
        ∙ sym (take-read_block mem w.parked.sp (size - r) size (omega arith))
        ∙ e

-- A write of `bs` at `a`, inside the stack number `s₀`.
module _ {X Y Z : ℕ → Type 0} {coros : Coros} {stacks : Stacks} {next seed : ℕ}
    (v : Laws X Y Z coros stacks next seed) (s₀ : ℕ) (st₀ : CoroStack) (live : stacks s₀ ≡ some st₀)
    (a : ℕ) (bs : List ℕ) (low : st₀.sptr ≤ a) (high : a + length bs ≤ st₀.sptr + st₀.ssze) where
  pub write_Kept :
      {r : ℕ} (mem : ℕ → ℕ) {c at size : ℕ} {img : List ℕ}
      → ((k : LibCoroCoroutine) (st : CoroStack)
          → On coros stacks c s₀ k st
          → k.save_buffer ≡ none
          → (p : Parked st k) (x : ℕ) → p.sp ≤ x
          → x < p.sp + (k.save_buffer_size - r)
          → x < a)
      → Kept r coros stacks mem c at size img
      → Kept r coros stacks (write_block mem a bs) c at size img
  write_Kept {r} mem {c} below w =
      Kept-same mem (write_block mem a bs) w
        λ bare x p q. write_block_outside mem a x bs (side bare x p q)
    where
      side :
          w.coroutine.save_buffer ≡ none
          → (x : ℕ) → w.parked.sp ≤ x
          → x < w.parked.sp + (w.coroutine.save_buffer_size - r)
          → (x < a) ⊎ (a + length bs ≤ x)
      side bare x p q = elim (eq-or-ne w.number s₀) [
        | inl e ↦ inl (
            below w.coroutine w.stack (subst (λ y. On coros stacks c y w.coroutine w.stack) e w.on)
              bare w.parked x p q)
        | inr n ↦ ground (
          arith,
          v.apart w.number s₀ w.stack st₀ n w.on.live live,
          w.parked.above,
          w.parked.exact,
        )
      ]

-- The bytes of `c₀` go to its buffer, and stay what they are.
module _ (coros : Coros) (stacks : Stacks) (c₀ : ℕ) (k₀ : LibCoroCoroutine)
    (there : coros c₀ ≡ some k₀) (sp : ℕ) (marked : k₀.stack_sp ≡ some sp)
    (bare : k₀.save_buffer ≡ none) (mem : ℕ → ℕ) where
  abbrev saved_bytes : LibCoroCoroutine
  saved_bytes = record k₀ { save_buffer = some (read_block mem sp k₀.save_buffer_size) }

  pub save_Kept :
      {r c at size : ℕ} {img : List ℕ}
      → Kept r coros stacks mem c at size img
      → Kept r (update coros c₀ (some saved_bytes)) stacks mem c at size img
  save_Kept {r} {c} {at} {size} {img} w = elim (eq-or-ne c c₀) [
    | inr n ↦ Kept-other coros stacks c₀ k₀ saved_bytes there refl n w
    | inl p ↦
        let is : w.coroutine ≡ k₀ = some_injective (sym w.on.coro ∙ ap coros p ∙ there) in
        subst (λ x. Kept r (update coros c₀ (some saved_bytes)) stacks mem x at size img) (sym p)
          (record {
            number = w.number;
            coroutine = saved_bytes;
            stack = w.stack;
            on = record {
              coro = update_self coros c₀ (some saved_bytes);
              stack = subst (λ (y : LibCoroCoroutine). y.stack ≡ some w.number) is w.on.stack;
              live = w.on.live;
            };
            shared = w.shared;
            parked = record {
              sp = w.parked.sp;
              marked =
                  subst (λ (y : LibCoroCoroutine). y.stack_sp ≡ some w.parked.sp) is
                    w.parked.marked;
              above = w.parked.above;
              exact = ground (arith, is, w.parked.exact);
            };
            place = w.place;
            extent = subst (λ (y : LibCoroCoroutine). y.save_buffer_size ≡ size) is w.extent;
            bytes = bytes is;
          })
  ]
    where
      bytes :
          w.coroutine ≡ k₀
          → take (k₀.save_buffer_size - r) (read_block mem sp k₀.save_buffer_size) ≡ img
      bytes is =
          let at_sp : w.parked.sp ≡ sp =
            some_injective (sym w.parked.marked ∙ ap (λ y. y.stack_sp) is ∙ marked) in
          subst
            (λ (x : ℕ). take (k₀.save_buffer_size - r) (read_block mem x k₀.save_buffer_size) ≡ img)
            at_sp
            (subst
              (λ b.
                take (k₀.save_buffer_size - r) (held mem b k₀.save_buffer_size w.parked.sp) ≡ img)
              bare
              (subst
                (λ (y : LibCoroCoroutine).
                  take (y.save_buffer_size - r)
                    (held mem y.save_buffer y.save_buffer_size w.parked.sp)
                  ≡ img)
                is w.bytes))

-- What is kept of a coroutine that is known.
module _ {r : ℕ} {coros : Coros} {stacks : Stacks} {mem : ℕ → ℕ} {c at size : ℕ} {img : List ℕ}
    (w : Kept r coros stacks mem c at size img) (k : LibCoroCoroutine)
    (there : coros c ≡ some k) where
  Kept_facts :
      (take (size - r) (held mem k.save_buffer size at) ≡ img)
      × (k.save_buffer_size ≡ size)
      × (k.stack_sp ≡ some at)
  Kept_facts =
      let is : w.coroutine ≡ k = some_injective (sym w.on.coro ∙ there) in
      (
        subst (λ b. take (size - r) (held mem b size at) ≡ img) (ap (λ y. y.save_buffer) is)
            (subst₂ (λ n p. take (n - r) (held mem w.coroutine.save_buffer n p) ≡ img) w.extent
              w.place w.bytes),
        ap (λ y. y.save_buffer_size) (sym is) ∙ w.extent,
        ap (λ y. y.stack_sp) (sym is) ∙ w.parked.marked ∙ ap some w.place,
      )

  pub Kept_resident : k.save_buffer ≡ none → read_block mem at (size - r) ≡ img
  Kept_resident bare =
      let (bytes, extent, place) = Kept_facts in
      sym (take-read_block mem at (size - r) size (omega arith))
      ∙ subst (λ b. take (size - r) (held mem b size at) ≡ img) bare bytes

  pub Kept_buffered :
      (bs : List ℕ) (sp : ℕ)
      → k.save_buffer ≡ some bs
      → k.stack_sp ≡ some sp
      → length bs ≡ k.save_buffer_size
      → read_block (write_block mem sp bs) at (size - r) ≡ img
  Kept_buffered bs sp full marked whole =
      let (bytes, extent, place) = Kept_facts in
      let here : sp ≡ at = some_injective (sym marked ∙ place) in
      let n : length bs ≡ size = whole ∙ extent in
      let image : read_block (write_block mem sp bs) at size ≡ bs =
        subst₂ (λ a m. read_block (write_block mem sp bs) a m ≡ bs) here n
          (read_block-write_block mem sp bs) in
      sym (take-read_block (write_block mem sp bs) at (size - r) size (omega arith))
      ∙ ap (take (size - r)) image
      ∙ subst (λ b. take (size - r) (held mem b size at) ≡ img) full bytes
