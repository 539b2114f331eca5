-- ===== src/Scheduler/TimeQueue/Order.antt =====
-- The order of `coro_time_queue` (scheduler.cpp): the smallest deadline is first, and the tasks of a
-- deadline stand in the order in which they came.
use coroxx.Base.{
  ℕ, ◌≡◌, refl, inl, inr, true, false, Option, none, some, List, [], ◌∷◌, ◌++◌, arith, Bool-cases,
  sym, ◌∙◌, ap, subst,
}
use coroxx.Base.Int.{ℤ, ltz, eqz, ◌<ℤ◌, eqz→eq, eqz_refl}
use coroxx.Scheduler.TimeQueue.{TimeTable, add_at, bucket}

-- Every deadline of the table is after `ts`.
abbrev pub Above : ℤ → TimeTable → Type 0
Above ts [] = Unit
Above ts ((k, q) ∷ m) = (ts <ℤ k) × Above ts m

abbrev pub Sorted : TimeTable → Type 0
Sorted [] = Unit
Sorted ((k, q) ∷ m) = Above k m × Sorted m

pub ltz→lt : (a b : ℤ) → ltz a b ≡ true → a <ℤ b
ltz→lt a b h = ground arith

between : (a b : ℤ) → eqz a b ≡ false → ltz a b ≡ false → b <ℤ a
between a b h k = ground arith

<ℤ-trans : (a b c : ℤ) → a <ℤ b → b <ℤ c → a <ℤ c
<ℤ-trans a b c h k = omega arith

pub Above-after : (a b : ℤ) (m : TimeTable) → a <ℤ b → Above b m → Above a m
Above-after a b [] h w = tt
Above-after a b ((k, q) ∷ m) h w = (<ℤ-trans a b k h w.0, Above-after a b m h w.1)

Above-add_at : (k ts : ℤ) (a : ℕ) (m : TimeTable) → k <ℤ ts → Above k m → Above k (add_at ts a m)
unfolding add_at
Above-add_at k ts a [] h w = (h, tt)
Above-add_at k ts a ((j, q) ∷ m) h (first, rest) = elim (Bool-cases (eqz ts j)) [
  | inl p ↦ ground (arith, first, rest)
  | inr p ↦ elim (Bool-cases (ltz ts j)) [
    | inl l ↦ ground (arith, first, rest)
    | inr l ↦ ground (arith, first, Above-add_at k ts a m h rest)
  ]
]

-- The three cases of `add_at`.
module _ (ts : ℤ) (a : ℕ) (j : ℤ) (q : List ℕ) (m : TimeTable) where
  pub add_same : eqz ts j ≡ true → add_at ts a ((j, q) ∷ m) ≡ (j, q ++ a ∷ []) ∷ m
  unfolding add_at
  add_same p = ground arith

  pub add_before :
      eqz ts j ≡ false → ltz ts j ≡ true → add_at ts a ((j, q) ∷ m) ≡ (ts, a ∷ []) ∷ (j, q) ∷ m
  unfolding add_at
  add_before p l = ground arith

  pub add_after :
      eqz ts j ≡ false → ltz ts j ≡ false → add_at ts a ((j, q) ∷ m) ≡ (j, q) ∷ add_at ts a m
  unfolding add_at
  add_after p l = ground arith

  pub bucket_here : eqz ts j ≡ true → bucket ts ((j, q) ∷ m) ≡ some q
  unfolding bucket
  bucket_here p = ground arith

  pub bucket_there : eqz ts j ≡ false → bucket ts ((j, q) ∷ m) ≡ bucket ts m
  unfolding bucket
  bucket_there p = ground arith

pub add_at-Sorted : (ts : ℤ) (a : ℕ) (m : TimeTable) → Sorted m → Sorted (add_at ts a m)
unfolding add_at
add_at-Sorted ts a [] s = (tt, tt)
add_at-Sorted ts a ((j, q) ∷ m) (first, rest) = elim (Bool-cases (eqz ts j)) [
  | inl p ↦ subst Sorted (sym (add_same ts a j q m p)) (first, rest)
  | inr p ↦ elim (Bool-cases (ltz ts j)) [
    | inl l ↦
        let before = ltz→lt ts j l in
        subst Sorted (sym (add_before ts a j q m p l))
          ((before, Above-after ts j m before first), (first, rest))
    | inr l ↦
        subst Sorted (sym (add_after ts a j q m p l))
          (Above-add_at j ts a m (between ts j p l) first, add_at-Sorted ts a m rest)
  ]
]

pub eqz_less : (a b : ℤ) → a <ℤ b → eqz a b ≡ false
eqz_less a b h = ground arith

pub bucket-Above : (ts : ℤ) (m : TimeTable) → Above ts m → bucket ts m ≡ none
unfolding bucket
bucket-Above ts [] h = refl
bucket-Above ts ((k, q) ∷ m) h = bucket_there ts 0 k q m (eqz_less ts k h.0) ∙ bucket-Above ts m h.1

-- The tasks of a deadline.
abbrev pub queue_of : Option (List ℕ) → List ℕ
queue_of none = []
queue_of (some q) = q

pub bucket-add_at :
    (ts : ℤ) (a : ℕ) (m : TimeTable)
    → Sorted m
    → bucket ts (add_at ts a m) ≡ some (queue_of (bucket ts m) ++ a ∷ [])
unfolding add_at bucket
bucket-add_at ts a [] s = bucket_here ts 0 ts (a ∷ []) [] (eqz_refl ts)
bucket-add_at ts a ((j, q) ∷ m) (first, rest) = elim (Bool-cases (eqz ts j)) [
  | inl p ↦
      ap (bucket ts) (add_same ts a j q m p)
      ∙ bucket_here ts a j (q ++ a ∷ []) m p
      ∙ ap (λ o. some (queue_of o ++ a ∷ [])) (sym (bucket_here ts a j q m p))
  | inr p ↦ elim (Bool-cases (ltz ts j)) [
    | inl l ↦
        let before = ltz→lt ts j l in
        ap (bucket ts) (add_before ts a j q m p l)
        ∙ bucket_here ts a ts (a ∷ []) ((j, q) ∷ m) (eqz_refl ts)
        ∙ ap (λ o. some (queue_of o ++ a ∷ []))
            (sym (bucket-Above ts ((j, q) ∷ m) (before, Above-after ts j m before first)))
    | inr l ↦
        ap (bucket ts) (add_after ts a j q m p l)
        ∙ bucket_there ts a j q (add_at ts a m) p
        ∙ bucket-add_at ts a m rest
        ∙ ap (λ o. some (queue_of o ++ a ∷ [])) (sym (bucket_there ts a j q m p))
  ]
]

pub bucket_other :
    (ts other : ℤ) (a : ℕ) (m : TimeTable)
    → eqz other ts ≡ false
    → bucket other (add_at ts a m) ≡ bucket other m
unfolding add_at bucket
bucket_other ts other a [] n = bucket_there other a ts (a ∷ []) [] n
bucket_other ts other a ((j, q) ∷ m) n = elim (Bool-cases (eqz ts j)) [
  | inl p ↦
      let off : eqz other j ≡ false = subst (λ x. eqz other x ≡ false) (eqz→eq ts j p) n in
      ap (bucket other) (add_same ts a j q m p)
      ∙ bucket_there other a j (q ++ a ∷ []) m off
      ∙ sym (bucket_there other a j q m off)
  | inr p ↦ elim (Bool-cases (ltz ts j)) [
    | inl l ↦
        ap (bucket other) (add_before ts a j q m p l)
        ∙ bucket_there other a ts (a ∷ []) ((j, q) ∷ m) n
    | inr l ↦ ap (bucket other) (add_after ts a j q m p l) ∙ elim (Bool-cases (eqz other j)) [
      | inl h ↦ bucket_here other a j q (add_at ts a m) h ∙ sym (bucket_here other a j q m h)
      | inr h ↦
          bucket_there other a j q (add_at ts a m) h
          ∙ bucket_other ts other a m n
          ∙ sym (bucket_there other a j q m h)
    ]
  ]
]

-- A new task leaves the sorted table sorted by deadlines and comes last in the queue of its
-- deadline; the queues of all other deadlines are as before.
pub add_at_lem :
    (ts other : ℤ) (a : ℕ) (m : TimeTable)
    → Sorted m
    → eqz other ts ≡ false
    → Sorted (add_at ts a m)
      × (bucket ts (add_at ts a m) ≡ some (queue_of (bucket ts m) ++ a ∷ []))
      × (bucket other (add_at ts a m) ≡ bucket other m)
add_at_lem ts other a m s n =
    (add_at-Sorted ts a m s, bucket-add_at ts a m s, bucket_other ts other a m n)
