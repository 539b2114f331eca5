-- ===== src/Scheduler/TimeQueue/Load.antt =====
-- The amount of work in `coro_time_queue` (scheduler.cpp), and what the removal of a deadline leaves.
use coroxx.Base.{
  ℕ, suc, ◌+◌, ◌≡◌, refl, inl, inr, true, false, some, some_injective, List, [], ◌∷◌, ◌++◌, arith,
  Bool-cases, sym, ◌∙◌, ap, subst,
}
use coroxx.Base.Int.{ℤ, eqz, eqz→eq}
use coroxx.Scheduler.TimeQueue.{TimeTable, bucket, erase_at}
use coroxx.Scheduler.TimeQueue.Order.{Above, Sorted, bucket_here, bucket_there}

pub erase_here :
    (ts j : ℤ) (q : List ℕ) (m : TimeTable) → eqz ts j ≡ true → erase_at ts ((j, q) ∷ m) ≡ m
unfolding erase_at
erase_here ts j q m p = ground arith

pub erase_there :
    (ts j : ℤ) (q : List ℕ) (m : TimeTable)
    → eqz ts j ≡ false
    → erase_at ts ((j, q) ∷ m) ≡ (j, q) ∷ erase_at ts m
unfolding erase_at
erase_there ts j q m p = ground arith

Above-erase_at : (k ts : ℤ) (m : TimeTable) → Above k m → Above k (erase_at ts m)
unfolding erase_at
Above-erase_at k ts [] h = tt
Above-erase_at k ts ((j, q) ∷ m) h = elim (Bool-cases (eqz ts j)) [
  | inl p ↦ subst (Above k) (sym (erase_here ts j q m p)) h.1
  | inr p ↦ subst (Above k) (sym (erase_there ts j q m p)) (h.0, Above-erase_at k ts m h.1)
]

pub erase_at-Sorted : (ts : ℤ) (m : TimeTable) → Sorted m → Sorted (erase_at ts m)
unfolding erase_at
erase_at-Sorted ts [] h = tt
erase_at-Sorted ts ((j, q) ∷ m) h = elim (Bool-cases (eqz ts j)) [
  | inl p ↦ subst Sorted (sym (erase_here ts j q m p)) h.1
  | inr p ↦
      subst Sorted (sym (erase_there ts j q m p))
        (Above-erase_at j ts m h.0, erase_at-Sorted ts m h.1)
]

-- The removal leaves the queues of other deadlines.
pub bucket-erase_at :
    (x ts : ℤ) (m : TimeTable) → eqz x ts ≡ false → bucket x (erase_at ts m) ≡ bucket x m
unfolding erase_at
bucket-erase_at x ts [] n = refl
bucket-erase_at x ts ((j, q) ∷ m) n = elim (Bool-cases (eqz ts j)) [
  | inl p ↦
      ap (bucket x) (erase_here ts j q m p)
      ∙ sym (bucket_there x 0 j q m (subst (λ y. eqz x y ≡ false) (eqz→eq ts j p) n))
  | inr p ↦ ap (bucket x) (erase_there ts j q m p) ∙ elim (Bool-cases (eqz x j)) [
    | inl h ↦ bucket_here x 0 j q (erase_at ts m) h ∙ sym (bucket_here x 0 j q m h)
    | inr h ↦
        bucket_there x 0 j q (erase_at ts m) h
        ∙ bucket-erase_at x ts m n
        ∙ sym (bucket_there x 0 j q m h)
  ]
]

module _ (weight : ℕ → ℕ) where
  abbrev pub weights : List ℕ → ℕ
  weights [] = 0
  weights (a ∷ q) = weight a + weights q

  -- A deadline counts as one step, and its tasks by their weights.
  abbrev pub load : TimeTable → ℕ
  load [] = 0
  load ((ts, q) ∷ m) = suc (weights q + load m)

  pub weights-append : (p q : List ℕ) → weights (p ++ q) ≡ weights p + weights q
  weights-append [] q = omega arith
  weights-append (a ∷ p) q = omega (arith, weights-append p q)

  pub load-erase_at :
      (ts : ℤ) (q : List ℕ) (m : TimeTable)
      → bucket ts m ≡ some q
      → load m ≡ suc (weights q + load (erase_at ts m))
  unfolding erase_at bucket
  load-erase_at ts q [] h = cc
  load-erase_at ts q ((j, p) ∷ m) h = elim (Bool-cases (eqz ts j)) [
    | inl e ↦
        let same : p ≡ q = some_injective (sym (bucket_here ts 0 j p m e) ∙ h) in
        omega (arith, ap weights same, ap load (erase_here ts j p m e))
    | inr e ↦ omega (
      arith,
      load-erase_at ts q m (sym (bucket_there ts 0 j p m e) ∙ h),
      ap load (erase_there ts j p m e),
    )
  ]
