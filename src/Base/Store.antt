-- ===== src/Base/Store.antt =====
-- Finite-support tables by number, and blocks of bytes in a memory.
use coroxx.Base.{
  ℕ, zero, suc, ◌+◌, ◌≤◌, ◌<◌, ◌≡◌, refl, ◌≢◌, ◌⊎◌, inl, inr, List, [], ◌∷◌, arith, ap, ◌==◌,
  if◌then◌else◌, length, ne→==, ==-refl, ◌∙◌, ap₂, sym, eq-or-ne,
}

-- `table` with `value` at `key`.
abbrev pub update {ℓ} : {A : Type ℓ} → (ℕ → A) → ℕ → A → ℕ → A
update table key value i = if i == key then value else table i

pub update_self {ℓ} : {A : Type ℓ} (t : ℕ → A) (k : ℕ) (v : A) → update t k v k ≡ v
update_self t k v = rw (==-refl k)

pub update_ne {ℓ} : {A : Type ℓ} (t : ℕ → A) (k i : ℕ) (v : A) → i ≢ k → update t k v i ≡ t i
update_ne t k i v h = rw (ne→== i k h)

-- The bytes from `a` on, as `memcpy` reads them.
unfoldable pub read_block : (ℕ → ℕ) → ℕ → ℕ → List ℕ
read_block mem a zero = []
read_block mem a (suc n) = mem a ∷ read_block mem (suc a) n

-- The memory after `memcpy` has written the bytes from `a` on.
unfoldable pub write_block : (ℕ → ℕ) → ℕ → List ℕ → ℕ → ℕ
write_block mem a [] = mem
write_block mem a (b ∷ bs) = update (write_block mem (suc a) bs) a b

-- Two memories agree on `n` bytes from `a`.
abbrev pub SameBlock : (ℕ → ℕ) → (ℕ → ℕ) → ℕ → ℕ → Type 0
SameBlock m m' a n = (x : ℕ) → a ≤ x → x < a + n → m x ≡ m' x

pub read_block-congr :
    (m m' : ℕ → ℕ) (a n : ℕ) → SameBlock m m' a n → read_block m a n ≡ read_block m' a n
unfolding read_block
read_block-congr m m' a zero h = refl
read_block-congr m m' a (suc n) h =
    ap₂ ◌∷◌ (h a (omega arith) (omega arith))
      (read_block-congr m m' (suc a) n λ x p q. h x (omega arith) (omega arith))

pub write_block_outside :
    (m : ℕ → ℕ) (a x : ℕ) (bs : List ℕ) → (x < a) ⊎ (a + length bs ≤ x) → write_block m a bs x ≡ m x
unfolding write_block
write_block_outside m a x [] h = refl
write_block_outside m a x (b ∷ bs) h =
    update_ne (write_block m (suc a) bs) a x b (omega arith)
    ∙ write_block_outside m (suc a) x bs (below h)
  where
    below : (x < a) ⊎ (a + suc (length bs) ≤ x) → (x < suc a) ⊎ (suc a + length bs ≤ x)
    below (inl p) = inl (omega arith)
    below (inr p) = inr (omega arith)

pub length-read_block : (m : ℕ → ℕ) (a n : ℕ) → length (read_block m a n) ≡ n
unfolding read_block
length-read_block m a zero = refl
length-read_block m a (suc n) = ap suc (length-read_block m (suc a) n)

-- What is written is read back.
pub read_block-write_block :
    (m : ℕ → ℕ) (a : ℕ) (bs : List ℕ) → read_block (write_block m a bs) a (length bs) ≡ bs
unfolding read_block write_block
read_block-write_block m a [] = refl
read_block-write_block m a (b ∷ bs) = ap₂ ◌∷◌ (update_self (write_block m (suc a) bs) a b) (
    read_block-congr _ (write_block m (suc a) bs) (suc a) (length bs)
      (λ x p q. update_ne (write_block m (suc a) bs) a x b (omega arith))
    ∙ read_block-write_block m (suc a) bs)

-- The entry at `i` after an update at `k` is the new one, or an old one elsewhere.
pub update_cases {ℓ} :
    {A : Type ℓ} (t : ℕ → A) (k i : ℕ) (v w : A)
    → update t k v i ≡ w
    → ((i ≡ k) × (v ≡ w)) ⊎ ((i ≢ k) × (t i ≡ w))
update_cases t k i v w h = elim (eq-or-ne i k) [
  | inl e ↦ inl (e, sym (update_self t k v) ∙ ap (update t k v) (sym e) ∙ h)
  | inr n ↦ inr (n, sym (update_ne t k i v n) ∙ h)
]
