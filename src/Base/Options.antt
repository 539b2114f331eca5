-- ===== src/Base/Options.antt =====
-- Optional values: a null pointer or a missing entry, and the fault of following one.
use Prim.Native.Nat.{ℕ}
use mathlib.Core.Path.{◌≡◌, refl, sym, subst}
use mathlib.Core.Logic.{◌⊎◌, inl, inr}
use mathlib.Core.Bool.{Bool, true, false}
use mathlib.Core.Option.{Option, none, some}
use native.Mathlib.Omega.{arith}
use coroxx.Base.Tests.{◌==◌}

infixl 5 ◌>>=◌
abbrev pub ◌>>=◌ {ℓ κ} : {A : Type ℓ} {B : Type κ} → Option A → (A → Option B) → Option B
none >>= f = none
some a >>= f = f a

-- Pointer equality, null pointers included.
abbrev pub same_pointer : Option ℕ → Option ℕ → Bool
same_pointer none none = true
same_pointer none (some b) = false
same_pointer (some a) none = false
same_pointer (some a) (some b) = a == b

pub Option-cases {ℓ} : {A : Type ℓ} (o : Option A) → (o ≡ none) ⊎ ((a : A) × (o ≡ some a))
Option-cases none = inl refl
Option-cases (some a) = inr (a, refl)

pub same_pointer→eq : (p q : Option ℕ) → same_pointer p q ≡ true → p ≡ q
same_pointer→eq none none h = refl
same_pointer→eq none (some b) h = cc
same_pointer→eq (some a) none h = cc
same_pointer→eq (some a) (some b) h = ground arith

pub same_pointer_refl : (p : Option ℕ) → same_pointer p p ≡ true
same_pointer_refl none = refl
same_pointer_refl (some a) = ground arith

-- Inversion of a bind that succeeds.
pub >>=-eq-some {ℓ κ} :
    {A : Type ℓ} {B : Type κ} (m : Option A) (f : A → Option B) {b : B}
    → (m >>= f) ≡ some b
    → (a : A) × (m ≡ some a) × (f a ≡ some b)
>>=-eq-some none f h = cc
>>=-eq-some (some a) f h = (a, refl, h)

pub some_injective {ℓ} : {A : Type ℓ} {a b : A} → some a ≡ some b → a ≡ b
some_injective h = cc

-- The computation succeeds, with a result that has the property.
pub data Ensures {ℓ κ} {A : Type ℓ} (P : A → Type κ) : Option A → Type (ℓ ⊔ κ) where
  result : (a : A) → P a → Ensures P (some a)

pub Ensures_bind {ℓ κ μ ν} :
    {A : Type ℓ} {B : Type κ} {P : A → Type μ} {Q : B → Type ν} {m : Option A} {f : A → Option B}
    → Ensures P m
    → ((a : A) → P a → Ensures Q (f a))
    → Ensures Q (m >>= f)
Ensures_bind (result a p) f = f a p

pub Ensures_value {ℓ μ} :
    {A : Type ℓ} {P : A → Type μ} {m : Option A} → Ensures P m → (a : A) × (m ≡ some a) × P a
Ensures_value (result a p) = (a, refl, p)

pub Ensures_at {ℓ μ} :
    {A : Type ℓ} {P : A → Type μ} {m : Option A} {b : A} → Ensures P m → m ≡ some b → P b
Ensures_at {P = P} (result a p) q = subst P (some_injective q) p

pub Ensures_both {ℓ μ ν} :
    {A : Type ℓ} {P : A → Type μ} {Q : A → Type ν} {m : Option A}
    → Ensures P m
    → Ensures Q m
    → Ensures (λ a. P a × Q a) m
Ensures_both {Q = Q} (result a p) q =
    let (b, same, holds) = Ensures_value q in
    result a (p, subst Q (sym (some_injective same)) holds)

pub Ensures_mono {ℓ μ ν} :
    {A : Type ℓ} {P : A → Type μ} {Q : A → Type ν} {m : Option A}
    → Ensures P m
    → ((a : A) → P a → Q a)
    → Ensures Q m
Ensures_mono (result a p) f = result a (f a p)
