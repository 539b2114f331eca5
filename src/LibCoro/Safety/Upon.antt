-- ===== src/LibCoro/Safety/Upon.antt =====
-- A statement on the result of an operation of libcoro.cpp that may fault.
use coroxx.Base.{
  ◌≡◌, refl, Bool, true, false, Option, none, some, some_injective, if◌then◌else◌, ◌>>=◌, subst,
}
use coroxx.LibCoro.Objects.{CoroEnv}

-- `P` holds of the result if there is one.
pub data Upon {ℓ} {A : Type ℓ} (P : A → Type 0) : Option A → Type ℓ where
  absent : Upon P none
  present : (a : A) → P a → Upon P (some a)

pub Upon_at {ℓ} : {A : Type ℓ} {P : A → Type 0} {m : Option A} {a : A} → Upon P m → m ≡ some a → P a
Upon_at absent q = cc
Upon_at {P = P} (present a p) q = subst P (some_injective q) p

pub Upon-bind {ℓ κ} :
    {A : Type ℓ} {B : Type κ} {Q : B → Type 0} (m : Option A) {f : A → Option B}
    → ((a : A) → m ≡ some a → Upon Q (f a))
    → Upon Q (m >>= f)
Upon-bind none h = absent
Upon-bind (some a) h = h a refl

pub Upon-then {ℓ} :
    {A : Type ℓ} {P : A → Type 0} {Q : CoroEnv → Type 0} {m : Option A} {f : A → Option CoroEnv}
    → Upon P m
    → ((a : A) → P a → Upon Q (f a))
    → Upon Q (m >>= f)
Upon-then absent h = absent
Upon-then (present a p) h = h a p

pub Upon-if {ℓ} :
    {A : Type ℓ} {P : A → Type 0} (b : Bool) {m n : Option A}
    → (b ≡ true → Upon P m)
    → (b ≡ false → Upon P n)
    → Upon P (if b then m else n)
Upon-if true f g = f refl
Upon-if false f g = g refl

pub Upon-option {ℓ κ} :
    {A : Type ℓ} {B : Type κ} {P : A → Type 0} (o : Option B) {m : Option A} {f : B → Option A}
    → Upon P m
    → ((b : B) → o ≡ some b → Upon P (f b))
    → Upon P (elim o [ none ↦ m | some b ↦ f b ])
Upon-option none h g = h
Upon-option (some b) h g = g b refl
