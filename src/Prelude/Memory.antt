-- ===== src/Prelude/Memory.antt =====
-- Memory as a function of the address, predicates on lists, and chains of steps that may panic.
use Prim.Native.Nat.{ℕ}
use mathlib.Core.Path.{◌≡◌, refl, subst}
use mathlib.Core.Logic.{◌≢◌, ◌⊎◌, inl, inr}
use mathlib.Core.Bool.{true}
use mathlib.Core.Option.{Option, none, some, some-injective}
use mathlib.Core.List.{List, [], ◌∷◌, ◌++◌}
use native.Mathlib.Omega.{arith}
use os_proc_lap02_system_cal.Prelude.Tests.{◌==◌, if◌then◌else◌, Bool-cases}

-- A store at one address.
abbrev pub update {ℓ} : {A : Type ℓ} → (ℕ → A) → ℕ → A → ℕ → A
update m a v b = if a == b then v else m b

-- A store at another address, and at the same.
pub update_ne {ℓ} : {A : Type ℓ} (m : ℕ → A) (a b : ℕ) (v : A) → a ≢ b → update m a v b ≡ m b
update_ne m a b v h = elim (Bool-cases (a == b)) [
  | inl e ↦ absurd (h (ground arith))
  | inr e ↦ rw e
]

pub update_self {ℓ} : {A : Type ℓ} (m : ℕ → A) (a : ℕ) (v : A) → update m a v a ≡ v
update_self m a v = let e : (a == a) ≡ true = ground arith in rw e

-- `none` is a panic of the kernel: it stops the machine.
infixl 5 ◌>>=◌
abbrev pub ◌>>=◌ {ℓ κ} : {A : Type ℓ} {B : Type κ} → Option A → (A → Option B) → Option B
none >>= f = none
some a >>= f = f a

pub >>=-eq-some {ℓ κ} :
    {A : Type ℓ} {B : Type κ} (m : Option A) (f : A → Option B) {b : B}
    → (m >>= f) ≡ some b
    → (a : A) × (m ≡ some a) × (f a ≡ some b)
>>=-eq-some none f h = cc
>>=-eq-some (some a) f h = (a, refl, h)

-- What holds of the result, if there is no panic.
abbrev pub Ensures {ℓ κ} : {A : Type ℓ} → (A → Type κ) → Option A → Type κ
Ensures Q none = Unit
Ensures Q (some a) = Q a

pub Ensures-bind {ℓ κ μ} :
    {A : Type ℓ} {B : Type κ} (Q : B → Type μ) (m : Option A) (f : A → Option B)
    → ((a : A) → m ≡ some a → Ensures Q (f a))
    → Ensures Q (m >>= f)
Ensures-bind Q none f h = tt
Ensures-bind Q (some a) f h = h a refl

pub Ensures-map {ℓ κ μ} :
    {A : Type ℓ} (P : A → Type κ) (Q : A → Type μ) (m : Option A)
    → ((a : A) → P a → Q a)
    → Ensures P m
    → Ensures Q m
Ensures-map P Q none f h = tt
Ensures-map P Q (some a) f h = f a h

pub Ensures-some {ℓ κ} :
    {A : Type ℓ} (Q : A → Type κ) (m : Option A) (a : A) → Ensures Q m → m ≡ some a → Q a
Ensures-some Q none a h e = cc
Ensures-some Q (some b) a h e = subst Q (some-injective b a e) h

-- A predicate of every element.
abbrev pub All {ℓ κ} : {A : Type ℓ} → (A → Type κ) → List A → Type κ
All P [] = Unit
All P (x ∷ xs) = P x × All P xs

-- A number is in a list, or not.
abbrev pub In : ℕ → List ℕ → Type 0
In a [] = ⊥
In a (x ∷ xs) = (a ≡ x) ⊎ In a xs

abbrev pub NotIn : ℕ → List ℕ → Type 0
NotIn a xs = All (λ x. a ≢ x) xs

abbrev pub Distinct : List ℕ → Type 0
Distinct [] = Unit {0}
Distinct (x ∷ xs) = NotIn x xs × Distinct xs

pub All-map {ℓ κ μ} :
    {A : Type ℓ} {P : A → Type κ} {Q : A → Type μ} (xs : List A)
    → ((x : A) → P x → Q x)
    → All P xs
    → All Q xs
All-map [] f h = tt
All-map (x ∷ xs) f h = (f x h.0, All-map xs f h.1)

pub All-append {ℓ κ} :
    {A : Type ℓ} (P : A → Type κ) (xs ys : List A) → All P xs → All P ys → All P (xs ++ ys)
All-append P [] ys h k = k
All-append P (x ∷ xs) ys h k = (h.0, All-append P xs ys h.1 k)
