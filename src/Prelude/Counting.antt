-- ===== src/Prelude/Counting.antt =====
-- Distinct numbers below a bound are at most that many.
use os_proc_lap02_system_cal.Prelude.Tests.{◌==◌, if◌then◌else◌, Bool-cases}
use os_proc_lap02_system_cal.Prelude.Lists.{length}
use os_proc_lap02_system_cal.Prelude.Memory.{All, All-map, NotIn, Distinct}
use Prim.Native.Nat.{ℕ, zero, suc, ◌+◌, ◌≤◌, ◌<◌}
use mathlib.Core.Path.{◌≡◌, refl}
use mathlib.Core.Logic.{inl, inr}
use mathlib.Core.List.{List, [], ◌∷◌}
use native.Mathlib.Omega.{arith}

remove : ℕ → List ℕ → List ℕ
remove a [] = []
remove a (x ∷ xs) = if a == x then remove a xs else x ∷ remove a xs

remove_of_NotIn : (a : ℕ) (xs : List ℕ) → NotIn a xs → length (remove a xs) ≡ length xs
unfolding remove
remove_of_NotIn a [] h = refl
remove_of_NotIn a (x ∷ xs) h = ground (arith, remove_of_NotIn a xs h.1)

length-remove : (a : ℕ) (xs : List ℕ) → Distinct xs → length xs ≤ length (remove a xs) + 1
unfolding remove
length-remove a [] d = omega arith
length-remove a (x ∷ xs) d = elim (Bool-cases (a == x)) [
  | inl e ↦ ground (arith, remove_of_NotIn a xs (All-map xs (λ y n. ground arith) d.0))
  | inr e ↦ rw e (omega (arith, length-remove a xs d.1))
]

All-remove {κ} : (P : ℕ → Type κ) (a : ℕ) (xs : List ℕ) → All P xs → All P (remove a xs)
unfolding remove
All-remove P a [] h = tt
All-remove P a (x ∷ xs) h = elim (Bool-cases (a == x)) [
  | inl e ↦ rw e (All-remove P a xs h.1)
  | inr e ↦ rw e (h.0, All-remove P a xs h.1)
]

remove-below : (n : ℕ) (xs : List ℕ) → All (λ x. x < suc n) xs → All (λ x. x < n) (remove n xs)
unfolding remove
remove-below n [] h = tt
remove-below n (x ∷ xs) h = elim (Bool-cases (n == x)) [
  | inl e ↦ rw e (remove-below n xs h.1)
  | inr e ↦ rw e (ground arith, remove-below n xs h.1)
]

Distinct-remove : (a : ℕ) (xs : List ℕ) → Distinct xs → Distinct (remove a xs)
unfolding remove
Distinct-remove a [] d = tt
Distinct-remove a (x ∷ xs) d = elim (Bool-cases (a == x)) [
  | inl e ↦ rw e (Distinct-remove a xs d.1)
  | inr e ↦ rw e (All-remove _ a xs d.0, Distinct-remove a xs d.1)
]

pub length-le_of_Distinct :
    (n : ℕ) (xs : List ℕ) → All (λ x. x < n) xs → Distinct xs → length xs ≤ n
length-le_of_Distinct zero [] h d = omega arith
length-le_of_Distinct zero (x ∷ xs) h d = absurd (omega arith)
length-le_of_Distinct (suc n) xs h d = omega (
  arith,
  length-remove n xs d,
  length-le_of_Distinct n (remove n xs) (remove-below n xs h) (Distinct-remove n xs d),
)
