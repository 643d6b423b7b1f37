-- ===== src/Fs/Bits.antt =====
-- Bits of a bitmap block, set and cleared.
use mathlib.Core.Path.{subst}
use os_proc_lap02_system_cal.Prelude.{
  ℕ, zero, suc, ◌+◌, ◌-◌, ◌*◌, ◌/◌, ◌%◌, ◌^◌, ◌≤◌, ◌<◌, ◌≡◌, ◌≢◌, ◌⊎◌, inl, inr, refl, sym, ap, ◌∙◌,
  true, false, arith, ℕ_discrete, ◌==◌, update, update_self, update_ne,
}
use os_proc_lap02_system_cal.Fs.{bit, set_bit, clear_bit}
use native.Mathlib.Nat.{pow-succ', div-div-eq-div-mul}

-- Bit `k` of a byte
abbrev pub digit : ℕ → ℕ → ℕ
digit d k = d / 2 ^ k % 2

digit-suc : (d k : ℕ) → digit d (suc k) ≡ digit (d / 2) k
digit-suc d k =
    ap (λ p. d / p % 2) (pow-succ' 2 k) ∙ ap (λ q. q % 2) (sym (div-div-eq-div-mul d 2 (2 ^ k)))

half-add : (d p : ℕ) → (d + 2 * p) / 2 ≡ d / 2 + p
half-add d p = omega arith

half-sub : (d p : ℕ) → 2 * p ≤ d → (d - 2 * p) / 2 ≡ d / 2 - p
half-sub d p le = omega arith

-- Setting a clear bit changes that bit only.
digit-set : (d k : ℕ) → digit d k ≡ 0 → digit (d + 2 ^ k) k ≡ 1
digit-set d zero e = omega (arith, e)
digit-set d (suc k) e =
    digit-suc (d + 2 ^ suc k) k
    ∙ ap (λ p. digit ((d + p) / 2) k) (pow-succ' 2 k)
    ∙ ap (λ q. digit q k) (half-add d (2 ^ k))
    ∙ digit-set (d / 2) k (sym (digit-suc d k) ∙ e)

digit-set_ne : (d k j : ℕ) → digit d k ≡ 0 → k ≢ j → digit (d + 2 ^ k) j ≡ digit d j
digit-set_ne d zero zero e ne = absurd (ne refl)
digit-set_ne d zero (suc j) e ne =
    digit-suc (d + 1) j
    ∙ ap (λ q. digit q j) (let h : (d + 1) / 2 ≡ d / 2 = omega (arith, e) in h)
    ∙ sym (digit-suc d j)
digit-set_ne d (suc k) zero e ne =
    ap (λ p. digit (d + p) 0) (pow-succ' 2 k)
    ∙ (let h : digit (d + 2 * 2 ^ k) 0 ≡ digit d 0 = omega arith in h)
digit-set_ne d (suc k) (suc j) e ne =
    digit-suc (d + 2 ^ suc k) j
    ∙ ap (λ p. digit ((d + p) / 2) j) (pow-succ' 2 k)
    ∙ ap (λ q. digit q j) (half-add d (2 ^ k))
    ∙ digit-set_ne (d / 2) k j (sym (digit-suc d k) ∙ e) (λ z. ne (omega arith))
    ∙ sym (digit-suc d j)

-- A bit that is 1 can be taken away.
digit-le : (d k : ℕ) → digit d k ≡ 1 → 2 ^ k ≤ d
digit-le d zero e = omega (arith, e)
digit-le d (suc k) e =
    subst (λ p. p ≤ d) (sym (pow-succ' 2 k))
      (let h = digit-le (d / 2) k (sym (digit-suc d k) ∙ e) in omega arith)

digit-clear : (d k : ℕ) → digit d k ≡ 1 → digit (d - 2 ^ k) k ≡ 0
digit-clear d zero e = omega (arith, e)
digit-clear d (suc k) e =
    digit-suc (d - 2 ^ suc k) k
    ∙ ap (λ p. digit ((d - p) / 2) k) (pow-succ' 2 k)
    ∙ ap (λ q. digit q k)
        (half-sub d (2 ^ k) (subst (λ p. p ≤ d) (pow-succ' 2 k) (digit-le d (suc k) e)))
    ∙ digit-clear (d / 2) k (sym (digit-suc d k) ∙ e)

digit-clear_ne : (d k j : ℕ) → digit d k ≡ 1 → k ≢ j → digit (d - 2 ^ k) j ≡ digit d j
digit-clear_ne d zero zero e ne = absurd (ne refl)
digit-clear_ne d zero (suc j) e ne =
    digit-suc (d - 1) j
    ∙ ap (λ q. digit q j) (let h : (d - 1) / 2 ≡ d / 2 = omega (arith, e) in h)
    ∙ sym (digit-suc d j)
digit-clear_ne d (suc k) zero e ne =
    let le = subst (λ p. p ≤ d) (pow-succ' 2 k) (digit-le d (suc k) e) in
    ap (λ p. digit (d - p) 0) (pow-succ' 2 k)
    ∙ (let h : digit (d - 2 * 2 ^ k) 0 ≡ digit d 0 = omega (arith, le) in h)
digit-clear_ne d (suc k) (suc j) e ne =
    digit-suc (d - 2 ^ suc k) j
    ∙ ap (λ p. digit ((d - p) / 2) j) (pow-succ' 2 k)
    ∙ ap (λ q. digit q j)
        (half-sub d (2 ^ k) (subst (λ p. p ≤ d) (pow-succ' 2 k) (digit-le d (suc k) e)))
    ∙ digit-clear_ne (d / 2) k j (sym (digit-suc d k) ∙ e) (λ z. ne (omega arith))
    ∙ sym (digit-suc d j)

digit_cases : (d k : ℕ) → (digit d k ≡ 0) ⊎ (digit d k ≡ 1)
digit_cases d k =
    let h : d / 2 ^ k % 2 < 2 = omega arith in
    elim (ℕ_discrete (digit d k) 0) [ yes z ↦ inl z | no ne ↦ inr (omega arith) ]

bit-false : (d : ℕ → ℕ) → (b : ℕ) → bit d b ≡ false → digit (d (b / 8)) (b % 8) ≡ 0
bit-false d b e = elim (digit_cases (d (b / 8)) (b % 8)) [
  | inl z ↦ z
  | inr o ↦ absurd (ground arith)
]

bit-true : (d : ℕ → ℕ) → (b : ℕ) → bit d b ≡ true → digit (d (b / 8)) (b % 8) ≡ 1
bit-true d b e = ground arith

-- A store to one byte, seen at a bit.
bit-update :
    (d : ℕ → ℕ)
    → (a b v : ℕ)
    → (a / 8 ≢ b / 8) ⊎ ((a / 8 ≡ b / 8) × (digit v (b % 8) ≡ digit (d (b / 8)) (b % 8)))
    → bit (update d (a / 8) v) b ≡ bit d b
bit-update d a b v (inl ne) = ap (λ y. y / 2 ^ (b % 8) % 2 == 1) (update_ne d (a / 8) (b / 8) v ne)
bit-update d a b v (inr (e, same)) =
    ap (λ k. update d k v (b / 8) / 2 ^ (b % 8) % 2 == 1) e
    ∙ ap (λ y. y / 2 ^ (b % 8) % 2 == 1) (update_self d (b / 8) v)
    ∙ ap (λ y. y == 1) same

pub bit-set_self : (d : ℕ → ℕ) → (b : ℕ) → bit d b ≡ false → bit (set_bit d b) b ≡ true
bit-set_self d b e =
    ap (λ y. y / 2 ^ (b % 8) % 2 == 1) (update_self d (b / 8) (d (b / 8) + 2 ^ (b % 8)))
    ∙ ap (λ y. y == 1) (digit-set (d (b / 8)) (b % 8) (bit-false d b e))

pub bit-set_ne : (d : ℕ → ℕ) → (a b : ℕ) → bit d a ≡ false → a ≢ b → bit (set_bit d a) b ≡ bit d b
bit-set_ne d a b e ne = elim (ℕ_discrete (a / 8) (b / 8)) [
  | no far ↦ bit-update d a b (d (a / 8) + 2 ^ (a % 8)) (inl far)
  | yes same ↦ bit-update d a b (d (a / 8) + 2 ^ (a % 8)) (
      inr (
        same,
        digit-set_ne (d (a / 8)) (a % 8) (b % 8) (bit-false d a e) (λ z. ne (omega arith))
            ∙ ap (λ k. digit (d k) (b % 8)) same,
      ))
]

pub bit-clear_self : (d : ℕ → ℕ) → (b : ℕ) → bit d b ≡ true → bit (clear_bit d b) b ≡ false
bit-clear_self d b e =
    ap (λ y. y / 2 ^ (b % 8) % 2 == 1) (update_self d (b / 8) (d (b / 8) - 2 ^ (b % 8)))
    ∙ ap (λ y. y == 1) (digit-clear (d (b / 8)) (b % 8) (bit-true d b e))

pub bit-clear_ne :
    (d : ℕ → ℕ) → (a b : ℕ) → bit d a ≡ true → a ≢ b → bit (clear_bit d a) b ≡ bit d b
bit-clear_ne d a b e ne = elim (ℕ_discrete (a / 8) (b / 8)) [
  | no far ↦ bit-update d a b (d (a / 8) - 2 ^ (a % 8)) (inl far)
  | yes same ↦ bit-update d a b (d (a / 8) - 2 ^ (a % 8)) (
      inr (
        same,
        digit-clear_ne (d (a / 8)) (a % 8) (b % 8) (bit-true d a e) (λ z. ne (omega arith))
            ∙ ap (λ k. digit (d k) (b % 8)) same,
      ))
]
