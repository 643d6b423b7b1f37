-- ===== src/Numbers/Decimal.antt =====
-- Decimal numbers: how long they are, and that atoi reads what printint writes.
use mathlib.Core.Path.{subst}
use os_proc_lap02_system_cal.Prelude.{
  ℕ, zero, suc, ◌+◌, ◌-◌, ◌*◌, ◌/◌, ◌%◌, ◌^◌, ◌≤◌, ◌<◌, ◌≡◌, ◌↔◌, refl, sym, ap, ◌∙◌, true, false,
  none, some, List, [], ◌∷◌, ◌++◌, arith, dec_lt, ltb, leb, ◌==◌, length, All, All-append,
}
use native.Mathlib.Nat.{pow-succ'}
use os_proc_lap02_system_cal.Numbers.{
  zero_char, digit_char, number, backwards, from_buf, printint, kernel_printint, user_printint,
  is_digit, atoi_from, atoi,
}

number-last : (fuel ten x : ℕ) → x < 10 → number (suc fuel) ten 10 x ≡ digit_char ten x ∷ []
unfolding number
number-last fuel ten x lt =
    let z : (x / 10 == 0) ≡ true = ground arith in
    let m : x % 10 ≡ x = omega arith in rw (z, m) refl

number-more :
    (fuel ten x : ℕ)
    → 10 ≤ x
    → number (suc fuel) ten 10 x ≡ digit_char ten (x % 10) ∷ number fuel ten 10 (x / 10)
unfolding number
number-more fuel ten x le = let z : (x / 10 == 0) ≡ false = ground arith in rw z refl

-- A number below 10 ^ (k + 1) has at most k + 1 digits, and one from 10 ^ k on has at least k + 1.
length-number_le : (fuel ten k x : ℕ) → x < 10 ^ suc k → length (number fuel ten 10 x) ≤ suc k
unfolding number
length-number_le zero ten k x lt = omega arith
length-number_le (suc fuel) ten zero x lt =
    subst (λ bs. length bs ≤ 1) (sym (number-last fuel ten x lt)) (omega arith)
length-number_le (suc fuel) ten (suc k) x lt = elim (dec_lt x 10) [
  | yes small ↦
      subst (λ bs. length bs ≤ suc (suc k)) (sym (number-last fuel ten x small)) (omega arith)
  | no big ↦
      let bound : x < 10 * 10 ^ suc k = subst (λ p. x < p) (pow-succ' 10 (suc k)) lt in
      subst (λ bs. length bs ≤ suc (suc k)) (sym (number-more fuel ten x (omega arith)))
        (let ih = length-number_le fuel ten k (x / 10) (omega arith) in omega arith)
]

length-number_ge :
    (fuel ten k x : ℕ) → 10 ^ k ≤ x → k < fuel → suc k ≤ length (number fuel ten 10 x)
unfolding number
length-number_ge zero ten k x le lt = absurd (omega arith)
length-number_ge (suc fuel) ten zero x le lt = omega arith
length-number_ge (suc fuel) ten (suc k) x le lt =
    let bound : 10 * 10 ^ k ≤ x = subst (λ p. p ≤ x) (pow-succ' 10 k) le in
    elim (dec_lt x 10) [
      | yes small ↦ let one : 1 ≤ 10 ^ k = pow_pos k in absurd (omega arith)
      | no big ↦
          subst (λ bs. suc (suc k) ≤ length bs) (sym (number-more fuel ten x (omega arith)))
            (let ih = length-number_ge fuel ten k (x / 10) (omega arith) (omega arith) in
              omega arith)
    ]
  where
    pow_pos : (k : ℕ) → 1 ≤ 10 ^ k
    pow_pos zero = omega arith
    pow_pos (suc k) = subst (λ p. 1 ≤ p) (sym (pow-succ' 10 k)) (let ih = pow_pos k in omega arith)

from_buf-none : (bs : List ℕ) → (from_buf bs ≡ none) ↔ (16 < length bs)
from_buf-none bs = elim (dec_lt 16 (length bs)) [
  | yes long ↦ let z : leb (length bs) 16 ≡ false = ground arith in (λ _. long, λ _. rw z refl)
  | no short ↦
      let z : leb (length bs) 16 ≡ true = ground arith in
      (
        λ e. let f : from_buf bs ≡ some (backwards bs) = rw z refl in cc (e, f),
        λ lt. absurd (short lt),
      )
]

-- In the kernel, printing a 64-bit word as an unsigned decimal number runs over the array of 16 bytes
-- exactly where the number has more than 16 digits.
pub kernel_printint-overflow : (xx : ℕ) → (kernel_printint xx 10 false ≡ none) ↔ (10 ^ 16 ≤ xx)
unfolding kernel_printint printint
kernel_printint-overflow xx =
    let (there, back) = from_buf-none (number 64 97 10 xx) in
    (
      λ e. elim (dec_lt xx (10 ^ 16)) [
        | yes lt ↦ let h = length-number_le 64 97 15 xx lt in absurd (omega (arith, there e))
        | no ge ↦ omega arith
      ],
      λ ge. back (let h = length-number_ge 64 97 16 xx ge (omega arith) in omega arith),
    )

from_buf-some : (bs : List ℕ) → length bs ≤ 16 → from_buf bs ≡ some (backwards bs)
from_buf-some bs le = let z : leb (length bs) 16 ≡ true = ground arith in rw z refl

-- In user programs, printing any argument as a decimal number stays within the array.
user_printint-some :
    (xx : ℕ) → user_printint xx 10 false ≡ some (backwards (number 64 65 10 (xx % 2 ^ 32)))
unfolding user_printint printint
user_printint-some xx =
    let h = length-number_le 64 65 9 (xx % 2 ^ 32) (omega arith) in
    from_buf-some (number 64 65 10 (xx % 2 ^ 32)) (omega (arith, h))

Digits : List ℕ → Type 0
Digits bs = All (λ c. is_digit c ≡ true) bs

atoi_from-append :
    (n : ℕ) → (s t : List ℕ) → Digits s → atoi_from n (s ++ t) ≡ atoi_from (atoi_from n s) t
unfolding atoi_from Digits
atoi_from-append n [] t h = refl
atoi_from-append n (c ∷ s) t h =
    rw h.0 (atoi_from-append ((n * 10 + c + 2 ^ 32 - zero_char) % 2 ^ 32) s t h.1)

atoi_from-digit :
    (n d : ℕ) → d < 10 → n * 10 + d < 2 ^ 32 → atoi_from n ((zero_char + d) ∷ []) ≡ n * 10 + d
unfolding atoi_from
atoi_from-digit n d lt small =
    let z : is_digit (zero_char + d) ≡ true = ground arith in rw z (omega arith)

digit_char-small : (ten d : ℕ) → d < 10 → digit_char ten d ≡ zero_char + d
digit_char-small ten d lt = let z : ltb d 10 ≡ true = ground arith in rw z refl

digit_char-is_digit : (ten d : ℕ) → d < 10 → is_digit (digit_char ten d) ≡ true
digit_char-is_digit ten d lt =
    ap is_digit (digit_char-small ten d lt)
    ∙ (let z : is_digit (zero_char + d) ≡ true = ground arith in z)

number-Digits : (fuel ten x : ℕ) → Digits (backwards (number fuel ten 10 x))
unfolding number Digits
number-Digits zero ten x = tt
number-Digits (suc fuel) ten x = elim (dec_lt x 10) [
  | yes small ↦
      subst (λ bs. Digits (backwards bs)) (sym (number-last fuel ten x small))
        (digit_char-is_digit ten x small, tt)
  | no big ↦
      subst (λ bs. Digits (backwards bs)) (sym (number-more fuel ten x (omega arith)))
        (All-append (λ c. is_digit c ≡ true) (backwards (number fuel ten 10 (x / 10)))
          (digit_char ten (x % 10) ∷ []) (number-Digits fuel ten (x / 10))
          (digit_char-is_digit ten (x % 10) (omega arith), tt))
]

atoi_from-one : (fuel ten x : ℕ) → x < 10 → atoi_from 0 (backwards (number (suc fuel) ten 10 x)) ≡ x
atoi_from-one fuel ten x one =
    ap (λ bs. atoi_from 0 (backwards bs)) (number-last fuel ten x one)
    ∙ ap (λ c. atoi_from 0 (c ∷ [])) (digit_char-small ten x one)
    ∙ atoi_from-digit 0 x one (omega arith)
    ∙ omega arith

atoi_from-number :
    (fuel ten k x : ℕ)
    → x < 10 ^ suc k
    → k < fuel
    → x < 2 ^ 32
    → atoi_from 0 (backwards (number fuel ten 10 x)) ≡ x
unfolding number
atoi_from-number zero ten k x lt f small = absurd (omega arith)
atoi_from-number (suc fuel) ten zero x lt f small = atoi_from-one fuel ten x (omega arith)
atoi_from-number (suc fuel) ten (suc k) x lt f small = elim (dec_lt x 10) [
  | yes one ↦ atoi_from-one fuel ten x one
  | no big ↦
      let bound : x < 10 * 10 ^ suc k = subst (λ p. x < p) (pow-succ' 10 (suc k)) lt in
      let ih = atoi_from-number fuel ten k (x / 10) (omega arith) (omega arith) (omega arith) in
      ap (λ bs. atoi_from 0 (backwards bs)) (number-more fuel ten x (omega arith))
      ∙ atoi_from-append 0 (backwards (number fuel ten 10 (x / 10))) (digit_char ten (x % 10) ∷ [])
          (number-Digits fuel ten (x / 10))
      ∙ ap (λ n. atoi_from n (digit_char ten (x % 10) ∷ [])) ih
      ∙ ap (λ c. atoi_from (x / 10) (c ∷ [])) (digit_char-small ten (x % 10) (omega arith))
      ∙ atoi_from-digit (x / 10) (x % 10) (omega arith) (omega arith)
      ∙ omega arith
]

-- Whatever word a user program prints as an unsigned decimal number, it prints something, and atoi reads
-- back the word's low 32 bits: the word itself where it is below 2^32.
pub atoi-user_printint :
    (xx : ℕ) → (s : List ℕ) × (user_printint xx 10 false ≡ some s) × (atoi s ≡ xx % 2 ^ 32)
unfolding atoi
atoi-user_printint xx = (
  backwards (number 64 65 10 (xx % 2 ^ 32)),
  user_printint-some xx,
  atoi_from-number 64 65 9 (xx % 2 ^ 32) (omega arith) (omega arith) (omega arith),
)
