-- ===== src/Numbers.antt =====
-- kernel/printf.c, user/printf.c and user/ulib.c: numbers as text. An array that overflows is `none`.
mod Decimal
mod Examples
use mathlib.Core.Path.{subst}
use os_proc_lap02_system_cal.Prelude.{
  ℕ, zero, suc, ◌+◌, ◌-◌, ◌*◌, ◌/◌, ◌%◌, ◌^◌, ◌≤◌, ◌<◌, ◌≡◌, ◌≢◌, ◌↔◌, ◌⊎◌, inl, inr, refl, sym, ap,
  ◌∙◌, fun_ext, Bool, true, false, not, ◌&&◌, ◌||◌, Option, none, some, List, [], ◌∷◌, ◌++◌, map,
  append-nil, append_assoc, arith, dec_lt, ℕ_discrete, ltb, leb, ◌==◌, if◌then◌else◌, Bool-cases,
  Option-cases, length, get_elem?, set, get_or, take, drop, replicate, length-append, length-set,
  get_elem?-set_self, get_elem?-set_ne, update, update_self, update_ne, Ensures, Ensures-bind,
  Ensures-map, Ensures-some, ◌>>=◌, >>=-eq-some, All, In, NotIn, Distinct, All-map, All-append,
}

-- The characters `0` and `-`
abbrev pub zero_char : ℕ
zero_char = 48

abbrev pub minus_char : ℕ
minus_char = 45

-- `digits`; `ten` is the character of the digit ten, `a` in the kernel and `A` in user programs.
abbrev pub digit_char : ℕ → ℕ → ℕ
digit_char ten d = if ltb d 10 then zero_char + d else ten + (d - 10)

-- The do-while loop of `printint`: what goes into `buf`, the last digit first. Each round divides `x`, so
-- 64 rounds do for a 64-bit number and a base of two or more.
unfoldable pub number : ℕ → ℕ → ℕ → ℕ → List ℕ
number zero ten base x = []
number (suc fuel) ten base x =
    let rest = number fuel ten base (x / base) in
    digit_char ten (x % base) ∷ (if x / base == 0 then [] else rest)

abbrev pub backwards : List ℕ → List ℕ
backwards [] = []
backwards (x ∷ xs) = backwards xs ++ x ∷ []

-- What is written from an array of 16 bytes.
abbrev pub from_buf : List ℕ → Option (List ℕ)
from_buf bs = if leb (length bs) 16 then some (backwards bs) else none

-- `printint` of a word of `w` bits, where `sign` asks for a signed number.
unfoldable pub printint : ℕ → ℕ → ℕ → ℕ → Bool → Option (List ℕ)
unfolding number
printint w ten xx base sign =
    if sign && leb (2 ^ (w - 1)) xx
    then from_buf (number 64 ten base (2 ^ w - xx) ++ minus_char ∷ [])
    else from_buf (number 64 ten base xx)

-- The kernel's `printint` takes a `long long`, that of user programs an `int`, to which a wider argument is cut.
unfoldable pub kernel_printint : ℕ → ℕ → Bool → Option (List ℕ)
unfolding printint
kernel_printint xx base sign = printint 64 97 xx base sign

unfoldable pub user_printint : ℕ → ℕ → Bool → Option (List ℕ)
unfolding printint
user_printint xx base sign = printint 32 65 (xx % 2 ^ 32) base sign

abbrev pub is_digit : ℕ → Bool
is_digit c = leb zero_char c && leb c (zero_char + 9)

-- The loop of `atoi`, on 32-bit words.
unfoldable pub atoi_from : ℕ → List ℕ → ℕ
atoi_from n [] = n
atoi_from n (c ∷ s) =
    let next = atoi_from ((n * 10 + c + 2 ^ 32 - zero_char) % 2 ^ 32) s in
    if is_digit c then next else n

unfoldable pub atoi : List ℕ → ℕ
unfolding atoi_from
atoi s = atoi_from 0 s
