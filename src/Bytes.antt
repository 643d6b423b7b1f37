-- ===== src/Bytes.antt =====
-- kernel/string.c: the functions on bytes and strings, over memory as the byte at each address.
mod Moving
mod Strings
mod Examples
use mathlib.Core.Path.{subst}
use os_proc_lap02_system_cal.Prelude.{
  ℕ, zero, suc, ◌+◌, ◌-◌, ◌*◌, ◌/◌, ◌%◌, ◌^◌, ◌≤◌, ◌<◌, ◌≡◌, ◌≢◌, ◌↔◌, ◌⊎◌, inl, inr, refl, sym, ap,
  ◌∙◌, fun_ext, Bool, true, false, not, ◌&&◌, ◌||◌, Option, none, some, List, [], ◌∷◌, ◌++◌, map,
  append-nil, append_assoc, arith, dec_lt, ℕ_discrete, ltb, leb, ◌==◌, if◌then◌else◌, Bool-cases,
  Option-cases, length, get_elem?, set, get_or, take, drop, replicate, length-append, length-set,
  get_elem?-set_self, get_elem?-set_ne, update, update_self, update_ne, Ensures, Ensures-bind,
  Ensures-map, Ensures-some, ◌>>=◌, >>=-eq-some, All, In, NotIn, Distinct, All-map, All-append,
}
use os_proc_lap02_system_cal.Prelude.Int.{ℤ, pos, negsuc, sub_ℕ}

abbrev pub Bytes : Type 0
Bytes = ℕ → ℕ

-- `c` is an `int` that is stored in a `char`.
unfoldable pub memset : ℕ → ℕ → ℕ → Bytes → Bytes
memset dst c zero m = m
memset dst c (suc n) m = memset (dst + 1) c n (update m dst (c % 256))

unfoldable pub memcmp : ℕ → ℕ → ℕ → Bytes → ℤ
memcmp s1 s2 zero m = pos 0
memcmp s1 s2 (suc n) m =
    let rest = memcmp (s1 + 1) (s2 + 1) n m in if m s1 == m s2 then rest else sub_ℕ (m s1) (m s2)

-- The two loops of `memmove`: `*d++ = *s++`, and `*--d = *--s`.
unfoldable pub copy_up : ℕ → ℕ → ℕ → Bytes → Bytes
copy_up zero d s m = m
copy_up (suc n) d s m = copy_up n (d + 1) (s + 1) (update m d (m s))

unfoldable pub copy_down : ℕ → ℕ → ℕ → Bytes → Bytes
copy_down zero d s m = m
copy_down (suc n) d s m = copy_down n (d - 1) (s - 1) (update m (d - 1) (m (s - 1)))

unfoldable pub memmove : ℕ → ℕ → ℕ → Bytes → Bytes
memmove dst src n m =
    if n == 0
    then m
    else if ltb src dst && ltb dst (src + n)
    then copy_down n (dst + n) (src + n) m
    else copy_up n dst src m

unfoldable pub memcpy : ℕ → ℕ → ℕ → Bytes → Bytes
memcpy dst src n m = memmove dst src n m

unfoldable pub strncmp : ℕ → ℕ → ℕ → Bytes → ℤ
strncmp p q zero m = pos 0
strncmp p q (suc n) m =
    let rest = strncmp (p + 1) (q + 1) n m in
    if not (m p == 0) && m p == m q then rest else sub_ℕ (m p) (m q)

-- The second loop of `strncpy`.
unfoldable pub pad : ℕ → ℕ → Bytes → Bytes
pad zero s m = m
pad (suc n) s m = pad n (s + 1) (update m s 0)

unfoldable pub strncpy : ℕ → ℕ → ℕ → Bytes → Bytes
strncpy s t zero m = m
strncpy s t (suc n) m =
    let b = update m s (m t) in
    let rest = strncpy (s + 1) (t + 1) n b in if m t == 0 then pad n (s + 1) b else rest

-- The loop of `safestrcpy` with `--n` equal to `n`, and the store after it.
unfoldable pub safe_from : ℕ → ℕ → ℕ → Bytes → Bytes
safe_from s t zero m = update m s 0
safe_from s t (suc n) m =
    let b = update m s (m t) in
    let rest = safe_from (s + 1) (t + 1) n b in if m t == 0 then update b (s + 1) 0 else rest

unfoldable pub safestrcpy : ℕ → ℕ → ℤ → Bytes → Bytes
safestrcpy s t (pos zero) m = m
safestrcpy s t (pos (suc n)) m = safe_from s t n m
safestrcpy s t (negsuc n) m = m

-- On fuel: `none` where no terminator was found with it.
unfoldable pub strlen : ℕ → ℕ → Bytes → Option ℕ
strlen zero s m = none
strlen (suc fuel) s m =
    let rest = strlen fuel (s + 1) m in if m s == 0 then some 0 else (rest >>= λ n. some (n + 1))
