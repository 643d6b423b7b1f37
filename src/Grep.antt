-- ===== src/Grep.antt =====
-- user/grep.c: the pattern matcher, and the program on what it reads.
mod Language
mod Lines
mod Buffer
mod Examples
use mathlib.Core.Path.{subst}
use os_proc_lap02_system_cal.Prelude.{
  ℕ, zero, suc, ◌+◌, ◌-◌, ◌*◌, ◌/◌, ◌%◌, ◌^◌, ◌≤◌, ◌<◌, ◌≡◌, ◌≢◌, ◌↔◌, ◌⊎◌, inl, inr, refl, sym, ap,
  ◌∙◌, fun_ext, Bool, true, false, not, ◌&&◌, ◌||◌, Option, none, some, List, [], ◌∷◌, ◌++◌, map,
  append-nil, append_assoc, arith, dec_lt, ℕ_discrete, ltb, leb, ◌==◌, if◌then◌else◌, Bool-cases,
  Option-cases, length, get_elem?, set, get_or, take, drop, replicate, length-append, length-set,
  get_elem?-set_self, get_elem?-set_ne, update, update_self, update_ne, Ensures, Ensures-bind,
  Ensures-map, Ensures-some, ◌>>=◌, >>=-eq-some, All, In, NotIn, Distinct, All-map, All-append,
}

-- The characters `*`, `.`, `$`, `^` and newline
abbrev pub star_char : ℕ
star_char = 42

abbrev pub dot : ℕ
dot = 46

abbrev pub dollar : ℕ
dollar = 36

abbrev pub caret : ℕ
caret = 94

abbrev pub newline : ℕ
newline = 10

abbrev pub is_end : List ℕ → Bool
is_end [] = true
is_end (c ∷ cs) = false

-- The test that `c` of a pattern stands for the character `x`
abbrev pub fits : ℕ → ℕ → Bool
fits c x = c == dot || c == x

-- The loop of `matchstar`, where `here` is `matchhere` of the pattern after the `*`.
unfoldable pub matchstar : ℕ → (List ℕ → Bool) → List ℕ → Bool
matchstar c here [] = here []
matchstar c here (x ∷ text) =
    let more = matchstar c here text in
    if here (x ∷ text) then true else if fits c x then more else false

-- Patterns and texts are strings without their terminator.
unfoldable pub matchhere : List ℕ → List ℕ → Bool
unfolding matchstar
matchhere [] text = true
matchhere (c ∷ []) text =
    if c == dollar then is_end text else elim text [ [] ↦ false | x ∷ rest ↦ fits c x ]
matchhere (c ∷ d ∷ re) text =
    let starred = matchstar c (matchhere re) text in
    if d == star_char
    then starred
    else elim text [ [] ↦ false | x ∷ rest ↦ if fits c x then matchhere (d ∷ re) rest else false ]

-- The loop of `match`.
unfoldable pub match_from : List ℕ → List ℕ → Bool
unfolding matchhere
match_from re [] = matchhere re []
match_from re (x ∷ text) =
    let later = match_from re text in if matchhere re (x ∷ text) then true else later

unfoldable pub match : List ℕ → List ℕ → Bool
unfolding match_from
match [] text = match_from [] text
match (c ∷ re) text = if c == caret then matchhere re text else match_from (c ∷ re) text

-- The inner loop of `grep`: `line` are the bytes from `p` on that `strchr` has passed. It gives what is written
-- and what is left from `p` on; `strchr` finds no newline after a 0.
unfoldable pub print_lines : List ℕ → List ℕ → List ℕ → List ℕ × List ℕ
unfolding match
print_lines pattern line [] = ([], line)
print_lines pattern line (x ∷ xs) =
    let (out, rest) = print_lines pattern [] xs in
    let longer = print_lines pattern (line ++ x ∷ []) xs in
    if x == newline
    then ((if match pattern line then line ++ newline ∷ [] else []) ++ out, rest)
    else if x == 0
    then ([], line ++ x ∷ xs)
    else longer

-- `char buf[1024]`
abbrev pub buf_size : ℕ
buf_size = 1024

-- `sizeof(buf)-m-1`, where the buffer holds `m` bytes: the count that `read` is given.
abbrev pub room : ℕ → ℕ
room m = buf_size - m - 1

-- How many bytes one call of `read` may return at most: `size` are at hand, and `count` are asked for.
abbrev pub at_most : ℕ → ℕ → ℕ
at_most size count = if ltb size count then size else count

-- The loop of `grep`, and what it writes. The buffer holds `held`, and `input` is not read yet; a call of
-- `read` returns the next bytes of the input, as many as are asked for and no more than the next of
-- the `sizes`. One that returns nothing ends the loop, and `none` is that no calls are left.
unfoldable pub grep : List ℕ → List ℕ → List ℕ → List ℕ → Option (List ℕ)
unfolding print_lines
grep pattern held input [] = none
grep pattern held input (size ∷ sizes) =
    let n = at_most size (room (length held)) in
    elim (take n input) [
      | [] ↦ some []
      | x ∷ xs ↦
          let (out, rest) = print_lines pattern [] (held ++ x ∷ xs) in
          grep pattern rest (drop n input) sizes >>= λ more. some (out ++ more)
    ]
