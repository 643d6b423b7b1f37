-- ===== src/Grep/Buffer.antt =====
-- user/grep.c: grep with its buffer of 1024 bytes, on what calls of read return.
use os_proc_lap02_system_cal.Grep.Lines.{
  print-selected, print-line, selected, print-joined, print-other, unlines, print-newline, Text,
  InLine,
}
use os_proc_lap02_system_cal.Grep.{room, grep, at_most, print_lines, newline}
use os_proc_lap02_system_cal.Prelude.{take-append-drop, length-drop}
use mathlib.Core.Path.{subst}
use os_proc_lap02_system_cal.Prelude.{
  ℕ, suc, ◌+◌, ◌-◌, ◌≤◌, ◌<◌, ◌≡◌, ◌≢◌, refl, sym, ap, ◌∙◌, Option, some, List, [], ◌∷◌, ◌++◌,
  append-nil, append_assoc, arith, ℕ_discrete, length, take, drop, length-append, ◌>>=◌, All,
  All-map, All-append,
}

-- The rest `xs` of a text fits the buffer, `m` bytes of the current line being held: wherever a byte is
-- left to read, the line so far takes at most 1022 bytes.
abbrev pub Fits : ℕ → List ℕ → Type 0
Fits m [] = Unit
Fits m (x ∷ xs) = (m ≤ 1022) × (x ≡ newline → Fits 0 xs) × (x ≢ newline → Fits (m + 1) xs)

Fits-newline : (m : ℕ) → (xs : List ℕ) → Fits m (newline ∷ xs) → Fits 0 xs
Fits-newline m xs f = f.1 refl

-- What `print_lines` leaves of a part of the text, and the rest, fit the buffer.
print-Fits :
    (pattern line a b : List ℕ)
    → Text a
    → Fits (length line) (a ++ b)
    → Fits (length (print_lines pattern line a).1) b
unfolding print_lines
print-Fits pattern line [] b h f = f
print-Fits pattern line (x ∷ a) b h f = elim (ℕ_discrete x newline) [
  | yes e ↦
      subst (λ r. Fits (length r) b)
        (ap (λ r. r.1) (sym (print-newline pattern line a))
          ∙ ap (λ c. (print_lines pattern line (c ∷ a)).1) (sym e))
        (print-Fits pattern [] a b h.1 (f.1 e))
  | no ne ↦
      let longer : length (line ++ x ∷ []) ≡ length line + 1 = length-append line (x ∷ []) in
      subst (λ r. Fits (length r) b) (ap (λ r. r.1) (sym (print-other pattern line x a ne h.0)))
        (print-Fits pattern (line ++ x ∷ []) a b h.1
          (subst (λ m. Fits m (a ++ b)) (sym longer) (f.2 ne)))
]

-- A part of a line of at most 1023 bytes.
line-Fits :
    (m : ℕ)
    → (cs b : List ℕ) → InLine cs
    → m + length cs ≤ 1023
    → Fits (m + length cs) b
    → Fits m (cs ++ b)
line-Fits m [] b h le f = let e : m + 0 ≡ m = omega arith in subst (λ k. Fits k b) e f
line-Fits m (c ∷ cs) b h le f = (
  omega arith,
  (λ e. absurd (h.0.0 e)),
  λ ne.
      line-Fits (m + 1) cs b h.1 (omega arith) (
        let e : m + suc (length cs) ≡ m + 1 + length cs = omega arith in subst (λ k. Fits k b) e f),
)

-- A line that the buffer takes with its newline.
abbrev pub IsShort : List ℕ → Type 0
IsShort l = length l ≤ 1022

text-Fits :
    (ls : List (List ℕ))
    → (tail : List ℕ) → All InLine ls
    → All IsShort ls
    → InLine tail
    → length tail ≤ 1023
    → Fits 0 (unlines ls ++ tail)
text-Fits [] tail h k ht kt =
    subst (Fits 0) (append-nil tail) (line-Fits 0 tail [] ht (omega arith) tt)
text-Fits (l ∷ ls) tail h k ht kt =
    subst (Fits 0) (sym (append_assoc l (newline ∷ unlines ls) tail)) (
      line-Fits 0 l (newline ∷ (unlines ls ++ tail)) h.0 (omega (arith, k.0))
        (omega (arith, k.0), (λ e. text-Fits ls tail h.1 k.1 ht kt), λ ne. absurd (ne refl)))

InLine-Text : (cs : List ℕ) → InLine cs → Text cs
InLine-Text cs h = All-map cs (λ c y. y.1) h

Text-unlines :
    (ls : List (List ℕ)) → (tail : List ℕ) → All InLine ls → InLine tail → Text (unlines ls ++ tail)
Text-unlines [] tail h ht = InLine-Text tail ht
Text-unlines (l ∷ ls) tail h ht = subst Text (sym (append_assoc l (newline ∷ unlines ls) tail)) (
    All-append (λ c. c ≢ 0) l (newline ∷ (unlines ls ++ tail)) (InLine-Text l h.0)
      (omega arith, Text-unlines ls tail h.1 ht))

-- A text is cut into two.
Text-split : (a b : List ℕ) → Text (a ++ b) → Text a × Text b
Text-split [] b h = (tt, h)
Text-split (x ∷ a) b h = let (p, q) = Text-split a b h.1 in ((h.0, p), q)

Positive : List ℕ → Type 0
Positive sizes = All (λ k. 0 < k) sizes

at_most-suc : (size count : ℕ) → 0 < size → 0 < count → (n : ℕ) × (at_most size count ≡ suc n)
at_most-suc size count a b = (at_most size count - 1, ground arith)

-- What the loop writes from a call of `read` on that it did not end with.
abbrev more_of : List ℕ → List ℕ × List ℕ → List ℕ → List ℕ → Option (List ℕ)
more_of pattern (out, rest) left sizes = grep pattern rest left sizes >>= λ more. some (out ++ more)

grep-next :
    (pattern held input : List ℕ)
    → (size : ℕ) → (sizes : List ℕ) → (x : ℕ) → (xs left : List ℕ)
    → take (at_most size (room (length held))) input ≡ x ∷ xs
    → drop (at_most size (room (length held))) input ≡ left
    → grep pattern held input (size ∷ sizes)
      ≡ more_of pattern (print_lines pattern [] (held ++ x ∷ xs)) left sizes
unfolding grep
grep-next pattern held input size sizes x xs left t d = rw (t, d, grep) refl

-- The loop writes what `print_lines` writes of the whole text.
grep-all :
    (sizes pattern held input : List ℕ)
    → InLine held
    → Text input
    → Fits (length held) input
    → Positive sizes
    → length input < length sizes
    → grep pattern held input sizes ≡ some (print_lines pattern held input).0
unfolding grep Positive print_lines
grep-all [] pattern held input hh hi f p lt = absurd (omega arith)
grep-all (size ∷ sizes) pattern held [] hh hi f p lt =
    elim (ℕ_discrete (at_most size (room (length held))) 0) [
      | yes z ↦ rw (z, grep) refl
      | no nz ↦
          let e : at_most size (room (length held)) ≡ suc (at_most size (room (length held)) - 1) =
            omega arith in
          rw (e, grep) refl
    ]
grep-all (size ∷ sizes) pattern held (x ∷ input) hh hi f p lt =
    let (n, e) = at_most-suc size (room (length held)) p.0 (omega (arith, f.0)) in
    let r = x ∷ take n input in
    let left = drop n input in
    let whole : r ++ left ≡ x ∷ input = ap (λ xs. x ∷ xs) (take-append-drop n input) in
    let (text, text_left) = Text-split r left (subst Text (sym whole) hi) in
    let (split, in_line) = print-joined pattern held r left hh text in
    let fits = print-Fits pattern held r left text (subst (Fits (length held)) (sym whole) f) in
    let t : take (at_most size (room (length held))) (x ∷ input) ≡ r =
      ap (λ k. take k (x ∷ input)) e in
    let d : drop (at_most size (room (length held))) (x ∷ input) ≡ left =
      ap (λ k. drop k (x ∷ input)) e in
    grep-next pattern held (x ∷ input) size sizes x (take n input) left t d
    ∙ ap (λ q. more_of pattern q left sizes) (print-line pattern [] held r hh)
    ∙ ap (λ o. o >>= λ more. some ((print_lines pattern held r).0 ++ more))
        (grep-all sizes pattern (print_lines pattern held r).1 left in_line text_left fits p.1
          (omega (arith, length-drop n input)))
    ∙ ap (λ q. some q.0) (sym split)
    ∙ ap (λ t. some (print_lines pattern held t).0) whole

-- grep on a text of lines of at most 1022 bytes each, so that the buffer of 1024 bytes takes each with its
-- newline, and of a last part without a newline of at most 1023 bytes. However few bytes each call of
-- `read` returns, it ends within one call for each byte and one more, and writes the lines that match,
-- each with its newline and in their order, and nothing else; the last part is not looked at. No byte
-- of the text is 0.
pub grep-selected :
    (pattern tail : List ℕ)
    → (ls : List (List ℕ)) → (sizes : List ℕ) → All InLine ls
    → All IsShort ls
    → InLine tail
    → length tail ≤ 1023
    → All (λ k. 0 < k) sizes
    → length (unlines ls ++ tail) < length sizes
    → grep pattern [] (unlines ls ++ tail) sizes ≡ some (selected pattern ls)
unfolding Positive
grep-selected pattern tail ls sizes h k ht kt p lt =
    grep-all sizes pattern [] (unlines ls ++ tail) tt (Text-unlines ls tail h ht)
      (text-Fits ls tail h k ht kt) p lt
    ∙ ap some (print-selected pattern tail ls h ht)
