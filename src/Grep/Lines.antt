-- ===== src/Grep/Lines.antt =====
-- user/grep.c: what the inner loop of grep writes of a text of lines.
use mathlib.Core.Path.{subst}
use os_proc_lap02_system_cal.Prelude.{
  ℕ, ◌≡◌, ◌≢◌, refl, sym, ap, ◌∙◌, false, List, [], ◌∷◌, ◌++◌, append-nil, append_assoc, arith,
  ℕ_discrete, ◌==◌, if◌then◌else◌, All, All-append,
}
use os_proc_lap02_system_cal.Grep.{newline, match, print_lines}

-- Bytes of a line: neither a newline nor 0.
abbrev pub InLine : List ℕ → Type 0
InLine cs = All (λ c. (c ≢ newline) × (c ≢ 0)) cs

abbrev pub Text : List ℕ → Type 0
Text cs = All (λ c. c ≢ 0) cs

-- The text of lines, each with its newline.
abbrev pub unlines : List (List ℕ) → List ℕ
unlines [] = []
unlines (l ∷ ls) = l ++ newline ∷ unlines ls

-- The lines that match, each with its newline.
abbrev pub selected : List ℕ → List (List ℕ) → List ℕ
selected pattern [] = []
selected pattern (l ∷ ls) =
    (if match pattern l then l ++ newline ∷ [] else []) ++ selected pattern ls

pub print-newline :
    (pattern line xs : List ℕ)
    → print_lines pattern line (newline ∷ xs) ≡ (
      (if match pattern line then line ++ newline ∷ [] else []) ++ (print_lines pattern [] xs).0,
      (print_lines pattern [] xs).1,
    )
unfolding print_lines
print-newline pattern line xs = refl

pub print-other :
    (pattern line : List ℕ)
    → (x : ℕ) → (xs : List ℕ) → x ≢ newline
    → x ≢ 0
    → print_lines pattern line (x ∷ xs) ≡ print_lines pattern (line ++ x ∷ []) xs
unfolding print_lines
print-other pattern line x xs nn nz =
    let a : (x == newline) ≡ false = ground arith in
    let b : (x == 0) ≡ false = ground arith in rw a (rw b refl)

-- Bytes of a line only make the line longer.
pub print-line :
    (pattern line cs xs : List ℕ)
    → InLine cs
    → print_lines pattern line (cs ++ xs) ≡ print_lines pattern (line ++ cs) xs
print-line pattern line [] xs h = ap (λ l. print_lines pattern l xs) (sym (append-nil line))
print-line pattern line (c ∷ cs) xs h =
    print-other pattern line c (cs ++ xs) h.0.0 h.0.1
    ∙ print-line pattern (line ++ c ∷ []) cs xs h.1
    ∙ ap (λ l. print_lines pattern l xs) (append_assoc line (c ∷ []) cs)

-- What one part of a text gives, and then the part `b` after it.
abbrev pub joined : List ℕ → List ℕ → List ℕ × List ℕ → List ℕ × List ℕ
joined pattern b (out, rest) =
    (out ++ (print_lines pattern rest b).0, (print_lines pattern rest b).1)

-- What is left over by one part of a text comes before the next part.
pub print-joined :
    (pattern line a b : List ℕ)
    → InLine line
    → Text a
    → (print_lines pattern line (a ++ b) ≡ joined pattern b (print_lines pattern line a))
      × InLine (print_lines pattern line a).1
unfolding print_lines
print-joined pattern line [] b hl ha = (refl, hl)
print-joined pattern line (x ∷ a) b hl ha = elim (ℕ_discrete x newline) [
  | yes e ↦
      let (ih, rest) = print-joined pattern [] a b tt ha.1 in
      let chosen = if match pattern line then line ++ newline ∷ [] else [] in
      (
        ap (λ c. print_lines pattern line (c ∷ (a ++ b))) e
            ∙ print-newline pattern line (a ++ b)
            ∙ ap (λ r. (chosen ++ r.0, r.1)) ih
            ∙ ap (λ o. (o, (print_lines pattern (print_lines pattern [] a).1 b).1))
                (sym (
                  append_assoc chosen (print_lines pattern [] a).0
                    (print_lines pattern (print_lines pattern [] a).1 b).0))
            ∙ ap (joined pattern b) (sym (print-newline pattern line a))
            ∙ ap (λ c. joined pattern b (print_lines pattern line (c ∷ a))) (sym e),
        subst InLine
            (ap (λ r. r.1) (sym (print-newline pattern line a))
              ∙ ap (λ c. (print_lines pattern line (c ∷ a)).1) (sym e))
            rest,
      )
  | no ne ↦
      let (ih, rest) =
        print-joined pattern (line ++ x ∷ []) a b
          (All-append (λ c. (c ≢ newline) × (c ≢ 0)) line (x ∷ []) hl ((ne, ha.0), tt)) ha.1 in
      (
        print-other pattern line x (a ++ b) ne ha.0
            ∙ ih
            ∙ ap (joined pattern b) (sym (print-other pattern line x a ne ha.0)),
        subst InLine (ap (λ r. r.1) (sym (print-other pattern line x a ne ha.0))) rest,
      )
]

pub print-selected :
    (pattern tail : List ℕ)
    → (ls : List (List ℕ)) → All InLine ls
    → InLine tail
    → (print_lines pattern [] (unlines ls ++ tail)).0 ≡ selected pattern ls
unfolding print_lines
print-selected pattern tail [] h k =
    ap (λ t. (print_lines pattern [] t).0) (sym (append-nil tail))
    ∙ ap (λ r. r.0) (print-line pattern [] tail [] k)
print-selected pattern tail (l ∷ ls) h k =
    ap (λ t. (print_lines pattern [] t).0) (append_assoc l (newline ∷ unlines ls) tail)
    ∙ ap (λ r. r.0)
        (print-line pattern [] l (newline ∷ (unlines ls ++ tail)) h.0
          ∙ print-newline pattern l (unlines ls ++ tail))
    ∙ ap (λ o. (if match pattern l then l ++ newline ∷ [] else []) ++ o)
        (print-selected pattern tail ls h.1 k)
