-- ===== src/Grep/Examples.antt =====
-- grep at concrete patterns and inputs.
use os_proc_lap02_system_cal.Prelude.{
  ℕ, ◌≡◌, ◌↔◌, refl, true, List, [], ◌∷◌, ◌++◌, ◌<◌, some, arith, All,
}
use os_proc_lap02_system_cal.Grep.{print_lines, match, matchhere, matchstar, match_from, grep}
use os_proc_lap02_system_cal.Grep.Language.{Occurs, match_lem}
use os_proc_lap02_system_cal.Grep.Lines.{InLine, unlines, selected}
use os_proc_lap02_system_cal.Grep.Buffer.{grep-selected}

-- The pattern `a.*c$` and the line `xabbc`
abbrev pattern : List ℕ
pattern = 97 ∷ 46 ∷ 42 ∷ 99 ∷ 36 ∷ []

abbrev line : List ℕ
line = 120 ∷ 97 ∷ 98 ∷ 98 ∷ 99 ∷ []

match_lem_example : (match pattern line ≡ true) ↔ Occurs pattern line
match_lem_example = match_lem pattern line

it_matches : match pattern line ≡ true
unfolding match match_from matchhere matchstar
it_matches = refl

-- The lines `ac` and `b`, and a `c` without a newline
abbrev lines : List (List ℕ)
lines = (97 ∷ 99 ∷ []) ∷ (98 ∷ []) ∷ []

-- What the calls of `read` return at most
abbrev sizes : List ℕ
sizes = 1 ∷ 2 ∷ 9 ∷ 1 ∷ 1 ∷ 1 ∷ 1 ∷ []

lines-InLine : All InLine lines
lines-InLine = (
  ((omega arith, omega arith), ((omega arith, omega arith), tt)),
  (((omega arith, omega arith), tt), tt),
)

positive : All (λ k. 0 < k) sizes
positive = (
  omega arith,
  (omega arith, (omega arith, (omega arith, (omega arith, (omega arith, (omega arith, tt)))))),
)

grep-selected_example :
    grep (99 ∷ []) [] (unlines lines ++ 99 ∷ []) sizes ≡ some (selected (99 ∷ []) lines)
grep-selected_example =
    grep-selected (99 ∷ []) (99 ∷ []) lines sizes lines-InLine (omega arith, (omega arith, tt))
      ((omega arith, omega arith), tt) (omega arith) positive (omega arith)

selected_line : grep (99 ∷ []) [] (unlines lines ++ 99 ∷ []) sizes ≡ some (97 ∷ 99 ∷ 10 ∷ [])
unfolding grep print_lines match match_from matchhere
selected_line = refl
