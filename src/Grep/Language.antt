-- ===== src/Grep/Language.antt =====
-- What a pattern means, and that match finds exactly that.
use mathlib.Core.Path.{subst}
use os_proc_lap02_system_cal.Prelude.{
  ℕ, ◌≡◌, ◌≢◌, ◌↔◌, ◌⊎◌, inl, inr, refl, sym, ap, ◌∙◌, Bool, true, false, List, [], ◌∷◌, ◌++◌,
  arith, ℕ_discrete, ◌==◌, if◌then◌else◌, Bool-cases, All,
}
use os_proc_lap02_system_cal.Grep.{
  star_char, dollar, caret, fits, matchstar, matchhere, match_from, match,
}

-- The pattern matches a beginning of the text: the meaning of the operators.
pub data Prefix : List ℕ → List ℕ → Type 0 where
  done : (t : List ℕ) → Prefix [] t
  starred :
      (c d : ℕ)
      → (re us vs t : List ℕ) → d ≡ star_char
      → t ≡ us ++ vs
      → All (λ x. fits c x ≡ true) us
      → Prefix re vs
      → Prefix (c ∷ d ∷ re) t
  line_end : (c : ℕ) → c ≡ dollar → Prefix (c ∷ []) []
  last_one : (c x : ℕ) → (t : List ℕ) → c ≢ dollar → fits c x ≡ true → Prefix (c ∷ []) (x ∷ t)
  one :
      (c d x : ℕ)
      → (re t : List ℕ) → d ≢ star_char
      → fits c x ≡ true
      → Prefix (d ∷ re) t
      → Prefix (c ∷ d ∷ re) (x ∷ t)

-- A split of the text into characters that `c` stands for and a part that passes a test.
pub record Starred (c : ℕ) (here : List ℕ → Bool) (t : List ℕ) : Type 0 where
  pub run : List ℕ
  pub rest : List ℕ
  pub split : t ≡ run ++ rest
  pub all_fit : All (λ x. fits c x ≡ true) run
  pub passes : here rest ≡ true

matchstar-Starred :
    (c : ℕ) → (here : List ℕ → Bool) → (t : List ℕ) → matchstar c here t ≡ true → Starred c here t
unfolding matchstar
matchstar-Starred c here [] e = record {
  run = [];
  rest = [];
  split = refl;
  all_fit = tt;
  passes = e;
}
matchstar-Starred c here (x ∷ t) e = elim (Bool-cases (here (x ∷ t))) [
  | inl h ↦ record { run = []; rest = x ∷ t; split = refl; all_fit = tt; passes = h }
  | inr n ↦ elim (Bool-cases (fits c x)) [
    | inr no_fit ↦ let f : matchstar c here (x ∷ t) ≡ false = rw n (rw no_fit refl) in cc (e, f)
    | inl fit ↦
        let f : matchstar c here (x ∷ t) ≡ matchstar c here t = rw n (rw fit refl) in
        let s = matchstar-Starred c here t (sym f ∙ e) in
        record {
          run = x ∷ s.run;
          rest = s.rest;
          split = ap (λ r. x ∷ r) s.split;
          all_fit = (fit, s.all_fit);
          passes = s.passes;
        }
  ]
]

Starred-matchstar :
    (c : ℕ)
    → (here : List ℕ → Bool) → (run rest : List ℕ) → All (λ x. fits c x ≡ true) run
    → here rest ≡ true
    → matchstar c here (run ++ rest) ≡ true
unfolding matchstar
Starred-matchstar c here [] [] h p = p
Starred-matchstar c here [] (x ∷ rest) h p = rw p refl
Starred-matchstar c here (x ∷ run) rest h p = elim (Bool-cases (here (x ∷ (run ++ rest)))) [
  | inl y ↦ rw y refl
  | inr n ↦ rw n (rw h.0 (Starred-matchstar c here run rest h.1 p))
]

matchhere-star :
    (c d : ℕ)
    → (re t : List ℕ) → d ≡ star_char
    → matchhere (c ∷ d ∷ re) t ≡ matchstar c (matchhere re) t
unfolding matchhere
matchhere-star c d re t e = let z : (d == star_char) ≡ true = ground arith in rw (z, matchhere) refl

matchhere-one :
    (c d x : ℕ)
    → (re t : List ℕ) → d ≢ star_char
    → matchhere (c ∷ d ∷ re) (x ∷ t) ≡ (if fits c x then matchhere (d ∷ re) t else false)
unfolding matchhere
matchhere-one c d x re t ne =
    let z : (d == star_char) ≡ false = ground arith in rw (z, matchhere) refl

matchhere-none : (c d : ℕ) → (re : List ℕ) → d ≢ star_char → matchhere (c ∷ d ∷ re) [] ≡ false
unfolding matchhere
matchhere-none c d re ne = let z : (d == star_char) ≡ false = ground arith in rw (z, matchhere) refl

text_cases : (cs : List ℕ) → (cs ≡ []) ⊎ ((c : ℕ) × (r : List ℕ) × (cs ≡ c ∷ r))
text_cases [] = inl refl
text_cases (c ∷ cs) = inr (c, cs, refl)

matchhere-Prefix : (re t : List ℕ) → matchhere re t ≡ true → Prefix re t
unfolding matchhere
matchhere-Prefix [] t e = done t
matchhere-Prefix (c ∷ []) [] e = elim (ℕ_discrete c dollar) [
  | yes d ↦ line_end c d
  | no nd ↦
      let z : (c == dollar) ≡ false = ground arith in
      let f : matchhere (c ∷ []) [] ≡ false = rw (z, matchhere) refl in cc (e, f)
]
matchhere-Prefix (c ∷ []) (x ∷ t) e = elim (ℕ_discrete c dollar) [
  | yes d ↦
      let z : (c == dollar) ≡ true = ground arith in
      let f : matchhere (c ∷ []) (x ∷ t) ≡ false = rw (z, matchhere) refl in cc (e, f)
  | no nd ↦
      let z : (c == dollar) ≡ false = ground arith in
      let f : matchhere (c ∷ []) (x ∷ t) ≡ fits c x = rw (z, matchhere) refl in
      last_one c x t nd (sym f ∙ e)
]
matchhere-Prefix (c ∷ d ∷ re) t e = elim (ℕ_discrete d star_char) [
  | yes z ↦
      let s = matchstar-Starred c (matchhere re) t (sym (matchhere-star c d re t z) ∙ e) in
      starred c d re s.run s.rest t z s.split s.all_fit (matchhere-Prefix re s.rest s.passes)
  | no ne ↦ elim (text_cases t) [
    | inl z ↦ cc (ap (matchhere (c ∷ d ∷ re)) (sym z) ∙ e, matchhere-none c d re ne)
    | inr (x, rest, z) ↦
        let f : matchhere (c ∷ d ∷ re) (x ∷ rest) ≡ true =
          ap (matchhere (c ∷ d ∷ re)) (sym z) ∙ e in
        elim (Bool-cases (fits c x)) [
          | inl fit ↦ subst (Prefix (c ∷ d ∷ re)) (sym z) (
              one c d x re rest ne fit (
                matchhere-Prefix (d ∷ re) rest
                  (sym (matchhere-one c d x re rest ne ∙ rw fit refl) ∙ f)))
          | inr no_fit ↦
              let g : matchhere (c ∷ d ∷ re) (x ∷ rest) ≡ false =
                matchhere-one c d x re rest ne ∙ rw no_fit refl in
              cc (f, g)
        ]
  ]
]

Prefix-matchhere : (re t : List ℕ) → Prefix re t → matchhere re t ≡ true
unfolding matchhere
Prefix-matchhere _ _ (done t) = refl
Prefix-matchhere _ _ (line_end c e) =
    let z : (c == dollar) ≡ true = ground arith in rw (z, matchhere) refl
Prefix-matchhere _ _ (last_one c x t ne fit) =
    let z : (c == dollar) ≡ false = ground arith in rw (z, matchhere) fit
Prefix-matchhere _ _ (starred c d re us vs t e split fit p) =
    matchhere-star c d re t e
    ∙ ap (matchstar c (matchhere re)) split
    ∙ Starred-matchstar c (matchhere re) us vs fit (Prefix-matchhere re vs p)
Prefix-matchhere _ _ (one c d x re t ne fit p) =
    matchhere-one c d x re t ne ∙ rw fit (Prefix-matchhere (d ∷ re) t p)

-- The pattern matches somewhere in the text, or at its beginning where it starts with `^`.
pub data Occurs : List ℕ → List ℕ → Type 0 where
  anchored : (c : ℕ) → (re t : List ℕ) → c ≡ caret → Prefix re t → Occurs (c ∷ re) t
  anywhere :
      (re us vs t : List ℕ)
      → ((r : List ℕ) → (caret ∷ r) ≢ re)
      → t ≡ us ++ vs
      → Prefix re vs
      → Occurs re t

-- A part of the text, up to its end, that matches.
Somewhere : List ℕ → List ℕ → Type 0
Somewhere re t = (us : List ℕ) × (vs : List ℕ) × (t ≡ us ++ vs) × Prefix re vs

match_from-Somewhere : (re t : List ℕ) → match_from re t ≡ true → Somewhere re t
unfolding match_from Somewhere
match_from-Somewhere re [] e = ([], [], refl, matchhere-Prefix re [] e)
match_from-Somewhere re (x ∷ t) e = elim (Bool-cases (matchhere re (x ∷ t))) [
  | inl h ↦ ([], x ∷ t, refl, matchhere-Prefix re (x ∷ t) h)
  | inr n ↦
      let f : match_from re (x ∷ t) ≡ match_from re t = rw n refl in
      let (us, vs, split, p) = match_from-Somewhere re t (sym f ∙ e) in
      (x ∷ us, vs, ap (λ r. x ∷ r) split, p)
]

Somewhere-match_from : (re us vs : List ℕ) → Prefix re vs → match_from re (us ++ vs) ≡ true
unfolding match_from
Somewhere-match_from re [] [] p = Prefix-matchhere re [] p
Somewhere-match_from re [] (x ∷ vs) p = rw (Prefix-matchhere re (x ∷ vs) p) refl
Somewhere-match_from re (x ∷ us) vs p = elim (Bool-cases (matchhere re (x ∷ (us ++ vs)))) [
  | inl h ↦ rw h refl
  | inr n ↦ rw n (Somewhere-match_from re us vs p)
]

first_or : List ℕ → ℕ
first_or [] = 0
first_or (c ∷ cs) = c

first_same : (c k : ℕ) → (re r : List ℕ) → (k ∷ r) ≡ (c ∷ re) → c ≡ k
unfolding first_or
first_same c k re r e = ap first_or (sym e)

match-Occurs : (re t : List ℕ) → match re t ≡ true → Occurs re t
unfolding match Somewhere
match-Occurs [] t e =
    let (us, vs, split, p) = match_from-Somewhere [] t e in
    anywhere [] us vs t (λ r z. cc z) split p
match-Occurs (c ∷ re) t e = elim (ℕ_discrete c caret) [
  | yes z ↦
      let y : (c == caret) ≡ true = ground arith in
      let f : match (c ∷ re) t ≡ matchhere re t = rw y refl in
      anchored c re t z (matchhere-Prefix re t (sym f ∙ e))
  | no ne ↦
      let y : (c == caret) ≡ false = ground arith in
      let f : match (c ∷ re) t ≡ match_from (c ∷ re) t = rw y refl in
      let (us, vs, split, p) = match_from-Somewhere (c ∷ re) t (sym f ∙ e) in
      anywhere (c ∷ re) us vs t (λ r z. ne (first_same c caret re r z)) split p
]

Occurs-match : (re t : List ℕ) → Occurs re t → match re t ≡ true
unfolding match
Occurs-match _ _ (anchored c re t e p) =
    let y : (c == caret) ≡ true = ground arith in rw y (Prefix-matchhere re t p)
Occurs-match _ _ (anywhere [] us vs t ne split p) =
    ap (match_from []) split ∙ Somewhere-match_from [] us vs p
Occurs-match _ _ (anywhere (c ∷ re) us vs t ne split p) = elim (ℕ_discrete c caret) [
  | yes z ↦ absurd (ne re (ap (λ k. k ∷ re) (sym z)))
  | no other ↦
      let y : (c == caret) ≡ false = ground arith in
      rw y (ap (match_from (c ∷ re)) split ∙ Somewhere-match_from (c ∷ re) us vs p)
]

-- For every pattern and every line, match says yes exactly where the pattern occurs in the line: `^` at the
-- start ties it to the start of the line, `$` at the end to its end, `.` stands for any character, `c*` for
-- any number of characters that `c` stands for, and any other character for itself.
pub match_lem : (re t : List ℕ) → (match re t ≡ true) ↔ Occurs re t
match_lem re t = (match-Occurs re t, Occurs-match re t)
