-- ===== src/Fs/Names.antt =====
-- Path names: what skipelem takes off, and that the loop of namex has enough rounds.
use mathlib.Core.Path.{subst}
use mathlib.Core.Option.{some-injective}
use os_proc_lap02_system_cal.Prelude.{
  ℕ, zero, suc, ◌+◌, ◌<◌, ◌≡◌, ◌≢◌, ◌⊎◌, inl, inr, refl, sym, ap, ◌∙◌, fun_ext, Bool, true, false,
  none, some, List, [], ◌∷◌, ◌++◌, append-nil, arith, ℕ_discrete, ◌==◌, if◌then◌else◌, Option-cases,
  length, take, length-append, ◌>>=◌, All,
}
use os_proc_lap02_system_cal.Fs.{Fs, dir_siz}
use os_proc_lap02_system_cal.Fs.Paths.{
  slash, skip_slashes, element, after_element, skipelem, one_element, namex_from,
}
use os_proc_lap02_system_cal.Fs.Content.{iput}

abbrev pub Slashes : List ℕ → Type 0
Slashes cs = All (λ c. c ≡ slash) cs

abbrev pub NoSlash : List ℕ → Type 0
NoSlash cs = All (λ c. c ≢ slash) cs

-- A list begins with a slash, or is empty; or does not begin with one.
abbrev pub AtSlash : List ℕ → Type 0
AtSlash [] = Unit
AtSlash (c ∷ cs) = c ≡ slash

abbrev pub PastSlash : List ℕ → Type 0
PastSlash [] = Unit
PastSlash (c ∷ cs) = c ≢ slash

skip_slashes-split :
    (cs : List ℕ)
    → (ss : List ℕ) × Slashes ss × (cs ≡ ss ++ skip_slashes cs) × PastSlash (skip_slashes cs)
unfolding skip_slashes
skip_slashes-split [] = ([], tt, refl, tt)
skip_slashes-split (c ∷ cs) = elim (ℕ_discrete c slash) [
  | yes e ↦
      let (ss, all, split, past) = skip_slashes-split cs in
      let z : (c == slash) ≡ true = ground arith in
      rw z (c ∷ ss, (e, all), ap (λ r. c ∷ r) split, past)
  | no ne ↦ let z : (c == slash) ≡ false = ground arith in rw z ([], tt, refl, ne)
]

element-split :
    (cs : List ℕ)
    → (cs ≡ element cs ++ after_element cs) × NoSlash (element cs) × AtSlash (after_element cs)
unfolding element after_element
element-split [] = (refl, tt, tt)
element-split (c ∷ cs) = elim (ℕ_discrete c slash) [
  | yes e ↦ let z : (c == slash) ≡ true = ground arith in rw z (refl, tt, e)
  | no ne ↦
      let (split, no_slash, at) = element-split cs in
      let z : (c == slash) ≡ false = ground arith in
      rw z (ap (λ r. c ∷ r) split, (ne, no_slash), at)
]

element-some : (c : ℕ) → (cs : List ℕ) → c ≢ slash → element (c ∷ cs) ≢ []
unfolding element
element-some c cs ne e =
    let z : (c == slash) ≡ false = ground arith in
    let h : element (c ∷ cs) ≡ c ∷ element cs = rw z refl in cc (h, e)

-- A path that has an element: slashes, the element, slashes and the rest, which begins with no slash and
-- is parted from the element by a slash.
pub record Split (path name rest : List ℕ) : Type 0 where
  pub before : List ℕ
  pub elem : List ℕ
  pub between : List ℕ
  pub parts : path ≡ before ++ (elem ++ (between ++ rest))
  pub before_slashes : Slashes before
  pub elem_some : elem ≢ []
  pub elem_no_slash : NoSlash elem
  pub name_cut : name ≡ take dir_siz elem
  pub between_slashes : Slashes between
  pub rest_past : PastSlash rest
  pub parted : AtSlash (between ++ rest)

skipelem-none : (path : List ℕ) → skip_slashes path ≡ [] → skipelem path ≡ none
unfolding skipelem
skipelem-none path e = rw (e, skipelem) refl

skipelem-some :
    (path : List ℕ)
    → (c : ℕ) → (cs : List ℕ) → skip_slashes path ≡ c ∷ cs
    → skipelem path ≡ some (take dir_siz (element (c ∷ cs)), skip_slashes (after_element (c ∷ cs)))
unfolding skipelem
skipelem-some path c cs e = rw (e, skipelem) refl

list_cases : (cs : List ℕ) → (cs ≡ []) ⊎ ((c : ℕ) × (r : List ℕ) × (cs ≡ c ∷ r))
list_cases [] = inl refl
list_cases (c ∷ cs) = inr (c, cs, refl)

-- For every path, either it is made of slashes only and skipelem returns 0, or skipelem returns a name
-- and a rest such that the path is slashes, an element without a slash, and the rest after slashes; the
-- name is the element, cut to DIRSIZ bytes, and the rest does not begin with a slash.
pub skipelem-Split :
    (path : List ℕ)
    → ((skipelem path ≡ none) × Slashes path)
      ⊎ ((name : List ℕ) × (rest : List ℕ) × (skipelem path ≡ some (name, rest))
          × Split path name rest)
skipelem-Split path =
    let (ss, slashes, split, past) = skip_slashes-split path in
    elim (list_cases (skip_slashes path)) [
      | inl empty ↦ inl (
        skipelem-none path empty,
        subst Slashes (sym (split ∙ ap (λ r. ss ++ r) empty ∙ append-nil ss)) slashes,
      )
      | inr (c, cs, e) ↦
          let (parts, no_slash, at) = element-split (c ∷ cs) in
          let (between, between_slashes, parts2, rest_past) =
            skip_slashes-split (after_element (c ∷ cs)) in
          inr (
            take dir_siz (element (c ∷ cs)),
            skip_slashes (after_element (c ∷ cs)),
            skipelem-some path c cs e,
            record {
              before = ss;
              elem = element (c ∷ cs);
              between = between;
              parts =
                  split ∙ ap (λ r. ss ++ r) (e ∙ parts ∙ ap (λ r. element (c ∷ cs) ++ r) parts2);
              before_slashes = slashes;
              elem_some = element-some c cs (subst PastSlash e past);
              elem_no_slash = no_slash;
              name_cut = refl;
              between_slashes = between_slashes;
              rest_past = rest_past;
              parted = subst AtSlash parts2 at;
            },
          )
    ]

-- Every call that returns a rest has taken a character off the path.
pub skipelem-shorter :
    (path name rest : List ℕ) → skipelem path ≡ some (name, rest) → length rest < length path
skipelem-shorter path name rest e = elim (skipelem-Split path) [
  | inl (z, _) ↦ cc (z, e)
  | inr (name', rest', e', h) ↦
      let same : rest' ≡ rest =
        ap (λ p. p.1) (some-injective (name', rest') (name, rest) (sym e' ∙ e)) in
      subst (λ r. length r < length path) same
        (subst (λ p. length rest' < length p) (sym h.parts)
          (longer h.before h.elem h.between rest' h.elem_some))
]
  where
    longer : (a b c d : List ℕ) → b ≢ [] → length d < length (a ++ (b ++ (c ++ d)))
    longer a [] c d ne = absurd (ne refl)
    longer a (x ∷ b) c d ne =
        omega (
          arith,
          length-append a ((x ∷ b) ++ (c ++ d)),
          length-append b (c ++ d),
          length-append c d,
        )

namex_from-none :
    (fuel me ip : ℕ)
    → (path : List ℕ) → (parent : Bool) → (name : List ℕ) → (s : Fs) → skipelem path ≡ none
    → namex_from (suc fuel) me ip path parent name s
      ≡ (if parent then (iput me ip s >>= λ t. some (none, name, t)) else some (some ip, name, s))
unfolding namex_from
namex_from-none fuel me ip path parent name s e = rw (e, namex_from) refl

namex_from-some :
    (fuel me ip : ℕ)
    → (path elem rest : List ℕ) → (parent : Bool) → (name : List ℕ) → (s : Fs)
    → skipelem path ≡ some (elem, rest)
    → namex_from (suc fuel) me ip path parent name s
      ≡ one_element me ip parent elem rest (λ next. namex_from fuel me next rest parent elem) s
unfolding namex_from
namex_from-some fuel me ip path elem rest parent name s e = rw (e, namex_from) refl

namex_from-more :
    (fuel me ip : ℕ)
    → (path : List ℕ) → (parent : Bool) → (name : List ℕ) → (s : Fs) → length path < fuel
    → namex_from (suc fuel) me ip path parent name s ≡ namex_from fuel me ip path parent name s
namex_from-more zero me ip path parent name s lt = absurd (omega arith)
namex_from-more (suc fuel) me ip path parent name s lt = elim (Option-cases (skipelem path)) [
  | inl e ↦
      namex_from-none (suc fuel) me ip path parent name s e
      ∙ sym (namex_from-none fuel me ip path parent name s e)
  | inr ((elem, rest), e) ↦
      let shorter = skipelem-shorter path elem rest e in
      namex_from-some (suc fuel) me ip path elem rest parent name s e
      ∙ ap (λ k. one_element me ip parent elem rest k s)
          (fun_ext
            (λ next. fun_ext (λ u. namex_from-more fuel me next rest parent elem u (omega arith))))
      ∙ sym (namex_from-some fuel me ip path elem rest parent name s e)
]

-- The loop of namex never runs out of the rounds that it has, one for each character of the path and one
-- more: any number of further rounds gives the same result.
pub namex_from-enough :
    (extra me ip : ℕ)
    → (path : List ℕ) → (parent : Bool) → (name : List ℕ) → (s : Fs)
    → namex_from (suc (length path) + extra) me ip path parent name s
      ≡ namex_from (suc (length path)) me ip path parent name s
namex_from-enough zero me ip path parent name s =
    ap (λ k. namex_from k me ip path parent name s) (omega arith)
namex_from-enough (suc extra) me ip path parent name s =
    ap (λ k. namex_from k me ip path parent name s) (omega arith)
    ∙ namex_from-more (suc (length path) + extra) me ip path parent name s (omega arith)
    ∙ namex_from-enough extra me ip path parent name s
