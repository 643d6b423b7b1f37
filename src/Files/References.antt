-- ===== src/Files/References.antt =====
-- The reference counts of kernel/file.c.
use mathlib.Core.Path.{subst}
use mathlib.Core.Option.{some-injective}
use os_proc_lap02_system_cal.Prelude.{
  ℕ, zero, suc, ◌+◌, ◌-◌, ◌≤◌, ◌<◌, ◌≡◌, ◌≢◌, ◌⊎◌, inl, inr, refl, sym, ap, ◌∙◌, fun_ext, true,
  false, none, some, arith, ℕ_discrete, ltb, ◌==◌, Bool-cases, update_self,
}
use os_proc_lap02_system_cal.Layout.{n_file}
use os_proc_lap02_system_cal.Files.{
  File, Under, Ftable, put_file, alloc_from, filealloc, filedup, fileclose,
}

alloc_from-first :
    {S : Type 0}
    → (k i : ℕ) → (t : Ftable S)
    → ((alloc_from k i t ≡ (none, t)) × ((j : ℕ) → i ≤ j → j < i + k → (t.files j).ref ≢ 0))
      ⊎ ((f : ℕ) × (i ≤ f)
          × (f < i + k)
          × ((t.files f).ref ≡ 0)
          × ((j : ℕ) → i ≤ j → j < f → (t.files j).ref ≢ 0)
          × (alloc_from k i t ≡ (some f, put_file f (record (t.files f) { ref = 1 }) t)))
unfolding alloc_from
alloc_from-first zero i t = inl (refl, λ j le lt. absurd (omega arith))
alloc_from-first (suc k) i t = elim (Bool-cases ((t.files i).ref == 0)) [
  | inl free ↦ inr (
    i,
    omega arith,
    omega arith,
    ground arith,
    (λ j le lt. absurd (omega arith)),
    rw (free, alloc_from),
  )
  | inr used ↦
      let ne : (t.files i).ref ≢ 0 = λ z. ground arith in
      elim (alloc_from-first k (i + 1) t) [
        | inl (e, full) ↦ inl (
          rw (used, alloc_from) e,
          λ j le lt. elim (ℕ_discrete j i) [
            | yes same ↦ subst (λ l. (t.files l).ref ≢ 0) (sym same) ne
            | no other ↦ full j (omega arith) (omega arith)
          ],
        )
        | inr (f, le, lt, free, before, e) ↦ inr (
          f,
          omega arith,
          omega arith,
          free,
          (λ j lo hi. elim (ℕ_discrete j i) [
            | yes same ↦ subst (λ l. (t.files l).ref ≢ 0) (sym same) ne
            | no other ↦ before j (omega arith) hi
          ]),
          rw (used, alloc_from) e,
        )
      ]
]

-- filealloc takes the first of the NFILE entries that has no reference and gives it one; where all have
-- references it returns 0 and changes nothing.
pub filealloc_lem :
    {S : Type 0}
    → (t : Ftable S)
    → ((filealloc t ≡ (none, t)) × ((j : ℕ) → j < n_file → (t.files j).ref ≢ 0))
      ⊎ ((f : ℕ) × (f < n_file)
          × ((t.files f).ref ≡ 0)
          × ((j : ℕ) → j < f → (t.files j).ref ≢ 0)
          × (filealloc t ≡ (some f, put_file f (record (t.files f) { ref = 1 }) t)))
unfolding filealloc
filealloc_lem t = elim (alloc_from-first n_file 0 t) [
  | inl (e, full) ↦ inl (e, λ j lt. full j (omega arith) (omega arith))
  | inr (f, le, lt, free, before, e) ↦
      inr (f, omega arith, free, (λ j hi. before j (omega arith) hi), e)
]

put-same :
    {S : Type 0}
    → (t : Ftable S) → (f : ℕ) → (x : File) → put_file f (t.files f) (put_file f x t) ≡ t
put-same t f x =
    ap (λ g. record t { files = g })
      (fun_ext (λ j. elim (Bool-cases (f == j)) [
        | inl e ↦ let same : f ≡ j = ground arith in rw e (ap t.files same)
        | inr e ↦ rw e
      ]))

close-more :
    (u : Under)
    → (f : ℕ) → (t : Ftable u.S) → (y : File) → 1 < y.ref
    → t.files f ≡ y
    → fileclose u f t ≡ some (put_file f (record y { ref = y.ref - 1 }) t)
unfolding fileclose
close-more u f t y lt e =
    let a : ltb y.ref 1 ≡ false = ground arith in
    let b : ltb 0 (y.ref - 1) ≡ true = ground arith in rw (e, a, b, fileclose)

dup_none :
    {S : Type 0} → (f : ℕ) → (t : Ftable S) → ltb (t.files f).ref 1 ≡ true → filedup f t ≡ none
unfolding filedup
dup_none f t low = rw (low, filedup)

dup_some :
    {S : Type 0}
    → (f : ℕ) → (t : Ftable S) → ltb (t.files f).ref 1 ≡ false
    → filedup f t ≡ some (put_file f (record (t.files f) { ref = (t.files f).ref + 1 }) t)
unfolding filedup
dup_some f t ok = rw (ok, filedup)

filedup-some :
    {S : Type 0}
    → (f : ℕ) → (t t1 : Ftable S) → filedup f t ≡ some t1
    → (0 < (t.files f).ref) × (t1 ≡ put_file f (record (t.files f) { ref = (t.files f).ref + 1 }) t)
unfolding filedup
filedup-some f t t1 e = elim (Bool-cases (ltb (t.files f).ref 1)) [
  | inl low ↦ cc (dup_none f t low, e)
  | inr ok ↦ (ground arith, sym (some-injective _ _ (sym (dup_some f t ok) ∙ e)))
]

-- To close a file that has just been duplicated restores the table and calls nothing.
pub filedup-fileclose :
    (u : Under)
    → (f : ℕ) → (t : Ftable u.S) → (t1 : Ftable u.S) → filedup f t ≡ some t1
    → fileclose u f t1 ≡ some t
filedup-fileclose u f t t1 e =
    let x = t.files f in
    let y : File = record x { ref = x.ref + 1 } in
    let (pos, made) = filedup-some f t t1 e in
    let self : t1.files f ≡ y = ap (λ s. s.files f) made ∙ update_self t.files f y in
    let back : x.ref + 1 - 1 ≡ x.ref = omega arith in
    let restored : put_file f (record y { ref = y.ref - 1 }) t1 ≡ t =
      ap (λ n. put_file f (record y { ref = n }) t1) back
      ∙ ap (λ s. put_file f x s) made
      ∙ put-same t f y in
    close-more u f t1 y (omega arith) self ∙ ap some restored
