-- ===== src/Fs/Table.antt =====
-- iget: one entry of the table for each inode in use.
use mathlib.Core.Path.{subst}
use os_proc_lap02_system_cal.Prelude.{
  ℕ, zero, suc, ◌+◌, ◌%◌, ◌^◌, ◌<◌, ◌≡◌, ◌≢◌, inl, inr, refl, sym, ap, ◌∙◌, Bool, true, false, ◌&&◌,
  Option, none, some, arith, ℕ_discrete, ◌==◌, Bool-cases, update_self, update_ne, Ensures,
}
use os_proc_lap02_system_cal.Fs.{Fs, Inode, n_inode}
use os_proc_lap02_system_cal.Fs.Inodes.{set_inode, positive, recycled, remember, iget_from, iget}

-- The entry is in use for inode `inum`.
abbrev pub is_for : ℕ → ℕ → Inode → Bool
is_for dev inum ip = positive ip.ref && (ip.dev == dev && ip.inum == inum)

abbrev pub one_more : Inode → Inode
one_more ip = record ip { ref = (ip.ref + 1) % 2 ^ 32 }

-- What iget does: a further reference to the entry of the inode, which is the first; or a free entry, where
-- there is none of the inode; or a panic, where there is neither.
pub data Got (dev inum : ℕ) (s : Fs) : Option (ℕ × Fs) → Type 0 where
  hit :
      (i : ℕ)
      → i < n_inode
      → is_for dev inum (s.itable i) ≡ true
      → Got dev inum s (some (i, set_inode i (one_more (s.itable i)) s))
  miss :
      (e : ℕ)
      → e < n_inode
      → (s.itable e).ref ≡ 0
      → ((j : ℕ) → j < n_inode → is_for dev inum (s.itable j) ≡ false)
      → Got dev inum s (some (e, set_inode e (recycled dev inum (s.itable e)) s))
  full :
      ((j : ℕ) → j < n_inode → ((s.itable j).ref ≢ 0) × (is_for dev inum (s.itable j) ≡ false))
      → Got dev inum s none

-- What the loop remembers of the entries before `i`.
Remembered : Option ℕ → ℕ → Fs → Type 0
Remembered none i s = (j : ℕ) → j < i → (s.itable j).ref ≢ 0
Remembered (some e) i s = (e < i) × ((s.itable e).ref ≡ 0)

Remembered-next :
    (o : Option ℕ)
    → (i : ℕ) → (s : Fs) → Remembered o i s
    → Remembered (remember o i (s.itable i).ref) (i + 1) s
unfolding Remembered
Remembered-next (some e) i s h = (omega (arith, h.0), h.1)
Remembered-next none i s h = elim (ℕ_discrete (s.itable i).ref 0) [
  | yes z ↦ let t : ((s.itable i).ref == 0) ≡ true = ground arith in rw t (omega arith, z)
  | no ne ↦
      let t : ((s.itable i).ref == 0) ≡ false = ground arith in
      rw t (λ j lt. elim (ℕ_discrete j i) [
        | yes e ↦ subst (λ k. (s.itable k).ref ≢ 0) (sym e) ne
        | no other ↦ h j (omega arith)
      ])
]

iget_from-hit :
    (left i : ℕ)
    → (o : Option ℕ) → (dev inum : ℕ) → (s : Fs) → is_for dev inum (s.itable i) ≡ true
    → iget_from (suc left) i o dev inum s ≡ some (i, set_inode i (one_more (s.itable i)) s)
unfolding iget_from
iget_from-hit left i o dev inum s e = rw (e, iget_from) refl

iget_from-next :
    (left i : ℕ)
    → (o : Option ℕ) → (dev inum : ℕ) → (s : Fs) → is_for dev inum (s.itable i) ≡ false
    → iget_from (suc left) i o dev inum s
      ≡ iget_from left (i + 1) (remember o i (s.itable i).ref) dev inum s
unfolding iget_from
iget_from-next left i o dev inum s e = rw (e, iget_from) refl

iget_from-Got :
    (left i : ℕ)
    → (o : Option ℕ) → (dev inum : ℕ) → (s : Fs) → i + left ≡ n_inode
    → ((j : ℕ) → j < i → is_for dev inum (s.itable j) ≡ false)
    → Remembered o i s
    → Got dev inum s (iget_from left i o dev inum s)
unfolding iget_from Remembered
iget_from-Got zero i none dev inum s all absent h =
    full (λ j lt. (h j (omega arith), absent j (omega arith)))
iget_from-Got zero i (some e) dev inum s all absent h =
    miss e (omega (arith, h.0)) h.1 (λ j lt. absent j (omega arith))
iget_from-Got (suc left) i o dev inum s all absent h =
    elim (Bool-cases (is_for dev inum (s.itable i))) [
      | inl e ↦
          subst (Got dev inum s) (sym (iget_from-hit left i o dev inum s e)) (hit i (omega arith) e)
      | inr e ↦ subst (Got dev inum s) (sym (iget_from-next left i o dev inum s e)) (
          iget_from-Got left (i + 1) (remember o i (s.itable i).ref) dev inum s (omega arith)
            (λ j lt. elim (ℕ_discrete j i) [
              | yes z ↦ subst (λ k. is_for dev inum (s.itable k) ≡ false) (sym z) e
              | no other ↦ absent j (omega arith)
            ])
            (Remembered-next o i s h))
    ]

-- iget panics only where every entry is in use and none for the inode; else it gives the entry of
-- the inode one more reference, or makes a free entry the inode's where no entry is, and changes nothing else.
pub iget-Got : (dev inum : ℕ) → (s : Fs) → Got dev inum s (iget dev inum s)
unfolding iget Remembered
iget-Got dev inum s =
    iget_from-Got n_inode 0 none dev inum s refl (λ j lt. absurd (omega arith))
      (λ j lt. absurd (omega arith))

-- No two entries in use are for one inode.
abbrev pub OneEach : Fs → Type 0
OneEach s =
    (i j : ℕ)
    → i < n_inode
    → j < n_inode
    → (s.itable i).ref ≢ 0
    → (s.itable j).ref ≢ 0
    → (s.itable i).dev ≡ (s.itable j).dev
    → (s.itable i).inum ≡ (s.itable j).inum
    → i ≡ j

-- References are far from an overflow.
abbrev pub Few : Fs → Type 0
Few s = (i : ℕ) → i < n_inode → (s.itable i).ref + 1 < 2 ^ 31

is_for-parts :
    (dev inum : ℕ)
    → (ip : Inode) → is_for dev inum ip ≡ true
    → (ip.ref ≢ 0) × (ip.dev ≡ dev) × (ip.inum ≡ inum)
is_for-parts dev inum ip e = (ground arith, ground arith, ground arith)

is_for-not :
    (dev inum : ℕ)
    → (ip : Inode) → is_for dev inum ip ≡ false
    → ip.ref ≢ 0
    → ip.ref + 1 < 2 ^ 31
    → ip.dev ≡ dev
    → ip.inum ≡ inum
    → ⊥
is_for-not dev inum ip e nz few d n = ground arith

-- A store to an entry keeps OneEach where the new entry is for the old one's inode, or for one that no
-- other entry is for.
OneEach-set :
    (s : Fs)
    → (e : ℕ) → (ip : Inode) → OneEach s
    → ((j : ℕ)
        → j < n_inode
        → e ≢ j
        → (s.itable j).ref ≢ 0
        → ip.dev ≡ (s.itable j).dev
        → ip.inum ≡ (s.itable j).inum
        → ⊥)
    → OneEach (set_inode e ip s)
OneEach-set s e ip one fresh i j hi hj = elim (ℕ_discrete e i) [
  | yes ei ↦ elim (ℕ_discrete e j) [
    | yes ej ↦ λ ri rj d n. sym ei ∙ ej
    | no nj ↦ rw (sym ei) (
        rw (update_self s.itable e ip, update_ne s.itable e j ip nj)
          (λ ri rj d n. absurd (fresh j hj nj rj d n)))
  ]
  | no ni ↦ elim (ℕ_discrete e j) [
    | yes ej ↦ rw (sym ej) (
        rw (update_self s.itable e ip, update_ne s.itable e i ip ni)
          (λ ri rj d n. absurd (fresh i hi ni ri (sym d) (sym n))))
    | no nj ↦ rw (update_ne s.itable e i ip ni, update_ne s.itable e j ip nj) (one i j hi hj)
  ]
]

Got-OneEach :
    (dev inum : ℕ)
    → (s : Fs) → OneEach s
    → Few s
    → (r : Option (ℕ × Fs)) → Got dev inum s r
    → Ensures
        (λ p.
          (p.0 < n_inode)
          × OneEach p.1
          × ((p.1.itable p.0).dev ≡ dev)
          × ((p.1.itable p.0).inum ≡ inum)
          × ((p.1.itable p.0).ref ≢ 0))
        r
Got-OneEach dev inum s one few _ (full h) = tt
Got-OneEach dev inum s one few _ (hit i lt e) =
    let (nz, d, n) = is_for-parts dev inum (s.itable i) e in
    let at = update_self s.itable i (one_more (s.itable i)) in
    (
      lt,
      OneEach-set s i (one_more (s.itable i)) one
          (λ j hj ne rj dj nj. ne (one i j lt hj nz rj dj nj)),
      ap (λ ip. ip.dev) at ∙ d,
      ap (λ ip. ip.inum) at ∙ n,
      λ z. omega (arith, few i lt, sym (ap (λ ip. ip.ref) at) ∙ z),
    )
Got-OneEach dev inum s one few _ (miss e lt z absent) =
    let at = update_self s.itable e (recycled dev inum (s.itable e)) in
    (
      lt,
      OneEach-set s e (recycled dev inum (s.itable e)) one (λ j hj ne rj dj nj.
          is_for-not dev inum (s.itable j) (absent j hj) rj (few j hj) (sym dj) (sym nj)),
      ap (λ ip. ip.dev) at,
      ap (λ ip. ip.inum) at,
      λ y. omega (arith, sym (ap (λ ip. ip.ref) at) ∙ y),
    )

-- Where no two entries in use are for one inode, and no entry has 2^31 - 1 references, iget that does
-- not panic keeps it so, and what it returns is in use for the inode.
pub iget-OneEach :
    (dev inum : ℕ)
    → (s : Fs) → OneEach s
    → Few s
    → Ensures
        (λ p.
          (p.0 < n_inode)
          × OneEach p.1
          × ((p.1.itable p.0).dev ≡ dev)
          × ((p.1.itable p.0).inum ≡ inum)
          × ((p.1.itable p.0).ref ≢ 0))
        (iget dev inum s)
iget-OneEach dev inum s one few =
    Got-OneEach dev inum s one few (iget dev inum s) (iget-Got dev inum s)
