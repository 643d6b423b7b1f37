-- ===== src/Kalloc/Boot.antt =====
-- kernel/kalloc.c: `kinit` makes every page between the kernel's image and the end of RAM free.
use os_proc_lap02_system_cal.Prelude.{
  ℕ, zero, suc, ◌+◌, ◌-◌, ◌/◌, ◌%◌, ◌≤◌, ◌<◌, ◌≡◌, ◌⊎◌, List, [], ◌∷◌, refl, ◌∙◌, arith, Option,
  some, Bool-cases, ℕ_discrete, inl, inr, length, All, In, All-map, leb,
}
use os_proc_lap02_system_cal.Layout.{pg_size, kern_base, phys_top, pg_round_up}
use os_proc_lap02_system_cal.Kalloc.{Kmem, free_from, freerange, kinit}
use os_proc_lap02_system_cal.Kalloc.FreeList.{IsPage, FreeList}
use os_proc_lap02_system_cal.Kalloc.Correct.{kfree-push}

-- What `free_from` leaves, started at `p` with the pages `ps` free.
record Freed (kernel_end p : ℕ) (ps : List ℕ) (out : Option (Option Kmem)) : Type 0 where
  last : Kmem
  free : List ℕ
  result : out ≡ some (some last)
  list : FreeList kernel_end last free
  whole : length free ≡ length ps + (phys_top - p) / pg_size
  every : (q : ℕ) → IsPage kernel_end q → (p ≤ q) ⊎ In q ps → In q free

-- The pages from `p` on are `p` and those from the next page on.
next_page :
    (kernel_end p q : ℕ) (ps : List ℕ)
    → p % pg_size ≡ 0
    → IsPage kernel_end q
    → (p ≤ q) ⊎ In q ps
    → (p + pg_size ≤ q) ⊎ In q (p ∷ ps)
next_page e p q ps a good (inl h) = elim (ℕ_discrete q p) [
  | yes same ↦ inr (inl same)
  | no other ↦ inl (omega (arith, good.aligned))
]
next_page e p q ps a good (inr h) = inr (inr h)

no_page :
    (kernel_end p q : ℕ) (ps : List ℕ)
    → p % pg_size ≡ 0
    → phys_top < p + pg_size
    → IsPage kernel_end q
    → (p ≤ q) ⊎ In q ps
    → In q ps
no_page e p q ps a top good (inl h) = absurd (omega (arith, good.below, good.aligned))
no_page e p q ps a top good (inr h) = h

free_from-Freed :
    (fuel kernel_end p : ℕ) (s : Kmem) (ps : List ℕ)
    → (phys_top - p) / pg_size < fuel
    → p % pg_size ≡ 0
    → kernel_end ≤ p
    → p ≤ phys_top
    → FreeList kernel_end s ps
    → All (λ q. q < p) ps
    → Freed kernel_end p ps (free_from fuel kernel_end p phys_top s)
unfolding free_from
free_from-Freed zero e p s ps h a k b f below = absurd (omega arith)
free_from-Freed (suc fuel) e p s ps h a k b f below =
    elim (Bool-cases (leb (p + pg_size) phys_top)) [
      | inl more ↦
          let lt : p + pg_size ≤ phys_top = ground arith in
          let page : IsPage e p = record { aligned = a; above = k; below = omega arith } in
          let (t, freed, list) =
            kfree-push e p s ps f page (All-map ps (λ q m. omega arith) below) in
          let rest =
            free_from-Freed fuel e (p + pg_size) t (p ∷ ps) (omega arith) (omega arith)
              (omega arith) lt list (omega arith, All-map ps (λ q m. omega arith) below) in
          rw (more, free_from, freed)
            (record {
              last = rest.last;
              free = rest.free;
              result = rest.result;
              list = rest.list;
              whole = omega (arith, rest.whole);
              every = λ q good h. rest.every q good (next_page e p q ps a good h);
            })
      | inr done ↦
          rw (done, free_from)
            (record {
              last = s;
              free = ps;
              result = refl;
              list = f;
              whole = ground arith;
              every = λ q good. no_page e p q ps a (ground arith) good;
            })
    ]

-- At boot `kinit` frees every page above the kernel's image and no other: with fuel for the pages of
-- RAM it ends without a panic, the free list is well formed, each page that `kfree` accepts is on
-- it, and it has as many pages as fit between `PGROUNDUP(end)` and the end of RAM.
pub kinit_lem :
    (fuel kernel_end : ℕ) (memory : ℕ → ℕ)
    → kern_base ≤ kernel_end
    → kernel_end ≤ phys_top
    → 32768 < fuel
    → (s : Kmem) × (ps : List ℕ) × (kinit fuel kernel_end memory ≡ some (some s))
      × FreeList kernel_end s ps
      × ((q : ℕ) → IsPage kernel_end q → In q ps)
      × (length ps ≡ (phys_top - pg_round_up kernel_end) / pg_size)
unfolding kinit freerange
kinit_lem fuel e memory lo hi h =
    let empty : Kmem = record { freelist = 0; next = memory } in
    let r =
      free_from-Freed fuel e (pg_round_up e) empty [] (omega arith) (omega arith) (omega arith)
        (omega arith) (record { chain = refl; pages = tt; distinct = tt }) tt in
    (
      r.last,
      r.free,
      r.result,
      r.list,
      λ q good. r.every q good (inl (omega (arith, good.aligned, good.above))),
      r.whole ∙ omega arith,
    )
