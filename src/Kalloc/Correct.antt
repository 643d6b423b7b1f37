-- ===== src/Kalloc/Correct.antt =====
-- kernel/kalloc.c: `kfree` pushes, `kalloc` pops, `nfree` counts the bytes.
use mathlib.Core.Path.{subst}
use os_proc_lap02_system_cal.Prelude.{
  ℕ, zero, suc, ◌+◌, ◌*◌, ◌≤◌, ◌<◌, ◌≡◌, ◌↔◌, List, [], ◌∷◌, refl, sym, ap, ◌∙◌, arith, none, some,
  Bool-cases, inl, inr, true, false, length, update, All, NotIn, ◌==◌, ◌>>=◌,
}
use os_proc_lap02_system_cal.Layout.{pg_size, kern_base}
use os_proc_lap02_system_cal.Kalloc.{Kmem, is_bad_page, kfree, kalloc, count_from, nfree}
use os_proc_lap02_system_cal.Kalloc.FreeList.{
  Chain, IsPage, FreeList, Chain-update, length-le_pages,
}

pub is_bad_page-IsPage :
    (kernel_end pa : ℕ) → IsPage kernel_end pa → is_bad_page kernel_end pa ≡ false
is_bad_page-IsPage e pa h = ground arith

-- `kfree` panics exactly on an address that is not a page of the allocator.
pub kfree-eq-none :
    (kernel_end pa : ℕ) (s : Kmem) → (kfree kernel_end pa s ≡ none) ↔ ¬ IsPage kernel_end pa
unfolding kfree
kfree-eq-none e pa s = (
  λ h k. ground (arith, is_bad_page-IsPage e pa k),
  λ h. elim (Bool-cases (is_bad_page e pa)) [
    | inl bad ↦ rw bad
    | inr good ↦
        absurd (h (record { aligned = ground arith; above = ground arith; below = ground arith }))
  ],
)

-- Freeing a page that is not free puts it in front of the free list, and keeps the list well formed.
pub kfree-push :
    (kernel_end pa : ℕ) (s : Kmem) (ps : List ℕ)
    → FreeList kernel_end s ps
    → IsPage kernel_end pa
    → NotIn pa ps
    → (s' : Kmem) × (kfree kernel_end pa s ≡ some s') × FreeList kernel_end s' (pa ∷ ps)
unfolding kfree
kfree-push e pa s ps f page fresh = (
  record { freelist = pa; next = update s.next pa s.freelist },
  rw (is_bad_page-IsPage e pa page),
  record {
    chain = (
      refl,
      let h : update s.next pa s.freelist pa ≡ s.freelist = ground arith in
          subst (λ r. Chain (update s.next pa s.freelist) r ps) (sym h)
            (Chain-update s.next s.freelist pa s.freelist ps fresh f.chain),
    );
    pages = (page, f.pages);
    distinct = (fresh, f.distinct);
  },
)

-- `kalloc` takes the first page of the free list, which is then no longer free.
pub kalloc-pop :
    (kernel_end p : ℕ) (s : Kmem) (ps : List ℕ)
    → 0 < kernel_end
    → FreeList kernel_end s (p ∷ ps)
    → ((kalloc s).0 ≡ p) × FreeList kernel_end (kalloc s).1 ps × NotIn p ps
unfolding kalloc
kalloc-pop e p s ps pos f =
    let ne : (s.freelist == 0) ≡ false = ground (arith, f.pages.0.above, f.chain.0) in
    rw ne (
      f.chain.0,
      record {
        chain = subst (λ q. Chain s.next (s.next q) ps) (sym f.chain.0) f.chain.1;
        pages = f.pages.1;
        distinct = f.distinct.1;
      },
      f.distinct.0,
    )

-- `kalloc` returns 0 exactly when no page is free, and then changes nothing.
pub kalloc-eq-zero :
    (kernel_end : ℕ) (s : Kmem) (ps : List ℕ)
    → 0 < kernel_end
    → FreeList kernel_end s ps
    → (((kalloc s).0 ≡ 0) ↔ (ps ≡ [])) × (ps ≡ [] → (kalloc s).1 ≡ s)
unfolding kalloc
kalloc-eq-zero e s [] pos f =
    (((λ h. refl), (λ h. ground (arith, f.chain))), λ h. ground (arith, f.chain))
kalloc-eq-zero e s (p ∷ ps) pos f =
    let ne : (s.freelist == 0) ≡ false = ground (arith, f.pages.0.above, f.chain.0) in
    rw ne (((λ h. absurd (omega (arith, f.pages.0.above, f.chain.0))), (λ h. cc)), λ h. cc)

count_from_lem :
    (kernel_end fuel : ℕ) (next : ℕ → ℕ) (r count : ℕ) (ps : List ℕ)
    → 0 < kernel_end
    → All (IsPage kernel_end) ps
    → Chain next r ps
    → length ps < fuel
    → count_from fuel next r count ≡ some (count + length ps)
unfolding count_from
count_from_lem e zero next r count ps pos pages c h = absurd (omega arith)
count_from_lem e (suc fuel) next r count [] pos pages c h =
    let ez : (r == 0) ≡ true = ground arith in rw (ez, count_from) (ground arith)
count_from_lem e (suc fuel) next r count (p ∷ ps) pos pages c h =
    let ne : (r == 0) ≡ false = ground (arith, pages.0.above, c.0) in
    rw (ne, count_from)
      (subst (λ q. count_from fuel next (next q) (count + 1) ≡ some (count + length (p ∷ ps)))
        (sym c.0)
        (count_from_lem e fuel next (next p) (count + 1) ps pos pages.1 c.1 (omega arith)
          ∙ ap some (omega arith)))

-- `nfree` counts every free page: with more fuel than RAM has pages its loop ends, and the result is
-- the size in bytes of the free list's pages, which the `int` product does not overflow.
pub nfree_lem :
    (kernel_end fuel : ℕ) (s : Kmem) (ps : List ℕ)
    → kern_base ≤ kernel_end
    → FreeList kernel_end s ps
    → 32768 < fuel
    → nfree fuel s ≡ some (length ps * pg_size)
unfolding nfree
nfree_lem e fuel s ps k f h =
    let few = length-le_pages e s ps k f in
    rw (count_from_lem e fuel s.next s.freelist 0 ps (omega arith) f.pages f.chain (omega arith))
      (ground (arith, few))

count_from_cycle :
    (fuel : ℕ) (next : ℕ → ℕ) (r count : ℕ)
    → 0 < r
    → next r ≡ r
    → count_from fuel next r count ≡ none
unfolding count_from
count_from_cycle zero next r count pos c = refl
count_from_cycle (suc fuel) next r count pos c =
    let ne : (r == 0) ≡ false = ground arith in
    rw (ne, count_from)
      (subst (λ q. count_from fuel next q (count + 1) ≡ none) (sym c)
        (count_from_cycle fuel next r (count + 1) pos c))

-- Freeing the same page twice ties the free list into a ring: `kalloc` hands the page out again and
-- again, and the loop of `nfree` ends with no amount of fuel.
pub double_free :
    (kernel_end pa : ℕ) (s : Kmem)
    → 0 < kernel_end
    → IsPage kernel_end pa
    → (t : Kmem) × ((kfree kernel_end pa s >>= kfree kernel_end pa) ≡ some t)
      × (kalloc t ≡ (pa, t))
      × ((fuel : ℕ) → nfree fuel t ≡ none)
unfolding kfree kalloc nfree
double_free e pa s pos page =
    let good = is_bad_page-IsPage e pa page in
    (
      record { freelist = pa; next = update (update s.next pa s.freelist) pa pa },
      rw good (rw good),
      ground (arith, page.above),
      λ fuel. rw (
          count_from_cycle fuel (update (update s.next pa s.freelist) pa pa) pa 0
            (omega (arith, page.above)) (ground arith)),
    )
