-- ===== src/Kalloc/Examples.antt =====
-- The allocator at concrete pages.
use os_proc_lap02_system_cal.Prelude.{ℕ, ◌-◌, ◌≡◌, [], ◌∷◌, refl, arith, some, update}
use os_proc_lap02_system_cal.Kalloc.{Kmem, kfree, nfree, kinit, freerange, free_from, count_from}
use os_proc_lap02_system_cal.Kalloc.FreeList.{IsPage, FreeList}
use os_proc_lap02_system_cal.Kalloc.Correct.{kfree-push, nfree_lem}

abbrev image_end : ℕ
image_end = 0x8002_1a30

abbrev page_a : ℕ
page_a = 0x87ff_e000

abbrev page_b : ℕ
page_b = 0x87ff_f000

abbrev one_free : Kmem
one_free = record { freelist = page_a; next = λ _. 0 }

abbrev two_free : Kmem
two_free = record { freelist = page_b; next = update (λ _. 0) page_b page_a }

one_free-FreeList : FreeList image_end one_free (page_a ∷ [])
one_free-FreeList = record {
  chain = (refl, refl);
  pages = (record { aligned = refl; above = omega arith; below = omega arith }, tt);
  distinct = (tt, tt);
}

page_b-IsPage : IsPage image_end page_b
page_b-IsPage = record { aligned = refl; above = omega arith; below = omega arith }

two_free-FreeList : FreeList image_end two_free (page_b ∷ page_a ∷ [])
two_free-FreeList = record {
  chain = (refl, (refl, refl));
  pages =
      (page_b-IsPage, (record { aligned = refl; above = omega arith; below = omega arith }, tt));
  distinct = ((omega arith, tt), (tt, tt));
}

kfree-push_example :
    (s : Kmem) × (kfree image_end page_b one_free ≡ some s)
    × FreeList image_end s (page_b ∷ page_a ∷ [])
kfree-push_example =
    kfree-push image_end page_b one_free (page_a ∷ []) one_free-FreeList page_b-IsPage
      (omega arith, tt)

nfree_lem_example : nfree 32769 two_free ≡ some 8192
nfree_lem_example =
    nfree_lem image_end 32769 two_free (page_b ∷ page_a ∷ []) (omega arith) two_free-FreeList
      (omega arith)

-- With room for two pages above the image, `kinit` frees both, the higher one last.
boot_two_pages :
    kinit 9 (page_a - 12) (λ _. 7)
    ≡ some (
        some (record { freelist = page_b; next = update (update (λ _. 7) page_a 0) page_b page_a }))
unfolding kinit freerange free_from kfree
boot_two_pages = refl

nfree_two_pages : nfree 9 two_free ≡ some 8192
unfolding nfree count_from
nfree_two_pages = refl
