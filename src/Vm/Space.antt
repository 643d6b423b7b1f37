-- ===== src/Vm/Space.antt =====
-- kernel/vm.c: user address spaces that grow, shrink and are copied or freed.
use os_proc_lap02_system_cal.Prelude.{
  ℕ, zero, suc, ◌+◌, ◌-◌, ◌*◌, ◌/◌, ◌%◌, Bool, true, false, not, ◌&&◌, ◌||◌, Option, none, some,
  List, ltb, leb, ◌==◌, if◌then◌else◌, length, get_or, ◌>>=◌,
}
use os_proc_lap02_system_cal.Layout.{pg_size, pg_round_up, pte_r, pte_w, pte_x, pte_u}
use os_proc_lap02_system_cal.Kalloc
use os_proc_lap02_system_cal.Vm.{
  Phys, pte2pa, pte_flags, is_v, is_r, is_w, is_x, is_u, zero_page, with_kmem, set_pte, walk,
  mappages,
}

-- Bytes from a list, at a physical address.
abbrev pub put_bytes : ℕ → List ℕ → (ℕ → ℕ) → ℕ → ℕ
put_bytes at bs m a = if leb at a && ltb a (at + length bs) then get_or bs (a - at) 0 else m a

-- `memmove` of a page between addresses of the kernel's direct map.
abbrev pub copy_page : ℕ → ℕ → Phys → Phys
copy_page dst src m = record m {
  bytes = λ a. if leb dst a && ltb a (dst + pg_size) then m.bytes (src + (a - dst)) else m.bytes a;
}

unfoldable pub uvmcreate : Phys → ℕ × Phys
uvmcreate m =
    let (page, k) = Kalloc.kalloc m.kmem in
    if page == 0 then (0, with_kmem m k) else (page, zero_page page (with_kmem m k))

-- `*pte &= ~PTE_U`
unfoldable pub uvmclear : ℕ → ℕ → Phys → Option Phys
uvmclear pt va m = walk pt va false m >>= λ (at, _).
    if at == 0
    then none
    else some (set_pte at (if is_u (m.words at) then m.words at - 16 else m.words at) m)

-- `uvmfirst` does not test what kalloc and mappages return.
unfoldable pub uvmfirst : ℕ → List ℕ → Phys → Option Phys
uvmfirst pt src m =
    if leb pg_size (length src)
    then none
    else let (page, free) = Kalloc.kalloc m.kmem in
      (mappages pt 0 pg_size page (pte_w + pte_r + pte_x + pte_u)
          (zero_page page (with_kmem m free))
        >>= λ (_, m1). some (record m1 { bytes = put_bytes page src m1.bytes }))

-- `kernel_end` is the linker's symbol `end`, which free_page tests.
module _ (kernel_end : ℕ) where
  unfoldable pub free_page : ℕ → Phys → Option Phys
  free_page pa m = Kalloc.kfree kernel_end pa m.kmem >>= λ k. some (with_kmem m k)

  -- The loop of `uvmunmap` with `n` pages left.
  unfoldable pub unmap_from : ℕ → ℕ → ℕ → Bool → Phys → Option Phys
  unfolding free_page
  unmap_from zero pt a do_free m = some m
  unmap_from (suc n) pt a do_free m = walk pt a false m >>= λ (at, _). elim (at == 0) [
    | true ↦ none
    | false ↦ elim (not (is_v (m.words at)) || pte_flags (m.words at) == 1) [
      | true ↦ none
      | false ↦ (if do_free then free_page (pte2pa (m.words at)) m else some m) >>= λ m1.
          unmap_from n pt (a + pg_size) do_free (set_pte at 0 m1)
    ]
  ]

  unfoldable pub uvmunmap : ℕ → ℕ → ℕ → Bool → Phys → Option Phys
  uvmunmap pt va npages do_free m =
      if not (va % pg_size == 0) then none else unmap_from npages pt va do_free m

  unfoldable pub uvmdealloc : ℕ → ℕ → ℕ → Phys → Option (ℕ × Phys)
  uvmdealloc pt oldsz newsz m =
      if leb oldsz newsz
      then some (oldsz, m)
      else if ltb (pg_round_up newsz) (pg_round_up oldsz)
      then (uvmunmap pt (pg_round_up newsz) ((pg_round_up oldsz - pg_round_up newsz) / pg_size) true
            m
          >>= λ m1. some (newsz, m1))
      else some (newsz, m)

  -- The loop of `uvmalloc` from `a` on; LAB_SYSCALL is defined, so the page is not cleared. It runs as
  -- often as there are pages from `a` to `newsz`, which are `k`.
  unfoldable pub grow_from : ℕ → ℕ → ℕ → ℕ → ℕ → ℕ → Phys → Option (ℕ × Phys)
  unfolding free_page uvmdealloc
  grow_from zero pt oldsz newsz xperm a m = some (newsz, m)
  grow_from (suc k) pt oldsz newsz xperm a m =
      let (page, free) = Kalloc.kalloc m.kmem in
      elim (page == 0) [
        | true ↦ uvmdealloc pt a oldsz (with_kmem m free) >>= λ (_, m1). some (0, m1)
        | false ↦
            mappages pt a pg_size page (pte_r + pte_u + xperm) (with_kmem m free) >>= λ (ok, m1).
            elim ok [
              | false ↦
                  free_page page m1 >>= λ m2. uvmdealloc pt a oldsz m2 >>= λ (_, m3). some (0, m3)
              | true ↦ grow_from k pt oldsz newsz xperm (a + pg_size) m1
            ]
      ]

  unfoldable pub uvmalloc : ℕ → ℕ → ℕ → ℕ → Phys → Option (ℕ × Phys)
  uvmalloc pt oldsz newsz xperm m =
      if ltb newsz oldsz
      then some (oldsz, m)
      else let a = pg_round_up oldsz in
        grow_from ((newsz + pg_size - 1 - a) / pg_size) pt a newsz xperm a m

  -- The loop of `freewalk` over the entries from `i` on, `n` of them left; `free_child` frees the
  -- table of the next level.
  unfoldable pub free_entries :
      (ℕ → Phys → Option (Option Phys)) → ℕ → ℕ → ℕ → Phys → Option (Option Phys)
  free_entries free_child zero i pt m = some (some m)
  free_entries free_child (suc n) i pt m =
      let at = pt + 8 * i in
      let pte = m.words at in
      elim (is_v pte) [
        | false ↦ free_entries free_child n (i + 1) pt m
        | true ↦ elim (is_r pte || is_w pte || is_x pte) [
          | true ↦ none
          | false ↦ free_child (pte2pa pte) m >>= λ o. elim o [
            | none ↦ some none
            | some m1 ↦ free_entries free_child n (i + 1) pt (set_pte at 0 m1)
          ]
        ]
      ]

  -- `freewalk` through at most `depth` levels: `some none` where there are more.
  unfoldable pub freewalk : ℕ → ℕ → Phys → Option (Option Phys)
  unfolding free_entries free_page
  freewalk zero pt m = some none
  freewalk (suc depth) pt m = free_entries (freewalk depth) 512 0 pt m >>= λ o. elim o [
    | none ↦ some none
    | some m1 ↦ free_page pt m1 >>= λ m2. some (some m2)
  ]

  unfoldable pub uvmfree : ℕ → ℕ → Phys → Option (Option Phys)
  uvmfree pt sz m =
      (if ltb 0 sz then uvmunmap pt 0 (pg_round_up sz / pg_size) true m else some m)
      >>= freewalk 3 pt

  -- The loop of `uvmcopy` from `i` on with `k` pages left.
  unfoldable pub copy_from : ℕ → ℕ → ℕ → ℕ → Phys → Option (Bool × Phys)
  unfolding free_page uvmunmap
  copy_from zero old new i m = some (true, m)
  copy_from (suc k) old new i m = walk old i false m >>= λ (at, _).
      elim (at == 0 || not (is_v (m.words at))) [
        | true ↦ none
        | false ↦
            let pte = m.words at in
            let (page, free) = Kalloc.kalloc m.kmem in
            elim (page == 0) [
              | true ↦
                  uvmunmap new 0 (i / pg_size) true (with_kmem m free) >>= λ m1. some (false, m1)
              | false ↦
                  mappages new i pg_size page (pte_flags pte)
                    (copy_page page (pte2pa pte) (with_kmem m free))
                  >>= λ (ok, m1). elim ok [
                    | false ↦ free_page page m1 >>= λ m2.
                        uvmunmap new 0 (i / pg_size) true m2 >>= λ m3. some (false, m3)
                    | true ↦ copy_from k old new (i + pg_size) m1
                  ]
            ]
      ]

  unfoldable pub uvmcopy : ℕ → ℕ → ℕ → Phys → Option (Bool × Phys)
  uvmcopy old new sz m = copy_from ((sz + pg_size - 1) / pg_size) old new 0 m
