-- ===== src/Kalloc.antt =====
-- kernel/kalloc.c: the allocator of physical pages. A free page holds the address of the next free
-- page in its first word; `next` is that word of every page. `kmem.lock` is held from the first to
-- the last access of each function, so a call is one step. LAB_SYSCALL is defined (conf/lab.mk), so
-- the pages are not filled with junk.
pub mod FreeList
pub mod Correct
mod Boot
mod Examples
use os_proc_lap02_system_cal.Prelude.{
  ℕ, zero, suc, ◌+◌, ◌-◌, ◌*◌, ◌/◌, ◌%◌, ◌^◌, ◌≤◌, ◌<◌, Option, none, some, Bool, true, false, ◌||◌,
  not, ltb, leb, ◌==◌, if◌then◌else◌, update, ◌>>=◌,
}
use os_proc_lap02_system_cal.Layout.{pg_size, phys_top, pg_round_up}

-- `kmem`, and the words that the free list runs through
pub record Kmem : Type 0 where
  pub freelist : ℕ
  pub next : ℕ → ℕ

-- The test by which `kfree` panics; `kernel_end` is the linker's symbol `end`.
abbrev pub is_bad_page : ℕ → ℕ → Bool
is_bad_page kernel_end pa = not (pa % pg_size == 0) || (ltb pa kernel_end || leb phys_top pa)

unfoldable pub kfree : ℕ → ℕ → Kmem → Option Kmem
kfree kernel_end pa s =
    if is_bad_page kernel_end pa
    then none
    else some (record { freelist = pa; next = update s.next pa s.freelist })

-- The page, or 0, and the new state.
unfoldable pub kalloc : Kmem → ℕ × Kmem
kalloc s =
    if s.freelist == 0 then (0, s) else (s.freelist, record s { freelist = s.next s.freelist })

-- The loop of `freerange`, on fuel: `none` for a panic, and `some none` where the fuel ran out.
unfoldable pub free_from : ℕ → ℕ → ℕ → ℕ → Kmem → Option (Option Kmem)
free_from zero kernel_end p pa_end s = some none
free_from (suc fuel) kernel_end p pa_end s = elim (leb (p + pg_size) pa_end) [
  | true ↦ kfree kernel_end p s >>= free_from fuel kernel_end (p + pg_size) pa_end
  | false ↦ some (some s)
]

unfoldable pub freerange : ℕ → ℕ → ℕ → ℕ → Kmem → Option (Option Kmem)
freerange fuel kernel_end pa_start pa_end s =
    free_from fuel kernel_end (pg_round_up pa_start) pa_end s

-- `kinit` at boot, where `kmem` is zero
unfoldable pub kinit : ℕ → ℕ → (ℕ → ℕ) → Option (Option Kmem)
kinit fuel kernel_end memory =
    freerange fuel kernel_end kernel_end phys_top (record { freelist = 0; next = memory })

-- The loop of `nfree` counts the pages from `r` on; `none` where the fuel ran out.
unfoldable pub count_from : ℕ → (ℕ → ℕ) → ℕ → ℕ → Option ℕ
count_from zero next r count = none
count_from (suc fuel) next r count = elim (r == 0) [
  | true ↦ some count
  | false ↦ count_from fuel next (next r) (count + 1)
]

-- An `int` product of 32 bits, extended by its sign to the 64 bits of the result.
abbrev pub int_to_uint64 : ℕ → ℕ
int_to_uint64 n = let w = n % 2 ^ 32 in if ltb w (2 ^ 31) then w else w + 2 ^ 64 - 2 ^ 32

unfoldable pub nfree : ℕ → Kmem → Option ℕ
nfree fuel s = count_from fuel s.next s.freelist 0 >>= λ byte_count.
    some (int_to_uint64 (byte_count * pg_size))
