-- ===== src/Vm.antt =====
-- kernel/vm.c: page tables in physical memory. The bytes and the 64-bit words of a page are two
-- views of it: between kalloc and kfree a page is used as a page table or as data, not as both.
pub mod Space
pub mod Copy
pub mod Kernel
mod Tree
mod Attach
mod Walking
mod Mapping
mod Mapped
mod Unmapping
mod User
mod Access
mod Strings
mod Storing
mod Copyout
mod Examples
use mathlib.Core.Path.{subst}
use os_proc_lap02_system_cal.Prelude.{
  ℕ, zero, suc, ◌+◌, ◌-◌, ◌*◌, ◌/◌, ◌%◌, ◌^◌, ◌≤◌, ◌<◌, ◌≡◌, ◌≢◌, ◌↔◌, ◌⊎◌, inl, inr, refl, sym, ap,
  ◌∙◌, fun_ext, Bool, true, false, not, ◌&&◌, ◌||◌, Option, none, some, List, [], ◌∷◌, ◌++◌, map,
  append-nil, append_assoc, arith, dec_lt, ℕ_discrete, ltb, leb, ◌==◌, if◌then◌else◌, Bool-cases,
  Option-cases, length, get_elem?, set, get_or, take, drop, replicate, length-append, length-set,
  get_elem?-set_self, get_elem?-set_ne, update, update_self, update_ne, Ensures, Ensures-bind,
  Ensures-map, Ensures-some, ◌>>=◌, >>=-eq-some, All, In, NotIn, Distinct, All-map, All-append,
}
use os_proc_lap02_system_cal.Layout.{pg_size, max_va}
use os_proc_lap02_system_cal.Kalloc
use os_proc_lap02_system_cal.Kalloc.{Kmem}

-- The allocator, the words of page tables by their addresses, and the bytes of data pages.
pub record Phys : Type 0 where
  pub kmem : Kmem
  pub words : ℕ → ℕ
  pub bytes : ℕ → ℕ

-- `PX`, `PTE2PA`, `PA2PTE` and `PTE_FLAGS`
abbrev pub px : ℕ → ℕ → ℕ
px zero va = va / 2 ^ 12 % 512
px (suc zero) va = va / 2 ^ 21 % 512
px (suc (suc _)) va = va / 2 ^ 30 % 512

abbrev pub pte2pa : ℕ → ℕ
pte2pa pte = pte / 1024 * 4096 % 2 ^ 64

abbrev pub pa2pte : ℕ → ℕ
pa2pte pa = pa / 4096 * 1024

abbrev pub pte_flags : ℕ → ℕ
pte_flags pte = pte % 1024

-- The bits `PTE_V`, `PTE_R`, `PTE_W`, `PTE_X` and `PTE_U` of an entry
abbrev pub is_v : ℕ → Bool
is_v pte = pte % 2 == 1

abbrev pub is_r : ℕ → Bool
is_r pte = pte / 2 % 2 == 1

abbrev pub is_w : ℕ → Bool
is_w pte = pte / 4 % 2 == 1

abbrev pub is_x : ℕ → Bool
is_x pte = pte / 8 % 2 == 1

abbrev pub is_u : ℕ → Bool
is_u pte = pte / 16 % 2 == 1

-- `PA2PTE(pa) | perm | PTE_V`, for a `perm` of ten bits: the low ten bits of `PA2PTE` are 0.
abbrev pub leaf : ℕ → ℕ → ℕ
leaf pa perm = pa2pte pa + (perm / 2 * 2 + 1)

-- `memset(page, 0, PGSIZE)`, in both views
abbrev pub zeroed : ℕ → (ℕ → ℕ) → ℕ → ℕ
zeroed page m a = if leb page a && ltb a (page + pg_size) then 0 else m a

abbrev pub zero_page : ℕ → Phys → Phys
zero_page page m = record m { words = zeroed page m.words; bytes = zeroed page m.bytes }

abbrev pub with_kmem : Phys → Kmem → Phys
with_kmem m k = record m { kmem = k }

abbrev pub set_pte : ℕ → ℕ → Phys → Phys
set_pte at pte m = record m { words = update m.words at pte }

-- The loop of `walk` from a level down to 0: the address of the entry, or 0.
unfoldable pub walk_down : ℕ → ℕ → ℕ → Bool → Phys → ℕ × Phys
walk_down zero pt va alloc m = (pt + 8 * px 0 va, m)
walk_down (suc l) pt va alloc m =
    let at = pt + 8 * px (suc l) va in
    elim (is_v (m.words at)) [
      | true ↦ walk_down l (pte2pa (m.words at)) va alloc m
      | false ↦ elim alloc [
        | false ↦ (0, m)
        | true ↦
            let (page, k) = Kalloc.kalloc m.kmem in
            elim (page == 0) [
              | true ↦ (0, with_kmem m k)
              | false ↦
                  walk_down l page va true
                    (set_pte at (pa2pte page + 1) (zero_page page (with_kmem m k)))
            ]
      ]
    ]

-- `none` is a panic.
unfoldable pub walk : ℕ → ℕ → Bool → Phys → Option (ℕ × Phys)
walk pt va alloc m = if leb max_va va then none else some (walk_down 2 pt va alloc m)

unfoldable pub walkaddr : ℕ → ℕ → Phys → Option ℕ
unfolding walk
walkaddr pt va m =
    if leb max_va va
    then some 0
    else (walk pt va false m >>= λ (at, _). some (
        if at == 0
        then 0
        else if not (is_v (m.words at))
        then 0
        else if not (is_u (m.words at))
        then 0
        else pte2pa (m.words at)))

-- The loop of `mappages`; `a` reaches `last` after size / PGSIZE rounds, of which `k` are left.
unfoldable pub map_from : ℕ → ℕ → ℕ → ℕ → ℕ → Phys → Option (Bool × Phys)
map_from zero pt a pa perm m = some (true, m)
map_from (suc k) pt a pa perm m = walk pt a true m >>= λ (at, m1). elim (at == 0) [
  | true ↦ some (false, m1)
  | false ↦ elim (is_v (m1.words at)) [
    | true ↦ none
    | false ↦ map_from k pt (a + pg_size) (pa + pg_size) perm (set_pte at (leaf pa perm) m1)
  ]
]

unfoldable pub mappages : ℕ → ℕ → ℕ → ℕ → ℕ → Phys → Option (Bool × Phys)
mappages pt va size pa perm m =
    if not (va % pg_size == 0)
    then none
    else if not (size % pg_size == 0)
    then none
    else if size == 0
    then none
    else map_from (size / pg_size) pt va pa perm m
