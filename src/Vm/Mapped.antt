-- ===== src/Vm/Mapped.antt =====
-- mappages and uvmunmap over ranges of pages.
use mathlib.Core.Path.{subst}
use os_proc_lap02_system_cal.Prelude.{
  ℕ, zero, suc, ◌+◌, ◌*◌, ◌/◌, ◌%◌, ◌≤◌, ◌<◌, ◌≡◌, inl, inr, refl, ap, ◌∙◌, Bool, true, false,
  Option, some, List, arith, ◌==◌,
}
use os_proc_lap02_system_cal.Layout.{pg_size, max_va}
use os_proc_lap02_system_cal.Kalloc.FreeList.{FreeList}
use os_proc_lap02_system_cal.Vm.{Phys, px, is_v, walk_down, map_from, mappages}
use os_proc_lap02_system_cal.Vm.Tree.{Tags, Tree, prefix, entry_from}
use os_proc_lap02_system_cal.Vm.Walking.{Untagged, walk_down-Walked}
use os_proc_lap02_system_cal.Vm.Mapping.{
  root_at, walk-some, map_from-new, map_from-full, Mapped, stored, stored-Tree_here, stored_other,
  fresh, Mapped-more,
}

-- What `mappages` returns and leaves behind.
abbrev pub MappedBy : (ke root k a pa perm : ℕ) → Phys → Option (Bool × Phys) → Type 0
MappedBy ke root k a pa perm m r =
    (ok : Bool) × (m1 : Phys) × (r ≡ some (ok, m1)) × Mapped ke root k a pa perm m ok m1

module _ (ke root : ℕ) (pos : 0 < ke) where
  map_from-Mapped :
      (g : Tags)
      → (k a pa perm : ℕ) → (m : Phys) → (ps : List ℕ) → Tree root g m.words
      → FreeList ke m.kmem ps
      → Untagged g ps
      → a % 4096 ≡ 0
      → a + k * 4096 ≤ max_va
      → ((va : ℕ)
          → a / 4096 ≤ va / 4096
          → va / 4096 < a / 4096 + k
          → is_v (entry_from 2 root va m.words) ≡ false)
      → MappedBy ke root k a pa perm m (map_from k root a pa perm m)
  unfolding map_from
  map_from-Mapped g zero a pa perm m ps t f un al le unmapped = (
    true,
    m,
    refl,
    record {
      tags = g;
      rest = ps;
      tree = t;
      free = f;
      untagged = un;
      others = λ va lt out. refl;
      done = inl (refl, λ va lo hi. absurd (omega arith));
    },
  )
  map_from-Mapped g (suc k) a pa perm m ps t f un al le unmapped =
      let lt : a < max_va = omega arith in
      let m1 = (walk_down 2 root a true m).1 in
      let rt = root_at root a g m.words t lt in
      let w = walk_down-Walked ke root pos g a 2 root m ps t f un (omega arith) rt in
      elim w.found [
        | inl (z, empty) ↦ (
          false,
          m1,
          map_from-full k root a pa perm m m1
              (walk-some root a true m lt ∙ ap (λ x. some (x, m1)) z),
          record {
            tags = w.tags;
            rest = w.rest;
            tree = w.tree;
            free = w.free;
            untagged = w.untagged;
            others = λ va vlt out. w.same 2 root (prefix 2 a) va rt;
            done = inr (refl, empty);
          },
        )
        | inr (q, tag, at, h) ↦
            let h' = subst (λ x. walk_down 2 root a false m1 ≡ (x, m1)) at h in
            let s = stored ke root a pa perm m m1 g rt w q tag h' lt al in
            let (ok, m2, e, rest) =
              map_from-Mapped w.tags k (a + 4096) (pa + 4096) perm s w.rest
                (stored-Tree_here ke root a pa perm m m1 g rt w q tag h' lt al) w.free w.untagged
                (omega arith) (omega arith)
                (λ va lo hi.
                  ap is_v (
                    stored_other ke root a pa perm m m1 g rt w q tag h' lt al va (omega arith)
                      (λ z. omega arith))
                  ∙ unmapped va (omega arith) (omega arith)) in
            (
              ok,
              m2,
              map_from-new k root a pa perm (q + 8 * px 0 a) m m1
                    (walk-some root a true m lt ∙ ap (λ x. some (x, m1)) at)
                    (λ z. omega (arith, z, w.tree.positive q 0 (prefix 0 a) tag))
                    (fresh ke root a pa perm m m1 g rt w q tag h' lt al
                      (unmapped a (omega arith) (omega arith)))
                  ∙ e,
              Mapped-more ke root a pa perm m m1 g rt w q tag h' lt al k ok m2 (omega arith) rest,
            )
      ]

  -- Where the size is a positive number of pages from a page on, below MAXVA, none of them mapped, and
  -- the page table a tree of tables that are not free, mappages does not panic. It maps all of them to the physical
  -- pages from `pa` on with the permissions, or returns -1, and then no page is free. Either way every
  -- other page is translated as before, and the tables are again a tree of pages that are not free.
  -- An entry is the sum `leaf`, which is the code's `PA2PTE(pa) | perm | PTE_V` for a `perm` of ten bits.
  pub mappages-Mapped :
      (g : Tags)
      → (k va pa perm : ℕ) → (m : Phys) → (ps : List ℕ) → Tree root g m.words
      → FreeList ke m.kmem ps
      → Untagged g ps
      → va % 4096 ≡ 0
      → 0 < k
      → va + k * 4096 ≤ max_va
      → ((x : ℕ)
          → va / 4096 ≤ x / 4096
          → x / 4096 < va / 4096 + k
          → is_v (entry_from 2 root x m.words) ≡ false)
      → MappedBy ke root k va pa perm m (mappages root va (k * 4096) pa perm m)
  unfolding mappages
  mappages-Mapped g k va pa perm m ps t f un al some_pages le unmapped =
      let (ok, m1, e, h) = map_from-Mapped g k va pa perm m ps t f un al le unmapped in
      let a1 : (va % pg_size == 0) ≡ true = ground arith in
      let a2 : (k * 4096 % pg_size == 0) ≡ true =
        let z : k * 4096 % pg_size ≡ 0 = omega arith in ground arith in
      let a3 : (k * 4096 == 0) ≡ false = ground arith in
      let a4 : k * 4096 / pg_size ≡ k = omega arith in (ok, m1, rw (a1, a2, a3, a4) e, h)
