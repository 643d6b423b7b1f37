-- ===== src/Proc/Memory.antt =====
-- kernel/proc.c: the page table of a process, and how its memory grows and shrinks.
use os_proc_lap02_system_cal.Prelude.{
  ℕ, zero, suc, ◌+◌, ◌-◌, ◌%◌, ◌^◌, true, false, not, Option, none, some, ◌==◌, if◌then◌else◌,
  ◌>>=◌,
}
use os_proc_lap02_system_cal.Prelude.Int.{ℤ, pos, negsuc}
use os_proc_lap02_system_cal.Layout.{
  n_proc, pg_size, trampoline_va, trapframe_va, kstack_va, pte_r, pte_w, pte_x,
}
use os_proc_lap02_system_cal.Proc.{Kernel, World, put}

-- `trampoline` is the address of the linker's symbol.
module _ (w : World) (trampoline : ℕ) where
  open w use {Mem, kalloc, uvmcreate, mappages, uvmunmap, uvmfree, uvmalloc, uvmdealloc}

  -- `proc_mapstacks` from entry `i` on: a page for each kernel stack.
  unfoldable pub mapstacks_from : ℕ → ℕ → ℕ → Mem → Option Mem
  mapstacks_from zero i kpgtbl m = some m
  mapstacks_from (suc k) i kpgtbl m =
      let (pa, m1) = kalloc m in
      elim (pa == 0) [
        | true ↦ none
        | false ↦ mappages kpgtbl (kstack_va i) pg_size pa (pte_r + pte_w) m1 >>= λ (ok, m2).
            if ok then mapstacks_from k (i + 1) kpgtbl m2 else none
      ]

  unfoldable pub proc_mapstacks : ℕ → Mem → Option Mem
  proc_mapstacks kpgtbl m = mapstacks_from n_proc 0 kpgtbl m

  unfoldable pub proc_pagetable : ℕ → Mem → Option (ℕ × Mem)
  proc_pagetable trapframe m =
      let (pagetable, m1) = uvmcreate m in
      if pagetable == 0
      then some (0, m1)
      else mappages pagetable trampoline_va pg_size trampoline (pte_r + pte_x) m1 >>= λ (ok, m2).
          if not ok
          then (uvmfree pagetable 0 m2 >>= λ m3. some (0, m3))
          else mappages pagetable trapframe_va pg_size trapframe (pte_r + pte_w) m2 >>= λ (ok', m3).
              if not ok'
              then (uvmunmap pagetable trampoline_va 1 false m3 >>= λ m4.
                  uvmfree pagetable 0 m4 >>= λ m5. some (0, m5))
              else some (pagetable, m3)

  unfoldable pub proc_freepagetable : ℕ → ℕ → Mem → Option Mem
  proc_freepagetable pagetable sz m = uvmunmap pagetable trampoline_va 1 false m >>= λ m1.
      uvmunmap pagetable trapframe_va 1 false m1 >>= λ m2. uvmfree pagetable sz m2

  -- `growproc`, for `n` an `int`; `sz + n` is of 64 bits.
  unfoldable pub growproc : ℕ → ℤ → Kernel Mem → Option (ℤ × Kernel Mem)
  growproc i (pos zero) s = some (pos 0, s)
  growproc i (pos (suc n)) s =
      let p = s.procs i in
      uvmalloc p.pagetable p.sz ((p.sz + suc n) % 2 ^ 64) pte_w s.mem >>= λ (sz, m).
      if sz == 0
      then some (negsuc 0, record s { mem = m })
      else some (pos 0, put (record s { mem = m }) i (record p { sz = sz }))
  growproc i (negsuc n) s =
      let p = s.procs i in
      uvmdealloc p.pagetable p.sz ((p.sz + 2 ^ 64 - suc n) % 2 ^ 64) s.mem >>= λ (sz, m).
      some (pos 0, put (record s { mem = m }) i (record p { sz = sz }))
