-- ===== src/Syscall/Guard.antt =====
-- What the guards of kernel/syscall.c let through.
use os_proc_lap02_system_cal.Prelude.{ℕ, ◌+◌, ◌-◌, ◌^◌, ◌≤◌, ◌<◌, ◌≡◌, none, some, arith}
use os_proc_lap02_system_cal.Proc.{Proc, World}
use os_proc_lap02_system_cal.Syscall.Args.{outside_memory, fetchaddr}

module _ (w : World) where
  open w use {Mem, copyin}

  -- Where the process size is at most 2^64 - 8, fetchaddr copies the eight bytes exactly if they
  -- lie inside the process, for every 64-bit address, also one whose eight bytes wrap around; else
  -- it returns -1.
  pub fetchaddr-guard :
      (addr : ℕ)
      → (p : Proc) → (m : Mem) → addr < 2 ^ 64
      → p.sz ≤ 2 ^ 64 - 8
      → (addr + 8 ≤ p.sz → fetchaddr w addr p m ≡ copyin p.pagetable addr 8 m)
        × (p.sz < addr + 8 → fetchaddr w addr p m ≡ some none)
  unfolding fetchaddr outside_memory
  fetchaddr-guard addr p m small size = (λ inside. ground arith, λ out. ground arith)
