-- ===== src/Syscall/Args.antt =====
-- kernel/syscall.c: fetching the arguments of a system call.
use os_proc_lap02_system_cal.Prelude.{
  ℕ, ◌+◌, ◌*◌, ◌%◌, ◌^◌, Bool, ◌||◌, Option, none, some, List, ltb, leb, if◌then◌else◌, ◌>>=◌,
}
use os_proc_lap02_system_cal.Prelude.Int.{ℤ}
use os_proc_lap02_system_cal.Proc.{Proc, World, tf_a0}
use os_proc_lap02_system_cal.Syscall.{to_int}

-- The registers a0 to a5 of the trapframe stand one after the other; `none` is the panic.
unfoldable pub argraw : ℕ → Proc → Option ℕ
argraw n p = if ltb n 6 then some (p.regs (tf_a0 + 8 * n)) else none

-- The low 32 bits, as an `int`.
unfoldable pub argint : ℕ → Proc → Option ℤ
argint n p = argraw n p >>= λ v. some (to_int (v % 2 ^ 32))

unfoldable pub argaddr : ℕ → Proc → Option ℕ
argaddr n p = argraw n p

-- The test of `fetchaddr` on `addr`; the sum is of 64 bits.
unfoldable pub outside_memory : ℕ → ℕ → Bool
outside_memory addr sz = leb sz addr || ltb sz ((addr + 8) % 2 ^ 64)

module _ (w : World) where
  open w use {Mem, copyin, copyinstr}

  -- The eight bytes at `addr`, if they can be copied; else -1.
  unfoldable pub fetchaddr : ℕ → Proc → Mem → Option (Option (List ℕ))
  fetchaddr addr p m = if outside_memory addr p.sz then some none else copyin p.pagetable addr 8 m

  -- The string at `addr` without its terminator, if it can be copied; else -1.
  unfoldable pub fetchstr : ℕ → ℕ → Proc → Mem → Option (Option (List ℕ))
  fetchstr addr max p m = copyinstr p.pagetable addr max m

  unfoldable pub argstr : ℕ → ℕ → Proc → Mem → Option (Option (List ℕ))
  argstr n max p m = argaddr n p >>= λ addr. fetchstr addr max p m
