-- ===== src/Proc/Load.antt =====
-- kernel/proc.c: the counts that sysinfo reports.
use os_proc_lap02_system_cal.Prelude.{ℕ, zero, suc, ◌+◌, ◌*◌, ◌/◌, ◌%◌, ◌^◌, not, if◌then◌else◌}
use os_proc_lap02_system_cal.Layout.{n_proc}
use os_proc_lap02_system_cal.Proc.{Proc, Kernel, is_unused, is_runnable}

-- The loop of `nproc` from entry `i` on, with `k` entries left.
unfoldable pub nproc_from : ℕ → ℕ → (ℕ → Proc) → ℕ → ℕ
nproc_from zero i procs count = count
nproc_from (suc k) i procs count =
    nproc_from k (i + 1) procs (if not (is_unused (procs i).state) then count + 1 else count)

unfoldable pub nproc : {M : Type 0} → Kernel M → ℕ
nproc s = nproc_from n_proc 0 s.procs 0

-- The loop of `update_runnable_procs`; `count` is a `uint`.
unfoldable pub runnable_from : ℕ → ℕ → (ℕ → Proc) → ℕ → ℕ
runnable_from zero i procs count = count
runnable_from (suc k) i procs count =
    runnable_from k (i + 1) procs
      (if is_runnable (procs i).state then (count + 1) % 2 ^ 32 else count)

-- The sum and the products are of 64 bits.
unfoldable pub update_runnable_procs : {M : Type 0} → Kernel M → Kernel M
update_runnable_procs s =
    let count = runnable_from n_proc 0 s.procs 0 in
    record s { runnable_procs = count; loadavg = (s.loadavg * 5 + count * 10) % 2 ^ 64 / 10 }
