-- ===== src/Syscall/Examples.antt =====
-- System calls at concrete states.
use os_proc_lap02_system_cal.Prelude.{
  ℕ, ◌+◌, ◌≤◌, ◌<◌, ◌≡◌, refl, true, false, none, some, [], ◌∷◌, arith, replicate, update,
}
use os_proc_lap02_system_cal.Proc.{put, tf_a0, tf_a7}
use os_proc_lap02_system_cal.Proc.Toy.{toy, two_procs, running_entry}
use os_proc_lap02_system_cal.Proc.Sched.{Cpu}
use os_proc_lap02_system_cal.Syscall.{Machine, value, waiting, gone, traced}
use os_proc_lap02_system_cal.Syscall.Args.{fetchaddr}
use os_proc_lap02_system_cal.Syscall.Calls.{Call, sys_uptime}
use os_proc_lap02_system_cal.Syscall.Dispatch.{back, away, traces, syscall}
use os_proc_lap02_system_cal.Syscall.Numbered.{Stored, BitOn, BitOff, num_uptime, syscall_lem}
use os_proc_lap02_system_cal.Syscall.Guard.{fetchaddr-guard}

abbrev one_cpu : Cpu
one_cpu = record { holds = true; noff = 1; intr = false }

-- Calls of sysfile.c that return 0.
abbrev files : ℕ → Call 5000 360 toy 0x8000_7000 0x8000_2000 one_cpu
files num me s = some (value 0 s)

-- Process 1 calls the system call `num` with the argument `arg`, and traces the calls of `mask`.
abbrev calling : ℕ → ℕ → ℕ → Machine ℕ
calling num arg mask = record {
  kernel = put two_procs 1 (record running_entry {
    regs = update (update (λ _. 0) tf_a7 num) tf_a0 arg;
    trace_mask = mask;
  });
  ticks = 41;
  console = [];
}

abbrev uptime : Call 5000 360 toy 0x8000_7000 0x8000_2000 one_cpu
uptime = sys_uptime 5000 360 toy 0x8000_7000 0x8000_2000 one_cpu

syscall_lem_example :
    let s = calling 14 0 16384 in
    (uptime 1 s ≡ none → syscall 5000 360 toy 0x8000_7000 0x8000_2000 one_cpu files 1 s ≡ none)
    × ((t : Machine ℕ)
        → uptime 1 s ≡ some (waiting t)
        → syscall 5000 360 toy 0x8000_7000 0x8000_2000 one_cpu files 1 s ≡ some (away t))
    × ((t : Machine ℕ)
        → uptime 1 s ≡ some (gone t)
        → syscall 5000 360 toy 0x8000_7000 0x8000_2000 one_cpu files 1 s ≡ some (away t))
    × ((r : ℕ)
        → (t : Machine ℕ) → uptime 1 s ≡ some (value r t)
        → (u : Machine ℕ) × (syscall 5000 360 toy 0x8000_7000 0x8000_2000 one_cpu files 1 s
            ≡ some (back u))
          × Stored 1 r t.kernel u.kernel
          × (u.ticks ≡ t.ticks)
          × (BitOn (t.kernel.procs 1).trace_mask 14
              → u.console ≡ traced (t.kernel.procs 1).pid (some "uptime") r ∷ t.console)
          × (BitOff (t.kernel.procs 1).trace_mask 14 → u.console ≡ t.console))
syscall_lem_example =
    syscall_lem 5000 360 toy 0x8000_7000 0x8000_2000 one_cpu files 1 14 "uptime" uptime
      (calling 14 0 16384) num_uptime refl

traced_bit : traces 4194306 22 ≡ true
traced_bit = refl

fetchaddr-guard_example :
    (8184 + 8 ≤ 8192 → fetchaddr toy 8184 running_entry 0 ≡ some (some (replicate 8 7)))
    × (8192 < 8184 + 8 → fetchaddr toy 8184 running_entry 0 ≡ some none)
fetchaddr-guard_example = fetchaddr-guard toy 8184 running_entry 0 (omega arith) (omega arith)
