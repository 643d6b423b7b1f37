-- ===== src/Syscall/Calls.antt =====
-- kernel/sysproc.c: the system calls that concern processes.
use os_proc_lap02_system_cal.Prelude.{
  ℕ, zero, suc, ◌+◌, ◌-◌, ◌/◌, ◌%◌, ◌^◌, Bool, Option, none, some, List, [], ◌∷◌, ◌++◌, ltb,
  if◌then◌else◌, ◌>>=◌,
}
use os_proc_lap02_system_cal.Prelude.Int.{ℤ, pos, negsuc}
use os_proc_lap02_system_cal.Proc.{Proc, Kernel, World, put}
use os_proc_lap02_system_cal.Proc.Sched.{Cpu, kill, killed}
use os_proc_lap02_system_cal.Proc.Memory.{growproc}
use os_proc_lap02_system_cal.Proc.Life.{fork}
use os_proc_lap02_system_cal.Proc.Wait.{Wait, returned, asleep, wait, exit}
use os_proc_lap02_system_cal.Proc.Load.{nproc}
use os_proc_lap02_system_cal.Syscall.{Machine, Reply, value, waiting, gone, to_uint64}
use os_proc_lap02_system_cal.Syscall.Args.{argraw, argint, argaddr}

-- One test of the loop of `sys_sleep`: `ticks - ticks0 < n` on `uint`s, then `killed`. `some r` is
-- what the call returns, and `none` that it sleeps on `ticks`.
unfoldable pub sleep_test : ℕ → ℕ → ℕ → Bool → Option ℤ
sleep_test n ticks0 ticks dead =
    if ltb ((ticks + 2 ^ 32 - ticks0) % 2 ^ 32) n
    then if dead then some (negsuc 0) else none
    else some (pos 0)

-- `if(n < 0) n = 0;`
abbrev pub not_negative : ℤ → ℕ
not_negative (pos n) = n
not_negative (negsuc n) = 0

-- A word of 64 bits in memory, lowest byte first, and `struct sysinfo`.
unfoldable pub bytes_of : ℕ → ℕ → List ℕ
bytes_of zero v = []
bytes_of (suc k) v = v % 256 ∷ bytes_of k (v / 256)

unfoldable pub sysinfo_bytes : ℕ → ℕ → ℕ → List ℕ
sysinfo_bytes freemem nproc loadavg = bytes_of 8 freemem ++ bytes_of 8 nproc ++ bytes_of 8 loadavg

module _ (table proc_size : ℕ) (w : World) (trampoline forkret : ℕ) (c : Cpu) where
  open w use {Mem, copyout, nfree}

  abbrev pub Call : Type 0
  Call = ℕ → Machine Mem → Option (Reply Mem)

  -- The calling process.
  abbrev pub caller : ℕ → Machine Mem → Proc
  caller me s = s.kernel.procs me

  abbrev pub with_kernel : Machine Mem → Kernel Mem → Machine Mem
  with_kernel s k = record s { kernel = k }

  unfoldable pub sys_exit : Call
  sys_exit me s = argraw 0 (caller me s) >>= λ n.
      exit table proc_size w trampoline forkret c me (n % 2 ^ 32) s.kernel >>= λ k.
      some (gone (with_kernel s k))

  unfoldable pub sys_getpid : Call
  sys_getpid me s = some (value (caller me s).pid s)

  unfoldable pub sys_fork : Call
  sys_fork me s = fork w trampoline forkret me s.kernel >>= λ (r, k).
      some (value (to_uint64 r) (with_kernel s k))

  -- What `wait` came to. To sleep is not to return: the call goes on when it is woken.
  waited : Machine Mem → Wait table proc_size w trampoline forkret → Reply Mem
  waited s (returned r k) = value (to_uint64 r) (with_kernel s k)
  waited s asleep = waiting s

  unfoldable pub sys_wait : Call
  unfolding waited
  sys_wait me s = argaddr 0 (caller me s) >>= λ addr.
      wait table proc_size w trampoline forkret me addr s.kernel >>= λ r. some (waited s r)

  unfoldable pub sys_sbrk : Call
  sys_sbrk me s = argint 0 (caller me s) >>= λ n. growproc w trampoline me n s.kernel >>= λ (r, k).
      some (value (elim r [ pos _ ↦ (caller me s).sz | negsuc _ ↦ 2 ^ 64 - 1 ]) (with_kernel s k))

  -- The first test of the loop, at the tick at which the call begins.
  unfoldable pub sys_sleep : Call
  sys_sleep me s = argint 0 (caller me s) >>= λ n.
      elim (sleep_test (not_negative n) s.ticks s.ticks (killed me s.kernel)) [
        | none ↦ some (waiting s)
        | some r ↦ some (value (to_uint64 r) s)
      ]

  unfoldable pub sys_kill : Call
  sys_kill me s = argraw 0 (caller me s) >>= λ pid.
      let (r, k) = kill (pid % 2 ^ 32) s.kernel in some (value (to_uint64 r) (with_kernel s k))

  unfoldable pub sys_uptime : Call
  sys_uptime me s = some (value s.ticks s)

  unfoldable pub sys_trace : Call
  sys_trace me s = argraw 0 (caller me s) >>= λ mask. some (
      value 0
        (with_kernel s (put s.kernel me (record (caller me s) { trace_mask = mask % 2 ^ 32 }))))

  unfoldable pub sys_sysinfo : Call
  sys_sysinfo me s = argaddr 0 (caller me s) >>= λ addr.
      copyout (caller me s).pagetable addr
        (sysinfo_bytes (nfree s.kernel.mem) (nproc s.kernel) s.kernel.loadavg) s.kernel.mem
      >>= λ (ok, m).
          some (value (if ok then 0 else 2 ^ 64 - 1) (with_kernel s (record s.kernel { mem = m })))
