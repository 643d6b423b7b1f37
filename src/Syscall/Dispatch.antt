-- ===== src/Syscall/Dispatch.antt =====
-- kernel/syscall.c: the table of system calls, and `syscall`, which dispatches and traces.
use os_proc_lap02_system_cal.Prelude.{
  ℕ, ◌-◌, ◌/◌, ◌%◌, ◌^◌, Bool, ◌&&◌, Option, none, some, List, [], ◌∷◌, ltb, ◌==◌, if◌then◌else◌,
  length, get_elem?, get_or, update, ◌>>=◌,
}
use Prim.Native.String.{String}
use os_proc_lap02_system_cal.Prelude.Int.{ℤ, pos, negsuc}
use os_proc_lap02_system_cal.Proc.{Proc, World, put, tf_a0, tf_a7}
use os_proc_lap02_system_cal.Proc.Sched.{Cpu}
use os_proc_lap02_system_cal.Syscall.{
  Machine, Reply, value, waiting, gone, Line, traced, unknown, to_int,
}
use os_proc_lap02_system_cal.Syscall.Calls.{
  Call, sys_exit, sys_getpid, sys_fork, sys_wait, sys_sbrk, sys_sleep, sys_kill, sys_uptime,
  sys_trace, sys_sysinfo,
}

-- The process goes back to user mode, or has left the processor inside the call.
pub data Trap (M : Type 0) : Type 0 where
  back : Machine M → Trap M
  away : Machine M → Trap M

abbrev pub syscallnames : List String
syscallnames =
    "" ∷ "fork" ∷ "exit" ∷ "wait" ∷ "pipe" ∷ "read" ∷ "kill" ∷ "exec" ∷ "fstat" ∷ "chdir" ∷ "dup"
    ∷ "getpid" ∷ "sbrk" ∷ "sleep" ∷ "uptime" ∷ "open" ∷ "write" ∷ "mknod" ∷ "unlink" ∷ "link"
    ∷ "mkdir" ∷ "close" ∷ "trace" ∷ "sysinfo" ∷ []

-- `p->trapframe->a0 = r`
abbrev pub store_a0 : ℕ → Proc → Proc
store_a0 r p = record p { regs = update p.regs tf_a0 r }

-- `mask & (1 << num)`
abbrev pub traces : ℕ → ℕ → Bool
traces mask num = (mask / 2 ^ num) % 2 == 1

-- The calls of kernel/sysfile.c by their numbers are the parameter `file_call`.
module _ (table proc_size : ℕ) (w : World) (trampoline forkret : ℕ) (c : Cpu)
    (file_call : ℕ → Call table proc_size w trampoline forkret c) where
  open w use {Mem}

  -- The table by system call number, with no handler at 0.
  abbrev pub syscalls : List (Option (Call table proc_size w trampoline forkret c))
  syscalls =
      none
      ∷ some (sys_fork table proc_size w trampoline forkret c)
      ∷ some (sys_exit table proc_size w trampoline forkret c)
      ∷ some (sys_wait table proc_size w trampoline forkret c)
      ∷ some (file_call 4)
      ∷ some (file_call 5)
      ∷ some (sys_kill table proc_size w trampoline forkret c)
      ∷ some (file_call 7)
      ∷ some (file_call 8)
      ∷ some (file_call 9)
      ∷ some (file_call 10)
      ∷ some (sys_getpid table proc_size w trampoline forkret c)
      ∷ some (sys_sbrk table proc_size w trampoline forkret c)
      ∷ some (sys_sleep table proc_size w trampoline forkret c)
      ∷ some (sys_uptime table proc_size w trampoline forkret c)
      ∷ some (file_call 15)
      ∷ some (file_call 16)
      ∷ some (file_call 17)
      ∷ some (file_call 18)
      ∷ some (file_call 19)
      ∷ some (file_call 20)
      ∷ some (file_call 21)
      ∷ some (sys_trace table proc_size w trampoline forkret c)
      ∷ some (sys_sysinfo table proc_size w trampoline forkret c)
      ∷ []

  -- The handler of a number that passes the test.
  unfoldable pub handler : ℤ → Option (Call table proc_size w trampoline forkret c)
  handler (pos num) =
      if ltb 0 num && ltb num (length syscalls) then get_or syscalls num none else none
  handler (negsuc _) = none

  abbrev pub print : Line → Machine Mem → Machine Mem
  print line s = record s { console = line ∷ s.console }

  abbrev pub return : ℕ → ℕ → Machine Mem → Machine Mem
  return me r s = record s { kernel = put s.kernel me (store_a0 r (s.kernel.procs me)) }

  -- The store of what the call returned, and its trace.
  unfoldable pub finish : ℕ → ℕ → Reply Mem → Trap Mem
  finish me num (value r s) = back (
      if traces (s.kernel.procs me).trace_mask num
      then print (traced (s.kernel.procs me).pid (get_elem? syscallnames num) r) (return me r s)
      else return me r s)
  finish me num (waiting s) = away s
  finish me num (gone s) = away s

  unfoldable pub syscall : ℕ → Machine Mem → Option (Trap Mem)
  unfolding handler finish
  syscall me s =
      let p = s.kernel.procs me in
      let num = p.regs tf_a7 % 2 ^ 32 in
      elim (handler (to_int num)) [
        | some call ↦ call me s >>= λ r. some (finish me num r)
        | none ↦ some (back (return me (2 ^ 64 - 1) (print (unknown p.pid p.name (to_int num)) s)))
      ]
