-- ===== src/Proc/KillZero.antt =====
-- kernel/proc.c: `kill(0)`. An unused entry has pid 0, and `allocproc` does not clear `killed`.
use os_proc_lap02_system_cal.Prelude.{ℕ, ◌<◌, ◌≡◌, ◌≢◌, ap, ◌∙◌, true, some, update_self}
use os_proc_lap02_system_cal.Prelude.Int.{pos}
use os_proc_lap02_system_cal.Layout.{n_proc}
use os_proc_lap02_system_cal.Proc.{Proc, State, Kernel, World}
use os_proc_lap02_system_cal.Proc.Sched.{kill, kill_entry}
use os_proc_lap02_system_cal.Proc.Life.{allocproc}
use os_proc_lap02_system_cal.Proc.Wakeup.{kill_lem}
use os_proc_lap02_system_cal.Proc.Slots.{allocproc-some}

module _ (w : World) (trampoline forkret : ℕ) where
  open w use {Mem}

  -- Where the first entry with the pid 0 is an unused one, as the code leaves every unused entry with
  -- that pid, `kill(0)` returns 0, and if `allocproc` then creates a process in that entry, it is born
  -- killed: it inherits the mark from the entry.
  pub kill_zero :
      (s t : Kernel Mem) (j : ℕ)
      → j < n_proc
      → (s.procs j).pid ≡ 0
      → (s.procs j).state ≡ State.unused
      → ((l : ℕ) → l < j → (s.procs l).pid ≢ 0)
      → allocproc w trampoline forkret (kill 0 s).1 ≡ some (some j, t)
      → ((kill 0 s).0 ≡ pos 0) × ((t.procs j).killed ≡ true)
  kill_zero s t j lt zero_pid free first h =
      let e = (kill_lem 0 s).1 j lt zero_pid first in
      let (lt', free', a) = allocproc-some w trampoline forkret (kill 0 s).1 t j h in
      (
        ap (λ r. r.0) e,
        a.killed_eq
            ∙ ap (λ r. (r.1.procs j).killed) e
            ∙ ap (λ (p : Proc). p.killed) (update_self s.procs j (kill_entry (s.procs j))),
      )
