-- ===== src/Proc/Sched.antt =====
-- kernel/proc.c: waking, killing, and giving up the CPU.
use os_proc_lap02_system_cal.Prelude.{
  ℕ, zero, suc, ◌+◌, Bool, true, not, ◌&&◌, Option, none, some, ◌==◌, if◌then◌else◌, update, ◌>>=◌,
}
use os_proc_lap02_system_cal.Prelude.Int.{ℤ, pos, negsuc}
use os_proc_lap02_system_cal.Layout.{n_proc}
use os_proc_lap02_system_cal.Proc.{Proc, State, Kernel, put, is_sleeping, is_runnable, is_running}

-- The body of the loop of `wakeup`, for an entry that is not the caller's.
abbrev pub wake : ℕ → Proc → Proc
wake chan p =
    if is_sleeping p.state && (p.chan == chan) then record p { state = State.runnable } else p

-- `wakeup` from entry `i` on, with `k` entries left; `me` is `myproc()`.
unfoldable pub wakeup_from : ℕ → ℕ → Option ℕ → ℕ → (ℕ → Proc) → ℕ → Proc
wakeup_from zero i me chan procs = procs
wakeup_from (suc k) i me chan procs = wakeup_from k (i + 1) me chan (elim me [
  | none ↦ update procs i (wake chan (procs i))
  | some q ↦ if q == i then procs else update procs i (wake chan (procs i))
])

unfoldable pub wakeup : {M : Type 0} → Option ℕ → ℕ → Kernel M → Kernel M
wakeup me chan s = record s { procs = wakeup_from n_proc 0 me chan s.procs }

-- `setkilled`, and what `kill` does to the entry that it finds.
abbrev pub mark_killed : Proc → Proc
mark_killed p = record p { killed = true }

abbrev pub kill_entry : Proc → Proc
kill_entry p = record p {
  killed = true;
  state = if is_sleeping p.state then State.runnable else p.state;
}

unfoldable pub kill_from : {M : Type 0} → ℕ → ℕ → ℕ → Kernel M → ℤ × Kernel M
kill_from zero i pid s = (negsuc 0, s)
kill_from (suc k) i pid s =
    let rest = kill_from k (i + 1) pid s in
    if (s.procs i).pid == pid then (pos 0, put s i (kill_entry (s.procs i))) else rest

unfoldable pub kill : {M : Type 0} → ℕ → Kernel M → ℤ × Kernel M
kill pid s = kill_from n_proc 0 pid s

unfoldable pub setkilled : {M : Type 0} → ℕ → Kernel M → Kernel M
setkilled i s = put s i (mark_killed (s.procs i))

unfoldable pub killed : {M : Type 0} → ℕ → Kernel M → Bool
killed i s = (s.procs i).killed

-- The CPU as `sched` tests it: does it hold p->lock, `noff`, and are interrupts on.
pub record Cpu : Type 0 where
  pub holds : Bool
  pub noff : ℕ
  pub intr : Bool

-- `sched` panics unless it may switch to the scheduler; `some` means that it switches.
unfoldable pub sched : Cpu → Proc → Option (Unit {0})
sched c p =
    if not c.holds
    then none
    else if not (c.noff == 1)
    then none
    else if is_running p.state
    then none
    else if c.intr
    then none
    else some tt

-- `yield` and `sleep` up to the switch, with p->lock held.
unfoldable pub yield_cpu : {M : Type 0} → Cpu → ℕ → Kernel M → Option (Kernel M)
yield_cpu c i s =
    let p = record (s.procs i) { state = State.runnable } in sched c p >>= λ _. some (put s i p)

unfoldable pub sleep : {M : Type 0} → Cpu → ℕ → ℕ → Kernel M → Option (Kernel M)
sleep c i chan s =
    let p = record (s.procs i) { chan = chan; state = State.sleeping } in
    sched c p >>= λ _. some (put s i p)

-- `sleep` after the switch back: `p->chan = 0`.
unfoldable pub sleep_wakes : {M : Type 0} → ℕ → Kernel M → Kernel M
sleep_wakes i s = put s i (record (s.procs i) { chan = 0 })

-- The loop of `scheduler` over the table: the next entry from `i` on that may run, and the state in
-- which it runs.
unfoldable pub pick_from : {M : Type 0} → ℕ → ℕ → Kernel M → Option (ℕ × Kernel M)
pick_from zero i s = none
pick_from (suc k) i s =
    let rest = pick_from k (i + 1) s in
    if is_runnable (s.procs i).state
    then some (i, put s i (record (s.procs i) { state = State.running }))
    else rest
