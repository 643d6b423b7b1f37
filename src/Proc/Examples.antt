-- ===== src/Proc/Examples.antt =====
-- The process table at concrete states, over the small world of Toy.
use os_proc_lap02_system_cal.Prelude.{
  ℕ, zero, suc, ◌+◌, ◌/◌, ◌≤◌, ◌<◌, ◌≡◌, ◌≢◌, refl, true, false, ◌&&◌, Option, none, some, arith,
  ◌==◌, if◌then◌else◌,
}
use os_proc_lap02_system_cal.Prelude.Int.{ℤ, pos, negsuc}
use os_proc_lap02_system_cal.Layout.{n_proc}
use os_proc_lap02_system_cal.Proc.{State, Kernel, World, put, is_parent, is_sleeping}
use os_proc_lap02_system_cal.Proc.Toy.{toy, init_entry_0, running_entry, two_procs}
use os_proc_lap02_system_cal.Proc.Sched.{Cpu, wakeup, wakeup_from, kill, kill_from, sched, killed}
use os_proc_lap02_system_cal.Proc.Memory.{proc_pagetable}
use os_proc_lap02_system_cal.Proc.Life.{
  allocpid, find_unused, allocproc, init_entry, taken, set_up, give_up, freeproc, fork, fork_slot,
  fork_into, fork_copied, fork_files, child, dup_from,
}
use os_proc_lap02_system_cal.Proc.Wait.{
  Wait, asleep, wait, wait_from, reap, reaped, become_zombie, hand_over, reparent_from, wake_parent,
  proc_addr,
}
use os_proc_lap02_system_cal.Proc.Load.{update_runnable_procs}
use os_proc_lap02_system_cal.Proc.Wakeup.{wakeup_lem}
use os_proc_lap02_system_cal.Proc.Average.{ready, sum_from, loadavg_bounds}
use os_proc_lap02_system_cal.Proc.Forking.{Forked, fork-Forked}
use os_proc_lap02_system_cal.Proc.Orphans.{become_zombie_lem}
use os_proc_lap02_system_cal.Proc.KillZero.{kill_zero}

-- Entry 1 has exited.
abbrev one_exited : Kernel ℕ
one_exited = put two_procs 1 (record running_entry { state = State.zombie; xstate = 9 })

wakeup_lem_example :
    let me : Option ℕ = some 1 in
    let first : Option ℕ = some 0 in
    let woken = (wakeup (some 1) 5000 two_procs).procs 0 in
    (0 < n_proc
      → me ≢ first
      → init_entry_0.state ≡ State.sleeping
      → init_entry_0.chan ≡ 5000
      → woken ≡ record init_entry_0 { state = State.runnable })
    × (me ≡ first → woken ≡ init_entry_0)
    × (init_entry_0.state ≢ State.sleeping → woken ≡ init_entry_0)
    × (init_entry_0.chan ≢ 5000 → woken ≡ init_entry_0)
    × (n_proc ≤ 0 → woken ≡ init_entry_0)
wakeup_lem_example = wakeup_lem (some 1) 5000 two_procs 0

loadavg_bounds_example :
    let t = update_runnable_procs two_procs in
    (t.runnable_procs ≡ sum_from ready n_proc 0 two_procs.procs)
    × (t.runnable_procs ≤ n_proc)
    × (t.loadavg ≡ 4 / 2 + sum_from ready n_proc 0 two_procs.procs)
    × (t.loadavg ≤ 128)
loadavg_bounds_example = loadavg_bounds two_procs (omega arith)

-- The value of a call that does not panic.
value : {A : Type 0} → A → Option A → A
value d none = d
value d (some a) = a

slot_of_alloc : Option ℕ × Kernel ℕ
unfolding value allocproc find_unused init_entry taken set_up allocpid proc_pagetable
slot_of_alloc = value (none, two_procs) (allocproc toy 0x8000_7000 0x8000_2000 two_procs)

-- A world in which memory has run out.
abbrev no_memory : World
no_memory = record toy { kalloc = λ m. (0, m) }

slot_of_failure : Option ℕ × Kernel ℕ
unfolding value allocproc find_unused init_entry taken give_up allocpid freeproc
slot_of_failure = value (some 5, two_procs) (allocproc no_memory 0x8000_7000 0x8000_2000 two_procs)

forked : ℤ × Kernel ℕ
unfolding value fork fork_slot fork_into fork_copied fork_files child dup_from allocproc find_unused
    init_entry taken set_up allocpid proc_pagetable
forked = value (negsuc 0, two_procs) (fork toy 0x8000_7000 0x8000_2000 1 two_procs)

fork-Forked_example : Forked toy 0x8000_7000 0x8000_2000 1 two_procs forked
unfolding forked value
fork-Forked_example = fork-Forked toy 0x8000_7000 0x8000_2000 1 two_procs refl forked refl

fork_result :
    (forked.0 ≡ pos 3) × ((forked.1.procs 2).pid ≡ 3) × ((forked.1.procs 2).trace_mask ≡ 2)
unfolding forked value
fork_result = (refl, refl, refl)

waited : Wait 5000 360 toy 0x8000_7000 0x8000_2000
unfolding value wait wait_from reap reaped freeproc killed
waited = value asleep (wait 5000 360 toy 0x8000_7000 0x8000_2000 0 0 one_exited)

abbrev in_sched : Cpu
in_sched = record { holds = true; noff = 1; intr = false }

after_exit : Kernel ℕ
unfolding value become_zombie hand_over wake_parent reparent_from wakeup wakeup_from sched
after_exit =
    value two_procs (become_zombie 5000 360 toy 0x8000_7000 0x8000_2000 in_sched 1 0 9 two_procs)

become_zombie_lem_example :
    ((after_exit.procs 1).state ≡ State.zombie)
    × ((after_exit.procs 1).xstate ≡ 9)
    × ((j : ℕ)
        → j < n_proc
        → j ≢ 1
        → (after_exit.procs j).parent
          ≡ (if is_parent (two_procs.procs j).parent 1 then some 0 else (two_procs.procs j).parent))
    × ((q : ℕ)
        → q < n_proc
        → q ≢ 1
        → some 0 ≡ some q
        → is_sleeping (after_exit.procs q).state
            && ((after_exit.procs q).chan == proc_addr 5000 360 q)
          ≡ false)
unfolding after_exit value
become_zombie_lem_example =
    become_zombie_lem 5000 360 toy 0x8000_7000 0x8000_2000 in_sched 1 0 9 two_procs after_exit refl

exit_wakes_init : (after_exit.procs 0).state ≡ State.runnable
unfolding after_exit value
exit_wakes_init = refl

born_killed : Option ℕ × Kernel ℕ
unfolding value kill kill_from allocproc find_unused init_entry taken set_up allocpid proc_pagetable
born_killed = value (none, two_procs) (allocproc toy 0x8000_7000 0x8000_2000 (kill 0 two_procs).1)

first_unused : (l : ℕ) → l < 2 → (two_procs.procs l).pid ≢ 0
first_unused zero lt = omega arith
first_unused (suc zero) lt = omega arith
first_unused (suc (suc l)) lt = absurd (omega arith)

kill_zero_example : ((kill 0 two_procs).0 ≡ pos 0) × ((born_killed.1.procs 2).killed ≡ true)
unfolding born_killed value
kill_zero_example =
    kill_zero toy 0x8000_7000 0x8000_2000 two_procs born_killed.1 2 (omega arith) refl refl
      first_unused refl
