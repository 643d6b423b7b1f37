-- ===== src/Proc/Wait.antt =====
-- kernel/proc.c: how a process ends: exit, reparent and wait.
use os_proc_lap02_system_cal.Prelude.{
  ℕ, zero, suc, ◌+◌, ◌*◌, ◌/◌, ◌%◌, Bool, true, false, not, ◌||◌, Option, none, some, List, [], ◌∷◌,
  ◌==◌, if◌then◌else◌, update, ◌>>=◌,
}
use os_proc_lap02_system_cal.Prelude.Int.{ℤ, pos, negsuc}
use os_proc_lap02_system_cal.Layout.{n_proc, n_ofile}
use os_proc_lap02_system_cal.Proc.{State, Kernel, World, put, is_parent, is_zombie}
use os_proc_lap02_system_cal.Proc.Sched.{Cpu, wakeup, sched, killed}
use os_proc_lap02_system_cal.Proc.Life.{freeproc}

-- The address of an entry of the table: the channel on which its process waits for its children.
-- `proc` is the address of the table, and an entry takes `proc_size` bytes.
abbrev pub proc_addr : ℕ → ℕ → ℕ → ℕ
proc_addr table proc_size i = table + i * proc_size

module _ (table proc_size : ℕ) where
  -- `reparent` from entry `i` on. `initproc` is not null when a process runs.
  unfoldable pub reparent_from : {M : Type 0} → ℕ → ℕ → ℕ → ℕ → Kernel M → Kernel M
  reparent_from zero i me init s = s
  reparent_from (suc k) i me init s = reparent_from k (i + 1) me init (
      if is_parent (s.procs i).parent me
      then wakeup (some me) (proc_addr table proc_size init)
          (put s i (record (s.procs i) { parent = some init }))
      else s)

  -- `wakeup(p->parent)`
  unfoldable pub wake_parent : {M : Type 0} → ℕ → Option ℕ → Kernel M → Kernel M
  wake_parent me none t = wakeup (some me) 0 t
  wake_parent me (some q) t = wakeup (some me) (proc_addr table proc_size q) t

  -- `exit` after its files are closed and its directory is put, with wait_lock held: its children
  -- go to init, and its parent is woken.
  unfoldable pub hand_over : {M : Type 0} → ℕ → ℕ → Kernel M → Kernel M
  hand_over me init s =
      let t = reparent_from n_proc 0 me init s in wake_parent me (t.procs me).parent t

  module _ (w : World) (trampoline forkret : ℕ) where
    open w use {Mem, fileclose, begin_op, end_op, iput, copyout}

    -- The loop of `exit` over the open files from `fd` on.
    unfoldable pub close_from : ℕ → ℕ → (ℕ → ℕ) → Mem → Option ((ℕ → ℕ) × Mem)
    close_from zero fd ofile m = some (ofile, m)
    close_from (suc k) fd ofile m = elim (ofile fd == 0) [
      | true ↦ close_from k (fd + 1) ofile m
      | false ↦ fileclose (ofile fd) m >>= close_from k (fd + 1) (update ofile fd 0)
    ]

    -- Then, with p->lock held, it becomes a zombie and calls `sched`.
    unfoldable pub become_zombie : Cpu → ℕ → ℕ → ℕ → Kernel Mem → Option (Kernel Mem)
    become_zombie c me init status s =
        let u = hand_over me init s in
        let p = record (u.procs me) { xstate = status; state = State.zombie } in
        sched c p >>= λ _. some (put u me p)

    -- `exit` up to the switch to the scheduler, from which it does not come back. A null `initproc`
    -- does not occur while a process runs.
    unfoldable pub exit : Cpu → ℕ → ℕ → Kernel Mem → Option (Kernel Mem)
    exit c me status s = s.initproc >>= λ init.
        if init == me
        then none
        else close_from n_ofile 0 (s.procs me).ofile s.mem >>= λ (ofile, m1). begin_op m1 >>= λ m2.
            iput (s.procs me).cwd m2 >>= λ m3. end_op m3 >>= λ m4.
            become_zombie c me init status
              (put (record s { mem = m4 }) me (record (s.procs me) { ofile = ofile; cwd = 0 }))

    -- One pass of the endless loop of `wait`: it returns, or sleeps on the caller's own entry.
    pub data Wait : Type 0 where
      returned : ℤ → Kernel Mem → Wait
      asleep : Wait

    -- The four bytes of an `int`, lowest first.
    abbrev pub int_bytes : ℕ → List ℕ
    int_bytes n = n % 256 ∷ n / 256 % 256 ∷ n / 65536 % 256 ∷ n / 16777216 % 256 ∷ []

    -- `wait` has found an exited child in entry `i`, and has reported its status if `ok`.
    unfoldable pub reaped : ℕ → Kernel Mem → Bool × Mem → Option Wait
    reaped i s (false, m) = some (returned (negsuc 0) (record s { mem = m }))
    reaped i s (true, m) = freeproc w trampoline forkret i (record s { mem = m }) >>= λ u.
        some (returned (pos (s.procs i).pid) u)

    unfoldable pub reap : ℕ → ℕ → ℕ → Kernel Mem → Option Wait
    reap me addr i s =
        (if addr == 0
          then some (true, s.mem)
          else copyout (s.procs me).pagetable addr (int_bytes (s.procs i).xstate) s.mem)
        >>= reaped i s

    -- The scan of the table from entry `i` on; `havekids` as in the code.
    unfoldable pub wait_from : ℕ → ℕ → ℕ → ℕ → Bool → Kernel Mem → Option Wait
    wait_from zero i me addr havekids s =
        if not havekids || killed me s then some (returned (negsuc 0) s) else some asleep
    wait_from (suc k) i me addr havekids s =
        let next = wait_from k (i + 1) me addr true s in
        let skip = wait_from k (i + 1) me addr havekids s in
        if is_parent (s.procs i).parent me
        then if is_zombie (s.procs i).state then reap me addr i s else next
        else skip

    unfoldable pub wait : ℕ → ℕ → Kernel Mem → Option Wait
    wait me addr s = wait_from n_proc 0 me addr false s
