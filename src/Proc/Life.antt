-- ===== src/Proc/Life.antt =====
-- kernel/proc.c: how a process comes to be: allocpid, allocproc, freeproc, userinit and fork.
use os_proc_lap02_system_cal.Prelude.{
  ℕ, zero, suc, ◌+◌, Bool, true, false, Option, none, some, List, [], ◌==◌, if◌then◌else◌, update,
  ◌>>=◌,
}
use os_proc_lap02_system_cal.Prelude.Int.{ℤ, pos, negsuc}
use os_proc_lap02_system_cal.Layout.{n_proc, n_ofile, pg_size, kstack_va}
use os_proc_lap02_system_cal.Proc.{Proc, State, Kernel, World, put, is_unused, tf_epc, tf_sp, tf_a0}
use os_proc_lap02_system_cal.Proc.Memory.{proc_pagetable, proc_freepagetable}

-- `procinit` from entry `i` on.
unfoldable pub procinit_from : ℕ → ℕ → (ℕ → Proc) → ℕ → Proc
procinit_from zero i procs = procs
procinit_from (suc k) i procs =
    procinit_from k (i + 1)
      (update procs i (record (procs i) { state = State.unused; kstack = kstack_va i }))

unfoldable pub procinit : {M : Type 0} → Kernel M → Kernel M
procinit s = record s { procs = procinit_from n_proc 0 s.procs }

-- `pid = nextpid; nextpid = nextpid + 1`. The counter is an `int`, which the code lets overflow; here it
-- has no bound, as for the first 2^31 - 2 processes.
unfoldable pub allocpid : {M : Type 0} → Kernel M → ℕ × Kernel M
allocpid s = (s.nextpid, record s { nextpid = s.nextpid + 1 })

-- The loop of `allocproc`: the first unused entry from `i` on.
unfoldable pub find_unused : ℕ → ℕ → (ℕ → Proc) → Option ℕ
find_unused zero i procs = none
find_unused (suc k) i procs =
    let rest = find_unused k (i + 1) procs in if is_unused (procs i).state then some i else rest

-- What `freeproc` writes into the entry. `name[0] = 0` empties the string.
abbrev pub clear_entry : Proc → Proc
clear_entry p = record p {
  trapframe = 0;
  pagetable = 0;
  sz = 0;
  pid = 0;
  parent = none;
  name = [];
  chan = 0;
  killed = false;
  xstate = 0;
  state = State.unused;
}

-- What `fork` writes into the child's entry: the stores of lines 300 to 328.
unfoldable pub child : {M : Type 0} → ℕ → ℕ → (ℕ → ℕ) → Kernel M → Kernel M
child me np ofile s =
    let p = s.procs me in
    put s np (record (s.procs np) {
      sz = p.sz;
      regs = update p.regs tf_a0 0;
      trace_mask = p.trace_mask;
      ofile = ofile;
      cwd = p.cwd;
      name = p.name;
      parent = some me;
      state = State.runnable;
    })

module _ (w : World) (trampoline forkret : ℕ) where
  open w use {Mem, kalloc, kfree, uvmfirst, uvmcopy, filedup, idup, namei}

  unfoldable pub freeproc : ℕ → Kernel Mem → Option (Kernel Mem)
  freeproc i s =
      let p = s.procs i in
      (if p.trapframe == 0 then some s.mem else kfree p.trapframe s.mem) >>= λ m1.
      (if p.pagetable == 0 then some m1 else proc_freepagetable w trampoline p.pagetable p.sz m1)
      >>= λ m2. some (put (record s { mem = m2 }) i (clear_entry p))

  -- A failed `allocproc` frees the entry again.
  unfoldable pub give_up : ℕ → Kernel Mem → Option (Option ℕ × Kernel Mem)
  give_up i s = freeproc i s >>= λ t. some (none, t)

  -- `found:` in `allocproc`, for the entry `i`: a pid, and the page that `kalloc` returns.
  unfoldable pub taken : ℕ → Kernel Mem → Kernel Mem
  unfolding allocpid
  taken i s =
      let (pid, s1) = allocpid s in
      let (trapframe, m1) = kalloc s.mem in
      put (record s1 { mem = m1 }) i
        (record (s1.procs i) { pid = pid; state = State.used; trapframe = trapframe })

  -- The rest of `allocproc`, once `proc_pagetable` has returned.
  unfoldable pub set_up : ℕ → Kernel Mem → ℕ × Mem → Option (Option ℕ × Kernel Mem)
  unfolding give_up
  set_up i s (pagetable, m2) =
      let t = put (record s { mem = m2 }) i (record (s.procs i) { pagetable = pagetable }) in
      if pagetable == 0
      then give_up i t
      else some (
        some i,
        put t i (record (t.procs i) {
          ra = forkret;
          sp = (t.procs i).kstack + pg_size;
          trace_mask = 0;
        }),
      )

  unfoldable pub init_entry : ℕ → Kernel Mem → Option (Option ℕ × Kernel Mem)
  unfolding give_up
  init_entry i s =
      let t = taken i s in
      let (trapframe, m1) = kalloc s.mem in
      if trapframe == 0
      then give_up i t
      else proc_pagetable w trampoline trapframe m1 >>= set_up i t

  unfoldable pub allocproc : Kernel Mem → Option (Option ℕ × Kernel Mem)
  allocproc s = elim (find_unused n_proc 0 s.procs) [
    | none ↦ some (none, s)
    | some i ↦ init_entry i s
  ]

  -- The loop of `fork` over the open files of the parent.
  unfoldable pub dup_from : ℕ → ℕ → (ℕ → ℕ) → (ℕ → ℕ) → Mem → Option ((ℕ → ℕ) × Mem)
  dup_from zero fd from to m = some (to, m)
  dup_from (suc k) fd from to m = elim (from fd == 0) [
    | true ↦ dup_from k (fd + 1) from to m
    | false ↦ filedup (from fd) m >>= dup_from k (fd + 1) from (update to fd (from fd))
  ]

  -- `fork` after `uvmcopy` and the loop over the files.
  unfoldable pub fork_files : ℕ → ℕ → Kernel Mem → (ℕ → ℕ) × Mem → Option (ℤ × Kernel Mem)
  fork_files me np s (ofile, m2) = idup (s.procs me).cwd m2 >>= λ m3.
      some (pos (s.procs np).pid, child me np ofile (record s { mem = m3 }))

  -- `fork` after `uvmcopy`, which says whether it succeeded.
  unfoldable pub fork_copied : ℕ → ℕ → Kernel Mem → Bool × Mem → Option (ℤ × Kernel Mem)
  fork_copied me np s (false, m1) = freeproc np (record s { mem = m1 }) >>= λ t. some (negsuc 0, t)
  fork_copied me np s (true, m1) =
      dup_from n_ofile 0 (s.procs me).ofile (s.procs np).ofile m1 >>= fork_files me np s

  -- `fork` after `allocproc` has given it the entry `np`.
  unfoldable pub fork_into : ℕ → ℕ → Kernel Mem → Option (ℤ × Kernel Mem)
  fork_into me np s =
      let p = s.procs me in
      uvmcopy p.pagetable (s.procs np).pagetable p.sz s.mem >>= fork_copied me np s

  unfoldable pub fork_slot : ℕ → Option ℕ × Kernel Mem → Option (ℤ × Kernel Mem)
  fork_slot me (none, t) = some (negsuc 0, t)
  fork_slot me (some np, t) = fork_into me np t

  unfoldable pub fork : ℕ → Kernel Mem → Option (ℤ × Kernel Mem)
  fork me s = allocproc s >>= fork_slot me

  -- `userinit`: `none` also where `allocproc` finds no entry, since the code then follows a null
  -- pointer. `initcode` and the two strings are constants of the source.
  unfoldable pub userinit : List ℕ → List ℕ → List ℕ → Kernel Mem → Option (Kernel Mem)
  userinit initcode initname root s = allocproc s >>= λ (slot, t). slot >>= λ i.
      uvmfirst (t.procs i).pagetable initcode t.mem >>= λ m1. namei root m1 >>= λ (cwd, m2). some (
        put (record t { initproc = some i; mem = m2 }) i
          (record (t.procs i) {
            sz = pg_size;
            regs = update (update (t.procs i).regs tf_epc 0) tf_sp pg_size;
            name = initname;
            cwd = cwd;
            state = State.runnable;
          }))
