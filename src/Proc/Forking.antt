-- ===== src/Proc/Forking.antt =====
-- kernel/proc.c: what `fork` makes of the parent.
use os_proc_lap02_system_cal.Prelude.{
  ℕ, zero, suc, ◌+◌, ◌≤◌, ◌<◌, ◌≡◌, ◌≢◌, inl, inr, refl, sym, ap, ◌∙◌, Bool, true, false, Option,
  none, some, arith, ℕ_discrete, ◌==◌, Bool-cases, update, update_self, update_ne, Ensures,
  Ensures-bind, Ensures-map, Ensures-some,
}
use os_proc_lap02_system_cal.Prelude.Int.{ℤ, pos, negsuc}
use os_proc_lap02_system_cal.Layout.{n_proc, n_ofile}
use os_proc_lap02_system_cal.Proc.{Proc, State, Kernel, World, is_unused, tf_a0}
use os_proc_lap02_system_cal.Proc.Life.{
  fork_slot, allocproc, freeproc, dup_from, fork_into, fork_copied, fork_files, child, fork,
}
use os_proc_lap02_system_cal.Proc.Slots.{freeproc-Beside, Allocated, allocproc-some, allocproc-none}

module _ (w : World) (trampoline forkret : ℕ) where
  open w use {Mem, filedup, idup, uvmcopy}

  -- The open files of the child once `dup_from` has gone through `k` descriptors from `fd` on.
  record Copied (k fd : ℕ) (from to : ℕ → ℕ) (out : (ℕ → ℕ) × Mem) : Type 0 where
    copied : (j : ℕ) → fd ≤ j → j < fd + k → from j ≢ 0 → out.0 j ≡ from j
    before : (j : ℕ) → j < fd → out.0 j ≡ to j

  dup_from-Copied :
      (k fd : ℕ) (from to : ℕ → ℕ) (m : Mem)
      → Ensures (Copied k fd from to) (dup_from w trampoline forkret k fd from to m)
  unfolding dup_from
  dup_from-Copied zero fd from to m = record {
    copied = λ j lo hi ne. absurd (omega arith);
    before = λ j lt. refl;
  }
  dup_from-Copied (suc k) fd from to m = elim (Bool-cases (from fd == 0)) [
    | inl z ↦
        rw (z, dup_from)
          (Ensures-map _ _ (dup_from w trampoline forkret k (fd + 1) from to m)
            (λ out h. record {
              copied = λ j lo hi ne. elim (ℕ_discrete fd j) [
                | yes same ↦ absurd (ne (ground arith))
                | no other ↦ h.copied j (omega arith) (omega arith) ne
              ];
              before = λ j lt. h.before j (omega arith);
            })
            (dup_from-Copied k (fd + 1) from to m))
    | inr nz ↦
        rw (nz, dup_from)
          (Ensures-bind (Copied (suc k) fd from to) (filedup (from fd) m)
            (dup_from w trampoline forkret k (fd + 1) from (update to fd (from fd)))
            λ m1 e.
              Ensures-map _ _
                (dup_from w trampoline forkret k (fd + 1) from (update to fd (from fd)) m1)
                (λ out h. record {
                  copied = λ j lo hi ne. elim (ℕ_discrete fd j) [
                    | yes same ↦
                        rw (← same) (h.before fd (omega arith) ∙ update_self to fd (from fd))
                    | no other ↦ h.copied j (omega arith) (omega arith) ne
                  ];
                  before =
                      λ j lt. h.before j (omega arith) ∙ update_ne to fd j (from fd) (omega arith);
                })
                (dup_from-Copied k (fd + 1) from (update to fd (from fd)) m1))
  ]

  -- The child in entry `np`, as `fork` leaves it.
  pub record Child (me np : ℕ) (s t : Kernel Mem) : Type 0 where
    pub others : (j : ℕ) → j ≢ np → t.procs j ≡ s.procs j
    pub state_eq : (t.procs np).state ≡ State.runnable
    pub parent_eq : (t.procs np).parent ≡ some me
    pub size_eq : (t.procs np).sz ≡ (s.procs me).sz
    pub regs_eq : (t.procs np).regs ≡ update (s.procs me).regs tf_a0 0
    pub mask_eq : (t.procs np).trace_mask ≡ (s.procs me).trace_mask
    pub cwd_eq : (t.procs np).cwd ≡ (s.procs me).cwd
    pub files :
        (fd : ℕ)
        → fd < n_ofile
        → (s.procs me).ofile fd ≢ 0
        → (t.procs np).ofile fd ≡ (s.procs me).ofile fd

  abbrev ForkOutcome : ℕ → ℕ → Kernel Mem → ℤ × Kernel Mem → Type 0
  ForkOutcome me np s (pos pid, t) =
      (pid ≡ (s.procs np).pid) × ((t.procs np).pid ≡ pid) × Child me np s t
  ForkOutcome me np s (negsuc n, t) =
      (n ≡ 0) × ((j : ℕ) → j ≢ np → t.procs j ≡ s.procs j) × ((t.procs np).state ≡ State.unused)

  -- The child's entry.
  child-Child :
      (me np : ℕ) (s : Kernel Mem) (ofile : ℕ → ℕ) (m : Mem)
      → ((fd : ℕ) → fd < n_ofile → (s.procs me).ofile fd ≢ 0 → ofile fd ≡ (s.procs me).ofile fd)
      → Child me np s (child me np ofile (record s { mem = m }))
  unfolding child
  child-Child me np s ofile m files = record {
    others = λ j ne. rw (apart j ne);
    state_eq = rw self;
    parent_eq = rw self;
    size_eq = rw self;
    regs_eq = rw self;
    mask_eq = rw self;
    cwd_eq = rw self;
    files = λ fd lt ne. rw self (files fd lt ne);
  }
    where
      self : (np == np) ≡ true
      self = ground arith

      apart : (j : ℕ) → j ≢ np → (np == j) ≡ false
      apart j ne = ground arith

  child-pid :
      (me np : ℕ) (ofile : ℕ → ℕ) (s : Kernel Mem)
      → ((child me np ofile s).procs np).pid ≡ (s.procs np).pid
  unfolding child
  child-pid me np ofile s = let self : (np == np) ≡ true = ground arith in rw self

  fork_files-ForkOutcome :
      (me np : ℕ) (s : Kernel Mem) (ofile : ℕ → ℕ) (m2 : Mem)
      → ((fd : ℕ) → fd < n_ofile → (s.procs me).ofile fd ≢ 0 → ofile fd ≡ (s.procs me).ofile fd)
      → Ensures (ForkOutcome me np s) (fork_files w trampoline forkret me np s (ofile, m2))
  unfolding fork_files
  fork_files-ForkOutcome me np s ofile m2 files =
      Ensures-bind (ForkOutcome me np s) (idup (s.procs me).cwd m2)
        (λ m3. some (pos (s.procs np).pid, child me np ofile (record s { mem = m3 })))
        λ m3 e.
          (refl, child-pid me np ofile (record s { mem = m3 }), child-Child me np s ofile m3 files)

  fork_copied-ForkOutcome :
      (me np : ℕ) (s : Kernel Mem) (r : Bool × Mem)
      → Ensures (ForkOutcome me np s) (fork_copied w trampoline forkret me np s r)
  unfolding fork_copied
  fork_copied-ForkOutcome me np s (false, m1) =
      Ensures-bind (ForkOutcome me np s) (freeproc w trampoline forkret np (record s { mem = m1 }))
        (λ t. some (negsuc 0, t))
        λ t e.
          let (b, cleared, next) =
            freeproc-Beside w trampoline forkret np (record s { mem = m1 }) t e in
          (refl, b.others, ap (λ (p : Proc). p.state) cleared)
  fork_copied-ForkOutcome me np s (true, m1) =
      Ensures-bind (ForkOutcome me np s)
        (dup_from w trampoline forkret n_ofile 0 (s.procs me).ofile (s.procs np).ofile m1)
        (fork_files w trampoline forkret me np s)
        λ (ofile, m2) e.
          let c =
            Ensures-some _ _ (ofile, m2)
              (dup_from-Copied n_ofile 0 (s.procs me).ofile (s.procs np).ofile m1) e in
          fork_files-ForkOutcome me np s ofile m2 (λ fd lt ne. c.copied fd (omega arith) lt ne)

  fork_into-ForkOutcome :
      (me np : ℕ) (s : Kernel Mem)
      → Ensures (ForkOutcome me np s) (fork_into w trampoline forkret me np s)
  unfolding fork_into
  fork_into-ForkOutcome me np s =
      Ensures-bind Q (uvmcopy p.pagetable (s.procs np).pagetable p.sz s.mem)
        (fork_copied w trampoline forkret me np s) copied
    where
      p : Proc
      p = s.procs me

      Q : ℤ × Kernel Mem → Type 0
      Q = ForkOutcome me np s

      copied :
          (r : Bool × Mem)
          → uvmcopy p.pagetable (s.procs np).pagetable p.sz s.mem ≡ some r
          → Ensures Q (fork_copied w trampoline forkret me np s r)
      copied r e = fork_copied-ForkOutcome me np s r

  -- What `fork` returns, and what it leaves in the table.
  abbrev pub Forked : ℕ → Kernel Mem → ℤ × Kernel Mem → Type 0
  Forked me s (pos pid, t) =
      (i : ℕ) × (i < n_proc)
      × ((s.procs i).state ≡ State.unused)
      × (pid ≡ s.nextpid)
      × ((t.procs i).pid ≡ pid)
      × Child me i s t
  Forked me s (negsuc n, t) =
      (n ≡ 0)
      × ((j : ℕ) → is_unused (s.procs j).state ≡ false → t.procs j ≡ s.procs j)
      × ((j : ℕ) → (s.procs j).state ≡ State.unused → (t.procs j).state ≡ State.unused)

  Child-before :
      (me i : ℕ) (s u t : Kernel Mem)
      → me ≢ i
      → Allocated w trampoline forkret i s u
      → Child me i u t
      → Child me i s t
  Child-before me i s u t ne a c = record {
    others = λ j n. c.others j n ∙ a.others j n;
    state_eq = c.state_eq;
    parent_eq = c.parent_eq;
    size_eq = c.size_eq ∙ ap (λ (p : Proc). p.sz) parent;
    regs_eq = c.regs_eq ∙ ap (λ (p : Proc). update p.regs tf_a0 0) parent;
    mask_eq = c.mask_eq ∙ ap (λ (p : Proc). p.trace_mask) parent;
    cwd_eq = c.cwd_eq ∙ ap (λ (p : Proc). p.cwd) parent;
    files = λ fd lt ne'.
        c.files fd lt (λ z. ne' (sym (ap (λ (p : Proc). p.ofile fd) parent) ∙ z))
        ∙ ap (λ (p : Proc). p.ofile fd) parent;
  }
    where
      parent : u.procs me ≡ s.procs me
      parent = a.others me ne

  in_use :
      (s : Kernel Mem) (j i : ℕ)
      → is_unused (s.procs j).state ≡ false
      → (s.procs i).state ≡ State.unused
      → j ≢ i
  in_use s j i live free e = cc (ap (λ k. is_unused (s.procs k).state) e, ap is_unused free)

  ForkOutcome-Forked :
      (me i : ℕ) (s u : Kernel Mem)
      → is_unused (s.procs me).state ≡ false
      → i < n_proc
      → (s.procs i).state ≡ State.unused
      → Allocated w trampoline forkret i s u
      → (r : ℤ × Kernel Mem) → ForkOutcome me i u r
      → Forked me s r
  ForkOutcome-Forked me i s u live lt free a (pos pid, t) (e, e', c) =
      (i, lt, free, e ∙ a.pid_eq, e', Child-before me i s u t (in_use s me i live free) a c)
  ForkOutcome-Forked me i s u live lt free a (negsuc n, t) (z, others, gone) = (
    z,
    (λ j used. others j (in_use s j i used free) ∙ a.others j (in_use s j i used free)),
    λ j unused. elim (ℕ_discrete j i) [
      | yes same ↦ rw same gone
      | no ne ↦ ap (λ (p : Proc). p.state) (others j ne ∙ a.others j ne) ∙ unused
    ],
  )

  fork_slot-Forked :
      (me : ℕ) (s : Kernel Mem)
      → is_unused (s.procs me).state ≡ false
      → (slot : Option ℕ) (u : Kernel Mem) → allocproc w trampoline forkret s ≡ some (slot, u)
      → Ensures (Forked me s) (fork_slot w trampoline forkret me (slot, u))
  unfolding fork_slot
  fork_slot-Forked me s live none u e = elim (allocproc-none w trampoline forkret s u e) [
    | inl (same, full) ↦ (
      refl,
      (λ j used. ap (λ (k : Kernel Mem). k.procs j) same),
      λ j unused. ap (λ (k : Kernel Mem). (k.procs j).state) same ∙ unused,
    )
    | inr (i, lt, free, gone, others, next) ↦ (
      refl,
      (λ j used. others j (in_use s j i used free)),
      λ j unused. elim (ℕ_discrete j i) [
        | yes same ↦ rw same gone
        | no ne ↦ ap (λ (p : Proc). p.state) (others j ne) ∙ unused
      ],
    )
  ]
  fork_slot-Forked me s live (some i) u e =
      let (lt, free, a) = allocproc-some w trampoline forkret s u i e in
      Ensures-map (ForkOutcome me i u) (Forked me s) (fork_into w trampoline forkret me i u)
        (ForkOutcome-Forked me i s u live lt free a) (fork_into-ForkOutcome me i u)

  -- `fork`, called by a process that is in use. If it returns a pid, that is the next pid in order,
  -- an entry that was unused is now the child's: runnable, with the caller as its parent, the
  -- caller's size, directory, open files and mask of traced system calls, and its registers but for
  -- a0, which is 0; no other entry has changed. If it returns -1, every entry that was in use is as
  -- before, and every unused entry is unused.
  pub fork-Forked :
      (me : ℕ) (s : Kernel Mem)
      → is_unused (s.procs me).state ≡ false
      → (r : ℤ × Kernel Mem) → fork w trampoline forkret me s ≡ some r
      → Forked me s r
  unfolding fork
  fork-Forked me s live r h =
      Ensures-some (Forked me s) (fork w trampoline forkret me s) r
        (Ensures-bind (Forked me s) (allocproc w trampoline forkret s)
          (fork_slot w trampoline forkret me) (λ (slot, u) e. fork_slot-Forked me s live slot u e))
        h
