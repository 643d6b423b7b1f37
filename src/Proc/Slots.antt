-- ===== src/Proc/Slots.antt =====
-- kernel/proc.c: what `allocproc` and `freeproc` do to the table.
use os_proc_lap02_system_cal.Prelude.{
  Ensures-some, Ensures-bind, Ensures, ℕ, zero, suc, ◌+◌, ◌≤◌, ◌<◌, ◌≡◌, ◌≢◌, ◌⊎◌, inl, inr, refl,
  ap, ◌∙◌, true, false, Option, none, some, arith, ℕ_discrete, ◌==◌, Bool-cases, Option-cases,
}
use os_proc_lap02_system_cal.Layout.{n_proc, pg_size}
use os_proc_lap02_system_cal.Proc.{Proc, State, Kernel, World, put, is_unused}
use os_proc_lap02_system_cal.Proc.Memory.{proc_pagetable}
use os_proc_lap02_system_cal.Proc.Life.{
  set_up, taken, give_up, allocpid, find_unused, clear_entry, freeproc, init_entry, allocproc,
}

-- The scan finds the first unused entry.
pub find_unused-some :
    (k i : ℕ) (procs : ℕ → Proc) (j : ℕ)
    → find_unused k i procs ≡ some j
    → (i ≤ j)
      × (j < i + k)
      × ((procs j).state ≡ State.unused)
      × ((l : ℕ) → i ≤ l → l < j → is_unused (procs l).state ≡ false)
unfolding find_unused
find_unused-some zero i procs j h = cc
find_unused-some (suc k) i procs j h = elim (Bool-cases (is_unused (procs i).state)) [
  | inl e ↦
      let same : i ≡ j = ground arith in
      (omega arith, omega arith, ground arith, λ l lo hi. absurd (omega arith))
  | inr e ↦
      let (lo, hi, free, before) = find_unused-some k (i + 1) procs j (ground arith) in
      (
        omega arith,
        omega arith,
        free,
        λ l lo' hi'. elim (ℕ_discrete i l) [
          | yes same ↦ rw (← same) e
          | no ne ↦ before l (omega arith) hi'
        ],
      )
]

pub find_unused-none :
    (k i : ℕ) (procs : ℕ → Proc)
    → find_unused k i procs ≡ none
    → (l : ℕ) → i ≤ l
    → l < i + k
    → is_unused (procs l).state ≡ false
unfolding find_unused
find_unused-none zero i procs h l lo hi = absurd (omega arith)
find_unused-none (suc k) i procs h l lo hi = elim (Bool-cases (is_unused (procs i).state)) [
  | inl e ↦ absurd (ground arith)
  | inr e ↦ elim (ℕ_discrete i l) [
    | yes same ↦ rw (← same) e
    | no ne ↦ find_unused-none k (i + 1) procs (ground arith) l (omega arith) (omega arith)
  ]
]

module _ (w : World) (trampoline forkret : ℕ) where
  open w use {Mem, kalloc, kfree}

  -- What a call changes besides the table: memory, and the counter of pids.
  pub record Beside (i : ℕ) (s t : Kernel Mem) : Type 0 where
    pub others : (j : ℕ) → j ≢ i → t.procs j ≡ s.procs j
    pub same_init : t.initproc ≡ s.initproc

  -- `freeproc` empties the entry `i`, and touches no other.
  pub freeproc-Beside :
      (i : ℕ) (s t : Kernel Mem)
      → freeproc w trampoline forkret i s ≡ some t
      → Beside i s t × (t.procs i ≡ clear_entry (s.procs i)) × (t.nextpid ≡ s.nextpid)
  unfolding freeproc
  freeproc-Beside i s t h = (
    record { others = λ j ne. ground arith; same_init = ground arith },
    ground arith,
    ground arith,
  )

  -- The entry `i` as `allocproc` hands it out.
  pub record Allocated (i : ℕ) (s t : Kernel Mem) : Type 0 where
    pub others : (j : ℕ) → j ≢ i → t.procs j ≡ s.procs j
    pub state_eq : (t.procs i).state ≡ State.used
    pub pid_eq : (t.procs i).pid ≡ s.nextpid
    pub next_eq : t.nextpid ≡ s.nextpid + 1
    pub mask_eq : (t.procs i).trace_mask ≡ 0
    pub killed_eq : (t.procs i).killed ≡ (s.procs i).killed
    pub parent_eq : (t.procs i).parent ≡ (s.procs i).parent
    pub ofile_eq : (t.procs i).ofile ≡ (s.procs i).ofile
    pub has_trapframe : (t.procs i).trapframe ≢ 0
    pub has_pagetable : (t.procs i).pagetable ≢ 0
    pub entry_point : ((t.procs i).ra ≡ forkret) × ((t.procs i).sp ≡ (s.procs i).kstack + pg_size)

  -- What `allocproc` promises once it has found the unused entry `i`.
  abbrev pub Outcome : ℕ → Kernel Mem → Option ℕ × Kernel Mem → Type 0
  Outcome i s (some j, t) = (j ≡ i) × Allocated i s t
  Outcome i s (none, t) =
      ((j : ℕ) → j ≢ i → t.procs j ≡ s.procs j)
      × ((t.procs i).state ≡ State.unused)
      × (t.nextpid ≡ s.nextpid + 1)

  give_up-Outcome :
      (i : ℕ) (s u : Kernel Mem)
      → ((j : ℕ) → j ≢ i → u.procs j ≡ s.procs j)
      → u.nextpid ≡ s.nextpid + 1
      → Ensures (Outcome i s) (give_up w trampoline forkret i u)
  unfolding give_up
  give_up-Outcome i s u others next =
      Ensures-bind (Outcome i s) (freeproc w trampoline forkret i u) (λ t. some (none, t))
        λ t e.
          let (b, cleared, same_next) = freeproc-Beside i u t e in
          (
            (λ j ne. b.others j ne ∙ others j ne),
            ap (λ (p : Proc). p.state) cleared,
            same_next ∙ next,
          )

  apart : (i j : ℕ) → j ≢ i → (i == j) ≡ false
  apart i j ne = ground arith

  taken-others :
      (i : ℕ) (s : Kernel Mem) (j : ℕ)
      → j ≢ i
      → (taken w trampoline forkret i s).procs j ≡ s.procs j
  unfolding taken allocpid
  taken-others i s j ne = rw (apart i j ne)

  taken-next : (i : ℕ) (s : Kernel Mem) → (taken w trampoline forkret i s).nextpid ≡ s.nextpid + 1
  unfolding taken allocpid
  taken-next i s = refl

  set_up-Outcome :
      (i : ℕ) (s : Kernel Mem)
      → (kalloc s.mem).0 ≢ 0
      → (r : ℕ × Mem)
      → Ensures (Outcome i s) (set_up w trampoline forkret i (taken w trampoline forkret i s) r)
  unfolding set_up taken allocpid
  set_up-Outcome i s has (pagetable, m) = elim (Bool-cases (pagetable == 0)) [
    | inl z ↦ rw z (
        give_up-Outcome i s
          (put (record t { mem = m }) i (record (t.procs i) { pagetable = pagetable }))
          (λ j ne. rw (apart i j ne)) refl)
    | inr nz ↦ rw nz (
      refl,
      record {
        others = λ j ne. rw (apart i j ne);
        state_eq = rw self;
        pid_eq = rw self;
        next_eq = refl;
        mask_eq = rw self;
        killed_eq = rw self;
        parent_eq = rw self;
        ofile_eq = rw self;
        has_trapframe = rw self has;
        has_pagetable = rw self (λ z. ground arith);
        entry_point = (rw self, rw self);
      },
    )
  ]
    where
      t : Kernel Mem
      t = taken w trampoline forkret i s

      self : (i == i) ≡ true
      self = ground arith

  init_entry-Outcome :
      (i : ℕ) (s : Kernel Mem) → Ensures (Outcome i s) (init_entry w trampoline forkret i s)
  unfolding init_entry
  init_entry-Outcome i s = elim (Bool-cases ((kalloc s.mem).0 == 0)) [
    | inl e ↦ rw e (give_up-Outcome i s (taken w trampoline forkret i s) (λ j ne. skip j ne) next)
    | inr e ↦ rw e (
        Ensures-bind (Outcome i s) (proc_pagetable w trampoline (kalloc s.mem).0 (kalloc s.mem).1)
          (set_up w trampoline forkret i (taken w trampoline forkret i s))
          (λ r _. set_up-Outcome i s (λ z. ground arith) r))
  ]
    where
      skip : (j : ℕ) → j ≢ i → (taken w trampoline forkret i s).procs j ≡ s.procs j
      skip j ne = taken-others i s j ne

      next : (taken w trampoline forkret i s).nextpid ≡ s.nextpid + 1
      next = taken-next i s

  -- A successful `allocproc` hands out an entry of the table that was unused, as used, with the next
  -- pid, a trapframe and a page table, no traced system calls, and `forkret` on its own kernel stack
  -- as its entry point; it counts the pid and touches no other entry.
  pub allocproc-some :
      (s t : Kernel Mem) (i : ℕ)
      → allocproc w trampoline forkret s ≡ some (some i, t)
      → (i < n_proc) × ((s.procs i).state ≡ State.unused) × Allocated i s t
  unfolding allocproc
  allocproc-some s t i h = elim (Option-cases (find_unused n_proc 0 s.procs)) [
    | inl e ↦ absurd (ground arith)
    | inr (j, e) ↦
        let called : init_entry w trampoline forkret j s ≡ some (some i, t) = ground arith in
        let (same, out) =
          Ensures-some (Outcome j s) (init_entry w trampoline forkret j s) (some i, t)
            (init_entry-Outcome j s) called in
        let (lo, hi, free, first) = find_unused-some n_proc 0 s.procs j e in
        rw same (omega arith, free, out)
  ]

  -- Where `allocproc` returns 0 without a panic, either every entry of the table was in use and
  -- nothing has changed, or memory ran out: then the entry that it had taken is unused again, and
  -- the others are as before; only a pid is lost.
  pub allocproc-none :
      (s t : Kernel Mem)
      → allocproc w trampoline forkret s ≡ some (none, t)
      → ((t ≡ s) × ((j : ℕ) → j < n_proc → is_unused (s.procs j).state ≡ false))
        ⊎ ((i : ℕ) × (i < n_proc)
            × ((s.procs i).state ≡ State.unused)
            × ((t.procs i).state ≡ State.unused)
            × ((j : ℕ) → j ≢ i → t.procs j ≡ s.procs j)
            × (t.nextpid ≡ s.nextpid + 1))
  unfolding allocproc
  allocproc-none s t h = elim (Option-cases (find_unused n_proc 0 s.procs)) [
    | inl e ↦
        inl
          (ground arith, λ j lt. find_unused-none n_proc 0 s.procs e j (omega arith) (omega arith))
    | inr (j, e) ↦
        let called : init_entry w trampoline forkret j s ≡ some (none, t) = ground arith in
        let (others, free, next) =
          Ensures-some (Outcome j s) (init_entry w trampoline forkret j s) (none, t)
            (init_entry-Outcome j s) called in
        let (lo, hi, was_free, first) = find_unused-some n_proc 0 s.procs j e in
        inr (j, omega arith, was_free, free, others, next)
  ]
