-- ===== src/Proc/Average.antt =====
-- kernel/proc.c: what `nproc` counts, and the range of the load average.
use os_proc_lap02_system_cal.Prelude.{
  ℕ, zero, suc, ◌+◌, ◌/◌, ◌%◌, ◌^◌, ◌≤◌, ◌<◌, ◌≡◌, ◌⊎◌, inl, inr, refl, ◌∙◌, arith, ℕ_discrete,
  if◌then◌else◌, Bool-cases, update,
}
use os_proc_lap02_system_cal.Layout.{n_proc}
use os_proc_lap02_system_cal.Proc.{Proc, State, Kernel, put, is_unused, is_runnable}
use os_proc_lap02_system_cal.Proc.Load.{nproc_from, nproc, runnable_from, update_runnable_procs}

-- 1 for an entry that is in use, or that may run.
abbrev pub used : Proc → ℕ
used p = if is_unused p.state then 0 else 1

-- 1 for a process that waits for a processor, 0 for one in any other state.
abbrev pub ready_state : State → ℕ
ready_state State.unused = 0
ready_state State.used = 0
ready_state State.sleeping = 0
ready_state State.runnable = 1
ready_state State.running = 0
ready_state State.zombie = 0

abbrev pub ready : Proc → ℕ
ready p = ready_state p.state

ready_state-runnable : (t : State) → ready_state t ≡ (if is_runnable t then 1 else 0)
ready_state-runnable State.unused = refl
ready_state-runnable State.used = refl
ready_state-runnable State.sleeping = refl
ready_state-runnable State.runnable = refl
ready_state-runnable State.running = refl
ready_state-runnable State.zombie = refl

-- The sum of `f` over the `k` entries from `i` on.
pub sum_from : (Proc → ℕ) → ℕ → ℕ → (ℕ → Proc) → ℕ
sum_from f zero i procs = 0
sum_from f (suc k) i procs = f (procs i) + sum_from f k (i + 1) procs

sum_from-le :
    (f : Proc → ℕ)
    → ((p : Proc) → f p ≤ 1)
    → (k i : ℕ) (procs : ℕ → Proc) → sum_from f k i procs ≤ k
unfolding sum_from
sum_from-le f h zero i procs = omega arith
sum_from-le f h (suc k) i procs = omega (arith, h (procs i), sum_from-le f h k (i + 1) procs)

sum_from-outside :
    (f : Proc → ℕ) (k i : ℕ) (procs : ℕ → Proc) (j : ℕ) (p : Proc)
    → (j < i) ⊎ (i + k ≤ j)
    → sum_from f k i (update procs j p) ≡ sum_from f k i procs
unfolding sum_from
sum_from-outside f zero i procs j p h = refl
sum_from-outside f (suc k) i procs j p h =
    ground (arith, sum_from-outside f k (i + 1) procs j p (omega arith))

sum_from-update :
    (f : Proc → ℕ) (k i : ℕ) (procs : ℕ → Proc) (j : ℕ) (p : Proc)
    → i ≤ j
    → j < i + k
    → sum_from f k i (update procs j p) + f (procs j) ≡ sum_from f k i procs + f p
unfolding sum_from
sum_from-update f zero i procs j p lo hi = absurd (omega arith)
sum_from-update f (suc k) i procs j p lo hi = elim (ℕ_discrete i j) [
  | yes e ↦ ground (arith, sum_from-outside f k (i + 1) procs j p (inl (omega arith)))
  | no ne ↦ ground (arith, sum_from-update f k (i + 1) procs j p (omega arith) (omega arith))
]

nproc_from_lem :
    (k i : ℕ) (procs : ℕ → Proc) (count : ℕ)
    → nproc_from k i procs count ≡ count + sum_from used k i procs
unfolding nproc_from sum_from
nproc_from_lem zero i procs count = omega arith
nproc_from_lem (suc k) i procs count = elim (Bool-cases (is_unused (procs i).state)) [
  | inl e ↦ rw e (nproc_from_lem k (i + 1) procs count ∙ omega arith)
  | inr e ↦ rw e (nproc_from_lem k (i + 1) procs (count + 1) ∙ omega arith)
]

none_used :
    (k i : ℕ) (procs : ℕ → Proc)
    → ((j : ℕ) → j < i + k → (procs j).state ≡ State.unused)
    → sum_from used k i procs ≡ 0
unfolding sum_from
none_used zero i procs h = refl
none_used (suc k) i procs h =
    ground (arith, h i (omega arith), none_used k (i + 1) procs (λ j lt. h j (omega arith)))

-- `nproc` is the number of entries that are in use: it is at most NPROC, it is 0 for an empty table,
-- and a store to one entry changes it by that entry alone.
pub nproc-put :
    {M : Type 0} (s : Kernel M) (j : ℕ) (p : Proc)
    → (nproc s ≤ n_proc)
      × (j < n_proc → nproc (put s j p) + used (s.procs j) ≡ nproc s + used p)
      × (((i : ℕ) → i < n_proc → (s.procs i).state ≡ State.unused) → nproc s ≡ 0)
unfolding nproc
nproc-put s j p = (
  omega (
    arith,
    nproc_from_lem n_proc 0 s.procs 0,
    sum_from-le used (λ q. ground arith) n_proc 0 s.procs,
  ),
  (λ lt. omega (
    arith,
    nproc_from_lem n_proc 0 (update s.procs j p) 0,
    nproc_from_lem n_proc 0 s.procs 0,
    sum_from-update used n_proc 0 s.procs j p (omega arith) lt,
  )),
  λ h.
      nproc_from_lem n_proc 0 s.procs 0
      ∙ omega (arith, none_used n_proc 0 s.procs (λ i lt. h i (omega arith))),
)

runnable_from_lem :
    (k i : ℕ) (procs : ℕ → Proc) (count : ℕ)
    → count + k < 2 ^ 32
    → runnable_from k i procs count ≡ count + sum_from ready k i procs
unfolding runnable_from sum_from
runnable_from_lem zero i procs count h = omega arith
runnable_from_lem (suc k) i procs count h = elim (Bool-cases (is_runnable (procs i).state)) [
  | inl e ↦
      let m : (count + 1) % 2 ^ 32 ≡ count + 1 = omega arith in
      let one : ready (procs i) ≡ 1 = ready_state-runnable (procs i).state ∙ rw e refl in
      rw (e, m) (runnable_from_lem k (i + 1) procs (count + 1) (omega arith) ∙ omega arith)
  | inr e ↦
      let nothing : ready (procs i) ≡ 0 = ready_state-runnable (procs i).state ∙ rw e refl in
      rw e (runnable_from_lem k (i + 1) procs count (omega arith) ∙ omega arith)
]

ready_state-le : (t : State) → ready_state t ≤ 1
ready_state-le State.unused = omega arith
ready_state-le State.used = omega arith
ready_state-le State.sleeping = omega arith
ready_state-le State.runnable = omega arith
ready_state-le State.running = omega arith
ready_state-le State.zombie = omega arith

-- The update stores the number of entries of the table whose state is runnable, and a load average of
-- half the old one, rounded down, plus that number. From a load average of at most 128, twice the
-- size of the table, the 64-bit expression does not wrap, and the new average is again at most 128.
pub loadavg_bounds :
    {M : Type 0} (s : Kernel M)
    → s.loadavg ≤ 128
    → let t = update_runnable_procs s in
      (t.runnable_procs ≡ sum_from ready n_proc 0 s.procs)
      × (t.runnable_procs ≤ n_proc)
      × (t.loadavg ≡ s.loadavg / 2 + sum_from ready n_proc 0 s.procs)
      × (t.loadavg ≤ 128)
unfolding update_runnable_procs
loadavg_bounds s h =
    let e = runnable_from_lem n_proc 0 s.procs 0 (omega arith) in
    let b = sum_from-le ready (λ q. ready_state-le q.state) n_proc 0 s.procs in
    (omega (arith, e), omega (arith, e, b), omega (arith, e, b), omega (arith, e, b))
