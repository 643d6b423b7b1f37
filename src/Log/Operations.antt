-- ===== src/Log/Operations.antt =====
-- kernel/log.c: the interleavings of operations, from `begin_op` to `end_op`.
--
-- The operations that are under way are the list of the writes that each has left of the
-- MAXOPBLOCKS that it may make.
use os_proc_lap02_system_cal.Log.Steps.{install_from-Frame, log_from-Frame}
use os_proc_lap02_system_cal.Prelude.{
  Bool, All, ℕ, suc, ◌+◌, ◌*◌, ◌≤◌, ◌≡◌, refl, arith, true, false, List, [], ◌∷◌, some, length,
}
use os_proc_lap02_system_cal.Layout.{max_op_blocks, log_size}
use os_proc_lap02_system_cal.Log.{
  install_from, log_from, Log, begun, begin_op, leave, last_out, others_left, finish_commit, commit,
  log_write, write_head, install_trans, write_log,
}

-- `in_commit` is that a process is in the second part of `end_op`.
pub record System : Type 0 where
  pub log : Log
  pub budgets : List ℕ
  pub in_commit : Bool

-- One operation uses one of its writes.
pub data Spend : List ℕ → List ℕ → Type 0 where
  here : {k : ℕ} {bs : List ℕ} → Spend (suc k ∷ bs) (k ∷ bs)
  there : {b : ℕ} {bs cs : List ℕ} → Spend bs cs → Spend (b ∷ bs) (b ∷ cs)

-- One operation ends, whatever it has left.
pub data Finish : List ℕ → List ℕ → Type 0 where
  here : {b : ℕ} {bs : List ℕ} → Finish (b ∷ bs) bs
  there : {b : ℕ} {bs cs : List ℕ} → Finish bs cs → Finish (b ∷ bs) (b ∷ cs)

-- What happens next: an operation begins, writes, or leaves, or the commit of the last one that left
-- ends. Between `leave_last` and `committed` a process commits without the lock, and the others may
-- take any step that the log lets them.
pub data Step (s : System) : System → Type 0 where
  enter :
      {l : Log}
      → begin_op s.log ≡ begun l
      → Step s (record { log = l; budgets = max_op_blocks ∷ s.budgets; in_commit = s.in_commit })
  write :
      (b : ℕ) {l : Log} {bs : List ℕ}
      → log_write s.log b ≡ some l
      → Spend s.budgets bs
      → Step s (record { log = l; budgets = bs; in_commit = s.in_commit })
  leave_others :
      {l : Log} {bs : List ℕ}
      → leave s.log ≡ others_left l
      → Finish s.budgets bs
      → Step s (record { log = l; budgets = bs; in_commit = s.in_commit })
  leave_last :
      {l : Log} {bs : List ℕ}
      → leave s.log ≡ last_out l
      → Finish s.budgets bs
      → Step s (record { log = l; budgets = bs; in_commit = true })
  committed :
      s.in_commit ≡ true
      → Step s (record { log = finish_commit s.log; budgets = s.budgets; in_commit = false })

pub data Reach (size : ℕ) : System → Type 0 where
  idle :
      (l : Log)
      → l.size ≡ size
      → l.n ≡ 0
      → l.outstanding ≡ 0
      → l.committing ≡ false
      → Reach size (record { log = l; budgets = []; in_commit = false })
  step : {s t : System} → Reach size s → Step s t → Reach size t

abbrev pub total : List ℕ → ℕ
total [] = 0
total (b ∷ bs) = b + total bs

pub Spend-total :
    {bs cs : List ℕ} → Spend bs cs → (total bs ≡ total cs + 1) × (length cs ≡ length bs)
Spend-total here = (omega arith, refl)
Spend-total (there h) = let (p, q) = Spend-total h in (omega arith, omega arith)

pub Finish-total :
    {bs cs : List ℕ} → Finish bs cs → (total cs ≤ total bs) × (length bs ≡ length cs + 1)
Finish-total here = (omega arith, omega arith)
Finish-total (there h) = let (p, q) = Finish-total h in (omega arith, omega arith)

pub total-le :
    (bs : List ℕ) → All (λ b. b ≤ max_op_blocks) bs → total bs ≤ length bs * max_op_blocks
total-le [] h = omega arith
total-le (b ∷ bs) h = omega (arith, h.0, total-le bs h.1)

pub Spend-limited :
    {bs cs : List ℕ}
    → Spend bs cs
    → All (λ b. b ≤ max_op_blocks) bs
    → All (λ b. b ≤ max_op_blocks) cs
Spend-limited here h = (omega (arith, h.0), h.1)
Spend-limited (there sp) h = (h.0, Spend-limited sp h.1)

pub Finish-limited :
    {bs cs : List ℕ}
    → Finish bs cs
    → All (λ b. b ≤ max_op_blocks) bs
    → All (λ b. b ≤ max_op_blocks) cs
Finish-limited here h = h.1
Finish-limited (there f) h = (h.0, Finish-limited f h.1)

pub begin_op_lem :
    (s l : Log)
    → begin_op s ≡ begun l
    → (s.n + (s.outstanding + 1) * max_op_blocks ≤ log_size)
      × (l.n ≡ s.n)
      × (l.outstanding ≡ s.outstanding + 1)
      × (l.size ≡ s.size)
      × (l.committing ≡ false)
      × (s.committing ≡ false)
unfolding begin_op
begin_op_lem s l h = ground arith

pub log_write_lem :
    (s l : Log) (b : ℕ)
    → log_write s b ≡ some l
    → (l.n ≤ s.n + 1)
      × (l.outstanding ≡ s.outstanding)
      × (l.size ≡ s.size)
      × (l.committing ≡ s.committing)
unfolding log_write
log_write_lem s l b h = ground arith

write_head-fields :
    (s : Log)
    → ((write_head s).n ≡ s.n)
      × ((write_head s).outstanding ≡ s.outstanding)
      × ((write_head s).size ≡ s.size)
      × ((write_head s).committing ≡ s.committing)
unfolding write_head
write_head-fields s = (refl, refl, refl, refl)

-- A commit empties the log, and changes neither the size nor the counter of operations.
pub commit-fields :
    (s : Log)
    → ((commit s).n ≡ 0) × ((commit s).outstanding ≡ s.outstanding) × ((commit s).size ≡ s.size)
unfolding commit write_log install_trans
commit-fields s =
    let a = log_from s.n 0 s in
    let b = write_head a in
    let u = install_from false b.n 0 b in
    let f = log_from-Frame s.n 0 s in
    let g = install_from-Frame false b.n 0 b in
    let v = record u { n = 0 } in
    ground (
      arith,
      write_head-fields a,
      write_head-fields v,
      f.outstanding_eq,
      f.size_eq,
      g.outstanding_eq,
      g.size_eq,
    )

pub finish_commit-fields :
    (s : Log)
    → ((finish_commit s).n ≡ 0)
      × ((finish_commit s).outstanding ≡ s.outstanding)
      × ((finish_commit s).size ≡ s.size)
      × ((finish_commit s).committing ≡ false)
unfolding finish_commit
finish_commit-fields s = let (a, b, c) = commit-fields s in (a, b, c, refl)

pub leave-last_out :
    (s l : Log)
    → leave s ≡ last_out l
    → (l.n ≡ s.n)
      × (s.outstanding ≡ 1)
      × (l.outstanding ≡ 0)
      × (l.size ≡ s.size)
      × (l.committing ≡ true)
unfolding leave
leave-last_out s l h = ground arith

pub leave-others_left :
    (s l : Log)
    → leave s ≡ others_left l
    → (l.n ≡ s.n)
      × (s.outstanding ≡ l.outstanding + 1)
      × (l.size ≡ s.size)
      × (l.committing ≡ false)
      × (s.committing ≡ false)
unfolding leave
leave-others_left s l h = ground arith
