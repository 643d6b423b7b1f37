-- ===== src/Log/Overflow.antt =====
-- kernel/log.c and mkfs/mkfs.c: mkfs makes a log area of LOGSIZE blocks, one of which is the header,
-- while `begin_op` lets operations in for LOGSIZE data blocks.
use os_proc_lap02_system_cal.Prelude.{
  update_ne, update_self, ℕ_discrete, ℕ, zero, suc, ◌+◌, ◌≤◌, ◌<◌, ◌≡◌, ◌≢◌, ◌∙◌, arith, update,
  false, List, [], ◌∷◌, none, some,
}
use native.Mathlib.Nat.{add-zero, zero-add}
use os_proc_lap02_system_cal.Layout.{log_size}
use os_proc_lap02_system_cal.Log.{Log, bpin, begun, begin_op, find_from, log_write}
use os_proc_lap02_system_cal.Log.Operations.{Spend, here, there, enter, write, Reach, idle, step}

-- The log names the blocks 0, 1, …, m - 1.
record Filled (m : ℕ) (l : Log) : Type 0 where
  used : l.n ≡ m
  names : (i : ℕ) → i < m → l.block i ≡ i
  size_eq : l.size ≡ log_size
  active : l.outstanding ≡ 3

find_from-absent :
    (k i b : ℕ) (block : ℕ → ℕ)
    → ((j : ℕ) → j < i + k → block j ≢ b)
    → find_from k i block b ≡ i + k
unfolding find_from
find_from-absent zero i b block h = omega arith
find_from-absent (suc k) i b block h =
    ground (arith, h i, find_from-absent k (i + 1) b block (λ j lt. h j (omega arith)))

Filled-write :
    (m : ℕ) (l : Log)
    → m < 29
    → Filled m l
    → (t : Log) × (log_write l m ≡ some t) × Filled (m + 1) t
unfolding log_write
Filled-write m l few f =
    let t = record (bpin (record l { block = update l.block m m }) m) { n = l.n + 1 } in
    let at_end : find_from l.n 0 l.block m ≡ m =
      find_from-absent l.n 0 m l.block
        (λ j lt e. omega (arith, f.used, f.names j (omega (arith, f.used)), e))
      ∙ omega (arith, f.used) in
    (
      t,
      ground (arith, at_end, f.used, f.size_eq, f.active),
      record {
        used = omega (arith, f.used);
        names = λ i lt. elim (ℕ_discrete m i) [
          | yes e ↦ rw (← e) (update_self l.block m m)
          | no ne ↦ update_ne l.block m i m ne ∙ f.names i (omega arith)
        ];
        size_eq = f.size_eq;
        active = f.active;
      },
    )

-- An operation that has `r + k` writes left makes `k` of them, to blocks that are not logged yet.
-- `place` says where it stands among the operations.
fill :
    (k r m : ℕ) (place : ℕ → List ℕ) (l : Log)
    → ((j : ℕ) → Spend (place (suc j)) (place j))
    → m + k ≤ 29
    → Filled m l
    → Reach log_size (record { log = l; budgets = place (k + r); in_commit = false })
    → (t : Log) × Filled (m + k) t
      × Reach log_size (record { log = t; budgets = place r; in_commit = false })
fill zero r m place l spend few f reach = (l, rw add-zero f, rw zero-add at reach)
fill (suc k) r m place l spend few f reach =
    let (t, wrote, g) = Filled-write m l (omega arith) f in
    let e : suc k + r ≡ suc (k + r) = omega arith in
    let next : Reach log_size (record { log = t; budgets = place (k + r); in_commit = false }) =
      step (rw e at reach) (write m wrote (spend (k + r))) in
    let (u, h, last) = fill k r (m + 1) place t spend (omega arith) g next in
    let e' : m + 1 + k ≡ m + suc k = omega arith in (u, rw e' at h, last)

begins :
    (l : Log) (k : ℕ)
    → l.n ≡ 0
    → l.committing ≡ false
    → k < 3
    → l.outstanding ≡ k
    → begin_op l ≡ begun (record l { outstanding = l.outstanding + 1 })
unfolding begin_op
begins l k a b lt e = ground arith

-- With the log area that mkfs makes, of LOGSIZE blocks, `log_write` can panic in ordinary use: from
-- every idle log of that size three operations are let in, each writes at most MAXOPBLOCKS blocks,
-- and the last of them, with one write left, panics at every block.
pub log_write-panics :
    (l : Log)
    → l.size ≡ log_size
    → l.n ≡ 0
    → l.outstanding ≡ 0
    → l.committing ≡ false
    → (t : Log) × Reach log_size (record { log = t; budgets = 0 ∷ 0 ∷ 1 ∷ []; in_commit = false })
      × ((b : ℕ) → log_write t b ≡ none)
unfolding log_write
log_write-panics l sz none_logged none_running quiet =
    let l1 = record l { outstanding = l.outstanding + 1 } in
    let l2 = record l1 { outstanding = l1.outstanding + 1 } in
    let l3 = record l2 { outstanding = l2.outstanding + 1 } in
    let start : Reach log_size
        (record { log = l3; budgets = 10 ∷ 10 ∷ 10 ∷ []; in_commit = false }) =
      step
        (step
          (step (idle l sz none_logged none_running quiet)
            (enter (begins l 0 none_logged quiet (omega arith) none_running)))
          (enter (begins l1 1 none_logged quiet (omega arith) (omega arith))))
        (enter (begins l2 2 none_logged quiet (omega arith) (omega arith))) in
    let f : Filled 0 l3 = record {
      used = none_logged;
      names = λ i lt. absurd (omega arith);
      size_eq = sz;
      active = omega arith;
    } in
    let (t, g, r) = fill 10 0 0 (λ j. j ∷ 10 ∷ 10 ∷ []) l3 (λ j. here) (omega arith) f start in
    let (u, h, r') = fill 10 0 10 (λ j. 0 ∷ j ∷ 10 ∷ []) t (λ j. there here) (omega arith) g r in
    let (v, k, r'') =
      fill 9 1 20 (λ j. 0 ∷ 0 ∷ j ∷ []) u (λ j. there (there here)) (omega arith) h r' in
    (v, r'', λ b. ground (arith, k.used, k.size_eq))
