-- ===== src/Log/Steps.antt =====
-- kernel/log.c: what the loops over the header block compute, and what each operation leaves alone.
use os_proc_lap02_system_cal.Prelude.{
  update_ne, update_self, ℕ, zero, suc, ◌+◌, ◌≤◌, ◌<◌, ◌≡◌, refl, ◌∙◌, arith, update, ℕ_discrete,
  Bool, true, false,
}
use os_proc_lap02_system_cal.Log.{
  Log, Block, put_blocks, read_blocks, install_one, install_from, log_one, log_from,
}

put_blocks_below : (k i w : ℕ) (block : ℕ → ℕ) (h : Block) → w ≤ i → put_blocks k i block h w ≡ h w
unfolding put_blocks
put_blocks_below zero i w block h le = refl
put_blocks_below (suc k) i w block h le =
    put_blocks_below k (i + 1) w block (update h (i + 1) (block i)) (omega arith) ∙ ground arith

pub put_blocks_zero :
    (k : ℕ) (block : ℕ → ℕ) (h : Block) (v : ℕ) → put_blocks k 0 block (update h 0 v) 0 ≡ v
put_blocks_zero k block h v = put_blocks_below k 0 0 block (update h 0 v) (omega arith)

-- `write_head` puts entry `j` into word `j + 1`.
pub put_blocks_entry :
    (k i j : ℕ) (block : ℕ → ℕ) (h : Block)
    → i ≤ j
    → j < i + k
    → put_blocks k i block h (j + 1) ≡ block j
unfolding put_blocks
put_blocks_entry zero i j block h le lt = absurd (omega arith)
put_blocks_entry (suc k) i j block h le lt = elim (ℕ_discrete j i) [
  | yes e ↦ rw e (
      put_blocks_below k (i + 1) (i + 1) block (update h (i + 1) (block i)) (omega arith)
      ∙ update_self h (i + 1) (block i))
  | no ne ↦
      put_blocks_entry k (i + 1) j block (update h (i + 1) (block i)) (omega arith) (omega arith)
]

read_blocks_below :
    (k i j : ℕ) (header : Block) (block : ℕ → ℕ) → j < i → read_blocks k i header block j ≡ block j
unfolding read_blocks
read_blocks_below zero i j header block lt = refl
read_blocks_below (suc k) i j header block lt =
    read_blocks_below k (i + 1) j header (update block i (header (i + 1))) (omega arith)
    ∙ update_ne block i j (header (i + 1)) (omega arith)

-- `read_head` reads entry `j` from word `j + 1`.
pub read_blocks_entry :
    (k i j : ℕ) (header : Block) (block : ℕ → ℕ)
    → i ≤ j
    → j < i + k
    → read_blocks k i header block j ≡ header (j + 1)
unfolding read_blocks
read_blocks_entry zero i j header block le lt = absurd (omega arith)
read_blocks_entry (suc k) i j header block le lt = elim (ℕ_discrete j i) [
  | yes e ↦ rw e (
      read_blocks_below k (i + 1) i header (update block i (header (i + 1))) (omega arith)
      ∙ update_self block i (header (i + 1)))
  | no ne ↦
      read_blocks_entry k (i + 1) j header (update block i (header (i + 1))) (omega arith)
        (omega arith)
]

-- The fields that no write to the disk changes.
pub record Frame (s t : Log) : Type 0 where
  pub start_eq : t.start ≡ s.start
  pub size_eq : t.size ≡ s.size
  pub n_eq : t.n ≡ s.n
  pub block_eq : t.block ≡ s.block
  pub outstanding_eq : t.outstanding ≡ s.outstanding
  pub committing_eq : t.committing ≡ s.committing

Frame-trans : (s t u : Log) → Frame s t → Frame t u → Frame s u
Frame-trans s t u f g = record {
  start_eq = g.start_eq ∙ f.start_eq;
  size_eq = g.size_eq ∙ f.size_eq;
  n_eq = g.n_eq ∙ f.n_eq;
  block_eq = g.block_eq ∙ f.block_eq;
  outstanding_eq = g.outstanding_eq ∙ f.outstanding_eq;
  committing_eq = g.committing_eq ∙ f.committing_eq;
}

install_one-Frame : (r : Bool) (s : Log) (tail : ℕ) → Frame s (install_one r s tail)
unfolding install_one
install_one-Frame true s tail = record {
  start_eq = refl;
  size_eq = refl;
  n_eq = refl;
  block_eq = refl;
  outstanding_eq = refl;
  committing_eq = refl;
}
install_one-Frame false s tail = record {
  start_eq = refl;
  size_eq = refl;
  n_eq = refl;
  block_eq = refl;
  outstanding_eq = refl;
  committing_eq = refl;
}

pub install_from-Frame : (r : Bool) (k tail : ℕ) (s : Log) → Frame s (install_from r k tail s)
unfolding install_from
install_from-Frame r zero tail s = record {
  start_eq = refl;
  size_eq = refl;
  n_eq = refl;
  block_eq = refl;
  outstanding_eq = refl;
  committing_eq = refl;
}
install_from-Frame r (suc k) tail s =
    Frame-trans s (install_one r s tail) (install_from r k (tail + 1) (install_one r s tail))
      (install_one-Frame r s tail) (install_from-Frame r k (tail + 1) (install_one r s tail))

pub log_from-Frame : (k tail : ℕ) (s : Log) → Frame s (log_from k tail s)
unfolding log_from log_one
log_from-Frame zero tail s = record {
  start_eq = refl;
  size_eq = refl;
  n_eq = refl;
  block_eq = refl;
  outstanding_eq = refl;
  committing_eq = refl;
}
log_from-Frame (suc k) tail s = log_from-Frame' (log_from-Frame k (tail + 1) (log_one s tail))
  where
    log_from-Frame' :
        Frame (log_one s tail) (log_from k (tail + 1) (log_one s tail))
        → Frame s (log_from k (tail + 1) (log_one s tail))
    log_from-Frame' f = record {
      start_eq = f.start_eq;
      size_eq = f.size_eq;
      n_eq = f.n_eq;
      block_eq = f.block_eq;
      outstanding_eq = f.outstanding_eq;
      committing_eq = f.committing_eq;
    }
