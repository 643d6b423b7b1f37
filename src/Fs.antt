-- ===== src/Fs.antt =====
-- kernel/fs.c, kernel/fs.h: the file system over the blocks that the buffer cache shows. Here: blocks
-- and the bitmap of free ones.
pub mod Inodes
pub mod Content
pub mod Data
pub mod Dirs
pub mod Paths
mod Bits
mod Bitmap
mod Blocks
mod Table
mod Fields
mod Names
mod Examples
use mathlib.Core.Path.{subst}
use os_proc_lap02_system_cal.Prelude.{
  ℕ, zero, suc, ◌+◌, ◌-◌, ◌*◌, ◌/◌, ◌%◌, ◌^◌, ◌≤◌, ◌<◌, ◌≡◌, ◌≢◌, ◌↔◌, ◌⊎◌, inl, inr, refl, sym, ap,
  ◌∙◌, fun_ext, Bool, true, false, not, ◌&&◌, ◌||◌, Option, none, some, List, [], ◌∷◌, ◌++◌, map,
  append-nil, append_assoc, arith, dec_lt, ℕ_discrete, ltb, leb, ◌==◌, if◌then◌else◌, Bool-cases,
  Option-cases, length, get_elem?, set, get_or, take, drop, replicate, length-append, length-set,
  get_elem?-set_self, get_elem?-set_ne, update, update_self, update_ne, Ensures, Ensures-bind,
  Ensures-map, Ensures-some, ◌>>=◌, >>=-eq-some, All, In, NotIn, Distinct, All-map, All-append,
}
use os_proc_lap02_system_cal.Layout.{b_size}

-- `BPB`, `IPB`, `NDIRECT`, `NINDIRECT`, `MAXFILE`, `DIRSIZ`, `NINODE`, `ROOTDEV`, `ROOTINO` and `T_DIR`
abbrev pub bpb : ℕ
bpb = b_size * 8

abbrev pub ipb : ℕ
ipb = b_size / 64

abbrev pub n_direct : ℕ
n_direct = 12

abbrev pub n_indirect : ℕ
n_indirect = b_size / 4

abbrev pub max_file : ℕ
max_file = n_direct + n_indirect

abbrev pub dir_siz : ℕ
dir_siz = 14

abbrev pub n_inode : ℕ
n_inode = 50

abbrev pub root_dev : ℕ
root_dev = 1

abbrev pub root_ino : ℕ
root_ino = 1

abbrev pub t_dir : ℕ
t_dir = 1

pub record Superblock : Type 0 where
  pub magic : ℕ
  pub size : ℕ
  pub nblocks : ℕ
  pub ninodes : ℕ
  pub nlog : ℕ
  pub logstart : ℕ
  pub inodestart : ℕ
  pub bmapstart : ℕ

-- An inode in memory. `lock` is the process that holds its sleep lock; numbers are as wide as in C,
-- `ref` a 32-bit word.
pub record Inode : Type 0 where
  pub dev : ℕ
  pub inum : ℕ
  pub ref : ℕ
  pub lock : Option ℕ
  pub valid : Bool
  pub type : ℕ
  pub major : ℕ
  pub minor : ℕ
  pub nlink : ℕ
  pub size : ℕ
  pub addrs : ℕ → ℕ

-- The superblock, the bytes of each device's blocks, the blocks given to log_write, the latest first, and
-- the table of inodes.
pub record Fs : Type 0 where
  pub sb : Superblock
  pub disk : ℕ → ℕ → ℕ → ℕ
  pub logged : List ℕ
  pub itable : ℕ → Inode

-- A little-endian number of `n` bytes, read and written.
unfoldable pub get_le : ℕ → ℕ → (ℕ → ℕ) → ℕ
get_le zero at d = 0
get_le (suc n) at d = d at + 256 * get_le n (at + 1) d

unfoldable pub put_le : ℕ → ℕ → ℕ → (ℕ → ℕ) → ℕ → ℕ
put_le zero at v d = d
put_le (suc n) at v d = put_le n (at + 1) (v / 256) (update d at (v % 256))

abbrev pub put_block : ℕ → ℕ → (ℕ → ℕ) → Fs → Fs
put_block dev b buf s = record s { disk = update s.disk dev (update (s.disk dev) b buf) }

abbrev pub log_call : ℕ → Fs → Fs
log_call b s = record s { logged = b ∷ s.logged }

unfoldable pub readsb : ℕ → Fs → Superblock
readsb dev s =
    let d = s.disk dev 1 in
    record {
      magic = get_le 4 0 d;
      size = get_le 4 4 d;
      nblocks = get_le 4 8 d;
      ninodes = get_le 4 12 d;
      nlog = get_le 4 16 d;
      logstart = get_le 4 20 d;
      inodestart = get_le 4 24 d;
      bmapstart = get_le 4 28 d;
    }

unfoldable pub bzero : ℕ → ℕ → Fs → Fs
bzero dev bno s =
    log_call bno (put_block dev bno (λ i. if ltb i b_size then 0 else s.disk dev bno i) s)

-- `BBLOCK`
abbrev pub bblock : ℕ → Fs → ℕ
bblock b s = b / bpb + s.sb.bmapstart

-- Bit `bi` of a bitmap block, and the stores `|= m` where it is 0 and `&= ~m` where it is 1.
abbrev pub bit : (ℕ → ℕ) → ℕ → Bool
bit buf bi = buf (bi / 8) / 2 ^ (bi % 8) % 2 == 1

abbrev pub set_bit : (ℕ → ℕ) → ℕ → ℕ → ℕ
set_bit buf bi = update buf (bi / 8) (buf (bi / 8) + 2 ^ (bi % 8))

abbrev pub clear_bit : (ℕ → ℕ) → ℕ → ℕ → ℕ
clear_bit buf bi = update buf (bi / 8) (buf (bi / 8) - 2 ^ (bi % 8))

-- The inner loop of `balloc` with `left` bits of the block left.
unfoldable pub find_clear : ℕ → ℕ → ℕ → ℕ → (ℕ → ℕ) → Option ℕ
find_clear zero bi b size buf = none
find_clear (suc left) bi b size buf = elim (ltb (b + bi) size) [
  | false ↦ none
  | true ↦ elim (bit buf bi) [ false ↦ some bi | true ↦ find_clear left (bi + 1) b size buf ]
]

unfoldable pub mark_block : ℕ → ℕ → ℕ → Fs → Fs
unfolding bzero
mark_block dev b bi s =
    let at = bblock b s in
    bzero dev (b + bi) (log_call at (put_block dev at (set_bit (s.disk dev at) bi) s))

-- The outer loop of `balloc` with `rounds` bitmap blocks left.
unfoldable pub balloc_from : ℕ → ℕ → ℕ → Fs → ℕ × Fs
balloc_from zero b dev s = (0, s)
balloc_from (suc rounds) b dev s = elim (find_clear bpb 0 b s.sb.size (s.disk dev (bblock b s))) [
  | some bi ↦ (b + bi, mark_block dev b bi s)
  | none ↦ balloc_from rounds (b + bpb) dev s
]

unfoldable pub balloc : ℕ → Fs → ℕ × Fs
balloc dev s = balloc_from ((s.sb.size + bpb - 1) / bpb) 0 dev s

unfoldable pub bfree : ℕ → ℕ → Fs → Option Fs
bfree dev b s =
    let at = bblock b s in
    let bi = b % bpb in
    if bit (s.disk dev at) bi
    then some (log_call at (put_block dev at (clear_bit (s.disk dev at) bi) s))
    else none
