-- ===== src/Fs/Examples.antt =====
-- A small file system: 20 blocks, a block of inodes at 2, the bitmap at 3, the first nine blocks in use.
use os_proc_lap02_system_cal.Prelude.{
  ℕ, ◌<◌, ◌≡◌, ◌≢◌, ◌⊎◌, refl, sym, ap, ◌∙◌, true, false, none, some, List, [], ◌∷◌, arith, update,
  Ensures,
}
use os_proc_lap02_system_cal.Fs.{
  Fs, Inode, Superblock, bblock, balloc, balloc_from, find_clear, mark_block, n_inode,
}
use os_proc_lap02_system_cal.Fs.Inodes.{iget, ilock, iupdate}
use os_proc_lap02_system_cal.Fs.Content.{bmap}
use os_proc_lap02_system_cal.Fs.Paths.{skipelem, namex_from, skip_slashes, element, after_element}
use os_proc_lap02_system_cal.Fs.Bitmap.{
  used, Reserved, Allocated, Taken, mark_block-Taken, balloc-Allocated,
}
use os_proc_lap02_system_cal.Fs.Blocks.{bmap-again}
use os_proc_lap02_system_cal.Fs.Fields.{Fits, SameOnDisk, ilock-iupdate}
use os_proc_lap02_system_cal.Fs.Names.{Slashes, Split, skipelem-Split, namex_from-enough}
use os_proc_lap02_system_cal.Fs.Table.{OneEach, Few, iget-OneEach}

abbrev small_sb : Superblock
small_sb = record {
  magic = 0x1020_3040;
  size = 20;
  nblocks = 16;
  ninodes = 16;
  nlog = 0;
  logstart = 2;
  inodestart = 2;
  bmapstart = 3;
}

abbrev unused : Inode
unused = record {
  dev = 0;
  inum = 0;
  ref = 0;
  lock = none;
  valid = false;
  type = 0;
  major = 0;
  minor = 0;
  nlink = 0;
  size = 0;
  addrs = λ _. 0;
}

-- A file of one block that a process has open, and an entry that was its before.
abbrev open_file : Inode
open_file = record (unused) { dev = 1; inum = 5; ref = 1 }

abbrev old_entry : Inode
old_entry = record (unused) {
  dev = 1;
  inum = 5;
  type = 2;
  nlink = 1;
  size = 700;
  addrs = update (λ _. 0) 0 8;
  valid = true;
}

abbrev small : Fs
small = record {
  sb = small_sb;
  disk = update (λ _ _ _. 0) 1 (update (λ _ _. 0) 3 (update (update (λ _. 0) 0 255) 1 1));
  logged = [];
  itable = update (update (λ _. unused) 0 open_file) 1 old_entry;
}

bitmap_block : (c : ℕ) → c < 20 → bblock c small ≡ 3
bitmap_block c lt = omega arith

small-Reserved : Reserved 1 small
small-Reserved c lt = ap (λ b. used 1 b small) (bitmap_block c lt) ∙ refl

balloc-Allocated_example : Allocated 1 0 small (balloc 1 small)
balloc-Allocated_example = balloc-Allocated 1 small small-Reserved

first_free : (balloc 1 small).0 ≡ 9
unfolding balloc balloc_from find_clear
first_free = refl

block_9-Taken : Taken 1 9 small (mark_block 1 0 9 small)
block_9-Taken = mark_block-Taken 1 0 9 small small-Reserved refl (omega arith) (omega arith) refl

bmap-again_example : Ensures (λ r. r.0 ≢ 0 → bmap 0 20 r.1 ≡ some r) (bmap 0 20 small)
bmap-again_example = bmap-again 0 20 small (omega arith)

old_entry-Fits : Fits old_entry
old_entry-Fits = record {
  type = omega arith;
  major = omega arith;
  minor = omega arith;
  nlink = omega arith;
  size = omega arith;
  addrs = λ k. ground arith;
}

ilock-iupdate_example :
    (t : Fs) × (ilock 7 (some 0) (iupdate 1 small) ≡ some t)
    × SameOnDisk (t.itable 0) old_entry
    × ((t.itable 0).valid ≡ true)
    × ((t.itable 0).lock ≡ some 7)
ilock-iupdate_example =
    ilock-iupdate 7 1 0 small old_entry-Fits (omega arith) refl refl refl refl refl

small-ref : (i : ℕ) → (small.itable i).ref ≢ 0 → i ≡ 0
small-ref i nz = ground arith

small-OneEach : OneEach small
small-OneEach i j hi hj ri rj d n = small-ref i ri ∙ sym (small-ref j rj)

small-Few : Few small
small-Few i lt = ground arith

iget-OneEach_example :
    Ensures
      (λ p.
        (p.0 < n_inode)
        × OneEach p.1
        × ((p.1.itable p.0).dev ≡ 1)
        × ((p.1.itable p.0).inum ≡ 5)
        × ((p.1.itable p.0).ref ≢ 0))
      (iget 1 5 small)
iget-OneEach_example = iget-OneEach 1 5 small small-OneEach small-Few

-- The path `//usr/x`
abbrev path : List ℕ
path = 47 ∷ 47 ∷ 117 ∷ 115 ∷ 114 ∷ 47 ∷ 120 ∷ []

skipelem-Split_example :
    ((skipelem path ≡ none) × Slashes path)
    ⊎ ((name : List ℕ) × (rest : List ℕ) × (skipelem path ≡ some (name, rest))
        × Split path name rest)
skipelem-Split_example = skipelem-Split path

first_name : skipelem path ≡ some (117 ∷ 115 ∷ 114 ∷ [], 120 ∷ [])
unfolding skipelem skip_slashes element after_element
first_name = refl

namex_from-enough_example :
    namex_from 18 7 0 path false [] small ≡ namex_from 8 7 0 path false [] small
namex_from-enough_example = namex_from-enough 10 7 0 path false [] small
