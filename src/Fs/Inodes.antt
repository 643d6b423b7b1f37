-- ===== src/Fs/Inodes.antt =====
-- kernel/fs.c: the table of inodes, and inodes on the disk.
use os_proc_lap02_system_cal.Prelude.{
  ℕ, zero, suc, ◌+◌, ◌-◌, ◌*◌, ◌/◌, ◌%◌, ◌^◌, Bool, true, false, not, ◌&&◌, ◌||◌, Option, none,
  some, ltb, leb, ◌==◌, if◌then◌else◌, update, ◌>>=◌,
}
use os_proc_lap02_system_cal.Fs.{
  Fs, Inode, get_le, put_le, put_block, log_call, ipb, n_inode, n_direct,
}

-- `IBLOCK`, and where an inode's 64 bytes begin in its block
abbrev pub iblock : ℕ → Fs → ℕ
iblock i s = i / ipb + s.sb.inodestart

abbrev pub dinode_at : ℕ → ℕ
dinode_at inum = inum % ipb * 64

abbrev pub set_inode : ℕ → Inode → Fs → Fs
set_inode i ip s = record s { itable = update s.itable i ip }

-- `ref` as an int, more than 0
abbrev pub positive : ℕ → Bool
positive ref = ltb 0 ref && ltb ref (2 ^ 31)

-- An entry of the table that is given to inode `inum`
abbrev pub recycled : ℕ → ℕ → Inode → Inode
recycled dev inum ip = record ip { dev = dev; inum = inum; ref = 1; valid = false }

abbrev pub remember : Option ℕ → ℕ → ℕ → Option ℕ
remember none i ref = if ref == 0 then some i else none
remember (some e) i ref = some e

-- The loop of `iget` with `left` entries left, and what follows it; `empty` is the entry it remembers.
unfoldable pub iget_from : ℕ → ℕ → Option ℕ → ℕ → ℕ → Fs → Option (ℕ × Fs)
iget_from zero i none dev inum s = none
iget_from zero i (some e) dev inum s = some (e, set_inode e (recycled dev inum (s.itable e)) s)
iget_from (suc left) i empty dev inum s =
    let ip = s.itable i in
    elim (positive ip.ref && (ip.dev == dev && ip.inum == inum)) [
      | true ↦ some (i, set_inode i (record ip { ref = (ip.ref + 1) % 2 ^ 32 }) s)
      | false ↦ iget_from left (i + 1) (remember empty i ip.ref) dev inum s
    ]

unfoldable pub iget : ℕ → ℕ → Fs → Option (ℕ × Fs)
iget dev inum s = iget_from n_inode 0 none dev inum s

unfoldable pub idup : ℕ → Fs → ℕ × Fs
idup i s = (i, set_inode i (record (s.itable i) { ref = ((s.itable i).ref + 1) % 2 ^ 32 }) s)

abbrev pub zero_range : ℕ → ℕ → (ℕ → ℕ) → ℕ → ℕ
zero_range at n d a = if leb at a && ltb a (at + n) then 0 else d a

-- The loop of `ialloc` with `left` inodes left.
unfoldable pub ialloc_from : ℕ → ℕ → ℕ → ℕ → Fs → Option (Option ℕ × Fs)
unfolding iget
ialloc_from zero inum dev type s = some (none, s)
ialloc_from (suc left) inum dev type s =
    let d = s.disk dev (iblock inum s) in
    elim (get_le 2 (dinode_at inum) d == 0) [
      | true ↦
          iget dev inum (
            log_call (iblock inum s) (
              put_block dev (iblock inum s)
                (put_le 2 (dinode_at inum) type (zero_range (dinode_at inum) 64 d)) s))
          >>= λ (ip, t). some (some ip, t)
      | false ↦ ialloc_from left (inum + 1) dev type s
    ]

unfoldable pub ialloc : ℕ → ℕ → Fs → Option (Option ℕ × Fs)
ialloc dev type s = ialloc_from (s.sb.ninodes - 1) 1 dev type s

-- The 13 addresses of a disk inode.
unfoldable pub put_addrs : ℕ → ℕ → ℕ → (ℕ → ℕ) → (ℕ → ℕ) → ℕ → ℕ
unfolding put_le
put_addrs zero k at addrs d = d
put_addrs (suc n) k at addrs d = put_addrs n (k + 1) (at + 4) addrs (put_le 4 at (addrs k) d)

-- A disk inode at `at`, written and read.
unfoldable pub put_dinode : ℕ → Inode → (ℕ → ℕ) → ℕ → ℕ
unfolding put_addrs
put_dinode at ip d = put_addrs (n_direct + 1) 0 (at + 12) ip.addrs (
    put_le 4 (at + 8) ip.size (
      put_le 2 (at + 6) ip.nlink
        (put_le 2 (at + 4) ip.minor (put_le 2 (at + 2) ip.major (put_le 2 at ip.type d)))))

unfoldable pub get_dinode : ℕ → (ℕ → ℕ) → Inode → Inode
unfolding get_le
get_dinode at d ip = record ip {
  type = get_le 2 at d;
  major = get_le 2 (at + 2) d;
  minor = get_le 2 (at + 4) d;
  nlink = get_le 2 (at + 6) d;
  size = get_le 4 (at + 8) d;
  addrs = λ k. if leb k n_direct then get_le 4 (at + 12 + 4 * k) d else ip.addrs k;
}

unfoldable pub iupdate : ℕ → Fs → Fs
unfolding put_dinode
iupdate i s =
    let ip = s.itable i in
    let b = iblock ip.inum s in
    log_call b (put_block ip.dev b (put_dinode (dinode_at ip.inum) ip (s.disk ip.dev b)) s)

-- `none` where another process, or this one, holds the lock: the call waits until it is free, and is
-- then run.
abbrev pub lock_inode : ℕ → ℕ → Fs → Option Fs
lock_inode me i s = elim (s.itable i).lock [
  | none ↦ some (set_inode i (record (s.itable i) { lock = some me }) s)
  | some _ ↦ none
]

abbrev pub holds_inode : ℕ → ℕ → Fs → Bool
holds_inode me i s = elim (s.itable i).lock [ none ↦ false | some h ↦ h == me ]

abbrev pub unlock_inode : ℕ → Fs → Fs
unlock_inode i s = set_inode i (record (s.itable i) { lock = none }) s

-- What `ilock` does once it holds the lock.
unfoldable pub load_inode : ℕ → Fs → Option Fs
unfolding get_dinode
load_inode i t = elim (t.itable i).valid [
  | true ↦ some t
  | false ↦
      let ip = t.itable i in
      let read = get_dinode (dinode_at ip.inum) (t.disk ip.dev (iblock ip.inum t)) ip in
      if read.type == 0 then none else some (set_inode i (record read { valid = true }) t)
]

-- `me` is the pid of the process that calls; `none` as an inode is a null pointer.
unfoldable pub ilock : ℕ → Option ℕ → Fs → Option Fs
unfolding load_inode
ilock me none s = none
ilock me (some i) s =
    if not (positive (s.itable i).ref) then none else (lock_inode me i s >>= load_inode i)

unfoldable pub iunlock : ℕ → Option ℕ → Fs → Option Fs
iunlock me none s = none
iunlock me (some i) s =
    if not (holds_inode me i s) || not (positive (s.itable i).ref)
    then none
    else some (unlock_inode i s)

abbrev pub Stat : Type 0
Stat = ℕ × ℕ × ℕ × ℕ × ℕ

-- `dev`, `ino`, `type`, `nlink` and `size`
unfoldable pub stati : ℕ → Fs → Stat
stati i s = let ip = s.itable i in (ip.dev, ip.inum, ip.type, ip.nlink, ip.size)
