-- ===== src/Fs/Content.antt =====
-- kernel/fs.c: the blocks of an inode's content.
use os_proc_lap02_system_cal.Prelude.{
  ℕ, zero, suc, ◌+◌, ◌-◌, ◌*◌, ◌%◌, ◌^◌, true, false, ◌&&◌, Option, none, some, ltb, ◌==◌,
  if◌then◌else◌, update, ◌>>=◌,
}
use os_proc_lap02_system_cal.Fs.{
  Fs, get_le, put_le, put_block, log_call, balloc, bfree, n_direct, n_indirect,
}
use os_proc_lap02_system_cal.Fs.Inodes.{set_inode, iupdate, lock_inode, unlock_inode, iunlock}

-- `ip->addrs[k] = addr`
abbrev pub set_addr : ℕ → ℕ → ℕ → Fs → Fs
set_addr i k addr s =
    set_inode i (record (s.itable i) { addrs = update (s.itable i).addrs k addr }) s

-- A block number that an inode holds, or a new one where it is 0.
unfoldable pub addr_or_new : ℕ → ℕ → Fs → ℕ × Fs
addr_or_new i k s = elim ((s.itable i).addrs k == 0) [
  | false ↦ ((s.itable i).addrs k, s)
  | true ↦
      let (addr, t) = balloc (s.itable i).dev s in
      if addr == 0 then (0, t) else (addr, set_addr i k addr t)
]

-- `a[bn]` of the indirect block `ind`, or a new block where it is 0.
unfoldable pub indirect : ℕ → ℕ → ℕ → Fs → ℕ × Fs
indirect dev ind bn s =
    let old = get_le 4 (4 * bn) (s.disk dev ind) in
    elim (old == 0) [
      | false ↦ (old, s)
      | true ↦
          let (addr, t) = balloc dev s in
          if addr == 0
          then (0, t)
          else (addr, log_call ind (put_block dev ind (put_le 4 (4 * bn) addr (t.disk dev ind)) t))
    ]

unfoldable pub bmap : ℕ → ℕ → Fs → Option (ℕ × Fs)
unfolding addr_or_new indirect
bmap i bn s =
    if ltb bn n_direct
    then some (addr_or_new i bn s)
    else if ltb (bn - n_direct) n_indirect
    then (let (ind, t) = addr_or_new i n_direct s in
        some (if ind == 0 then (0, t) else indirect (t.itable i).dev ind (bn - n_direct) t))
    else none

-- The first loop of `itrunc` with `left` direct blocks left.
unfoldable pub free_direct : ℕ → ℕ → ℕ → Fs → Option Fs
free_direct zero k i s = some s
free_direct (suc left) k i s = elim ((s.itable i).addrs k == 0) [
  | true ↦ free_direct left (k + 1) i s
  | false ↦ bfree (s.itable i).dev ((s.itable i).addrs k) s >>= λ t.
      free_direct left (k + 1) i (set_addr i k 0 t)
]

-- Its second loop, over the entries of the indirect block.
unfoldable pub free_indirect : ℕ → ℕ → ℕ → ℕ → Fs → Option Fs
free_indirect zero j dev ind s = some s
free_indirect (suc left) j dev ind s =
    let a = get_le 4 (4 * j) (s.disk dev ind) in
    elim (a == 0) [
      | true ↦ free_indirect left (j + 1) dev ind s
      | false ↦ bfree dev a s >>= free_indirect left (j + 1) dev ind
    ]

unfoldable pub itrunc : ℕ → Fs → Option Fs
unfolding free_direct free_indirect
itrunc i s =
    (free_direct n_direct 0 i s >>= λ t.
    let dev = (t.itable i).dev in
    let ind = (t.itable i).addrs n_direct in
    if ind == 0
    then some t
    else (free_indirect n_indirect 0 dev ind t >>= λ u.
        bfree dev ind u >>= λ v. some (set_addr i n_direct 0 v)))
    >>= λ t. some (iupdate i (set_inode i (record (t.itable i) { size = 0 }) t))

-- `ref--`
abbrev pub drop_ref : ℕ → Fs → Fs
drop_ref i s =
    set_inode i (record (s.itable i) { ref = ((s.itable i).ref + 2 ^ 32 - 1) % 2 ^ 32 }) s

unfoldable pub iput : ℕ → ℕ → Fs → Option Fs
unfolding itrunc
iput me i s =
    let ip = s.itable i in
    if ip.ref == 1 && (ip.valid && ip.nlink == 0)
    then (lock_inode me i s >>= λ t. itrunc i t >>= λ u.
        let v = iupdate i (set_inode i (record (u.itable i) { type = 0 }) u) in
        some (drop_ref i (unlock_inode i (set_inode i (record (v.itable i) { valid = false }) v))))
    else some (drop_ref i s)

unfoldable pub iunlockput : ℕ → ℕ → Fs → Option Fs
iunlockput me i s = iunlock me (some i) s >>= iput me i
