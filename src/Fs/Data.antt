-- ===== src/Fs/Data.antt =====
-- kernel/fs.c: readi and writei.
use os_proc_lap02_system_cal.Prelude.{
  ℕ, zero, suc, ◌+◌, ◌-◌, ◌*◌, ◌/◌, ◌%◌, ◌^◌, Bool, true, false, ◌||◌, Option, none, some, List,
  ltb, ◌==◌, if◌then◌else◌, ◌>>=◌,
}
use os_proc_lap02_system_cal.Layout.{b_size}
use os_proc_lap02_system_cal.Vm.Space.{put_bytes}
use os_proc_lap02_system_cal.Vm.Copy.{get_bytes}
use os_proc_lap02_system_cal.Fs.{Fs, put_block, log_call, max_file}
use os_proc_lap02_system_cal.Fs.Inodes.{set_inode, iupdate}
use os_proc_lap02_system_cal.Fs.Content.{bmap}

-- `min(left, BSIZE - off % BSIZE)`
abbrev pub piece : ℕ → ℕ → ℕ
piece off left = if ltb left (b_size - off % b_size) then left else b_size - off % b_size

-- Memory outside the file system, and what `either_copyout` and `either_copyin` do there: whether all
-- went well and the memory then, and whether all went well and the bytes copied before it did not.
module _ (M : Type 0) (either_copyout : ℕ → List ℕ → M → Option (Bool × M))
    (either_copyin : ℕ → ℕ → M → Option (Bool × List ℕ)) where
  -- The loop of `readi` with `left` bytes left, after `tot`. Each round takes a byte at least.
  unfoldable pub read_pieces : ℕ → ℕ → ℕ → ℕ → ℕ → ℕ → M → Fs → Option (Option ℕ × (M × Fs))
  read_pieces fuel i dst off zero tot m s = some (some tot, (m, s))
  read_pieces zero i dst off (suc left) tot m s = none
  read_pieces (suc fuel) i dst off (suc left) tot m s = bmap i (off / b_size) s >>= λ (addr, t).
      elim (addr == 0) [
        | true ↦ some (some tot, (m, t))
        | false ↦
            let k = piece off (suc left) in
            either_copyout dst (get_bytes k (off % b_size) (t.disk (t.itable i).dev addr)) m
            >>= λ (ok, m1). elim ok [
              | false ↦ some (none, (m1, t))
              | true ↦ read_pieces fuel i (dst + k) (off + k) (suc left - k) (tot + k) m1 t
            ]
      ]

  -- The number of bytes read, or `none` for -1.
  unfoldable pub readi : ℕ → ℕ → ℕ → ℕ → M → Fs → Option (Option ℕ × (M × Fs))
  unfolding read_pieces
  readi i dst off n m s =
      let size = (s.itable i).size in
      if ltb size off || ltb ((off + n) % 2 ^ 32) off
      then some (some 0, (m, s))
      else let len = if ltb size ((off + n) % 2 ^ 32) then size - off else n in
        read_pieces len i dst off len 0 m s

  -- The loop of `writei`: the bytes written and the offset after them.
  unfoldable pub write_pieces : ℕ → ℕ → ℕ → ℕ → ℕ → ℕ → M → Fs → Option (ℕ × ℕ × Fs)
  write_pieces fuel i src off zero tot m s = some (tot, off, s)
  write_pieces zero i src off (suc left) tot m s = none
  write_pieces (suc fuel) i src off (suc left) tot m s = bmap i (off / b_size) s >>= λ (addr, t).
      elim (addr == 0) [
        | true ↦ some (tot, off, t)
        | false ↦
            let k = piece off (suc left) in
            let dev = (t.itable i).dev in
            either_copyin src k m >>= λ (ok, bs).
            let u = put_block dev addr (put_bytes (off % b_size) bs (t.disk dev addr)) t in
            elim ok [
              | false ↦ some (tot, off, u)
              | true ↦
                  write_pieces fuel i (src + k) (off + k) (suc left - k) (tot + k) m
                    (log_call addr u)
            ]
      ]

  unfoldable pub writei : ℕ → ℕ → ℕ → ℕ → M → Fs → Option (Option ℕ × Fs)
  unfolding write_pieces
  writei i src off n m s =
      if ltb (s.itable i).size off || ltb ((off + n) % 2 ^ 32) off
      then some (none, s)
      else if ltb (max_file * b_size) ((off + n) % 2 ^ 32)
      then some (none, s)
      else (write_pieces n i src off n 0 m s >>= λ (tot, end_off, t).
          let u =
            if ltb (t.itable i).size end_off
            then set_inode i (record (t.itable i) { size = end_off }) t
            else t in
          some (some tot, iupdate i u))
