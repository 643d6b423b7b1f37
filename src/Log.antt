-- ===== src/Log.antt =====
-- kernel/log.c: transactions of file system calls, and recovery after a crash.
--
-- A block is its 256 words of 32 bits; of the log's header block word 0 is `n` and word `i + 1` is
-- `block[i]`. `view b` is the data that `bread(b)` returns: the cached buffer's, or else the disk's.
-- `bwrite` copies it to the disk, in one atomic step. `images` lists every state that the disk has
-- been in, the latest first; the code does not read it, it is what a crash may leave behind.
-- `pins b` counts the `bpin`s of block `b` less its `bunpin`s. There is one device.
mod Steps
mod Images
mod Recover
mod Commit
mod Absorb
mod Operations
mod Reserve
mod Overflow
mod Examples
use os_proc_lap02_system_cal.Prelude.{
  ℕ, zero, suc, ◌+◌, ◌-◌, ◌*◌, ◌≤◌, ◌<◌, Option, none, some, Bool, true, false, ◌||◌, List, [], ◌∷◌,
  ltb, leb, ◌==◌, if◌then◌else◌, update,
}
use os_proc_lap02_system_cal.Layout.{max_op_blocks, log_size}

abbrev pub Block : Type 0
Block = ℕ → ℕ

abbrev pub Disk : Type 0
Disk = ℕ → Block

-- `struct log` with its `logheader`, and the blocks
pub record Log : Type 0 where
  pub start : ℕ
  pub size : ℕ
  pub outstanding : ℕ
  pub committing : Bool
  pub n : ℕ
  pub block : ℕ → ℕ
  pub pins : ℕ → ℕ
  pub view : Disk
  pub disk : Disk
  pub images : List Disk

-- A change of the buffer that `bread(b)` returned.
abbrev pub modify : Log → ℕ → Block → Log
modify s b x = record s { view = update s.view b x }

abbrev pub bwrite : Log → ℕ → Log
bwrite s b =
    let d : Disk = update s.disk b (s.view b) in record s { disk = d; images = d ∷ s.images }

abbrev pub bpin : Log → ℕ → Log
bpin s b = record s { pins = update s.pins b (s.pins b + 1) }

abbrev pub bunpin : Log → ℕ → Log
bunpin s b = record s { pins = update s.pins b (s.pins b - 1) }

-- One round of the loop of `install_trans`: copy a log block to its home, and write that.
unfoldable pub install_one : Bool → Log → ℕ → Log
install_one recovering s tail =
    let home = s.block tail in
    let t = bwrite (modify s home (s.view (s.start + tail + 1))) home in
    if recovering then t else bunpin t home

unfoldable pub install_from : Bool → ℕ → ℕ → Log → Log
install_from recovering zero tail s = s
install_from recovering (suc k) tail s =
    install_from recovering k (tail + 1) (install_one recovering s tail)

unfoldable pub install_trans : Bool → Log → Log
install_trans recovering s = install_from recovering s.n 0 s

-- The loop of `read_head`: entries `i`, `i + 1`, … of the header block, `k` of them.
unfoldable pub read_blocks : ℕ → ℕ → Block → (ℕ → ℕ) → ℕ → ℕ
read_blocks zero i header block = block
read_blocks (suc k) i header block = read_blocks k (i + 1) header (update block i (header (i + 1)))

unfoldable pub read_head : Log → Log
read_head s =
    let header = s.view s.start in
    record s { n = header 0; block = read_blocks (header 0) 0 header s.block }

-- The loop of `write_head`.
unfoldable pub put_blocks : ℕ → ℕ → (ℕ → ℕ) → Block → Block
put_blocks zero i block header = header
put_blocks (suc k) i block header = put_blocks k (i + 1) block (update header (i + 1) (block i))

unfoldable pub write_head : Log → Log
write_head s =
    let header = put_blocks s.n 0 s.block (update (s.view s.start) 0 s.n) in
    bwrite (modify s s.start header) s.start

unfoldable pub recover_from_log : Log → Log
recover_from_log s = write_head (record (install_trans true (read_head s)) { n = 0 })

-- `initlog` on a machine that has just started: no buffer is cached, so `bread` reads the disk.
abbrev pub started : ℕ → ℕ → Disk → Log
started start size d = record {
  start = start;
  size = size;
  outstanding = 0;
  committing = false;
  n = 0;
  block = λ _. 0;
  pins = λ _. 0;
  view = d;
  disk = d;
  images = d ∷ [];
}

unfoldable pub initlog : ℕ → ℕ → Disk → Log
initlog start size d = recover_from_log (started start size d)

-- What a process that calls `begin_op` does next: it goes on, or sleeps on `&log`.
pub data Begin : Type 0 where
  begun : Log → Begin
  asleep : Begin

unfoldable pub begin_op : Log → Begin
begin_op s =
    if s.committing
    then asleep
    else if ltb log_size (s.n + (s.outstanding + 1) * max_op_blocks)
    then asleep
    else begun (record s { outstanding = s.outstanding + 1 })

-- One round of the loop of `write_log`: copy a modified block to the log, and write that.
unfoldable pub log_one : Log → ℕ → Log
log_one s tail = let to = s.start + tail + 1 in bwrite (modify s to (s.view (s.block tail))) to

unfoldable pub log_from : ℕ → ℕ → Log → Log
log_from zero tail s = s
log_from (suc k) tail s = log_from k (tail + 1) (log_one s tail)

unfoldable pub write_log : Log → Log
write_log s = log_from s.n 0 s

unfoldable pub commit : Log → Log
commit s =
    if ltb 0 s.n
    then write_head (record (install_trans false (write_head (write_log s))) { n = 0 })
    else s

-- `end_op`: a panic, a call with no `begin_op` before it (the counter would go below 0), or the state
-- after it, in which the last operation has committed.
pub data End : Type 0 where
  panicked : End
  unmatched : End
  ended : Log → End

-- The first part of `end_op`, under the lock: no `begin_op` came before, a panic, the last operation
-- leaves and has to commit, or others are left.
pub data Leave : Type 0 where
  no_begin : Leave
  log_committing : Leave
  last_out : Log → Leave
  others_left : Log → Leave

unfoldable pub leave : Log → Leave
leave s =
    if s.outstanding == 0
    then no_begin
    else if s.committing
    then log_committing
    else if s.outstanding == 1
    then last_out (record s { outstanding = 0; committing = true })
    else others_left (record s { outstanding = s.outstanding - 1 })

-- The second part, if `do_commit`: the commit, without the lock, and then the flag.
unfoldable pub finish_commit : Log → Log
finish_commit t = record (commit t) { committing = false }

unfoldable pub end_op : Log → End
unfolding finish_commit
end_op s = elim (leave s) [
  | no_begin ↦ unmatched
  | log_committing ↦ panicked
  | last_out t ↦ ended (finish_commit t)
  | others_left t ↦ ended t
]

-- The loop of `log_write`: the first entry from `i` on that names block `b`, or the entry after the
-- last of the `k` that are left.
unfoldable pub find_from : ℕ → ℕ → (ℕ → ℕ) → ℕ → ℕ
find_from zero i block b = i
find_from (suc k) i block b =
    let rest = find_from k (i + 1) block b in if block i == b then i else rest

-- The buffer of block `b` holds data that the caller has changed. `none` is a panic.
unfoldable pub log_write : Log → ℕ → Option Log
log_write s b =
    if leb log_size s.n || leb s.size (s.n + 1)
    then none
    else if s.outstanding == 0
    then none
    else let i = find_from s.n 0 s.block b in
      let t = record s { block = update s.block i b } in
      some (if i == s.n then record (bpin t b) { n = s.n + 1 } else t)
