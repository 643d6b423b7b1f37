-- ===== src/Files.antt =====
-- kernel/file.h and kernel/file.c: the table of open files. What file.c calls in pipe.c, fs.c, log.c,
-- vm.c and the drivers is the interface `Under`; a pointer to a `struct file` is its index. A call
-- that sleeps inside one of these has run to its end.
pub mod PipeAlloc
mod Writing
mod References
mod Examples
use mathlib.Core.Path.{subst}
use os_proc_lap02_system_cal.Prelude.{
  ℕ, zero, suc, ◌+◌, ◌-◌, ◌*◌, ◌/◌, ◌%◌, ◌^◌, ◌≤◌, ◌<◌, ◌≡◌, ◌≢◌, ◌↔◌, ◌⊎◌, inl, inr, refl, sym, ap,
  ◌∙◌, fun_ext, Bool, true, false, not, ◌&&◌, ◌||◌, Option, none, some, List, [], ◌∷◌, ◌++◌, map,
  append-nil, append_assoc, arith, dec_lt, ℕ_discrete, ltb, leb, ◌==◌, if◌then◌else◌, Bool-cases,
  Option-cases, length, get_elem?, set, get_or, take, drop, replicate, length-append, length-set,
  get_elem?-set_self, get_elem?-set_ne, update, update_self, update_ne, Ensures, Ensures-bind,
  Ensures-map, Ensures-some, ◌>>=◌, >>=-eq-some, All, In, NotIn, Distinct, All-map, All-append,
}
use os_proc_lap02_system_cal.Prelude.Int.{ℤ, pos, negsuc}
use os_proc_lap02_system_cal.Layout.{n_file, n_dev, b_size, max_op_blocks}

pub data Kind : Type 0 where
  fd_none fd_pipe fd_inode fd_device : Kind

-- `struct file`. `off` is of 32 bits.
pub record File : Type 0 where
  pub kind : Kind
  pub ref : ℕ
  pub readable : Bool
  pub writable : Bool
  pub pipe : ℕ
  pub ip : ℕ
  pub off : ℕ
  pub major : ℤ

-- `none` is a panic. A Boolean is whether the call returned 0, and `stati` gives the bytes of the
-- `struct stat`. `dev_read` and `dev_write` are the entries of `devsw`, `none` where they are null.
pub record Under : Type 1 where
  pub S : Type 0
  pub begin_op : S → Option S
  pub end_op : S → Option S
  pub iput : ℕ → S → Option S
  pub ilock : ℕ → S → Option S
  pub iunlock : ℕ → S → Option S
  pub stati : ℕ → S → List ℕ
  pub readi : ℕ → ℕ → ℕ → ℤ → S → Option (ℤ × S)
  pub writei : ℕ → ℕ → ℕ → ℕ → S → Option (ℤ × S)
  pub pipeclose : ℕ → Bool → S → Option S
  pub piperead : ℕ → ℕ → ℤ → S → Option (ℤ × S)
  pub pipewrite : ℕ → ℕ → ℤ → S → Option (ℤ × S)
  pub dev_read : ℕ → Option (ℕ → ℤ → S → Option (ℤ × S))
  pub dev_write : ℕ → Option (ℕ → ℤ → S → Option (ℤ × S))
  pub copyout : ℕ → ℕ → List ℕ → S → Option (Bool × S)
  pub kalloc : S → ℕ × S
  pub kfree : ℕ → S → Option S

-- The table, and the state of what file.c calls.
pub record Ftable (S : Type 0) : Type 0 where
  pub files : ℕ → File
  pub under : S

abbrev pub put_file : {S : Type 0} → ℕ → File → Ftable S → Ftable S
put_file f x t = record t { files = update t.files f x }

-- The loop of `filealloc` from entry `i` on, with `k` entries left.
unfoldable pub alloc_from : {S : Type 0} → ℕ → ℕ → Ftable S → Option ℕ × Ftable S
alloc_from zero i t = (none, t)
alloc_from (suc k) i t =
    let rest = alloc_from k (i + 1) t in
    if (t.files i).ref == 0 then (some i, put_file i (record (t.files i) { ref = 1 }) t) else rest

unfoldable pub filealloc : {S : Type 0} → Ftable S → Option ℕ × Ftable S
filealloc t = alloc_from n_file 0 t

unfoldable pub filedup : {S : Type 0} → ℕ → Ftable S → Option (Ftable S)
filedup f t =
    let x = t.files f in
    if ltb x.ref 1 then none else some (put_file f (record x { ref = x.ref + 1 }) t)

-- The bytes that one transaction of `filewrite` writes at most.
abbrev pub write_max : ℕ
write_max = (max_op_blocks - 1 - 1 - 2) / 2 * b_size

-- `r == n1`
abbrev pub wrote_all : ℤ → ℕ → Bool
wrote_all (pos r) n1 = r == n1
wrote_all (negsuc r) n1 = false

module _ (u : Under) where
  open u use {
    S, begin_op, end_op, iput, ilock, iunlock, stati, readi, writei, pipeclose, piperead, pipewrite,
    dev_read, dev_write, copyout,
  }

  -- What `fileclose` does with the copy `ff` of a file that has lost its last reference.
  unfoldable pub close_last : File → S → Option S
  close_last ff s = elim ff.kind [
    | fd_none ↦ some s
    | fd_pipe ↦ pipeclose ff.pipe ff.writable s
    | fd_inode ↦ begin_op s >>= λ s1. iput ff.ip s1 >>= λ s2. end_op s2
    | fd_device ↦ begin_op s >>= λ s1. iput ff.ip s1 >>= λ s2. end_op s2
  ]

  unfoldable pub fileclose : ℕ → Ftable S → Option (Ftable S)
  fileclose f t =
      let x = t.files f in
      if ltb x.ref 1
      then none
      else if ltb 0 (x.ref - 1)
      then some (put_file f (record x { ref = x.ref - 1 }) t)
      else (close_last x t.under >>= λ s.
          some (record (put_file f (record x { ref = 0; kind = fd_none }) t) { under = s }))

  -- `filestat` for an inode or a device; `pt` is the caller's page table.
  unfoldable pub stat_inode : ℕ → File → ℕ → Ftable S → Option (ℤ × Ftable S)
  stat_inode pt x addr t = ilock x.ip t.under >>= λ s1. iunlock x.ip s1 >>= λ s2.
      copyout pt addr (stati x.ip s1) s2 >>= λ (ok, s3).
      some (if ok then pos 0 else negsuc 0, record t { under = s3 })

  unfoldable pub filestat : ℕ → ℕ → ℕ → Ftable S → Option (ℤ × Ftable S)
  filestat pt f addr t = elim (t.files f).kind [
    | fd_none ↦ some (negsuc 0, t)
    | fd_pipe ↦ some (negsuc 0, t)
    | fd_inode ↦ stat_inode pt (t.files f) addr t
    | fd_device ↦ stat_inode pt (t.files f) addr t
  ]

  abbrev pub with_under : Ftable S → ℤ × S → ℤ × Ftable S
  with_under t (r, s) = (r, record t { under = s })

  -- A call through `devsw`: a `major` from 0 to NDEV - 1 and an entry that is not null.
  unfoldable pub through_devsw :
      (ℕ → Option (ℕ → ℤ → S → Option (ℤ × S))) → ℤ → ℕ → ℤ → Ftable S → Option (ℤ × Ftable S)
  through_devsw table (negsuc _) addr n t = some (negsuc 0, t)
  through_devsw table (pos major) addr n t =
      if leb n_dev major then some (negsuc 0, t) else elim (table major) [
        | none ↦ some (negsuc 0, t)
        | some call ↦ call addr n t.under >>= λ r. some (with_under t r)
      ]

  -- `if(r > 0) f->off += r;`
  abbrev pub advance : ℕ → ℤ → Ftable S → Ftable S
  advance f (pos r) t = put_file f (record (t.files f) { off = ((t.files f).off + r) % 2 ^ 32 }) t
  advance f (negsuc r) t = t

  unfoldable pub fileread : ℕ → ℕ → ℤ → Ftable S → Option (ℤ × Ftable S)
  fileread f addr n t =
      let x = t.files f in
      if not x.readable then some (negsuc 0, t) else elim x.kind [
        | fd_none ↦ none
        | fd_pipe ↦ piperead x.pipe addr n t.under >>= λ r. some (with_under t r)
        | fd_device ↦ through_devsw dev_read x.major addr n t
        | fd_inode ↦ ilock x.ip t.under >>= λ s1. readi x.ip addr x.off n s1 >>= λ (r, s2).
            iunlock x.ip s2 >>= λ s3. some (r, advance f r (record t { under = s3 }))
      ]

  -- One transaction of `filewrite`: at most `n1` bytes from `addr` on.
  unfoldable pub write_chunk : ℕ → ℕ → ℕ → Ftable S → Option (ℤ × Ftable S)
  write_chunk f addr n1 t =
      let x = t.files f in
      begin_op t.under >>= λ s1. ilock x.ip s1 >>= λ s2. writei x.ip addr x.off n1 s2 >>= λ (r, s3).
      iunlock x.ip s3 >>= λ s4. end_op s4 >>= λ s5. some (r, advance f r (record t { under = s5 }))

  -- The loop of `filewrite` on fuel: `some none` where the fuel ran out, else the final `i`.
  unfoldable pub chunks_from : ℕ → ℕ → ℕ → ℕ → ℕ → Ftable S → Option (Option (ℕ × Ftable S))
  chunks_from zero i f addr n t = some none
  chunks_from (suc fuel) i f addr n t = elim (ltb i n) [
    | false ↦ some (some (i, t))
    | true ↦
        let n1 = if ltb write_max (n - i) then write_max else n - i in
        write_chunk f ((addr + i) % 2 ^ 64) n1 t >>= λ (r, t1). elim (wrote_all r n1) [
          | false ↦ some (some (i, t1))
          | true ↦ chunks_from fuel (i + n1) f addr n t1
        ]
  ]

  -- The loop for an inode and the result after it; `i == n` fails for a negative `n`.
  unfoldable pub write_inode : ℕ → ℕ → ℕ → ℤ → Ftable S → Option (Option (ℤ × Ftable S))
  write_inode fuel f addr (negsuc _) t = some (some (negsuc 0, t))
  write_inode fuel f addr (pos n) t = chunks_from fuel 0 f addr n t >>= λ o.
      some (o >>= λ (i, t1). some (if i == n then pos n else negsuc 0, t1))

  unfoldable pub filewrite : ℕ → ℕ → ℕ → ℤ → Ftable S → Option (Option (ℤ × Ftable S))
  filewrite fuel f addr n t =
      let x = t.files f in
      if not x.writable then some (some (negsuc 0, t)) else elim x.kind [
        | fd_none ↦ none
        | fd_pipe ↦ pipewrite x.pipe addr n t.under >>= λ r. some (some (with_under t r))
        | fd_device ↦ through_devsw dev_write x.major addr n t >>= λ r. some (some r)
        | fd_inode ↦ write_inode fuel f addr n t
      ]
