-- ===== src/Files/Examples.antt =====
-- Open files over a file system that accepts every call, and counts transactions.
use os_proc_lap02_system_cal.Prelude.{
  ℕ, ◌+◌, ◌%◌, ◌^◌, ◌≡◌, ◌≢◌, ◌⊎◌, refl, true, false, Option, none, some, [], arith, update,
}
use os_proc_lap02_system_cal.Prelude.Int.{ℤ, pos, negsuc}
use os_proc_lap02_system_cal.Files.{
  fd_none, fd_inode, File, Under, Ftable, filealloc, alloc_from, filedup, filewrite, write_inode,
  chunks_from, write_chunk,
}
use os_proc_lap02_system_cal.Files.PipeAlloc.{pipealloc}
use os_proc_lap02_system_cal.Files.Writing.{filewrite_lem}

abbrev counting : Under
counting = record {
  S = ℕ;
  begin_op = λ s. some (s + 1);
  end_op = λ s. some s;
  iput = λ ip s. some s;
  ilock = λ ip s. some s;
  iunlock = λ ip s. some s;
  stati = λ ip s. [];
  readi = λ ip addr off n s. some (n, s);
  writei = λ ip addr off n s. some (pos n, s);
  pipeclose = λ pi writable s. some s;
  piperead = λ pi addr n s. some (n, s);
  pipewrite = λ pi addr n s. some (n, s);
  dev_read = λ major. none;
  dev_write = λ major. none;
  copyout = λ pt addr bytes s. some (true, s);
  kalloc = λ s. (4096, s);
  kfree = λ pa s. some s;
}

abbrev closed : File
closed = record {
  kind = fd_none;
  ref = 0;
  readable = false;
  writable = false;
  pipe = 0;
  ip = 0;
  off = 0;
  major = pos 0;
}

-- File 0 is open for writing, 100 bytes before its offset wraps around.
abbrev one_file : Ftable ℕ
one_file = record {
  files =
      update (λ _. closed) 0
        (record closed { kind = fd_inode; ref = 1; writable = true; off = 4294967196 });
  under = 0;
}

value : {A : Type 0} → A → Option A → A
value d none = d
value d (some a) = a

written : Option (ℤ × Ftable ℕ)
unfolding value filewrite write_inode chunks_from write_chunk
written = value none (filewrite counting 7001 0 4096 (pos 7000) one_file)

filewrite_lem_example :
    (r : ℤ) × (t1 : Ftable ℕ) × (written ≡ some (r, t1))
    × ((r ≡ negsuc 0)
        ⊎ ((r ≡ pos 7000)
            × ((t1.files 0).off ≡ (4294967196 + 7000) % 2 ^ 32)
            × ((j : ℕ) → j ≢ 0 → t1.files j ≡ one_file.files j)))
unfolding written value
filewrite_lem_example =
    filewrite_lem counting 0 4096 7000 one_file written refl refl (omega arith) refl

-- Three transactions.
transactions :
    written
    ≡ some (pos 7000, record { files = (value (negsuc 0, one_file) written).1.files; under = 3 })
unfolding written value
transactions = refl

duplicated : Ftable ℕ
unfolding value filedup
duplicated = value one_file (filedup 0 one_file)

pipe_ends : Option (ℕ × ℕ × ℕ) × Ftable ℕ
unfolding value pipealloc filealloc alloc_from
pipe_ends = value (none, one_file) (pipealloc counting one_file)

pipe_opened : (pipe_ends.0 ≡ some (4096, 1, 2)) × ((pipe_ends.1.files 2).writable ≡ true)
unfolding pipe_ends value
pipe_opened = (refl, refl)
