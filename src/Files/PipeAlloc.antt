-- ===== src/Files/PipeAlloc.antt =====
-- pipealloc of kernel/pipe.c, which opens two files.
use os_proc_lap02_system_cal.Prelude.{
  ℕ, Bool, true, false, not, Option, none, some, ◌==◌, if◌then◌else◌, ◌>>=◌,
}
use os_proc_lap02_system_cal.Pipe.{Pipe}
use os_proc_lap02_system_cal.Files.{fd_pipe, File, Under, Ftable, put_file, filealloc, fileclose}

-- The pipe that `pipealloc` sets up in a page whose bytes are `bytes`.
abbrev pub new_pipe : (ℕ → ℕ) → Pipe
new_pipe bytes = record {
  data_at = bytes;
  nread = 0;
  nwrite = 0;
  readopen = true;
  writeopen = true;
}

module _ (u : Under) where
  open u use {S, kalloc}

  -- The label `bad`, where no page has been taken: the files taken so far are closed.
  unfoldable pub close_taken : Option ℕ → Option ℕ → Ftable S → Option (Ftable S)
  close_taken none none t = some t
  close_taken none (some f1) t = fileclose u f1 t
  close_taken (some f0) none t = fileclose u f0 t
  close_taken (some f0) (some f1) t = fileclose u f0 t >>= λ t1. fileclose u f1 t1

  abbrev pub pipe_file : ℕ → Bool → File → File
  pipe_file page writes x = record x {
    kind = fd_pipe;
    readable = not writes;
    writable = writes;
    pipe = page;
  }

  -- The page and the files of the two ends, or `none` for the result -1.
  unfoldable pub pipealloc : Ftable S → Option (Option (ℕ × ℕ × ℕ) × Ftable S)
  unfolding close_taken
  pipealloc t =
      let (o0, t0) = filealloc t in
      elim o0 [
        | none ↦ close_taken none none t0 >>= λ t1. some (none, t1)
        | some f0 ↦
            let (o1, t1) = filealloc t0 in
            elim o1 [
              | none ↦ close_taken (some f0) none t1 >>= λ t2. some (none, t2)
              | some f1 ↦
                  let (page, s) = kalloc t1.under in
                  let t2 = record t1 { under = s } in
                  if page == 0
                  then (close_taken (some f0) (some f1) t2 >>= λ t3. some (none, t3))
                  else some (
                    some (page, f0, f1),
                    put_file f1 (pipe_file page true (t2.files f1))
                        (put_file f0 (pipe_file page false (t2.files f0)) t2),
                  )
            ]
      ]
