-- ===== src/Pipe.antt =====
-- kernel/pipe.c: the ring buffer of a pipe, reading, writing and closing.
mod Queue
mod Writing
mod Reading
mod Examples
use mathlib.Core.Path.{subst}
use os_proc_lap02_system_cal.Prelude.{
  ℕ, zero, suc, ◌+◌, ◌-◌, ◌*◌, ◌/◌, ◌%◌, ◌^◌, ◌≤◌, ◌<◌, ◌≡◌, ◌≢◌, ◌↔◌, ◌⊎◌, inl, inr, refl, sym, ap,
  ◌∙◌, fun_ext, Bool, true, false, not, ◌&&◌, ◌||◌, Option, none, some, List, [], ◌∷◌, ◌++◌, map,
  append-nil, append_assoc, arith, dec_lt, ℕ_discrete, ltb, leb, ◌==◌, if◌then◌else◌, Bool-cases,
  Option-cases, length, get_elem?, set, get_or, take, drop, replicate, length-append, length-set,
  get_elem?-set_self, get_elem?-set_ne, update, update_self, update_ne, Ensures, Ensures-bind,
  Ensures-map, Ensures-some, ◌>>=◌, >>=-eq-some, All, In, NotIn, Distinct, All-map, All-append,
}
use os_proc_lap02_system_cal.Prelude.Int.{ℤ, pos, negsuc}
use os_proc_lap02_system_cal.Proc.{Kernel, World}
use os_proc_lap02_system_cal.Proc.Sched.{wakeup, killed}

abbrev pub pipesize : ℕ
pipesize = 512

-- `struct pipe` without its lock. The counters are of 32 bits.
pub record Pipe : Type 0 where
  pub data_at : ℕ → ℕ
  pub nread : ℕ
  pub nwrite : ℕ
  pub readopen : Bool
  pub writeopen : Bool

-- `pi->data[pi->nwrite++ % PIPESIZE] = ch`
unfoldable pub put_byte : ℕ → Pipe → Pipe
put_byte ch pi = record pi {
  data_at = update pi.data_at (pi.nwrite % pipesize) ch;
  nwrite = (pi.nwrite + 1) % 2 ^ 32;
}

-- `pi->data[pi->nread++ % PIPESIZE]`: the byte, and the pipe without it.
unfoldable pub next_byte : Pipe → ℕ × Pipe
next_byte pi = (pi.data_at (pi.nread % pipesize), record pi { nread = (pi.nread + 1) % 2 ^ 32 })

abbrev pub is_empty : Pipe → Bool
is_empty pi = pi.nread == pi.nwrite

abbrev pub is_full : Pipe → Bool
is_full pi = pi.nwrite == (pi.nread + pipesize) % 2 ^ 32

-- A call returns, or sleeps after `i` bytes and goes on from there when it is woken.
pub data Progress (M : Type 0) : Type 0 where
  returned : ℤ → Pipe → Kernel M → Progress M
  blocked : ℕ → Pipe → Kernel M → Progress M

-- The caller is the process `me`; `nread_chan` and `nwrite_chan` are the addresses of the counters,
-- on which processes sleep.
module _ (w : World) (nread_chan nwrite_chan me : ℕ) where
  open w use {Mem, copyin, copyout, kfree}

  -- After the loop of `pipewrite`.
  unfoldable pub write_end : ℕ → Pipe → Kernel Mem → Progress Mem
  write_end i pi k = returned (pos i) pi (wakeup (some me) nread_chan k)

  -- The loop of `pipewrite` from byte `i` on, with `r` bytes left.
  unfoldable pub write_from : ℕ → ℕ → ℕ → Pipe → Kernel Mem → Option (Progress Mem)
  unfolding write_end
  write_from zero i addr pi k = some (write_end i pi k)
  write_from (suc r) i addr pi k = elim (not pi.readopen || killed me k) [
    | true ↦ some (returned (negsuc 0) pi k)
    | false ↦ elim (is_full pi) [
      | true ↦ some (blocked i pi (wakeup (some me) nread_chan k))
      | false ↦ copyin (k.procs me).pagetable ((addr + i) % 2 ^ 64) 1 k.mem >>= λ bytes.
          elim bytes [
            | none ↦ some (write_end i pi k)
            | some [] ↦ none
            | some (ch ∷ _) ↦ write_from r (i + 1) addr (put_byte ch pi) k
          ]
    ]
  ]

  unfoldable pub pipewrite : ℤ → ℕ → Pipe → Kernel Mem → Option (Progress Mem)
  pipewrite (pos n) addr pi k = write_from n 0 addr pi k
  pipewrite (negsuc n) addr pi k = write_from 0 0 addr pi k

  unfoldable pub read_end : ℕ → Pipe → Kernel Mem → Progress Mem
  read_end i pi k = returned (pos i) pi (wakeup (some me) nwrite_chan k)

  -- The second loop of `piperead` from byte `i` on, with `r` bytes left.
  unfoldable pub read_from : ℕ → ℕ → ℕ → Pipe → Kernel Mem → Option (Progress Mem)
  unfolding read_end
  read_from zero i addr pi k = some (read_end i pi k)
  read_from (suc r) i addr pi k = elim (is_empty pi) [
    | true ↦ some (read_end i pi k)
    | false ↦
        copyout (k.procs me).pagetable ((addr + i) % 2 ^ 64) ((next_byte pi).0 ∷ []) k.mem
        >>= λ (ok, m). elim ok [
          | false ↦ some (read_end i (next_byte pi).1 (record k { mem = m }))
          | true ↦ read_from r (i + 1) addr (next_byte pi).1 (record k { mem = m })
        ]
  ]

  unfoldable pub piperead : ℤ → ℕ → Pipe → Kernel Mem → Option (Progress Mem)
  piperead n addr pi k = elim (is_empty pi && pi.writeopen) [
    | true ↦ elim (killed me k) [
      | true ↦ some (returned (negsuc 0) pi k)
      | false ↦ some (blocked 0 pi k)
    ]
    | false ↦ elim n [ pos c ↦ read_from c 0 addr pi k | negsuc c ↦ read_from 0 0 addr pi k ]
  ]

  -- The pipe is in the page `page`, which is freed with the second of its ends.
  unfoldable pub pipeclose : ℕ → Bool → Pipe → Kernel Mem → Option (Pipe × Kernel Mem)
  pipeclose page writable pi k =
      let qi =
        if writable then record pi { writeopen = false } else record pi { readopen = false } in
      let l = wakeup (some me) (if writable then nread_chan else nwrite_chan) k in
      if not qi.readopen && not qi.writeopen
      then (kfree page l.mem >>= λ m. some (qi, record l { mem = m }))
      else some (qi, l)
