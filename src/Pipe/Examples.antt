-- ===== src/Pipe/Examples.antt =====
-- A pipe whose write counter is about to wrap around.
use os_proc_lap02_system_cal.Prelude.{
  ℕ, ◌≡◌, ◌⊎◌, refl, true, false, ◌&&◌, Option, none, some, [], ◌∷◌, arith, if◌then◌else◌, update,
}
use os_proc_lap02_system_cal.Prelude.Int.{pos, negsuc}
use os_proc_lap02_system_cal.Proc.Toy.{toy, two_procs}
use os_proc_lap02_system_cal.Proc.Sched.{wakeup, wakeup_from, killed}
use os_proc_lap02_system_cal.Pipe.{
  Pipe, Progress, returned, blocked, put_byte, next_byte, is_empty, write_from, write_end, piperead,
  read_from, read_end,
}
use os_proc_lap02_system_cal.Pipe.Queue.{slots, contents, IsPipe}
use os_proc_lap02_system_cal.Pipe.Writing.{Wrote, pipewrite_lem}
use os_proc_lap02_system_cal.Pipe.Reading.{Took, piperead_lem}

abbrev two_bytes : Pipe
two_bytes = record {
  data_at = update (update (λ _. 0) 509 65) 510 66;
  nread = 4294967293;
  nwrite = 4294967295;
  readopen = true;
  writeopen = true;
}

two_bytes-IsPipe : IsPipe two_bytes
two_bytes-IsPipe = record {
  nread_small = omega arith;
  nwrite_small = omega arith;
  bounded = omega arith;
}

value : {A : Type 0} → A → Option A → A
value d none = d
value d (some a) = a

after_write : Progress ℕ
unfolding value write_from write_end killed wakeup wakeup_from put_byte
after_write =
    value (blocked 0 two_bytes two_procs) (write_from toy 600 604 1 3 0 4096 two_bytes two_procs)

pipewrite_lem_example : Wrote toy 600 604 1 0 3 4096 two_bytes two_procs after_write
unfolding after_write value
pipewrite_lem_example =
    pipewrite_lem toy 600 604 1 3 0 4096 two_bytes two_procs after_write two_bytes-IsPipe refl

after_read : Progress ℕ
unfolding value piperead read_from read_end killed wakeup wakeup_from next_byte
after_read =
    value (blocked 0 two_bytes two_procs) (piperead toy 600 604 1 (pos 5) 4096 two_bytes two_procs)

piperead_lem_example :
    (((is_empty two_bytes && true) ≡ false)
      × Took toy 600 604 1 0 0 5 4096 two_bytes two_procs.mem after_read)
    ⊎ (((is_empty two_bytes && true) ≡ true)
        × (after_read ≡ (
            if killed 1 two_procs
            then returned (negsuc 0) two_bytes two_procs
            else blocked 0 two_bytes two_procs)))
unfolding after_read value
piperead_lem_example =
    piperead_lem toy 600 604 1 5 4096 two_bytes two_procs after_read two_bytes-IsPipe refl

bytes_in_pipe : contents two_bytes ≡ 65 ∷ 66 ∷ []
unfolding slots
bytes_in_pipe = refl
