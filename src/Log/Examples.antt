-- ===== src/Log/Examples.antt =====
-- The log at concrete transactions: the log area of 31 blocks begins at block 2.
use os_proc_lap02_system_cal.Prelude.{
  false, update_ne, ℕ, ◌<◌, ◌≡◌, ◌≢◌, ◌⊎◌, inr, refl, sym, true, none, [], ◌∷◌, arith, length,
  update, All,
}
use os_proc_lap02_system_cal.Layout.{log_size}
use os_proc_lap02_system_cal.Log.{
  Log, Block, Disk, started, initlog, begin_op, commit, ended, end_op, log_write, write_head,
  install_trans, install_from, install_one, write_log, log_from, log_one, put_blocks, find_from,
}
use os_proc_lap02_system_cal.Log.Recover.{clean}
use os_proc_lap02_system_cal.Log.Commit.{Transaction, Restores, commit_atomic, recovery_restarts}
use os_proc_lap02_system_cal.Log.Absorb.{log_write-Transaction}
use os_proc_lap02_system_cal.Log.Reserve.{log_write-ne-none, end_op-ended}
use os_proc_lap02_system_cal.Log.Operations.{here, Finish, enter, Reach, idle, step}
use os_proc_lap02_system_cal.Log.Overflow.{log_write-panics}

abbrev blank : Disk
blank = λ _ _. 0

abbrev nines : Block
nines = λ _. 9

-- Block 40 has been changed to nines, and logged.
abbrev one_logged : Log
one_logged = record {
  start = 2;
  size = 31;
  outstanding = 0;
  committing = true;
  n = 1;
  block = λ _. 40;
  pins = update (λ _. 0) 40 1;
  view = update blank 40 nines;
  disk = blank;
  images = blank ∷ [];
}

one_logged-Transaction : Transaction one_logged
one_logged-Transaction = record {
  few = omega arith;
  homes = λ i p. inr (omega arith);
  empty = refl;
  coherent = λ b out unnamed. sym (update_ne blank 40 b nines (unnamed 0 (omega arith)));
}

commit_atomic_example :
    All
      (λ d. Restores one_logged d blank ⊎ Restores one_logged d one_logged.view)
      (commit one_logged).images
commit_atomic_example = commit_atomic one_logged one_logged-Transaction refl

recovery_restarts_example :
    Restores one_logged blank blank
    × All (λ d. Restores one_logged d blank) (initlog 2 31 blank).images
recovery_restarts_example =
    recovery_restarts one_logged blank blank (omega arith)
      (clean (record { head = refl; same = λ b out. refl }))

-- The transaction of an idle log, with one operation under way.
abbrev running : Log
running = record (started 2 31 blank) { outstanding = 1 }

running-Transaction : Transaction running
running-Transaction = record {
  few = omega arith;
  homes = λ i p. absurd (omega arith);
  empty = refl;
  coherent = λ b out unnamed. refl;
}

abbrev logged_41 : Log
logged_41 = record running {
  n = 1;
  block = update (λ _. 0) 0 41;
  pins = update (λ _. 0) 41 1;
  view = update blank 41 nines;
}

log_write-Transaction_example :
    Transaction logged_41
    × (logged_41.view 41 ≡ nines)
    × (logged_41.disk ≡ blank)
    × (((logged_41.n ≡ 0) × (logged_41.pins 41 ≡ 0))
        ⊎ ((logged_41.n ≡ 1) × (logged_41.pins 41 ≡ 1) × ((i : ℕ) → i < 0 → running.block i ≢ 41)))
unfolding log_write find_from
log_write-Transaction_example =
    log_write-Transaction running logged_41 41 nines (inr (omega arith)) running-Transaction refl

one_running : Reach 31 (record { log = running; budgets = 10 ∷ []; in_commit = false })
unfolding begin_op
one_running = step (idle (started 2 31 blank) refl refl refl refl) (enter refl)

log_write-ne-none_example : log_write running 77 ≢ none
log_write-ne-none_example = log_write-ne-none (omega arith) one_running here 77

end_op-ended_example :
    (false ≡ false) × (l : Log) × (end_op running ≡ ended l) × (l.outstanding ≡ 0)
end_op-ended_example = end_op-ended one_running Finish.here

log_write-panics_example :
    (t : Log) × Reach log_size (record { log = t; budgets = 0 ∷ 0 ∷ 1 ∷ []; in_commit = false })
    × ((b : ℕ) → log_write t b ≡ none)
log_write-panics_example = log_write-panics (started 2 30 blank) refl refl refl refl

-- A commit writes the log, the header, the block and the header again.
commit_writes_four_times : length (commit one_logged).images ≡ 5
unfolding commit write_log log_from log_one write_head put_blocks install_trans install_from
    install_one
commit_writes_four_times = refl
