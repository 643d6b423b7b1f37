-- ===== src/Log/Reserve.antt =====
-- kernel/log.c: `begin_op` reserves log space, so that `log_write` need not panic, and no operation is
-- under way while the log commits.
use os_proc_lap02_system_cal.Log.Operations.{
  finish_commit-fields, leave-last_out, Finish-limited, leave-others_left, Spend-limited,
  log_write_lem, total-le, Spend-total, begin_op_lem, enter, write, leave_others, leave_last,
  committed, idle, step, here, there, commit-fields, Finish-total, Finish, Spend, Reach, Step,
  total, System,
}
use os_proc_lap02_system_cal.Prelude.{
  ap, All, Bool-cases, inl, inr, sym, ℕ, ◌+◌, ◌-◌, ◌≤◌, ◌<◌, ◌≡◌, ◌≢◌, refl, ◌∙◌, arith, ◌==◌, true,
  false, List, none, length,
}
use os_proc_lap02_system_cal.Layout.{max_op_blocks, log_size}
use os_proc_lap02_system_cal.Log.{
  Log, ended, end_op, leave, last_out, others_left, finish_commit, Leave, End, no_begin,
  log_committing, unmatched, panicked, commit, log_write,
}

pub record Reserved (size : ℕ) (s : System) : Type 0 where
  pub size_eq : s.log.size ≡ size
  pub counted : s.log.outstanding ≡ length s.budgets
  pub room : s.log.n + total s.budgets ≤ log_size
  pub limited : All (λ b. b ≤ max_op_blocks) s.budgets
  pub flagged : s.in_commit ≡ s.log.committing
  pub alone : s.log.committing ≡ true → length s.budgets ≡ 0

Step-Reserved : {size : ℕ} {s t : System} → Step s t → Reserved size s → Reserved size t
Step-Reserved {s = s} (enter {l = l} h) r =
    let (room, same_n, count, same_size, quiet, before) = begin_op_lem s.log l h in
    record {
      size_eq = same_size ∙ r.size_eq;
      counted = omega (arith, count, r.counted);
      room = omega (arith, room, same_n, total-le s.budgets r.limited, r.counted);
      limited = (omega arith, r.limited);
      flagged = r.flagged ∙ before ∙ sym quiet;
      alone = λ e. cc (e, quiet);
    }
Step-Reserved {s = s} (write b {l = l} h sp) r =
    let (room, count, same_size, quiet) = log_write_lem s.log l b h in
    let (tot, len) = Spend-total sp in
    record {
      size_eq = same_size ∙ r.size_eq;
      counted = omega (arith, count, r.counted);
      room = omega (arith, room, r.room);
      limited = Spend-limited sp r.limited;
      flagged = r.flagged ∙ sym quiet;
      alone = λ e. omega (arith, len, r.alone (sym quiet ∙ e));
    }
Step-Reserved {s = s} (leave_others {l = l} h f) r =
    let (same_n, count, same_size, quiet, before) = leave-others_left s.log l h in
    let (tot, len) = Finish-total f in
    record {
      size_eq = same_size ∙ r.size_eq;
      counted = omega (arith, count, r.counted);
      room = omega (arith, same_n, r.room);
      limited = Finish-limited f r.limited;
      flagged = r.flagged ∙ before ∙ sym quiet;
      alone = λ e. cc (e, quiet);
    }
Step-Reserved {s = s} (leave_last {l = l} h f) r =
    let (same_n, one, nobody, same_size, flag) = leave-last_out s.log l h in
    let (tot, len) = Finish-total f in
    record {
      size_eq = same_size ∙ r.size_eq;
      counted = omega (arith, one, nobody, r.counted);
      room = omega (arith, same_n, r.room);
      limited = Finish-limited f r.limited;
      flagged = sym flag;
      alone = λ e. omega (arith, one, r.counted);
    }
Step-Reserved {s = s} (committed running) r =
    let e : s.log.committing ≡ true = sym r.flagged ∙ running in
    let (emptied, count, same_size, quiet) = finish_commit-fields s.log in
    let no_budget = total-le s.budgets r.limited in
    record {
      size_eq = same_size ∙ r.size_eq;
      counted = count ∙ r.counted;
      room = omega (arith, emptied, no_budget, r.alone e);
      limited = r.limited;
      flagged = sym quiet;
      alone = λ z. r.alone e;
    }

Reach-Reserved : {size : ℕ} {s : System} → Reach size s → Reserved size s
Reach-Reserved (idle l sz none_logged none_running quiet) = record {
  size_eq = sz;
  counted = none_running;
  room = omega (arith, none_logged);
  limited = tt;
  flagged = sym quiet;
  alone = λ e. refl;
}
Reach-Reserved (step r st) = Step-Reserved st (Reach-Reserved r)

-- With a log area of at least LOGSIZE + 1 blocks `log_write` never panics: in every state that
-- operations can reach, each writing at most MAXOPBLOCKS times, an operation that has a write left
-- can make it, for any block.
pub log_write-ne-none :
    {size : ℕ} {s : System} {bs : List ℕ}
    → log_size + 1 ≤ size
    → Reach size s
    → Spend s.budgets bs
    → (b : ℕ) → log_write s.log b ≢ none
unfolding log_write
log_write-ne-none {s = s} big r sp b =
    let inv = Reach-Reserved r in
    let (tot, len) = Spend-total sp in
    let some_running : 0 < s.log.outstanding = omega (arith, inv.counted, running sp) in
    ground (arith, inv.size_eq, inv.room)
  where
    running : {bs cs : List ℕ} → Spend bs cs → 0 < length bs
    running here = omega arith
    running (there h) = omega arith

-- What `end_op` makes of what its first part comes to.
end_of : Leave → End
unfolding finish_commit
end_of no_begin = unmatched
end_of log_committing = panicked
end_of (last_out t) = ended (finish_commit t)
end_of (others_left t) = ended t

leave-last :
    (s : Log)
    → (s.outstanding == 0) ≡ false
    → s.committing ≡ false
    → (s.outstanding == 1) ≡ true
    → leave s ≡ last_out (record s { outstanding = 0; committing = true })
unfolding leave
leave-last s a b c = rw (a, b, c) refl

leave-others :
    (s : Log)
    → (s.outstanding == 0) ≡ false
    → s.committing ≡ false
    → (s.outstanding == 1) ≡ false
    → leave s ≡ others_left (record s { outstanding = s.outstanding - 1 })
unfolding leave
leave-others s a b c = rw (a, b, c) refl

-- While a process commits no operation is under way, whatever operations try to begin meanwhile. `end_op`
-- of an operation that is under way does not panic, has a `begin_op` before it, and leaves the counter
-- at the number of operations that are left.
pub end_op-ended :
    {size : ℕ} {s : System} {bs : List ℕ}
    → Reach size s
    → Finish s.budgets bs
    → (s.in_commit ≡ false) × (l : Log) × (end_op s.log ≡ ended l) × (l.outstanding ≡ length bs)
unfolding end_op finish_commit end_of
end_op-ended {s = s} {bs = bs} r f =
    let inv = Reach-Reserved r in
    let (tot, len) = Finish-total f in
    let quiet : s.log.committing ≡ false = elim (Bool-cases s.log.committing) [
      | inl e ↦ absurd (omega (arith, len, inv.alone e))
      | inr e ↦ e
    ] in
    let idle_commit : s.in_commit ≡ false = inv.flagged ∙ quiet in
    let running : (s.log.outstanding == 0) ≡ false = ground (arith, inv.counted) in
    elim (Bool-cases (s.log.outstanding == 1)) [
      | inl one ↦
          let last : Log = record s.log { outstanding = 0; committing = true } in
          let e : s.log.outstanding ≡ 1 = ground arith in
          (
            idle_commit,
            record (commit last) { committing = false },
            ap end_of (leave-last s.log running quiet one),
            (commit-fields last).1 ∙ omega (arith, e, inv.counted),
          )
      | inr more ↦ (
        idle_commit,
        record s.log { outstanding = s.log.outstanding - 1 },
        ap end_of (leave-others s.log running quiet more),
        omega (arith, inv.counted),
      )
    ]
