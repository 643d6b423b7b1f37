-- ===== src/Locks.antt =====
-- kernel/spinlock.c and kernel/sleeplock.c. A spin lock is used by several processors, whose steps
-- interleave: each atomic access of `acquire` and `release` to the lock is a step of its own.
mod Nesting
mod Invariant
mod Exclusion
mod Progress
mod Examples
use mathlib.Core.Path.{subst}
use os_proc_lap02_system_cal.Prelude.{
  ℕ, zero, suc, ◌+◌, ◌-◌, ◌*◌, ◌/◌, ◌%◌, ◌^◌, ◌≤◌, ◌<◌, ◌≡◌, ◌≢◌, ◌↔◌, ◌⊎◌, inl, inr, refl, sym, ap,
  ◌∙◌, fun_ext, Bool, true, false, not, ◌&&◌, ◌||◌, Option, none, some, List, [], ◌∷◌, ◌++◌, map,
  append-nil, append_assoc, arith, dec_lt, ℕ_discrete, ltb, leb, ◌==◌, if◌then◌else◌, Bool-cases,
  Option-cases, length, get_elem?, set, get_or, take, drop, replicate, length-append, length-set,
  get_elem?-set_self, get_elem?-set_ne, update, update_self, update_ne, Ensures, Ensures-bind,
  Ensures-map, Ensures-some, ◌>>=◌, >>=-eq-some, All, In, NotIn, Distinct, All-map, All-append,
}
use os_proc_lap02_system_cal.Proc.{Kernel, Proc}
use os_proc_lap02_system_cal.Proc.Sched.{wakeup}

-- The fields of `struct cpu` that push_off and pop_off use, and whether interrupts are enabled.
pub record Core : Type 0 where
  pub noff : ℕ
  pub intena : Bool
  pub intr : Bool

unfoldable pub push_off : Core → Core
push_off c = record c {
  intr = false;
  intena = if c.noff == 0 then c.intr else c.intena;
  noff = c.noff + 1;
}

-- `none` is a panic.
unfoldable pub pop_off : Core → Option Core
pop_off c =
    if c.intr
    then none
    else if ltb c.noff 1
    then none
    else some (record c { noff = c.noff - 1; intr = c.noff - 1 == 0 && c.intena })

-- `struct spinlock` without its name; `cpu` is the number of a processor.
pub record Spinlock : Type 0 where
  pub locked : Bool
  pub cpu : Option ℕ

abbrev pub is_cpu : Option ℕ → ℕ → Bool
is_cpu none c = false
is_cpu (some d) c = d == c

unfoldable pub holding : ℕ → Spinlock → Bool
holding c lk = lk.locked && is_cpu lk.cpu c

abbrev pub initlock : Spinlock
initlock = record { locked = false; cpu = none }

-- How far a processor is: before acquire, at its loop, before the store to `lk->cpu`, between acquire
-- and release, before the store that unlocks, and before pop_off.
pub data Place : Type 0 where
  outside spinning taken inside clearing popping : Place

pub record Machine : Type 0 where
  pub lock : Spinlock
  pub place : ℕ → Place
  pub cores : ℕ → Core

abbrev pub go : ℕ → Place → Machine → Machine
go c p s = record s { place = update s.place c p }

-- `acquire` up to its loop.
unfoldable pub acquire_start : ℕ → Machine → Option Machine
acquire_start c s =
    if holding c s.lock
    then none
    else some (go c spinning (record s { cores = update s.cores c (push_off (s.cores c)) }))

-- One test-and-set of the loop.
unfoldable pub test_and_set : ℕ → Machine → Machine
test_and_set c s =
    if s.lock.locked then s else go c taken (record s { lock = record s.lock { locked = true } })

unfoldable pub acquire_end : ℕ → Machine → Machine
acquire_end c s = go c inside (record s { lock = record s.lock { cpu = some c } })

unfoldable pub release_start : ℕ → Machine → Option Machine
release_start c s =
    if holding c s.lock
    then some (go c clearing (record s { lock = record s.lock { cpu = none } }))
    else none

unfoldable pub unlock : ℕ → Machine → Machine
unlock c s = go c popping (record s { lock = record s.lock { locked = false } })

unfoldable pub release_end : ℕ → Machine → Option Machine
release_end c s =
    pop_off (s.cores c) >>= λ x. some (go c outside (record s { cores = update s.cores c x }))

-- The next step of processor `c`.
unfoldable pub step : ℕ → Machine → Option Machine
step c s = elim (s.place c) [
  | outside ↦ acquire_start c s
  | spinning ↦ some (test_and_set c s)
  | taken ↦ some (acquire_end c s)
  | inside ↦ release_start c s
  | clearing ↦ some (unlock c s)
  | popping ↦ release_end c s
]

-- `struct sleeplock`, whose spin lock makes each call a step.
pub record Sleeplock : Type 0 where
  pub held : Bool
  pub pid : ℕ

abbrev pub initsleeplock : Sleeplock
initsleeplock = record { held = false; pid = 0 }

-- `none` is to sleep on the lock; woken, the caller tests again.
unfoldable pub acquiresleep : ℕ → Sleeplock → Option Sleeplock
acquiresleep pid lk = if lk.held then none else some (record { held = true; pid = pid })

-- `chan` is the address of the lock.
unfoldable pub releasesleep : {M : Type 0} → ℕ → ℕ → Sleeplock → Kernel M → Sleeplock × Kernel M
releasesleep me chan lk k = (record { held = false; pid = 0 }, wakeup (some me) chan k)

unfoldable pub holdingsleep : ℕ → Sleeplock → Bool
holdingsleep pid lk = lk.held && lk.pid == pid
