-- ===== src/Proc.antt =====
-- kernel/proc.h and kernel/proc.c: the process table. What proc.c calls in other files is the
-- interface `World`; a pointer to a `struct proc` is its index in the table, and a null pointer is
-- `none` or 0. Each function holds the locks that its accesses need (p->lock, wait_lock, pid_lock),
-- so what runs between two waits is one step.
pub mod Memory
pub mod Sched
pub mod Life
pub mod Wait
pub mod Load
mod Wakeup
mod Slots
mod Forking
mod Exiting
mod Orphans
mod KillZero
mod Average
pub mod Toy
mod Examples
use mathlib.Core.Path.{subst}
use os_proc_lap02_system_cal.Prelude.{
  ℕ, zero, suc, ◌+◌, ◌-◌, ◌*◌, ◌/◌, ◌%◌, ◌^◌, ◌≤◌, ◌<◌, ◌≡◌, ◌≢◌, ◌↔◌, ◌⊎◌, inl, inr, refl, sym, ap,
  ◌∙◌, fun_ext, Bool, true, false, not, ◌&&◌, ◌||◌, Option, none, some, List, [], ◌∷◌, ◌++◌, map,
  append-nil, append_assoc, arith, dec_lt, ℕ_discrete, ltb, leb, ◌==◌, if◌then◌else◌, Bool-cases,
  Option-cases, length, get_elem?, set, get_or, take, drop, replicate, length-append, length-set,
  get_elem?-set_self, get_elem?-set_ne, update, ◌>>=◌, >>=-eq-some, All, In, NotIn, Distinct,
  All-map, All-append,
}
use os_proc_lap02_system_cal.Layout.{n_ofile, n_proc}

-- `enum procstate`
pub data State : Type 0 where
  unused used sleeping runnable running zombie : State

abbrev pub is_unused : State → Bool
is_unused State.unused = true
is_unused _ = false

abbrev pub is_sleeping : State → Bool
is_sleeping State.sleeping = true
is_sleeping _ = false

abbrev pub is_runnable : State → Bool
is_runnable State.runnable = true
is_runnable _ = false

abbrev pub is_running : State → Bool
is_running State.running = true
is_running _ = false

abbrev pub is_zombie : State → Bool
is_zombie State.zombie = true
is_zombie _ = false

-- `struct proc`. `regs` is the trapframe page that `trapframe` points to: the word at each offset.
pub record Proc : Type 0 where
  pub state : State
  pub chan : ℕ
  pub killed : Bool
  pub xstate : ℕ
  pub pid : ℕ
  pub parent : Option ℕ
  pub kstack : ℕ
  pub sz : ℕ
  pub pagetable : ℕ
  pub trapframe : ℕ
  pub regs : ℕ → ℕ
  pub ra : ℕ
  pub sp : ℕ
  pub ofile : ℕ → ℕ
  pub cwd : ℕ
  pub name : List ℕ
  pub trace_mask : ℕ

-- Offsets in `struct trapframe`.
abbrev pub tf_epc : ℕ
tf_epc = 24

abbrev pub tf_sp : ℕ
tf_sp = 48

abbrev pub tf_a0 : ℕ
tf_a0 = 112

abbrev pub tf_a7 : ℕ
tf_a7 = 168

-- `p->parent == q`
abbrev pub is_parent : Option ℕ → ℕ → Bool
is_parent none q = false
is_parent (some p) q = p == q

-- What proc.c calls in vm.c, kalloc.c, file.c, fs.c and log.c, over the state of those files.
-- `none` is a panic; a Boolean result is whether the call returned 0, and the inner option of `copyin`
-- and `copyinstr` whether they could copy the bytes that it holds.
pub record World : Type 1 where
  pub Mem : Type 0
  pub kalloc : Mem → ℕ × Mem
  pub kfree : ℕ → Mem → Option Mem
  pub uvmcreate : Mem → ℕ × Mem
  pub mappages : ℕ → ℕ → ℕ → ℕ → ℕ → Mem → Option (Bool × Mem)
  pub uvmunmap : ℕ → ℕ → ℕ → Bool → Mem → Option Mem
  pub uvmfree : ℕ → ℕ → Mem → Option Mem
  pub uvmfirst : ℕ → List ℕ → Mem → Option Mem
  pub uvmcopy : ℕ → ℕ → ℕ → Mem → Option (Bool × Mem)
  pub uvmalloc : ℕ → ℕ → ℕ → ℕ → Mem → Option (ℕ × Mem)
  pub uvmdealloc : ℕ → ℕ → ℕ → Mem → Option (ℕ × Mem)
  pub copyout : ℕ → ℕ → List ℕ → Mem → Option (Bool × Mem)
  pub copyin : ℕ → ℕ → ℕ → Mem → Option (Option (List ℕ))
  pub copyinstr : ℕ → ℕ → ℕ → Mem → Option (Option (List ℕ))
  pub nfree : Mem → ℕ
  pub filedup : ℕ → Mem → Option Mem
  pub fileclose : ℕ → Mem → Option Mem
  pub idup : ℕ → Mem → Option Mem
  pub iput : ℕ → Mem → Option Mem
  pub begin_op : Mem → Option Mem
  pub end_op : Mem → Option Mem
  pub namei : List ℕ → Mem → Option (ℕ × Mem)

-- The variables of proc.c, and the state of the files that it calls.
pub record Kernel (M : Type 0) : Type 0 where
  pub procs : ℕ → Proc
  pub nextpid : ℕ
  pub initproc : Option ℕ
  pub runnable_procs : ℕ
  pub loadavg : ℕ
  pub mem : M

-- A store to `proc[i]`.
abbrev pub put : {M : Type 0} → Kernel M → ℕ → Proc → Kernel M
put k i p = record k { procs = update k.procs i p }
