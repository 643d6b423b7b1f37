-- ===== src/Syscall.antt =====
-- kernel/syscall.c and kernel/sysproc.c: the arguments of system calls, the calls that concern
-- processes, and the dispatcher with its trace. The calls of kernel/sysfile.c are a parameter.
pub mod Args
pub mod Calls
pub mod Dispatch
mod Trace
mod Numbered
mod Guard
mod Sleeping
mod Examples
use mathlib.Core.Path.{subst}
use os_proc_lap02_system_cal.Prelude.{
  ℕ, zero, suc, ◌+◌, ◌-◌, ◌*◌, ◌/◌, ◌%◌, ◌^◌, ◌≤◌, ◌<◌, ◌≡◌, ◌≢◌, ◌↔◌, ◌⊎◌, inl, inr, refl, sym, ap,
  ◌∙◌, fun_ext, Bool, true, false, not, ◌&&◌, ◌||◌, Option, none, some, List, [], ◌∷◌, ◌++◌, map,
  append-nil, append_assoc, arith, dec_lt, ℕ_discrete, ltb, leb, ◌==◌, if◌then◌else◌, Bool-cases,
  Option-cases, length, get_elem?, set, get_or, take, drop, replicate, length-append, length-set,
  get_elem?-set_self, get_elem?-set_ne, update, update_self, update_ne, Ensures, Ensures-bind,
  Ensures-map, Ensures-some, ◌>>=◌, >>=-eq-some, All, In, NotIn, Distinct, All-map, All-append,
}
use Prim.Native.String.{String}
use os_proc_lap02_system_cal.Prelude.Int.{ℤ, pos, negsuc}
use os_proc_lap02_system_cal.Proc.{Kernel, Proc}

-- What `syscall` prints: a traced call, or an unknown one.
pub data Line : Type 0 where
  traced : (pid : ℕ) → (name : Option String) → (value : ℕ) → Line
  unknown : (pid : ℕ) → (name : List ℕ) → (num : ℤ) → Line

-- The kernel, the tick counter of trap.c, and what has been printed, the latest line last.
pub record Machine (M : Type 0) : Type 0 where
  pub kernel : Kernel M
  pub ticks : ℕ
  pub console : List Line

-- How a call ends: it returns a value, sleeps, or its process is gone.
pub data Reply (M : Type 0) : Type 0 where
  value : ℕ → Machine M → Reply M
  waiting : Machine M → Reply M
  gone : Machine M → Reply M

-- An `int` from its pattern of 32 bits, and the 64 bits of an `int` that is returned.
abbrev pub to_int : ℕ → ℤ
to_int w = if ltb w (2 ^ 31) then pos w else negsuc (2 ^ 32 - w - 1)

abbrev pub to_uint64 : ℤ → ℕ
to_uint64 (pos n) = n
to_uint64 (negsuc n) = 2 ^ 64 - 1 - n
