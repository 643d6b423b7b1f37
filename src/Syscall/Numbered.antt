-- ===== src/Syscall/Numbered.antt =====
-- kernel/syscall.h and kernel/syscall.c: what each numbered call makes `syscall` do.
use os_proc_lap02_system_cal.Syscall.Calls.{
  sys_sysinfo, sys_trace, sys_uptime, sys_sleep, sys_sbrk, sys_getpid, sys_kill, sys_wait, sys_exit,
  sys_fork, Call,
}
use os_proc_lap02_system_cal.Proc.Sched.{Cpu}
use os_proc_lap02_system_cal.Syscall.Dispatch.{
  back, away, syscallnames, finish, syscall, handler, store_a0, traces,
}
use os_proc_lap02_system_cal.Proc.{tf_a0, Proc, put, World, Kernel}
use Prim.Native.String.{String}
use native.Mathlib.Nat.{mul-add-div, div-eq_of_lt, one-le-pow}
use os_proc_lap02_system_cal.Syscall.{Machine, value, waiting, gone, traced, to_int}
use os_proc_lap02_system_cal.Prelude.{
  ℕ, ◌+◌, ◌*◌, ◌/◌, ◌%◌, ◌^◌, ◌<◌, ◌≡◌, ◌≢◌, inl, inr, refl, sym, ap, ◌∙◌, Bool, true, false, none,
  some, ◌∷◌, arith, Bool-cases, get_elem?, update_self, update_ne, ◌>>=◌,
}

-- The caller's entry after `syscall` against the one that the call left: the result is in the register
-- at offset 112 of the trap frame, which `struct trapframe` names a0, every other register and field is
-- the same, and so is the rest of the kernel.
pub record Stored {M : Type 0} (me r : ℕ) (k l : Kernel M) : Type 0 where
  pub result : (l.procs me).regs 112 ≡ r
  pub registers : (o : ℕ) → o ≢ 112 → (l.procs me).regs o ≡ (k.procs me).regs o
  pub fields : record (l.procs me) { regs = (k.procs me).regs } ≡ k.procs me
  pub others : (j : ℕ) → j ≢ me → l.procs j ≡ k.procs j
  pub rest : record l { procs = k.procs } ≡ k

store-Stored :
    {M : Type 0} (me r : ℕ) (k : Kernel M) → Stored me r k (put k me (store_a0 r (k.procs me)))
store-Stored me r k =
    let own = update_self k.procs me (store_a0 r (k.procs me)) in
    record {
      result = ap (λ (p : Proc). p.regs 112) own ∙ update_self (k.procs me).regs tf_a0 r;
      registers = λ o ne.
          ap (λ (p : Proc). p.regs o) own ∙ update_ne (k.procs me).regs tf_a0 o r (λ e. ne (sym e));
      fields = ap (λ (p : Proc). record p { regs = (k.procs me).regs }) own;
      others = λ j ne. update_ne k.procs me j (store_a0 r (k.procs me)) (λ e. ne (sym e));
      rest = refl;
    }

-- Bit `num` of `mask` is 1, or 0: above it stands `h`, and below it `l`.
abbrev pub BitOn : ℕ → ℕ → Type 0
BitOn mask num = (h : ℕ) × (l : ℕ) × (l < 2 ^ num) × (mask ≡ 2 ^ num * (2 * h + 1) + l)

abbrev pub BitOff : ℕ → ℕ → Type 0
BitOff mask num = (h : ℕ) × (l : ℕ) × (l < 2 ^ num) × (mask ≡ 2 ^ num * (2 * h) + l)

above : (num x l : ℕ) → l < 2 ^ num → (2 ^ num * x + l) / 2 ^ num ≡ x
above num x l lt = mul-add-div (one-le-pow num 2 (omega arith)) x l ∙ omega (arith, div-eq_of_lt lt)

traces-on : (mask num : ℕ) → BitOn mask num → traces mask num ≡ true
traces-on mask num (h, l, lt, e) =
    let q : mask / 2 ^ num ≡ 2 * h + 1 = ap (λ m. m / 2 ^ num) e ∙ above num (2 * h + 1) l lt in
    rw q (ground arith)

traces-off : (mask num : ℕ) → BitOff mask num → traces mask num ≡ false
traces-off mask num (h, l, lt, e) =
    let q : mask / 2 ^ num ≡ 2 * h = ap (λ m. m / 2 ^ num) e ∙ above num (2 * h) l lt in
    rw q (ground arith)

module _ (table proc_size : ℕ) (w : World) (trampoline forkret : ℕ) (c : Cpu)
    (file_call : ℕ → Call table proc_size w trampoline forkret c) where
  open w use {Mem}

  -- The numbers of kernel/syscall.h, each with the name and the handler of its macro.
  pub data Numbered : ℕ → String → Call table proc_size w trampoline forkret c → Type 0 where
    num_fork : Numbered 1 "fork" (sys_fork table proc_size w trampoline forkret c)
    num_exit : Numbered 2 "exit" (sys_exit table proc_size w trampoline forkret c)
    num_wait : Numbered 3 "wait" (sys_wait table proc_size w trampoline forkret c)
    num_pipe : Numbered 4 "pipe" (file_call 4)
    num_read : Numbered 5 "read" (file_call 5)
    num_kill : Numbered 6 "kill" (sys_kill table proc_size w trampoline forkret c)
    num_exec : Numbered 7 "exec" (file_call 7)
    num_fstat : Numbered 8 "fstat" (file_call 8)
    num_chdir : Numbered 9 "chdir" (file_call 9)
    num_dup : Numbered 10 "dup" (file_call 10)
    num_getpid : Numbered 11 "getpid" (sys_getpid table proc_size w trampoline forkret c)
    num_sbrk : Numbered 12 "sbrk" (sys_sbrk table proc_size w trampoline forkret c)
    num_sleep : Numbered 13 "sleep" (sys_sleep table proc_size w trampoline forkret c)
    num_uptime : Numbered 14 "uptime" (sys_uptime table proc_size w trampoline forkret c)
    num_open : Numbered 15 "open" (file_call 15)
    num_write : Numbered 16 "write" (file_call 16)
    num_mknod : Numbered 17 "mknod" (file_call 17)
    num_unlink : Numbered 18 "unlink" (file_call 18)
    num_link : Numbered 19 "link" (file_call 19)
    num_mkdir : Numbered 20 "mkdir" (file_call 20)
    num_close : Numbered 21 "close" (file_call 21)
    num_trace : Numbered 22 "trace" (sys_trace table proc_size w trampoline forkret c)
    num_sysinfo : Numbered 23 "sysinfo" (sys_sysinfo table proc_size w trampoline forkret c)

  Numbered-found :
      (num : ℕ)
      → (name : String) → (call : Call table proc_size w trampoline forkret c)
      → Numbered num name call
      → (handler table proc_size w trampoline forkret c file_call (to_int num) ≡ some call)
        × (get_elem? syscallnames num ≡ some name)
  unfolding handler
  Numbered-found _ _ _ num_fork = (refl, refl)
  Numbered-found _ _ _ num_exit = (refl, refl)
  Numbered-found _ _ _ num_wait = (refl, refl)
  Numbered-found _ _ _ num_pipe = (refl, refl)
  Numbered-found _ _ _ num_read = (refl, refl)
  Numbered-found _ _ _ num_kill = (refl, refl)
  Numbered-found _ _ _ num_exec = (refl, refl)
  Numbered-found _ _ _ num_fstat = (refl, refl)
  Numbered-found _ _ _ num_chdir = (refl, refl)
  Numbered-found _ _ _ num_dup = (refl, refl)
  Numbered-found _ _ _ num_getpid = (refl, refl)
  Numbered-found _ _ _ num_sbrk = (refl, refl)
  Numbered-found _ _ _ num_sleep = (refl, refl)
  Numbered-found _ _ _ num_uptime = (refl, refl)
  Numbered-found _ _ _ num_open = (refl, refl)
  Numbered-found _ _ _ num_write = (refl, refl)
  Numbered-found _ _ _ num_mknod = (refl, refl)
  Numbered-found _ _ _ num_unlink = (refl, refl)
  Numbered-found _ _ _ num_link = (refl, refl)
  Numbered-found _ _ _ num_mkdir = (refl, refl)
  Numbered-found _ _ _ num_close = (refl, refl)
  Numbered-found _ _ _ num_trace = (refl, refl)
  Numbered-found _ _ _ num_sysinfo = (refl, refl)

  run-syscall :
      (me num : ℕ)
      → (s : Machine Mem) → (call : Call table proc_size w trampoline forkret c)
      → handler table proc_size w trampoline forkret c file_call (to_int num) ≡ some call
      → (s.kernel.procs me).regs 168 % 2 ^ 32 ≡ num
      → syscall table proc_size w trampoline forkret c file_call me s ≡ (
          call me s >>= λ r.
          some (finish table proc_size w trampoline forkret c file_call me num r))
  unfolding syscall
  run-syscall me num s call found a7 =
      rw (a7, found, syscall)
        (ap
          (λ n. call me s >>= λ r.
            some (finish table proc_size w trampoline forkret c file_call me n r))
          a7)

  -- The process has in a7, at offset 168 of its trap frame, the number that kernel/syscall.h gives the
  -- call. Where the handler of that call panics, so does `syscall`; where it sleeps or does not come
  -- back, the process leaves the processor in the state that the handler left; where it returns a
  -- value, that value is stored in a0 and nothing else of the kernel is changed, and one line with the
  -- pid, the name of the call and the value is printed if the bit of the number in the caller's mask,
  -- as the handler left it, is 1, and none if it is 0.
  pub syscall_lem :
      (me num : ℕ)
      → (name : String) → (call : Call table proc_size w trampoline forkret c) → (s : Machine Mem)
      → Numbered num name call
      → (s.kernel.procs me).regs 168 % 2 ^ 32 ≡ num
      → (call me s ≡ none → syscall table proc_size w trampoline forkret c file_call me s ≡ none)
        × ((t : Machine Mem)
            → call me s ≡ some (waiting t)
            → syscall table proc_size w trampoline forkret c file_call me s ≡ some (away t))
        × ((t : Machine Mem)
            → call me s ≡ some (gone t)
            → syscall table proc_size w trampoline forkret c file_call me s ≡ some (away t))
        × ((r : ℕ)
            → (t : Machine Mem) → call me s ≡ some (value r t)
            → (u : Machine Mem) × (syscall table proc_size w trampoline forkret c file_call me s
                ≡ some (back u))
              × Stored me r t.kernel u.kernel
              × (u.ticks ≡ t.ticks)
              × (BitOn (t.kernel.procs me).trace_mask num
                  → u.console ≡ traced (t.kernel.procs me).pid (some name) r ∷ t.console)
              × (BitOff (t.kernel.procs me).trace_mask num → u.console ≡ t.console))
  unfolding finish
  syscall_lem me num name call s n a7 =
      let (found, named) = Numbered-found num name call n in
      let run = run-syscall me num s call found a7 in
      (
        (λ ran. run ∙ rw ran refl),
        (λ t ran. run ∙ rw ran refl),
        (λ t ran. run ∙ rw ran refl),
        λ r t ran. elim (Bool-cases (traces (t.kernel.procs me).trace_mask num)) [
          | inl e ↦ (
            _,
            run ∙ rw (ran, e) refl,
            store-Stored me r t.kernel,
            refl,
            (λ b. ap (λ o. traced (t.kernel.procs me).pid o r ∷ t.console) named),
            λ b. absurd (on-off e (traces-off (t.kernel.procs me).trace_mask num b)),
          )
          | inr e ↦ (
            _,
            run ∙ rw (ran, e) refl,
            store-Stored me r t.kernel,
            refl,
            (λ b. absurd (on-off (traces-on (t.kernel.procs me).trace_mask num b) e)),
            λ b. refl,
          )
        ],
      )
    where
      on-off : {b : Bool} → b ≡ true → b ≡ false → ⊥
      on-off x y = cc (x, y)
