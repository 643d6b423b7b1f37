-- ===== src/Syscall/Trace.antt =====
-- What the dispatcher of kernel/syscall.c does: unknown numbers, results and traces.
use os_proc_lap02_system_cal.Prelude.{
  lt→ltb, ℕ, zero, suc, ◌-◌, ◌%◌, ◌^◌, ◌≤◌, ◌<◌, ◌≡◌, ◌≢◌, ◌↔◌, ◌⊎◌, inl, inr, refl, sym, ap, ◌∙◌,
  fun_ext, true, false, ◌&&◌, Option, none, some, List, [], ◌∷◌, arith, dec_lt, ltb, ◌==◌,
  if◌then◌else◌, Bool-cases, length, get_elem?, get_or, drop, update, update_self,
}
use os_proc_lap02_system_cal.Prelude.Int.{pos}
use os_proc_lap02_system_cal.Proc.{Proc, Kernel, World, put, tf_a0, tf_a7}
use os_proc_lap02_system_cal.Proc.Sched.{Cpu}
use os_proc_lap02_system_cal.Syscall.{Machine, value, traced, unknown, to_int}
use os_proc_lap02_system_cal.Syscall.Args.{argraw}
use os_proc_lap02_system_cal.Syscall.Calls.{Call, with_kernel, sys_trace}
use os_proc_lap02_system_cal.Syscall.Dispatch.{
  back, syscallnames, store_a0, traces, syscalls, handler, finish, syscall,
}

-- No entry of a list is empty.
abbrev pub Full : {A : Type 0} → List (Option A) → Type 0
Full [] = Unit
Full (x ∷ xs) = (x ≢ none) × Full xs

get_or-Full :
    {A : Type 0}
    → (xs : List (Option A)) → (n : ℕ) → n < length xs
    → Full xs
    → get_or xs n none ≢ none
get_or-Full [] n lt f = absurd (omega arith)
get_or-Full (x ∷ xs) zero lt f = f.0
get_or-Full (x ∷ xs) (suc n) lt f = get_or-Full xs n (omega arith) f.1

some-ne-none : {A : Type 0} → (a : A) → Option.some a ≢ none
some-ne-none a e = ground arith

update_twice :
    {A : Type 0} → (f : ℕ → A) → (i : ℕ) → (a b : A) → update (update f i a) i b ≡ update f i b
update_twice f i a b = fun_ext (λ j. elim (Bool-cases (i == j)) [ inl e ↦ rw e | inr e ↦ rw e ])

module _ (table proc_size : ℕ) (w : World) (trampoline forkret : ℕ) (c : Cpu)
    (file_call : ℕ → Call table proc_size w trampoline forkret c) where
  open w use {Mem}

  syscalls-Full : Full (drop 1 (syscalls table proc_size w trampoline forkret c file_call))
  syscalls-Full = (
    some-ne-none _,
    (
      some-ne-none _,
      (
        some-ne-none _,
        (
          some-ne-none _,
          (
            some-ne-none _,
            (
              some-ne-none _,
              (
                some-ne-none _,
                (
                  some-ne-none _,
                  (
                    some-ne-none _,
                    (
                      some-ne-none _,
                      (
                        some-ne-none _,
                        (
                          some-ne-none _,
                          (
                            some-ne-none _,
                            (
                              some-ne-none _,
                              (
                                some-ne-none _,
                                (
                                  some-ne-none _,
                                  (
                                    some-ne-none _,
                                    (
                                      some-ne-none _,
                                      (
                                        some-ne-none _,
                                        (
                                          some-ne-none _,
                                          (some-ne-none _, (some-ne-none _, (some-ne-none _, tt))),
                                        ),
                                      ),
                                    ),
                                  ),
                                ),
                              ),
                            ),
                          ),
                        ),
                      ),
                    ),
                  ),
                ),
              ),
            ),
          ),
        ),
      ),
    ),
  )

  in_range :
      (n : ℕ)
      → n < 23
      → (if ltb 0 (suc n) && ltb (suc n) 24
          then get_or (syscalls table proc_size w trampoline forkret c file_call) (suc n) none
          else none)
        ≡ get_or (syscalls table proc_size w trampoline forkret c file_call) (suc n) none
  in_range n lt = rw (lt→ltb 0 (suc n) (omega arith), lt→ltb (suc n) 24 (omega arith))

  handler-in :
      (n : ℕ)
      → n < 23
      → handler table proc_size w trampoline forkret c file_call (pos (suc n)) ≢ none
  unfolding handler
  handler-in n lt e =
      get_or-Full (drop 1 (syscalls table proc_size w trampoline forkret c file_call)) n lt
        syscalls-Full (sym (in_range n lt) ∙ e)

  handler-out :
      (v : ℕ)
      → (v ≡ 0) ⊎ (24 ≤ v)
      → handler table proc_size w trampoline forkret c file_call (to_int v) ≡ none
  unfolding handler
  handler-out v h = ground arith

  -- Where the number in a7, as 32 bits, is 0 or at least 24, negative numbers included, the
  -- dispatcher prints the process and the number, makes the call return -1, and changes nothing
  -- else.
  pub syscall-unknown :
      (me : ℕ)
      → (s : Machine Mem)
      → let num = (s.kernel.procs me).regs tf_a7 % 2 ^ 32 in
        (num ≡ 0) ⊎ (24 ≤ num)
        → syscall table proc_size w trampoline forkret c file_call me s
          ≡ some (
              back (record {
                kernel = put s.kernel me (store_a0 (2 ^ 64 - 1) (s.kernel.procs me));
                ticks = s.ticks;
                console =
                    unknown (s.kernel.procs me).pid (s.kernel.procs me).name (to_int num)
                    ∷ s.console;
              }))
  unfolding syscall
  syscall-unknown me s h = rw (handler-out ((s.kernel.procs me).regs tf_a7 % 2 ^ 32) h, syscall)

  small : (n : ℕ) → n < 23 → to_int (suc n) ≡ pos (suc n)
  small n lt = ground arith

  missing :
      (v : ℕ)
      → handler table proc_size w trampoline forkret c file_call (to_int v) ≡ none
      → (v ≡ 0) ⊎ (24 ≤ v)
  missing zero e = inl refl
  missing (suc n) e = elim (dec_lt n 23) [
    | yes lt ↦ absurd (
        handler-in n lt
          (sym (ap (handler table proc_size w trampoline forkret c file_call) (small n lt)) ∙ e))
    | no ge ↦ inr (omega arith)
  ]

  -- The numbers of 32 bits without a handler are 0 and those from 24 on, negative numbers
  -- included; every number from 1 to 23 has one.
  pub handler-some :
      (v : ℕ)
      → (handler table proc_size w trampoline forkret c file_call (to_int v) ≡ none)
        ↔ ((v ≡ 0) ⊎ (24 ≤ v))
  handler-some v = (missing v, handler-out v)

  -- Where the call that the number selects returns a value, the dispatcher stores it in the
  -- caller's a0 and changes no other state that the call left, and prints one line with the pid,
  -- the call's name and the value if the mask that the call left has the call's bit, and nothing
  -- otherwise.
  pub syscall-value :
      (me : ℕ)
      → (s t : Machine Mem) → (call : Call table proc_size w trampoline forkret c) → (r : ℕ)
      → let num = (s.kernel.procs me).regs tf_a7 % 2 ^ 32 in
        handler table proc_size w trampoline forkret c file_call (to_int num) ≡ some call
        → call me s ≡ some (value r t)
        → (u : Machine Mem) × (syscall table proc_size w trampoline forkret c file_call me s
            ≡ some (back u))
          × (u.kernel ≡ put t.kernel me (store_a0 r (t.kernel.procs me)))
          × (u.ticks ≡ t.ticks)
          × (traces (t.kernel.procs me).trace_mask num ≡ true
              → u.console
                ≡ traced (t.kernel.procs me).pid (get_elem? syscallnames num) r ∷ t.console)
          × (traces (t.kernel.procs me).trace_mask num ≡ false → u.console ≡ t.console)
  unfolding syscall finish
  syscall-value me s t call r found ran =
      elim (Bool-cases
        (traces (t.kernel.procs me).trace_mask ((s.kernel.procs me).regs tf_a7 % 2 ^ 32))) [
          | inl e ↦ (_, rw (found, ran, e, syscall), refl, refl, λ _. refl, λ z. ground arith)
          | inr e ↦ (_, rw (found, ran, e, syscall), refl, refl, λ z. ground arith, λ _. refl)
        ]

  trace-put :
      (me : ℕ)
      → (k : Kernel Mem) → (p : Proc)
      → put (put k me p) me (store_a0 0 ((put k me p).procs me)) ≡ put k me (store_a0 0 p)
  trace-put me k p =
      rw (update_self k.procs me p)
        (ap (λ f. record k { procs = f }) (update_twice k.procs me p (store_a0 0 p)))

  -- The call number 22 stores its 32-bit argument as the caller's mask and returns 0, changing
  -- nothing else, and prints a line for itself exactly if the new mask has bit 22.
  pub trace_self :
      (me : ℕ)
      → (s : Machine Mem)
      → let p = s.kernel.procs me in
        let mask = p.regs tf_a0 % 2 ^ 32 in
        p.regs tf_a7 % 2 ^ 32 ≡ 22
        → (u : Machine Mem) × (syscall table proc_size w trampoline forkret c file_call me s
            ≡ some (back u))
          × (u.kernel ≡ put s.kernel me (store_a0 0 (record p { trace_mask = mask })))
          × (traces mask 22 ≡ true → u.console ≡ traced p.pid (some "trace") 0 ∷ s.console)
          × (traces mask 22 ≡ false → u.console ≡ s.console)
  unfolding handler sys_trace argraw
  trace_self me s num =
      let p = s.kernel.procs me in
      let q : Proc = record p { trace_mask = p.regs tf_a0 % 2 ^ 32 } in
      let h =
        syscall-value me s
          (with_kernel table proc_size w trampoline forkret c s (put s.kernel me q))
          (sys_trace table proc_size w trampoline forkret c) 0 (rw num) refl in
      let own : update s.kernel.procs me q me ≡ q = update_self s.kernel.procs me q in
      (
        h.0,
        h.1,
        h.2 ∙ trace-put me s.kernel q,
        λ z. h.4 (rw (own, num) z) ∙ rw (own, num),
        λ z. h.5 (rw (own, num) z),
      )
