-- ===== src/Pipe/Reading.antt =====
-- What piperead of kernel/pipe.c does to the queue of bytes.
use mathlib.Core.Path.{subst}
use mathlib.Core.Option.{some-injective}
use os_proc_lap02_system_cal.Prelude.{
  ℕ, zero, suc, ◌+◌, ◌%◌, ◌^◌, ◌≤◌, ◌≡◌, ◌⊎◌, inl, inr, refl, sym, ap, ◌∙◌, true, false, ◌&&◌, some,
  List, [], ◌∷◌, ◌++◌, arith, if◌then◌else◌, Bool-cases, Option-cases, length, Ensures, Ensures-map,
  Ensures-some,
}
use os_proc_lap02_system_cal.Prelude.Int.{pos, negsuc}
use os_proc_lap02_system_cal.Proc.{Kernel, World}
use os_proc_lap02_system_cal.Proc.Sched.{wakeup, killed}
use os_proc_lap02_system_cal.Pipe.{
  Pipe, Progress, returned, blocked, next_byte, is_empty, read_end, read_from, piperead,
}
use os_proc_lap02_system_cal.Pipe.Queue.{slots, count, contents, IsPipe, next_byte-contents}

module _ (w : World) (nread_chan nwrite_chan me : ℕ) where
  open w use {Mem, copyin, copyout, kfree}

  empty-count : (pi : Pipe) → IsPipe pi → is_empty pi ≡ true → count pi ≡ 0
  empty-count pi v e =
      let z : pi.nread ≡ pi.nwrite = ground arith in
      let a = v.nread_small in let b = v.nwrite_small in omega arith

  -- The bytes that `copyout` stores one by one from `addr + i` on, and the memory after that.
  abbrev pub Stored : ℕ → ℕ → ℕ → List ℕ → Mem → Mem → Type 0
  Stored pt addr i [] m m1 = m ≡ m1
  Stored pt addr i (b ∷ bs) m m1 =
      (m2 : Mem) × (copyout pt ((addr + i) % 2 ^ 64) (b ∷ []) m ≡ some (true, m2))
      × Stored pt addr (i + 1) bs m2 m1

  -- How a read ends that has `r` bytes left to read from byte `i` on: `bs` is what it delivers.
  -- After these the pipe is empty, or all were read, or a last byte was taken from the
  -- pipe and could not be stored.
  abbrev pub Took : ℕ → ℕ → ℕ → ℕ → Pipe → Mem → Progress Mem → Type 0
  Took pt i r addr pi m (blocked j qi l) = ⊥
  Took pt i r addr pi m (returned n qi l) =
      (bs lost : List ℕ) × (m1 : Mem) × Stored pt addr i bs m m1
      × IsPipe qi
      × (contents pi ≡ bs ++ (lost ++ contents qi))
      × (n ≡ pos (i + length bs))
      × (length bs ≤ r)
      × (((lost ≡ []) × (l.mem ≡ m1) × ((length bs ≡ r) ⊎ (contents qi ≡ [])))
          ⊎ ((b : ℕ) × (lost ≡ b ∷ [])
              × (copyout pt ((addr + (i + length bs)) % 2 ^ 64) (b ∷ []) m1 ≡ some (false, l.mem))))

  Took-suc :
      (pt i r addr : ℕ)
      → (pi : Pipe) → (m m2 : Mem) → (p : Progress Mem)
      → copyout pt ((addr + i) % 2 ^ 64) ((next_byte pi).0 ∷ []) m ≡ some (true, m2)
      → contents pi ≡ (next_byte pi).0 ∷ contents (next_byte pi).1
      → Took pt (i + 1) r addr (next_byte pi).1 m2 p
      → Took pt i (suc r) addr pi m p
  Took-suc pt i r addr pi m m2 (returned n qi l) e q (bs, lost, m1, st, v, same, z, le, end) = (
    (next_byte pi).0 ∷ bs,
    lost,
    m1,
    (m2, e, st),
    v,
    q ∙ ap (λ xs. (next_byte pi).0 ∷ xs) same,
    z ∙ ap pos (omega arith),
    omega arith,
    elim end [
      | inl (none_lost, mem, inl all) ↦ inl (none_lost, mem, inl (ap suc all))
      | inl (none_lost, mem, inr drained) ↦ inl (none_lost, mem, inr drained)
      | inr (b, one_lost, failed) ↦ inr (
        b,
        one_lost,
        subst (λ j. copyout pt ((addr + j) % 2 ^ 64) (b ∷ []) m1 ≡ some (false, l.mem))
            (omega arith) failed,
      )
    ],
  )
  Took-suc pt i r addr pi m m2 (blocked j qi l) e q h = absurd h

  read_end-Took :
      (pt i r addr : ℕ)
      → (pi : Pipe) → (k : Kernel Mem) → IsPipe pi
      → (0 ≡ r) ⊎ (contents pi ≡ [])
      → Took pt i r addr pi k.mem (read_end w nread_chan nwrite_chan me i pi k)
  unfolding read_end wakeup
  read_end-Took pt i r addr pi k v done =
      ([], [], k.mem, refl, v, refl, ap pos (omega arith), omega arith, inl (refl, refl, done))

  lost-Took :
      (pt i r addr : ℕ)
      → (pi : Pipe) → (k : Kernel Mem) → (m : Mem) → IsPipe pi
      → is_empty pi ≡ false
      → copyout pt ((addr + i) % 2 ^ 64) ((next_byte pi).0 ∷ []) k.mem ≡ some (false, m)
      → Took pt i r addr pi k.mem
          (read_end w nread_chan nwrite_chan me i (next_byte pi).1 (record k { mem = m }))
  unfolding read_end wakeup
  lost-Took pt i r addr pi k m v full failed =
      let q = next_byte-contents pi v full in
      (
        [],
        (next_byte pi).0 ∷ [],
        k.mem,
        refl,
        q.0,
        q.1,
        ap pos (omega arith),
        omega arith,
        inr (
          (next_byte pi).0,
          refl,
          subst
              (λ j.
                copyout pt ((addr + j) % 2 ^ 64) ((next_byte pi).0 ∷ []) k.mem ≡ some (false, m))
              (omega arith) failed,
        ),
      )

  empty-contents : (pi : Pipe) → IsPipe pi → is_empty pi ≡ true → contents pi ≡ []
  unfolding slots
  empty-contents pi v e = ap (λ n. slots n pi.nread pi.data_at) (empty-count pi v e)

  read_from-Took :
      (r i addr : ℕ)
      → (pi : Pipe) → (k : Kernel Mem) → IsPipe pi
      → Ensures
          (Took (k.procs me).pagetable i r addr pi k.mem)
          (read_from w nread_chan nwrite_chan me r i addr pi k)
  unfolding read_from
  read_from-Took zero i addr pi k v =
      read_end-Took (k.procs me).pagetable i 0 addr pi k v (inl refl)
  read_from-Took (suc r) i addr pi k v = elim (Bool-cases (is_empty pi)) [
    | inl empty ↦
        rw (empty, read_from)
          (read_end-Took (k.procs me).pagetable i (suc r) addr pi k v
            (inr (empty-contents pi v empty)))
    | inr full ↦
        rw (full, read_from)
          (elim (Option-cases
            (copyout (k.procs me).pagetable ((addr + i) % 2 ^ 64) ((next_byte pi).0 ∷ []) k.mem)) [
              | inl e ↦ rw e tt
              | inr ((false, m), e) ↦
                  rw e (lost-Took (k.procs me).pagetable i (suc r) addr pi k m v full e)
              | inr ((true, m), e) ↦
                  let q = next_byte-contents pi v full in
                  rw e (
                    Ensures-map (Took (k.procs me).pagetable (i + 1) r addr (next_byte pi).1 m)
                      (Took (k.procs me).pagetable i (suc r) addr pi k.mem)
                      (read_from w nread_chan nwrite_chan me r (i + 1) addr (next_byte pi).1
                        (record k { mem = m }))
                      (λ p h. Took-suc (k.procs me).pagetable i r addr pi k.mem m p e q.1 h)
                      (read_from-Took r (i + 1) addr (next_byte pi).1 (record k { mem = m }) q.0))
            ])
  ]

  piperead-copies :
      (n addr : ℕ)
      → (pi : Pipe) → (k : Kernel Mem) → (is_empty pi && pi.writeopen) ≡ false
      → read_from w nread_chan nwrite_chan me n 0 addr pi k
        ≡ piperead w nread_chan nwrite_chan me (pos n) addr pi k
  unfolding piperead
  piperead-copies n addr pi k goes = rw (goes, piperead)

  piperead-waits :
      (n addr : ℕ)
      → (pi : Pipe) → (k : Kernel Mem) → (p : Progress Mem) → (is_empty pi && pi.writeopen) ≡ true
      → piperead w nread_chan nwrite_chan me (pos n) addr pi k ≡ some p
      → p ≡ (if killed me k then returned (negsuc 0) pi k else blocked 0 pi k)
  unfolding piperead
  piperead-waits n addr pi k p waits e =
      let h : piperead w nread_chan nwrite_chan me (pos n) addr pi k
          ≡ some (if killed me k then returned (negsuc 0) pi k else blocked 0 pi k) =
        elim (Bool-cases (killed me k)) [
          | inl d ↦ rw (waits, d, piperead)
          | inr d ↦ rw (waits, d, piperead)
        ] in
      sym (some-injective _ _ (sym h ∙ e))

  -- A call of piperead that returns from its second loop has taken a first part of the queue, has stored it
  -- in order in the caller's memory and returns its length, which is as many bytes as were asked
  -- for or all that there were; or storing failed at a byte, which is gone from the pipe and not counted.
  -- A call on an empty pipe with a writer takes nothing: it returns -1 if the caller is killed
  -- and sleeps otherwise.
  pub piperead_lem :
      (n addr : ℕ)
      → (pi : Pipe) → (k : Kernel Mem) → (p : Progress Mem) → IsPipe pi
      → piperead w nread_chan nwrite_chan me (pos n) addr pi k ≡ some p
      → (((is_empty pi && pi.writeopen) ≡ false) × Took (k.procs me).pagetable 0 n addr pi k.mem p)
        ⊎ (((is_empty pi && pi.writeopen) ≡ true)
            × (p ≡ (if killed me k then returned (negsuc 0) pi k else blocked 0 pi k)))
  unfolding piperead
  piperead_lem n addr pi k p v e = elim (Bool-cases (is_empty pi && pi.writeopen)) [
    | inl waits ↦ inr (waits, piperead-waits n addr pi k p waits e)
    | inr goes ↦ inl (
      goes,
      Ensures-some (Took (k.procs me).pagetable 0 n addr pi k.mem)
          (read_from w nread_chan nwrite_chan me n 0 addr pi k) p (read_from-Took n 0 addr pi k v)
          (piperead-copies n addr pi k goes ∙ e),
    )
  ]
