-- ===== src/Pipe/Writing.antt =====
-- What pipewrite of kernel/pipe.c does to the queue of bytes.
use os_proc_lap02_system_cal.Prelude.{
  false, ℕ, zero, suc, ◌+◌, ◌%◌, ◌^◌, ◌<◌, ◌≡◌, ◌⊎◌, inl, inr, refl, sym, ap, ◌∙◌, true, not, ◌||◌,
  none, some, List, [], ◌∷◌, ◌++◌, append-nil, append_assoc, arith, Bool-cases, Option-cases,
  length, Ensures, Ensures-map, Ensures-some,
}
use os_proc_lap02_system_cal.Prelude.Int.{pos, negsuc}
use os_proc_lap02_system_cal.Proc.{Kernel, World}
use os_proc_lap02_system_cal.Proc.Sched.{wakeup, killed}
use os_proc_lap02_system_cal.Pipe.{
  Pipe, Progress, returned, blocked, put_byte, is_full, write_end, write_from,
}
use os_proc_lap02_system_cal.Pipe.Queue.{count, contents, IsPipe, put_byte-contents}

module _ (w : World) (nread_chan nwrite_chan me : ℕ) where
  open w use {Mem, copyin, copyout, kfree}

  -- The bytes that `copyin` finds one by one from `addr + i` on.
  abbrev pub Fetched : ℕ → ℕ → ℕ → Mem → List ℕ → Type 0
  Fetched pt addr i m [] = Unit
  Fetched pt addr i m (b ∷ bs) =
      ((rest : List ℕ) × (copyin pt ((addr + i) % 2 ^ 64) 1 m ≡ some (some (b ∷ rest))))
      × Fetched pt addr (i + 1) m bs

  -- The reading end is closed, or the caller killed; and the contrary.
  abbrev pub Dead : Pipe → Kernel Mem → Type 0
  Dead pi k = (pi.readopen ≡ false) ⊎ (killed me k ≡ true)

  abbrev pub Alive : Pipe → Kernel Mem → Type 0
  Alive pi k = (pi.readopen ≡ true) × (killed me k ≡ false)

  -- How far a write has come that began with byte `i` and `r` bytes left: where it returns how many
  -- bytes are written, it has written all, or `copyin` fails for the next one.
  abbrev pub Wrote : ℕ → ℕ → ℕ → Pipe → Kernel Mem → Progress Mem → Type 0
  Wrote i r addr pi k (returned n qi l) =
      (bs : List ℕ) × Fetched (k.procs me).pagetable addr i k.mem bs
      × IsPipe qi
      × (contents qi ≡ contents pi ++ bs)
      × (((n ≡ pos (i + length bs))
            × ((r ≡ 0) ⊎ Alive pi k)
            × ((length bs ≡ r)
                ⊎ ((length bs < r)
                    × (copyin (k.procs me).pagetable ((addr + (i + length bs)) % 2 ^ 64) 1 k.mem
                        ≡ some none)))
            × (l ≡ wakeup (some me) nread_chan k))
          ⊎ ((n ≡ negsuc 0) × (bs ≡ []) × (0 < r) × Dead pi k × (l ≡ k)))
  Wrote i r addr pi k (blocked j qi l) =
      (bs : List ℕ) × Fetched (k.procs me).pagetable addr i k.mem bs
      × IsPipe qi
      × (contents qi ≡ contents pi ++ bs)
      × Alive pi k
      × (length bs < r)
      × (j ≡ i + length bs)
      × (count qi ≡ 512)
      × (l ≡ wakeup (some me) nread_chan k)

  Alive-not-Dead : (pi : Pipe) → (k : Kernel Mem) → Alive pi k → ¬ Dead pi k
  Alive-not-Dead pi k a (inl e) = cc (a.0, e)
  Alive-not-Dead pi k a (inr e) = cc (a.1, e)

  Wrote-suc :
      (i r addr ch : ℕ)
      → (rest : List ℕ) → (pi : Pipe) → (k : Kernel Mem) → (p : Progress Mem)
      → copyin (k.procs me).pagetable ((addr + i) % 2 ^ 64) 1 k.mem ≡ some (some (ch ∷ rest))
      → contents (put_byte ch pi) ≡ contents pi ++ (ch ∷ [])
      → Alive pi k
      → Wrote (i + 1) r addr (put_byte ch pi) k p
      → Wrote i (suc r) addr pi k p
  unfolding put_byte
  Wrote-suc i r addr ch rest pi k (returned n qi l) e q a (bs, f, v, same, (inl (z, b, stop, w))) =
      (
        ch ∷ bs,
        ((rest, e), f),
        v,
        same ∙ ap (λ xs. xs ++ bs) q ∙ append_assoc (contents pi) (ch ∷ []) bs,
        inl (
          z ∙ ap pos (omega arith),
          inr a,
          elim stop [
            | inl all ↦ inl (omega arith)
            | inr (lt, fails) ↦ inr (
              omega arith,
              ap (λ x. copyin (k.procs me).pagetable ((addr + x) % 2 ^ 64) 1 k.mem) (omega arith)
                  ∙ fails,
            )
          ],
          w,
        ),
      )
  Wrote-suc i r addr ch rest pi k (returned n qi l) e q a (bs, f, v, same, (inr (z, b, lt, d, w))) =
      absurd (Alive-not-Dead pi k a d)
  Wrote-suc i r addr ch rest pi k (blocked j qi l) e q a (bs, f, v, same, b, lt, z, full, w) = (
    ch ∷ bs,
    ((rest, e), f),
    v,
    same ∙ ap (λ xs. xs ++ bs) q ∙ append_assoc (contents pi) (ch ∷ []) bs,
    a,
    omega arith,
    z ∙ omega arith,
    full,
    w,
  )

  guard-Dead : (pi : Pipe) → (k : Kernel Mem) → (not pi.readopen || killed me k) ≡ true → Dead pi k
  guard-Dead pi k e = elim (Bool-cases pi.readopen) [
    | inl open_end ↦ inr (sym (rw open_end refl) ∙ e)
    | inr closed ↦ inl closed
  ]

  guard-Alive :
      (pi : Pipe) → (k : Kernel Mem) → (not pi.readopen || killed me k) ≡ false → Alive pi k
  guard-Alive pi k e = elim (Bool-cases pi.readopen) [
    | inl open_end ↦ (open_end, sym (rw open_end refl) ∙ e)
    | inr closed ↦ let t : (not pi.readopen || killed me k) ≡ true = rw closed refl in cc (t, e)
  ]

  full-count : (pi : Pipe) → IsPipe pi → is_full pi ≡ true → count pi ≡ 512
  full-count pi v e =
      let z : pi.nwrite ≡ (pi.nread + 512) % 2 ^ 32 = ground arith in
      let a = v.nread_small in let b = v.nwrite_small in let c = v.bounded in omega arith

  write_from-Wrote :
      (r i addr : ℕ)
      → (pi : Pipe) → (k : Kernel Mem) → IsPipe pi
      → Ensures (Wrote i r addr pi k) (write_from w nread_chan nwrite_chan me r i addr pi k)
  unfolding write_from write_end
  write_from-Wrote zero i addr pi k v = (
    [],
    tt,
    v,
    sym (append-nil (contents pi)),
    inl (ap pos (omega arith), inl refl, inl refl, refl),
  )
  write_from-Wrote (suc r) i addr pi k v = elim (Bool-cases (not pi.readopen || killed me k)) [
    | inl dead ↦
        rw (dead, write_from)
          (
            [],
            tt,
            v,
            sym (append-nil (contents pi)),
            inr (refl, refl, omega arith, guard-Dead pi k dead, refl),
          )
    | inr live ↦
        let a = guard-Alive pi k live in
        rw (live, write_from)
          (elim (Bool-cases (is_full pi)) [
            | inl full ↦ rw full (
              [],
              tt,
              v,
              sym (append-nil (contents pi)),
              a,
              omega arith,
              omega arith,
              full-count pi v full,
              refl,
            )
            | inr room ↦
                rw room
                  (elim (Option-cases
                    (copyin (k.procs me).pagetable ((addr + i) % 2 ^ 64) 1 k.mem)) [
                      | inl e ↦ rw e tt
                      | inr (none, e) ↦ rw e (
                        [],
                        tt,
                        v,
                        sym (append-nil (contents pi)),
                        inl (
                          ap pos (omega arith),
                          inr a,
                          inr (
                            omega arith,
                            ap (λ x. copyin (k.procs me).pagetable ((addr + x) % 2 ^ 64) 1 k.mem)
                                  (omega arith)
                                ∙ e,
                          ),
                          refl,
                        ),
                      )
                      | inr (some [], e) ↦ rw e tt
                      | inr (some (ch ∷ rest), e) ↦
                          let q = put_byte-contents pi ch v room in
                          rw e (
                            Ensures-map (Wrote (i + 1) r addr (put_byte ch pi) k)
                              (Wrote i (suc r) addr pi k)
                              (write_from w nread_chan nwrite_chan me r (i + 1) addr
                                (put_byte ch pi) k)
                              (λ p h. Wrote-suc i r addr ch rest pi k p e q.1 a h)
                              (write_from-Wrote r (i + 1) addr (put_byte ch pi) k q.0))
                    ])
          ])
  ]

  -- A call of pipewrite, from its start or from the byte at which it fell asleep, adds the bytes that it
  -- fetches to the end of the queue, in order, and stays within PIPESIZE. With bytes left to write,
  -- it returns -1 if and only if the reading end is closed or the caller killed, and then it adds
  -- nothing and wakes nobody. Otherwise it wakes the readers, and returns how many bytes are written in
  -- all, which are all that were asked for unless `copyin` fails for the next one; or it sleeps, which
  -- it does only on a full pipe and before it is done.
  pub pipewrite_lem :
      (r i addr : ℕ)
      → (pi : Pipe) → (k : Kernel Mem) → (p : Progress Mem) → IsPipe pi
      → write_from w nread_chan nwrite_chan me r i addr pi k ≡ some p
      → Wrote i r addr pi k p
  pipewrite_lem r i addr pi k p v e =
      Ensures-some (Wrote i r addr pi k) (write_from w nread_chan nwrite_chan me r i addr pi k) p
        (write_from-Wrote r i addr pi k v) e
