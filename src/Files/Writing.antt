-- ===== src/Files/Writing.antt =====
-- filewrite of kernel/file.c on a file of the file system: its loop and its transactions.
use mathlib.Core.Path.{subst}
use os_proc_lap02_system_cal.Prelude.{
  ℕ, zero, suc, ◌+◌, ◌-◌, ◌*◌, ◌/◌, ◌%◌, ◌^◌, ◌≤◌, ◌<◌, ◌≡◌, ◌≢◌, ◌⊎◌, inl, inr, refl, sym, ap, ◌∙◌,
  true, false, Option, none, some, arith, ltb, ◌==◌, if◌then◌else◌, Bool-cases, Option-cases,
  update_self, update_ne, Ensures, Ensures-bind, Ensures-map, Ensures-some, ◌>>=◌,
}
use os_proc_lap02_system_cal.Prelude.Int.{ℤ, pos, negsuc}
use os_proc_lap02_system_cal.Layout.{max_op_blocks, b_size}
use os_proc_lap02_system_cal.Files.{
  fd_inode, Under, Ftable, advance, wrote_all, write_max, write_chunk, chunks_from, write_inode,
  filewrite,
}

-- A transaction of filewrite that starts at byte `off` of a file and writes at most write_max bytes
-- touches at most four blocks of the file; with a bitmap block for each, the indirect
-- block and the inode block these are at most MAXOPBLOCKS, which begin_op has reserved.
pub write_max-fits :
    (off n1 : ℕ)
    → 0 < n1
    → n1 ≤ write_max
    → let blocks = (off + n1 - 1) / b_size - off / b_size + 1 in
      (blocks ≤ 4) × (2 * blocks + 2 ≤ max_op_blocks)
write_max-fits off n1 lo hi = (omega arith, omega arith)

module _ (u : Under) where
  open u use {S, begin_op, end_op, ilock, iunlock, writei}

  -- The table after a transaction: only the offset of `f` moves, by `r` bytes.
  record Shifted (f r : ℕ) (t t1 : Ftable S) : Type 0 where
    off_eq : (t1.files f).off ≡ ((t.files f).off + r) % 2 ^ 32
    others : (j : ℕ) → j ≢ f → t1.files j ≡ t.files j

  -- How the loop ends from byte `i` on: it stops early, or all bytes are written and the offset
  -- has moved by them.
  abbrev Ended : ℕ → ℕ → ℕ → Ftable S → Option (ℕ × Ftable S) → Type 0
  Ended i f n t none = ⊥
  Ended i f n t (some (j, t1)) = (j < n) ⊎ ((j ≡ n) × Shifted f (n - i) t t1)

  advance-Shifted :
      (f r : ℕ)
      → (t : Ftable S) → (s : S) → (z : ℤ) → z ≡ pos r
      → Shifted f r t (advance u f z (record t { under = s }))
  advance-Shifted f r t s z e =
      subst (λ y. Shifted f r t (advance u f y (record t { under = s }))) (sym e)
        (record {
          off_eq =
              ap (λ x. x.off)
                (update_self t.files f
                  (record (t.files f) { off = ((t.files f).off + r) % 2 ^ 32 }));
          others = λ j ne.
              update_ne t.files f j (record (t.files f) { off = ((t.files f).off + r) % 2 ^ 32 })
                (λ z. ne (sym z));
        })

  -- What a transaction that reports `r` bytes does to the table.
  abbrev Reports : ℕ → Ftable S → ℤ × Ftable S → Type 0
  Reports f t p = (r : ℕ) → p.0 ≡ pos r → Shifted f r t p.1

  write_chunk-Reports :
      (f addr n1 : ℕ) → (t : Ftable S) → Ensures (Reports f t) (write_chunk u f addr n1 t)
  unfolding write_chunk
  write_chunk-Reports f addr n1 t =
      let x = t.files f in
      Ensures-bind (Reports f t) (begin_op t.under) _ (λ s1 e1.
        Ensures-bind (Reports f t) (ilock x.ip s1) _ (λ s2 e2.
          Ensures-bind (Reports f t) (writei x.ip addr x.off n1 s2) _ (λ p e3.
            Ensures-bind (Reports f t) (iunlock x.ip p.1) _ (λ s4 e4.
              Ensures-bind (Reports f t) (end_op s4) _
                (λ s5 e5 r e. advance-Shifted f r t s5 p.0 e)))))

  Shifted-trans :
      (f r q : ℕ)
      → (t t1 t2 : Ftable S) → Shifted f r t t1
      → Shifted f q t1 t2
      → Shifted f (r + q) t t2
  Shifted-trans f r q t t1 t2 g h = record {
    off_eq = h.off_eq ∙ ap (λ o. (o + q) % 2 ^ 32) g.off_eq ∙ omega arith;
    others = λ j ne. h.others j ne ∙ g.others j ne;
  }

  Ended-after :
      (f i n n1 : ℕ)
      → (t t1 : Ftable S) → (o : Option (ℕ × Ftable S)) → i + n1 ≤ n
      → Shifted f n1 t t1
      → Ended (i + n1) f n t1 o
      → Ended i f n t o
  Ended-after f i n n1 t t1 none le g h = h
  Ended-after f i n n1 t t1 (some (j, t2)) le g (inl lt) = inl lt
  Ended-after f i n n1 t t1 (some (j, t2)) le g (inr (e, h)) = inr (
    e,
    subst (λ l. Shifted f l t t2) (omega arith) (Shifted-trans f n1 (n - (i + n1)) t t1 t2 g h),
  )

  wrote_all-pos : (r : ℤ) → (n1 : ℕ) → wrote_all r n1 ≡ true → r ≡ pos n1
  wrote_all-pos (pos r) n1 e = ap pos (ground arith)
  wrote_all-pos (negsuc r) n1 e = ground arith

  chunk_bounds :
      (i n : ℕ)
      → ltb i n ≡ true
      → let n1 = if ltb write_max (n - i) then write_max else n - i in (0 < n1) × (i + n1 ≤ n)
  chunk_bounds i n more = elim (Bool-cases (ltb write_max (n - i))) [
    | inl long ↦ rw long (omega arith, ground arith)
    | inr short ↦ rw short (ground arith, ground arith)
  ]

  chunks_from-Ended :
      (fuel i f addr n : ℕ)
      → (t : Ftable S) → (t.files f).off < 2 ^ 32
      → i ≤ n
      → n < i + fuel
      → Ensures (Ended i f n t) (chunks_from u fuel i f addr n t)
  unfolding chunks_from
  chunks_from-Ended zero i f addr n t small le enough = absurd (omega arith)
  chunks_from-Ended (suc fuel) i f addr n t small le enough = elim (Bool-cases (ltb i n)) [
    | inr done ↦
        rw (done, chunks_from)
          (let all : i ≡ n = ground arith in
            inr (all, record { off_eq = omega arith; others = λ j ne. refl }))
    | inl more ↦
        let n1 : ℕ = if ltb write_max (n - i) then write_max else n - i in
        let bounds : (0 < n1) × (i + n1 ≤ n) = chunk_bounds i n more in
        rw (more, chunks_from)
          (elim (Option-cases (write_chunk u f ((addr + i) % 2 ^ 64) n1 t)) [
            | inl e ↦ rw e tt
            | inr ((r, t1), e) ↦
                let q =
                  Ensures-some (Reports f t) (write_chunk u f ((addr + i) % 2 ^ 64) n1 t) (r, t1)
                    (write_chunk-Reports f ((addr + i) % 2 ^ 64) n1 t) e in
                rw e (elim (Bool-cases (wrote_all r n1)) [
                  | inr short ↦ rw (short, ◌>>=◌) (inl (ground arith))
                  | inl all ↦
                      let g = q n1 (wrote_all-pos r n1 all) in
                      rw (all, ◌>>=◌)
                        (Ensures-map (Ended (i + n1) f n t1) (Ended i f n t)
                          (chunks_from u fuel (i + n1) f addr n t1)
                          (λ o h. Ended-after f i n n1 t t1 o bounds.1 g h)
                          (chunks_from-Ended fuel (i + n1) f addr n t1
                            (subst (λ x. x < 2 ^ 32) (sym g.off_eq) (omega arith)) bounds.1
                            (omega (arith, bounds.0))))
                ])
          ])
  ]

  abbrev Written : ℕ → ℕ → Ftable S → Option (ℤ × Ftable S) → Type 0
  Written f n t o =
      (r : ℤ) × (t1 : Ftable S) × (o ≡ some (r, t1))
      × ((r ≡ negsuc 0)
          ⊎ ((r ≡ pos n)
              × ((t1.files f).off ≡ ((t.files f).off + n) % 2 ^ 32)
              × ((j : ℕ) → j ≢ f → t1.files j ≡ t.files j)))

  Ended-Written :
      (f n : ℕ)
      → (t : Ftable S) → (o : Option (ℕ × Ftable S)) → Ended 0 f n t o
      → Written f n t (o >>= λ (i, t1). some (if i == n then pos n else negsuc 0, t1))
  Ended-Written f n t none h = absurd h
  Ended-Written f n t (some (i, t1)) (inl lt) =
      let ne : (i == n) ≡ false = ground arith in (negsuc 0, t1, rw ne, inl refl)
  Ended-Written f n t (some (i, t1)) (inr (e, h)) =
      let eq : (i == n) ≡ true = ground arith in
      (
        pos n,
        t1,
        rw eq,
        inr (refl, h.off_eq ∙ ap (λ l. ((t.files f).off + l) % 2 ^ 32) (omega arith), h.others),
      )

  filewrite-Written :
      (f addr n : ℕ)
      → (t : Ftable S) → (t.files f).kind ≡ fd_inode
      → (t.files f).writable ≡ true
      → (t.files f).off < 2 ^ 32
      → Ensures (Written f n t) (filewrite u (suc n) f addr (pos n) t)
  unfolding filewrite write_inode
  filewrite-Written f addr n t inode writable small =
      rw (writable, inode, filewrite)
        (Ensures-bind (Written f n t) (chunks_from u (suc n) 0 f addr n t) _ (λ o e.
          Ended-Written f n t o (
            Ensures-some (Ended 0 f n t) (chunks_from u (suc n) 0 f addr n t) o
              (chunks_from-Ended (suc n) 0 f addr n t small (omega arith) (omega arith)) e)))

  -- Writing `n` bytes to a writable file of the file system, with the loop given fuel for n + 1 rounds: the
  -- loop ends, and the call returns `n` only if the offset of that file has moved by `n`, modulo
  -- 2^32, and no other file's entry has changed; otherwise it returns -1.
  pub filewrite_lem :
      (f addr n : ℕ)
      → (t : Ftable S) → (o : Option (ℤ × Ftable S)) → (t.files f).kind ≡ fd_inode
      → (t.files f).writable ≡ true
      → (t.files f).off < 2 ^ 32
      → filewrite u (suc n) f addr (pos n) t ≡ some o
      → (r : ℤ) × (t1 : Ftable S) × (o ≡ some (r, t1))
        × ((r ≡ negsuc 0)
            ⊎ ((r ≡ pos n)
                × ((t1.files f).off ≡ ((t.files f).off + n) % 2 ^ 32)
                × ((j : ℕ) → j ≢ f → t1.files j ≡ t.files j)))
  filewrite_lem f addr n t o inode writable small e =
      Ensures-some (Written f n t) (filewrite u (suc n) f addr (pos n) t) o
        (filewrite-Written f addr n t inode writable small) e
