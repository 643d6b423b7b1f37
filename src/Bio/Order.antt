-- ===== src/Bio/Order.antt =====
-- The order of the buffers, most recently released first: binit and brelse.
use mathlib.Core.Path.{subst}
use os_proc_lap02_system_cal.Prelude.{
  ℕ, zero, suc, ◌+◌, ◌^◌, ◌≤◌, ◌<◌, ◌≡◌, ◌≢◌, inl, inr, refl, sym, ap, ◌∙◌, true, false, none, some,
  List, [], ◌∷◌, ◌++◌, arith, ℕ_discrete, ◌==◌, if◌then◌else◌, update, update_self, update_ne,
  NotIn, Distinct,
}
use os_proc_lap02_system_cal.Bio.{
  Bcache, n_buf, head, set_buf, push_front, init_from, binit, unlink, uncounted, holds_buf, brelse,
}
use os_proc_lap02_system_cal.Bio.Ring.{
  Linked, Linked-split, Linked-unlink, Linked-push, Distinct-remove, NotIn-remove, NotIn-right,
  next-In, In-NotIn,
}

-- The buffers of the list in the order of their links, which are all different and lead back.
pub record Ring (s : Bcache) (xs : List ℕ) : Type 0 where
  pub linked : Linked s.next s.prev head xs head
  pub distinct : Distinct (head ∷ xs)

push_front-Ring :
    (b : ℕ)
    → (s : Bcache) → (xs : List ℕ) → NotIn b (head ∷ xs)
    → Ring s xs
    → Ring (push_front b s) (b ∷ xs)
push_front-Ring b s xs out r =
    let n : update s.next b (s.next head) head ≡ s.next head =
      update_ne s.next b head (s.next head) out.0 in
    record {
      linked =
          subst
            (λ k.
              Linked (update (update s.next b (s.next head)) head b)
                (update (update s.prev b head) k b) head (b ∷ xs) head)
            (sym n) (Linked-push s.next s.prev head b xs r.distinct.0 out r.distinct.1 r.linked);
      distinct = ((λ z. out.0 (sym z), r.distinct.0), (out.1, r.distinct.1));
    }

unlink-Ring :
    (b : ℕ)
    → (s : Bcache) → (xs ys : List ℕ) → Ring s (xs ++ b ∷ ys)
    → Ring (unlink b s) (xs ++ ys) × NotIn b (head ∷ (xs ++ ys))
unlink-Ring b s xs ys r =
    let (before, after) = Linked-split s.next s.prev head b head xs ys r.linked in
    let (nh, out) = NotIn-remove head b xs ys r.distinct.0 in
    let (d, nb) = Distinct-remove b xs ys r.distinct.1 in
    let next_ne : s.next b ≢ b = λ z. elim (next-In s.next s.prev b head ys after) [
      | inl e ↦ nh (sym e ∙ z)
      | inr i ↦ In-NotIn (s.next b) b ys i (NotIn-right b xs ys nb) (sym z)
    ] in
    let p : update s.prev (s.next b) (s.prev b) b ≡ s.prev b =
      update_ne s.prev (s.next b) b (s.prev b) next_ne in
    (
      record {
        linked =
            subst
              (λ k.
                Linked (update s.next k (s.next b)) (update s.prev (s.next b) (s.prev b)) head
                  (xs ++ ys) head)
              (sym p) (Linked-unlink s.next s.prev head b head xs ys (out, d) out before after);
        distinct = (out, d);
      },
      (λ z. nh (sym z), nb),
    )

-- `n` - 1 down to 0
abbrev pub down : ℕ → List ℕ
down zero = []
down (suc n) = n ∷ down n

down-NotIn : (b n : ℕ) → n ≤ b → NotIn b (down n)
down-NotIn b zero le = tt
down-NotIn b (suc n) le = (λ z. omega arith, down-NotIn b n (omega arith))

init_from-Ring :
    (left b : ℕ)
    → (s : Bcache) → b + left ≡ n_buf
    → Ring s (down b)
    → Ring (init_from left b s) (down n_buf)
unfolding init_from
init_from-Ring zero b s e r = let z : b ≡ n_buf = omega arith in subst (λ n. Ring s (down n)) z r
init_from-Ring (suc left) b s e r =
    let step : Ring (push_front b (set_buf b (record (s.buf b) { lock = none }) s)) (b ∷ down b) =
      push_front-Ring b (set_buf b (record (s.buf b) { lock = none }) s) (down b)
        (λ z. omega arith, down-NotIn b b (omega arith))
        (record { linked = r.linked; distinct = r.distinct }) in
    init_from-Ring left (b + 1) (push_front b (set_buf b (record (s.buf b) { lock = none }) s))
      (omega arith)
      (subst (λ n. Ring (push_front b (set_buf b (record (s.buf b) { lock = none }) s)) (down n))
        (let z : suc b ≡ b + 1 = omega arith in z) step)

-- Whatever memory held, binit makes a list of all buffers, the last first.
pub binit-Ring : (s : Bcache) → Ring (binit s) (down n_buf)
unfolding binit
binit-Ring s =
    init_from-Ring n_buf 0
      (record s { prev = update s.prev head head; next = update s.next head head }) refl
      (record {
        linked = (update_self s.next head head, update_self s.prev head head);
        distinct = (tt, tt);
      })

brelse-some :
    (me b : ℕ)
    → (s : Bcache) → (s.buf b).lock ≡ some me
    → (t : Bcache) × (brelse me b s ≡ some t)
      × (t ≡ (
          let u = set_buf b (uncounted (record (s.buf b) { lock = none })) s in
          if (u.buf b).refcnt == 0 then push_front b (unlink b u) else u))
unfolding brelse
brelse-some me b s e =
    let z : holds_buf me b s ≡ true =
      rw (e, holds_buf) (let y : (me == me) ≡ true = ground arith in y) in
    (_, rw z refl, refl)

-- brelse by the process that holds the buffer's lock does not panic. Where it gives back the last of the
-- references the buffer moves to the front, and the others keep their order; else the order is as
-- before. The reference count is one less and the lock is free.
pub brelse-Ring :
    (me b : ℕ)
    → (s : Bcache) → (xs ys : List ℕ) → Ring s (xs ++ b ∷ ys)
    → (s.buf b).lock ≡ some me
    → 0 < (s.buf b).refcnt
    → (s.buf b).refcnt < 2 ^ 32
    → (t : Bcache) × (brelse me b s ≡ some t)
      × Ring t (if (s.buf b).refcnt == 1 then b ∷ (xs ++ ys) else xs ++ b ∷ ys)
      × ((t.buf b).refcnt + 1 ≡ (s.buf b).refcnt)
      × ((t.buf b).lock ≡ none)
      × (t.disk ≡ s.disk)
brelse-Ring me b s xs ys r e lo hi =
    let (t, run, out) = brelse-some me b s e in
    let x = uncounted (record (s.buf b) { lock = none }) in
    let u = set_buf b x s in
    let at = update_self s.buf b x in
    let count : (u.buf b).refcnt + 1 ≡ (s.buf b).refcnt = ap (λ y. y.refcnt + 1) at ∙ omega arith in
    let lock : (u.buf b).lock ≡ none = ap (λ y. y.lock) at in
    let ru : Ring u (xs ++ b ∷ ys) = record { linked = r.linked; distinct = r.distinct } in
    elim (ℕ_discrete (s.buf b).refcnt 1) [
      | yes one ↦
          let z : ((u.buf b).refcnt == 0) ≡ true = ground arith in
          let y : ((s.buf b).refcnt == 1) ≡ true = ground arith in
          let (rest, nb) = unlink-Ring b u xs ys ru in
          let same : t ≡ push_front b (unlink b u) = out ∙ rw z refl in
          (
            push_front b (unlink b u),
            run ∙ ap some same,
            rw y (push_front-Ring b (unlink b u) (xs ++ ys) nb rest),
            count,
            lock,
            refl,
          )
      | no more ↦
          let z : ((u.buf b).refcnt == 0) ≡ false = ground arith in
          let y : ((s.buf b).refcnt == 1) ≡ false = ground arith in
          let same : t ≡ u = out ∙ rw z refl in (u, run ∙ ap some same, rw y ru, count, lock, refl)
    ]
