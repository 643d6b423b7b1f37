-- ===== src/Locks/Nesting.antt =====
-- push_off and pop_off of kernel/spinlock.c are matched.
use mathlib.Core.Path.{subst}
use os_proc_lap02_system_cal.Prelude.{
  ◌+◌, ◌-◌, ◌<◌, ◌≡◌, ◌⊎◌, inl, inr, refl, sym, ◌∙◌, true, false, ◌&&◌, Option, some, arith,
  ℕ_discrete, ltb, ◌==◌, ◌>>=◌,
}
use os_proc_lap02_system_cal.Locks.{Core, push_off, pop_off}

-- Calls of push_off and pop_off in which every push_off has its pop_off.
pub data Nest : Type 0 where
  nothing : Nest
  both : Nest → Nest → Nest
  within : Nest → Nest

pub run : Nest → Core → Option Core
run nothing c = some c
run (both a b) c = run a c >>= run b
run (within a) c = run a (push_off c) >>= pop_off

-- Interrupts are off inside a push_off.
abbrev pub IsCore : Core → Type 0
IsCore c = (c.noff ≡ 0) ⊎ (c.intr ≡ false)

-- What matched calls keep; inside another push_off they also keep what pop_off is to restore.
pub record Same (c d : Core) : Type 0 where
  pub noff_eq : d.noff ≡ c.noff
  pub intr_eq : d.intr ≡ c.intr
  pub intena_eq : 0 < c.noff → d.intena ≡ c.intena

Same-trans : (a b c : Core) → Same a b → Same b c → Same a c
Same-trans a b c g h = record {
  noff_eq = h.noff_eq ∙ g.noff_eq;
  intr_eq = h.intr_eq ∙ g.intr_eq;
  intena_eq = λ lt. h.intena_eq (subst (λ n. 0 < n) (sym g.noff_eq) lt) ∙ g.intena_eq lt;
}

Same-IsCore : (c d : Core) → Same c d → IsCore c → IsCore d
Same-IsCore c d h (inl z) = inl (h.noff_eq ∙ z)
Same-IsCore c d h (inr off) = inr (h.intr_eq ∙ off)

pub pop_off-some :
    (d : Core)
    → d.intr ≡ false
    → 0 < d.noff
    → pop_off d ≡ some (record d { noff = d.noff - 1; intr = d.noff - 1 == 0 && d.intena })
unfolding pop_off
pop_off-some d off lt = let deep : ltb d.noff 1 ≡ false = ground arith in rw (off, deep, pop_off)

pop_off-Same :
    (c d : Core) → IsCore c → Same (push_off c) d → (x : Core) × (pop_off d ≡ some x) × Same c x
unfolding push_off
pop_off-Same c d ok h =
    let depth : d.noff ≡ c.noff + 1 = h.noff_eq in
    let less : d.noff - 1 ≡ c.noff = omega arith in
    (
      _,
      pop_off-some d h.intr_eq (omega arith),
      record {
        noff_eq = less;
        intr_eq = elim (ℕ_discrete c.noff 0) [
          | yes z ↦
              let t : (d.noff - 1 == 0) ≡ true = ground arith in
              let u : (c.noff == 0) ≡ true = ground arith in rw t (h.intena_eq (omega arith) ∙ rw u)
          | no nz ↦
              let t : (d.noff - 1 == 0) ≡ false = ground arith in
              rw t (elim ok [ inl z ↦ absurd (nz z) | inr off ↦ sym off ])
        ];
        intena_eq =
            λ lt. let u : (c.noff == 0) ≡ false = ground arith in h.intena_eq (omega arith) ∙ rw u;
      },
    )

-- From a core whose interrupts are off whenever it is inside a push_off, any matched calls end without a
-- panic, with the depth and the interrupt flag as they were before.
pub run-Same : (n : Nest) → (c : Core) → IsCore c → (d : Core) × (run n c ≡ some d) × Same c d
unfolding run push_off
run-Same nothing c ok = (c, refl, record { noff_eq = refl; intr_eq = refl; intena_eq = λ _. refl })
run-Same (both a b) c ok =
    let (d, e, g) = run-Same a c ok in
    let (x, f, h) = run-Same b d (Same-IsCore c d g ok) in (x, rw (e, f), Same-trans c d x g h)
run-Same (within a) c ok =
    let (d, e, g) = run-Same a (push_off c) (inr refl) in
    let (x, f, h) = pop_off-Same c d ok g in (x, rw (e, f), h)
