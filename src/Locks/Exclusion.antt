-- ===== src/Locks/Exclusion.antt =====
-- Mutual exclusion of kernel/spinlock.c, in every interleaving of the processors.
use mathlib.Core.Path.{subst}
use mathlib.Core.Option.{some-injective}
use os_proc_lap02_system_cal.Prelude.{ℕ, ◌≡◌, refl, sym, ◌∙◌, true, false, some}
use os_proc_lap02_system_cal.Locks.{
  Core, initlock, Place, outside, spinning, taken, inside, clearing, popping, Machine, test_and_set,
  acquire_end, unlock, step,
}
use os_proc_lap02_system_cal.Locks.Invariant.{
  is_busy, is_inside, is_outside, Inv, acquire_start-Next, test_and_set-Inv, acquire_end-Inv,
  release_start-Next, unlock-Inv, release_end-Next, never,
}

step-at :
    (c : ℕ)
    → (s : Machine) → Inv s
    → (p : Place) → s.place c ≡ p
    → (t : Machine) × (step c s ≡ some t) × Inv t
unfolding step
step-at c s h outside at = let (t, e, i) = acquire_start-Next c s h at in (t, rw (at, step) e, i)
step-at c s h spinning at = (test_and_set c s, rw (at, step), test_and_set-Inv c s h at)
step-at c s h taken at = (acquire_end c s, rw (at, step), acquire_end-Inv c s h at)
step-at c s h inside at = let (t, e, i) = release_start-Next c s h at in (t, rw (at, step) e, i)
step-at c s h clearing at = (unlock c s, rw (at, step), unlock-Inv c s h at)
step-at c s h popping at = let (t, e, i) = release_end-Next c s h at in (t, rw (at, step) e, i)

-- The states that the processors reach from a free lock, with any interrupt state outside of acquire.
pub data Reach : Machine → Type 0 where
  started :
      (cores : ℕ → Core) → Reach (record { lock = initlock; place = λ _. outside; cores = cores })
  stepped : (c : ℕ) → (s t : Machine) → Reach s → step c s ≡ some t → Reach t

pub Reach-Inv : (s : Machine) → Reach s → Inv s
Reach-Inv _ (started cores) = record {
  free = λ l d. refl;
  one = λ d e x y. cc (x);
  own = λ d x. cc (x);
  held = λ d x. never d x (is_inside outside);
  off = λ d x. cc (x);
}
Reach-Inv _ (stepped c s t r e) =
    let (u, f, i) = step-at c s (Reach-Inv s r) (s.place c) refl in
    subst Inv (some-injective u t (sym f ∙ e)) i

-- In every interleaving of any number of processors that acquire and release one spin lock, each with its
-- interrupts in any state before: no step panics; at most one processor is between a
-- successful test-and-set and its unlocking store; and from acquire's first step to
-- release's last the interrupts of a processor are off.
pub mutual_exclusion :
    (s : Machine)
    → Reach s
    → ((c : ℕ) → (t : Machine) × (step c s ≡ some t))
      × ((c d : ℕ) → is_busy (s.place c) ≡ true → is_busy (s.place d) ≡ true → c ≡ d)
      × ((c : ℕ) → is_outside (s.place c) ≡ false → (s.cores c).intr ≡ false)
mutual_exclusion s r =
    let h = Reach-Inv s r in
    ((λ c. let (t, e, i) = step-at c s h (s.place c) refl in (t, e)), h.one, λ c x. (h.off c x).0)
