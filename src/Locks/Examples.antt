-- ===== src/Locks/Examples.antt =====
-- Two processors and one lock, and nested calls of push_off.
use os_proc_lap02_system_cal.Prelude.{ℕ, ◌≡◌, inl, refl, true, false, Option, none, some, ◌>>=◌}
use os_proc_lap02_system_cal.Locks.{
  Core, initlock, outside, spinning, Machine, acquire_start, test_and_set, holding, step,
  initsleeplock, acquiresleep, holdingsleep,
}
use os_proc_lap02_system_cal.Locks.Nesting.{nothing, both, within, run, Same, run-Same}
use os_proc_lap02_system_cal.Locks.Invariant.{is_busy, is_outside}
use os_proc_lap02_system_cal.Locks.Progress.{GetsInside, spinning-GetsInside}
use os_proc_lap02_system_cal.Locks.Exclusion.{Reach, started, stepped, mutual_exclusion}

abbrev enabled : Core
enabled = record { noff = 0; intena = false; intr = true }

run-Same_example :
    (d : Core) × (run (within (both (within nothing) nothing)) enabled ≡ some d) × Same enabled d
run-Same_example = run-Same (within (both (within nothing) nothing)) enabled (inl refl)

abbrev at_start : Machine
at_start = record { lock = initlock; place = λ _. outside; cores = λ _. enabled }

value : {A : Type 0} → A → Option A → A
value d none = d
value d (some a) = a

-- Processors 0 and 1 have begun to acquire, and 1 has the lock.
after_0 : Machine
unfolding value step acquire_start holding
after_0 = value at_start (step 0 at_start)

after_01 : Machine
unfolding value step acquire_start holding after_0
after_01 = value at_start (step 1 after_0)

after_011 : Machine
unfolding value step test_and_set after_01
after_011 = value at_start (step 1 after_01)

reach_0 : Reach after_0
unfolding after_0 value step
reach_0 = stepped 0 at_start after_0 (started (λ _. enabled)) refl

reach_01 : Reach after_01
unfolding after_01 value step
reach_01 = stepped 1 after_0 after_01 reach_0 refl

reach_011 : Reach after_011
unfolding after_011 value step
reach_011 = stepped 1 after_01 after_011 reach_01 refl

mutual_exclusion_example :
    ((c : ℕ) → (t : Machine) × (step c after_011 ≡ some t))
    × ((c d : ℕ) → is_busy (after_011.place c) ≡ true → is_busy (after_011.place d) ≡ true → c ≡ d)
    × ((c : ℕ) → is_outside (after_011.place c) ≡ false → (after_011.cores c).intr ≡ false)
mutual_exclusion_example = mutual_exclusion after_011 reach_011

waits_0 : after_011.place 0 ≡ spinning
unfolding after_011 after_01 after_0 value
waits_0 = refl

spinning-GetsInside_example : GetsInside 0 after_011
spinning-GetsInside_example = spinning-GetsInside after_011 0 reach_011 waits_0

one_has_it : (is_busy (after_011.place 1) ≡ true) × (is_busy (after_011.place 0) ≡ false)
unfolding after_011 after_01 after_0 value
one_has_it = (refl, refl)

slept : (acquiresleep 4 initsleeplock >>= acquiresleep 5) ≡ none
unfolding acquiresleep
slept = refl

its_own : holdingsleep 4 (record { held = true; pid = 4 }) ≡ true
unfolding holdingsleep
its_own = refl
