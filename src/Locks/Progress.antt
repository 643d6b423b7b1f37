-- ===== src/Locks/Progress.antt =====
-- No processor is kept out of a spin lock for good: some schedule of the processors brings it inside.
use mathlib.Core.Path.{subst}
use mathlib.Core.Option.{some-injective}
use os_proc_lap02_system_cal.Prelude.{
  ℕ, ◌≡◌, ◌≢◌, inl, inr, refl, sym, ap, ◌∙◌, true, false, none, some, List, [], ◌∷◌, ◌++◌, arith,
  ◌==◌, if◌then◌else◌, Bool-cases, Option-cases, update, update_self, update_ne,
}
use os_proc_lap02_system_cal.Locks.{
  holding, Place, outside, spinning, taken, inside, clearing, popping, Machine, go, test_and_set,
  acquire_start, acquire_end, release_start, unlock, release_end, pop_off, push_off, step,
}
use os_proc_lap02_system_cal.Locks.Invariant.{is_busy, is_inside, Inv}
use os_proc_lap02_system_cal.Locks.Exclusion.{Reach, started, stepped, Reach-Inv}

-- The processors of the list take a step each, in this order.
pub data Runs : Machine → List ℕ → Machine → Type 0 where
  stop : (s : Machine) → Runs s [] s
  then_step :
      (c : ℕ)
      → (s u t : Machine) → (cs : List ℕ) → step c s ≡ some u
      → Runs u cs t
      → Runs s (c ∷ cs) t

Runs-append : (s u t : Machine) → (cs ds : List ℕ) → Runs s cs u → Runs u ds t → Runs s (cs ++ ds) t
Runs-append _ _ t _ ds (stop s) r = r
Runs-append _ u t _ ds (then_step c s v w cs e q) r =
    then_step c s v t (cs ++ ds) e (Runs-append v u t cs ds q r)

step-outside : (c : ℕ) → (s : Machine) → s.place c ≡ outside → step c s ≡ acquire_start c s
unfolding step
step-outside c s e = rw (e, step) refl

step-spinning : (c : ℕ) → (s : Machine) → s.place c ≡ spinning → step c s ≡ some (test_and_set c s)
unfolding step
step-spinning c s e = rw (e, step) refl

step-taken : (c : ℕ) → (s : Machine) → s.place c ≡ taken → step c s ≡ some (acquire_end c s)
unfolding step
step-taken c s e = rw (e, step) refl

step-inside : (c : ℕ) → (s : Machine) → s.place c ≡ inside → step c s ≡ release_start c s
unfolding step
step-inside c s e = rw (e, step) refl

step-clearing : (c : ℕ) → (s : Machine) → s.place c ≡ clearing → step c s ≡ some (unlock c s)
unfolding step
step-clearing c s e = rw (e, step) refl

step-popping : (c : ℕ) → (s : Machine) → s.place c ≡ popping → step c s ≡ release_end c s
unfolding step
step-popping c s e = rw (e, step) refl

-- A schedule after which the lock is free and the processors but `d` are where they were.
abbrev pub Frees : ℕ → Machine → Type 0
Frees d s =
    (cs : List ℕ) × (t : Machine) × Runs s cs t
    × (t.lock.locked ≡ false)
    × ((c : ℕ) → d ≢ c → t.place c ≡ s.place c)

clearing-Frees : (d : ℕ) → (s : Machine) → s.place d ≡ clearing → Frees d s
unfolding unlock
clearing-Frees d s e = (
  d ∷ [],
  unlock d s,
  then_step d s (unlock d s) (unlock d s) [] (step-clearing d s e) (stop (unlock d s)),
  refl,
  λ c ne. update_ne s.place d c popping ne,
)

inside-Frees : (d : ℕ) → (s : Machine) → s.place d ≡ inside → holding d s.lock ≡ true → Frees d s
unfolding release_start
inside-Frees d s e h =
    let u = go d clearing (record s { lock = record (s.lock) { cpu = none } }) in
    let run : step d s ≡ some u = step-inside d s e ∙ rw h refl in
    let (cs, t, r, free, same) = clearing-Frees d u (update_self s.place d clearing) in
    (
      d ∷ cs,
      t,
      then_step d s u t cs run r,
      free,
      λ c ne. same c ne ∙ update_ne s.place d c clearing ne,
    )

taken-Frees : (d : ℕ) → (s : Machine) → s.place d ≡ taken → s.lock.locked ≡ true → Frees d s
unfolding acquire_end holding
taken-Frees d s e l =
    let u = acquire_end d s in
    let h : holding d u.lock ≡ true = let z : (d == d) ≡ true = ground arith in rw (l, z) refl in
    let (cs, t, r, free, same) = inside-Frees d u (update_self s.place d inside) h in
    (
      d ∷ cs,
      t,
      then_step d s u t cs (step-taken d s e) r,
      free,
      λ c ne. same c ne ∙ update_ne s.place d c inside ne,
    )

-- A locked lock has a processor between its test-and-set and its unlocking store.
Owned : Machine → Type 0
Owned s = s.lock.locked ≡ true → (d : ℕ) × (is_busy (s.place d) ≡ true)

-- The lock is as before, and the processor that moved was not busy.
Owned-same :
    (c : ℕ)
    → (p : Place) → (s t : Machine) → t.lock ≡ s.lock
    → t.place ≡ update s.place c p
    → is_busy (s.place c) ≡ false
    → Owned s
    → Owned t
unfolding Owned
Owned-same c p s t lock place idle own l =
    let (d, busy) = own (ap (λ k. k.locked) (sym lock) ∙ l) in
    (
      d,
      ap (λ f. is_busy (f d)) place
          ∙ ap is_busy
              (update_ne s.place c d p (λ z. cc (idle, busy, ap (λ k. is_busy (s.place k)) z)))
          ∙ busy,
    )

Owned-moved :
    (c : ℕ)
    → (p : Place) → (s t : Machine) → t.place ≡ update s.place c p
    → is_busy p ≡ true
    → Owned t
unfolding Owned
Owned-moved c p s t place busy l =
    (c, ap (λ f. is_busy (f c)) place ∙ ap is_busy (update_self s.place c p) ∙ busy)

acquire_start-Owned :
    (c : ℕ) → (s t : Machine) → s.place c ≡ outside → acquire_start c s ≡ some t → Owned s → Owned t
unfolding acquire_start
acquire_start-Owned c s t at e own = elim (Bool-cases (holding c s.lock)) [
  | inl h ↦ let f : acquire_start c s ≡ none = rw (h, acquire_start) refl in cc (e, f)
  | inr n ↦
      let u = go c spinning (record s { cores = update s.cores c (push_off (s.cores c)) }) in
      let f : acquire_start c s ≡ some u = rw (n, acquire_start) refl in
      let same : u ≡ t = some-injective u t (sym f ∙ e) in
      subst Owned same (Owned-same c spinning s u refl refl (ap is_busy at) own)
]

test_and_set-Owned : (c : ℕ) → (s : Machine) → Owned s → Owned (test_and_set c s)
unfolding test_and_set
test_and_set-Owned c s own = elim (Bool-cases s.lock.locked) [
  | inl l ↦
      subst Owned
        (sym (
          ap
            (λ b.
              if b then s else go c taken (record s { lock = record (s.lock) { locked = true } }))
            l))
        own
  | inr n ↦
      subst Owned
        (sym (
          ap
            (λ b.
              if b then s else go c taken (record s { lock = record (s.lock) { locked = true } }))
            n))
        (Owned-moved c taken s (go c taken (record s { lock = record (s.lock) { locked = true } }))
          refl refl)
]

acquire_end-Owned : (c : ℕ) → (s : Machine) → Owned (acquire_end c s)
unfolding acquire_end
acquire_end-Owned c s = Owned-moved c inside s (acquire_end c s) refl refl

release_start-Owned : (c : ℕ) → (s t : Machine) → release_start c s ≡ some t → Owned t
unfolding release_start
release_start-Owned c s t e = elim (Bool-cases (holding c s.lock)) [
  | inr n ↦ let f : release_start c s ≡ none = rw (n, release_start) refl in cc (e, f)
  | inl h ↦
      let u = go c clearing (record s { lock = record (s.lock) { cpu = none } }) in
      let f : release_start c s ≡ some u = rw (h, release_start) refl in
      subst Owned (some-injective u t (sym f ∙ e)) (Owned-moved c clearing s u refl refl)
]

unlock-Owned : (c : ℕ) → (s : Machine) → Owned (unlock c s)
unfolding unlock Owned
unlock-Owned c s l = cc l

release_end-Owned :
    (c : ℕ) → (s t : Machine) → s.place c ≡ popping → release_end c s ≡ some t → Owned s → Owned t
unfolding release_end
release_end-Owned c s t at e own = elim (Option-cases (pop_off (s.cores c))) [
  | inl n ↦ let f : release_end c s ≡ none = rw (n, release_end) refl in cc (e, f)
  | inr (x, h) ↦
      let u = go c outside (record s { cores = update s.cores c x }) in
      let f : release_end c s ≡ some u = rw (h, release_end) refl in
      subst Owned (some-injective u t (sym f ∙ e))
        (Owned-same c outside s u refl refl (ap is_busy at) own)
]

step-Owned :
    (c : ℕ) → (s t : Machine) → (p : Place) → s.place c ≡ p → step c s ≡ some t → Owned s → Owned t
step-Owned c s t outside at e own = acquire_start-Owned c s t at (sym (step-outside c s at) ∙ e) own
step-Owned c s t spinning at e own =
    subst Owned (some-injective (test_and_set c s) t (sym (step-spinning c s at) ∙ e))
      (test_and_set-Owned c s own)
step-Owned c s t taken at e own =
    subst Owned (some-injective (acquire_end c s) t (sym (step-taken c s at) ∙ e))
      (acquire_end-Owned c s)
step-Owned c s t inside at e own = release_start-Owned c s t (sym (step-inside c s at) ∙ e)
step-Owned c s t clearing at e own =
    subst Owned (some-injective (unlock c s) t (sym (step-clearing c s at) ∙ e)) (unlock-Owned c s)
step-Owned c s t popping at e own = release_end-Owned c s t at (sym (step-popping c s at) ∙ e) own

Reach-Owned : (s : Machine) → Reach s → Owned s
unfolding Owned
Reach-Owned _ (started cores) l = cc l
Reach-Owned _ (stepped c s t r e) l = step-Owned c s t (s.place c) refl e (Reach-Owned s r) l

busy-Frees :
    (d : ℕ)
    → (s : Machine) → Inv s
    → s.lock.locked ≡ true
    → (p : Place) → s.place d ≡ p
    → is_busy p ≡ true
    → Frees d s
unfolding holding
busy-Frees d s h l outside at b = cc b
busy-Frees d s h l spinning at b = cc b
busy-Frees d s h l taken at b = taken-Frees d s at l
busy-Frees d s h l inside at b =
    let own : s.lock.cpu ≡ some d = h.own d (ap is_inside at) in
    inside-Frees d s at (let z : (d == d) ≡ true = ground arith in rw (l, own) z)
busy-Frees d s h l clearing at b = clearing-Frees d s at
busy-Frees d s h l popping at b = cc b

-- A schedule of the processors after which `c` is inside.
abbrev pub GetsInside : ℕ → Machine → Type 0
GetsInside c s = (cs : List ℕ) × (t : Machine) × Runs s cs t × (t.place c ≡ inside)

free-GetsInside :
    (c : ℕ) → (s : Machine) → s.place c ≡ spinning → s.lock.locked ≡ false → GetsInside c s
unfolding test_and_set acquire_end
free-GetsInside c s at free =
    let u = go c taken (record s { lock = record (s.lock) { locked = true } }) in
    let first : step c s ≡ some u =
      step-spinning c s at
      ∙ (let f : test_and_set c s ≡ u = rw (free, test_and_set) refl in ap some f) in
    let t = acquire_end c u in
    let second : step c u ≡ some t = step-taken c u (update_self s.place c taken) in
    (
      c ∷ c ∷ [],
      t,
      then_step c s u t (c ∷ []) first (then_step c u t t [] second (stop t)),
      update_self u.place c inside,
    )

-- In every state that the processors reach, a processor that waits in the loop of acquire is not shut out: some
-- schedule of the processors, each taking its own next steps, ends with it between acquire and release.
pub spinning-GetsInside : (s : Machine) → (c : ℕ) → Reach s → s.place c ≡ spinning → GetsInside c s
unfolding Owned
spinning-GetsInside s c r at = elim (Bool-cases s.lock.locked) [
  | inr free ↦ free-GetsInside c s at free
  | inl l ↦
      let (d, busy) = Reach-Owned s r l in
      let (cs, t, run, free, same) = busy-Frees d s (Reach-Inv s r) l (s.place d) refl busy in
      let ne : d ≢ c = λ z. cc (busy, ap is_busy at, ap (λ k. is_busy (s.place k)) z) in
      let (ds, u, more, there) = free-GetsInside c t (same c ne ∙ at) free in
      (cs ++ ds, u, Runs-append s t u cs ds run more, there)
]
