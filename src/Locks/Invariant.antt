-- ===== src/Locks/Invariant.antt =====
-- The invariant of a spin lock of kernel/spinlock.c, and that each step keeps it and does not panic.
use mathlib.Core.Path.{subst}
use mathlib.Core.Option.{some-injective}
use os_proc_lap02_system_cal.Prelude.{
  ℕ, ◌-◌, ◌<◌, ◌≡◌, ◌≢◌, ◌⊎◌, inl, inr, refl, sym, ap, ◌∙◌, Bool, true, false, ◌&&◌, none, some,
  arith, ℕ_discrete, ◌==◌, if◌then◌else◌, Bool-cases, Option-cases, update, update_self, update_ne,
}
use os_proc_lap02_system_cal.Locks.{
  Core, push_off, is_cpu, holding, Place, outside, spinning, taken, inside, clearing, popping,
  Machine, go, acquire_start, test_and_set, acquire_end, release_start, unlock, release_end,
}
use os_proc_lap02_system_cal.Locks.Nesting.{pop_off-some}

-- The places between the successful test-and-set and the store that unlocks.
abbrev pub is_busy : Place → Bool
is_busy outside = false
is_busy spinning = false
is_busy taken = true
is_busy inside = true
is_busy clearing = true
is_busy popping = false

abbrev pub is_inside : Place → Bool
is_inside outside = false
is_inside spinning = false
is_inside taken = false
is_inside inside = true
is_inside clearing = false
is_inside popping = false

abbrev pub is_outside : Place → Bool
is_outside outside = true
is_outside spinning = false
is_outside taken = false
is_outside inside = false
is_outside clearing = false
is_outside popping = false

pub record Inv (s : Machine) : Type 0 where
  pub free : s.lock.locked ≡ false → (d : ℕ) → is_busy (s.place d) ≡ false
  pub one : (d e : ℕ) → is_busy (s.place d) ≡ true → is_busy (s.place e) ≡ true → d ≡ e
  pub own : (d : ℕ) → is_inside (s.place d) ≡ true → s.lock.cpu ≡ some d
  pub held : (d : ℕ) → s.lock.cpu ≡ some d → is_inside (s.place d) ≡ true
  pub off :
      (d : ℕ) → is_outside (s.place d) ≡ false → ((s.cores d).intr ≡ false) × (0 < (s.cores d).noff)

-- A test of places after a store to one of them: its value there, or what it was.
moved :
    (f : Place → Bool)
    → (place : ℕ → Place) → (c : ℕ) → (p : Place) → (d : ℕ)
    → ((c ≡ d) × (f (update place c p d) ≡ f p))
      ⊎ ((c ≢ d) × (f (update place c p d) ≡ f (place d)))
moved f place c p d = elim (ℕ_discrete c d) [
  | yes e ↦ inl (e, subst (λ x. f (update place c p x) ≡ f p) e (ap f (update_self place c p)))
  | no ne ↦ inr (ne, ap f (update_ne place c d p ne))
]

keeps :
    (f : Place → Bool)
    → (place : ℕ → Place) → (c : ℕ) → (p : Place) → f (place c) ≡ f p
    → (d : ℕ) → f (update place c p d) ≡ f (place d)
keeps f place c p same d = elim (moved f place c p d) [
  | inl (e, v) ↦ v ∙ sym same ∙ ap (λ x. f (place x)) e
  | inr (ne, v) ↦ v
]

cores_moved :
    (cores : ℕ → Core) → (c : ℕ) → (x : Core) → (d : ℕ) → c ≢ d → update cores c x d ≡ cores d
cores_moved cores c x d ne = update_ne cores c d x ne

inside-busy : (p : Place) → is_inside p ≡ true → is_busy p ≡ true
inside-busy p e = ground arith

and_false : (b : Bool) → (b && false) ≡ false
and_false b = ground arith

not_owner :
    (c : ℕ) → (s : Machine) → Inv s → is_inside (s.place c) ≡ false → is_cpu s.lock.cpu c ≡ false
not_owner c s h out = elim (Option-cases s.lock.cpu) [
  | inl e ↦ rw e
  | inr (d, e) ↦ elim (ℕ_discrete d c) [
    | yes z ↦ cc (out, h.held c (e ∙ ap some z))
    | no ne ↦ let ne_test : (d == c) ≡ false = ground arith in rw (e, ne_test)
  ]
]

pub acquire_start-Next :
    (c : ℕ)
    → (s : Machine) → Inv s
    → s.place c ≡ outside
    → (t : Machine) × (acquire_start c s ≡ some t) × Inv t
unfolding acquire_start holding push_off
acquire_start-Next c s h at =
    let busy = keeps is_busy s.place c spinning (ap is_busy at) in
    let ins = keeps is_inside s.place c spinning (ap is_inside at) in
    let not_mine : is_cpu s.lock.cpu c ≡ false = not_owner c s h (ap is_inside at) in
    let free_of : (s.lock.locked && is_cpu s.lock.cpu c) ≡ false =
      rw not_mine (and_false s.lock.locked) in
    (
      go c spinning (record s { cores = update s.cores c (push_off (s.cores c)) }),
      rw (free_of, acquire_start),
      record {
        free = λ l d. busy d ∙ h.free l d;
        one = λ d e x y. h.one d e (sym (busy d) ∙ x) (sym (busy e) ∙ y);
        own = λ d x. h.own d (sym (ins d) ∙ x);
        held = λ d x. ins d ∙ h.held d x;
        off = λ d x. elim (ℕ_discrete c d) [
          | yes e ↦
              subst
                (λ z.
                  ((update s.cores c (push_off (s.cores c)) z).intr ≡ false)
                  × (0 < (update s.cores c (push_off (s.cores c)) z).noff))
                e (rw (update_self s.cores c (push_off (s.cores c))) (refl, omega arith))
          | no ne ↦
              rw (cores_moved s.cores c (push_off (s.cores c)) d ne)
                (h.off d (sym (ap is_outside (update_ne s.place c d spinning ne)) ∙ x))
        ];
      },
    )

if-true : (b : Bool) → (x y : Machine) → b ≡ true → (if b then x else y) ≡ x
if-true b x y e = rw e

pub never : (d : ℕ) → none ≡ some d → (b : Bool) → b ≡ true
never d e b = ground arith

if-some : (b : Bool) → (x : Machine) → b ≡ true → (if b then some x else none) ≡ some x
if-some b x e = rw e

owned_step :
    (c : ℕ)
    → (s : Machine) → s.lock.locked ≡ true
    → s.lock.cpu ≡ some c
    → release_start c s ≡ some (go c clearing (record s { lock = record s.lock { cpu = none } }))
unfolding release_start holding
owned_step c s l mine =
    let self : (c == c) ≡ true = ground arith in
    let holds : (s.lock.locked && is_cpu s.lock.cpu c) ≡ true = rw (l, mine, self) in
    if-some _ (go c clearing (record s { lock = record s.lock { cpu = none } })) holds

pub test_and_set-Inv :
    (c : ℕ) → (s : Machine) → Inv s → s.place c ≡ spinning → Inv (test_and_set c s)
unfolding test_and_set
test_and_set-Inv c s h at = elim (Bool-cases s.lock.locked) [
  | inl l ↦
      subst Inv
        (sym (
          if-true s.lock.locked s (go c taken (record s { lock = record s.lock { locked = true } }))
            l))
        h
  | inr l ↦ rw l (
      let ins = keeps is_inside s.place c taken (ap is_inside at) in
      let outs = keeps is_outside s.place c taken (ap is_outside at) in
      let only : (d : ℕ) → is_busy (update s.place c taken d) ≡ true → c ≡ d = λ d x.
        elim (moved is_busy s.place c taken d) [
          | inl (e, v) ↦ e
          | inr (ne, v) ↦ cc (sym v ∙ x, h.free l d)
        ] in
      record {
        free = λ z. ground arith;
        one = λ d e x y. sym (only d x) ∙ only e y;
        own = λ d x. h.own d (sym (ins d) ∙ x);
        held = λ d x. ins d ∙ h.held d x;
        off = λ d x. h.off d (sym (outs d) ∙ x);
      })
]

pub acquire_end-Inv : (c : ℕ) → (s : Machine) → Inv s → s.place c ≡ taken → Inv (acquire_end c s)
unfolding acquire_end
acquire_end-Inv c s h at =
    let busy = keeps is_busy s.place c inside (ap is_busy at) in
    let outs = keeps is_outside s.place c inside (ap is_outside at) in
    record {
      free = λ l d. busy d ∙ h.free l d;
      one = λ d e x y. h.one d e (sym (busy d) ∙ x) (sym (busy e) ∙ y);
      own = λ d x.
          ap some
            (h.one c d (ap is_busy at) (sym (busy d) ∙ inside-busy (update s.place c inside d) x));
      held = λ d x.
          let same : c ≡ d = some-injective c d x in
          subst (λ z. is_inside (update s.place c inside z) ≡ true) same
            (ap is_inside (update_self s.place c inside));
      off = λ d x. h.off d (sym (outs d) ∙ x);
    }

pub release_start-Next :
    (c : ℕ)
    → (s : Machine) → Inv s
    → s.place c ≡ inside
    → (t : Machine) × (release_start c s ≡ some t) × Inv t
unfolding release_start holding
release_start-Next c s h at =
    let busy = keeps is_busy s.place c clearing (ap is_busy at) in
    let outs = keeps is_outside s.place c clearing (ap is_outside at) in
    let mine : s.lock.cpu ≡ some c = h.own c (ap is_inside at) in
    let l : s.lock.locked ≡ true = elim (Bool-cases s.lock.locked) [
      | inl l ↦ l
      | inr l ↦ cc (h.free l c, ap is_busy at)
    ] in
    (
      go c clearing (record s { lock = record s.lock { cpu = none } }),
      owned_step c s l mine,
      record {
        free = λ l d. busy d ∙ h.free l d;
        one = λ d e x y. h.one d e (sym (busy d) ∙ x) (sym (busy e) ∙ y);
        own = λ d x. elim (moved is_inside s.place c clearing d) [
          | inl (e, v) ↦ cc (v, x)
          | inr (ne, v) ↦
              absurd (ne (h.one c d (ap is_busy at) (inside-busy (s.place d) (sym v ∙ x))))
        ];
        held = λ d x. never d x (is_inside (update s.place c clearing d));
        off = λ d x. h.off d (sym (outs d) ∙ x);
      },
    )

pub unlock-Inv : (c : ℕ) → (s : Machine) → Inv s → s.place c ≡ clearing → Inv (unlock c s)
unfolding unlock
unlock-Inv c s h at =
    let ins = keeps is_inside s.place c popping (ap is_inside at) in
    let outs = keeps is_outside s.place c popping (ap is_outside at) in
    let idle : (d : ℕ) → is_busy (update s.place c popping d) ≡ false = λ d.
      elim (moved is_busy s.place c popping d) [
        | inl (e, v) ↦ v
        | inr (ne, v) ↦ elim (Bool-cases (is_busy (s.place d))) [
          | inl b ↦ absurd (ne (h.one c d (ap is_busy at) b))
          | inr b ↦ v ∙ b
        ]
      ] in
    record {
      free = λ l d. idle d;
      one = λ d e x y. cc (idle d, x);
      own = λ d x. h.own d (sym (ins d) ∙ x);
      held = λ d x. ins d ∙ h.held d x;
      off = λ d x. h.off d (sym (outs d) ∙ x);
    }

pub release_end-Next :
    (c : ℕ)
    → (s : Machine) → Inv s
    → s.place c ≡ popping
    → (t : Machine) × (release_end c s ≡ some t) × Inv t
unfolding release_end
release_end-Next c s h at =
    let busy = keeps is_busy s.place c outside (ap is_busy at) in
    let ins = keeps is_inside s.place c outside (ap is_inside at) in
    let (off, deep) = h.off c (ap is_outside at) in
    let x = record (s.cores c) {
      noff = (s.cores c).noff - 1;
      intr = (s.cores c).noff - 1 == 0 && (s.cores c).intena;
    } in
    (
      go c outside (record s { cores = update s.cores c x }),
      rw (pop_off-some (s.cores c) off deep, release_end),
      record {
        free = λ l d. busy d ∙ h.free l d;
        one = λ d e x y. h.one d e (sym (busy d) ∙ x) (sym (busy e) ∙ y);
        own = λ d x. h.own d (sym (ins d) ∙ x);
        held = λ d x. ins d ∙ h.held d x;
        off = λ d y. elim (ℕ_discrete c d) [
          | yes e ↦ cc (
            ap is_outside (update_self s.place c outside),
            subst (λ z. is_outside (update s.place c outside z) ≡ false) (sym e) y,
          )
          | no ne ↦
              rw (cores_moved s.cores c x d ne)
                (h.off d (sym (ap is_outside (update_ne s.place c d outside ne)) ∙ y))
        ];
      },
    )
