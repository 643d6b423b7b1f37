-- ===== src/Proc/Wakeup.antt =====
-- kernel/proc.c: what `wakeup` and `kill` do to each entry of the table.
use os_proc_lap02_system_cal.Prelude.{
  dec_lt, true, ap, ℕ, zero, suc, ◌+◌, ◌≤◌, ◌<◌, ◌≡◌, ◌≢◌, ◌⊎◌, inl, inr, refl, ◌∙◌, Bool, false,
  Option, none, some, arith, ℕ_discrete, ◌==◌, if◌then◌else◌, Bool-cases,
}
use os_proc_lap02_system_cal.Prelude.Int.{ℤ, pos, negsuc}
use os_proc_lap02_system_cal.Layout.{n_proc}
use os_proc_lap02_system_cal.Proc.{is_sleeping, State, Proc, Kernel, put}
use os_proc_lap02_system_cal.Proc.Sched.{wake, wakeup_from, wakeup, kill_entry, kill_from, kill}

-- The entry is the caller's own.
abbrev pub is_me : Option ℕ → ℕ → Bool
is_me none j = false
is_me (some q) j = q == j

wakeup_from-other :
    (k i : ℕ) (me : Option ℕ) (chan : ℕ) (procs : ℕ → Proc) (j : ℕ)
    → (j < i) ⊎ (i + k ≤ j)
    → wakeup_from k i me chan procs j ≡ procs j
unfolding wakeup_from
wakeup_from-other zero i me chan procs j h = refl
wakeup_from-other (suc k) i none chan procs j h =
    wakeup_from-other k (i + 1) none chan _ j (omega arith) ∙ ground arith
wakeup_from-other (suc k) i (some q) chan procs j h =
    wakeup_from-other k (i + 1) (some q) chan _ j (omega arith) ∙ ground arith

wakeup_from-entry :
    (k i : ℕ) (me : Option ℕ) (chan : ℕ) (procs : ℕ → Proc) (j : ℕ)
    → i ≤ j
    → j < i + k
    → wakeup_from k i me chan procs j ≡ (if is_me me j then procs j else wake chan (procs j))
unfolding wakeup_from
wakeup_from-entry zero i me chan procs j lo hi = absurd (omega arith)
wakeup_from-entry (suc k) i none chan procs j lo hi = elim (ℕ_discrete i j) [
  | yes e ↦ wakeup_from-other k (i + 1) none chan _ j (omega arith) ∙ ground arith
  | no ne ↦ wakeup_from-entry k (i + 1) none chan _ j (omega arith) (omega arith) ∙ ground arith
]
wakeup_from-entry (suc k) i (some q) chan procs j lo hi = elim (ℕ_discrete i j) [
  | yes e ↦ wakeup_from-other k (i + 1) (some q) chan _ j (omega arith) ∙ ground arith
  | no ne ↦ wakeup_from-entry k (i + 1) (some q) chan _ j (omega arith) (omega arith) ∙ ground arith
]

-- `wakeup` in an entry of the table, by the code's own test.
pub wakeup-entry :
    {M : Type 0} (me : Option ℕ) (chan : ℕ) (s : Kernel M) (j : ℕ)
    → (j < n_proc
        → (wakeup me chan s).procs j ≡ (if is_me me j then s.procs j else wake chan (s.procs j)))
      × (n_proc ≤ j → (wakeup me chan s).procs j ≡ s.procs j)
unfolding wakeup
wakeup-entry me chan s j = (
  (λ lt. wakeup_from-entry n_proc 0 me chan s.procs j (omega arith) lt),
  λ le. wakeup_from-other n_proc 0 me chan s.procs j (inr (omega arith)),
)

not_me : (me : Option ℕ) (j : ℕ) → me ≢ some j → is_me me j ≡ false
not_me none j ne = refl
not_me (some q) j ne = elim (ℕ_discrete q j) [
  | yes e ↦ absurd (ne (ap some e))
  | no n ↦ ground arith
]

itself : (me : Option ℕ) (j : ℕ) → me ≡ some j → is_me me j ≡ true
itself me j e = ap (λ o. is_me o j) e ∙ ground arith

wake-woken :
    (chan : ℕ) (p : Proc)
    → p.state ≡ State.sleeping
    → p.chan ≡ chan
    → wake chan p ≡ record p { state = State.runnable }
wake-woken chan p z e =
    let a : is_sleeping p.state ≡ true = ap is_sleeping z in
    let b : (p.chan == chan) ≡ true = ground arith in rw (a, b) refl

wake-awake : (chan : ℕ) (p : Proc) → p.state ≢ State.sleeping → wake chan p ≡ p
wake-awake chan p ne = elim (Bool-cases (is_sleeping p.state)) [
  | inl e ↦ absurd (ne (asleep p.state e))
  | inr e ↦ rw e refl
]
  where
    asleep : (t : State) → is_sleeping t ≡ true → t ≡ State.sleeping
    asleep State.unused e = cc
    asleep State.used e = cc
    asleep State.sleeping e = refl
    asleep State.runnable e = cc
    asleep State.running e = cc
    asleep State.zombie e = cc

wake-elsewhere : (chan : ℕ) (p : Proc) → p.chan ≢ chan → wake chan p ≡ p
wake-elsewhere chan p ne =
    let b : (p.chan == chan) ≡ false = ground arith in
    elim (Bool-cases (is_sleeping p.state)) [ inl e ↦ rw (e, b) refl | inr e ↦ rw e refl ]

-- After `wakeup`, a process of the table other than the caller that sleeps on the channel is runnable,
-- with every other field of its entry as before. Every other entry is as before: that of the caller,
-- that of a process in another state than sleeping, that of one that sleeps on another channel, and
-- whatever is outside the table.
pub wakeup_lem :
    {M : Type 0} (me : Option ℕ) (chan : ℕ) (s : Kernel M) (j : ℕ)
    → (j < n_proc
        → me ≢ some j
        → (s.procs j).state ≡ State.sleeping
        → (s.procs j).chan ≡ chan
        → (wakeup me chan s).procs j ≡ record (s.procs j) { state = State.runnable })
      × (me ≡ some j → (wakeup me chan s).procs j ≡ s.procs j)
      × ((s.procs j).state ≢ State.sleeping → (wakeup me chan s).procs j ≡ s.procs j)
      × ((s.procs j).chan ≢ chan → (wakeup me chan s).procs j ≡ s.procs j)
      × (n_proc ≤ j → (wakeup me chan s).procs j ≡ s.procs j)
wakeup_lem me chan s j = (
  (λ lt ne z e.
      (wakeup-entry me chan s j).0 lt ∙ rw (not_me me j ne) (wake-woken chan (s.procs j) z e)),
  (λ e. within (λ lt. (wakeup-entry me chan s j).0 lt ∙ rw (itself me j e) refl)),
  (λ ne. within (λ lt. (wakeup-entry me chan s j).0 lt ∙ either (wake-awake chan (s.procs j) ne))),
  (λ ne.
      within (λ lt. (wakeup-entry me chan s j).0 lt ∙ either (wake-elsewhere chan (s.procs j) ne))),
  λ le. (wakeup-entry me chan s j).1 le,
)
  where
    within :
        (j < n_proc → (wakeup me chan s).procs j ≡ s.procs j)
        → (wakeup me chan s).procs j ≡ s.procs j
    within h = elim (dec_lt j n_proc) [
      | yes lt ↦ h lt
      | no ge ↦ (wakeup-entry me chan s j).1 (omega arith)
    ]

    either :
        wake chan (s.procs j) ≡ s.procs j
        → (if is_me me j then s.procs j else wake chan (s.procs j)) ≡ s.procs j
    either e = elim (Bool-cases (is_me me j)) [ inl z ↦ rw z refl | inr z ↦ rw z e ]

-- What `kill` does with the entries from `i` on.
record Killed {M : Type 0} (k i pid : ℕ) (s : Kernel M) (out : ℤ × Kernel M) : Type 0 where
  missing : ((j : ℕ) → i ≤ j → j < i + k → (s.procs j).pid ≢ pid) → out ≡ (negsuc 0, s)
  found :
      (j : ℕ)
      → i ≤ j
      → j < i + k
      → (s.procs j).pid ≡ pid
      → ((l : ℕ) → i ≤ l → l < j → (s.procs l).pid ≢ pid)
      → out ≡ (pos 0, put s j (kill_entry (s.procs j)))

kill_from-Killed :
    {M : Type 0} (k i pid : ℕ) (s : Kernel M) → Killed k i pid s (kill_from k i pid s)
unfolding kill_from
kill_from-Killed zero i pid s = record {
  missing = λ h. refl;
  found = λ j lo hi e first. absurd (omega arith);
}
kill_from-Killed (suc k) i pid s = elim (Bool-cases ((s.procs i).pid == pid)) [
  | inl here ↦ rw here (record {
    missing = λ h. absurd (h i (omega arith) (omega arith) (ground arith));
    found = λ j lo hi e first. elim (ℕ_discrete i j) [
      | yes same ↦ rw same
      | no before ↦ absurd (first i (omega arith) (omega arith) (ground arith))
    ];
  })
  | inr past ↦
      let rest = kill_from-Killed k (i + 1) pid s in
      rw past (record {
        missing = λ h. rest.missing (λ j lo hi. h j (omega arith) (omega arith));
        found = λ j lo hi e first.
            rest.found j (below j lo e past) (omega arith) e (λ l lo' lt. first l (omega arith) lt);
      })
]
  where
    below : (j : ℕ) → i ≤ j → (s.procs j).pid ≡ pid → ((s.procs i).pid == pid) ≡ false → i + 1 ≤ j
    below j lo e past = elim (ℕ_discrete i j) [
      | yes same ↦ absurd (ground arith)
      | no ne ↦ omega arith
    ]

-- `kill` finds the first entry of the table that has the pid, marks it as killed, makes it runnable
-- if it sleeps, and returns 0; where no entry has the pid it returns -1 and changes nothing.
pub kill_lem :
    {M : Type 0} (pid : ℕ) (s : Kernel M)
    → (((j : ℕ) → j < n_proc → (s.procs j).pid ≢ pid) → kill pid s ≡ (negsuc 0, s))
      × ((j : ℕ)
          → j < n_proc
          → (s.procs j).pid ≡ pid
          → ((l : ℕ) → l < j → (s.procs l).pid ≢ pid)
          → kill pid s ≡ (pos 0, put s j (kill_entry (s.procs j))))
unfolding kill
kill_lem pid s =
    let r = kill_from-Killed n_proc 0 pid s in
    (
      (λ h. r.missing (λ j lo hi. h j (omega arith))),
      λ j lt e first. r.found j (omega arith) (omega arith) e (λ l lo. first l),
    )
