-- ===== src/Proc/Orphans.antt =====
-- kernel/proc.c: what `exit` makes of the caller, its children and its parent.
use mathlib.Core.Path.{subst}
use os_proc_lap02_system_cal.Prelude.{
  ℕ, zero, suc, ◌+◌, ◌<◌, ◌≡◌, ◌≢◌, inl, inr, sym, ap, ◌∙◌, true, false, ◌&&◌, Option, none, some,
  arith, dec_lt, ℕ_discrete, ltb, leb, ◌==◌, if◌then◌else◌, Bool-cases, update_ne,
}
use os_proc_lap02_system_cal.Layout.{n_proc}
use os_proc_lap02_system_cal.Proc.{Proc, State, Kernel, World, put, is_parent, is_sleeping}
use os_proc_lap02_system_cal.Proc.Sched.{Cpu, wakeup}
use os_proc_lap02_system_cal.Proc.Wakeup.{wakeup-entry}
use os_proc_lap02_system_cal.Proc.Wait.{
  proc_addr, reparent_from, wake_parent, hand_over, become_zombie,
}

-- `wakeup` changes no entry's parent.
wakeup-parent :
    {M : Type 0} (me : Option ℕ) (chan : ℕ) (s : Kernel M) (j : ℕ)
    → ((wakeup me chan s).procs j).parent ≡ (s.procs j).parent
wakeup-parent me chan s j = elim (dec_lt j n_proc) [
  | yes lt ↦ ap (λ (p : Proc). p.parent) ((wakeup-entry me chan s j).0 lt) ∙ ground arith
  | no ge ↦ ap (λ (p : Proc). p.parent) ((wakeup-entry me chan s j).1 (omega arith))
]

-- After `wakeup` no entry of the table but the caller's sleeps on the channel.
wakeup-none_left :
    {M : Type 0} (me chan : ℕ) (s : Kernel M) (j : ℕ)
    → j < n_proc
    → me ≢ j
    → is_sleeping ((wakeup (some me) chan s).procs j).state
        && (((wakeup (some me) chan s).procs j).chan == chan)
      ≡ false
wakeup-none_left me chan s j lt ne =
    ap (λ (p : Proc). is_sleeping p.state && (p.chan == chan))
      ((wakeup-entry (some me) chan s j).0 lt)
    ∙ ground arith

module _ (table proc_size : ℕ) where
  reparent_from-parent :
      {M : Type 0} (k i me init : ℕ) (s : Kernel M) (j : ℕ)
      → ((reparent_from table proc_size k i me init s).procs j).parent ≡ (
          if leb i j && (ltb j (i + k) && is_parent (s.procs j).parent me)
          then some init
          else (s.procs j).parent)
  unfolding reparent_from
  reparent_from-parent zero i me init s j = ground arith
  reparent_from-parent (suc k) i me init s j = elim (Bool-cases (is_parent (s.procs i).parent me)) [
    | inl mine ↦
        let t = put s i (record (s.procs i) { parent = some init }) in
        let u = wakeup (some me) (proc_addr table proc_size init) t in
        rw (mine, reparent_from)
          (reparent_from-parent k (i + 1) me init u j
            ∙ rw (wakeup-parent (some me) (proc_addr table proc_size init) t j)
                (elim (ℕ_discrete i j) [ yes same ↦ ground arith | no ne ↦ ground arith ]))
    | inr other ↦
        rw (other, reparent_from)
          (reparent_from-parent k (i + 1) me init s j
            ∙ elim (ℕ_discrete i j) [ yes same ↦ ground arith | no ne ↦ ground arith ])
  ]

  wake_parent-parent :
      {M : Type 0} (me : ℕ) (q : Option ℕ) (t : Kernel M) (j : ℕ)
      → ((wake_parent table proc_size me q t).procs j).parent ≡ (t.procs j).parent
  unfolding wake_parent
  wake_parent-parent me none t j = wakeup-parent (some me) 0 t j
  wake_parent-parent me (some q) t j = wakeup-parent (some me) (proc_addr table proc_size q) t j

  hand_over-parent :
      {M : Type 0} (me init : ℕ) (s : Kernel M) (j : ℕ)
      → j < n_proc
      → ((hand_over table proc_size me init s).procs j).parent
        ≡ (if is_parent (s.procs j).parent me then some init else (s.procs j).parent)
  unfolding hand_over
  hand_over-parent me init s j lt =
      wake_parent-parent me ((reparent_from table proc_size n_proc 0 me init s).procs me).parent
        (reparent_from table proc_size n_proc 0 me init s) j
      ∙ reparent_from-parent n_proc 0 me init s j
      ∙ ground arith

  hand_over-woken :
      {M : Type 0} (me init q : ℕ) (s : Kernel M)
      → q < n_proc
      → me ≢ q
      → (s.procs me).parent ≡ some q
      → let p = (hand_over table proc_size me init s).procs q in
        is_sleeping p.state && (p.chan == proc_addr table proc_size q) ≡ false
  unfolding hand_over wake_parent
  hand_over-woken me init q s lt ne mine =
      let t = reparent_from table proc_size n_proc 0 me init s in
      let same : (t.procs me).parent ≡ some q =
        reparent_from-parent n_proc 0 me init s me ∙ ground arith in
      subst
        (λ o.
          let p = (wake_parent table proc_size me o t).procs q in
          is_sleeping p.state && (p.chan == proc_addr table proc_size q) ≡ false)
        (sym same) (wakeup-none_left me (proc_addr table proc_size q) t q lt ne)

  module _ (w : World) (trampoline forkret : ℕ) where
    open w use {Mem}

    -- `exit`, once its files are closed, leaves the caller a zombie with its status; every child of
    -- the caller has init as its parent and no other entry has a new parent; and the caller's parent
    -- does not sleep in `wait` any more.
    pub become_zombie_lem :
        (c : Cpu) (me init status : ℕ) (s v : Kernel Mem)
        → become_zombie table proc_size w trampoline forkret c me init status s ≡ some v
        → ((v.procs me).state ≡ State.zombie)
          × ((v.procs me).xstate ≡ status)
          × ((j : ℕ)
              → j < n_proc
              → j ≢ me
              → (v.procs j).parent
                ≡ (if is_parent (s.procs j).parent me then some init else (s.procs j).parent))
          × ((q : ℕ)
              → q < n_proc
              → q ≢ me
              → (s.procs me).parent ≡ some q
              → is_sleeping (v.procs q).state && ((v.procs q).chan == proc_addr table proc_size q)
                ≡ false)
    unfolding become_zombie
    become_zombie_lem c me init status s v h =
        let u = hand_over table proc_size me init s in
        let p = record (u.procs me) { xstate = status; state = State.zombie } in
        let same : put u me p ≡ v = ground arith in
        let self : (me == me) ≡ true = ground arith in
        subst
          (λ (k : Kernel Mem).
            ((k.procs me).state ≡ State.zombie)
            × ((k.procs me).xstate ≡ status)
            × ((j : ℕ)
                → j < n_proc
                → j ≢ me
                → (k.procs j).parent
                  ≡ (if is_parent (s.procs j).parent me then some init else (s.procs j).parent))
            × ((q : ℕ)
                → q < n_proc
                → q ≢ me
                → (s.procs me).parent ≡ some q
                → is_sleeping (k.procs q).state && ((k.procs q).chan == proc_addr table proc_size q)
                  ≡ false))
          same
          (
            rw self,
            rw self,
            (λ j lt ne.
                ap (λ (x : Proc). x.parent) (update_ne u.procs me j p (λ e. ne (sym e)))
                ∙ hand_over-parent me init s j lt),
            λ q lt ne mine.
                ap (λ (x : Proc). is_sleeping x.state && (x.chan == proc_addr table proc_size q))
                  (update_ne u.procs me q p (λ e. ne (sym e)))
                ∙ hand_over-woken me init q s lt (λ e. ne (sym e)) mine,
          )
