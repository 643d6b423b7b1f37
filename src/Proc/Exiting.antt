-- ===== src/Proc/Exiting.antt =====
-- kernel/proc.c: what `wait` reports of the children of its caller.
use os_proc_lap02_system_cal.Prelude.{ℕ, ◌<◌, ◌≡◌, ◌≢◌, ◌⊎◌, Bool, true, false, some}
use os_proc_lap02_system_cal.Prelude.Int.{pos, negsuc}
use os_proc_lap02_system_cal.Layout.{n_proc}
use os_proc_lap02_system_cal.Proc.{Kernel, World, is_parent, is_zombie}
use os_proc_lap02_system_cal.Proc.Sched.{killed}
use os_proc_lap02_system_cal.Proc.Life.{clear_entry}
use os_proc_lap02_system_cal.Proc.Wait.{int_bytes, Wait, returned, asleep}

module _ (table proc_size : ℕ) (w : World) (trampoline forkret : ℕ) where
  open w use {Mem, copyout}

  abbrev Result : Type 0
  Result = Wait table proc_size w trampoline forkret

  abbrev pub IsChild : ℕ → Kernel Mem → ℕ → Type 0
  IsChild me s j = is_parent (s.procs j).parent me ≡ true

  abbrev pub IsZombie : Kernel Mem → ℕ → Type 0
  IsZombie s j = is_zombie (s.procs j).state ≡ true

  -- What `copyout` comes to for the status of entry `i`, the caller's argument being `addr`.
  abbrev pub Reports : ℕ → ℕ → Kernel Mem → ℕ → Bool → Mem → Type 0
  Reports me addr s i ok m =
      copyout (s.procs me).pagetable addr
        (int_bytes table proc_size w trampoline forkret (s.procs i).xstate) s.mem
      ≡ some (ok, m)

  -- What a pass of `wait` by `me` over the table of `s` may come to.
  abbrev pub Waited : ℕ → ℕ → Kernel Mem → Result → Type 0
  Waited me addr s (returned (pos pid) t) =
      (i : ℕ) × (i < n_proc)
      × IsChild me s i
      × IsZombie s i
      × ((addr ≡ 0) ⊎ ((m : Mem) × Reports me addr s i true m))
      × (pid ≡ (s.procs i).pid)
      × (t.procs i ≡ clear_entry (s.procs i))
      × ((j : ℕ) → j ≢ i → t.procs j ≡ s.procs j)
  Waited me addr s (returned (negsuc n) t) =
      (n ≡ 0)
      × ((j : ℕ) → t.procs j ≡ s.procs j)
      × ((((j : ℕ) → j < n_proc → IsChild me s j → is_zombie (s.procs j).state ≡ false)
            × ((killed me s ≡ true) ⊎ ((j : ℕ) → j < n_proc → ¬ IsChild me s j)))
          ⊎ ((i : ℕ) × (i < n_proc)
              × IsChild me s i
              × IsZombie s i
              × (addr ≢ 0)
              × Reports me addr s i false t.mem))
  Waited me addr s asleep =
      (killed me s ≡ false)
      × ((i : ℕ) × (i < n_proc) × IsChild me s i)
      × ((j : ℕ) → j < n_proc → IsChild me s j → is_zombie (s.procs j).state ≡ false)

  -- The scan before entry `i`: no child below it is a zombie, and `havekids` is right.
  record Scanned (me i : ℕ) (havekids : Bool) (s : Kernel Mem) : Type 0 where
    alive : (j : ℕ) → j < i → IsChild me s j → is_zombie (s.procs j).state ≡ false
    has : havekids ≡ true → (j : ℕ) × (j < n_proc) × IsChild me s j
    none_yet : havekids ≡ false → (j : ℕ) → j < i → ¬ IsChild me s j
