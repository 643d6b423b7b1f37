-- ===== src/Log/Commit.antt =====
-- kernel/log.c: a commit is atomic, whenever the machine stops.
use os_proc_lap02_system_cal.Log.Steps.{put_blocks_entry, log_from-Frame, put_blocks_zero}
use mathlib.Core.Path.{subst}
use os_proc_lap02_system_cal.Prelude.{
  update_ne, update_self, ltb, Bool-cases, All-map, false, inr, refl, [], ◌∷◌, ℕ, zero, suc, ◌+◌,
  ◌≤◌, ◌<◌, ◌≡◌, ◌≢◌, ◌⊎◌, inl, sym, ◌∙◌, ap, arith, update, ℕ_discrete, All,
}
use os_proc_lap02_system_cal.Log.{
  write_head, initlog, commit, write_log, put_blocks, install_from, install_trans, Log, Block, Disk,
  log_one, log_from,
}
use os_proc_lap02_system_cal.Log.Images.{Committed-head, Committed, Outside, Clean, Clean-update}
use os_proc_lap02_system_cal.Log.Recover.{
  initlog-Restorable, Installing, install_from-Installing, committed, cleared, Restorable, clean,
}

-- A transaction that may be committed: the log on disk is empty, its `n` blocks fit the log and lie
-- outside it, and only those blocks differ between the cache and the disk.
pub record Transaction (s : Log) : Type 0 where
  pub few : s.n + 1 ≤ s.size
  pub homes : (i : ℕ) → i < s.n → Outside s.start s.size (s.block i)
  pub empty : s.disk s.start 0 ≡ 0
  pub coherent :
      (b : ℕ) → Outside s.start s.size b → ((i : ℕ) → i < s.n → s.block i ≢ b) → s.disk b ≡ s.view b

module _ (start size n : ℕ) (home : ℕ → ℕ) (old new : Disk) where
  -- The disk is on its way from `old` to `new`.
  abbrev pub Either : Disk → Type 0
  Either d = Restorable start size old d ⊎ Restorable start size new d

  -- The loop of `write_log` before entry `t`.
  record Logging (t : ℕ) (s : Log) : Type 0 where
    start_eq : s.start ≡ start
    block_eq : s.block ≡ home
    fresh : (b : ℕ) → Outside start size b → s.view b ≡ new b
    cached : (i : ℕ) → i < t → s.view (start + i + 1) ≡ new (home i)
    copies : (i : ℕ) → i < t → s.disk (start + i + 1) ≡ new (home i)
    on_disk : Clean start size old s.disk
    seen : All Either s.images

  module _ (few : n + 1 ≤ size) (homes : (i : ℕ) → i < n → Outside start size (home i)) where
    log_one-Logging : (s : Log) (t : ℕ) → t < n → Logging t s → Logging (t + 1) (log_one s t)
    unfolding log_one
    log_one-Logging s t lt h = record {
      start_eq = h.start_eq;
      block_eq = h.block_eq;
      fresh = λ b out. update_ne s.view to b x (omega (arith, h.start_eq)) ∙ h.fresh b out;
      cached = cached;
      copies = λ i p. elim (ℕ_discrete i t) [
        | yes e ↦
            (λ j. update s.disk to (update_self s.view to x j) (start + i + 1))
            ∙ rw (here i e) (update_self s.disk to x ∙ source ∙ ap (λ k. new (home k)) (sym e))
        | no ne ↦
            update_ne s.disk to (start + i + 1) (update s.view to x to) (omega (arith, h.start_eq))
            ∙ h.copies i (omega arith)
      ];
      on_disk = on_disk;
      seen = (inl (clean on_disk), h.seen);
    }
      where
        to : ℕ
        to = s.start + t + 1

        x : Block
        x = s.view (s.block t)

        here : (i : ℕ) → i ≡ t → start + i + 1 ≡ to
        here i e = omega (arith, h.start_eq)

        source : x ≡ new (home t)
        source = ap (λ f. s.view (f t)) h.block_eq ∙ h.fresh (home t) (homes t lt)

        cached : (i : ℕ) → i < t + 1 → update s.view to x (start + i + 1) ≡ new (home i)
        cached i p = elim (ℕ_discrete i t) [
          | yes e ↦
              rw (here i e) (update_self s.view to x ∙ source ∙ ap (λ k. new (home k)) (sym e))
          | no ne ↦
              update_ne s.view to (start + i + 1) x (omega (arith, h.start_eq))
              ∙ h.cached i (omega arith)
        ]

        on_disk : Clean start size old (update s.disk to (update s.view to x to))
        on_disk =
            Clean-update start size old s.disk to (update s.view to x to)
              (omega (arith, h.start_eq)) (omega (arith, h.start_eq)) h.on_disk

    log_from-Logging : (k t : ℕ) (s : Log) → t + k ≡ n → Logging t s → Logging n (log_from k t s)
    unfolding log_from
    log_from-Logging zero t s e h = let e' : t ≡ n = omega arith in subst (λ m. Logging m s) e' h
    log_from-Logging (suc k) t s e h =
        log_from-Logging k (t + 1) (log_one s t) (omega arith) (log_one-Logging s t (omega arith) h)

    -- Writing the header of a full log commits it.
    head-Installing :
        (s : Log)
        → s.n ≡ n
        → ((b : ℕ) → Outside start size b → ((i : ℕ) → i < n → home i ≢ b) → old b ≡ new b)
        → Logging n s
        → Installing start size n home new Either 0 (write_head s)
    unfolding write_head
    head-Installing s en others h = record {
      start_eq = h.start_eq;
      block_eq = λ i p. ap (λ f. f i) h.block_eq;
      copies = λ i p.
          update_ne s.view s.start (start + i + 1) x (omega (arith, h.start_eq)) ∙ h.cached i p;
      on_disk = on_disk;
      seen = (inr (committed n home on_disk), h.seen);
    }
      where
        x : Block
        x = put_blocks s.n 0 s.block (update (s.view s.start) 0 s.n)

        on_disk :
            Committed start size n home new 0
              (update s.disk s.start (update s.view s.start x s.start))
        on_disk =
            subst (λ y. Committed start size n home new 0 (update s.disk s.start y))
              (sym (update_self s.view s.start x))
              (subst (λ a. Committed start size n home new 0 (update s.disk a x)) (sym h.start_eq)
                (Committed-head start size n home old new s.disk x few
                  (put_blocks_zero s.n s.block (s.view s.start) s.n ∙ en)
                  (λ i p.
                    put_blocks_entry s.n 0 i s.block (update (s.view s.start) 0 s.n) (omega arith)
                      (omega arith)
                    ∙ ap (λ f. f i) h.block_eq)
                  homes h.copies others h.on_disk))

-- What a restart recovers from the disk `d`: the file system's blocks are those of `c`.
abbrev pub Restores : Log → Disk → Disk → Type 0
Restores s d c = (b : ℕ) → Outside s.start s.size b → (initlog s.start s.size d).disk b ≡ c b

Restorable-Restores :
    (s : Log) (c d : Disk) → 1 ≤ s.size → Restorable s.start s.size c d → Restores s d c
Restorable-Restores s c d pos h = (initlog-Restorable s.start s.size c d pos h).0.same

write_head-n : (s : Log) → (write_head s).n ≡ s.n
unfolding write_head
write_head-n s = refl

-- `commit` in the middle of a run: its last state, and all that the disk passes through.
commit_images :
    (s : Log)
    → Transaction s
    → s.images ≡ s.disk ∷ []
    → Clean s.start s.size s.view (commit s).disk
      × All (Either s.start s.size s.n s.block s.disk s.view) (commit s).images
unfolding commit write_log install_trans
commit_images s h fresh = elim (Bool-cases (ltb 0 s.n)) [
  | inr none_logged ↦ rw none_logged (
    record { head = h.empty; same = λ b out. h.coherent b out (λ i p. absurd (ground arith)) },
    rw fresh (inl (clean (record { head = h.empty; same = λ b out. refl })), tt),
  )
  | inl some_logged ↦ rw some_logged (
      cleared s.start s.size Target s.n s.block s.view
        (install_from false (write_head a).n 0 (write_head a)) (λ d h'. inr (clean h'))
        done.start_eq done.on_disk done.seen)
]
  where
    Target : Disk → Type 0
    Target = Either s.start s.size s.n s.block s.disk s.view

    a : Log
    a = log_from s.n 0 s

    logged : Logging s.start s.size s.n s.block s.disk s.view s.n a
    logged =
        log_from-Logging s.start s.size s.n s.block s.disk s.view h.few h.homes s.n 0 s
          (omega arith)
          (record {
            start_eq = refl;
            block_eq = refl;
            fresh = λ b out. refl;
            cached = λ i p. absurd (omega arith);
            copies = λ i p. absurd (omega arith);
            on_disk = record { head = h.empty; same = λ b out. refl };
            seen = rw fresh (inl (clean (record { head = h.empty; same = λ b out. refl })), tt);
          })

    b : Log
    b = write_head a

    same_n : b.n ≡ s.n
    same_n = write_head-n a ∙ (log_from-Frame s.n 0 s).n_eq

    done : Installing s.start s.size s.n s.block s.view Target s.n (install_from false b.n 0 b)
    done =
        install_from-Installing s.start s.size s.n s.block s.view Target false b.n 0 b
          (λ d h'. inr (committed s.n s.block h')) (omega (arith, same_n))
          (head-Installing s.start s.size s.n s.block s.disk s.view h.few h.homes a
            (log_from-Frame s.n 0 s).n_eq h.coherent logged)

-- A commit is atomic. From a transaction that fits the log, let the machine stop after any number
-- of disk writes of `commit`, none and all included: what a restart recovers is the file system
-- before the transaction, block for block, or the file system with all its changes.
pub commit_atomic :
    (s : Log)
    → Transaction s
    → s.images ≡ s.disk ∷ []
    → All (λ d. Restores s d s.disk ⊎ Restores s d s.view) (commit s).images
commit_atomic s h fresh = All-map (commit s).images either (commit_images s h fresh).1
  where
    either :
        (d : Disk)
        → Either s.start s.size s.n s.block s.disk s.view d
        → Restores s d s.disk ⊎ Restores s d s.view
    either d (inl r) = inl (Restorable-Restores s s.disk d (omega (arith, h.few)) r)
    either d (inr r) = inr (Restorable-Restores s s.view d (omega (arith, h.few)) r)

-- A commit that is not interrupted leaves the changes on disk, and the log empty.
pub commit_installs :
    (s : Log)
    → Transaction s
    → s.images ≡ s.disk ∷ []
    → ((b : ℕ) → Outside s.start s.size b → (commit s).disk b ≡ s.view b)
      × ((commit s).disk s.start 0 ≡ 0)
commit_installs s h fresh = (clean_after.same, clean_after.head)
  where
    clean_after : Clean s.start s.size s.view (commit s).disk
    clean_after = (commit_images s h fresh).0

-- Recovery may itself be interrupted: if a restart recovers `c` from a disk that a crash of `commit`
-- or of recovery left, then `c` is also what the next restart recovers from each state that the disk
-- passes through during that recovery.
pub recovery_restarts :
    (s : Log) (c d : Disk)
    → 1 ≤ s.size
    → Restorable s.start s.size c d
    → Restores s d c × All (λ d'. Restores s d' c) (initlog s.start s.size d).images
recovery_restarts s c d pos h = (
  Restorable-Restores s c d pos h,
  All-map (initlog s.start s.size d).images (λ d' h'. Restorable-Restores s c d' pos h')
      (initlog-Restorable s.start s.size c d pos h).1,
)
