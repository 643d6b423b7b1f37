-- ===== src/Log/Recover.antt =====
-- kernel/log.c: installing the log, by recovery and by a commit.
use os_proc_lap02_system_cal.Prelude.{
  update_self, update_ne, ℕ, zero, suc, ◌+◌, ◌≤◌, ◌<◌, ◌≡◌, refl, sym, ◌∙◌, ap, arith, update, Bool,
  true, false, All,
}
use mathlib.Core.Path.{subst}
use os_proc_lap02_system_cal.Log.{
  Log, Block, Disk, install_one, install_from, install_trans, read_head, write_head, put_blocks,
  recover_from_log, started, initlog,
}
use os_proc_lap02_system_cal.Log.Images.{
  Clean, Committed, Committed-install, Committed-restart, Committed-clear,
}
use os_proc_lap02_system_cal.Log.Steps.{put_blocks_zero, read_blocks_entry, install_from-Frame}

module _ (start size n : ℕ) (home : ℕ → ℕ) (c : Disk) (P : Disk → Type 0) where
  -- The loop of `install_trans` before entry `t`. `P` holds of every state that the disk was in.
  pub record Installing (t : ℕ) (s : Log) : Type 0 where
    pub start_eq : s.start ≡ start
    pub block_eq : (i : ℕ) → i < n → s.block i ≡ home i
    pub copies : (i : ℕ) → i < n → s.view (start + i + 1) ≡ c (home i)
    pub on_disk : Committed start size n home c t s.disk
    pub seen : All P s.images

  install_one-Installing :
      (r : Bool) (s : Log) (t : ℕ)
      → ((d : Disk) → Committed start size n home c 0 d → P d)
      → t < n
      → Installing t s
      → Installing (t + 1) (install_one r s t)
  unfolding install_one
  install_one-Installing r s t good lt h = elim r as (λ r. Installing (t + 1) (install_one r s t)) [
    | true ↦ record {
      start_eq = h.start_eq;
      block_eq = h.block_eq;
      copies = copies;
      on_disk = on_disk;
      seen = (good _ (Committed-restart start size n home c _ (t + 1) on_disk), h.seen);
    }
    | false ↦ record {
      start_eq = h.start_eq;
      block_eq = h.block_eq;
      copies = copies;
      on_disk = on_disk;
      seen = (good _ (Committed-restart start size n home c _ (t + 1) on_disk), h.seen);
    }
  ]
    where
      source : ℕ
      source = s.start + t + 1

      fetched : s.view source ≡ c (home t)
      fetched = ap s.view (ap (λ a. a + t + 1) h.start_eq) ∙ h.copies t lt

      copies :
          (i : ℕ) → i < n → update s.view (s.block t) (s.view source) (start + i + 1) ≡ c (home i)
      copies i p =
          update_ne s.view (s.block t) (start + i + 1) (s.view source)
            (omega (arith, h.block_eq t lt, h.on_disk.homes t lt, h.on_disk.few, p))
          ∙ h.copies i p

      on_disk :
          Committed start size n home c
            (t + 1)
            (update s.disk (s.block t) (update s.view (s.block t) (s.view source) (s.block t)))
      on_disk = rw (h.block_eq t lt) (
          Committed-install start size n home c s.disk t _ lt
            (update_self s.view (home t) (s.view source) ∙ fetched) h.on_disk)

  pub install_from-Installing :
      (r : Bool) (k t : ℕ) (s : Log)
      → ((d : Disk) → Committed start size n home c 0 d → P d)
      → t + k ≡ n
      → Installing t s
      → Installing n (install_from r k t s)
  unfolding install_from
  install_from-Installing r zero t s good e h =
      let e' : t ≡ n = omega arith in subst (λ m. Installing m s) e' h
  install_from-Installing r (suc k) t s good e h =
      install_from-Installing r k (t + 1) (install_one r s t) good (omega arith)
        (install_one-Installing r s t good (omega arith) h)

module _ (start size : ℕ) where
  -- Recovery of such a disk restores the data `c`: the log is empty over it, or committed for it.
  pub data Restorable (c d : Disk) : Type 0 where
    clean : Clean start size c d → Restorable c d
    committed : (n : ℕ) (home : ℕ → ℕ) → Committed start size n home c 0 d → Restorable c d

  -- The last write of recovery and of a commit.
  pub cleared :
      (P : Disk → Type 0) (n : ℕ) (home : ℕ → ℕ) (c : Disk) (s : Log)
      → ((d : Disk) → Clean start size c d → P d)
      → s.start ≡ start
      → Committed start size n home c n s.disk
      → All P s.images
      → let t = write_head (record s { n = 0 }) in Clean start size c t.disk × All P t.images
  unfolding write_head
  cleared P n home c s good e h seen =
      let x : Block = put_blocks 0 0 s.block (update (s.view s.start) 0 0) in
      let empty : x 0 ≡ 0 = put_blocks_zero 0 s.block (s.view s.start) 0 in
      let after : Clean start size c (update s.disk s.start (update s.view s.start x s.start)) =
        subst (λ y. Clean start size c (update s.disk s.start y))
          (sym (update_self s.view s.start x))
          (subst (λ a. Clean start size c (update s.disk a x)) (sym e)
            (Committed-clear start size n home c s.disk x empty h)) in
      (after, (good _ after, seen))

  -- A clean disk is one whose log is committed with no entries.
  Clean-Committed :
      (home : ℕ → ℕ) (c d : Disk)
      → 1 ≤ size
      → Clean start size c d
      → Committed start size 0 home c 0 d
  Clean-Committed home c d pos h = record {
    count = h.head;
    few = pos;
    entries = λ i p. absurd (omega arith);
    homes = λ i p. absurd (omega arith);
    copies = λ i p. absurd (omega arith);
    rest = λ b out other. h.same b out;
  }

  recover-Committed :
      (n : ℕ) (home : ℕ → ℕ) (c d : Disk)
      → Committed start size n home c 0 d
      → let t = initlog start size d in Clean start size c t.disk × All (Restorable c) t.images
  unfolding initlog recover_from_log install_trans read_head
  recover-Committed n home c d h =
      cleared (Restorable c) n home c u (λ d' h'. clean h')
        (install_from-Frame true (d start 0) 0 s).start_eq done.on_disk done.seen
    where
      s : Log
      s = read_head (started start size d)

      ready : Installing start size n home c (Restorable c) 0 s
      ready = record {
        start_eq = refl;
        block_eq = λ i p.
            read_blocks_entry (d start 0) 0 i (d start) (λ _. 0) (omega arith)
              (omega (arith, h.count))
            ∙ h.entries i p;
        copies = h.copies;
        on_disk = h;
        seen = (committed n home h, tt);
      }

      u : Log
      u = install_from true (d start 0) 0 s

      done : Installing start size n home c (Restorable c) n u
      done =
          install_from-Installing start size n home c (Restorable c) true (d start 0) 0 s
            (λ d' h'. committed n home h') (omega (arith, h.count)) ready

  -- Recovery of a disk that a crash left behind: it ends with an empty log over the data `c`, and
  -- every state that the disk passes through on the way is again one that recovery restores to `c`.
  pub initlog-Restorable :
      (c d : Disk)
      → 1 ≤ size
      → Restorable c d
      → let t = initlog start size d in Clean start size c t.disk × All (Restorable c) t.images
  initlog-Restorable c d pos (clean h) =
      recover-Committed 0 (λ _. 0) c d (Clean-Committed (λ _. 0) c d pos h)
  initlog-Restorable c d pos (committed n home h) = recover-Committed n home c d h
