-- ===== src/Log/Images.antt =====
-- kernel/log.c: what the disk may hold when the machine stops, and which writes keep it so.
use os_proc_lap02_system_cal.Prelude.{
  update_self, update_ne, ℕ, ◌+◌, ◌≤◌, ◌<◌, ◌≡◌, ◌≢◌, ◌⊎◌, ◌∙◌, arith, update, ℕ_discrete,
}
use os_proc_lap02_system_cal.Log.{Block, Disk}

module _ (start size : ℕ) where
  -- A block that is not the log's: files live there.
  abbrev pub Outside : ℕ → Type 0
  Outside b = (b < start) ⊎ (start + size ≤ b)

  -- The log is empty, and the file system's blocks are those of `c`.
  pub record Clean (c d : Disk) : Type 0 where
    pub head : d start 0 ≡ 0
    pub same : (b : ℕ) → Outside b → d b ≡ c b

  -- The log holds `n` blocks of `c` for the places `home`; of the file system's other blocks, and of
  -- those whose copy is before entry `t`, the disk has the data of `c`.
  pub record Committed (n : ℕ) (home : ℕ → ℕ) (c : Disk) (t : ℕ) (d : Disk) : Type 0 where
    pub count : d start 0 ≡ n
    pub few : n + 1 ≤ size
    pub entries : (i : ℕ) → i < n → d start (i + 1) ≡ home i
    pub homes : (i : ℕ) → i < n → Outside (home i)
    pub copies : (i : ℕ) → i < n → d (start + i + 1) ≡ c (home i)
    pub rest : (b : ℕ) → Outside b → ((i : ℕ) → t ≤ i → i < n → home i ≢ b) → d b ≡ c b

  -- A write inside the log, but not to its header, leaves a clean disk clean.
  pub Clean-update :
      (c d : Disk) (b : ℕ) (x : Block)
      → start < b
      → b < start + size
      → Clean c d
      → Clean c (update d b x)
  Clean-update c d b x lo hi h = record {
    head = rw (update_ne d b start x (omega arith)) h.head;
    same = λ a out. update_ne d b a x (omega arith) ∙ h.same a out;
  }

  -- Installing entry `t` brings that block up to date, and the log stays as it was.
  pub Committed-install :
      (n : ℕ) (home : ℕ → ℕ) (c d : Disk) (t : ℕ) (x : Block)
      → t < n
      → x ≡ c (home t)
      → Committed n home c t d
      → Committed n home c (t + 1) (update d (home t) x)
  Committed-install n home c d t x lt e h = record {
    count = rw (update_ne d (home t) start x (omega (arith, h.few, h.homes t lt))) h.count;
    few = h.few;
    entries = λ i p.
        rw (update_ne d (home t) start x (omega (arith, h.few, h.homes t lt))) (h.entries i p);
    homes = h.homes;
    copies = λ i p.
        update_ne d (home t) (start + i + 1) x (omega (arith, h.few, h.homes t lt, p))
        ∙ h.copies i p;
    rest = λ b out other. elim (ℕ_discrete (home t) b) [
      | yes same ↦ rw (← same) (update_self d (home t) x ∙ e)
      | no differ ↦
          update_ne d (home t) b x differ
          ∙ h.rest b out (λ i le p. elim (ℕ_discrete i t) [
            | yes it ↦ rw it differ
            | no later ↦ other i (omega arith) p
          ])
    ];
  }

  -- From an earlier entry on it is committed as well.
  pub Committed-restart :
      (n : ℕ) (home : ℕ → ℕ) (c d : Disk) (t : ℕ) → Committed n home c t d → Committed n home c 0 d
  Committed-restart n home c d t h = record {
    count = h.count;
    few = h.few;
    entries = h.entries;
    homes = h.homes;
    copies = h.copies;
    rest = λ b out other. h.rest b out (λ i le p. other i (omega arith) p);
  }

  -- Once every entry is installed, clearing the header leaves a clean disk.
  pub Committed-clear :
      (n : ℕ) (home : ℕ → ℕ) (c d : Disk) (x : Block)
      → x 0 ≡ 0
      → Committed n home c n d
      → Clean c (update d start x)
  Committed-clear n home c d x e h = record {
    head = rw (update_self d start x) e;
    same = λ b out.
        update_ne d start b x (omega (arith, h.few))
        ∙ h.rest b out (λ i le p. absurd (omega arith));
  }

  -- Writing the header is the commit: the log's copies become what recovery installs.
  pub Committed-head :
      (n : ℕ) (home : ℕ → ℕ) (old c d : Disk) (x : Block)
      → n + 1 ≤ size
      → x 0 ≡ n
      → ((i : ℕ) → i < n → x (i + 1) ≡ home i)
      → ((i : ℕ) → i < n → Outside (home i))
      → ((i : ℕ) → i < n → d (start + i + 1) ≡ c (home i))
      → ((b : ℕ) → Outside b → ((i : ℕ) → i < n → home i ≢ b) → old b ≡ c b)
      → Clean old d
      → Committed n home c 0 (update d start x)
  Committed-head n home old c d x few e names homes copies others h = record {
    count = rw (update_self d start x) e;
    few = few;
    entries = λ i p. rw (update_self d start x) (names i p);
    homes = homes;
    copies = λ i p. update_ne d start (start + i + 1) x (omega arith) ∙ copies i p;
    rest = λ b out other.
        update_ne d start b x (omega arith)
        ∙ h.same b out
        ∙ others b out (λ i p. other i (omega arith) p);
  }
