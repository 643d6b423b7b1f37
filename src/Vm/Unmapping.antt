-- ===== src/Vm/Unmapping.antt =====
-- uvmunmap without freeing the pages: it ends the translations of its pages, and no other.
use mathlib.Core.Path.{subst}
use os_proc_lap02_system_cal.Prelude.{
  ℕ, zero, suc, ◌+◌, ◌*◌, ◌/◌, ◌%◌, ◌≤◌, ◌<◌, ◌≡◌, ◌≢◌, ◌⊎◌, inl, inr, refl, sym, ap, ◌∙◌, true,
  false, not, ◌||◌, some, arith, ℕ_discrete, ◌==◌, ◌>>=◌,
}
use os_proc_lap02_system_cal.Layout.{pg_size, max_va}
use os_proc_lap02_system_cal.Vm.{Phys, px, is_v, pte_flags, set_pte, walk}
use os_proc_lap02_system_cal.Vm.Space.{unmap_from, uvmunmap}
use os_proc_lap02_system_cal.Vm.Tree.{
  Tags, Tree, missing, at_entry, walk_down-Found, prefix, entry_from, entry_from-set, px_bound,
}
use os_proc_lap02_system_cal.Vm.Mapping.{
  root_at, walk-some, stored-Tree, entry_from-stored, entry_from-page,
}

-- A round of the loop over a mapped page.
unmap_from-next :
    (ke n pt a at : ℕ)
    → (m : Phys) → walk pt a false m ≡ some (at, m)
    → at ≢ 0
    → is_v (m.words at) ≡ true
    → pte_flags (m.words at) ≢ 1
    → unmap_from ke (suc n) pt a false m ≡ unmap_from ke n pt (a + pg_size) false (set_pte at 0 m)
unfolding unmap_from
unmap_from-next ke n pt a at m h ne v flags =
    let z : (at == 0) ≡ false = ground arith in
    let f : (not (is_v (m.words at)) || pte_flags (m.words at) == 1) ≡ false = ground arith in
    rw (h, unmap_from) (rw (z, ◌>>=◌) (rw f refl))

pub record Unmapped (root : ℕ) (g : Tags) (k a : ℕ) (m m1 : Phys) : Type 0 where
  pub tree : Tree root g m1.words
  pub kmem : m1.kmem ≡ m.kmem
  pub bytes : m1.bytes ≡ m.bytes
  pub others :
      (va : ℕ)
      → va < max_va
      → (va / 4096 < a / 4096) ⊎ (a / 4096 + k ≤ va / 4096)
      → entry_from 2 root va m1.words ≡ entry_from 2 root va m.words
  pub gone :
      (va : ℕ) → a / 4096 ≤ va / 4096 → va / 4096 < a / 4096 + k → entry_from 2 root va m1.words ≡ 0

-- A page that is mapped to memory: its entry is valid and not that of a table.
abbrev pub IsLeaf : ℕ → Type 0
IsLeaf pte = (is_v pte ≡ true) × (pte_flags pte ≢ 1)

unmap_from-Unmapped :
    (ke root : ℕ)
    → (g : Tags) → (k a : ℕ) → (m : Phys) → Tree root g m.words
    → a % 4096 ≡ 0
    → a + k * 4096 ≤ max_va
    → ((va : ℕ)
        → a / 4096 ≤ va / 4096
        → va / 4096 < a / 4096 + k
        → IsLeaf (entry_from 2 root va m.words))
    → (m1 : Phys) × (unmap_from ke k root a false m ≡ some m1) × Unmapped root g k a m m1
unfolding unmap_from
unmap_from-Unmapped ke root g zero a m t al le leaves = (
  m,
  refl,
  record {
    tree = t;
    kmem = refl;
    bytes = refl;
    others = λ va lt out. refl;
    gone = λ va lo hi. absurd (omega arith);
  },
)
unmap_from-Unmapped ke root g (suc k) a m t al le leaves =
    let lt : a < max_va = omega arith in
    let rt = root_at root a g m.words t lt in
    let (valid, flags) = leaves a (omega arith) (omega arith) in
    elim (walk_down-Found root g a 2 root m t (omega arith) rt) [
      | missing e none_there ↦ cc (valid, ap is_v none_there)
      | at_entry q tag e there ↦
          let at = q + 8 * px 0 a in
          let s = set_pte at 0 m in
          let s_tree = stored-Tree root g q (prefix 0 a) (px 0 a) 0 m.words t tag (px_bound 0 a) in
          let here = entry_from-stored root g a q 0 2 root m t tag (omega arith) rt e in
          let other : (va : ℕ)
              → va < max_va
              → a / 4096 ≢ va / 4096
              → entry_from 2 root va s.words ≡ entry_from 2 root va m.words =
            λ va vlt ne.
              entry_from-set root g a va q 0 2 root m.words t (omega arith)
                (root_at root va g m.words t vlt) tag ne in
          let (m1, run, h) =
            unmap_from-Unmapped ke root g k (a + 4096) s s_tree (omega arith) (omega arith)
              (λ va lo hi.
                subst IsLeaf (sym (other va (omega arith) (λ z. omega arith)))
                  (leaves va (omega arith) (omega arith))) in
          (
            m1,
            unmap_from-next ke k root a at m (walk-some root a false m lt ∙ ap some e)
                  (λ z. omega (arith, z, t.positive q 0 (prefix 0 a) tag))
                  (ap is_v (sym there) ∙ valid) (λ z. flags (ap pte_flags there ∙ z))
                ∙ run,
            record {
              tree = h.tree;
              kmem = h.kmem;
              bytes = h.bytes;
              others = λ va vlt out.
                  h.others va vlt
                    (elim out [ inl lo ↦ inl (omega arith) | inr hi ↦ inr (omega arith) ])
                  ∙ other va vlt
                      (elim out [ inl lo ↦ λ z. omega arith | inr hi ↦ λ z. omega arith ]);
              gone = λ va lo hi. elim (ℕ_discrete (a / 4096) (va / 4096)) [
                | yes z ↦
                    h.others va (omega arith) (inl (omega arith))
                    ∙ entry_from-page 2 root va a s.words (sym z)
                    ∙ here
                | no ne ↦ h.gone va (omega arith) (omega arith)
              ];
            },
          )
    ]

-- Where the pages from `va` on, below MAXVA, are mapped to memory, uvmunmap that does not free them
-- does not panic: afterwards none of the pages has an entry, every other page is translated as before,
-- the tables are the same pages, and the allocator and the data are untouched.
pub uvmunmap-Unmapped :
    (ke root : ℕ)
    → (g : Tags) → (k va : ℕ) → (m : Phys) → Tree root g m.words
    → va % 4096 ≡ 0
    → va + k * 4096 ≤ max_va
    → ((x : ℕ)
        → va / 4096 ≤ x / 4096
        → x / 4096 < va / 4096 + k
        → IsLeaf (entry_from 2 root x m.words))
    → (m1 : Phys) × (uvmunmap ke root va k false m ≡ some m1) × Unmapped root g k va m m1
unfolding uvmunmap
uvmunmap-Unmapped ke root g k va m t al le leaves =
    let (m1, e, h) = unmap_from-Unmapped ke root g k va m t al le leaves in
    let z : (va % pg_size == 0) ≡ true = ground arith in (m1, rw z e, h)
