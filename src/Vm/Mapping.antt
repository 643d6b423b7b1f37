-- ===== src/Vm/Mapping.antt =====
-- mappages and uvmunmap: which translations they change.
use os_proc_lap02_system_cal.Prelude.{
  ℕ, zero, suc, ◌+◌, ◌-◌, ◌*◌, ◌/◌, ◌%◌, ◌^◌, ◌≤◌, ◌<◌, ◌≡◌, ◌≢◌, ◌⊎◌, inl, inr, refl, sym, ap, ◌∙◌,
  Bool, true, false, some, List, [], arith, ℕ_discrete, leb, ◌==◌, if◌then◌else◌, Bool-cases,
  update, update_self, update_ne, ◌>>=◌,
}
use mathlib.Core.Path.{subst}
use os_proc_lap02_system_cal.Layout.{pg_size, max_va}
use os_proc_lap02_system_cal.Kalloc.FreeList.{FreeList}
use os_proc_lap02_system_cal.Vm.{Phys, px, pte2pa, is_v, leaf, set_pte, walk_down, walk, map_from}
use os_proc_lap02_system_cal.Vm.Tree.{
  Tags, Tree, Tree-agree, missing, at_entry, walk_down-Found, prefix, prefix-suc, entry_from,
  entry_from-valid, entry_from-set, px_bound, entries_apart, tag_level,
}
use os_proc_lap02_system_cal.Vm.Walking.{Untagged, Walked}

pub root_at :
    (root va : ℕ)
    → (g : Tags) → (w : ℕ → ℕ) → Tree root g w
    → va < max_va
    → g root ≡ some (2, prefix 2 va)
root_at root va g w t lt =
    let z : va / 2 ^ 39 ≡ 0 = omega arith in t.root_tag ∙ ap (λ v. some (2, v)) (sym z)

-- A store to an entry of level 0 keeps the entries of the tables above.
upper_kept :
    (root : ℕ)
    → (g : Tags) → (q v i x : ℕ) → (w : ℕ → ℕ) → Tree root g w
    → g q ≡ some (0, v)
    → i < 512
    → (p l u j : ℕ) → g p ≡ some (suc l, u)
    → j < 512
    → update w (q + 8 * i) x (p + 8 * j) ≡ w (p + 8 * j)
upper_kept root g q v i x w t tag lt p l u j e jlt = update_ne w (q + 8 * i) (p + 8 * j) x (
    entries_apart q p i j (t.aligned q 0 v tag) (t.aligned p (suc l) u e) lt jlt (
      inl
        (λ z. omega (arith, tag_level g p 0 v (suc l) u (subst (λ y. g y ≡ some (0, v)) z tag) e))))

pub stored-Tree :
    (root : ℕ)
    → (g : Tags) → (q v i x : ℕ) → (w : ℕ → ℕ) → Tree root g w
    → g q ≡ some (0, v)
    → i < 512
    → Tree root g (update w (q + 8 * i) x)
stored-Tree root g q v i x w t tag lt =
    Tree-agree root g w (update w (q + 8 * i) x) t (upper_kept root g q v i x w t tag lt)

walk_down-invalid :
    (l pt va : ℕ)
    → (m : Phys) → is_v (m.words (pt + 8 * px (suc l) va)) ≡ false
    → walk_down (suc l) pt va false m ≡ (0, m)
unfolding walk_down
walk_down-invalid l pt va m v = rw (v, walk_down)

walk_down-next :
    (l pt va : ℕ)
    → (m : Phys) → is_v (m.words (pt + 8 * px (suc l) va)) ≡ true
    → walk_down (suc l) pt va false m
      ≡ walk_down l (pte2pa (m.words (pt + 8 * px (suc l) va))) va false m
unfolding walk_down
walk_down-next l pt va m v = rw (v, walk_down)

-- A store to the entry that a walk finds sets the translation.
pub entry_from-stored :
    (root : ℕ)
    → (g : Tags) → (va q x l pt : ℕ) → (m : Phys) → Tree root g m.words
    → g q ≡ some (0, prefix 0 va)
    → l ≤ 2
    → g pt ≡ some (l, prefix l va)
    → walk_down l pt va false m ≡ (q + 8 * px 0 va, m)
    → entry_from l pt va (update m.words (q + 8 * px 0 va) x) ≡ x
unfolding entry_from walk_down
entry_from-stored root g va q x zero pt m t tag le e h =
    ap (update m.words (q + 8 * px 0 va) x) (ap (λ r. r.0) h)
    ∙ update_self m.words (q + 8 * px 0 va) x
entry_from-stored root g va q x (suc l) pt m t tag le e h =
    elim (Bool-cases (is_v (m.words (pt + 8 * px (suc l) va)))) [
      | inr invalid ↦ absurd (
          omega (
            arith,
            t.positive q 0 (prefix 0 va) tag,
            ap (λ r. r.0) (sym (walk_down-invalid l pt va m invalid) ∙ h),
          ))
      | inl valid ↦
          let at = pt + 8 * px (suc l) va in
          let below : g (pte2pa (m.words at)) ≡ some (l, prefix l va) =
            t.child pt l (prefix (suc l) va) (px (suc l) va) e (px_bound (suc l) va) valid
            ∙ ap (λ v. some (l, v)) (sym (prefix-suc l va (omega arith))) in
          entry_from-valid l pt va (update m.words (q + 8 * px 0 va) x) (m.words at)
            (upper_kept root g q (prefix 0 va) (px 0 va) x m.words t tag (px_bound 0 va) pt l
              (prefix (suc l) va) (px (suc l) va) e (px_bound (suc l) va))
            valid
          ∙ entry_from-stored root g va q x l (pte2pa (m.words at)) m t tag (omega arith) below
              (sym (walk_down-next l pt va m valid) ∙ h)
    ]

-- The entry that a walk finds is the translation.
entry_at :
    (root : ℕ)
    → (g : Tags) → (va at : ℕ) → (m : Phys) → Tree root g m.words
    → va < max_va
    → 0 < at
    → walk_down 2 root va false m ≡ (at, m)
    → entry_from 2 root va m.words ≡ m.words at
entry_at root g va at m t lt pos h =
    elim (walk_down-Found root g va 2 root m t (omega arith) (root_at root va g m.words t lt)) [
      | missing a b ↦ absurd (omega (arith, pos, ap (λ r. r.0) (sym a ∙ h)))
      | at_entry q tag a b ↦ b ∙ ap m.words (ap (λ r. r.0) (sym a ∙ h))
    ]

pub walk-some :
    (pt va : ℕ)
    → (alloc : Bool) → (m : Phys) → va < max_va
    → walk pt va alloc m ≡ some (walk_down 2 pt va alloc m)
unfolding walk
walk-some pt va alloc m lt = let z : leb max_va va ≡ false = ground arith in rw (z, walk)

pub map_from-new :
    (k pt a pa perm at : ℕ)
    → (m m1 : Phys) → walk pt a true m ≡ some (at, m1)
    → at ≢ 0
    → is_v (m1.words at) ≡ false
    → map_from (suc k) pt a pa perm m
      ≡ map_from k pt (a + pg_size) (pa + pg_size) perm (set_pte at (leaf pa perm) m1)
unfolding map_from
map_from-new k pt a pa perm at m m1 h ne v =
    let z : (at == 0) ≡ false = ground arith in rw (h, map_from) (rw (z, ◌>>=◌) (rw v refl))

pub map_from-full :
    (k pt a pa perm : ℕ)
    → (m m1 : Phys) → walk pt a true m ≡ some (0, m1)
    → map_from (suc k) pt a pa perm m ≡ some (false, m1)
unfolding map_from
map_from-full k pt a pa perm m m1 h = rw (h, map_from)

-- What a loop over `k` pages from `a` on does: the tables stay tables and the free list a free list, the
-- pages are mapped, or there is no free page left, and the translations of other pages are as before.
pub record Mapped (ke root : ℕ) (k a pa perm : ℕ) (m : Phys) (ok : Bool) (m1 : Phys) : Type 0 where
  pub tags : Tags
  pub rest : List ℕ
  pub tree : Tree root tags m1.words
  pub free : FreeList ke m1.kmem rest
  pub untagged : Untagged tags rest
  pub others :
      (va : ℕ)
      → va < max_va
      → (va / 4096 < a / 4096) ⊎ (a / 4096 + k ≤ va / 4096)
      → entry_from 2 root va m1.words ≡ entry_from 2 root va m.words
  pub done :
      ((ok ≡ true)
        × ((va : ℕ)
            → a / 4096 ≤ va / 4096
            → va / 4096 < a / 4096 + k
            → entry_from 2 root va m1.words ≡ leaf (pa + (va / 4096 - a / 4096) * 4096) perm))
      ⊎ ((ok ≡ false) × (rest ≡ []))

px_page : (l va va' : ℕ) → va / 4096 ≡ va' / 4096 → px l va ≡ px l va'
px_page zero va va' e = omega arith
px_page (suc zero) va va' e = omega arith
px_page (suc (suc l)) va va' e = omega arith

-- A translation depends on the page of an address only.
pub entry_from-page :
    (l pt va va' : ℕ)
    → (w : ℕ → ℕ) → va / 4096 ≡ va' / 4096
    → entry_from l pt va w ≡ entry_from l pt va' w
unfolding entry_from
entry_from-page zero pt va va' w e =
    let z : px 0 va ≡ px 0 va' = omega arith in ap (λ i. w (pt + 8 * i)) z
entry_from-page (suc l) pt va va' w e =
    let z : px (suc l) va ≡ px (suc l) va' = px_page (suc l) va va' e in
    ap (λ i. if is_v (w (pt + 8 * i)) then entry_from l (pte2pa (w (pt + 8 * i))) va w else 0) z
    ∙ ap (λ y. if is_v (w (pt + 8 * px (suc l) va')) then y else 0)
        (entry_from-page l (pte2pa (w (pt + 8 * px (suc l) va'))) va va' w e)

-- One round of `mappages` at an entry `q + 8 * px 0 a` that walk found in `m1`, before the rest of them.
module _ (ke root : ℕ) (a pa perm : ℕ) (m m1 : Phys) (g : Tags)
    (root_tag : g root ≡ some (2, prefix 2 a))
    (w : Walked ke root g a 2 root m (walk_down 2 root a true m).0 m1) (q : ℕ)
    (tag : w.tags q ≡ some (0, prefix 0 a))
    (at : walk_down 2 root a false m1 ≡ (q + 8 * px 0 a, m1)) (lt : a < max_va)
    (al : a % 4096 ≡ 0) where
  abbrev pub stored : Phys
  stored = set_pte (q + 8 * px 0 a) (leaf pa perm) m1

  pub stored-Tree_here : Tree root w.tags stored.words
  stored-Tree_here =
      stored-Tree root w.tags q (prefix 0 a) (px 0 a) (leaf pa perm) m1.words w.tree tag
        (px_bound 0 a)

  stored_here : entry_from 2 root a stored.words ≡ leaf pa perm
  stored_here =
      entry_from-stored root w.tags a q (leaf pa perm) 2 root m1 w.tree tag (omega arith)
        (w.more root _ root_tag) at

  pub stored_other :
      (va : ℕ)
      → va < max_va
      → a / 4096 ≢ va / 4096
      → entry_from 2 root va stored.words ≡ entry_from 2 root va m.words
  stored_other va vlt ne =
      entry_from-set root w.tags a va q (leaf pa perm) 2 root m1.words w.tree (omega arith)
        (root_at root va w.tags m1.words w.tree vlt) tag ne
      ∙ w.same 2 root (prefix 2 a) va root_tag

  pub fresh : is_v (entry_from 2 root a m.words) ≡ false → is_v (m1.words (q + 8 * px 0 a)) ≡ false
  fresh unmapped =
      ap is_v (
        sym (
          entry_at root w.tags a (q + 8 * px 0 a) m1 w.tree lt
            (omega (arith, w.tree.positive q 0 (prefix 0 a) tag)) at)
        ∙ w.same 2 root (prefix 2 a) a root_tag)
      ∙ unmapped

  pub Mapped-more :
      (k : ℕ)
      → (ok : Bool) → (m2 : Phys) → a + 4096 + k * 4096 ≤ max_va
      → Mapped ke root k (a + 4096) (pa + 4096) perm stored ok m2
      → Mapped ke root (suc k) a pa perm m ok m2
  Mapped-more k ok m2 bound h = record {
    tags = h.tags;
    rest = h.rest;
    tree = h.tree;
    free = h.free;
    untagged = h.untagged;
    others = λ va vlt out.
        h.others va vlt (elim out [ inl lo ↦ inl (omega arith) | inr hi ↦ inr (omega arith) ])
        ∙ stored_other va vlt (elim out [ inl lo ↦ λ z. omega arith | inr hi ↦ λ z. omega arith ]);
    done = elim h.done [
      | inr full ↦ inr full
      | inl (y, all) ↦ inl (
        y,
        λ va lo hi. elim (ℕ_discrete (a / 4096) (va / 4096)) [
          | yes z ↦
              let off : pa + (va / 4096 - a / 4096) * 4096 ≡ pa = omega arith in
              h.others va (omega arith) (inl (omega arith))
              ∙ entry_from-page 2 root va a stored.words (sym z)
              ∙ stored_here
              ∙ ap (λ p. leaf p perm) (sym off)
          | no ne ↦
              let off : pa + 4096 + (va / 4096 - (a + 4096) / 4096) * 4096
                  ≡ pa + (va / 4096 - a / 4096) * 4096 =
                omega arith in
              all va (omega arith) (omega arith) ∙ ap (λ p. leaf p perm) off
        ],
      )
    ];
  }
