-- ===== src/Vm/Tree.antt =====
-- The page tables of kernel/vm.c as a tree: what a translation reads, and what a table page is for.
use mathlib.Core.Path.{subst}
use mathlib.Core.Option.{some-injective}
use os_proc_lap02_system_cal.Prelude.{
  ℕ, zero, suc, ◌+◌, ◌*◌, ◌/◌, ◌%◌, ◌^◌, ◌≤◌, ◌<◌, ◌≡◌, ◌≢◌, ◌⊎◌, inl, inr, refl, sym, ap, ◌∙◌,
  true, false, Option, some, arith, ℕ_discrete, if◌then◌else◌, Bool-cases, update, update_ne,
}
use os_proc_lap02_system_cal.Vm.{Phys, px, pte2pa, is_v, walk_down}

-- The translation of `va` from a table of level `l` on: the last entry, or 0 where a table is missing.
-- It is how the hardware reads a page table of three levels.
unfoldable pub entry_from : ℕ → ℕ → ℕ → (ℕ → ℕ) → ℕ
entry_from zero pt va w = w (pt + 8 * px 0 va)
entry_from (suc l) pt va w =
    let below = entry_from l (pte2pa (w (pt + 8 * px (suc l) va))) va w in
    if is_v (w (pt + 8 * px (suc l) va)) then below else 0

-- The part of an address that selects a table of level `l`.
abbrev pub prefix : ℕ → ℕ → ℕ
prefix zero va = va / 2 ^ 21
prefix (suc zero) va = va / 2 ^ 30
prefix (suc (suc _)) va = va / 2 ^ 39

pub prefix-suc : (l va : ℕ) → l < 2 → prefix l va ≡ prefix (suc l) va * 512 + px (suc l) va
prefix-suc zero va lt = omega arith
prefix-suc (suc zero) va lt = omega arith
prefix-suc (suc (suc l)) va lt = absurd (omega arith)

pub px_bound : (l va : ℕ) → px l va < 512
px_bound zero va = omega arith
px_bound (suc zero) va = omega arith
px_bound (suc (suc l)) va = omega arith

-- The level of a table page and the addresses that it is for; `none` for other pages.
abbrev pub Tags : Type 0
Tags = ℕ → Option (ℕ × ℕ)

-- The tables under `root` are pages with tags, and a valid entry of a table leads to the table for its
-- part of the addresses. Entries of level 0 are free.
pub record Tree (root : ℕ) (g : Tags) (w : ℕ → ℕ) : Type 0 where
  pub root_tag : g root ≡ some (2, 0)
  pub aligned : (p l v : ℕ) → g p ≡ some (l, v) → p % 4096 ≡ 0
  pub positive : (p l v : ℕ) → g p ≡ some (l, v) → 0 < p
  pub child :
      (p l v i : ℕ)
      → g p ≡ some (suc l, v)
      → i < 512
      → is_v (w (p + 8 * i)) ≡ true
      → g (pte2pa (w (p + 8 * i))) ≡ some (l, v * 512 + i)

-- Entries of different tables, or of one table at different indices, are different words.
pub entries_apart :
    (p q i j : ℕ)
    → p % 4096 ≡ 0
    → q % 4096 ≡ 0
    → i < 512
    → j < 512
    → (p ≢ q) ⊎ (i ≢ j)
    → p + 8 * i ≢ q + 8 * j
entries_apart p q i j ap' aq hi hj (inl ne) e = ne (omega arith)
entries_apart p q i j ap' aq hi hj (inr ne) e = ne (omega arith)

-- Two tags of one page agree.
pub tag_level : (g : Tags) → (p l v k u : ℕ) → g p ≡ some (l, v) → g p ≡ some (k, u) → l ≡ k
tag_level g p l v k u e f = ap (λ t. t.0) (some-injective (l, v) (k, u) (sym e ∙ f))

pub tag_prefix : (g : Tags) → (p l v k u : ℕ) → g p ≡ some (l, v) → g p ≡ some (k, u) → v ≡ u
tag_prefix g p l v k u e f = ap (λ t. t.1) (some-injective (l, v) (k, u) (sym e ∙ f))

-- Memory that agrees at the entries of the upper levels has the same tables.
pub Tree-agree :
    (root : ℕ)
    → (g : Tags) → (w x : ℕ → ℕ) → Tree root g w
    → ((p l v i : ℕ) → g p ≡ some (suc l, v) → i < 512 → x (p + 8 * i) ≡ w (p + 8 * i))
    → Tree root g x
Tree-agree root g w x t same = record {
  root_tag = t.root_tag;
  aligned = t.aligned;
  positive = t.positive;
  child = λ p l v i e lt valid.
      let s = same p l v i e lt in
      ap (λ y. g (pte2pa y)) s ∙ t.child p l v i e lt (ap is_v (sym s) ∙ valid);
}

-- What `walk` finds without allocation: no table, or the entry of the translation in a table of level
-- 0 for the address.
pub data Found (g : Tags) (va l pt : ℕ) (m : Phys) : Type 0 where
  missing : walk_down l pt va false m ≡ (0, m) → entry_from l pt va m.words ≡ 0 → Found g va l pt m
  at_entry :
      (q : ℕ)
      → g q ≡ some (0, prefix 0 va)
      → walk_down l pt va false m ≡ (q + 8 * px 0 va, m)
      → entry_from l pt va m.words ≡ m.words (q + 8 * px 0 va)
      → Found g va l pt m

pub walk_down-Found :
    (root : ℕ)
    → (g : Tags) → (va l pt : ℕ) → (m : Phys) → Tree root g m.words
    → l ≤ 2
    → g pt ≡ some (l, prefix l va)
    → Found g va l pt m
unfolding walk_down entry_from
walk_down-Found root g va zero pt m t le e = at_entry pt e refl refl
walk_down-Found root g va (suc l) pt m t le e =
    elim (Bool-cases (is_v (m.words (pt + 8 * px (suc l) va)))) [
      | inr invalid ↦ missing (rw (invalid, walk_down)) (rw (invalid, entry_from))
      | inl valid ↦
          let next = pte2pa (m.words (pt + 8 * px (suc l) va)) in
          let tag : g next ≡ some (l, prefix l va) =
            t.child pt l (prefix (suc l) va) (px (suc l) va) e (px_bound (suc l) va) valid
            ∙ ap (λ v. some (l, v)) (sym (prefix-suc l va (omega arith))) in
          elim (walk_down-Found root g va l next m t (omega arith) tag) [
            | missing a b ↦ missing (rw (valid, walk_down) a) (rw (valid, entry_from) b)
            | at_entry q h a b ↦ at_entry q h (rw (valid, walk_down) a) (rw (valid, entry_from) b)
          ]
    ]

pub entry_from-valid :
    (l pt va : ℕ)
    → (w : ℕ → ℕ) → (x : ℕ) → w (pt + 8 * px (suc l) va) ≡ x
    → is_v x ≡ true
    → entry_from (suc l) pt va w ≡ entry_from l (pte2pa x) va w
unfolding entry_from
entry_from-valid l pt va w x e v =
    subst
      (λ y.
        is_v y ≡ true
        → (if is_v y then entry_from l (pte2pa y) va w else 0) ≡ entry_from l (pte2pa x) va w)
      (sym e) (λ z. rw z) (ap is_v e ∙ v)

pub entry_from-invalid :
    (l pt va : ℕ)
    → (w : ℕ → ℕ) → (x : ℕ) → w (pt + 8 * px (suc l) va) ≡ x
    → is_v x ≡ false
    → entry_from (suc l) pt va w ≡ 0
unfolding entry_from
entry_from-invalid l pt va w x e v =
    let z : is_v (w (pt + 8 * px (suc l) va)) ≡ false = ap is_v e ∙ v in rw (z, entry_from)

-- A store to an entry of level 0 changes the translation of the addresses of its page, and no other.
pub entry_from-set :
    (root : ℕ)
    → (g : Tags) → (va va' q x l pt : ℕ) → (w : ℕ → ℕ) → Tree root g w
    → l ≤ 2
    → g pt ≡ some (l, prefix l va')
    → g q ≡ some (0, prefix 0 va)
    → va / 4096 ≢ va' / 4096
    → entry_from l pt va' (update w (q + 8 * px 0 va) x) ≡ entry_from l pt va' w
unfolding entry_from
entry_from-set root g va va' q x zero pt w t le e f ne =
    update_ne w (q + 8 * px 0 va) (pt + 8 * px 0 va') x (
      entries_apart q pt (px 0 va) (px 0 va') (t.aligned q 0 (prefix 0 va) f)
        (t.aligned pt 0 (prefix 0 va') e) (px_bound 0 va) (px_bound 0 va')
        (elim (ℕ_discrete q pt) [
          | yes same ↦ inr (λ z. ne (
              let v : va / 2 ^ 21 ≡ va' / 2 ^ 21 =
                tag_prefix g pt 0 (prefix 0 va) 0 (prefix 0 va')
                  (subst (λ y. g y ≡ some (0, prefix 0 va)) same f) e in
              omega arith))
          | no other ↦ inl other
        ]))
entry_from-set root g va va' q x (suc l) pt w t le e f ne =
    let at = pt + 8 * px (suc l) va' in
    let keep : update w (q + 8 * px 0 va) x at ≡ w at = update_ne w (q + 8 * px 0 va) at x (
      entries_apart q pt (px 0 va) (px (suc l) va') (t.aligned q 0 (prefix 0 va) f)
        (t.aligned pt (suc l) (prefix (suc l) va') e) (px_bound 0 va) (px_bound (suc l) va')
        (inl (λ z. omega (
          arith,
          tag_level g pt 0 (prefix 0 va) (suc l) (prefix (suc l) va')
              (subst (λ y. g y ≡ some (0, prefix 0 va)) z f) e,
        )))) in
    elim (Bool-cases (is_v (w at))) [
      | inr invalid ↦
          entry_from-invalid l pt va' (update w (q + 8 * px 0 va) x) (w at) keep invalid
          ∙ sym (entry_from-invalid l pt va' w (w at) refl invalid)
      | inl valid ↦
          let tag : g (pte2pa (w at)) ≡ some (l, prefix l va') =
            t.child pt l (prefix (suc l) va') (px (suc l) va') e (px_bound (suc l) va') valid
            ∙ ap (λ v. some (l, v)) (sym (prefix-suc l va' (omega arith))) in
          entry_from-valid l pt va' (update w (q + 8 * px 0 va) x) (w at) keep valid
          ∙ entry_from-set root g va va' q x l (pte2pa (w at)) w t (omega arith) tag f ne
          ∙ sym (entry_from-valid l pt va' w (w at) refl valid)
    ]
