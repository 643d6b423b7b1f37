-- ===== src/Vm/Attach.antt =====
-- What the store of walk does that attaches an empty table to a missing entry.
use mathlib.Core.Path.{subst}
use os_proc_lap02_system_cal.Prelude.{
  ℕ, zero, suc, ◌+◌, ◌*◌, ◌%◌, ◌^◌, ◌≤◌, ◌<◌, ◌≡◌, ◌≢◌, ◌⊎◌, inl, inr, refl, sym, ap, ◌∙◌, true,
  false, none, some, arith, dec_lt, ℕ_discrete, Bool-cases, update, update_self, update_ne,
}
use os_proc_lap02_system_cal.Vm.{px, pte2pa, pa2pte, is_v, zeroed}
use os_proc_lap02_system_cal.Vm.Tree.{
  Tags, Tree, entry_from, entry_from-valid, entry_from-invalid, px_bound, entries_apart, tag_level,
  tag_prefix,
}

abbrev pub attached : ℕ → ℕ → (ℕ → ℕ) → ℕ → ℕ
attached at page w = update (zeroed page w) at (pa2pte page + 1)

zeroed-outside : (page a : ℕ) → (w : ℕ → ℕ) → (a < page) ⊎ (page + 4096 ≤ a) → zeroed page w a ≡ w a
zeroed-outside page a w (inl lo) = ground arith
zeroed-outside page a w (inr hi) = ground arith

zeroed-inside : (page a : ℕ) → (w : ℕ → ℕ) → page ≤ a → a < page + 4096 → zeroed page w a ≡ 0
zeroed-inside page a w lo hi = ground arith

pages_apart :
    (p q j : ℕ)
    → p % 4096 ≡ 0
    → q % 4096 ≡ 0
    → j < 512
    → p ≢ q
    → (p + 8 * j < q) ⊎ (q + 4096 ≤ p + 8 * j)
pages_apart p q j hp hq lt ne = elim (dec_lt p q) [
  | yes lo ↦ inl (omega arith)
  | no hi ↦ inr (omega arith)
]

pub pte2pa-pa2pte : (page : ℕ) → page % 4096 ≡ 0 → page < 2 ^ 56 → pte2pa (pa2pte page + 1) ≡ page
pte2pa-pa2pte page al lt = omega arith

pub pa2pte-is_v : (page : ℕ) → is_v (pa2pte page + 1) ≡ true
pa2pte-is_v page = ground arith

-- A table of level `l` + 1 at `pt`, its missing entry `i`, and a page that is no table.
module _ (root : ℕ) (g : Tags) (w : ℕ → ℕ) (t : Tree root g w) (pt l v i page : ℕ)
    (tag : g pt ≡ some (suc l, v)) (lt : i < 512) (invalid : is_v (w (pt + 8 * i)) ≡ false)
    (new : g page ≡ none) (al : page % 4096 ≡ 0) (pos : 0 < page) (small : page < 2 ^ 56) where
  abbrev pub new_tags : Tags
  new_tags = update g page (some (l, v * 512 + i))

  tagged-ne : (p : ℕ) → (u : ℕ × ℕ) → g p ≡ some u → page ≢ p
  tagged-ne p u e z = cc (e, new, ap g z)

  pub new_tags-old : (p : ℕ) → (u : ℕ × ℕ) → g p ≡ some u → new_tags p ≡ some u
  new_tags-old p u e = update_ne g page p (some (l, v * 512 + i)) (tagged-ne p u e) ∙ e

  pub new_tags-page : new_tags page ≡ some (l, v * 512 + i)
  new_tags-page = update_self g page (some (l, v * 512 + i))

  word_other :
      (p k u j : ℕ)
      → g p ≡ some (k, u)
      → j < 512
      → (pt ≢ p) ⊎ (i ≢ j)
      → attached (pt + 8 * i) page w (p + 8 * j) ≡ w (p + 8 * j)
  word_other p k u j e jlt apart =
      update_ne (zeroed page w) (pt + 8 * i) (p + 8 * j) (pa2pte page + 1)
        (entries_apart pt p i j (t.aligned pt (suc l) v tag) (t.aligned p k u e) lt jlt apart)
      ∙ zeroed-outside page (p + 8 * j) w
          (pages_apart p page j (t.aligned p k u e) al jlt (λ z. tagged-ne p (k, u) e (sym z)))

  pub word_at : attached (pt + 8 * i) page w (pt + 8 * i) ≡ pa2pte page + 1
  word_at = update_self (zeroed page w) (pt + 8 * i) (pa2pte page + 1)

  word_page : (j : ℕ) → j < 512 → attached (pt + 8 * i) page w (page + 8 * j) ≡ 0
  word_page j jlt =
      update_ne (zeroed page w) (pt + 8 * i) (page + 8 * j) (pa2pte page + 1) (
        entries_apart pt page i j (t.aligned pt (suc l) v tag) al lt jlt
          (inl (λ z. tagged-ne pt (suc l, v) tag (sym z))))
      ∙ zeroed-inside page (page + 8 * j) w (omega arith) (omega arith)

  -- Entries that were valid are as before.
  pub word-kept :
      (p k u j : ℕ)
      → g p ≡ some (k, u)
      → j < 512
      → is_v (w (p + 8 * j)) ≡ true
      → attached (pt + 8 * i) page w (p + 8 * j) ≡ w (p + 8 * j)
  word-kept p k u j e jlt valid = elim (ℕ_discrete pt p) [
    | no ne ↦ word_other p k u j e jlt (inl ne)
    | yes same ↦ elim (ℕ_discrete i j) [
      | no ne ↦ word_other p k u j e jlt (inr ne)
      | yes z ↦
          let a : pt + 8 * i ≡ p + 8 * j = omega arith in
          cc (invalid, valid, ap (λ y. is_v (w y)) a)
    ]
  ]

  child_other :
      (p k u j : ℕ)
      → g p ≡ some (suc k, u)
      → j < 512
      → (pt ≢ p) ⊎ (i ≢ j)
      → is_v (attached (pt + 8 * i) page w (p + 8 * j)) ≡ true
      → new_tags (pte2pa (attached (pt + 8 * i) page w (p + 8 * j))) ≡ some (k, u * 512 + j)
  child_other p k u j e jlt far valid =
      let same = word_other p (suc k) u j e jlt far in
      ap (λ y. new_tags (pte2pa y)) same
      ∙ new_tags-old (pte2pa (w (p + 8 * j))) (k, u * 512 + j)
          (t.child p k u j e jlt (ap is_v (sym same) ∙ valid))

  at_page : new_tags (pte2pa (attached (pt + 8 * i) page w (pt + 8 * i))) ≡ some (l, v * 512 + i)
  at_page =
      ap (λ y. new_tags (pte2pa y)) word_at
      ∙ ap new_tags (pte2pa-pa2pte page al small)
      ∙ new_tags-page

  child_at :
      (p k u j : ℕ)
      → g p ≡ some (suc k, u)
      → pt ≡ p
      → i ≡ j
      → new_tags (pte2pa (attached (pt + 8 * i) page w (p + 8 * j))) ≡ some (k, u * 512 + j)
  child_at p k u j e same z =
      let tag' : g p ≡ some (suc l, v) = subst (λ y. g y ≡ some (suc l, v)) same tag in
      let levels = tag_level g p (suc l) v (suc k) u tag' e in
      let lk : l ≡ k = omega arith in
      let vu : v ≡ u = tag_prefix g p (suc l) v (suc k) u tag' e in
      let here : p + 8 * j ≡ pt + 8 * i = omega arith in
      let last : v * 512 + i ≡ u * 512 + j = omega arith in
      ap (λ y. new_tags (pte2pa (attached (pt + 8 * i) page w y))) here
      ∙ at_page
      ∙ ap (λ n. some (n, v * 512 + i)) lk
      ∙ ap (λ n. some (k, n)) last

  pub attached-Tree : Tree root new_tags (attached (pt + 8 * i) page w)
  attached-Tree = record {
    root_tag = new_tags-old root (2, 0) t.root_tag;
    aligned = λ p k u e. elim (ℕ_discrete page p) [
      | yes z ↦ subst (λ y. y % 4096 ≡ 0) z al
      | no ne ↦ t.aligned p k u (sym (update_ne g page p (some (l, v * 512 + i)) ne) ∙ e)
    ];
    positive = λ p k u e. elim (ℕ_discrete page p) [
      | yes z ↦ subst (λ y. 0 < y) z pos
      | no ne ↦ t.positive p k u (sym (update_ne g page p (some (l, v * 512 + i)) ne) ∙ e)
    ];
    child = λ p k u j e jlt valid. elim (ℕ_discrete page p) [
      | yes z ↦ cc (
        valid,
        ap is_v (ap (λ y. attached (pt + 8 * i) page w (y + 8 * j)) (sym z) ∙ word_page j jlt),
      )
      | no ne ↦
          let old : g p ≡ some (suc k, u) =
            sym (update_ne g page p (some (l, v * 512 + i)) ne) ∙ e in
          elim (ℕ_discrete pt p) [
            | no far ↦ child_other p k u j old jlt (inl far) valid
            | yes same ↦ elim (ℕ_discrete i j) [
              | no far ↦ child_other p k u j old jlt (inr far) valid
              | yes z ↦ child_at p k u j old same z
            ]
          ]
    ];
  }

  entry_page : (k va : ℕ) → entry_from k page va (attached (pt + 8 * i) page w) ≡ 0
  unfolding entry_from
  entry_page zero va = word_page (px 0 va) (px_bound 0 va)
  entry_page (suc k) va =
      entry_from-invalid k page va (attached (pt + 8 * i) page w) 0
        (word_page (px (suc k) va) (px_bound (suc k) va)) refl

  same_at :
      (k p u va : ℕ)
      → g p ≡ some (suc k, u)
      → pt ≡ p
      → i ≡ px (suc k) va
      → entry_from (suc k) p va (attached (pt + 8 * i) page w) ≡ entry_from (suc k) p va w
  same_at k p u va e same z =
      let here : p + 8 * px (suc k) va ≡ pt + 8 * i = omega arith in
      entry_from-valid k p va (attached (pt + 8 * i) page w) (pa2pte page + 1)
        (ap (attached (pt + 8 * i) page w) here ∙ word_at) (pa2pte-is_v page)
      ∙ ap (λ q. entry_from k q va (attached (pt + 8 * i) page w)) (pte2pa-pa2pte page al small)
      ∙ entry_page k va
      ∙ sym (entry_from-invalid k p va w (w (pt + 8 * i)) (ap w here) invalid)

  same_other :
      (k p u va : ℕ)
      → g p ≡ some (suc k, u)
      → (pt ≢ p) ⊎ (i ≢ px (suc k) va)
      → ((q x : ℕ)
          → g q ≡ some (k, x)
          → entry_from k q va (attached (pt + 8 * i) page w) ≡ entry_from k q va w)
      → entry_from (suc k) p va (attached (pt + 8 * i) page w) ≡ entry_from (suc k) p va w
  same_other k p u va e far below =
      let keep = word_other p (suc k) u (px (suc k) va) e (px_bound (suc k) va) far in
      let old = w (p + 8 * px (suc k) va) in
      elim (Bool-cases (is_v old)) [
        | inr no_table ↦
            entry_from-invalid k p va (attached (pt + 8 * i) page w) old keep no_table
            ∙ sym (entry_from-invalid k p va w old refl no_table)
        | inl valid ↦
            entry_from-valid k p va (attached (pt + 8 * i) page w) old keep valid
            ∙ below (pte2pa old) (u * 512 + px (suc k) va)
                (t.child p k u (px (suc k) va) e (px_bound (suc k) va) valid)
            ∙ sym (entry_from-valid k p va w old refl valid)
      ]

  -- No translation changes.
  pub attached-same :
      (k p u va : ℕ)
      → g p ≡ some (k, u)
      → entry_from k p va (attached (pt + 8 * i) page w) ≡ entry_from k p va w
  unfolding entry_from
  attached-same zero p u va e = word_other p 0 u (px 0 va) e (px_bound 0 va) (
      inl (λ z.
        omega (arith, tag_level g p (suc l) v 0 u (subst (λ y. g y ≡ some (suc l, v)) z tag) e)))
  attached-same (suc k) p u va e = elim (ℕ_discrete pt p) [
    | no far ↦ same_other k p u va e (inl far) (λ q x f. attached-same k q x va f)
    | yes same ↦ elim (ℕ_discrete i (px (suc k) va)) [
      | no far ↦ same_other k p u va e (inr far) (λ q x f. attached-same k q x va f)
      | yes z ↦ same_at k p u va e same z
    ]
  ]
