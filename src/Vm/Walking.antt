-- ===== src/Vm/Walking.antt =====
-- walk with allocation: it changes no translation, and finds what a walk without allocation finds then.
use mathlib.Core.Path.{subst}
use os_proc_lap02_system_cal.Prelude.{
  ℕ, zero, suc, ◌+◌, ◌*◌, ◌≤◌, ◌<◌, ◌≡◌, ◌≢◌, ◌⊎◌, inl, inr, refl, sym, ap, ◌∙◌, Bool, true, false,
  none, some, List, [], ◌∷◌, arith, ◌==◌, Bool-cases, update, update_ne, All, NotIn,
}
use os_proc_lap02_system_cal.Kalloc.{Kmem, kalloc}
use os_proc_lap02_system_cal.Kalloc.FreeList.{IsPage, FreeList}
use os_proc_lap02_system_cal.Kalloc.Correct.{kalloc-pop, kalloc-eq-zero}
use os_proc_lap02_system_cal.Vm.{
  Phys, px, pte2pa, pa2pte, is_v, zero_page, with_kmem, set_pte, walk_down,
}
use os_proc_lap02_system_cal.Vm.Tree.{Tags, Tree, prefix, prefix-suc, entry_from, px_bound}
use os_proc_lap02_system_cal.Vm.Attach.{
  attached, attached-Tree, attached-same, new_tags-old, new_tags-page, word-kept, word_at,
  pte2pa-pa2pte, pa2pte-is_v,
}

-- What kalloc gives: nothing, or the first of the free pages.
data Given (ke : ℕ) (s : Kmem) (ps : List ℕ) : Type 0 where
  nothing : ps ≡ [] → (kalloc s).0 ≡ 0 → (kalloc s).1 ≡ s → Given ke s ps
  given :
      (rest : List ℕ)
      → ps ≡ (kalloc s).0 ∷ rest
      → IsPage ke (kalloc s).0
      → FreeList ke (kalloc s).1 rest
      → NotIn (kalloc s).0 rest
      → Given ke s ps

kalloc-Given : (ke : ℕ) → (s : Kmem) → (ps : List ℕ) → 0 < ke → FreeList ke s ps → Given ke s ps
kalloc-Given ke s [] pos f =
    let h = kalloc-eq-zero ke s [] pos f in nothing refl (h.0.1 refl) (h.1 refl)
kalloc-Given ke s (p ∷ ps) pos f =
    let (e, rest, out) = kalloc-pop ke p s ps pos f in
    given ps (ap (λ q. q ∷ ps) (sym e)) (subst (IsPage ke) (sym e) f.pages.0) rest
      (subst (λ q. NotIn q ps) (sym e) out)

-- No free page is a table.
abbrev pub Untagged : Tags → List ℕ → Type 0
Untagged g ps = All (λ p. g p ≡ none) ps

Untagged-update :
    (g : Tags)
    → (page : ℕ) → (u : ℕ × ℕ) → (ps : List ℕ) → NotIn page ps
    → Untagged g ps
    → Untagged (update g page (some u)) ps
Untagged-update g page u [] out h = tt
Untagged-update g page u (p ∷ ps) out h =
    (update_ne g page p (some u) out.0 ∙ h.0, Untagged-update g page u ps out.1 h.1)

pub record Walked (ke root : ℕ) (g : Tags) (va l pt : ℕ) (m : Phys) (a : ℕ) (m1 : Phys)
    : Type 0 where
  pub tags : Tags
  pub rest : List ℕ
  pub tree : Tree root tags m1.words
  pub more : (p : ℕ) → (u : ℕ × ℕ) → g p ≡ some u → tags p ≡ some u
  pub free : FreeList ke m1.kmem rest
  pub untagged : Untagged tags rest
  pub same :
      (k p u va' : ℕ) → g p ≡ some (k, u) → entry_from k p va' m1.words ≡ entry_from k p va' m.words
  pub kept :
      (p k u j : ℕ)
      → g p ≡ some (suc k, u)
      → j < 512
      → is_v (m.words (p + 8 * j)) ≡ true
      → m1.words (p + 8 * j) ≡ m.words (p + 8 * j)
  pub found :
      ((a ≡ 0) × (rest ≡ []))
      ⊎ ((q : ℕ) × (tags q ≡ some (0, prefix 0 va))
          × (a ≡ q + 8 * px 0 va)
          × (walk_down l pt va false m1 ≡ (a, m1)))

walk_down-valid :
    (l pt va : ℕ)
    → (alloc : Bool) → (m : Phys) → is_v (m.words (pt + 8 * px (suc l) va)) ≡ true
    → walk_down (suc l) pt va alloc m
      ≡ walk_down l (pte2pa (m.words (pt + 8 * px (suc l) va))) va alloc m
unfolding walk_down
walk_down-valid l pt va alloc m v = rw (v, walk_down)

walk_down-full :
    (l pt va : ℕ)
    → (m : Phys) → is_v (m.words (pt + 8 * px (suc l) va)) ≡ false
    → (kalloc m.kmem).0 ≡ 0
    → walk_down (suc l) pt va true m ≡ (0, with_kmem m (kalloc m.kmem).1)
unfolding walk_down
walk_down-full l pt va m v z =
    let e : ((kalloc m.kmem).0 == 0) ≡ true = ground arith in rw (v, e, walk_down)

walk_down-new :
    (l pt va : ℕ)
    → (m : Phys) → is_v (m.words (pt + 8 * px (suc l) va)) ≡ false
    → (kalloc m.kmem).0 ≢ 0
    → walk_down (suc l) pt va true m
      ≡ walk_down l (kalloc m.kmem).0 va true (
          set_pte
            (pt + 8 * px (suc l) va)
            (pa2pte (kalloc m.kmem).0 + 1)
            (zero_page (kalloc m.kmem).0 (with_kmem m (kalloc m.kmem).1)))
unfolding walk_down
walk_down-new l pt va m v z =
    let e : ((kalloc m.kmem).0 == 0) ≡ false = ground arith in rw (v, e, walk_down)

given_ne : (ke : ℕ) → (s : Kmem) → 0 < ke → IsPage ke (kalloc s).0 → (kalloc s).0 ≢ 0
given_ne ke s pos page z = omega (arith, page.above)

module _ (ke root : ℕ) (pos : 0 < ke) where
  through :
      (g : Tags)
      → (va l pt : ℕ) → (m : Phys) → (a : ℕ) → (m1 : Phys) → g pt ≡ some (suc l, prefix (suc l) va)
      → is_v (m.words (pt + 8 * px (suc l) va)) ≡ true
      → Walked ke root g va l (pte2pa (m.words (pt + 8 * px (suc l) va))) m a m1
      → Walked ke root g va (suc l) pt m a m1
  through g va l pt m a m1 e valid h =
      let keep = h.kept pt l (prefix (suc l) va) (px (suc l) va) e (px_bound (suc l) va) valid in
      record {
        tags = h.tags;
        rest = h.rest;
        tree = h.tree;
        more = h.more;
        free = h.free;
        untagged = h.untagged;
        same = h.same;
        kept = h.kept;
        found = elim h.found [
          | inl z ↦ inl z
          | inr (q, tag, at, w) ↦ inr (
            q,
            tag,
            at,
            walk_down-valid l pt va false m1 (ap is_v keep ∙ valid)
                ∙ ap (λ y. walk_down l (pte2pa y) va false m1) keep
                ∙ w,
          )
        ];
      }

  beyond :
      (g : Tags)
      → (va l pt : ℕ) → (m : Phys) → (t : Tree root g m.words)
      → (e : g pt ≡ some (suc l, prefix (suc l) va))
      → (invalid : is_v (m.words (pt + 8 * px (suc l) va)) ≡ false)
      → (new : g (kalloc m.kmem).0 ≡ none) → IsPage ke (kalloc m.kmem).0
      → (a : ℕ) → (m1 : Phys)
      → Walked ke root
          (update g (kalloc m.kmem).0 (some (l, prefix (suc l) va * 512 + px (suc l) va)))
          va
          l
          (kalloc m.kmem).0
          (set_pte
            (pt + 8 * px (suc l) va)
            (pa2pte (kalloc m.kmem).0 + 1)
            (zero_page (kalloc m.kmem).0 (with_kmem m (kalloc m.kmem).1)))
          a
          m1
      → Walked ke root g va (suc l) pt m a m1
  beyond g va l pt m t e invalid new page a m1 h =
      let pg = (kalloc m.kmem).0 in
      let v = prefix (suc l) va in
      let i = px (suc l) va in
      let lt = px_bound (suc l) va in
      let old =
        new_tags-old root g m.words t pt l v i pg e lt invalid new page.aligned
          (omega (arith, page.above)) (omega (arith, page.below)) in
      let at_word =
        word_at root g m.words t pt l v i pg e lt invalid new page.aligned
          (omega (arith, page.above)) (omega (arith, page.below)) in
      let at_valid : is_v (attached (pt + 8 * i) pg m.words (pt + 8 * i)) ≡ true =
        ap is_v at_word ∙ pa2pte-is_v pg in
      let at_kept = h.kept pt l v i (old pt (suc l, v) e) lt at_valid in
      record {
        tags = h.tags;
        rest = h.rest;
        tree = h.tree;
        free = h.free;
        untagged = h.untagged;
        more = λ p u z. h.more p u (old p u z);
        same = λ k p u va' z.
            h.same k p u va' (old p (k, u) z)
            ∙ attached-same root g m.words t pt l v i pg e lt invalid new page.aligned
                (omega (arith, page.above)) (omega (arith, page.below)) k p u va' z;
        kept = λ p k u j z jlt valid.
            let keep =
              word-kept root g m.words t pt l v i pg e lt invalid new page.aligned
                (omega (arith, page.above)) (omega (arith, page.below)) p (suc k) u j z jlt valid in
            h.kept p k u j (old p (suc k, u) z) jlt (ap is_v keep ∙ valid) ∙ keep;
        found = elim h.found [
          | inl z ↦ inl z
          | inr (q, tag, at, w) ↦ inr (
            q,
            tag,
            at,
            walk_down-valid l pt va false m1 (ap is_v at_kept ∙ at_valid)
                ∙ ap (λ y. walk_down l (pte2pa y) va false m1) (at_kept ∙ at_word)
                ∙ ap (λ y. walk_down l y va false m1)
                    (pte2pa-pa2pte pg page.aligned (omega (arith, page.below)))
                ∙ w,
          )
        ];
      }

  pub walk_down-Walked :
      (g : Tags)
      → (va l pt : ℕ) → (m : Phys) → (ps : List ℕ) → Tree root g m.words
      → FreeList ke m.kmem ps
      → Untagged g ps
      → l ≤ 2
      → g pt ≡ some (l, prefix l va)
      → Walked ke root g va l pt m (walk_down l pt va true m).0 (walk_down l pt va true m).1
  unfolding walk_down
  walk_down-Walked g va zero pt m ps t f un le e = record {
    tags = g;
    rest = ps;
    tree = t;
    more = λ p u h. h;
    free = f;
    untagged = un;
    same = λ k p u va' h. refl;
    kept = λ p k u j h lt v. refl;
    found = inr (pt, e, refl, refl);
  }
  walk_down-Walked g va (suc l) pt m ps t f un le e =
      elim (Bool-cases (is_v (m.words (pt + 8 * px (suc l) va)))) [
        | inl valid ↦
            let next = pte2pa (m.words (pt + 8 * px (suc l) va)) in
            let tag : g next ≡ some (l, prefix l va) =
              t.child pt l (prefix (suc l) va) (px (suc l) va) e (px_bound (suc l) va) valid
              ∙ ap (λ v. some (l, v)) (sym (prefix-suc l va (omega arith))) in
            rw (walk_down-valid l pt va true m valid) (
              through g va l pt m _ _ e valid
                (walk_down-Walked g va l next m ps t f un (omega arith) tag))
        | inr invalid ↦ elim (kalloc-Given ke m.kmem ps pos f) [
          | nothing empty z same_k ↦ rw (walk_down-full l pt va m invalid z) (record {
            tags = g;
            rest = ps;
            tree = t;
            more = λ p u h. h;
            free = subst (λ k. FreeList ke k ps) (sym same_k) f;
            untagged = un;
            same = λ k p u va' h. refl;
            kept = λ p k u j h lt v. refl;
            found = inl (refl, empty);
          })
          | given rest split page free out ↦
              let new : g (kalloc m.kmem).0 ≡ none = (subst (Untagged g) split un).0 in
              let un' : Untagged g rest = (subst (Untagged g) split un).1 in
              rw (walk_down-new l pt va m invalid (given_ne ke m.kmem pos page)) (
                beyond g va l pt m t e invalid new page _ _ (
                  walk_down-Walked
                    (update g (kalloc m.kmem).0 (some (l, prefix (suc l) va * 512 + px (suc l) va)))
                    va l (kalloc m.kmem).0
                    (set_pte (pt + 8 * px (suc l) va) (pa2pte (kalloc m.kmem).0 + 1)
                      (zero_page (kalloc m.kmem).0 (with_kmem m (kalloc m.kmem).1)))
                    rest
                    (attached-Tree root g m.words t pt l (prefix (suc l) va) (px (suc l) va)
                      (kalloc m.kmem).0 e (px_bound (suc l) va) invalid new page.aligned
                      (omega (arith, page.above)) (omega (arith, page.below)))
                    free
                    (Untagged-update g (kalloc m.kmem).0
                      (l, prefix (suc l) va * 512 + px (suc l) va) rest out un')
                    (omega arith)
                    (new_tags-page root g m.words t pt l (prefix (suc l) va) (px (suc l) va)
                        (kalloc m.kmem).0 e (px_bound (suc l) va) invalid new page.aligned
                        (omega (arith, page.above)) (omega (arith, page.below))
                      ∙ ap (λ v. some (l, v)) (sym (prefix-suc l va (omega arith))))))
        ]
      ]
