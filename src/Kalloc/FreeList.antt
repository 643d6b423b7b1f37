-- ===== src/Kalloc/FreeList.antt =====
-- The free list of kernel/kalloc.c as the list of the pages that it runs through.
use os_proc_lap02_system_cal.Prelude.{
  ℕ, ◌-◌, ◌/◌, ◌%◌, ◌≤◌, ◌<◌, ◌≡◌, sym, List, [], ◌∷◌, arith, map, length, length-map, update, All,
  NotIn, Distinct,
}
use mathlib.Core.Path.{subst}
use os_proc_lap02_system_cal.Prelude.Counting.{length-le_of_Distinct}
use os_proc_lap02_system_cal.Layout.{pg_size, kern_base, phys_top}
use os_proc_lap02_system_cal.Kalloc.{Kmem}

-- From `p` the words of memory lead through exactly the pages `ps` to the null pointer.
abbrev pub Chain : (ℕ → ℕ) → ℕ → List ℕ → Type 0
Chain next p [] = p ≡ 0
Chain next p (q ∷ ps) = (p ≡ q) × Chain next (next q) ps

-- A page that `kfree` accepts, above the kernel's image.
pub record IsPage (kernel_end : ℕ) (p : ℕ) : Type 0 where
  pub aligned : p % pg_size ≡ 0
  pub above : kernel_end ≤ p
  pub below : p < phys_top

-- The state's free pages are `ps`, most recently freed first.
pub record FreeList (kernel_end : ℕ) (s : Kmem) (ps : List ℕ) : Type 0 where
  pub chain : Chain s.next s.freelist ps
  pub pages : All (IsPage kernel_end) ps
  pub distinct : Distinct ps

-- A store outside the list leaves it as it is.
pub Chain-update :
    (next : ℕ → ℕ) (p a v : ℕ) (ps : List ℕ)
    → NotIn a ps
    → Chain next p ps
    → Chain (update next a v) p ps
Chain-update next p a v [] h c = c
Chain-update next p a v (q ∷ ps) h c =
    let e : update next a v q ≡ next q = ground arith in
    (
      c.0,
      subst (λ r. Chain (update next a v) r ps) (sym e) (Chain-update next (next q) a v ps h.1 c.1),
    )

frames : List ℕ → List ℕ
frames = map (λ p. (p - kern_base) / pg_size)

frames-NotIn :
    (kernel_end p : ℕ) (ps : List ℕ)
    → kern_base ≤ kernel_end
    → IsPage kernel_end p
    → All (IsPage kernel_end) ps
    → NotIn p ps
    → NotIn ((p - kern_base) / pg_size) (frames ps)
unfolding frames
frames-NotIn e p [] k h hs n = tt
frames-NotIn e p (q ∷ ps) k h hs n = (omega arith, frames-NotIn e p ps k h hs.1 n.1)

frames-Distinct :
    (kernel_end : ℕ) (ps : List ℕ)
    → kern_base ≤ kernel_end
    → All (IsPage kernel_end) ps
    → Distinct ps
    → Distinct (frames ps)
unfolding frames
frames-Distinct e [] k hs d = tt
frames-Distinct e (p ∷ ps) k hs d =
    (frames-NotIn e p ps k hs.0 hs.1 d.0, frames-Distinct e ps k hs.1 d.1)

frames-below :
    (kernel_end : ℕ) (ps : List ℕ)
    → kern_base ≤ kernel_end
    → All (IsPage kernel_end) ps
    → All (λ f. f < 32768) (frames ps)
unfolding frames
frames-below e [] k hs = tt
frames-below e (p ∷ ps) k hs = (omega arith, frames-below e ps k hs.1)

-- RAM has 32768 pages, so no free list is longer.
pub length-le_pages :
    (kernel_end : ℕ) (s : Kmem) (ps : List ℕ)
    → kern_base ≤ kernel_end
    → FreeList kernel_end s ps
    → length ps ≤ 32768
unfolding frames
length-le_pages e s ps k f = omega (
  arith,
  length-le_of_Distinct 32768 (frames ps) (frames-below e ps k f.pages)
      (frames-Distinct e ps k f.pages f.distinct),
  length-map {0, 0} ps (λ p. (p - kern_base) / pg_size),
)
