-- ===== src/Fs/Bitmap.antt =====
-- The bitmap of free blocks: balloc and bfree.
use mathlib.Core.Path.{subst}
use os_proc_lap02_system_cal.Prelude.{
  ℕ, zero, suc, ◌+◌, ◌-◌, ◌*◌, ◌/◌, ◌%◌, ◌≤◌, ◌<◌, ◌≡◌, ◌≢◌, ◌⊎◌, inl, inr, refl, sym, ap, ◌∙◌,
  Bool, true, false, Option, none, some, ◌∷◌, arith, dec_lt, ℕ_discrete, ltb, ◌==◌, if◌then◌else◌,
  Bool-cases, update, update_self,
}
use os_proc_lap02_system_cal.Layout.{b_size}
use os_proc_lap02_system_cal.Fs.{
  Fs, bit, set_bit, clear_bit, bpb, bblock, find_clear, mark_block, balloc_from, balloc, bfree,
  bzero, put_block, log_call,
}
use os_proc_lap02_system_cal.Fs.Bits.{bit-set_self, bit-set_ne, bit-clear_self, bit-clear_ne}

-- The bit of a block: whether it is in use.
abbrev pub used : ℕ → ℕ → Fs → Bool
used dev b s = bit (s.disk dev (bblock b s)) (b % bpb)

disk-put :
    (dev b c : ℕ)
    → (d : ℕ → ℕ) → (s : Fs)
    → (put_block dev b d s).disk dev c ≡ (if b == c then d else s.disk dev c)
disk-put dev b c d s = ap (λ f. f c) (update_self s.disk dev (update (s.disk dev) b d))

disk-put_ne :
    (dev b c : ℕ) → (d : ℕ → ℕ) → (s : Fs) → b ≢ c → (put_block dev b d s).disk dev c ≡ s.disk dev c
disk-put_ne dev b c d s ne =
    disk-put dev b c d s ∙ (let z : (b == c) ≡ false = ground arith in rw z refl)

pub disk-put_self : (dev b : ℕ) → (d : ℕ → ℕ) → (s : Fs) → (put_block dev b d s).disk dev b ≡ d
disk-put_self dev b d s =
    disk-put dev b b d s ∙ (let z : (b == b) ≡ true = ground arith in rw z refl)

-- A block's bit after another bitmap block has been stored, or its own.
used-put :
    (dev b c : ℕ)
    → (d : ℕ → ℕ) → (v : Bool) → (s : Fs)
    → (b % bpb ≢ c % bpb → bit d (c % bpb) ≡ bit (s.disk dev (bblock b s)) (c % bpb))
    → bit d (b % bpb) ≡ v
    → used dev c (put_block dev (bblock b s) d s) ≡ (if b == c then v else used dev c s)
used-put dev b c d v s other self = elim (ℕ_discrete b c) [
  | yes e ↦
      let z : (b == c) ≡ true = ground arith in
      rw z (
        ap (λ k. used dev k (put_block dev (bblock b s) d s)) (sym e)
        ∙ ap (λ f. bit f (b % bpb)) (disk-put_self dev (bblock b s) d s)
        ∙ self)
  | no ne ↦
      let z : (b == c) ≡ false = ground arith in
      rw z (elim (ℕ_discrete (bblock b s) (bblock c s)) [
        | no far ↦ ap (λ f. bit f (c % bpb)) (disk-put_ne dev (bblock b s) (bblock c s) d s far)
        | yes same ↦
            ap (λ k. bit ((put_block dev (bblock b s) d s).disk dev k) (c % bpb)) (sym same)
            ∙ ap (λ f. bit f (c % bpb)) (disk-put_self dev (bblock b s) d s)
            ∙ other (λ w. ne (omega arith))
            ∙ ap (λ k. bit (s.disk dev k) (c % bpb)) same
      ])
]

-- What becomes of the file system when block `b` is taken: it is zeroed, its bit and no other is set, other blocks
-- are as before, and the two blocks are logged.
pub record Taken (dev b : ℕ) (s t : Fs) : Type 0 where
  pub in_disk : b < s.sb.size
  pub was_free : used dev b s ≡ false
  pub zeroed : (i : ℕ) → i < b_size → t.disk dev b i ≡ 0
  pub bits : (c : ℕ) → c < s.sb.size → used dev c t ≡ (if b == c then true else used dev c s)
  pub others : (c : ℕ) → c ≢ b → c ≢ bblock b s → t.disk dev c ≡ s.disk dev c
  pub log : t.logged ≡ b ∷ bblock b s ∷ s.logged
  pub itable : t.itable ≡ s.itable
  pub sb : t.sb ≡ s.sb

-- Bitmap blocks are themselves in use.
abbrev pub Reserved : ℕ → Fs → Type 0
Reserved dev s = (c : ℕ) → c < s.sb.size → used dev (bblock c s) s ≡ true

pub mark_block-Taken :
    (dev b bi : ℕ)
    → (s : Fs) → Reserved dev s
    → b % bpb ≡ 0
    → bi < bpb
    → b + bi < s.sb.size
    → bit (s.disk dev (bblock b s)) bi ≡ false
    → Taken dev (b + bi) s (mark_block dev b bi s)
unfolding mark_block bzero
mark_block-Taken dev b bi s reserved al lt size clear =
    let blk = b + bi in
    let at : bblock b s ≡ bblock blk s = omega arith in
    let off : bi ≡ blk % bpb = omega arith in
    let free : used dev blk s ≡ false =
      ap (λ k. bit (s.disk dev k) (blk % bpb)) (sym at)
      ∙ ap (bit (s.disk dev (bblock b s))) (sym off)
      ∙ clear in
    let d = set_bit (s.disk dev (bblock b s)) bi in
    let s1 = log_call (bblock b s) (put_block dev (bblock b s) d s) in
    let z : ℕ → ℕ = λ i. if ltb i b_size then 0 else s1.disk dev blk i in
    record {
      in_disk = size;
      was_free = free;
      zeroed = λ i ilt.
          ap (λ f. f i) (disk-put_self dev blk z s1)
          ∙ (let h : ltb i b_size ≡ true = ground arith in rw h refl);
      bits = λ c clt.
          let apart : blk ≢ bblock c s = λ e. cc (free, reserved c clt, ap (λ k. used dev k s) e) in
          ap (λ f. bit f (c % bpb)) (disk-put_ne dev blk (bblock c s) z s1 apart)
          ∙ ap (λ k. bit ((put_block dev k d s).disk dev (bblock c s)) (c % bpb)) at
          ∙ used-put dev blk c d true s
              (λ ne.
                bit-set_ne (s.disk dev (bblock b s)) bi (c % bpb) clear (λ e. ne (sym off ∙ e))
                ∙ ap (λ k. bit (s.disk dev k) (c % bpb)) at)
              (ap (bit d) (sym off) ∙ bit-set_self (s.disk dev (bblock b s)) bi clear);
      others = λ c nb nat.
          disk-put_ne dev blk c z s1 (λ e. nb (sym e))
          ∙ disk-put_ne dev (bblock b s) c d s (λ e. nat (sym e ∙ at));
      log = ap (λ k. blk ∷ k ∷ s.logged) at;
      itable = refl;
      sb = refl;
    }

-- The first clear bit, from `bi` on.
pub data Found (left bi b size : ℕ) (d : ℕ → ℕ) : Option ℕ → Type 0 where
  nowhere :
      ((k : ℕ) → bi ≤ k → k < bi + left → b + k < size → bit d k ≡ true)
      → Found left bi b size d none
  first :
      (k : ℕ)
      → bi ≤ k
      → k < bi + left
      → b + k < size
      → bit d k ≡ false
      → Found left bi b size d (some k)

Found-next :
    (left bi b size : ℕ)
    → (d : ℕ → ℕ) → (o : Option ℕ) → bit d bi ≡ true
    → Found left (bi + 1) b size d o
    → Found (suc left) bi b size d o
Found-next left bi b size d _ e (nowhere h) = nowhere (λ k lo hi lt. elim (ℕ_discrete bi k) [
  | yes z ↦ subst (λ j. bit d j ≡ true) z e
  | no ne ↦ h k (omega arith) (omega arith) lt
])
Found-next left bi b size d _ e (first k lo hi lt clear) =
    first k (omega arith) (omega arith) lt clear

pub find_clear-Found :
    (left bi b size : ℕ) → (d : ℕ → ℕ) → Found left bi b size d (find_clear left bi b size d)
unfolding find_clear
find_clear-Found zero bi b size d = nowhere (λ k lo hi lt. absurd (omega arith))
find_clear-Found (suc left) bi b size d = elim (Bool-cases (ltb (b + bi) size)) [
  | inr out ↦ rw (out, find_clear) (nowhere (λ k lo hi lt. absurd (ground arith)))
  | inl inside ↦ elim (Bool-cases (bit d bi)) [
    | inr clear ↦
        rw (inside, find_clear)
          (rw clear (first bi (omega arith) (omega arith) (ground arith) clear))
    | inl already ↦
        rw (inside, find_clear)
          (rw already
            (Found-next left bi b size d _ already (find_clear-Found left (bi + 1) b size d)))
  ]
]

-- What balloc gives: 0 where every block from `from` on is in use, or a block that it takes.
pub data Allocated (dev from : ℕ) (s : Fs) : ℕ × Fs → Type 0 where
  out : ((c : ℕ) → from ≤ c → c < s.sb.size → used dev c s ≡ true) → Allocated dev from s (0, s)
  took : (b : ℕ) → (t : Fs) → Taken dev b s t → Allocated dev from s (b, t)

pub balloc_from-some :
    (rounds b bi dev : ℕ)
    → (s : Fs) → find_clear bpb 0 b s.sb.size (s.disk dev (bblock b s)) ≡ some bi
    → balloc_from (suc rounds) b dev s ≡ (b + bi, mark_block dev b bi s)
unfolding balloc_from
balloc_from-some rounds b bi dev s e = rw (e, balloc_from) refl

pub balloc_from-none :
    (rounds b dev : ℕ)
    → (s : Fs) → find_clear bpb 0 b s.sb.size (s.disk dev (bblock b s)) ≡ none
    → balloc_from (suc rounds) b dev s ≡ balloc_from rounds (b + bpb) dev s
unfolding balloc_from
balloc_from-none rounds b dev s e = rw (e, balloc_from) refl

Allocated-earlier :
    (dev b : ℕ)
    → (s : Fs) → (r : ℕ × Fs) → ((k : ℕ) → k < bpb → b + k < s.sb.size → used dev (b + k) s ≡ true)
    → Allocated dev (b + bpb) s r
    → Allocated dev b s r
Allocated-earlier dev b s _ h (took c t k) = took c t k
Allocated-earlier dev b s _ h (out all) = out (λ c lo lt. elim (dec_lt c (b + bpb)) [
  | no ge ↦ all c (omega arith) lt
  | yes near ↦
      subst (λ j. used dev j s ≡ true) (let e : b + (c - b) ≡ c = omega arith in e)
        (h (c - b) (omega arith) (omega arith))
])

used-at :
    (dev b k : ℕ)
    → (s : Fs) → b % bpb ≡ 0
    → k < bpb
    → used dev (b + k) s ≡ bit (s.disk dev (bblock b s)) k
used-at dev b k s al lt =
    ap (λ j. bit (s.disk dev j) ((b + k) % bpb))
      (let e : bblock (b + k) s ≡ bblock b s = omega arith in e)
    ∙ ap (bit (s.disk dev (bblock b s))) (let e : (b + k) % bpb ≡ k = omega arith in e)

module _ (dev : ℕ) (s : Fs) (reserved : Reserved dev s) where
  round-Allocated :
      (rounds b : ℕ)
      → b % bpb ≡ 0
      → (o : Option ℕ) → find_clear bpb 0 b s.sb.size (s.disk dev (bblock b s)) ≡ o
      → Found bpb 0 b s.sb.size (s.disk dev (bblock b s)) o
      → Allocated dev (b + bpb) s (balloc_from rounds (b + bpb) dev s)
      → Allocated dev b s (balloc_from (suc rounds) b dev s)
  round-Allocated rounds b al _ e (first k lo hi lt clear) rest =
      subst (Allocated dev b s) (sym (balloc_from-some rounds b k dev s e))
        (took (b + k) (mark_block dev b k s) (mark_block-Taken dev b k s reserved al hi lt clear))
  round-Allocated rounds b al _ e (nowhere h) rest =
      subst (Allocated dev b s) (sym (balloc_from-none rounds b dev s e)) (
        Allocated-earlier dev b s _
          (λ k lt inside. used-at dev b k s al lt ∙ h k (omega arith) (omega arith) inside) rest)

  balloc_from-Allocated :
      (rounds b : ℕ)
      → b % bpb ≡ 0
      → s.sb.size ≤ b + rounds * bpb
      → Allocated dev b s (balloc_from rounds b dev s)
  unfolding balloc_from
  balloc_from-Allocated zero b al le = out (λ c lo lt. absurd (omega arith))
  balloc_from-Allocated (suc rounds) b al le =
      round-Allocated rounds b al (find_clear bpb 0 b s.sb.size (s.disk dev (bblock b s))) refl
        (find_clear-Found bpb 0 b s.sb.size (s.disk dev (bblock b s)))
        (balloc_from-Allocated rounds (b + bpb) (omega arith) (omega arith))

  -- Where the bitmap blocks are themselves in use, balloc returns 0 and changes nothing where every block of the
  -- disk is in use, or else returns a block of the disk that was free: its bit and no other is set, the
  -- block is zeroed, no other block but its bitmap block changes, and both are logged.
  pub balloc-Allocated : Allocated dev 0 s (balloc dev s)
  unfolding balloc
  balloc-Allocated = balloc_from-Allocated ((s.sb.size + bpb - 1) / bpb) 0 refl (omega arith)

pub record Freed (dev b : ℕ) (s t : Fs) : Type 0 where
  pub bits : (c : ℕ) → used dev c t ≡ (if b == c then false else used dev c s)
  pub others : (c : ℕ) → c ≢ bblock b s → t.disk dev c ≡ s.disk dev c
  pub log : t.logged ≡ bblock b s ∷ s.logged
  pub itable : t.itable ≡ s.itable
  pub sb : t.sb ≡ s.sb

-- bfree panics on a block that is free; else it clears the bit of the block and no other, changes no
-- other block than its bitmap block, and logs that.
pub bfree-Freed :
    (dev b : ℕ)
    → (s : Fs)
    → ((used dev b s ≡ false) × (bfree dev b s ≡ none))
      ⊎ ((used dev b s ≡ true) × (t : Fs) × (bfree dev b s ≡ some t) × Freed dev b s t)
unfolding bfree
bfree-Freed dev b s = elim (Bool-cases (used dev b s)) [
  | inr clear ↦ inl (clear, rw clear refl)
  | inl in_use ↦
      let d = clear_bit (s.disk dev (bblock b s)) (b % bpb) in
      inr (
        in_use,
        log_call (bblock b s) (put_block dev (bblock b s) d s),
        rw in_use refl,
        record {
          bits = λ c.
              used-put dev b c d false s
                (λ ne. bit-clear_ne (s.disk dev (bblock b s)) (b % bpb) (c % bpb) in_use ne)
                (bit-clear_self (s.disk dev (bblock b s)) (b % bpb) in_use);
          others = λ c ne. disk-put_ne dev (bblock b s) c d s (λ e. ne (sym e));
          log = refl;
          itable = refl;
          sb = refl;
        },
      )
]

-- A block that balloc took can be freed, and then every block of the disk is in use or free as before.
pub bfree-balloc :
    (dev b : ℕ)
    → (s t : Fs) → Taken dev b s t
    → (u : Fs) × (bfree dev b t ≡ some u) × ((c : ℕ) → c < s.sb.size → used dev c u ≡ used dev c s)
bfree-balloc dev b s t h =
    let in_use : used dev b t ≡ true =
      h.bits b h.in_disk ∙ (let z : (b == b) ≡ true = ground arith in rw z refl) in
    elim (bfree-Freed dev b t) [
      | inl (clear, _) ↦ cc (in_use, clear)
      | inr (_, u, e, f) ↦ (
        u,
        e,
        λ c lt. elim (ℕ_discrete b c) [
          | yes z ↦
              f.bits c
              ∙ (let y : (b == c) ≡ true = ground arith in
                  rw y (sym (ap (λ k. used dev k s) (sym z) ∙ h.was_free)))
          | no ne ↦
              let y : (b == c) ≡ false = ground arith in f.bits c ∙ rw y (h.bits c lt ∙ rw y refl)
        ],
      )
    ]
