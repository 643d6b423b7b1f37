-- ===== src/Bio/Unique.antt =====
-- One buffer at most for each block.
use mathlib.Core.Path.{subst}
use mathlib.Core.Option.{some-injective}
use os_proc_lap02_system_cal.Prelude.{
  ℕ, ◌≤◌, ◌≡◌, ◌≢◌, ◌⊎◌, inl, inr, refl, sym, ap, ◌∙◌, Bool, true, false, Option, some, List, [],
  ◌∷◌, ◌++◌, arith, ℕ_discrete, length, update_self, update_ne, Ensures, All, In,
}
use os_proc_lap02_system_cal.Bio.{Bcache, Buf, n_buf, set_buf, counted, reused, bget_entry}
use os_proc_lap02_system_cal.Bio.Order.{Ring}
use os_proc_lap02_system_cal.Bio.Lookup.{
  First, none_there, first_at, Entry, cached, recycled, all_used, is_of, is_unused, oldest,
  bget_entry-Entry,
}

-- No two buffers of the list are for one block of a device; at the start all are of device 0, which
-- is none.
abbrev pub OneBuffer : Bcache → List ℕ → Type 0
OneBuffer s xs =
    (b c : ℕ)
    → In b xs
    → In c xs
    → (s.buf b).dev ≢ 0
    → (s.buf b).dev ≡ (s.buf c).dev
    → (s.buf b).blockno ≡ (s.buf c).blockno
    → b ≡ c

In-middle : (us : List ℕ) → (b : ℕ) → (vs : List ℕ) → In b (us ++ b ∷ vs)
In-middle [] b vs = inl refl
In-middle (u ∷ us) b vs = inr (In-middle us b vs)

In-append : (a : ℕ) → (xs ys : List ℕ) → In a (xs ++ ys) → In a xs ⊎ In a ys
In-append a [] ys i = inr i
In-append a (x ∷ xs) ys (inl e) = inl (inl e)
In-append a (x ∷ xs) ys (inr i) = elim (In-append a xs ys i) [ inl l ↦ inl (inr l) | inr r ↦ inr r ]

In-oldest : (a : ℕ) → (xs : List ℕ) → In a (oldest xs) → In a xs
In-oldest a [] i = i
In-oldest a (x ∷ xs) i = elim (In-append a (oldest xs) (x ∷ []) i) [
  | inl l ↦ inr (In-oldest a xs l)
  | inr (inl e) ↦ inl e
  | inr (inr never) ↦ absurd never
]

First-In :
    (test : ℕ → Bool)
    → (xs : List ℕ) → (b : ℕ) → (o : Option ℕ) → o ≡ some b
    → First test xs o
    → In b xs × (test b ≡ true)
First-In test xs b _ e (none_there h) = cc e
First-In test xs b _ e (first_at us c vs p h t) =
    let same : c ≡ b = some-injective c b e in
    (
      subst (λ k. In k xs) same (subst (In c) (sym p) (In-middle us c vs)),
      subst (λ k. test k ≡ true) same t,
    )

All-In : (P : ℕ → Type 0) → (xs : List ℕ) → (a : ℕ) → In a xs → All P xs → P a
All-In P [] a i h = absurd i
All-In P (x ∷ xs) a (inl e) h = subst P (sym e) h.0
All-In P (x ∷ xs) a (inr i) h = All-In P xs a i h.1

is_of-parts :
    (dev blockno b : ℕ)
    → (s : Bcache) → is_of dev blockno s b ≡ true
    → ((s.buf b).dev ≡ dev) × ((s.buf b).blockno ≡ blockno)
is_of-parts dev blockno b s e = (ground arith, ground arith)

is_of-not :
    (dev blockno b : ℕ)
    → (s : Bcache) → is_of dev blockno s b ≡ false
    → (s.buf b).dev ≡ dev
    → (s.buf b).blockno ≡ blockno
    → ⊥
is_of-not dev blockno b s e d n = ground arith

-- A store to a buffer, where no other is of its new block.
OneBuffer-set :
    (s : Bcache)
    → (b : ℕ) → (x : Buf) → (xs : List ℕ) → OneBuffer s xs
    → ((c : ℕ)
        → In c xs
        → b ≢ c
        → x.dev ≢ 0
        → x.dev ≡ (s.buf c).dev
        → x.blockno ≡ (s.buf c).blockno
        → ⊥)
    → OneBuffer (set_buf b x s) xs
OneBuffer-set s b x xs one fresh c d ic id = elim (ℕ_discrete b c) [
  | yes bc ↦ elim (ℕ_discrete b d) [
    | yes bd ↦ λ nz e n. sym bc ∙ bd
    | no nd ↦ rw (sym bc) (
        rw (update_self s.buf b x, update_ne s.buf b d x nd)
          (λ nz e n. absurd (fresh d id nd nz e n)))
  ]
  | no nc ↦ elim (ℕ_discrete b d) [
    | yes bd ↦ rw (sym bd) (
        rw (update_self s.buf b x, update_ne s.buf b c x nc)
          (λ nz e n. absurd (fresh c ic nc (λ z. nz (e ∙ z)) (sym e) (sym n))))
    | no nd ↦ rw (update_ne s.buf b c x nc, update_ne s.buf b d x nd) (one c d ic id)
  ]
]

-- The buffer that bget gives: in the list, of the block, and in use once more.
pub record ForBlock (dev blockno : ℕ) (xs : List ℕ) (b : ℕ) (t : Bcache) : Type 0 where
  pub in_list : In b xs
  pub dev_is : (t.buf b).dev ≡ dev
  pub block_is : (t.buf b).blockno ≡ blockno
  pub one : OneBuffer t xs
  pub ring : Ring t xs

Entry-ForBlock :
    (dev blockno : ℕ)
    → (s : Bcache) → (xs : List ℕ) → dev ≢ 0
    → Ring s xs
    → OneBuffer s xs
    → (r : Option (ℕ × Bcache)) → Entry dev blockno s xs r
    → Ensures (λ p. ForBlock dev blockno xs p.0 p.1) r
Entry-ForBlock dev blockno s xs nz r one _ (all_used h k) = tt
Entry-ForBlock dev blockno s xs nz r one _ (cached b f) =
    let (i, t) = First-In (is_of dev blockno s) xs b _ refl f in
    let (d, n) = is_of-parts dev blockno b s t in
    let at = update_self s.buf b (counted (s.buf b)) in
    record {
      in_list = i;
      dev_is = ap (λ x. x.dev) at ∙ d;
      block_is = ap (λ x. x.blockno) at ∙ n;
      one = OneBuffer-set s b (counted (s.buf b)) xs one (λ c ic ne x e m. ne (one b c i ic x e m));
      ring = record { linked = r.linked; distinct = r.distinct };
    }
Entry-ForBlock dev blockno s xs nz r one _ (recycled b absent f) =
    let (i, t) = First-In (is_unused s) (oldest xs) b _ refl f in
    let at = update_self s.buf b (reused dev blockno (s.buf b)) in
    record {
      in_list = In-oldest b xs i;
      dev_is = ap (λ x. x.dev) at;
      block_is = ap (λ x. x.blockno) at;
      one = OneBuffer-set s b (reused dev blockno (s.buf b)) xs one (λ c ic ne x e m.
          is_of-not dev blockno c s (All-In (λ k. is_of dev blockno s k ≡ false) xs c ic absent)
            (sym e) (sym m));
      ring = record { linked = r.linked; distinct = r.distinct };
    }

-- Where no two buffers are for one block of a device, bget that does not panic keeps it so, leaves the
-- order of the buffers as it is, and gives a buffer of the list that is for the block.
pub bget_entry-ForBlock :
    (dev blockno : ℕ)
    → (s : Bcache) → (xs : List ℕ) → dev ≢ 0
    → Ring s xs
    → length xs ≤ n_buf
    → OneBuffer s xs
    → Ensures (λ p. ForBlock dev blockno xs p.0 p.1) (bget_entry dev blockno s)
bget_entry-ForBlock dev blockno s xs nz r le one =
    Entry-ForBlock dev blockno s xs nz r one (bget_entry dev blockno s)
      (bget_entry-Entry dev blockno s xs r le)
