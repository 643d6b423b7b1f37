-- ===== src/Bio/Lookup.antt =====
-- bget: the buffer of a block if there is one, or else the unused one that was released first.
use mathlib.Core.Path.{subst}
use os_proc_lap02_system_cal.Prelude.{
  ℕ, zero, suc, ◌+◌, ◌≤◌, ◌<◌, ◌≡◌, inl, inr, refl, sym, ap, ◌∙◌, Bool, true, false, ◌&&◌, Option,
  none, some, List, [], ◌∷◌, ◌++◌, arith, ◌==◌, Bool-cases, Option-cases, length, length-append,
  All, NotIn,
}
use os_proc_lap02_system_cal.Bio.{
  Bcache, n_buf, head, set_buf, find_cached, find_unused, counted, reused, bget_entry,
}
use os_proc_lap02_system_cal.Bio.Ring.{Linked}
use os_proc_lap02_system_cal.Bio.Order.{Ring}

-- From `a` the links `nx` lead through `xs` to `b`.
abbrev Walk : (ℕ → ℕ) → ℕ → List ℕ → ℕ → Type 0
Walk nx a [] b = nx a ≡ b
Walk nx a (x ∷ xs) b = (nx a ≡ x) × Walk nx x xs b

-- The buffers of a list, the last first.
abbrev pub oldest : List ℕ → List ℕ
oldest [] = []
oldest (x ∷ xs) = oldest xs ++ x ∷ []

forward-Walk : (nx pv : ℕ → ℕ) → (a b : ℕ) → (xs : List ℕ) → Linked nx pv a xs b → Walk nx a xs b
forward-Walk nx pv a b [] (e, f) = e
forward-Walk nx pv a b (x ∷ xs) (e, f, rest) = (e, forward-Walk nx pv x b xs rest)

Walk-snoc :
    (pv : ℕ → ℕ)
    → (b x a : ℕ) → (zs : List ℕ) → Walk pv b zs x
    → pv x ≡ a
    → Walk pv b (zs ++ x ∷ []) a
Walk-snoc pv b x a [] w e = (w, e)
Walk-snoc pv b x a (z ∷ zs) (e', w) e = (e', Walk-snoc pv z x a zs w e)

backward-Walk :
    (nx pv : ℕ → ℕ) → (a b : ℕ) → (xs : List ℕ) → Linked nx pv a xs b → Walk pv b (oldest xs) a
backward-Walk nx pv a b [] (e, f) = f
backward-Walk nx pv a b (x ∷ xs) (e, f, rest) =
    Walk-snoc pv b x a (oldest xs) (backward-Walk nx pv x b xs rest) f

NotIn-append : (a : ℕ) → (xs ys : List ℕ) → NotIn a xs → NotIn a ys → NotIn a (xs ++ ys)
NotIn-append a [] ys h k = k
NotIn-append a (x ∷ xs) ys h k = (h.0, NotIn-append a xs ys h.1 k)

NotIn-oldest : (a : ℕ) → (xs : List ℕ) → NotIn a xs → NotIn a (oldest xs)
NotIn-oldest a [] h = tt
NotIn-oldest a (x ∷ xs) h = NotIn-append a (oldest xs) (x ∷ []) (NotIn-oldest a xs h.1) (h.0, tt)

length-oldest : (xs : List ℕ) → length (oldest xs) ≡ length xs
length-oldest [] = refl
length-oldest (x ∷ xs) = length-append (oldest xs) (x ∷ []) ∙ omega (arith, length-oldest xs)

-- The first buffer of a list that passes a test: those before it do not.
pub data First (test : ℕ → Bool) (xs : List ℕ) : Option ℕ → Type 0 where
  none_there : All (λ b. test b ≡ false) xs → First test xs none
  first_at :
      (us : List ℕ)
      → (b : ℕ) → (vs : List ℕ) → xs ≡ us ++ b ∷ vs
      → All (λ u. test u ≡ false) us
      → test b ≡ true
      → First test xs (some b)

First-next :
    (test : ℕ → Bool)
    → (x : ℕ) → (xs : List ℕ) → (o : Option ℕ) → test x ≡ false
    → First test xs o
    → First test (x ∷ xs) o
First-next test x xs _ e (none_there h) = none_there (e, h)
First-next test x xs _ e (first_at us b vs p h t) =
    first_at (x ∷ us) b vs (ap (λ r. x ∷ r) p) (e, h) t

abbrev pub is_of : ℕ → ℕ → Bcache → ℕ → Bool
is_of dev blockno s b = (s.buf b).dev == dev && (s.buf b).blockno == blockno

abbrev pub is_unused : Bcache → ℕ → Bool
is_unused s b = (s.buf b).refcnt == 0

find_cached-First :
    (fuel a : ℕ)
    → (xs : List ℕ) → (dev blockno : ℕ) → (s : Bcache) → Walk s.next a xs head
    → NotIn head xs
    → length xs < fuel
    → First (is_of dev blockno s) xs (find_cached fuel (s.next a) dev blockno s)
unfolding find_cached
find_cached-First zero a xs dev blockno s w out lt = absurd (omega arith)
find_cached-First (suc fuel) a [] dev blockno s w out lt =
    let z : (s.next a == head) ≡ true = ground arith in rw (z, find_cached) (none_there tt)
find_cached-First (suc fuel) a (x ∷ xs) dev blockno s (e, w) out lt =
    let z : (x == head) ≡ false = let ne = out.0 in ground arith in
    rw e (elim (Bool-cases (is_of dev blockno s x)) [
      | inl y ↦ rw (z, find_cached) (rw y (first_at [] x xs refl tt y))
      | inr n ↦
          rw (z, find_cached)
            (rw n (
              First-next (is_of dev blockno s) x xs _ n
                (find_cached-First fuel x xs dev blockno s w out.1 (omega arith))))
    ])

find_unused-First :
    (fuel a : ℕ)
    → (xs : List ℕ) → (s : Bcache) → Walk s.prev a xs head
    → NotIn head xs
    → length xs < fuel
    → First (is_unused s) xs (find_unused fuel (s.prev a) s)
unfolding find_unused
find_unused-First zero a xs s w out lt = absurd (omega arith)
find_unused-First (suc fuel) a [] s w out lt =
    let z : (s.prev a == head) ≡ true = ground arith in rw (z, find_unused) (none_there tt)
find_unused-First (suc fuel) a (x ∷ xs) s (e, w) out lt =
    let z : (x == head) ≡ false = let ne = out.0 in ground arith in
    rw e (elim (Bool-cases (is_unused s x)) [
      | inl y ↦ rw (z, find_unused) (rw y (first_at [] x xs refl tt y))
      | inr n ↦
          rw (z, find_unused)
            (rw n (
              First-next (is_unused s) x xs _ n
                (find_unused-First fuel x xs s w out.1 (omega arith))))
    ])

-- What bget finds for a block: its buffer, the unused buffer that was released first, or a panic.
pub data Entry (dev blockno : ℕ) (s : Bcache) (xs : List ℕ) : Option (ℕ × Bcache) → Type 0 where
  cached :
      (b : ℕ)
      → First (is_of dev blockno s) xs (some b)
      → Entry dev blockno s xs (some (b, set_buf b (counted (s.buf b)) s))
  recycled :
      (b : ℕ)
      → All (λ c. is_of dev blockno s c ≡ false) xs
      → First (is_unused s) (oldest xs) (some b)
      → Entry dev blockno s xs (some (b, set_buf b (reused dev blockno (s.buf b)) s))
  all_used :
      All (λ c. is_of dev blockno s c ≡ false) xs
      → All (λ c. is_unused s c ≡ false) (oldest xs)
      → Entry dev blockno s xs none

entry_cached :
    (dev blockno b : ℕ)
    → (s : Bcache) → find_cached (n_buf + 1) (s.next head) dev blockno s ≡ some b
    → bget_entry dev blockno s ≡ some (b, set_buf b (counted (s.buf b)) s)
unfolding bget_entry
entry_cached dev blockno b s e = rw (e, bget_entry) refl

entry_recycled :
    (dev blockno b : ℕ)
    → (s : Bcache) → find_cached (n_buf + 1) (s.next head) dev blockno s ≡ none
    → find_unused (n_buf + 1) (s.prev head) s ≡ some b
    → bget_entry dev blockno s ≡ some (b, set_buf b (reused dev blockno (s.buf b)) s)
unfolding bget_entry
entry_recycled dev blockno b s e f = rw (e, bget_entry) (rw f refl)

entry_none :
    (dev blockno : ℕ)
    → (s : Bcache) → find_cached (n_buf + 1) (s.next head) dev blockno s ≡ none
    → find_unused (n_buf + 1) (s.prev head) s ≡ none
    → bget_entry dev blockno s ≡ none
unfolding bget_entry
entry_none dev blockno s e f = rw (e, bget_entry) (rw f refl)

none_passes :
    (test : ℕ → Bool)
    → (xs : List ℕ) → (o : Option ℕ) → o ≡ none
    → First test xs o
    → All (λ c. test c ≡ false) xs
none_passes test xs _ e (none_there h) = h
none_passes test xs _ e (first_at us b vs p h t) = cc e

-- With the buffers of `xs` in the list, most recently released first, bget takes the first of them that
-- holds the block, with one reference more; or, where none does, the unused buffer that was released
-- first, which becomes the block's, not valid and with one reference; and it panics only where no
-- buffer holds the block and none is unused. Its loops never run out of rounds.
pub bget_entry-Entry :
    (dev blockno : ℕ)
    → (s : Bcache) → (xs : List ℕ) → Ring s xs
    → length xs ≤ n_buf
    → Entry dev blockno s xs (bget_entry dev blockno s)
bget_entry-Entry dev blockno s xs r le =
    let c =
      find_cached-First (n_buf + 1) head xs dev blockno s
        (forward-Walk s.next s.prev head head xs r.linked) r.distinct.0 (omega arith) in
    let u =
      find_unused-First (n_buf + 1) head (oldest xs) s
        (backward-Walk s.next s.prev head head xs r.linked) (NotIn-oldest head xs r.distinct.0)
        (omega (arith, length-oldest xs)) in
    elim (Option-cases (find_cached (n_buf + 1) (s.next head) dev blockno s)) [
      | inr (b, e) ↦
          subst (Entry dev blockno s xs) (sym (entry_cached dev blockno b s e))
            (cached b (subst (First (is_of dev blockno s) xs) e c))
      | inl e ↦
          let absent = none_passes (is_of dev blockno s) xs _ e c in
          elim (Option-cases (find_unused (n_buf + 1) (s.prev head) s)) [
            | inr (b, f) ↦
                subst (Entry dev blockno s xs) (sym (entry_recycled dev blockno b s e f))
                  (recycled b absent (subst (First (is_unused s) (oldest xs)) f u))
            | inl f ↦
                subst (Entry dev blockno s xs) (sym (entry_none dev blockno s e f))
                  (all_used absent (none_passes (is_unused s) (oldest xs) _ f u))
          ]
    ]
