-- ===== src/Bio/Ring.antt =====
-- The doubly linked list of buffers: what stores to its links do.
use mathlib.Core.Path.{subst}
use os_proc_lap02_system_cal.Prelude.{
  ℕ, ◌≡◌, ◌≢◌, ◌⊎◌, inl, inr, sym, ap, ◌∙◌, List, [], ◌∷◌, ◌++◌, update, update_self, update_ne, In,
  NotIn, Distinct,
}

-- From `a` the links lead through `xs` to `b`, and back.
abbrev pub Linked : (ℕ → ℕ) → (ℕ → ℕ) → ℕ → List ℕ → ℕ → Type 0
Linked nx pv a [] b = (nx a ≡ b) × (pv b ≡ a)
Linked nx pv a (x ∷ xs) b = (nx a ≡ x) × (pv x ≡ a) × Linked nx pv x xs b

pub Linked-frame :
    (nx pv : ℕ → ℕ)
    → (a b k u j v : ℕ) → (xs : List ℕ) → NotIn k (a ∷ xs)
    → NotIn j xs
    → j ≢ b
    → Linked nx pv a xs b
    → Linked (update nx k u) (update pv j v) a xs b
Linked-frame nx pv a b k u j v [] out outj nb (e, f) =
    (update_ne nx k a u out.0 ∙ e, update_ne pv j b v nb ∙ f)
Linked-frame nx pv a b k u j v (x ∷ xs) out outj nb (e, f, rest) = (
  update_ne nx k a u out.0 ∙ e,
  update_ne pv j x v outj.0 ∙ f,
  Linked-frame nx pv x b k u j v xs out.1 outj.1 nb rest,
)

pub Linked-split :
    (nx pv : ℕ → ℕ)
    → (a x b : ℕ) → (xs ys : List ℕ) → Linked nx pv a (xs ++ x ∷ ys) b
    → Linked nx pv a xs x × Linked nx pv x ys b
Linked-split nx pv a x b [] ys (e, f, rest) = ((e, f), rest)
Linked-split nx pv a x b (y ∷ xs) ys (e, f, rest) =
    let (l, r) = Linked-split nx pv y x b xs ys rest in ((e, f, l), r)

-- The links of an element lead to elements, or to the ends.
prev-In : (nx pv : ℕ → ℕ) → (a b : ℕ) → (xs : List ℕ) → Linked nx pv a xs b → In (pv b) (a ∷ xs)
prev-In nx pv a b [] (e, f) = inl f
prev-In nx pv a b (x ∷ xs) (e, f, rest) = inr (prev-In nx pv x b xs rest)

pub next-In :
    (nx pv : ℕ → ℕ) → (a b : ℕ) → (xs : List ℕ) → Linked nx pv a xs b → (nx a ≡ b) ⊎ In (nx a) xs
next-In nx pv a b [] (e, f) = inl e
next-In nx pv a b (x ∷ xs) (e, f, rest) = inr (inl e)

pub In-NotIn : (a b : ℕ) → (xs : List ℕ) → In a xs → NotIn b xs → b ≢ a
In-NotIn a b [] i out e = i
In-NotIn a b (x ∷ xs) (inl h) out e = out.0 (e ∙ h)
In-NotIn a b (x ∷ xs) (inr h) out e = In-NotIn a b xs h out.1 e

NotIn-left : (a : ℕ) → (xs ys : List ℕ) → NotIn a (xs ++ ys) → NotIn a xs
NotIn-left a [] ys h = tt
NotIn-left a (x ∷ xs) ys h = (h.0, NotIn-left a xs ys h.1)

pub NotIn-right : (a : ℕ) → (xs ys : List ℕ) → NotIn a (xs ++ ys) → NotIn a ys
NotIn-right a [] ys h = h
NotIn-right a (x ∷ xs) ys h = NotIn-right a xs ys h.1

-- Taking `x` out from between `xs` and `ys`.
pub Linked-unlink :
    (nx pv : ℕ → ℕ)
    → (a x b : ℕ) → (xs ys : List ℕ) → Distinct (a ∷ (xs ++ ys))
    → NotIn b (xs ++ ys)
    → Linked nx pv a xs x
    → Linked nx pv x ys b
    → Linked (update nx (pv x) (nx x)) (update pv (nx x) (pv x)) a (xs ++ ys) b
Linked-unlink nx pv a x b [] [] d out (e, f) (g, h) = (
  ap (λ k. update nx k (nx x) a) f ∙ update_self nx a (nx x) ∙ g,
  ap (λ k. update pv k (pv x) b) g ∙ update_self pv b (pv x) ∙ f,
)
Linked-unlink nx pv a x b [] (y ∷ ys) d out (e, f) (g, h, rest) = (
  ap (λ k. update nx k (nx x) a) f ∙ update_self nx a (nx x) ∙ g,
  ap (λ k. update pv k (pv x) y) g ∙ update_self pv y (pv x) ∙ f,
  subst (λ k. Linked (update nx k (nx x)) (update pv (nx x) (pv x)) y ys b) (sym f)
      (subst (λ j. Linked (update nx a (nx x)) (update pv j (pv x)) y ys b) (sym g)
        (Linked-frame nx pv y b a (nx x) y (pv x) ys d.0 d.1.0 (λ z. out.0 (sym z)) rest)),
)
Linked-unlink nx pv a x b (z ∷ xs) ys d out (e, f, rest) r =
    let last = prev-In nx pv z x xs rest in
    (
      update_ne nx (pv x) a (nx x)
            (λ w. In-NotIn (pv x) a (z ∷ xs) last (NotIn-left a (z ∷ xs) ys d.0) (sym w))
          ∙ e,
      update_ne pv (nx x) z (pv x) (λ w. elim (next-In nx pv x b ys r) [
        | inl g ↦ out.0 (sym g ∙ w)
        | inr g ↦ In-NotIn (nx x) z ys g (NotIn-right z xs ys d.1.0) (sym w)
      ])
          ∙ f,
      Linked-unlink nx pv z x b xs ys d.1 out.1 rest r,
    )

-- A list without one of its elements.
pub NotIn-remove :
    (a b : ℕ) → (xs ys : List ℕ) → NotIn a (xs ++ b ∷ ys) → (a ≢ b) × NotIn a (xs ++ ys)
NotIn-remove a b [] ys h = h
NotIn-remove a b (x ∷ xs) ys h = let (ne, rest) = NotIn-remove a b xs ys h.1 in (ne, (h.0, rest))

pub Distinct-remove :
    (b : ℕ) → (xs ys : List ℕ) → Distinct (xs ++ b ∷ ys) → Distinct (xs ++ ys) × NotIn b (xs ++ ys)
Distinct-remove b [] ys d = (d.1, d.0)
Distinct-remove b (x ∷ xs) ys d =
    let (ne, out) = NotIn-remove x b xs ys d.0 in
    let (rest, nb) = Distinct-remove b xs ys d.1 in ((out, rest), (λ z. ne (sym z), nb))

-- Putting `b` right after the head `h`, where `n` follows it.
pub Linked-push :
    (nx pv : ℕ → ℕ)
    → (h b : ℕ) → (zs : List ℕ) → NotIn h zs
    → NotIn b (h ∷ zs)
    → Distinct zs
    → Linked nx pv h zs h
    → Linked (update (update nx b (nx h)) h b) (update (update pv b h) (nx h) b) h (b ∷ zs) h
Linked-push nx pv h b [] nh nb d (e, f) =
    let hb : h ≢ b = λ z. nb.0 (sym z) in
    (
      update_self (update nx b (nx h)) h b,
      update_ne (update pv b h) (nx h) b b (λ z. hb (sym e ∙ z)) ∙ update_self pv b h,
      (
        update_ne (update nx b (nx h)) h b b hb ∙ update_self nx b (nx h) ∙ e,
        ap (λ k. update (update pv b h) k b h) e ∙ update_self (update pv b h) h b,
      ),
    )
Linked-push nx pv h b (z ∷ zs) nh nb d (e, f, rest) =
    let hb : h ≢ b = λ w. nb.0 (sym w) in
    (
      update_self (update nx b (nx h)) h b,
      update_ne (update pv b h) (nx h) b b (λ w. nb.1.0 (sym w ∙ e)) ∙ update_self pv b h,
      (
        update_ne (update nx b (nx h)) h b b hb ∙ update_self nx b (nx h) ∙ e,
        ap (λ k. update (update pv b h) k b z) e ∙ update_self (update pv b h) z b,
        subst (λ k. Linked (update (update nx b (nx h)) h b) (update (update pv b h) k b) z zs h)
            (sym e)
            (Linked-frame (update nx b (nx h)) (update pv b h) z h h b z b zs nh d.0
              (λ w. nh.0 (sym w)) (Linked-frame nx pv z h b (nx h) b h zs nb.1 nb.1.1 nb.0 rest)),
      ),
    )
