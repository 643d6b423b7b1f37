-- ===== src/Bytes/Strings.antt =====
-- strncmp and safestrcpy of kernel/string.c.
use os_proc_lap02_system_cal.Prelude.{
  ℕ, zero, suc, ◌+◌, ◌-◌, ◌≤◌, ◌<◌, ◌≡◌, ◌≢◌, ◌↔◌, ◌⊎◌, inl, inr, refl, sym, ap, ◌∙◌, not, ◌&&◌,
  arith, ℕ_discrete, ◌==◌, Bool-cases, update, update_self, update_ne,
}
use os_proc_lap02_system_cal.Prelude.Int.{pos, sub_ℕ}
use os_proc_lap02_system_cal.Bytes.{Bytes, strncmp, safe_from, safestrcpy}

-- The strings at `p` and `q` agree in their first `n` bytes, as far as the string at `p` reaches.
abbrev pub Agree : ℕ → ℕ → ℕ → Bytes → Type 0
Agree p q n m = (j : ℕ) → j < n → ((i : ℕ) → i < j → m (p + i) ≢ 0) → m (p + j) ≡ m (q + j)

sub_ℕ-zero : (a b : ℕ) → sub_ℕ a b ≡ pos 0 → a ≡ b
sub_ℕ-zero a b e = ground arith

sub_ℕ-self : (a b : ℕ) → a ≡ b → sub_ℕ a b ≡ pos 0
sub_ℕ-self a b e = ground arith

Agree-suc :
    (p q n : ℕ)
    → (m : Bytes) → m p ≡ m q
    → (m p ≢ 0 → Agree (p + 1) (q + 1) n m)
    → Agree p q (suc n) m
Agree-suc p q n m same rest zero lt before = ap m (omega arith) ∙ same ∙ ap m (omega arith)
Agree-suc p q n m same rest (suc j) lt before =
    ap m (omega arith)
    ∙ rest (λ z. before 0 (omega arith) (ap m (omega arith) ∙ z)) j (omega arith)
        (λ i ilt z. before (suc i) (omega arith) (ap m (omega arith) ∙ z))
    ∙ ap m (omega arith)

nonzero :
    (p j : ℕ)
    → (m : Bytes) → m p ≢ 0
    → ((i : ℕ) → i < j → m (p + 1 + i) ≢ 0)
    → (i : ℕ) → i < suc j
    → m (p + i) ≢ 0
nonzero p j m nz before zero lt z = nz (ap m (omega arith) ∙ z)
nonzero p j m nz before (suc i) lt z = before i (omega arith) (ap m (omega arith) ∙ z)

Agree-tail : (p q n : ℕ) → (m : Bytes) → m p ≢ 0 → Agree p q (suc n) m → Agree (p + 1) (q + 1) n m
Agree-tail p q n m nz h j lt before =
    ap m (omega arith) ∙ h (suc j) (omega arith) (nonzero p j m nz before) ∙ ap m (omega arith)

-- strncmp returns 0 exactly if the strings agree in their first `n` bytes, up to the end of the first.
pub strncmp_lem : (p q n : ℕ) → (m : Bytes) → (strncmp p q n m ≡ pos 0) ↔ Agree p q n m
unfolding strncmp
strncmp_lem p q zero m = (λ _ j lt. absurd (omega arith), λ _. refl)
strncmp_lem p q (suc n) m = elim (Bool-cases (not (m p == 0) && m p == m q)) [
  | inl go ↦ rw go (
      let rest = strncmp_lem (p + 1) (q + 1) n m in
      let same : m p ≡ m q = ground arith in
      let nz : m p ≢ 0 = λ z. ground arith in
      (λ e. Agree-suc p q n m same (λ _. rest.0 e), λ h. rest.1 (Agree-tail p q n m nz h)))
  | inr stop ↦ rw stop (
      (
        λ e.
            let same : m p ≡ m q = sub_ℕ-zero (m p) (m q) e in
            Agree-suc p q n m same (λ nz. absurd (ground arith)),
        λ h. sub_ℕ-self (m p) (m q) (
            ap m (omega arith)
            ∙ h 0 (omega arith) (λ i lt. absurd (omega arith))
            ∙ ap m (omega arith)),
      ))
]

-- `r` holds at `s` the string at `t` of `m`, cut to `n` bytes and terminated.
pub record Terminated (s t n : ℕ) (m r : Bytes) : Type 0 where
  pub len : ℕ
  pub len_small : len ≤ n
  pub copied : (i : ℕ) → i < len → r (s + i) ≡ m (t + i)
  pub no_end : (i : ℕ) → i < len → m (t + i) ≢ 0
  pub end : r (s + len) ≡ 0
  pub whole : (len ≡ n) ⊎ (m (t + len) ≡ 0)
  pub outside : (a : ℕ) → (a < s) ⊎ (s + n < a) → r a ≡ m a

Terminated-suc :
    (s t n : ℕ)
    → (m r : Bytes) → (t + suc n ≤ s) ⊎ (s + suc n < t)
    → m t ≢ 0
    → Terminated (s + 1) (t + 1) n (update m s (m t)) r
    → Terminated s t (suc n) m r
Terminated-suc s t n m r far nz h =
    let old : (i : ℕ) → i < n → update m s (m t) (t + 1 + i) ≡ m (t + suc i) = λ i le.
      update_ne m s (t + 1 + i) (m t)
        (λ z. elim far [ inl lo ↦ omega arith | inr hi ↦ omega arith ])
      ∙ ap m (omega arith) in
    let small = h.len_small in
    record {
      len = suc h.len;
      len_small = omega arith;
      copied = λ i lt. elim (ℕ_discrete i 0) [
        | yes z ↦
            ap r (omega arith)
            ∙ h.outside s (inl (omega arith))
            ∙ update_self m s (m t)
            ∙ ap m (omega arith)
        | no ne ↦
            ap r (omega arith)
            ∙ h.copied (i - 1) (omega arith)
            ∙ old (i - 1) (omega arith)
            ∙ ap m (omega arith)
      ];
      no_end = λ i lt e. elim (ℕ_discrete i 0) [
        | yes z ↦ nz (ap m (omega arith) ∙ e)
        | no ne ↦
            h.no_end (i - 1) (omega arith) (old (i - 1) (omega arith) ∙ ap m (omega arith) ∙ e)
      ];
      end = ap r (omega arith) ∙ h.end;
      whole = elim h.whole [
        | inl all ↦ inl (ap suc all)
        | inr z ↦ elim (ℕ_discrete h.len n) [
          | yes all ↦ inl (ap suc all)
          | no ne ↦ inr (sym (old h.len (omega arith)) ∙ z)
        ]
      ];
      outside = λ a out.
          h.outside a (elim out [ inl lo ↦ inl (omega arith) | inr hi ↦ inr (omega arith) ])
          ∙ update_ne m s a (m t) (λ z. elim out [ inl lo ↦ omega arith | inr hi ↦ omega arith ]);
    }

safe_from-Terminated :
    (s t n : ℕ) → (m : Bytes) → (t + n ≤ s) ⊎ (s + n < t) → Terminated s t n m (safe_from s t n m)
unfolding safe_from
safe_from-Terminated s t zero m far = record {
  len = 0;
  len_small = omega arith;
  copied = λ i lt. absurd (omega arith);
  no_end = λ i lt. absurd (omega arith);
  end = ap (update m s 0) (omega arith) ∙ update_self m s 0;
  whole = inl refl;
  outside =
      λ a out. update_ne m s a 0 (λ z. elim out [ inl lo ↦ omega arith | inr hi ↦ omega arith ]);
}
safe_from-Terminated s t (suc n) m far = elim (Bool-cases (m t == 0)) [
  | inl stop ↦ rw stop (
      let b = update m s (m t) in
      let z : m t ≡ 0 = ground arith in
      let here : update b (s + 1) 0 s ≡ m t =
        update_ne b (s + 1) s 0 (omega arith) ∙ update_self m s (m t) in
      record {
        len = 0;
        len_small = omega arith;
        copied = λ i lt. absurd (omega arith);
        no_end = λ i lt. absurd (omega arith);
        end = ap (update b (s + 1) 0) (omega arith) ∙ here ∙ z;
        whole = inr (ap m (omega arith) ∙ z);
        outside = λ a out.
            update_ne b (s + 1) a 0 (λ e. elim out [ inl lo ↦ omega arith | inr hi ↦ omega arith ])
            ∙ update_ne m s a (m t) (λ e. elim out [ inl lo ↦ omega arith | inr hi ↦ omega arith ]);
      })
  | inr go ↦ rw go (
      let nz : m t ≢ 0 = λ z. ground arith in
      Terminated-suc s t n m (safe_from (s + 1) (t + 1) n (update m s (m t))) far nz (
        safe_from-Terminated (s + 1) (t + 1) n (update m s (m t))
          (elim far [ inl le ↦ inl (omega arith) | inr gt ↦ inr (omega arith) ])))
]

-- For a size `n + 1`, and a source that does not overlap it, safestrcpy leaves the longest prefix of the source
-- that fits in `n` bytes, and a terminator after it, and writes no byte outside of the area.
pub safestrcpy-Terminated :
    (s t n : ℕ)
    → (m : Bytes) → (t + n ≤ s) ⊎ (s + n < t)
    → Terminated s t n m (safestrcpy s t (pos (suc n)) m)
unfolding safestrcpy
safestrcpy-Terminated s t n m far = safe_from-Terminated s t n m far
