-- ===== src/Bytes/Moving.antt =====
-- memset and memmove of kernel/string.c, for every overlap of the two areas.
use mathlib.Core.Path.{subst}
use os_proc_lap02_system_cal.Prelude.{
  ℕ, zero, suc, ◌+◌, ◌-◌, ◌≤◌, ◌<◌, ◌≡◌, ◌≢◌, ◌⊎◌, inl, inr, refl, ap, ◌∙◌, false, ◌&&◌, arith,
  dec_lt, ℕ_discrete, ltb, ◌==◌, Bool-cases, update, update_self, update_ne,
}
use os_proc_lap02_system_cal.Bytes.{Bytes, copy_up, copy_down, memmove}

-- `r` holds at `d` the `n` bytes that `m` has at `s`, and what `m` has elsewhere.
pub record Moved (d s n : ℕ) (m r : Bytes) : Type 0 where
  pub inside : (j : ℕ) → j < n → r (d + j) ≡ m (s + j)
  pub outside : (a : ℕ) → (a < d) ⊎ (d + n ≤ a) → r a ≡ m a

shift : (d j : ℕ) → j ≢ 0 → d + 1 + (j - 1) ≡ d + j
shift d j nz = omega arith

copy_up-Moved : (n d s : ℕ) → (m : Bytes) → (d ≤ s) ⊎ (s + n ≤ d) → Moved d s n m (copy_up n d s m)
unfolding copy_up
copy_up-Moved zero d s m h = record { inside = λ j lt. absurd (omega arith); outside = λ a _. refl }
copy_up-Moved (suc n) d s m h =
    let rest =
      copy_up-Moved n (d + 1) (s + 1) (update m d (m s))
        (elim h [ inl le ↦ inl (omega arith) | inr ge ↦ inr (omega arith) ]) in
    record {
      inside = λ j lt. elim (ℕ_discrete j 0) [
        | yes z ↦
            ap (copy_up n (d + 1) (s + 1) (update m d (m s))) (omega arith)
            ∙ rest.outside d (inl (omega arith))
            ∙ update_self m d (m s)
            ∙ ap m (omega arith)
        | no nz ↦
            subst (λ l. copy_up n (d + 1) (s + 1) (update m d (m s)) l ≡ m (s + j)) (shift d j nz)
              (rest.inside (j - 1) (omega arith)
                ∙ update_ne m d (s + 1 + (j - 1)) (m s)
                    (λ z. elim h [ inl le ↦ omega arith | inr ge ↦ omega arith ])
                ∙ ap m (omega arith))
      ];
      outside = λ a out.
          rest.outside a (elim out [ inl lo ↦ inl (omega arith) | inr hi ↦ inr (omega arith) ])
          ∙ update_ne m d a (m s) (λ z. elim out [ inl lo ↦ omega arith | inr hi ↦ omega arith ]);
    }

copy_down-Moved :
    (n d s e t : ℕ)
    → (m : Bytes) → s < d
    → e ≡ d + n
    → t ≡ s + n
    → Moved d s n m (copy_down n e t m)
unfolding copy_down
copy_down-Moved zero d s e t m h de st = record {
  inside = λ j lt. absurd (omega arith);
  outside = λ a _. refl;
}
copy_down-Moved (suc n) d s e t m h de st =
    let b = update m (e - 1) (m (t - 1)) in
    let rest = copy_down-Moved n d s (e - 1) (t - 1) b h (omega arith) (omega arith) in
    record {
      inside = λ j lt. elim (ℕ_discrete j n) [
        | yes z ↦
            ap (copy_down n (e - 1) (t - 1) b) (omega arith)
            ∙ rest.outside (e - 1) (inr (omega arith))
            ∙ update_self m (e - 1) (m (t - 1))
            ∙ ap m (omega arith)
        | no nz ↦
            rest.inside j (omega arith) ∙ update_ne m (e - 1) (s + j) (m (t - 1)) (λ z. omega arith)
      ];
      outside = λ a out.
          rest.outside a (elim out [ inl lo ↦ inl lo | inr hi ↦ inr (omega arith) ])
          ∙ update_ne m (e - 1) a (m (t - 1))
              (λ z. elim out [ inl lo ↦ omega arith | inr hi ↦ omega arith ]);
    }

either :
    (dst src n : ℕ)
    → (ltb src dst && ltb dst (src + suc n)) ≡ false
    → (dst ≤ src) ⊎ (src + suc n ≤ dst)
either dst src n h = elim (dec_lt src dst) [
  | yes lt ↦ inr (ground arith)
  | no ge ↦ inl (omega arith)
]

-- memmove moves `n` bytes as they were before the call, however the areas overlap, and changes no
-- other byte.
pub memmove-Moved : (dst src n : ℕ) → (m : Bytes) → Moved dst src n m (memmove dst src n m)
unfolding memmove
memmove-Moved dst src zero m = record {
  inside = λ j lt. absurd (omega arith);
  outside = λ a _. refl;
}
memmove-Moved dst src (suc n) m =
    let nz : (suc n == 0) ≡ false = ground arith in
    elim (Bool-cases (ltb src dst && ltb dst (src + suc n))) [
      | inl back ↦
          rw (nz, back)
            (copy_down-Moved (suc n) dst src (dst + suc n) (src + suc n) m (ground arith) refl refl)
      | inr ahead ↦ rw (nz, ahead) (copy_up-Moved (suc n) dst src m (either dst src n ahead))
    ]
