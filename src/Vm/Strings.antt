-- ===== src/Vm/Strings.antt =====
-- copyinstr reads user memory a byte at a time.
use os_proc_lap02_system_cal.Prelude.{
  ℕ, zero, suc, ◌+◌, ◌-◌, ◌%◌, ◌≤◌, ◌≡◌, ◌≢◌, inl, inr, refl, sym, ap, ◌∙◌, Bool, true, false,
  Option, none, some, List, [], ◌∷◌, arith, ℕ_discrete, ◌==◌, if◌then◌else◌, Bool-cases,
  Option-cases, ◌>>=◌,
}
use os_proc_lap02_system_cal.Layout.{pg_size, pg_round_down}
use os_proc_lap02_system_cal.Vm.{Phys, walkaddr}
use os_proc_lap02_system_cal.Vm.Copy.{chunk, scan, copyinstr_from, copyinstr}
use os_proc_lap02_system_cal.Vm.Tree.{Tags, Tree}
use os_proc_lap02_system_cal.Vm.User.{
  user_page, prepend, prepend-empty, prepend-prepend, walkaddr-page, Contiguous, Contiguous-next,
  Contiguous-page, chunk_le, chunk_bound, chunk_next, round_page,
}

-- The string at `va`, of fewer than `n` bytes, each through its own translation.
unfoldable pub user_string : ℕ → ℕ → ℕ → Phys → Option (List ℕ)
user_string pt va zero m = none
user_string pt va (suc n) m =
    let rest = user_string pt (va + 1) n m in
    let b = m.bytes (user_page pt va m + va % 4096) in
    if user_page pt va m == 0 then none else if b == 0 then some [] else prepend (b ∷ []) rest

user_string-none :
    (pt va n : ℕ) → (m : Phys) → user_page pt va m ≡ 0 → user_string pt va (suc n) m ≡ none
unfolding user_string
user_string-none pt va n m e = let z : (user_page pt va m == 0) ≡ true = ground arith in rw z refl

user_string-next :
    (pt va n at : ℕ)
    → (m : Phys) → user_page pt va m ≢ 0
    → user_page pt va m + va % 4096 ≡ at
    → user_string pt va (suc n) m ≡ (
        if m.bytes at == 0
        then some []
        else prepend (m.bytes at ∷ []) (user_string pt (va + 1) n m))
unfolding user_string
user_string-next pt va n at m ne e =
    let z : (user_page pt va m == 0) ≡ false = ground arith in
    rw z (
      ap
        (λ a.
          if m.bytes a == 0
          then some []
          else prepend (m.bytes a ∷ []) (user_string pt (va + 1) n m))
        e)

-- What a scan of one page says of the string: it ends there, or goes on.
abbrev after_scan : List ℕ × Bool → Option (List ℕ) → Option (List ℕ)
after_scan (bs, found) rest = if found then some bs else prepend bs rest

scan-zero : (n at : ℕ) → (b : ℕ → ℕ) → (b at == 0) ≡ true → scan (suc n) at b ≡ ([], true)
unfolding scan
scan-zero n at b z = rw (z, scan) refl

scan-more :
    (n at : ℕ)
    → (b : ℕ → ℕ) → (b at == 0) ≡ false
    → scan (suc n) at b ≡ (b at ∷ (scan n (at + 1) b).0, (scan n (at + 1) b).1)
unfolding scan
scan-more n at b z = rw (z, scan) refl

after_scan-more :
    (b : ℕ)
    → (s : List ℕ × Bool) → (o : Option (List ℕ))
    → prepend (b ∷ []) (after_scan s o) ≡ after_scan (b ∷ s.0, s.1) o
unfolding prepend
after_scan-more b (bs, true) o = refl
after_scan-more b (bs, false) o = prepend-prepend b bs o

user_string-page :
    (pt va n r at : ℕ)
    → (m : Phys) → Contiguous pt va n at m
    → user_string pt va (n + r) m ≡ after_scan (scan n at m.bytes) (user_string pt (va + n) r m)
unfolding scan
user_string-page pt va zero r at m h =
    ap (λ k. user_string pt va k m) (omega arith)
    ∙ sym (prepend-empty (user_string pt va r m))
    ∙ ap (λ a. prepend [] (user_string pt a r m)) (omega arith)
user_string-page pt va (suc n) r at m h =
    let (ne, e) = h va (omega arith) (omega arith) in
    ap (λ k. user_string pt va k m) (omega arith)
    ∙ user_string-next pt va (n + r) at m ne (omega arith)
    ∙ elim (Bool-cases (m.bytes at == 0)) [
      | inl z ↦ rw z (
          ap (λ s. after_scan s (user_string pt (va + suc n) r m)) (sym (scan-zero n at m.bytes z)))
      | inr z ↦
          let ih = user_string-page pt (va + 1) n r (at + 1) m (Contiguous-next pt va n at m h) in
          rw z (
            ap (prepend (m.bytes at ∷ [])) ih
            ∙ after_scan-more (m.bytes at) (scan n (at + 1) m.bytes)
                (user_string pt (va + 1 + n) r m)
            ∙ ap (λ s. after_scan s (user_string pt (va + 1 + n) r m))
                (sym (scan-more n at m.bytes z))
            ∙ ap (λ a. after_scan (scan (suc n) at m.bytes) (user_string pt a r m)) (omega arith))
    ]

copyinstr_from-stop :
    (fuel pt va left : ℕ)
    → (m : Phys) → walkaddr pt (pg_round_down va) m ≡ some 0
    → copyinstr_from (suc fuel) pt va (suc left) m ≡ some none
unfolding copyinstr_from
copyinstr_from-stop fuel pt va left m e = rw (e, copyinstr_from)

copyinstr_from-next :
    (fuel pt va left p : ℕ)
    → (m : Phys) → (o : Option (List ℕ)) → walkaddr pt (pg_round_down va) m ≡ some p
    → p ≢ 0
    → copyinstr_from fuel pt (pg_round_down va + pg_size) (suc left - chunk va (suc left)) m
      ≡ some o
    → copyinstr_from (suc fuel) pt va (suc left) m
      ≡ some (after_scan (scan (chunk va (suc left)) (p + (va - pg_round_down va)) m.bytes) o)
unfolding copyinstr_from prepend
copyinstr_from-next fuel pt va left p m o e ne h =
    let z : (p == 0) ≡ false = ground arith in
    let n = chunk va (suc left) in
    rw (e, copyinstr_from)
      (rw (z, ◌>>=◌)
        (elim (Bool-cases (scan n (p + (va - pg_round_down va)) m.bytes).1) [
          | inl y ↦ rw y refl
          | inr y ↦ rw y (
              rw (h, ◌>>=◌) (elim (Option-cases o) [ inl u ↦ rw u refl | inr (bs, u) ↦ rw u refl ]))
        ]))

user_string-after :
    (pt va len : ℕ)
    → (m : Phys)
    → user_string pt (pg_round_down va + pg_size) (len - chunk va len) m
      ≡ user_string pt (va + chunk va len) (len - chunk va len) m
unfolding user_string
user_string-after pt va len m = elim (chunk_next va len) [
  | inl z ↦
      ap (λ k. user_string pt (pg_round_down va + pg_size) k m) z
      ∙ ap (λ k. user_string pt (va + chunk va len) k m) (sym z)
  | inr e ↦ ap (λ a. user_string pt a (len - chunk va len) m) e
]

copyinstr_from-user :
    (root : ℕ)
    → (g : Tags) → (fuel va left : ℕ) → (m : Phys) → Tree root g m.words
    → left ≤ fuel
    → copyinstr_from fuel root va left m ≡ some (user_string root va left m)
unfolding copyinstr_from user_string
copyinstr_from-user root g fuel va zero m t le = refl
copyinstr_from-user root g zero va (suc left) m t le = absurd (omega arith)
copyinstr_from-user root g (suc fuel) va (suc left) m t le =
    let p = user_page root va m in
    let n = chunk va (suc left) in
    let addr : walkaddr root (pg_round_down va) m ≡ some p =
      walkaddr-page root g (pg_round_down va) m t ∙ ap some (round_page root va m) in
    elim (ℕ_discrete p 0) [
      | yes z ↦
          copyinstr_from-stop fuel root va left m (addr ∙ ap some z)
          ∙ ap some (sym (user_string-none root va left m z))
      | no ne ↦
          let (lo, hi) = chunk_bound va (suc left) (omega arith) in
          let rest = suc left - n in
          copyinstr_from-next fuel root va left p m
            (user_string root (pg_round_down va + pg_size) rest m) addr ne
            (copyinstr_from-user root g fuel (pg_round_down va + pg_size) rest m t (omega arith))
          ∙ ap
              (λ a. some (
                after_scan (scan n (p + a) m.bytes)
                  (user_string root (pg_round_down va + pg_size) rest m)))
              (let off : va - pg_round_down va ≡ va % 4096 = omega arith in off)
          ∙ ap (λ o. some (after_scan (scan n (p + va % 4096) m.bytes) o))
              (user_string-after root va (suc left) m)
          ∙ ap some (
              sym (
                user_string-page root va n rest (p + va % 4096) m
                  (Contiguous-page root va n m ne (chunk_le va (suc left)))))
          ∙ ap (λ k. some (user_string root va k m))
              (let all : n + rest ≡ suc left = omega arith in all)
    ]

-- With a page table that is a tree of tables, copyinstr never panics nor runs out of rounds: it copies the
-- string that user code sees at `va`, each byte through the translation of its own page, and fails
-- exactly where there is no 0 among the first `max` bytes or an address up to the 0 is not user memory.
pub copyinstr-user :
    (root : ℕ)
    → (g : Tags) → (va max : ℕ) → (m : Phys) → Tree root g m.words
    → copyinstr root va max m ≡ some (user_string root va max m)
unfolding copyinstr
copyinstr-user root g va max m t = copyinstr_from-user root g max va max m t (omega arith)
