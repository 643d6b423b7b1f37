-- ===== src/Vm/User.antt =====
-- User memory a byte at a time, and copyin as that.
use os_proc_lap02_system_cal.Prelude.{
  ℕ, zero, suc, ◌+◌, ◌-◌, ◌*◌, ◌/◌, ◌%◌, ◌≤◌, ◌<◌, ◌≡◌, ◌≢◌, ◌⊎◌, inl, inr, refl, sym, ap, ◌∙◌,
  true, false, not, Option, none, some, List, [], ◌∷◌, ◌++◌, arith, dec_lt, ltb, leb, ◌==◌,
  if◌then◌else◌, Bool-cases, ◌>>=◌,
}
use os_proc_lap02_system_cal.Layout.{pg_size, pg_round_down, max_va}
use os_proc_lap02_system_cal.Vm.{Phys, px, pte2pa, is_v, is_u, walkaddr}
use os_proc_lap02_system_cal.Vm.Copy.{chunk, get_bytes}
use os_proc_lap02_system_cal.Vm.Tree.{
  Tags, Tree, missing, at_entry, walk_down-Found, prefix, entry_from,
}
use os_proc_lap02_system_cal.Vm.Mapping.{root_at, entry_from-page}

-- The physical page that an entry gives to user code, or 0.
abbrev pub readable : ℕ → ℕ
readable pte = if not (is_v pte) then 0 else if not (is_u pte) then 0 else pte2pa pte

-- The physical page of a user address, or 0. An address of MAXVA or more has none.
unfoldable pub user_page : ℕ → ℕ → Phys → ℕ
user_page pt va m = if leb max_va va then 0 else readable (entry_from 2 pt va m.words)

-- `bs` before a result that may be missing.
unfoldable pub prepend : List ℕ → Option (List ℕ) → Option (List ℕ)
prepend bs none = none
prepend bs (some r) = some (bs ++ r)

-- `n` bytes of user memory from `va` on, each through its own translation.
unfoldable pub user_bytes : ℕ → ℕ → ℕ → Phys → Option (List ℕ)
unfolding user_page prepend
user_bytes pt va zero m = some []
user_bytes pt va (suc n) m =
    let rest = user_bytes pt (va + 1) n m in
    if user_page pt va m == 0
    then none
    else prepend (m.bytes (user_page pt va m + va % 4096) ∷ []) rest

pub user_page-page :
    (pt va va' : ℕ) → (m : Phys) → va / 4096 ≡ va' / 4096 → user_page pt va m ≡ user_page pt va' m
unfolding user_page
user_page-page pt va va' m e =
    let z : leb max_va va ≡ leb max_va va' = ground arith in
    ap (λ b. if b then 0 else readable (entry_from 2 pt va m.words)) z
    ∙ ap (λ pte. if leb max_va va' then 0 else readable pte) (entry_from-page 2 pt va va' m.words e)

pub walkaddr-page :
    (root : ℕ)
    → (g : Tags) → (va : ℕ) → (m : Phys) → Tree root g m.words
    → walkaddr root va m ≡ some (user_page root va m)
unfolding walkaddr user_page
walkaddr-page root g va m t = elim (Bool-cases (leb max_va va)) [
  | inl out ↦ rw out refl
  | inr inside ↦
      let lt : va < max_va = ground arith in
      elim (walk_down-Found root g va 2 root m t (omega arith) (root_at root va g m.words t lt)) [
        | missing e none_there ↦ rw inside (rw (e, ◌>>=◌) (rw none_there refl))
        | at_entry q tag e there ↦
            let ne : (q + 8 * px 0 va == 0) ≡ false =
              let z = t.positive q 0 (prefix 0 va) tag in ground arith in
            rw inside (rw (e, ◌>>=◌) (rw ne (rw there refl)))
      ]
]

pub prepend-empty : (o : Option (List ℕ)) → prepend [] o ≡ o
unfolding prepend
prepend-empty none = refl
prepend-empty (some bs) = refl

pub prepend-prepend :
    (b : ℕ)
    → (bs : List ℕ) → (o : Option (List ℕ)) → prepend (b ∷ []) (prepend bs o) ≡ prepend (b ∷ bs) o
unfolding prepend
prepend-prepend b bs none = refl
prepend-prepend b bs (some r) = refl

-- `n` user addresses from `va` on that are `n` physical ones from `at` on.
abbrev pub Contiguous : ℕ → ℕ → ℕ → ℕ → Phys → Type 0
Contiguous pt va n at m =
    (x : ℕ)
    → va ≤ x
    → x < va + n
    → (user_page pt x m ≢ 0) × (user_page pt x m + x % 4096 ≡ at + (x - va))

pub Contiguous-next :
    (pt va n at : ℕ)
    → (m : Phys) → Contiguous pt va (suc n) at m
    → Contiguous pt (va + 1) n (at + 1) m
Contiguous-next pt va n at m h x lo hi =
    let (ne, e) = h x (omega arith) (omega arith) in (ne, omega arith)

pub Contiguous-page :
    (pt va n : ℕ)
    → (m : Phys) → user_page pt va m ≢ 0
    → va % 4096 + n ≤ 4096
    → Contiguous pt va n (user_page pt va m + va % 4096) m
Contiguous-page pt va n m ne le x lo hi =
    let same = user_page-page pt x va m (omega arith) in
    (λ z. ne (sym same ∙ z), ap (λ p. p + x % 4096) same ∙ omega arith)

user_bytes-next :
    (pt va n at : ℕ)
    → (m : Phys) → user_page pt va m ≢ 0
    → user_page pt va m + va % 4096 ≡ at
    → user_bytes pt va (suc n) m ≡ prepend (m.bytes at ∷ []) (user_bytes pt (va + 1) n m)
unfolding user_bytes
user_bytes-next pt va n at m ne e =
    let z : (user_page pt va m == 0) ≡ false = ground arith in
    rw z (ap (λ a. prepend (m.bytes a ∷ []) (user_bytes pt (va + 1) n m)) e)

-- The bytes of one page.
pub user_bytes-page :
    (pt va n r at : ℕ)
    → (m : Phys) → Contiguous pt va n at m
    → user_bytes pt va (n + r) m ≡ prepend (get_bytes n at m.bytes) (user_bytes pt (va + n) r m)
user_bytes-page pt va zero r at m h =
    ap (λ k. user_bytes pt va k m) (omega arith)
    ∙ sym (prepend-empty (user_bytes pt va r m))
    ∙ ap (λ a. prepend [] (user_bytes pt a r m)) (omega arith)
user_bytes-page pt va (suc n) r at m h =
    let (ne, e) = h va (omega arith) (omega arith) in
    ap (λ k. user_bytes pt va k m) (omega arith)
    ∙ user_bytes-next pt va (n + r) at m ne (omega arith)
    ∙ ap (prepend (m.bytes at ∷ []))
        (user_bytes-page pt (va + 1) n r (at + 1) m (Contiguous-next pt va n at m h))
    ∙ prepend-prepend (m.bytes at) (get_bytes n (at + 1) m.bytes) (user_bytes pt (va + 1 + n) r m)
    ∙ ap (λ a. prepend (get_bytes (suc n) at m.bytes) (user_bytes pt a r m)) (omega arith)

-- A round of `copyin` and the other loops ends at the page's end or at the end of the bytes.
pub chunk_le : (va len : ℕ) → va % 4096 + chunk va len ≤ 4096
chunk_le va len = ground arith

pub chunk_bound : (va len : ℕ) → 0 < len → (0 < chunk va len) × (chunk va len ≤ len)
chunk_bound va len pos = (ground arith, ground arith)

pub chunk_next :
    (va len : ℕ) → (len - chunk va len ≡ 0) ⊎ (pg_round_down va + pg_size ≡ va + chunk va len)
chunk_next va len = elim (dec_lt len (4096 - va % 4096)) [
  | yes lt ↦
      let z : ltb len (pg_size - (va - pg_round_down va)) ≡ true = ground arith in
      inl (rw z (omega arith))
  | no ge ↦
      let z : ltb len (pg_size - (va - pg_round_down va)) ≡ false = ground arith in
      inr (rw z (omega arith))
]

pub round_page : (pt va : ℕ) → (m : Phys) → user_page pt (pg_round_down va) m ≡ user_page pt va m
round_page pt va m = user_page-page pt (pg_round_down va) va m (omega arith)

pub user_bytes-none :
    (pt va n : ℕ) → (m : Phys) → user_page pt va m ≡ 0 → user_bytes pt va (suc n) m ≡ none
unfolding user_bytes
user_bytes-none pt va n m e = let z : (user_page pt va m == 0) ≡ true = ground arith in rw z refl

pub user_bytes-after :
    (pt va len : ℕ)
    → (m : Phys)
    → user_bytes pt (pg_round_down va + pg_size) (len - chunk va len) m
      ≡ user_bytes pt (va + chunk va len) (len - chunk va len) m
unfolding user_bytes
user_bytes-after pt va len m = elim (chunk_next va len) [
  | inl z ↦
      ap (λ k. user_bytes pt (pg_round_down va + pg_size) k m) z
      ∙ ap (λ k. user_bytes pt (va + chunk va len) k m) (sym z)
  | inr e ↦ ap (λ a. user_bytes pt a (len - chunk va len) m) e
]
