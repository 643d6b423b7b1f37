-- ===== src/Vm/Storing.antt =====
-- copyout writes user memory a byte at a time.
use os_proc_lap02_system_cal.Prelude.{
  ℕ, suc, ◌+◌, ◌-◌, ◌/◌, ◌%◌, ◌≤◌, ◌<◌, ◌≡◌, ◌≢◌, refl, sym, ap, ◌∙◌, fun_ext, Bool, true, false,
  List, [], ◌∷◌, ◌++◌, arith, dec_lt, ℕ_discrete, ltb, leb, ◌==◌, if◌then◌else◌, length, get_or,
  update,
}
use os_proc_lap02_system_cal.Layout.{max_va}
use os_proc_lap02_system_cal.Vm.{Phys, is_w}
use os_proc_lap02_system_cal.Vm.Space.{put_bytes}
use os_proc_lap02_system_cal.Vm.Tree.{entry_from}
use os_proc_lap02_system_cal.Vm.Mapping.{entry_from-page}
use os_proc_lap02_system_cal.Vm.User.{user_page, user_page-page}

-- The physical page that user code may write at an address, or 0.
unfoldable pub write_page : ℕ → ℕ → Phys → ℕ
write_page pt va m =
    if leb max_va va then 0 else if is_w (entry_from 2 pt va m.words) then user_page pt va m else 0

-- `bs` to user memory from `va` on, a byte at a time, up to the first byte that may not be written.
unfoldable pub store_user : ℕ → ℕ → List ℕ → Phys → Bool × Phys
store_user pt va [] m = (true, m)
store_user pt va (b ∷ bs) m =
    let next =
      store_user pt (va + 1) bs
        (record m { bytes = update m.bytes (write_page pt va m + va % 4096) b }) in
    if write_page pt va m == 0 then (false, m) else next

pub write_page-page :
    (pt va va' : ℕ) → (m : Phys) → va / 4096 ≡ va' / 4096 → write_page pt va m ≡ write_page pt va' m
unfolding write_page
write_page-page pt va va' m e =
    let z : leb max_va va ≡ leb max_va va' = ground arith in
    ap (λ b. if b then 0 else if is_w (entry_from 2 pt va m.words) then user_page pt va m else 0) z
    ∙ ap (λ pte. if leb max_va va' then 0 else if is_w pte then user_page pt va m else 0)
        (entry_from-page 2 pt va va' m.words e)
    ∙ ap (λ p. if leb max_va va' then 0 else if is_w (entry_from 2 pt va' m.words) then p else 0)
        (user_page-page pt va va' m e)

-- Memory with other bytes has the same pages.
pub same_pages :
    (pt va : ℕ)
    → (m : Phys) → (b : ℕ → ℕ) → write_page pt va (record m { bytes = b }) ≡ write_page pt va m
unfolding write_page user_page
same_pages pt va m b = refl

abbrev pub Writable : ℕ → ℕ → ℕ → ℕ → Phys → Type 0
Writable pt va n at m =
    (x : ℕ)
    → va ≤ x
    → x < va + n
    → (write_page pt x m ≢ 0) × (write_page pt x m + x % 4096 ≡ at + (x - va))

pub Writable-next :
    (pt va n at : ℕ)
    → (m : Phys) → (b : ℕ → ℕ) → Writable pt va (suc n) at m
    → Writable pt (va + 1) n (at + 1) (record m { bytes = b })
Writable-next pt va n at m b h x lo hi =
    let (ne, e) = h x (omega arith) (omega arith) in
    let s = same_pages pt x m b in (λ z. ne (sym s ∙ z), ap (λ p. p + x % 4096) s ∙ omega arith)

pub Writable-page :
    (pt va n : ℕ)
    → (m : Phys) → write_page pt va m ≢ 0
    → va % 4096 + n ≤ 4096
    → Writable pt va n (write_page pt va m + va % 4096) m
Writable-page pt va n m ne le x lo hi =
    let same = write_page-page pt x va m (omega arith) in
    (λ z. ne (sym same ∙ z), ap (λ p. p + x % 4096) same ∙ omega arith)

put_bytes-empty : (at : ℕ) → (b : ℕ → ℕ) → put_bytes at [] b ≡ b
put_bytes-empty at b = fun_ext (λ a. ground arith)

put_bytes-more :
    (at x : ℕ)
    → (xs : List ℕ) → (b : ℕ → ℕ) → put_bytes (at + 1) xs (update b at x) ≡ put_bytes at (x ∷ xs) b
put_bytes-more at x xs b = fun_ext (λ a. elim (dec_lt at a) [
  | yes lt ↦
      let same : get_or xs (a - (at + 1)) 0 ≡ get_or (x ∷ xs) (a - at) 0 =
        ap (λ i. get_or (x ∷ xs) i 0) (let i : suc (a - (at + 1)) ≡ a - at = omega arith in i) in
      let below : leb (at + 1) a ≡ leb at a = ground arith in
      let above : ltb a (at + 1 + length xs) ≡ ltb a (at + suc (length xs)) = ground arith in
      let other : (at == a) ≡ false = ground arith in rw (below, above, same, other) refl
  | no ge ↦ elim (ℕ_discrete at a) [
    | yes e ↦
        let below : leb (at + 1) a ≡ false = ground arith in
        let first : leb at a ≡ true = ground arith in
        let last : ltb a (at + suc (length xs)) ≡ true = ground arith in
        let here : (at == a) ≡ true = ground arith in
        let zero_off : a - at ≡ 0 = omega arith in rw (below, first, last, here, zero_off) refl
    | no ne ↦
        let below : leb (at + 1) a ≡ false = ground arith in
        let first : leb at a ≡ false = ground arith in
        let other : (at == a) ≡ false = ground arith in rw (below, first, other) refl
  ]
])

pub store_user-none :
    (pt va b : ℕ)
    → (bs : List ℕ) → (m : Phys) → write_page pt va m ≡ 0
    → store_user pt va (b ∷ bs) m ≡ (false, m)
unfolding store_user
store_user-none pt va b bs m e =
    let z : (write_page pt va m == 0) ≡ true = ground arith in rw z refl

pub store_user-next :
    (pt va at b : ℕ)
    → (bs : List ℕ) → (m : Phys) → write_page pt va m ≢ 0
    → write_page pt va m + va % 4096 ≡ at
    → store_user pt va (b ∷ bs) m
      ≡ store_user pt (va + 1) bs (record m { bytes = update m.bytes at b })
unfolding store_user
store_user-next pt va at b bs m ne e =
    let z : (write_page pt va m == 0) ≡ false = ground arith in
    rw z (ap (λ a. store_user pt (va + 1) bs (record m { bytes = update m.bytes a b })) e)

pub store_user-page :
    (pt va at : ℕ)
    → (xs ys : List ℕ) → (m : Phys) → Writable pt va (length xs) at m
    → store_user pt va (xs ++ ys) m
      ≡ store_user pt (va + length xs) ys (record m { bytes = put_bytes at xs m.bytes })
store_user-page pt va at [] ys m h =
    ap (λ a. store_user pt a ys m) (omega arith)
    ∙ ap (λ b. store_user pt (va + 0) ys (record m { bytes = b }))
        (sym (put_bytes-empty at m.bytes))
store_user-page pt va at (x ∷ xs) ys m h =
    let (ne, e) = h va (omega arith) (omega arith) in
    store_user-next pt va at x (xs ++ ys) m ne (omega arith)
    ∙ store_user-page pt (va + 1) (at + 1) xs ys (record m { bytes = update m.bytes at x })
        (Writable-next pt va (length xs) at m (update m.bytes at x) h)
    ∙ ap (λ b. store_user pt (va + 1 + length xs) ys (record m { bytes = b }))
        (put_bytes-more at x xs m.bytes)
    ∙ ap (λ a. store_user pt a ys (record m { bytes = put_bytes at (x ∷ xs) m.bytes }))
        (omega arith)
