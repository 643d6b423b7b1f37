-- ===== src/Vm/Copy.antt =====
-- kernel/vm.c: copying between the kernel and user memory.
use os_proc_lap02_system_cal.Prelude.{
  ℕ, zero, suc, ◌+◌, ◌-◌, Bool, true, false, not, ◌||◌, Option, none, some, List, [], ◌∷◌, ◌++◌,
  ltb, leb, ◌==◌, if◌then◌else◌, length, take, drop, ◌>>=◌,
}
use os_proc_lap02_system_cal.Layout.{pg_size, pg_round_down, max_va}
use os_proc_lap02_system_cal.Vm.{Phys, is_w, walk, walkaddr}
use os_proc_lap02_system_cal.Vm.Space.{put_bytes}

-- The bytes of one round that begins at `va`, of `len` that are left.
abbrev pub chunk : ℕ → ℕ → ℕ
chunk va len = let n = pg_size - (va - pg_round_down va) in if ltb len n then len else n

-- `n` bytes from a physical address on.
abbrev pub get_bytes : ℕ → ℕ → (ℕ → ℕ) → List ℕ
get_bytes zero at m = []
get_bytes (suc n) at m = m at ∷ get_bytes n (at + 1) m

-- The loop of `copyout`. Each round copies a byte at least, so `fuel` rounds do for `fuel` bytes; an
-- empty rest ends the loop.
unfoldable pub copyout_from : ℕ → ℕ → ℕ → List ℕ → Phys → Option (Bool × Phys)
copyout_from fuel pt dstva [] m = some (true, m)
copyout_from zero pt dstva (b ∷ bs) m = none
copyout_from (suc fuel) pt dstva (b ∷ bs) m =
    let src = b ∷ bs in
    let va0 = pg_round_down dstva in
    elim (leb max_va va0) [
      | true ↦ some (false, m)
      | false ↦ walk pt va0 false m >>= λ (at, _). elim (at == 0 || not (is_w (m.words at))) [
        | true ↦ some (false, m)
        | false ↦ walkaddr pt va0 m >>= λ pa0. elim (pa0 == 0) [
          | true ↦ some (false, m)
          | false ↦
              let n = chunk dstva (length src) in
              copyout_from fuel pt (va0 + pg_size) (drop n src)
                (record m { bytes = put_bytes (pa0 + (dstva - va0)) (take n src) m.bytes })
        ]
      ]
    ]

unfoldable pub copyout : ℕ → ℕ → List ℕ → Phys → Option (Bool × Phys)
copyout pt dstva src m = copyout_from (length src) pt dstva src m

-- The loop of `copyin`, with `len` bytes left.
unfoldable pub copyin_from : ℕ → ℕ → ℕ → ℕ → Phys → Option (Option (List ℕ))
copyin_from fuel pt srcva zero m = some (some [])
copyin_from zero pt srcva (suc len) m = none
copyin_from (suc fuel) pt srcva (suc len) m =
    let va0 = pg_round_down srcva in
    walkaddr pt va0 m >>= λ pa0. elim (pa0 == 0) [
      | true ↦ some none
      | false ↦
          let n = chunk srcva (suc len) in
          copyin_from fuel pt (va0 + pg_size) (suc len - n) m >>= λ o. elim o [
            | none ↦ some none
            | some bs ↦ some (some (get_bytes n (pa0 + (srcva - va0)) m.bytes ++ bs))
          ]
    ]

unfoldable pub copyin : ℕ → ℕ → ℕ → Phys → Option (Option (List ℕ))
copyin pt srcva len m = copyin_from len pt srcva len m

-- The inner loop of `copyinstr` over `n` bytes: the bytes before a terminator and whether there is one.
unfoldable pub scan : ℕ → ℕ → (ℕ → ℕ) → List ℕ × Bool
scan zero at m = ([], false)
scan (suc n) at m =
    let (bs, found) = scan n (at + 1) m in
    elim (m at == 0) [ true ↦ ([], true) | false ↦ (m at ∷ bs, found) ]

-- The outer loop, with `left` bytes of `max` left: the string without its terminator.
unfoldable pub copyinstr_from : ℕ → ℕ → ℕ → ℕ → Phys → Option (Option (List ℕ))
unfolding scan
copyinstr_from fuel pt srcva zero m = some none
copyinstr_from zero pt srcva (suc left) m = none
copyinstr_from (suc fuel) pt srcva (suc left) m =
    let va0 = pg_round_down srcva in
    walkaddr pt va0 m >>= λ pa0. elim (pa0 == 0) [
      | true ↦ some none
      | false ↦
          let n = chunk srcva (suc left) in
          let (bs, found) = scan n (pa0 + (srcva - va0)) m.bytes in
          elim found [
            | true ↦ some (some bs)
            | false ↦ copyinstr_from fuel pt (va0 + pg_size) (suc left - n) m >>= λ o. elim o [
              | none ↦ some none
              | some rest ↦ some (some (bs ++ rest))
            ]
          ]
    ]

unfoldable pub copyinstr : ℕ → ℕ → ℕ → Phys → Option (Option (List ℕ))
copyinstr pt srcva max m = copyinstr_from max pt srcva max m
