-- ===== src/Vm/Copyout.antt =====
-- copyout, and what it may write.
use mathlib.Core.Path.{subst}
use os_proc_lap02_system_cal.Prelude.{
  length-drop, take-append-drop, length-take, ℕ, zero, suc, ◌+◌, ◌-◌, ◌*◌, ◌%◌, ◌≤◌, ◌<◌, ◌≡◌, ◌≢◌,
  inl, inr, refl, sym, ap, ◌∙◌, true, false, not, ◌||◌, some, List, [], ◌∷◌, arith, dec_lt,
  ℕ_discrete, leb, ◌==◌, if◌then◌else◌, Bool-cases, length, take, drop, ◌>>=◌,
}
use os_proc_lap02_system_cal.Layout.{pg_size, pg_round_down, max_va}
use os_proc_lap02_system_cal.Vm.{Phys, px, is_w, walk_down, walkaddr}
use os_proc_lap02_system_cal.Vm.Space.{put_bytes}
use os_proc_lap02_system_cal.Vm.Copy.{chunk, copyout_from, copyout}
use os_proc_lap02_system_cal.Vm.Tree.{
  Tags, Tree, missing, at_entry, walk_down-Found, prefix, entry_from,
}
use os_proc_lap02_system_cal.Vm.Mapping.{root_at, walk-some, entry_from-page}
use os_proc_lap02_system_cal.Vm.User.{
  user_page, walkaddr-page, chunk_le, chunk_bound, chunk_next, round_page,
}
use os_proc_lap02_system_cal.Vm.Storing.{
  write_page, store_user, store_user-none, store_user-page, Writable-page,
}

-- The two tests of `copyout` before a round say whether the page may be written.
write_page-writable :
    (pt va : ℕ)
    → (m : Phys) → va < max_va
    → write_page pt va m ≡ (if is_w (entry_from 2 pt va m.words) then user_page pt va m else 0)
unfolding write_page
write_page-writable pt va m lt = let z : leb max_va va ≡ false = ground arith in rw z refl

write_page-out : (pt va : ℕ) → (m : Phys) → max_va ≤ va → write_page pt va m ≡ 0
unfolding write_page
write_page-out pt va m le = let z : leb max_va va ≡ true = ground arith in rw z refl

round_lt : (va : ℕ) → pg_round_down va < max_va → va < max_va
round_lt va lt = omega arith

-- What the body of a round does with the page's entry at `at`.
module _ (root : ℕ) (g : Tags) (fuel va b : ℕ) (bs : List ℕ) (m : Phys)
    (t : Tree root g m.words) where
  addr : walkaddr root (pg_round_down va) m ≡ some (user_page root va m)
  addr = walkaddr-page root g (pg_round_down va) m t ∙ ap some (round_page root va m)

  copyout_from-out :
      max_va ≤ pg_round_down va → copyout_from (suc fuel) root va (b ∷ bs) m ≡ some (false, m)
  unfolding copyout_from
  copyout_from-out le =
      let z : leb max_va (pg_round_down va) ≡ true = ground arith in rw (z, copyout_from) refl

  copyout_from-unmapped :
      (at : ℕ)
      → pg_round_down va < max_va
      → walk_down 2 root (pg_round_down va) false m ≡ (at, m)
      → (at == 0 || not (is_w (m.words at))) ≡ true
      → copyout_from (suc fuel) root va (b ∷ bs) m ≡ some (false, m)
  unfolding copyout_from
  copyout_from-unmapped at lt e h =
      let z : leb max_va (pg_round_down va) ≡ false = ground arith in
      rw (z, copyout_from)
        (rw (walk-some root (pg_round_down va) false m lt ∙ ap some e) (rw (h, ◌>>=◌) refl))

  copyout_from-private :
      (at : ℕ)
      → pg_round_down va < max_va
      → walk_down 2 root (pg_round_down va) false m ≡ (at, m)
      → (at == 0 || not (is_w (m.words at))) ≡ false
      → user_page root va m ≡ 0
      → copyout_from (suc fuel) root va (b ∷ bs) m ≡ some (false, m)
  unfolding copyout_from
  copyout_from-private at lt e h u =
      let z : leb max_va (pg_round_down va) ≡ false = ground arith in
      rw (z, copyout_from)
        (rw (walk-some root (pg_round_down va) false m lt ∙ ap some e)
          (rw (h, ◌>>=◌) (rw (addr ∙ ap some u, ◌>>=◌) refl)))

  copyout_from-next :
      (at : ℕ)
      → pg_round_down va < max_va
      → walk_down 2 root (pg_round_down va) false m ≡ (at, m)
      → (at == 0 || not (is_w (m.words at))) ≡ false
      → (user_page root va m == 0) ≡ false
      → copyout_from (suc fuel) root va (b ∷ bs) m
        ≡ copyout_from fuel root
            (pg_round_down va + pg_size)
            (drop (chunk va (suc (length bs))) (b ∷ bs))
            (record m {
              bytes =
                  put_bytes
                    (user_page root va m + (va - pg_round_down va))
                    (take (chunk va (suc (length bs))) (b ∷ bs))
                    m.bytes;
            })
  unfolding copyout_from
  copyout_from-next at lt e h u =
      let z : leb max_va (pg_round_down va) ≡ false = ground arith in
      rw (z, copyout_from)
        (rw (walk-some root (pg_round_down va) false m lt ∙ ap some e)
          (rw (h, ◌>>=◌) (rw (addr, ◌>>=◌) (rw u refl))))

length-zero : (bs : List ℕ) → length bs ≡ 0 → bs ≡ []
length-zero [] e = refl
length-zero (b ∷ bs) e = absurd (omega arith)

store_user-after :
    (pt va : ℕ)
    → (bs : List ℕ) → (m : Phys)
    → store_user pt (pg_round_down va + pg_size) (drop (chunk va (length bs)) bs) m
      ≡ store_user pt (va + chunk va (length bs)) (drop (chunk va (length bs)) bs) m
unfolding store_user
store_user-after pt va bs m = elim (chunk_next va (length bs)) [
  | inl z ↦
      let e : drop (chunk va (length bs)) bs ≡ [] =
        length-zero (drop (chunk va (length bs)) bs) (length-drop (chunk va (length bs)) bs ∙ z) in
      ap (λ r. store_user pt (pg_round_down va + pg_size) r m) e
      ∙ ap (λ r. store_user pt (va + chunk va (length bs)) r m) (sym e)
  | inr e ↦ ap (λ a. store_user pt a (drop (chunk va (length bs)) bs) m) e
]

-- The round that writes, seen a byte at a time.
store_user-round :
    (pt va b : ℕ)
    → (bs : List ℕ) → (m : Phys) → write_page pt va m ≢ 0
    → store_user pt va (b ∷ bs) m
      ≡ store_user pt
          (pg_round_down va + pg_size)
          (drop (chunk va (suc (length bs))) (b ∷ bs))
          (record m {
            bytes =
                put_bytes
                  (write_page pt va m + (va - pg_round_down va))
                  (take (chunk va (suc (length bs))) (b ∷ bs))
                  m.bytes;
          })
store_user-round pt va b bs m ne =
    let n = chunk va (suc (length bs)) in
    let xs = take n (b ∷ bs) in
    let ys = drop n (b ∷ bs) in
    let p = write_page pt va m in
    let bound = chunk_bound va (suc (length bs)) (omega arith) in
    let len : length xs ≡ n = length-take n (b ∷ bs) ∙ omega (arith, bound.1) in
    let off : va % 4096 ≡ va - pg_round_down va = omega arith in
    ap (λ zs. store_user pt va zs m) (sym (take-append-drop n (b ∷ bs)))
    ∙ store_user-page pt va (p + va % 4096) xs ys m (
        Writable-page pt va (length xs) m ne
          (subst (λ k. va % 4096 + k ≤ 4096) (sym len) (chunk_le va (suc (length bs)))))
    ∙ ap
        (λ k. store_user pt (va + k) ys (record m { bytes = put_bytes (p + va % 4096) xs m.bytes }))
        len
    ∙ ap (λ k. store_user pt (va + n) ys (record m { bytes = put_bytes (p + k) xs m.bytes })) off
    ∙ sym (
        store_user-after pt va (b ∷ bs)
          (record m { bytes = put_bytes (p + (va - pg_round_down va)) xs m.bytes }))

page_entry :
    (pt va : ℕ)
    → (m : Phys) → entry_from 2 pt (pg_round_down va) m.words ≡ entry_from 2 pt va m.words
page_entry pt va m = entry_from-page 2 pt (pg_round_down va) va m.words (omega arith)

write_page-yes :
    (pt va : ℕ)
    → (m : Phys) → va < max_va
    → is_w (entry_from 2 pt va m.words) ≡ true
    → write_page pt va m ≡ user_page pt va m
write_page-yes pt va m lt w = write_page-writable pt va m lt ∙ rw w refl

write_page-no :
    (pt va : ℕ)
    → (m : Phys) → va < max_va
    → is_w (entry_from 2 pt va m.words) ≡ false
    → write_page pt va m ≡ 0
write_page-no pt va m lt w = write_page-writable pt va m lt ∙ rw w refl

copyout_from-user :
    (root : ℕ)
    → (g : Tags) → (fuel va : ℕ) → (bs : List ℕ) → (m : Phys) → Tree root g m.words
    → length bs ≤ fuel
    → copyout_from fuel root va bs m ≡ some (store_user root va bs m)
unfolding copyout_from store_user
copyout_from-user root g fuel va [] m t le = refl
copyout_from-user root g zero va (b ∷ bs) m t le = absurd (omega arith)
copyout_from-user root g (suc fuel) va (b ∷ bs) m t le =
    let stop : write_page root va m ≡ 0 → some (false, m) ≡ some (store_user root va (b ∷ bs) m) =
      λ z. ap some (sym (store_user-none root va b bs m z)) in
    elim (dec_lt (pg_round_down va) max_va) [
      | no out ↦
          copyout_from-out root g fuel va b bs m t (omega arith)
          ∙ stop (write_page-out root va m (omega arith))
      | yes lt ↦
          let vlt = round_lt va lt in
          elim (walk_down-Found root g (pg_round_down va) 2 root m t (omega arith)
            (root_at root (pg_round_down va) g m.words t lt)) [
              | missing e none_there ↦
                  copyout_from-unmapped root g fuel va b bs m t 0 lt e refl
                  ∙ stop (
                      write_page-no root va m vlt
                        (ap is_w (sym (page_entry root va m) ∙ none_there)))
              | at_entry q tag e there ↦
                  let at = q + 8 * px 0 (pg_round_down va) in
                  let ne : (at == 0) ≡ false =
                    let z = t.positive q 0 (prefix 0 (pg_round_down va)) tag in ground arith in
                  let pte : entry_from 2 root va m.words ≡ m.words at =
                    sym (page_entry root va m) ∙ there in
                  elim (Bool-cases (is_w (m.words at))) [
                    | inr no_w ↦
                        copyout_from-unmapped root g fuel va b bs m t at lt e (rw (ne, no_w) refl)
                        ∙ stop (write_page-no root va m vlt (ap is_w pte ∙ no_w))
                    | inl w ↦
                        let wp = write_page-yes root va m vlt (ap is_w pte ∙ w) in
                        elim (ℕ_discrete (user_page root va m) 0) [
                          | yes z ↦
                              copyout_from-private root g fuel va b bs m t at lt e (rw (ne, w) refl)
                                z
                              ∙ stop (wp ∙ z)
                          | no some_page ↦
                              let n = chunk va (suc (length bs)) in
                              let n_pos = (chunk_bound va (suc (length bs)) (omega arith)).0 in
                              copyout_from-next root g fuel va b bs m t at lt e (rw (ne, w) refl)
                                (ground arith)
                              ∙ copyout_from-user root g fuel (pg_round_down va + pg_size)
                                  (drop n (b ∷ bs))
                                  (record m {
                                    bytes =
                                        put_bytes (user_page root va m + (va - pg_round_down va))
                                          (take n (b ∷ bs)) m.bytes;
                                  })
                                  t (omega (arith, length-drop n (b ∷ bs)))
                              ∙ ap
                                  (λ p. some (
                                    store_user root (pg_round_down va + pg_size) (drop n (b ∷ bs))
                                      (record m {
                                        bytes =
                                            put_bytes (p + (va - pg_round_down va))
                                              (take n (b ∷ bs)) m.bytes;
                                      })))
                                  (sym wp)
                              ∙ ap some (
                                  sym
                                    (store_user-round root va b bs m (λ z. some_page (sym wp ∙ z))))
                        ]
                  ]
            ]
    ]

-- With a page table that is a tree of tables, copyout never panics nor runs out of rounds: it writes the
-- bytes of `src` one after the other, each at the place that user code sees at its address, and
-- fails at the first whose address is MAXVA or more, or whose page is not valid, not writable, not
-- for user code or at physical address 0; the bytes before it stay written.
pub copyout-user :
    (root : ℕ)
    → (g : Tags) → (dstva : ℕ) → (src : List ℕ) → (m : Phys) → Tree root g m.words
    → copyout root dstva src m ≡ some (store_user root dstva src m)
unfolding copyout
copyout-user root g dstva src m t =
    copyout_from-user root g (length src) dstva src m t (omega arith)
