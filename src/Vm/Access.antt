-- ===== src/Vm/Access.antt =====
-- copyin reads user memory a byte at a time.
use os_proc_lap02_system_cal.Prelude.{
  ℕ, zero, suc, ◌+◌, ◌-◌, ◌%◌, ◌≤◌, ◌≡◌, ◌≢◌, refl, sym, ap, ◌∙◌, false, Option, none, some, List,
  arith, ℕ_discrete, ◌==◌, ◌>>=◌,
}
use os_proc_lap02_system_cal.Layout.{pg_size, pg_round_down}
use os_proc_lap02_system_cal.Vm.{Phys, walkaddr}
use os_proc_lap02_system_cal.Vm.Copy.{chunk, get_bytes, copyin_from, copyin}
use os_proc_lap02_system_cal.Vm.Tree.{Tags, Tree}
use os_proc_lap02_system_cal.Vm.User.{
  user_page, user_bytes, prepend, walkaddr-page, Contiguous-page, user_bytes-page, chunk_le,
  chunk_bound, round_page, user_bytes-none, user_bytes-after,
}

copyin_from-stop :
    (fuel pt va len : ℕ)
    → (m : Phys) → walkaddr pt (pg_round_down va) m ≡ some 0
    → copyin_from (suc fuel) pt va (suc len) m ≡ some none
unfolding copyin_from
copyin_from-stop fuel pt va len m e = rw (e, copyin_from)

copyin_from-next :
    (fuel pt va len p : ℕ)
    → (m : Phys) → (o : Option (List ℕ)) → walkaddr pt (pg_round_down va) m ≡ some p
    → p ≢ 0
    → copyin_from fuel pt (pg_round_down va + pg_size) (suc len - chunk va (suc len)) m ≡ some o
    → copyin_from (suc fuel) pt va (suc len) m
      ≡ some (prepend (get_bytes (chunk va (suc len)) (p + (va - pg_round_down va)) m.bytes) o)
unfolding copyin_from prepend
copyin_from-next fuel pt va len p m none e ne h =
    let z : (p == 0) ≡ false = ground arith in
    rw (e, copyin_from) (rw (z, ◌>>=◌) (rw (h, ◌>>=◌) refl))
copyin_from-next fuel pt va len p m (some bs) e ne h =
    let z : (p == 0) ≡ false = ground arith in
    rw (e, copyin_from) (rw (z, ◌>>=◌) (rw (h, ◌>>=◌) refl))

copyin_from-user :
    (root : ℕ)
    → (g : Tags) → (fuel va len : ℕ) → (m : Phys) → Tree root g m.words
    → len ≤ fuel
    → copyin_from fuel root va len m ≡ some (user_bytes root va len m)
unfolding copyin_from user_bytes
copyin_from-user root g fuel va zero m t le = refl
copyin_from-user root g zero va (suc len) m t le = absurd (omega arith)
copyin_from-user root g (suc fuel) va (suc len) m t le =
    let p = user_page root va m in
    let n = chunk va (suc len) in
    let addr : walkaddr root (pg_round_down va) m ≡ some p =
      walkaddr-page root g (pg_round_down va) m t ∙ ap some (round_page root va m) in
    elim (ℕ_discrete p 0) [
      | yes z ↦
          copyin_from-stop fuel root va len m (addr ∙ ap some z)
          ∙ ap some (sym (user_bytes-none root va len m z))
      | no ne ↦
          let (lo, hi) = chunk_bound va (suc len) (omega arith) in
          let rest = suc len - n in
          copyin_from-next fuel root va len p m
            (user_bytes root (pg_round_down va + pg_size) rest m) addr ne
            (copyin_from-user root g fuel (pg_round_down va + pg_size) rest m t (omega arith))
          ∙ ap (λ o. some (prepend (get_bytes n (p + (va - pg_round_down va)) m.bytes) o))
              (user_bytes-after root va (suc len) m)
          ∙ ap (λ a. some (prepend (get_bytes n (p + a) m.bytes) (user_bytes root (va + n) rest m)))
              (omega arith)
          ∙ ap some (
              sym (
                user_bytes-page root va n rest (p + va % 4096) m
                  (Contiguous-page root va n m ne (chunk_le va (suc len)))))
          ∙ ap (λ k. some (user_bytes root va k m))
              (let all : n + rest ≡ suc len = omega arith in all)
    ]

-- With a page table that is a tree of tables, copyin never panics nor runs out of rounds: it returns the
-- bytes that user code sees at `va` and the `len` - 1 addresses after it, each through the translation
-- of its own page, and fails exactly where one of these addresses is MAXVA or more, or its page is not
-- valid, not for user code or at physical address 0.
pub copyin-user :
    (root : ℕ)
    → (g : Tags) → (va len : ℕ) → (m : Phys) → Tree root g m.words
    → copyin root va len m ≡ some (user_bytes root va len m)
unfolding copyin
copyin-user root g va len m t = copyin_from-user root g len va len m t (omega arith)
