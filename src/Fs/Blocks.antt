-- ===== src/Fs/Blocks.antt =====
-- bmap: the block that it returns is the one that it returns again.
use mathlib.Core.Path.{subst}
use mathlib.Core.Option.{some-injective}
use os_proc_lap02_system_cal.Prelude.{
  ℕ, zero, suc, ◌+◌, ◌-◌, ◌*◌, ◌/◌, ◌^◌, ◌≤◌, ◌<◌, ◌≡◌, ◌≢◌, ◌⊎◌, inl, inr, refl, sym, ap, ◌∙◌,
  true, false, Option, some, arith, dec_lt, ℕ_discrete, ltb, ◌==◌, if◌then◌else◌, Option-cases,
  update, update_self, Ensures,
}
use os_proc_lap02_system_cal.Fs.{
  Fs, get_le, put_le, put_block, log_call, bpb, bblock, find_clear, mark_block, bzero, balloc_from,
  balloc, n_direct, n_indirect,
}
use os_proc_lap02_system_cal.Fs.Content.{set_addr, addr_or_new, indirect, bmap}
use os_proc_lap02_system_cal.Fs.Bitmap.{
  Found, nowhere, first, find_clear-Found, balloc_from-some, balloc_from-none, disk-put_self,
}
use os_proc_lap02_system_cal.Fs.Fields.{get_le-put_le}

-- What a call of balloc keeps, whatever the bitmap holds.
pub record Kept (s : Fs) (r : ℕ × Fs) : Type 0 where
  pub itable : r.1.itable ≡ s.itable
  pub sb : r.1.sb ≡ s.sb
  pub bound : (r.0 ≡ 0) ⊎ (r.0 < s.sb.size)

mark_block-Kept :
    (dev b bi : ℕ) → (s : Fs) → b + bi < s.sb.size → Kept s (b + bi, mark_block dev b bi s)
unfolding mark_block bzero
mark_block-Kept dev b bi s lt = record { itable = refl; sb = refl; bound = inr lt }

Found-inside :
    (left bi b size k : ℕ)
    → (d : ℕ → ℕ) → (o : Option ℕ) → o ≡ some k
    → Found left bi b size d o
    → b + k < size
Found-inside left bi b size k d _ e (nowhere h) = cc e
Found-inside left bi b size k d _ e (first j lo hi lt clear) =
    subst (λ x. b + x < size) (some-injective j k e) lt

balloc_from-Kept : (rounds b dev : ℕ) → (s : Fs) → Kept s (balloc_from rounds b dev s)
unfolding balloc_from
balloc_from-Kept zero b dev s = record { itable = refl; sb = refl; bound = inl refl }
balloc_from-Kept (suc rounds) b dev s =
    elim (Option-cases (find_clear bpb 0 b s.sb.size (s.disk dev (bblock b s)))) [
      | inl e ↦ rw (balloc_from-none rounds b dev s e) (balloc_from-Kept rounds (b + bpb) dev s)
      | inr (bi, e) ↦ rw (balloc_from-some rounds b bi dev s e) (
          mark_block-Kept dev b bi s (
            Found-inside bpb 0 b s.sb.size bi (s.disk dev (bblock b s)) _ e
              (find_clear-Found bpb 0 b s.sb.size (s.disk dev (bblock b s)))))
    ]

pub balloc-Kept : (dev : ℕ) → (s : Fs) → Kept s (balloc dev s)
unfolding balloc
balloc-Kept dev s = balloc_from-Kept ((s.sb.size + bpb - 1) / bpb) 0 dev s

addr_or_new-old :
    (i k : ℕ) → (s : Fs) → (s.itable i).addrs k ≢ 0 → addr_or_new i k s ≡ ((s.itable i).addrs k, s)
unfolding addr_or_new
addr_or_new-old i k s ne =
    let z : ((s.itable i).addrs k == 0) ≡ false = ground arith in rw (z, addr_or_new) refl

addr_or_new-full :
    (i k : ℕ)
    → (s : Fs) → (s.itable i).addrs k ≡ 0
    → (balloc (s.itable i).dev s).0 ≡ 0
    → addr_or_new i k s ≡ (0, (balloc (s.itable i).dev s).1)
unfolding addr_or_new
addr_or_new-full i k s z full =
    let y : ((s.itable i).addrs k == 0) ≡ true = ground arith in
    let f : ((balloc (s.itable i).dev s).0 == 0) ≡ true = ground arith in
    rw (y, addr_or_new) (rw f refl)

addr_or_new-new :
    (i k : ℕ)
    → (s : Fs) → (s.itable i).addrs k ≡ 0
    → (balloc (s.itable i).dev s).0 ≢ 0
    → addr_or_new i k s ≡ (
      (balloc (s.itable i).dev s).0,
      set_addr i k (balloc (s.itable i).dev s).0 (balloc (s.itable i).dev s).1,
    )
unfolding addr_or_new
addr_or_new-new i k s z ne =
    let y : ((s.itable i).addrs k == 0) ≡ true = ground arith in
    let f : ((balloc (s.itable i).dev s).0 == 0) ≡ false = ground arith in
    rw (y, addr_or_new) (rw f refl)

-- After it, the entry holds what was returned.
addr_or_new-held :
    (i k : ℕ)
    → (s : Fs) → (addr_or_new i k s).0 ≢ 0
    → ((addr_or_new i k s).1.itable i).addrs k ≡ (addr_or_new i k s).0
addr_or_new-held i k s = elim (ℕ_discrete ((s.itable i).addrs k) 0) [
  | no ne ↦ rw (addr_or_new-old i k s ne) (λ h. refl)
  | yes z ↦ elim (ℕ_discrete (balloc (s.itable i).dev s).0 0) [
    | yes full ↦ rw (addr_or_new-full i k s z full) (λ h. absurd (h refl))
    | no ne ↦
        let (a, t) = balloc (s.itable i).dev s in
        rw (addr_or_new-new i k s z ne) (λ h.
          ap (λ ip. ip.addrs k)
            (update_self t.itable i (record (t.itable i) { addrs = update (t.itable i).addrs k a }))
          ∙ update_self (t.itable i).addrs k a)
  ]
]

indirect-old :
    (dev ind bn : ℕ)
    → (s : Fs) → get_le 4 (4 * bn) (s.disk dev ind) ≢ 0
    → indirect dev ind bn s ≡ (get_le 4 (4 * bn) (s.disk dev ind), s)
unfolding indirect
indirect-old dev ind bn s ne =
    let z : (get_le 4 (4 * bn) (s.disk dev ind) == 0) ≡ false = ground arith in
    rw (z, indirect) refl

indirect-full :
    (dev ind bn : ℕ)
    → (s : Fs) → get_le 4 (4 * bn) (s.disk dev ind) ≡ 0
    → (balloc dev s).0 ≡ 0
    → indirect dev ind bn s ≡ (0, (balloc dev s).1)
unfolding indirect
indirect-full dev ind bn s e full =
    let z : (get_le 4 (4 * bn) (s.disk dev ind) == 0) ≡ true = ground arith in
    let f : ((balloc dev s).0 == 0) ≡ true = ground arith in rw (z, indirect) (rw f refl)

-- `a[bn] = addr` in the block `ind`
abbrev pub set_entry : ℕ → ℕ → ℕ → ℕ × Fs → Fs
set_entry dev ind bn (addr, t) =
    log_call ind (put_block dev ind (put_le 4 (4 * bn) addr (t.disk dev ind)) t)

indirect-new :
    (dev ind bn : ℕ)
    → (s : Fs) → get_le 4 (4 * bn) (s.disk dev ind) ≡ 0
    → (balloc dev s).0 ≢ 0
    → indirect dev ind bn s ≡ ((balloc dev s).0, set_entry dev ind bn (balloc dev s))
unfolding indirect
indirect-new dev ind bn s e ne =
    let z : (get_le 4 (4 * bn) (s.disk dev ind) == 0) ≡ true = ground arith in
    let f : ((balloc dev s).0 == 0) ≡ false = ground arith in rw (z, indirect) (rw f refl)

-- After it, the entry of the indirect block holds what was returned, and the table of inodes is as before.
indirect-held :
    (dev ind bn : ℕ)
    → (s : Fs) → s.sb.size < 2 ^ 32
    → (indirect dev ind bn s).0 ≢ 0
    → (get_le 4 (4 * bn) ((indirect dev ind bn s).1.disk dev ind) ≡ (indirect dev ind bn s).0)
      × ((indirect dev ind bn s).1.itable ≡ s.itable)
indirect-held dev ind bn s small = elim (ℕ_discrete (get_le 4 (4 * bn) (s.disk dev ind)) 0) [
  | no ne ↦ rw (indirect-old dev ind bn s ne) (λ h. (refl, refl))
  | yes z ↦ elim (ℕ_discrete (balloc dev s).0 0) [
    | yes full ↦ rw (indirect-full dev ind bn s z full) (λ h. absurd (h refl))
    | no ne ↦
        let kept = balloc-Kept dev s in
        let t = (balloc dev s).1 in
        let a = (balloc dev s).0 in
        let lt : a < 256 ^ 4 = elim kept.bound [ inl y ↦ absurd (ne y) | inr y ↦ omega arith ] in
        rw (indirect-new dev ind bn s z ne) (λ h. (
          ap (get_le 4 (4 * bn)) (disk-put_self dev ind (put_le 4 (4 * bn) a (t.disk dev ind)) t)
              ∙ get_le-put_le 4 (4 * bn) a (t.disk dev ind) lt,
          kept.itable,
        ))
  ]
]

bmap-direct : (i bn : ℕ) → (s : Fs) → bn < n_direct → bmap i bn s ≡ some (addr_or_new i bn s)
unfolding bmap
bmap-direct i bn s lt = let z : ltb bn n_direct ≡ true = ground arith in rw z refl

bmap-far :
    (i bn : ℕ)
    → (s : Fs) → n_direct ≤ bn
    → bn - n_direct < n_indirect
    → bmap i bn s
      ≡ some (
          if (addr_or_new i n_direct s).0 == 0
          then (0, (addr_or_new i n_direct s).1)
          else indirect
              ((addr_or_new i n_direct s).1.itable i).dev
              (addr_or_new i n_direct s).0
              (bn - n_direct)
              (addr_or_new i n_direct s).1)
unfolding bmap
bmap-far i bn s ge lt =
    let z : ltb bn n_direct ≡ false = ground arith in
    let y : ltb (bn - n_direct) n_indirect ≡ true = ground arith in rw (z, y) refl

addr_or_new-sb : (i k : ℕ) → (s : Fs) → (addr_or_new i k s).1.sb ≡ s.sb
addr_or_new-sb i k s = elim (ℕ_discrete ((s.itable i).addrs k) 0) [
  | no ne ↦ ap (λ r. r.1.sb) (addr_or_new-old i k s ne)
  | yes z ↦ elim (ℕ_discrete (balloc (s.itable i).dev s).0 0) [
    | yes full ↦
        ap (λ r. r.1.sb) (addr_or_new-full i k s z full) ∙ (balloc-Kept (s.itable i).dev s).sb
    | no ne ↦ ap (λ r. r.1.sb) (addr_or_new-new i k s z ne) ∙ (balloc-Kept (s.itable i).dev s).sb
  ]
]

again_direct :
    (i bn : ℕ)
    → (s : Fs) → bn < n_direct
    → (addr_or_new i bn s).0 ≢ 0
    → bmap i bn (addr_or_new i bn s).1 ≡ some (addr_or_new i bn s)
again_direct i bn s lt ne =
    let held = addr_or_new-held i bn s ne in
    bmap-direct i bn (addr_or_new i bn s).1 lt
    ∙ ap some (
        addr_or_new-old i bn (addr_or_new i bn s).1 (λ z. ne (sym held ∙ z))
        ∙ ap (λ a. (a, (addr_or_new i bn s).1)) held)

again_far :
    (i bn : ℕ)
    → (s : Fs) → n_direct ≤ bn
    → bn - n_direct < n_indirect
    → s.sb.size < 2 ^ 32
    → (r : ℕ × Fs) → (addr_or_new i n_direct s ≡ r)
    → r.0 ≢ 0
    → (indirect (r.1.itable i).dev r.0 (bn - n_direct) r.1).0 ≢ 0
    → bmap i bn (indirect (r.1.itable i).dev r.0 (bn - n_direct) r.1).1
      ≡ some (indirect (r.1.itable i).dev r.0 (bn - n_direct) r.1)
again_far i bn s ge lt small r e ne nz =
    let dev = (r.1.itable i).dev in
    let q = bn - n_direct in
    let u = (indirect dev r.0 q r.1).1 in
    let size : r.1.sb.size < 2 ^ 32 =
      subst (λ b. b.size < 2 ^ 32) (sym (addr_or_new-sb i n_direct s) ∙ ap (λ x. x.1.sb) e) small in
    let held : (r.1.itable i).addrs n_direct ≡ r.0 =
      subst (λ x. (x.1.itable i).addrs n_direct ≡ x.0) e
        (addr_or_new-held i n_direct s (λ z. ne (sym (ap (λ x. x.0) e) ∙ z))) in
    let (entry, table) = indirect-held dev r.0 q r.1 size nz in
    let held_u : (u.itable i).addrs n_direct ≡ r.0 = ap (λ f. (f i).addrs n_direct) table ∙ held in
    let first_step : addr_or_new i n_direct u ≡ (r.0, u) =
      addr_or_new-old i n_direct u (λ z. ne (sym held_u ∙ z)) ∙ ap (λ a. (a, u)) held_u in
    let some_ind : (r.0 == 0) ≡ false = ground arith in
    bmap-far i bn u ge lt
    ∙ ap (λ x. some (if x.0 == 0 then (0, x.1) else indirect (x.1.itable i).dev x.0 q x.1))
        first_step
    ∙ rw some_ind (
        ap some (
          ap (λ d. indirect d r.0 q u) (ap (λ f. (f i).dev) table)
          ∙ indirect-old dev r.0 q u (λ z. nz (sym entry ∙ z))
          ∙ ap (λ a. (a, u)) entry))

-- On a disk of less than 2^32 blocks, a block that bmap returns for a place in a file is the one that it
-- returns again for that place, and the second call changes nothing.
pub bmap-again :
    (i bn : ℕ)
    → (s : Fs) → s.sb.size < 2 ^ 32
    → Ensures (λ r. r.0 ≢ 0 → bmap i bn r.1 ≡ some r) (bmap i bn s)
unfolding bmap
bmap-again i bn s small = elim (dec_lt bn n_direct) [
  | yes lt ↦ rw (bmap-direct i bn s lt) (again_direct i bn s lt)
  | no ge ↦ elim (dec_lt (bn - n_direct) n_indirect) [
    | no out ↦
        let z : ltb bn n_direct ≡ false = ground arith in
        let y : ltb (bn - n_direct) n_indirect ≡ false = ground arith in rw z (rw y tt)
    | yes lt ↦
        let r = addr_or_new i n_direct s in
        rw (bmap-far i bn s (omega arith) lt) (elim (ℕ_discrete r.0 0) [
          | yes z ↦ let y : (r.0 == 0) ≡ true = ground arith in rw y (λ h. absurd (h refl))
          | no ne ↦
              let y : (r.0 == 0) ≡ false = ground arith in
              rw y (again_far i bn s (omega arith) lt small r refl ne)
        ])
  ]
]
