-- ===== src/Fs/Fields.antt =====
-- Little-endian fields, and inodes on the disk: what iupdate writes, ilock reads.
use mathlib.Core.Path.{subst}
use native.Mathlib.Nat.{pow-succ'}
use os_proc_lap02_system_cal.Prelude.{
  ℕ, zero, suc, ◌+◌, ◌-◌, ◌*◌, ◌/◌, ◌%◌, ◌^◌, ◌≤◌, ◌<◌, ◌≡◌, ◌≢◌, ◌⊎◌, inl, inr, refl, sym, ap, ◌∙◌,
  true, false, none, some, arith, ℕ_discrete, leb, ◌==◌, update, update_self, update_ne, ◌>>=◌,
}
use os_proc_lap02_system_cal.Fs.{Fs, Inode, get_le, put_le, n_direct}
use os_proc_lap02_system_cal.Fs.Inodes.{
  set_inode, iblock, dinode_at, put_addrs, put_dinode, get_dinode, iupdate, ilock, load_inode,
  lock_inode, positive,
}
use os_proc_lap02_system_cal.Fs.Bitmap.{disk-put_self}

-- A store of `n` bytes keeps the bytes outside them.
put_le-outside :
    (n at v : ℕ) → (d : ℕ → ℕ) → (a : ℕ) → (a < at) ⊎ (at + n ≤ a) → put_le n at v d a ≡ d a
unfolding put_le
put_le-outside zero at v d a out = refl
put_le-outside (suc n) at v d a out =
    put_le-outside n (at + 1) (v / 256) (update d at (v % 256)) a
      (elim out [ inl lo ↦ inl (omega arith) | inr hi ↦ inr (omega arith) ])
    ∙ update_ne d at a (v % 256)
        (elim out [ inl lo ↦ λ z. omega arith | inr hi ↦ λ z. omega arith ])

get_le-agree :
    (n at : ℕ)
    → (d e : ℕ → ℕ) → ((a : ℕ) → at ≤ a → a < at + n → d a ≡ e a)
    → get_le n at d ≡ get_le n at e
unfolding get_le
get_le-agree zero at d e h = refl
get_le-agree (suc n) at d e h =
    ap (λ x. x + 256 * get_le n (at + 1) d) (h at (omega arith) (omega arith))
    ∙ ap (λ y. e at + 256 * y)
        (get_le-agree n (at + 1) d e (λ a lo hi. h a (omega arith) (omega arith)))

-- A number of `n` bytes that is stored is read again.
pub get_le-put_le : (n at v : ℕ) → (d : ℕ → ℕ) → v < 256 ^ n → get_le n at (put_le n at v d) ≡ v
unfolding get_le put_le
get_le-put_le zero at v d lt = omega arith
get_le-put_le (suc n) at v d lt =
    let first : put_le n (at + 1) (v / 256) (update d at (v % 256)) at ≡ v % 256 =
      put_le-outside n (at + 1) (v / 256) (update d at (v % 256)) at (inl (omega arith))
      ∙ update_self d at (v % 256) in
    let bound : v < 256 * 256 ^ n = subst (λ p. v < p) (pow-succ' 256 n) lt in
    let rest = get_le-put_le n (at + 1) (v / 256) (update d at (v % 256)) (omega arith) in
    ap (λ x. x + 256 * get_le n (at + 1) (put_le n (at + 1) (v / 256) (update d at (v % 256))))
      first
    ∙ ap (λ y. v % 256 + 256 * y) rest
    ∙ omega arith

-- A field is not changed by a store to another.
get_le-put_le_apart :
    (n at k b v : ℕ)
    → (d : ℕ → ℕ) → (at + n ≤ b) ⊎ (b + k ≤ at)
    → get_le n at (put_le k b v d) ≡ get_le n at d
get_le-put_le_apart n at k b v d apart = get_le-agree n at (put_le k b v d) d (λ a lo hi.
    put_le-outside k b v d a (elim apart [ inl x ↦ inl (omega arith) | inr x ↦ inr (omega arith) ]))

put_addrs-below :
    (n k at m b : ℕ)
    → (addrs d : ℕ → ℕ) → m + b ≤ at
    → get_le m b (put_addrs n k at addrs d) ≡ get_le m b d
unfolding put_addrs
put_addrs-below zero k at m b addrs d le = refl
put_addrs-below (suc n) k at m b addrs d le =
    put_addrs-below n (k + 1) (at + 4) m b addrs (put_le 4 at (addrs k) d) (omega arith)
    ∙ get_le-put_le_apart m b 4 at (addrs k) d (inl (omega arith))

put_addrs-get :
    (n k at j : ℕ)
    → (addrs d : ℕ → ℕ) → ((i : ℕ) → addrs i < 2 ^ 32)
    → k ≤ j
    → j < k + n
    → get_le 4 (at + 4 * (j - k)) (put_addrs n k at addrs d) ≡ addrs j
unfolding put_addrs
put_addrs-get zero k at j addrs d small lo hi = absurd (omega arith)
put_addrs-get (suc n) k at j addrs d small lo hi = elim (ℕ_discrete k j) [
  | yes e ↦
      ap (λ b. get_le 4 b (put_addrs n (k + 1) (at + 4) addrs (put_le 4 at (addrs k) d)))
        (let z : at + 4 * (j - k) ≡ at = omega arith in z)
      ∙ put_addrs-below n (k + 1) (at + 4) 4 at addrs (put_le 4 at (addrs k) d) (omega arith)
      ∙ get_le-put_le 4 at (addrs k) d (small k)
      ∙ ap addrs e
  | no ne ↦
      ap (λ b. get_le 4 b (put_addrs n (k + 1) (at + 4) addrs (put_le 4 at (addrs k) d)))
        (let z : at + 4 * (j - k) ≡ at + 4 + 4 * (j - (k + 1)) = omega arith in z)
      ∙ put_addrs-get n (k + 1) (at + 4) j addrs (put_le 4 at (addrs k) d) small (omega arith)
          (omega arith)
]

-- The fields are as wide as they are in C.
pub record Fits (ip : Inode) : Type 0 where
  pub type : ip.type < 2 ^ 16
  pub major : ip.major < 2 ^ 16
  pub minor : ip.minor < 2 ^ 16
  pub nlink : ip.nlink < 2 ^ 16
  pub size : ip.size < 2 ^ 32
  pub addrs : (k : ℕ) → ip.addrs k < 2 ^ 32

-- Two inodes agree in all that the disk holds of them.
pub record SameOnDisk (ip jp : Inode) : Type 0 where
  pub type : ip.type ≡ jp.type
  pub major : ip.major ≡ jp.major
  pub minor : ip.minor ≡ jp.minor
  pub nlink : ip.nlink ≡ jp.nlink
  pub size : ip.size ≡ jp.size
  pub addrs : (k : ℕ) → k ≤ n_direct → ip.addrs k ≡ jp.addrs k

-- An inode that is written to a block and read from it into any entry is the same in all that the disk holds.
pub get_dinode-put_dinode :
    (at : ℕ)
    → (ip jp : Inode) → (d : ℕ → ℕ) → Fits ip
    → SameOnDisk (get_dinode at (put_dinode at ip d) jp) ip
unfolding get_dinode put_dinode
get_dinode-put_dinode at ip jp d fits =
    let d1 = put_le 2 at ip.type d in
    let d2 = put_le 2 (at + 2) ip.major d1 in
    let d3 = put_le 2 (at + 4) ip.minor d2 in
    let d4 = put_le 2 (at + 6) ip.nlink d3 in
    let d5 = put_le 4 (at + 8) ip.size d4 in
    let below = λ (n b : ℕ) (le : n + b ≤ at + 12).
      put_addrs-below (n_direct + 1) 0 (at + 12) n b ip.addrs d5 le in
    record {
      type =
          below 2 at (omega arith)
          ∙ get_le-put_le_apart 2 at 4 (at + 8) ip.size d4 (inl (omega arith))
          ∙ get_le-put_le_apart 2 at 2 (at + 6) ip.nlink d3 (inl (omega arith))
          ∙ get_le-put_le_apart 2 at 2 (at + 4) ip.minor d2 (inl (omega arith))
          ∙ get_le-put_le_apart 2 at 2 (at + 2) ip.major d1 (inl (omega arith))
          ∙ get_le-put_le 2 at ip.type d fits.type;
      major =
          below 2 (at + 2) (omega arith)
          ∙ get_le-put_le_apart 2 (at + 2) 4 (at + 8) ip.size d4 (inl (omega arith))
          ∙ get_le-put_le_apart 2 (at + 2) 2 (at + 6) ip.nlink d3 (inl (omega arith))
          ∙ get_le-put_le_apart 2 (at + 2) 2 (at + 4) ip.minor d2 (inl (omega arith))
          ∙ get_le-put_le 2 (at + 2) ip.major d1 fits.major;
      minor =
          below 2 (at + 4) (omega arith)
          ∙ get_le-put_le_apart 2 (at + 4) 4 (at + 8) ip.size d4 (inl (omega arith))
          ∙ get_le-put_le_apart 2 (at + 4) 2 (at + 6) ip.nlink d3 (inl (omega arith))
          ∙ get_le-put_le 2 (at + 4) ip.minor d2 fits.minor;
      nlink =
          below 2 (at + 6) (omega arith)
          ∙ get_le-put_le_apart 2 (at + 6) 4 (at + 8) ip.size d4 (inl (omega arith))
          ∙ get_le-put_le 2 (at + 6) ip.nlink d3 fits.nlink;
      size = below 4 (at + 8) (omega arith) ∙ get_le-put_le 4 (at + 8) ip.size d4 fits.size;
      addrs = λ k le.
          let z : leb k n_direct ≡ true = ground arith in
          let off : 4 * k ≡ 4 * (k - 0) = omega arith in
          rw z (
            ap (λ y. get_le 4 (at + 12 + y) (put_dinode at ip d)) off
            ∙ put_addrs-get (n_direct + 1) 0 (at + 12) k ip.addrs d5 fits.addrs (omega arith)
                (omega arith));
    }

load_inode-reads :
    (i : ℕ)
    → (t : Fs) → (t.itable i).valid ≡ false
    → (get_dinode
        (dinode_at (t.itable i).inum)
        (t.disk (t.itable i).dev (iblock (t.itable i).inum t))
        (t.itable i)).type
      ≢ 0
    → load_inode i t
      ≡ some (
          set_inode i
            (record (get_dinode
              (dinode_at (t.itable i).inum)
              (t.disk (t.itable i).dev (iblock (t.itable i).inum t))
              (t.itable i)) { valid = true })
            t)
unfolding load_inode
load_inode-reads i t v typed =
    let z : ((get_dinode (dinode_at (t.itable i).inum)
            (t.disk (t.itable i).dev (iblock (t.itable i).inum t)) (t.itable i)).type
          == 0)
        ≡ false =
      ground arith in
    rw (v, load_inode) (rw z refl)

lock_inode-free :
    (me j : ℕ)
    → (s : Fs) → (s.itable j).lock ≡ none
    → lock_inode me j s ≡ some (set_inode j (record (s.itable j) { lock = some me }) s)
lock_inode-free me j s e = rw (e, lock_inode) refl

ilock-free :
    (me j : ℕ)
    → (s : Fs) → positive (s.itable j).ref ≡ true
    → (s.itable j).lock ≡ none
    → ilock me (some j) s ≡ load_inode j (set_inode j (record (s.itable j) { lock = some me }) s)
unfolding ilock
ilock-free me j s ref free = rw ref (rw (lock_inode-free me j s free, ◌>>=◌) refl)

SameOnDisk-trans : (a b c : Inode) → SameOnDisk a b → SameOnDisk b c → SameOnDisk a c
SameOnDisk-trans a b c h k = record {
  type = h.type ∙ k.type;
  major = h.major ∙ k.major;
  minor = h.minor ∙ k.minor;
  nlink = h.nlink ∙ k.nlink;
  size = h.size ∙ k.size;
  addrs = λ n le. h.addrs n le ∙ k.addrs n le;
}

-- What iupdate leaves at the place of an inode.
written :
    (dev inum i : ℕ)
    → (s : Fs) → (s.itable i).dev ≡ dev
    → (s.itable i).inum ≡ inum
    → (iupdate i s).disk dev (iblock inum s)
      ≡ put_dinode (dinode_at inum) (s.itable i) (s.disk dev (iblock inum s))
unfolding iupdate
written dev inum i s d n =
    rw (sym d, sym n)
      (disk-put_self (s.itable i).dev (iblock (s.itable i).inum s)
        (put_dinode (dinode_at (s.itable i).inum) (s.itable i)
          (s.disk (s.itable i).dev (iblock (s.itable i).inum s)))
        s)

-- After iupdate of an inode, ilock of an entry of the table for the same inode that is in use, not locked
-- and not yet read succeeds, and reads the type, the numbers, the size and the addresses that
-- iupdate wrote, provided that they are as wide as in C and the type is not 0.
pub ilock-iupdate :
    (me i j : ℕ)
    → (s : Fs) → Fits (s.itable i)
    → (s.itable i).type ≢ 0
    → (s.itable j).dev ≡ (s.itable i).dev
    → (s.itable j).inum ≡ (s.itable i).inum
    → positive (s.itable j).ref ≡ true
    → (s.itable j).lock ≡ none
    → (s.itable j).valid ≡ false
    → (t : Fs) × (ilock me (some j) (iupdate i s) ≡ some t)
      × SameOnDisk (t.itable j) (s.itable i)
      × ((t.itable j).valid ≡ true)
      × ((t.itable j).lock ≡ some me)
unfolding iupdate get_dinode
ilock-iupdate me i j s fits typed d n ref free invalid =
    let u = iupdate i s in
    let jp = record (s.itable j) { lock = some me } in
    let t = set_inode j jp u in
    let at = update_self u.itable j jp in
    let read =
      get_dinode (dinode_at (t.itable j).inum)
        (t.disk (t.itable j).dev (iblock (t.itable j).inum t)) (t.itable j) in
    let same : SameOnDisk read (s.itable i) =
      subst
        (λ x.
          SameOnDisk (get_dinode (dinode_at x.inum) (u.disk x.dev (iblock x.inum s)) x)
            (s.itable i))
        (sym at)
        (subst (λ y. SameOnDisk (get_dinode (dinode_at (s.itable j).inum) y jp) (s.itable i))
          (sym (written (s.itable j).dev (s.itable j).inum i s (sym d) (sym n)))
          (get_dinode-put_dinode (dinode_at (s.itable j).inum) (s.itable i) jp
            (s.disk (s.itable j).dev (iblock (s.itable j).inum s)) fits)) in
    let end_at = update_self t.itable j (record read { valid = true }) in
    (
      set_inode j (record read { valid = true }) t,
      ilock-free me j u ref free
          ∙ load_inode-reads j t (ap (λ x. x.valid) at ∙ invalid) (λ z. typed (sym same.type ∙ z)),
      subst (λ x. SameOnDisk x (s.itable i)) (sym end_at)
          (record {
            type = same.type;
            major = same.major;
            minor = same.minor;
            nlink = same.nlink;
            size = same.size;
            addrs = same.addrs;
          }),
      ap (λ x. x.valid) end_at,
      ap (λ x. x.lock) end_at ∙ ap (λ x. x.lock) at,
    )
