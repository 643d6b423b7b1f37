-- ===== src/Bio.antt =====
-- kernel/bio.c, kernel/buf.h: the cache of disk blocks. The buffers and the head of the list are
-- numbers; the links of `struct buf` are functions of them.
mod Ring
mod Order
mod Lookup
mod Unique
mod Examples
use mathlib.Core.Path.{subst}
use os_proc_lap02_system_cal.Prelude.{
  ℕ, zero, suc, ◌+◌, ◌-◌, ◌*◌, ◌/◌, ◌%◌, ◌^◌, ◌≤◌, ◌<◌, ◌≡◌, ◌≢◌, ◌↔◌, ◌⊎◌, inl, inr, refl, sym, ap,
  ◌∙◌, fun_ext, Bool, true, false, not, ◌&&◌, ◌||◌, Option, none, some, List, [], ◌∷◌, ◌++◌, map,
  append-nil, append_assoc, arith, dec_lt, ℕ_discrete, ltb, leb, ◌==◌, if◌then◌else◌, Bool-cases,
  Option-cases, length, get_elem?, set, get_or, take, drop, replicate, length-append, length-set,
  get_elem?-set_self, get_elem?-set_ne, update, update_self, update_ne, Ensures, Ensures-bind,
  Ensures-map, Ensures-some, ◌>>=◌, >>=-eq-some, All, In, NotIn, Distinct, All-map, All-append,
}
use os_proc_lap02_system_cal.Layout.{log_size}

-- `NBUF`; the head of the list is the number after the buffers.
abbrev pub n_buf : ℕ
n_buf = log_size

abbrev pub head : ℕ
head = n_buf

-- `lock` is the process that holds the sleep lock.
pub record Buf : Type 0 where
  pub valid : Bool
  pub dev : ℕ
  pub blockno : ℕ
  pub lock : Option ℕ
  pub refcnt : ℕ
  pub bytes : ℕ → ℕ

pub record Bcache : Type 0 where
  pub next : ℕ → ℕ
  pub prev : ℕ → ℕ
  pub buf : ℕ → Buf
  pub disk : ℕ → ℕ → ℕ → ℕ

abbrev pub set_buf : ℕ → Buf → Bcache → Bcache
set_buf b x s = record s { buf = update s.buf b x }

-- `b->next = head.next; b->prev = &head; head.next->prev = b; head.next = b`
abbrev pub push_front : ℕ → Bcache → Bcache
push_front b s =
    let n1 = update s.next b (s.next head) in
    let p1 = update s.prev b head in
    record s { prev = update p1 (n1 head) b; next = update n1 head b }

-- The loop of `binit` with `left` buffers left.
unfoldable pub init_from : ℕ → ℕ → Bcache → Bcache
init_from zero b s = s
init_from (suc left) b s =
    init_from left (b + 1) (push_front b (set_buf b (record (s.buf b) { lock = none }) s))

unfoldable pub binit : Bcache → Bcache
unfolding init_from
binit s =
    init_from n_buf 0 (record s { prev = update s.prev head head; next = update s.next head head })

-- The two loops of `bget` from `b` on; `fuel` is more than the number of buffers.
unfoldable pub find_cached : ℕ → ℕ → ℕ → ℕ → Bcache → Option ℕ
find_cached zero b dev blockno s = none
find_cached (suc fuel) b dev blockno s = elim (b == head) [
  | true ↦ none
  | false ↦ elim ((s.buf b).dev == dev && (s.buf b).blockno == blockno) [
    | true ↦ some b
    | false ↦ find_cached fuel (s.next b) dev blockno s
  ]
]

unfoldable pub find_unused : ℕ → ℕ → Bcache → Option ℕ
find_unused zero b s = none
find_unused (suc fuel) b s = elim (b == head) [
  | true ↦ none
  | false ↦ elim ((s.buf b).refcnt == 0) [ true ↦ some b | false ↦ find_unused fuel (s.prev b) s ]
]

-- `none` where the lock is held: the call waits, and goes on when it is free.
abbrev pub lock_buf : ℕ → ℕ → Bcache → Option Bcache
lock_buf me b s = elim (s.buf b).lock [
  | none ↦ some (set_buf b (record (s.buf b) { lock = some me }) s)
  | some _ ↦ none
]

abbrev pub holds_buf : ℕ → ℕ → Bcache → Bool
holds_buf me b s = elim (s.buf b).lock [ none ↦ false | some h ↦ h == me ]

abbrev pub counted : Buf → Buf
counted x = record x { refcnt = (x.refcnt + 1) % 2 ^ 32 }

abbrev pub uncounted : Buf → Buf
uncounted x = record x { refcnt = (x.refcnt + 2 ^ 32 - 1) % 2 ^ 32 }

abbrev pub reused : ℕ → ℕ → Buf → Buf
reused dev blockno x = record x { dev = dev; blockno = blockno; valid = false; refcnt = 1 }

-- What `bget` does under `bcache.lock`: the buffer that it then locks. `none` is a panic.
unfoldable pub bget_entry : ℕ → ℕ → Bcache → Option (ℕ × Bcache)
unfolding find_cached find_unused
bget_entry dev blockno s = elim (find_cached (n_buf + 1) (s.next head) dev blockno s) [
  | some b ↦ some (b, set_buf b (counted (s.buf b)) s)
  | none ↦ elim (find_unused (n_buf + 1) (s.prev head) s) [
    | none ↦ none
    | some b ↦ some (b, set_buf b (reused dev blockno (s.buf b)) s)
  ]
]

unfoldable pub bget : ℕ → ℕ → ℕ → Bcache → Option (ℕ × Bcache)
unfolding bget_entry
bget me dev blockno s = bget_entry dev blockno s >>= λ (b, t). lock_buf me b t >>= λ u. some (b, u)

unfoldable pub bread : ℕ → ℕ → ℕ → Bcache → Option (ℕ × Bcache)
unfolding bget
bread me dev blockno s = bget me dev blockno s >>= λ (b, t).
    if (t.buf b).valid
    then some (b, t)
    else some (
      b,
      set_buf b (record (t.buf b) { bytes = t.disk (t.buf b).dev (t.buf b).blockno; valid = true })
          t,
    )

unfoldable pub bwrite : ℕ → ℕ → Bcache → Option Bcache
bwrite me b s =
    let x = s.buf b in
    if not (holds_buf me b s)
    then none
    else some (record s { disk = update s.disk x.dev (update (s.disk x.dev) x.blockno x.bytes) })

-- `b->next->prev = b->prev; b->prev->next = b->next`
abbrev pub unlink : ℕ → Bcache → Bcache
unlink b s =
    let p1 = update s.prev (s.next b) (s.prev b) in
    record s { prev = p1; next = update s.next (p1 b) (s.next b) }

unfoldable pub brelse : ℕ → ℕ → Bcache → Option Bcache
brelse me b s =
    if not (holds_buf me b s)
    then none
    else let t = set_buf b (uncounted (record (s.buf b) { lock = none })) s in
      some (if (t.buf b).refcnt == 0 then push_front b (unlink b t) else t)

unfoldable pub bpin : ℕ → Bcache → Bcache
bpin b s = set_buf b (counted (s.buf b)) s

unfoldable pub bunpin : ℕ → Bcache → Bcache
bunpin b s = set_buf b (uncounted (s.buf b)) s
