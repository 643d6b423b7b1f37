-- ===== src/Pipe/Queue.antt =====
-- The ring buffer of kernel/pipe.c is a queue of bytes, also where its counters wrap around.
use os_proc_lap02_system_cal.Prelude.{
  ℕ, zero, suc, ◌+◌, ◌-◌, ◌%◌, ◌^◌, ◌≤◌, ◌<◌, ◌≡◌, ◌≢◌, refl, ap, ◌∙◌, false, List, [], ◌∷◌, ◌++◌,
  arith, update, update_self, update_ne,
}
use os_proc_lap02_system_cal.Pipe.{Pipe, put_byte, next_byte, is_empty, is_full, pipesize}

-- `k` bytes from the counter `r` on.
unfoldable pub slots : ℕ → ℕ → (ℕ → ℕ) → List ℕ
slots zero r data_at = []
slots (suc k) r data_at = data_at (r % 512) ∷ slots k ((r + 1) % 2 ^ 32) data_at

-- The number of bytes in the pipe, and the bytes, the oldest first.
abbrev pub count : Pipe → ℕ
count pi = (pi.nwrite + 2 ^ 32 - pi.nread) % 2 ^ 32

abbrev pub contents : Pipe → List ℕ
contents pi = slots (count pi) pi.nread pi.data_at

-- The counters are of 32 bits and at most PIPESIZE apart.
pub record IsPipe (pi : Pipe) : Type 0 where
  pub nread_small : pi.nread < 2 ^ 32
  pub nwrite_small : pi.nwrite < 2 ^ 32
  pub bounded : count pi ≤ pipesize

slots-update :
    (k r i v : ℕ)
    → (d : ℕ → ℕ) → r < 2 ^ 32
    → ((j : ℕ) → j < k → i ≢ (r + j) % 2 ^ 32 % 512)
    → slots k r (update d i v) ≡ slots k r d
unfolding slots
slots-update zero r i v d lt far = refl
slots-update (suc k) r i v d lt far =
    let first : update d i v (r % 512) ≡ d (r % 512) =
      update_ne d i (r % 512) v (λ z. far 0 (omega arith) (omega arith)) in
    let rest : slots k ((r + 1) % 2 ^ 32) (update d i v) ≡ slots k ((r + 1) % 2 ^ 32) d =
      slots-update k ((r + 1) % 2 ^ 32) i v d (omega arith)
        (λ j jlt z. far (j + 1) (omega arith) (omega arith)) in
    rw (first, rest)

slots-snoc :
    (k r : ℕ)
    → (d : ℕ → ℕ) → r < 2 ^ 32
    → slots (suc k) r d ≡ slots k r d ++ (d ((r + k) % 2 ^ 32 % 512) ∷ [])
unfolding slots
slots-snoc zero r d lt = let e : (r + 0) % 2 ^ 32 ≡ r = omega arith in rw e
slots-snoc (suc k) r d lt =
    let e : ((r + 1) % 2 ^ 32 + k) % 2 ^ 32 ≡ (r + suc k) % 2 ^ 32 = omega arith in
    let rest : slots (suc k) ((r + 1) % 2 ^ 32) d
        ≡ slots k ((r + 1) % 2 ^ 32) d ++ (d ((r + suc k) % 2 ^ 32 % 512) ∷ []) =
      slots-snoc k ((r + 1) % 2 ^ 32) d (omega arith) ∙ rw e in
    ap (λ l. d (r % 512) ∷ l) rest

room_left : (pi : Pipe) → IsPipe pi → pi.nwrite ≢ (pi.nread + pipesize) % 2 ^ 32 → count pi < 512
room_left pi v ne =
    (let a = v.nread_small in let b = v.nwrite_small in let c = v.bounded in omega arith)

count-suc :
    (pi : Pipe)
    → IsPipe pi
    → count pi < 512
    → ((pi.nwrite + 1) % 2 ^ 32 + 2 ^ 32 - pi.nread) % 2 ^ 32 ≡ suc (count pi)
count-suc pi v lt =
    (let a = v.nread_small in let b = v.nwrite_small in let c = v.bounded in omega arith)

last_slot : (pi : Pipe) → IsPipe pi → (pi.nread + count pi) % 2 ^ 32 ≡ pi.nwrite
last_slot pi v =
    (let a = v.nread_small in let b = v.nwrite_small in let c = v.bounded in omega arith)

apart :
    (pi : Pipe)
    → IsPipe pi
    → count pi < 512
    → (j : ℕ) → j < count pi
    → pi.nwrite % 512 ≢ (pi.nread + j) % 2 ^ 32 % 512
apart pi v lt j jlt z =
    (let a = v.nread_small in let b = v.nwrite_small in let c = v.bounded in omega arith)

count-pred :
    (pi : Pipe) → IsPipe pi → pi.nread ≢ pi.nwrite → count pi ≡ suc (count (next_byte pi).1)
unfolding next_byte
count-pred pi v ne =
    (let a = v.nread_small in let b = v.nwrite_small in let c = v.bounded in omega arith)

pred_bound : (pi : Pipe) → IsPipe pi → pi.nread ≢ pi.nwrite → count (next_byte pi).1 ≤ 512
unfolding next_byte
pred_bound pi v ne =
    (let a = v.nread_small in let b = v.nwrite_small in let c = v.bounded in omega arith)

pub put_byte-contents :
    (pi : Pipe)
    → (ch : ℕ) → IsPipe pi
    → is_full pi ≡ false
    → IsPipe (put_byte ch pi) × (contents (put_byte ch pi) ≡ contents pi ++ (ch ∷ []))
unfolding put_byte
put_byte-contents pi ch v room =
    let ne : pi.nwrite ≢ (pi.nread + pipesize) % 2 ^ 32 = λ z. ground arith in
    let c = count pi in
    let lt : c < 512 = room_left pi v ne in
    let more : ((pi.nwrite + 1) % 2 ^ 32 + 2 ^ 32 - pi.nread) % 2 ^ 32 ≡ suc c =
      count-suc pi v lt in
    let last : (pi.nread + c) % 2 ^ 32 ≡ pi.nwrite = last_slot pi v in
    let d = update pi.data_at (pi.nwrite % 512) ch in
    let same : slots c pi.nread d ≡ slots c pi.nread pi.data_at =
      slots-update c pi.nread (pi.nwrite % 512) ch pi.data_at v.nread_small
        (λ j jlt z. apart pi v lt j jlt z) in
    let end : d ((pi.nread + c) % 2 ^ 32 % 512) ≡ ch =
      rw last (update_self pi.data_at (pi.nwrite % 512) ch) in
    (
      record { nread_small = v.nread_small; nwrite_small = omega arith; bounded = rw more lt },
      ap (λ n. slots n pi.nread d) more ∙ slots-snoc c pi.nread d v.nread_small ∙ rw (same, end),
    )

pub next_byte-contents :
    (pi : Pipe)
    → IsPipe pi
    → is_empty pi ≡ false
    → IsPipe (next_byte pi).1 × (contents pi ≡ (next_byte pi).0 ∷ contents (next_byte pi).1)
unfolding next_byte slots
next_byte-contents pi v some_byte =
    let ne : pi.nread ≢ pi.nwrite = λ z. ground arith in
    let less : count pi ≡ suc (count (next_byte pi).1) = count-pred pi v ne in
    (
      record {
        nread_small = omega arith;
        nwrite_small = v.nwrite_small;
        bounded = pred_bound pi v ne;
      },
      ap (λ n. slots n pi.nread pi.data_at) less,
    )
