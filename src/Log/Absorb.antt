-- ===== src/Log/Absorb.antt =====
-- kernel/log.c: `log_write` records a changed block in the transaction, once.
use mathlib.Core.Path.{subst}
use os_proc_lap02_system_cal.Prelude.{
  update_ne, update_self, ℕ, zero, suc, ◌+◌, ◌≤◌, ◌<◌, ◌≡◌, ◌≢◌, ◌⊎◌, inl, inr, refl, sym, ap, ◌∙◌,
  some, arith, ℕ_discrete, ◌==◌, Bool-cases, update,
}
use os_proc_lap02_system_cal.Log.{Log, Block, modify, bpin, log_write, find_from}
use os_proc_lap02_system_cal.Log.Images.{Outside}
use os_proc_lap02_system_cal.Log.Commit.{Transaction}

find_from_lem :
    (k i : ℕ) (block : ℕ → ℕ) (b : ℕ)
    → let r = find_from k i block b in
      (i ≤ r) × (r ≤ i + k) × (r < i + k → block r ≡ b) × ((j : ℕ) → i ≤ j → j < r → block j ≢ b)
unfolding find_from
find_from_lem zero i block b =
    (omega arith, omega arith, (λ lt. absurd (omega arith)), λ j le lt. absurd (omega arith))
find_from_lem (suc k) i block b = elim (Bool-cases (block i == b)) [
  | inl e ↦ rw e (omega arith, omega arith, (λ lt. ground arith), λ j le lt. absurd (omega arith))
  | inr e ↦
      let (lo, hi, found, absent) = find_from_lem k (i + 1) block b in
      rw e (
        omega arith,
        omega arith,
        (λ lt. found (omega arith)),
        λ j le lt. elim (ℕ_discrete j i) [
          | yes at ↦ rw at (λ p. ground arith)
          | no past ↦ absent j (omega arith) lt
        ],
      )
]

-- The transaction with block `b` entered at `i`.
Transaction-enter :
    (s : Log) (b i m : ℕ) (x : Block) (pins : ℕ → ℕ)
    → Outside s.start s.size b
    → i < m
    → i ≤ s.n
    → s.n ≤ m
    → m ≤ i + 1 ⊎ m ≤ s.n
    → m + 1 ≤ s.size
    → (i < s.n → s.block i ≡ b)
    → Transaction s
    → Transaction
        (record s { view = update s.view b x; block = update s.block i b; n = m; pins = pins })
Transaction-enter s b i m x pins out lt at_most le top few found h = record {
  few = few;
  homes = λ j p. elim (ℕ_discrete i j) [
    | yes at ↦ rw (← at) (rw (update_self s.block i b) out)
    | no other ↦ rw (update_ne s.block i j b other) (h.homes j (omega arith))
  ];
  empty = h.empty;
  coherent = λ a outside unnamed.
      let apart : b ≢ a = λ e. unnamed i lt (update_self s.block i b ∙ e) in
      h.coherent a outside (λ j p. elim (ℕ_discrete i j) [
        | yes at ↦ λ e. apart (sym (found (omega arith)) ∙ ap s.block at ∙ e)
        | no other ↦ λ e. unnamed j (omega arith) (update_ne s.block i j b other ∙ e)
      ])
      ∙ sym (update_ne s.view b a x apart);
}

abbrev Outcome : Log → ℕ → Block → Log → Type 0
Outcome s b x t =
    Transaction t
    × (t.view b ≡ x)
    × (t.disk ≡ s.disk)
    × (((t.n ≡ s.n) × (t.pins b ≡ s.pins b))
        ⊎ ((t.n ≡ s.n + 1) × (t.pins b ≡ s.pins b + 1) × ((i : ℕ) → i < s.n → s.block i ≢ b)))

-- Changing a block outside the log and then calling `log_write` for it, where that does not panic,
-- keeps the transaction fit to be committed, with the new data as its data for that block; the block
-- is pinned and counted only if the log did not name it yet.
pub log_write-Transaction :
    (s t : Log) (b : ℕ) (x : Block)
    → Outside s.start s.size b
    → Transaction s
    → log_write (modify s b x) b ≡ some t
    → Transaction t
      × (t.view b ≡ x)
      × (t.disk ≡ s.disk)
      × (((t.n ≡ s.n) × (t.pins b ≡ s.pins b))
          ⊎ ((t.n ≡ s.n + 1) × (t.pins b ≡ s.pins b + 1) × ((i : ℕ) → i < s.n → s.block i ≢ b)))
unfolding log_write
log_write-Transaction s t b x out h e =
    let i = find_from s.n 0 s.block b in
    let (lo, hi, found, absent) = find_from_lem s.n 0 s.block b in
    elim (Bool-cases (find_from s.n 0 s.block b == s.n)) [
      | inl last ↦
          let u = record (bpin (record (modify s b x) { block = update s.block i b }) b) {
            n = s.n + 1;
          } in
          let same : u ≡ t = ground arith in
          let at_end : i ≡ s.n = ground arith in
          let fits : s.n + 2 ≤ s.size = ground arith in
          subst (Outcome s b x) same (
            Transaction-enter s b i (s.n + 1) x (update s.pins b (s.pins b + 1)) out (omega arith)
                (omega arith) (omega arith) (inl (omega arith)) (omega arith)
                (λ p. found (omega arith)) h,
            update_self s.view b x,
            refl,
            inr (
              refl,
              update_self s.pins b (s.pins b + 1),
              λ j p. absent j (omega arith) (omega arith),
            ),
          )
      | inr before ↦
          let u = record (modify s b x) { block = update s.block i b } in
          let same : u ≡ t = ground arith in
          let inside : i < s.n = ground arith in
          subst (Outcome s b x) same (
            Transaction-enter s b i s.n x s.pins out inside (omega arith) (omega arith)
                (inr (omega arith)) h.few (λ p. found (omega arith)) h,
            update_self s.view b x,
            refl,
            inl (refl, refl),
          )
    ]
