-- ===== src/Bio/Examples.antt =====
-- The cache after binit, and with one buffer in use.
use os_proc_lap02_system_cal.Prelude.{
  ℕ, ◌+◌, ◌≡◌, ◌≢◌, refl, sym, ◌∙◌, true, false, none, some, [], ◌∷◌, arith, update, Ensures,
}
use os_proc_lap02_system_cal.Bio.{Bcache, Buf, head, bget_entry, brelse}
use os_proc_lap02_system_cal.Bio.Order.{Ring, brelse-Ring}
use os_proc_lap02_system_cal.Bio.Unique.{OneBuffer, ForBlock, bget_entry-ForBlock}

abbrev zero_buf : Buf
zero_buf = record { valid = false; dev = 0; blockno = 0; lock = none; refcnt = 0; bytes = λ _. 0 }

-- Two buffers, of which process 7 holds the one that was released first.
abbrev held : Buf
held = record (zero_buf) { valid = true; dev = 1; blockno = 5; lock = some 7; refcnt = 1 }

abbrev two_buffers : Bcache
two_buffers = record {
  next = update (update (update (λ _. 0) head 0) 0 1) 1 head;
  prev = update (update (update (λ _. 0) 0 head) 1 0) head 1;
  buf = update (λ _. zero_buf) 1 held;
  disk = λ _ _ _. 0;
}

two_buffers-Ring : Ring two_buffers (0 ∷ 1 ∷ [])
two_buffers-Ring = record {
  linked = (refl, refl, (refl, refl, (refl, refl)));
  distinct = ((omega arith, (omega arith, tt)), ((omega arith, tt), (tt, tt)));
}

brelse-Ring_example :
    (t : Bcache) × (brelse 7 1 two_buffers ≡ some t)
    × Ring t (1 ∷ 0 ∷ [])
    × ((t.buf 1).refcnt + 1 ≡ 1)
    × ((t.buf 1).lock ≡ none)
    × (t.disk ≡ two_buffers.disk)
brelse-Ring_example =
    brelse-Ring 7 1 two_buffers (0 ∷ []) [] two_buffers-Ring refl (omega arith) (omega arith)

device_at : (b : ℕ) → (two_buffers.buf b).dev ≢ 0 → b ≡ 1
device_at b nz = ground arith

two_buffers-OneBuffer : OneBuffer two_buffers (0 ∷ 1 ∷ [])
two_buffers-OneBuffer b c ib ic nz d n = device_at b nz ∙ sym (device_at c (λ z. nz (d ∙ z)))

bget_entry-ForBlock_example :
    Ensures (λ p. ForBlock 1 9 (0 ∷ 1 ∷ []) p.0 p.1) (bget_entry 1 9 two_buffers)
bget_entry-ForBlock_example =
    bget_entry-ForBlock 1 9 two_buffers (0 ∷ 1 ∷ []) (omega arith) two_buffers-Ring (omega arith)
      two_buffers-OneBuffer
