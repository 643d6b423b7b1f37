-- ===== src/Syscall/Sleeping.antt =====
-- The tests of `sys_sleep`, and the bytes that `sys_sysinfo` copies out.
use os_proc_lap02_system_cal.Prelude.{
  ℕ, zero, suc, ◌+◌, ◌-◌, ◌*◌, ◌/◌, ◌%◌, ◌^◌, ◌≤◌, ◌<◌, ◌≡◌, refl, ap, Bool, true, false, none,
  some, List, [], ◌∷◌, arith, length, take, drop,
}
use os_proc_lap02_system_cal.Prelude.Int.{pos, negsuc}
use os_proc_lap02_system_cal.Syscall.Calls.{sleep_test, bytes_of, sysinfo_bytes}

pub elapsed :
    (ticks0 d : ℕ)
    → ticks0 < 2 ^ 32
    → d < 2 ^ 32
    → ((ticks0 + d) % 2 ^ 32 + 2 ^ 32 - ticks0) % 2 ^ 32 ≡ d
elapsed ticks0 d lo hi = omega arith

-- When d ticks have passed, also across the wraparound of the 32-bit counter, the test of
-- sys_sleep ends the call with 0 if d is at least n, and before that with -1 if the process is
-- killed, and sleeps again otherwise.
pub sleep_test-elapsed :
    (n ticks0 d : ℕ)
    → (dead : Bool) → ticks0 < 2 ^ 32
    → d < 2 ^ 32
    → (n ≤ d → sleep_test n ticks0 ((ticks0 + d) % 2 ^ 32) dead ≡ some (pos 0))
      × (d < n → dead ≡ true → sleep_test n ticks0 ((ticks0 + d) % 2 ^ 32) dead ≡ some (negsuc 0))
      × (d < n → dead ≡ false → sleep_test n ticks0 ((ticks0 + d) % 2 ^ 32) dead ≡ none)
unfolding sleep_test
sleep_test-elapsed n ticks0 d dead lo hi = (
  λ le. rw (elapsed ticks0 d lo hi) (ground arith),
  λ lt z. rw (elapsed ticks0 d lo hi) (ground arith),
  λ lt z. rw (elapsed ticks0 d lo hi) (ground arith),
)

-- What a program reads back: the value of bytes, lowest first.
abbrev pub value_of : List ℕ → ℕ
value_of [] = 0
value_of (b ∷ bs) = b + 256 * value_of bs

value_of-bytes_of : (k v : ℕ) → v < 256 ^ k → value_of (bytes_of k v) ≡ v
unfolding bytes_of
value_of-bytes_of zero v lt = omega arith
value_of-bytes_of (suc k) v lt =
    let rest : value_of (bytes_of k (v / 256)) ≡ v / 256 =
      value_of-bytes_of k (v / 256) (omega arith) in
    rw rest (omega arith)

length-bytes_of : (k v : ℕ) → length (bytes_of k v) ≡ k
unfolding bytes_of
length-bytes_of zero v = refl
length-bytes_of (suc k) v = ap suc (length-bytes_of k (v / 256))

-- Of 64-bit values, sys_sysinfo copies out 24 bytes, in which a program reads the free memory,
-- the number of processes and the load average back at the offsets of the fields.
pub sysinfo_bytes-fields :
    (freemem nproc loadavg : ℕ)
    → freemem < 2 ^ 64
    → nproc < 2 ^ 64
    → loadavg < 2 ^ 64
    → let bytes = sysinfo_bytes freemem nproc loadavg in
      (length bytes ≡ 24)
      × (value_of (take 8 bytes) ≡ freemem)
      × (value_of (take 8 (drop 8 bytes)) ≡ nproc)
      × (value_of (drop 16 bytes) ≡ loadavg)
unfolding sysinfo_bytes bytes_of
sysinfo_bytes-fields f n l hf hn hl =
    (refl, value_of-bytes_of 8 f hf, value_of-bytes_of 8 n hn, value_of-bytes_of 8 l hl)
