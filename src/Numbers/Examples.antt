-- ===== src/Numbers/Examples.antt =====
-- Concrete numbers.
use os_proc_lap02_system_cal.Prelude.{ℕ, ◌^◌, ◌≤◌, ◌≡◌, ◌↔◌, false, none, some, List}
use os_proc_lap02_system_cal.Numbers.{kernel_printint, user_printint, atoi}
use os_proc_lap02_system_cal.Numbers.Decimal.{kernel_printint-overflow, atoi-user_printint}

kernel_printint-overflow_example :
    (kernel_printint 20000000000000001 10 false ≡ none) ↔ (10 ^ 16 ≤ 20000000000000001)
kernel_printint-overflow_example = kernel_printint-overflow 20000000000000001

atoi-user_printint_example :
    (s : List ℕ) × (user_printint 4294967338 10 false ≡ some s) × (atoi s ≡ 42)
atoi-user_printint_example = atoi-user_printint 4294967338
