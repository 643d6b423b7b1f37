-- ===== src/Layout.antt =====
-- kernel/param.h, kernel/memlayout.h and kernel/riscv.h: the constants that the code is built with.
use os_proc_lap02_system_cal.Prelude.{ℕ, ◌+◌, ◌-◌, ◌*◌, ◌/◌, ◌^◌, ◌%◌}

-- `PGSIZE`
abbrev pub pg_size : ℕ
pg_size = 4096

-- `KERNBASE`, where RAM begins, and `PHYSTOP`, where it ends
abbrev pub kern_base : ℕ
kern_base = 0x8000_0000

abbrev pub phys_top : ℕ
phys_top = kern_base + 128 * 1024 * 1024

-- `PGROUNDUP`: a 64-bit sum, its low twelve bits cleared
abbrev pub pg_round_up : ℕ → ℕ
pg_round_up sz = (sz + pg_size - 1) % 2 ^ 64 / pg_size * pg_size

-- `PGROUNDDOWN`
abbrev pub pg_round_down : ℕ → ℕ
pg_round_down a = a / pg_size * pg_size

-- `NPROC`
abbrev pub n_proc : ℕ
n_proc = 64

-- `NOFILE`
abbrev pub n_ofile : ℕ
n_ofile = 16

-- `MAXOPBLOCKS`
abbrev pub max_op_blocks : ℕ
max_op_blocks = 10

-- `LOGSIZE`
abbrev pub log_size : ℕ
log_size = max_op_blocks * 3

-- `MAXVA`, and the two pages at the top of every address space, `TRAMPOLINE` and `TRAPFRAME`
abbrev pub max_va : ℕ
max_va = 2 ^ 38

abbrev pub trampoline_va : ℕ
trampoline_va = max_va - pg_size

abbrev pub trapframe_va : ℕ
trapframe_va = trampoline_va - pg_size

-- `KSTACK(i)`
abbrev pub kstack_va : ℕ → ℕ
kstack_va i = trampoline_va - (i + 1) * 2 * pg_size

-- `PTE_V`, `PTE_R`, `PTE_W`, `PTE_X`, `PTE_U`
abbrev pub pte_v : ℕ
pte_v = 1

abbrev pub pte_r : ℕ
pte_r = 2

abbrev pub pte_w : ℕ
pte_w = 4

abbrev pub pte_x : ℕ
pte_x = 8

abbrev pub pte_u : ℕ
pte_u = 16

-- `NFILE`, `NDEV` and `BSIZE`
abbrev pub n_file : ℕ
n_file = 100

abbrev pub n_dev : ℕ
n_dev = 10

abbrev pub b_size : ℕ
b_size = 1024
