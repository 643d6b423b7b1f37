-- ===== src/Vm/Kernel.antt =====
-- kernel/vm.c: the kernel's page table, and the functions of kernel/vm.c and kernel/kalloc.c as the
-- interface that the process table asks for.
use os_proc_lap02_system_cal.Prelude.{ℕ, ◌+◌, ◌-◌, Option, none, some, if◌then◌else◌, ◌>>=◌}
use os_proc_lap02_system_cal.Layout.{
  pg_size, kern_base, phys_top, trampoline_va, pte_r, pte_w, pte_x,
}
use os_proc_lap02_system_cal.Kalloc
use os_proc_lap02_system_cal.Proc.{World}
use os_proc_lap02_system_cal.Proc.Memory.{proc_mapstacks}
use os_proc_lap02_system_cal.Vm.{Phys, zero_page, with_kmem, mappages}
use os_proc_lap02_system_cal.Vm.Space.{
  free_page, uvmcreate, uvmunmap, uvmfree, uvmfirst, uvmcopy, uvmalloc, uvmdealloc,
}
use os_proc_lap02_system_cal.Vm.Copy.{copyout, copyin, copyinstr}

-- `UART0`, `VIRTIO0` and `PLIC`
abbrev pub uart0 : ℕ
uart0 = 0x1000_0000

abbrev pub virtio0 : ℕ
virtio0 = 0x1000_1000

abbrev pub plic : ℕ
plic = 0xc00_0000

unfoldable pub kvmmap : ℕ → ℕ → ℕ → ℕ → ℕ → Phys → Option Phys
kvmmap kpgtbl va pa sz perm m =
    mappages kpgtbl va sz pa perm m >>= λ (ok, m1). if ok then some m1 else none

-- What runs out of levels is a panic here: page tables have three.
abbrev pub in_depth : Option (Option Phys) → Option Phys
in_depth none = none
in_depth (some none) = none
in_depth (some (some m)) = some m

abbrev pub lift : {A B : Type 0} → (A → B) → Option A → Option B
lift f none = none
lift f (some a) = some (f a)

-- The functions of vm.c and kalloc.c beside those of the file system that `files` gives.
abbrev pub vm_world : ℕ → World → World
vm_world kernel_end files = record {
  Mem = Phys × files.Mem;
  kalloc = λ s. let (page, k) = Kalloc.kalloc s.0.kmem in (page, (with_kmem s.0 k, s.1));
  kfree = λ pa s. lift (λ m. (m, s.1)) (free_page kernel_end pa s.0);
  uvmcreate = λ s. let (pt, m) = uvmcreate s.0 in (pt, (m, s.1));
  mappages =
      λ pt va size pa perm s. lift (λ r. (r.0, (r.1, s.1))) (mappages pt va size pa perm s.0);
  uvmunmap = λ pt va n do_free s. lift (λ m. (m, s.1)) (uvmunmap kernel_end pt va n do_free s.0);
  uvmfree = λ pt sz s. lift (λ m. (m, s.1)) (in_depth (uvmfree kernel_end pt sz s.0));
  uvmfirst = λ pt src s. lift (λ m. (m, s.1)) (uvmfirst pt src s.0);
  uvmcopy = λ old new sz s. lift (λ r. (r.0, (r.1, s.1))) (uvmcopy kernel_end old new sz s.0);
  uvmalloc = λ pt oldsz newsz perm s.
      lift (λ r. (r.0, (r.1, s.1))) (uvmalloc kernel_end pt oldsz newsz perm s.0);
  uvmdealloc =
      λ pt oldsz newsz s. lift (λ r. (r.0, (r.1, s.1))) (uvmdealloc kernel_end pt oldsz newsz s.0);
  copyout = λ pt va src s. lift (λ r. (r.0, (r.1, s.1))) (copyout pt va src s.0);
  copyin = λ pt va len s. copyin pt va len s.0;
  copyinstr = λ pt va max s. copyinstr pt va max s.0;
  nfree = λ s. elim (Kalloc.nfree 32769 s.0.kmem) [ none ↦ 0 | some n ↦ n ];
  filedup = λ f s. lift (λ x. (s.0, x)) (files.filedup f s.1);
  fileclose = λ f s. lift (λ x. (s.0, x)) (files.fileclose f s.1);
  idup = λ ip s. lift (λ x. (s.0, x)) (files.idup ip s.1);
  iput = λ ip s. lift (λ x. (s.0, x)) (files.iput ip s.1);
  begin_op = λ s. lift (λ x. (s.0, x)) (files.begin_op s.1);
  end_op = λ s. lift (λ x. (s.0, x)) (files.end_op s.1);
  namei = λ path s. lift (λ r. (r.0, (s.0, r.1))) (files.namei path s.1);
}

-- `etext` and `trampoline` are symbols of the linker. As in the code, the page that kalloc returns is
-- not tested.
unfoldable pub kvmmake :
    (kernel_end etext trampoline : ℕ)
    → (files : World) → Phys × files.Mem
    → Option (ℕ × (Phys × files.Mem))
kvmmake kernel_end etext trampoline files (m, s) =
    let (kpgtbl, k) = Kalloc.kalloc m.kmem in
    let m0 = zero_page kpgtbl (with_kmem m k) in
    kvmmap kpgtbl uart0 uart0 pg_size (pte_r + pte_w) m0 >>= λ m1.
    kvmmap kpgtbl virtio0 virtio0 pg_size (pte_r + pte_w) m1 >>= λ m2.
    kvmmap kpgtbl plic plic 0x400_0000 (pte_r + pte_w) m2 >>= λ m3.
    kvmmap kpgtbl kern_base kern_base (etext - kern_base) (pte_r + pte_x) m3 >>= λ m4.
    kvmmap kpgtbl etext etext (phys_top - etext) (pte_r + pte_w) m4 >>= λ m5.
    kvmmap kpgtbl trampoline_va trampoline pg_size (pte_r + pte_x) m5 >>= λ m6.
    proc_mapstacks (vm_world kernel_end files) trampoline kpgtbl (m6, s) >>= λ t. some (kpgtbl, t)
