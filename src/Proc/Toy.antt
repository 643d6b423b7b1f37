-- ===== src/Proc/Toy.antt =====
-- A small world and process table for concrete runs: memory is the address of the next page that
-- `kalloc` returns, and every other call succeeds and changes nothing.
use os_proc_lap02_system_cal.Prelude.{ℕ, ◌+◌, true, false, none, some, [], replicate, update}
use os_proc_lap02_system_cal.Proc.{Proc, State, Kernel, World}

abbrev pub toy : World
toy = record {
  Mem = ℕ;
  kalloc = λ m. (m, m + 4096);
  kfree = λ pa m. some m;
  uvmcreate = λ m. (m, m + 4096);
  mappages = λ pt va size pa perm m. some (true, m);
  uvmunmap = λ pt va n free m. some m;
  uvmfree = λ pt sz m. some m;
  uvmfirst = λ pt code m. some m;
  uvmcopy = λ from to sz m. some (true, m);
  uvmalloc = λ pt from to perm m. some (to, m);
  uvmdealloc = λ pt from to m. some (to, m);
  copyout = λ pt va bytes m. some (true, m);
  copyin = λ pt va len m. some (some (replicate len 7));
  copyinstr = λ pt va len m. some none;
  nfree = λ m. 8192;
  filedup = λ f m. some m;
  fileclose = λ f m. some m;
  idup = λ ip m. some m;
  iput = λ ip m. some m;
  begin_op = λ m. some m;
  end_op = λ m. some m;
  namei = λ path m. some (7, m);
}

abbrev pub empty_entry : Proc
empty_entry = record {
  state = State.unused;
  chan = 0;
  killed = false;
  xstate = 0;
  pid = 0;
  parent = none;
  kstack = 0;
  sz = 0;
  pagetable = 0;
  trapframe = 0;
  regs = λ _. 0;
  ra = 0;
  sp = 0;
  ofile = λ _. 0;
  cwd = 0;
  name = [];
  trace_mask = 0;
}

-- Entry 0 is init, which waits on its own entry; entry 1 runs, traces fork, and has one open file.
abbrev pub init_entry_0 : Proc
init_entry_0 = record empty_entry { state = State.sleeping; chan = 5000; pid = 1 }

abbrev pub running_entry : Proc
running_entry = record empty_entry {
  state = State.running;
  pid = 2;
  parent = some 0;
  sz = 8192;
  trace_mask = 2;
  ofile = update (λ _. 0) 0 77;
}

abbrev pub two_procs : Kernel ℕ
two_procs = record {
  procs = update (update (λ _. empty_entry) 0 init_entry_0) 1 running_entry;
  nextpid = 3;
  initproc = some 0;
  runnable_procs = 0;
  loadavg = 4;
  mem = 0x8700_0000;
}
