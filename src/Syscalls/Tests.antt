-- ===== src/Syscalls/Tests.antt =====
-- The system calls of a process on a machine with three free pages, and the theorems there.
use l_ost.Common.{
  ℕ, ◌+◌, ◌-◌, ◌<◌, ◌≡◌, refl, inr, true, ◌&&◌, some, arith, ltb, leb, ◌==◌, if◌then◌else◌,
}
use l_ost.Memory.{withheld_entry, available_entry}
use l_ost.Text.{Bytes}
use l_ost.Scheduler.{Registers, ProcEntry, empty, sentinel, proc, get_proc, get_pid}
use l_ost.Scheduler.Fork.{Kernel}
use l_ost.Syscalls.{Files, software_int, running_proc, take_input, native_irq}
use l_ost.Syscalls.Input.{Line, take_input-Line}

abbrev asking : Registers
asking = record {
  gs = 0x23;
  fs = 0x23;
  es = 0x23;
  ds = 0x23;
  edi = 0;
  esi = 0;
  ebp = 0x105000;
  esp = 0x104f00;
  ebx = 5000;
  edx = 2;
  ecx = 0x90000;
  eax = 9;
  int_no = 0x80;
  err_code = 0;
  eip = 0x200000;
  cs = 0x1b;
  eflags = 0x202;
  useresp = 0x104f00;
  ss = 0x23;
}

abbrev user : ProcEntry
user = record {
  address = 0x103000;
  process = record {
    address = 0x102000;
    memory_base = 0x200000;
    memory_limit = 0x201000;
    stack_base = 0x104000;
    stack_limit = 0x105000;
    regs = asking;
    allocated_pages = 1;
    lock = 0;
    priority = 4;
    abi = 0;
    stdin = 0x5000;
    stdout = 0x6000;
  };
  pid = 3;
  ppid = 0;
  uid = 0;
  ring0 = true;
  path_to_exec = 0;
}

-- Process 3 runs; "abc" waits in its standard input.
abbrev machine : Kernel
machine = record {
  scheduler = record {
    memory = record {
      max_address = 0x104000;
      total_usable = 0;
      page_table_size = 260;
      page_table = λ k. if ltb k 257 then withheld_entry else available_entry;
    };
    cpid = 3;
    lapid = 1;
    active_procs = 1;
    proc_list = λ j. if j == 0 then sentinel else if j == 3 then proc user else empty;
    enable_scheduler = true;
  };
  bytes = λ a. if leb 0x5000 a && ltb a 0x5003 then 97 + (a - 0x5000) else 0;
}

-- No file is ever found.
abbrev no_files : Files
no_files = record {
  fopen = λ name mode k. some (0, k);
  fread = λ file buffer size k. some k;
  fwrite = λ file buffer size k. some k;
}

tells_pid :
    software_int no_files user.process user 9 (record asking { eax = 7 }) machine
    ≡ some (record asking { eax = 3 }, machine)
unfolding software_int native_irq running_proc get_proc get_pid
tells_pid = refl

abc : Line machine.bytes 0x5000 3
abc = record { filled = λ j lt. ground arith; null = refl }

take_input-Line_example :
    (m' : Bytes) × (take_input 9 0x5000 0x90000 2 machine.bytes ≡ some m')
    × ((j : ℕ) → j < 2 → m' (0x90000 + j) ≡ machine.bytes (0x5000 + j))
    × ((j : ℕ) → j < 3 - 2 → m' (0x5000 + j) ≡ machine.bytes (0x5000 + 2 + j))
    × Line m' 0x5000 3
take_input-Line_example =
    take_input-Line 9 0x5000 0x90000 2 3 machine.bytes abc (omega arith) (omega arith) (omega arith)
      (omega arith) (inr (omega arith))
