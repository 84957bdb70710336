-- ===== src/Scheduler/Tests.antt =====
-- The processes at concrete tables, and the theorems at them.
use l_ost.Common.{
  ℕ, ◌+◌, ◌≤◌, ◌≡◌, ◌≢◌, refl, inl, inr, true, false, none, some, arith, ltb, ◌==◌, if◌then◌else◌,
  Bool-cases,
}
use l_ost.Memory.{
  Memory, withheld_entry, available_entry, kmalloc, allocate, find_pages, stops_at, check_free,
  check_free_from, mark_from,
}
use l_ost.Scheduler.{
  Registers, Process, ProcEntry, empty, sentinel, proc, ProcList, Scheduler, Frame, save_running,
  schedule, resume, register_process,
}
use l_ost.Scheduler.Next.{NextLive}
use l_ost.Scheduler.Valid.{Valid}
use l_ost.Scheduler.Switch.{Saved, schedule-NextLive, schedule-Saved}
use l_ost.Scheduler.Fork.{Kernel}
use l_ost.Scheduler.Rounds.{interrupts, interrupts-reach}
use l_ost.Scheduler.Slots.{Registered, register_process-Registered}

abbrev regs_at : ℕ → Registers
regs_at eip = record {
  gs = 0x10;
  fs = 0x10;
  es = 0x10;
  ds = 0x10;
  edi = 0;
  esi = 0;
  ebp = 0x105000;
  esp = 0x104f00;
  ebx = 0;
  edx = 0;
  ecx = 0;
  eax = 0;
  int_no = 0x20;
  err_code = 0;
  eip = eip;
  cs = 8;
  eflags = 0x202;
  useresp = 0x10;
  ss = 0x10;
}

abbrev process_at : ℕ → Process
process_at eip = record {
  address = 0x102000;
  memory_base = 0;
  memory_limit = 0;
  stack_base = 0x104000;
  stack_limit = 0x105000;
  regs = regs_at eip;
  allocated_pages = 1;
  lock = 0;
  priority = 4;
  abi = 0;
  stdin = 0;
  stdout = 0;
}

abbrev entry_at : ℕ → ProcEntry
entry_at pid = record {
  address = 0x103000;
  process = process_at (0x200000 + pid);
  pid = pid;
  ppid = 0;
  uid = 0;
  ring0 = true;
  path_to_exec = 0;
}

-- Processes stand at 2 and 5; process 5 runs.
abbrev two_processes : ProcList
two_processes j =
    if j == 0
    then sentinel
    else if j == 2
    then proc (entry_at 2)
    else if j == 5
    then proc (entry_at 5)
    else empty

abbrev available : Memory
available = record {
  max_address = 0x104000;
  total_usable = 0;
  page_table_size = 260;
  page_table = λ k. if ltb k 257 then withheld_entry else available_entry;
}

abbrev board : Scheduler
board = record {
  memory = available;
  cpid = 5;
  lapid = 0;
  active_procs = 2;
  proc_list = two_processes;
  enable_scheduler = true;
}

board-Valid : Valid board
board-Valid = record {
  zeroth = refl;
  others = λ j lo.
      let nonzero : (j == 0) ≡ false = ground arith in
      rw nonzero (elim (Bool-cases (j == 2)) [
        | inl e ↦ inr (entry_at 2, rw e refl)
        | inr e ↦ elim (Bool-cases (j == 5)) [
          | inl e' ↦ inr (entry_at 5, rw (e, e') refl)
          | inr e' ↦ inl (rw (e, e') refl)
        ]
      ]);
  running = omega arith;
}

kmalloc_ok : (kmalloc 1 6 available).0 ≢ 0
unfolding kmalloc allocate find_pages stops_at check_free check_free_from mark_from
kmalloc_ok e = absurd (omega (arith, e))

schedule-NextLive_example :
    (k : ℕ) × (e : ProcEntry) × NextLive two_processes 5 k
    × ((save_running (regs_at 0x300000) board).proc_list k ≡ proc e)
    × (schedule (regs_at 0x300000) board
        ≡ some (resume e, record (save_running (regs_at 0x300000) board) { cpid = k }))
schedule-NextLive_example =
    schedule-NextLive (regs_at 0x300000) board 2 board-Valid (omega arith) refl (omega arith)
      (omega arith) refl

schedule-Saved_example :
    (frame : Frame × Registers) × (s' : Scheduler) × (schedule (regs_at 0x300000) board
      ≡ some (frame, s'))
    × Saved (regs_at 0x300000) board s'
schedule-Saved_example =
    schedule-Saved (regs_at 0x300000) board 2 board-Valid (omega arith) refl (omega arith)
      (omega arith) refl

register_process-Registered_example :
    (k : ℕ) × (s' : Scheduler) × (register_process none (process_at 0x400000) (entry_at 9) board
      ≡ some (k, s'))
    × Registered board s' (process_at 0x400000) none k
register_process-Registered_example =
    register_process-Registered none (process_at 0x400000) (entry_at 9) board 1 board-Valid
      kmalloc_ok (omega arith) (omega arith) refl

interrupts-reach_example :
    (n : ℕ) × (s' : Scheduler) × (1 ≤ n)
    × (n ≤ 65536)
    × (interrupts n (λ i. regs_at (0x300000 + i)) board ≡ some s')
    × (s'.cpid ≡ 2)
interrupts-reach_example =
    interrupts-reach 2 (λ i. regs_at (0x300000 + i)) board board-Valid (omega arith) refl
      (omega arith) (omega arith) refl

abbrev machine : Kernel
machine = record { scheduler = board; bytes = λ a. 0 }

abbrev forker : ProcEntry
forker = record (entry_at 5) { process = record (process_at 0x200005) { memory_limit = 1 } }
