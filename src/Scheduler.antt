-- ===== src/Scheduler.antt =====
-- The processes of kernel/proc/scheduler.c, with the records of proc.h and scheduler.h and the
-- register frame of kernel/cpu/idt.h. What a fresh page holds is an argument, since `kmalloc` does
-- not clear it. `none` is a run that does not come back or that follows a null pointer.
pub mod Next
pub mod Valid
pub mod Switch
pub mod Slots
pub mod Rounds
pub mod Fork
pub mod Kfork
mod Tests
use l_ost.Common.{
  ℕ, zero, suc, ◌+◌, ◌-◌, ◌*◌, ◌/◌, ◌%◌, ◌^◌, ◌≤◌, ◌<◌, ◌≡◌, ◌≢◌, refl, sym, ap, ◌∙◌, ◌↔◌, ◌⊎◌, inl,
  inr, Bool, true, false, ◌&&◌, ◌||◌, not, Option, none, some, List, [], ◌∷◌, ◌++◌, arith,
  ℕ_discrete, dec_lt, ltb, leb, ◌==◌, if◌then◌else◌, Bool-cases, Option-cases, length, u8, u16, u32,
  mask, bit_field, slt, promote,
}
use l_ost.Memory.{Memory, page_size, kmalloc, kumalloc, kfree, kfree_pid}

-- `irq_registers_t`. The kernel's frame is one word shorter: its `ss` is the word `useresp`.
pub record Registers : Type 0 where
  pub gs : ℕ
  pub fs : ℕ
  pub es : ℕ
  pub ds : ℕ
  pub edi : ℕ
  pub esi : ℕ
  pub ebp : ℕ
  pub esp : ℕ
  pub ebx : ℕ
  pub edx : ℕ
  pub ecx : ℕ
  pub eax : ℕ
  pub int_no : ℕ
  pub err_code : ℕ
  pub eip : ℕ
  pub cs : ℕ
  pub eflags : ℕ
  pub useresp : ℕ
  pub ss : ℕ

-- `sizeof(irq_user_registers_t)`.
abbrev pub frame_size : ℕ
frame_size = 76

-- `process32_t`, and the page that it stands in.
pub record Process : Type 0 where
  pub address : ℕ
  pub memory_base : ℕ
  pub memory_limit : ℕ
  pub stack_base : ℕ
  pub stack_limit : ℕ
  pub regs : Registers
  pub allocated_pages : ℕ
  pub lock : ℕ
  pub priority : ℕ
  pub abi : ℕ
  pub stdin : ℕ
  pub stdout : ℕ

-- `proc_list_t`, and the page that it stands in.
pub record ProcEntry : Type 0 where
  pub address : ℕ
  pub process : Process
  pub pid : ℕ
  pub ppid : ℕ
  pub uid : ℕ
  pub ring0 : Bool
  pub path_to_exec : ℕ

-- An element of `proc_list`: null, the -1 of index 0, or a process.
pub data Slot : Type 0 where
  empty : Slot
  sentinel : Slot
  proc : ProcEntry → Slot

abbrev pub ProcList : Type 0
ProcList = ℕ → Slot

-- The file's variables, and those of the page allocator.
pub record Scheduler : Type 0 where
  pub memory : Memory
  pub cpid : ℕ
  pub lapid : ℕ
  pub active_procs : ℕ
  pub proc_list : ProcList
  pub enable_scheduler : Bool

abbrev pub max_procs : ℕ
max_procs = 65536

abbrev pub is_empty : Slot → Bool
is_empty empty = true
is_empty _ = false

-- `proc_list[pid] = v`.
abbrev pub set_slot : ProcList → ℕ → Slot → ProcList
set_slot t pid v j = if j == pid then v else t j

unfoldable pub get_pid : Scheduler → ℕ
get_pid s = s.cpid

unfoldable pub get_proc : (pid : ℕ) → Scheduler → Slot
get_proc pid s = if ltb max_procs pid then empty else s.proc_list pid

-- `while(proc_list[lapid]) ++lapid;`, on a 16-bit `lapid`.
pub find_slot : (fuel : ℕ) → ProcList → (lapid : ℕ) → Option ℕ
find_slot zero t lapid = none
find_slot (suc fuel) t lapid =
    let rest = find_slot fuel t (u16 (lapid + 1)) in if is_empty (t lapid) then some lapid else rest

-- The entry that `register_process` fills in.
abbrev pub new_entry :
    (address : ℕ) → (parent : Option ProcEntry) → Process → (pid : ℕ) → ProcEntry → ProcEntry
new_entry address parent process pid raw = record raw {
  address = address;
  process = process;
  pid = pid;
  ppid = elim parent [ none ↦ 0 | some e ↦ e.pid ];
}

-- `register_process` behind its test of the allocation.
pub register_at :
    (fuel address : ℕ) → Option ProcEntry → Process → ProcEntry → Scheduler → Option (ℕ × Scheduler)
register_at fuel address parent process raw s = elim (find_slot fuel s.proc_list s.lapid) [
  | none ↦ none
  | some pid ↦ some (
    pid,
    record s {
      lapid = pid;
      proc_list = set_slot s.proc_list pid (proc (new_entry address parent process pid raw));
    },
  )
]

pub register_process : Option ProcEntry → Process → ProcEntry → Scheduler → Option (ℕ × Scheduler)
register_process parent process raw s =
    let (address, memory) = kmalloc 1 6 s.memory in
    if address == 0
    then some (2 ^ 32 - 1, s)
    else register_at max_procs address parent process raw (record s { memory = memory })

-- `init_scheduler`, which loops for ever when it gets no memory.
pub init_scheduler : Scheduler → Option Scheduler
init_scheduler s =
    let (address, memory) = kmalloc (4 * max_procs / page_size) 6 s.memory in
    if address == 0
    then none
    else some (record s {
      memory = memory;
      proc_list = λ pid. if pid == 0 then sentinel else empty;
      enable_scheduler = true;
    })

-- The three releases of `exit_proc` and `exit_v`.
pub release : (pid : ℕ) → ProcEntry → Memory → Option Memory
release pid e m = elim (kfree_pid pid e.process.allocated_pages m) [
  | none ↦ none
  | some m1 ↦ elim (kfree e.process.address m1) [ none ↦ none | some m2 ↦ kfree e.address m2 ]
]

-- `exit_proc`; `exit_v` does the same for the running process, and then waits to be replaced.
pub exit_proc : (pid : ℕ) → Scheduler → Option Scheduler
exit_proc pid s = elim (get_proc pid s) [
  | empty ↦ none
  | sentinel ↦ none
  | proc e ↦ elim (release pid e s.memory) [
    | none ↦ none
    | some m ↦ some (record s {
      memory = m;
      proc_list = set_slot s.proc_list pid empty;
      active_procs = u32 (s.active_procs + 2 ^ 32 - 1);
    })
  ]
]

pub exit_v : Scheduler → Option Scheduler
exit_v s = exit_proc (get_pid s) s

-- `push_args` of scheduler.s: the stack pointer below `count` arguments and a null word.
pub push_args : (count esp : ℕ) → ℕ
push_args count esp = u32 (esp + 2 ^ 32 - 4 * (count + 1) % 2 ^ 32)

-- The process that `kfork` fills in, with its stack at `stack`.
abbrev pub kernel_process : (function count stack eflags : ℕ) → Process → Process
kernel_process function count stack eflags p = record p {
  stack_base = stack;
  stack_limit = u32 (stack + 4096);
  regs = record p.regs {
    gs = 0x10;
    es = 0x10;
    ds = 0x10;
    ebp = u32 (stack + 4096);
    esp = u32 (push_args count (u32 (stack + 4096)) + 2 ^ 32 - 4);
    eip = function;
    cs = 0x8;
    eflags = eflags;
    useresp = 0x10;
  };
  allocated_pages = 2 ^ 32 - 1;
  lock = 0;
  priority = 4;
  abi = 0;
}

-- `kfork` behind `register_process`.
pub kfork_at : (function count eflags pid : ℕ) → Process → Scheduler → Option (ℕ × Scheduler)
kfork_at function count eflags pid p s = elim (get_proc pid s) [
  | empty ↦ none
  | sentinel ↦ none
  | proc e ↦
      let (stack, memory) = kumalloc 1 6 pid s.memory in
      some (
        pid,
        record s {
          memory = memory;
          proc_list = set_slot s.proc_list pid (
              proc (record e {
                process = kernel_process function count stack eflags p;
                ring0 = true;
              }));
          active_procs = u32 (s.active_procs + 1);
        },
      )
]

-- `kfork`: `raw_process` and `raw_entry` are what the two fresh pages hold.
pub kfork : (function count eflags : ℕ) → Process → ProcEntry → Scheduler → Option (ℕ × Scheduler)
kfork function count eflags raw_process raw_entry s =
    let (address, memory) = kmalloc 1 6 s.memory in
    let p : Process = record raw_process { address = address } in
    elim (register_process none p raw_entry (record s { memory = memory })) [
      | none ↦ none
      | some (registered, s') ↦ kfork_at function count eflags (u16 registered) p s'
    ]

-- `proc_list[cpid]->process->regs = *oldregs`. Where the running process has ended, the source
-- writes through a null pointer, which no variable here shows.
pub save_regs : Registers → Scheduler → Scheduler
save_regs oldregs s = elim (s.proc_list s.cpid) [
  | empty ↦ s
  | sentinel ↦ s
  | proc e ↦ record s {
    proc_list =
        set_slot s.proc_list s.cpid
          (proc (record e { process = record e.process { regs = oldregs } }));
  }
]

-- `if(cpid != 0)` and what it guards.
pub save_running : Registers → Scheduler → Scheduler
save_running oldregs s = if s.cpid == 0 then s else save_regs oldregs s

-- `while(!proc_list[cpid] || …) cpid++;`, on a 16-bit `cpid`. The second part of the test holds only
-- where the first does, so the process's lock is not looked at.
pub next_from : (fuel : ℕ) → ProcList → (cpid : ℕ) → Option ℕ
next_from zero t cpid = none
next_from (suc fuel) t cpid =
    let rest = next_from fuel t (u16 (cpid + 1)) in if is_empty (t cpid) then rest else some cpid

-- Where the loop has come round to 0, `schedule` calls itself, which goes on from 1. If that comes
-- round to 0 too, it calls itself without end.
pub next_pid : (fuel : ℕ) → ProcList → (cpid : ℕ) → Option ℕ
next_pid fuel t cpid = elim (next_from fuel t (u16 (cpid + 1))) [
  | none ↦ none
  | some pid ↦
      if pid == 0
      then elim (next_from fuel t 1) [
        | none ↦ none
        | some again ↦ if again == 0 then none else some again
      ]
      else some pid
]

-- Where the frame that `schedule` returns stands: in place, or on the process's kernel stack.
pub data Frame : Type 0 where
  in_place : Frame
  on_stack : ℕ → Frame

-- The frame from which a process goes on.
abbrev pub resume : ProcEntry → Frame × Registers
resume e =
    if e.ring0
    then (on_stack (u32 (e.process.regs.esp + 2 ^ 32 - frame_size)), e.process.regs)
    else (in_place, e.process.regs)

-- `schedule` behind its first test and the saving of the registers.
pub switch : (fuel : ℕ) → Scheduler → Option ((Frame × Registers) × Scheduler)
switch fuel s = elim (next_pid fuel s.proc_list s.cpid) [
  | none ↦ none
  | some pid ↦ elim (s.proc_list pid) [
    | empty ↦ none
    | sentinel ↦ none
    | proc e ↦ some (resume e, record s { cpid = pid })
  ]
]

pub schedule : Registers → Scheduler → Option ((Frame × Registers) × Scheduler)
schedule oldregs s =
    if s.active_procs == 0 || not s.enable_scheduler
    then some ((in_place, oldregs), s)
    else switch max_procs (save_running oldregs s)
