-- ===== src/Syscalls.antt =====
-- The system calls of a process: `native_irq` and `software_int` of kernel/cpu/idt.c. The file calls of
-- kernel/drivers/storage.c are arguments. `none` is a run that follows a null pointer or does not
-- come back.
pub mod Pages
pub mod Input
mod Tests
use l_ost.Common.{
  ℕ, zero, suc, ◌+◌, ◌-◌, ◌*◌, ◌/◌, ◌%◌, ◌^◌, ◌≤◌, ◌<◌, ◌≡◌, ◌≢◌, refl, sym, ap, ◌∙◌, ◌↔◌, ◌⊎◌, inl,
  inr, Bool, true, false, ◌&&◌, ◌||◌, not, Option, none, some, List, [], ◌∷◌, ◌++◌, arith,
  ℕ_discrete, dec_lt, ltb, leb, ◌==◌, if◌then◌else◌, Bool-cases, Option-cases, length, u8, u16, u32,
  mask, bit_field, slt, promote,
}
use l_ost.Memory.{kumalloc, kfree}
use l_ost.Text.{Bytes, store, kstrlen, kstrcat, kmemcpy}
use l_ost.Fat.Names.{rounds}
use l_ost.Scheduler.{
  Registers, Process, ProcEntry, Slot, empty, sentinel, proc, Scheduler, get_pid, get_proc,
  exit_proc,
}
use l_ost.Scheduler.Fork.{Kernel, fork}

-- `get_proc(get_pid())`, as an entry.
unfoldable pub running_proc : Kernel → Option ProcEntry
running_proc k = elim (get_proc (get_pid k.scheduler) k.scheduler) [
  | empty ↦ none
  | sentinel ↦ none
  | proc e ↦ some e
]

-- An element of `proc_list` as a number.
abbrev pub slot_address : Slot → ℕ
slot_address empty = 0
slot_address sentinel = 2 ^ 32 - 1
slot_address (proc e) = e.address

unfoldable pub end_process : (pid : ℕ) → Kernel → Option Kernel
end_process pid k = elim (exit_proc pid k.scheduler) [
  | none ↦ none
  | some s ↦ some (record k { scheduler = s })
]

-- The amount of characters that `sys_read` gives.
abbrev pub amount : (stdinlen wanted : ℕ) → ℕ
amount stdinlen wanted = if ltb stdinlen wanted then stdinlen else wanted

-- The moves of `sys_read` on the standard input at `stdin`: to the process, to the front, and the null
-- byte behind the string.
unfoldable pub take_input : (fuel stdin target count : ℕ) → Bytes → Option Bytes
take_input fuel stdin target count m =
    let m1 = kmemcpy stdin target (rounds count) m in
    elim (kstrlen fuel m1 stdin) [
      | none ↦ none
      | some left ↦
          let m2 = kmemcpy (u32 (stdin + count)) stdin (rounds (u32 (left + 2 ^ 32 - count))) m1 in
          elim (kstrlen fuel m2 stdin) [ none ↦ none | some end ↦ some (store m2 (stdin + end) 0) ]
    ]

-- The file calls: what they return and leave.
pub record Files : Type 0 where
  pub fopen : (name mode : ℕ) → Kernel → Option (ℕ × Kernel)
  pub fread : (file buffer size : ℕ) → Kernel → Option Kernel
  pub fwrite : (file buffer size : ℕ) → Kernel → Option Kernel

-- What a call leaves in `eax`.
abbrev pub answer : Registers → Option (ℕ × Kernel) → Option (Registers × Kernel)
answer regs none = none
answer regs (some (value, k)) = some (record regs { eax = value }, k)

-- A call that leaves the registers.
abbrev pub silent : Registers → Option Kernel → Option (Registers × Kernel)
silent regs none = none
silent regs (some k) = some (regs, k)

unfoldable pub sys_close : Registers → Kernel → Option (Registers × Kernel)
sys_close regs k = elim (kfree regs.ebx k.scheduler.memory) [
  | none ↦ none
  | some m ↦ some (regs, record k { scheduler = record k.scheduler { memory = m } })
]

unfoldable pub sys_malloc : Registers → Kernel → Option (Registers × Kernel)
sys_malloc regs k =
    let (address, m) = kumalloc (regs.ebx / 4096 + 1) 6 (get_pid k.scheduler) k.scheduler.memory in
    some (record regs { eax = address }, record k { scheduler = record k.scheduler { memory = m } })

-- `sys_read` of the standard input.
unfoldable pub read_input :
    (fuel : ℕ) → ProcEntry → Registers → Kernel → Option (Registers × Kernel)
read_input fuel e regs k = elim (kstrlen fuel k.bytes e.process.stdin) [
  | none ↦ none
  | some stdinlen ↦
      let count = amount stdinlen regs.edx in
      elim (if ltb regs.ecx 0x80000 then end_process (get_pid k.scheduler) k else some k) [
        | none ↦ none
        | some k1 ↦ elim (take_input fuel e.process.stdin e.process.regs.ecx count k1.bytes) [
          | none ↦ none
          | some m ↦ some (record regs { edx = count }, record k1 { bytes = m })
        ]
      ]
]

module _ (files : Files) (raw_process : Process) (raw_entry : ProcEntry) (fuel : ℕ) where
  unfoldable pub sys_fopen : Registers → Kernel → Option (Registers × Kernel)
  sys_fopen regs k =
      if k.bytes (regs.ebx + 1) == 58 && k.bytes (regs.ebx + 2) == 47
      then answer regs (files.fopen regs.ebx regs.ecx k)
      else elim (running_proc k) [
        | none ↦ none
        | some e ↦ elim (kstrcat fuel regs.ebx e.path_to_exec regs.ebx k.bytes) [
          | none ↦ none
          | some m ↦ answer regs (files.fopen regs.ebx regs.ecx (record k { bytes = m }))
        ]
      ]

  unfoldable pub sys_read : Registers → Kernel → Option (Registers × Kernel)
  sys_read regs k =
      if regs.ebx == 0
      then elim (running_proc k) [ none ↦ none | some e ↦ read_input fuel e regs k ]
      else silent regs (files.fread regs.ebx regs.ecx regs.edx k)

  unfoldable pub sys_write : Registers → Kernel → Option (Registers × Kernel)
  sys_write regs k =
      if regs.ebx == 0
      then elim (running_proc k) [
        | none ↦ none
        | some e ↦ elim (kstrcat fuel e.process.stdout e.process.stdout regs.ecx k.bytes) [
          | none ↦ none
          | some m ↦ some (regs, record k { bytes = m })
        ]
      ]
      else silent regs (files.fwrite regs.ebx regs.ecx regs.edx k)

  -- `sys_fork`, which leaves the result of `fork`.
  unfoldable pub sys_fork : Registers → Kernel → Option (Registers × Kernel)
  sys_fork regs k = elim (fork (running_proc k) raw_process raw_entry k) [
    | none ↦ none
    | some (ret, k') ↦ some (regs, k')
  ]

  unfoldable pub native_irq : Registers → Kernel → Option (Registers × Kernel)
  native_irq regs k =
      if regs.eax == 0
      then silent regs (end_process (get_pid k.scheduler) k)
      else if regs.eax == 1
      then sys_fopen regs k
      else if regs.eax == 2
      then sys_read regs k
      else if regs.eax == 3
      then sys_write regs k
      else if regs.eax == 4
      then sys_close regs k
      else if regs.eax == 5
      then sys_fork regs k
      else if regs.eax == 7
      then some (record regs { eax = get_pid k.scheduler }, k)
      else if regs.eax == 8
      then some (record regs { eax = slot_address (get_proc regs.ebx k.scheduler) }, k)
      else if regs.eax == 9
      then sys_malloc regs k
      else if regs.eax == 10
      then sys_close regs k
      else some (regs, k)

  unfoldable pub software_int : Registers → Kernel → Option (Registers × Kernel)
  software_int regs k = elim (running_proc k) [
    | none ↦ none
    | some e ↦ if e.process.abi == 0 then native_irq regs k else some (regs, k)
  ]
