-- ===== src/Scheduler/Fork.antt =====
-- `fork` and `exec` of kernel/proc/scheduler.c, on the list of processes and the bytes of memory. What
-- fresh pages hold is an argument. `none` is a run that follows a null pointer or does not come back.
use l_ost.Common.{
  ℕ, zero, suc, ◌+◌, ◌-◌, ◌*◌, ◌/◌, ◌^◌, ◌≡◌, ◌≢◌, ◌||◌, not, Option, none, some, ltb, ◌==◌,
  if◌then◌else◌, u32,
}
use l_ost.Memory.{Memory, page_size, kmalloc, kumalloc, kfree}
use l_ost.Text.{Bytes, kmemcpy}
use l_ost.Storage.Detect.{long_at}
use l_ost.Fat.{store_long}
use l_ost.Fat.Names.{rounds}
use l_ost.Scheduler.{
  Process, ProcEntry, empty, sentinel, proc, Scheduler, set_slot, get_proc, register_process,
}
use l_ost.Scheduler.Valid.{Valid}

-- The scheduler, and the bytes of memory.
pub record Kernel : Type 0 where
  pub scheduler : Scheduler
  pub bytes : Bytes

-- What `fork` leaves in the new process, whose memory, stack, input and output are at the addresses
-- given.
abbrev pub child_process : (buffer size stack stdin stdout : ℕ) → (parent child : Process) → Process
child_process buffer size stack stdin stdout parent child = record child {
  stack_base = stack;
  stack_limit = page_size;
  memory_base = buffer;
  memory_limit = u32 (buffer + size);
  regs = record parent.regs { eax = 0 };
  stdin = stdin;
  stdout = stdout;
  priority = parent.priority;
  lock = 0;
}

-- The copies of `fork`: one byte of the memory, and the stack up to the stack pointer.
unfoldable pub copy_image : (buffer stack : ℕ) → Process → Bytes → Bytes
copy_image buffer stack parent m =
    kmemcpy parent.stack_base stack
      (rounds (u32 (parent.stack_limit + 2 ^ 32 - parent.regs.useresp)))
      (kmemcpy parent.memory_base buffer 1 m)

-- The end of `fork`, on the index that `register_process` gave.
unfoldable pub end_fork : (ret : ℕ) → Process → Scheduler → Option (ℕ × Scheduler)
end_fork ret child s =
    if ret == 2 ^ 32 - 1
    then elim (kfree child.address s.memory) [
      | none ↦ none
      | some m ↦ some (0, record s { memory = m })
    ]
    else elim (s.proc_list ret) [
      | empty ↦ none
      | sentinel ↦ none
      | proc e ↦ some (
        ret,
        record s {
          proc_list = set_slot s.proc_list ret (proc (record e { process = child }));
          active_procs = u32 (s.active_procs + 1);
        },
      )
    ]

-- `fork` behind `register_process`; `child` is the new process as its page holds it. The number of pages is
-- an `int` in the source, and here one that is below 2^31.
unfoldable pub fork_registered :
    (ret : ℕ) → Process → (child : Process) → Kernel → Option (ℕ × Kernel)
fork_registered ret parent child k =
    let s = k.scheduler in
    let size = u32 (parent.memory_limit + 2 ^ 32 - parent.memory_base) in
    let (buffer, m1) =
      kumalloc (u32 (parent.memory_limit + 2 ^ 32 - parent.memory_base / 4096)) 7 ret s.memory in
    let (stack, m2) = kumalloc 1 6 ret m1 in
    let (stdin, m3) = kmalloc 1 6 m2 in
    let (stdout, m4) = kmalloc 1 6 m3 in
    if buffer == 0
    then some (0, record k { scheduler = record s { memory = m1 } })
    else if child.address == 0
    then none
    else elim (end_fork ret (child_process buffer size stack stdin stdout parent child)
        (record s { memory = m4 })) [
          | none ↦ none
          | some (result, s') ↦
              some
                (result, record { scheduler = s'; bytes = copy_image buffer stack parent k.bytes })
        ]

-- `fork`; `none` for the process is the null pointer.
unfoldable pub fork :
    Option ProcEntry
    → (raw_process : Process) → (raw_entry : ProcEntry) → Kernel
    → Option (ℕ × Kernel)
fork parent raw_process raw_entry k =
    let (address, m) = kmalloc 1 6 k.scheduler.memory in
    let child : Process = record raw_process { address = address } in
    elim (register_process parent child raw_entry (record k.scheduler { memory = m })) [
      | none ↦ none
      | some (ret, s) ↦ elim parent [
        | none ↦ some (0, record k { scheduler = s })
        | some e ↦ fork_registered ret e.process child (record k { scheduler = s })
      ]
    ]

-- `for(argc = 0; argv[argc] || argc < 65536; argc++);`.
unfoldable pub count_args : (fuel : ℕ) → Bytes → (argv argc : ℕ) → Option ℕ
count_args zero m argv argc = none
count_args (suc fuel) m argv argc =
    let rest = count_args fuel m argv (argc + 1) in
    if not (long_at m (u32 (argv + 4 * argc)) == 0) || ltb argc 65536 then rest else some argc

-- The memory that `exec` loads the code to: its address, and the pages, for a buffer below 2^31.
unfoldable pub make_room : (buffer buffer_size pid : ℕ) → Process → Memory → Option (ℕ × Memory)
make_room buffer buffer_size pid p m =
    if ltb buffer_size (u32 (p.memory_limit + 2 ^ 32 - p.memory_base))
    then elim (kfree p.memory_base m) [
      | none ↦ none
      | some m' ↦ some (kumalloc (buffer / 4096) 7 pid m')
    ]
    else some (p.memory_base, m)

-- `exec`, which works on a copy of the process; `exit_v` is the address of that function.
unfoldable pub exec : (fuel exit_v buffer buffer_size pid argv : ℕ) → Kernel → Option (ℕ × Kernel)
exec fuel exit_v buffer buffer_size pid argv k = elim (get_proc pid k.scheduler) [
  | empty ↦ none
  | sentinel ↦ none
  | proc e ↦ elim (make_room buffer buffer_size pid e.process k.scheduler.memory) [
    | none ↦ none
    | some (base, memory) ↦
        let s : Scheduler = record k.scheduler { memory = memory } in
        let stack = e.process.stack_limit in
        let m1 = store_long k.bytes (u32 (stack + 2 ^ 32 - 4)) argv in
        if base == 0
        then some (2 ^ 32 - 1, record k { scheduler = s })
        else elim (count_args fuel m1 argv 0) [
          | none ↦ none
          | some argc ↦
              let m2 = store_long (store_long m1 (u32 (stack + 2 ^ 32 - 8)) argc) stack exit_v in
              some
                (0, record { scheduler = s; bytes = kmemcpy buffer base (rounds buffer_size) m2 })
        ]
  ]
]

-- What a successful `fork` of `parent` leaves: the child at the index `ret`.
pub record Forked (k k' : Kernel) (parent : ProcEntry) (ret : ℕ) : Type 0 where
  pub free : k.scheduler.proc_list ret ≡ empty
  pub child :
      (e : ProcEntry) × (k'.scheduler.proc_list ret ≡ proc e)
      × (e.pid ≡ ret)
      × (e.ppid ≡ parent.pid)
      × (e.process.regs ≡ record parent.process.regs { eax = 0 })
      × (e.process.priority ≡ parent.process.priority)
      × (e.process.lock ≡ 0)
  pub others : (j : ℕ) → j ≢ ret → k'.scheduler.proc_list j ≡ k.scheduler.proc_list j
  pub count : k'.scheduler.active_procs ≡ u32 (k.scheduler.active_procs + 1)

-- The pages of `fork` before it copies the memory.
abbrev pub forking : Kernel → Memory
forking k = (kmalloc 1 6 (kmalloc 1 6 k.scheduler.memory).1).1

abbrev pub image_pages : Process → ℕ
image_pages p = u32 (p.memory_limit + 2 ^ 32 - p.memory_base / 4096)
