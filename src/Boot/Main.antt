-- ===== src/Boot/Main.antt =====
-- `kmain` of kernel/main.c, in the order of its calls.
use l_ost.Common.{codes, ℕ, ◌/◌, Option, none, some, List, [], ◌∷◌, ◌++◌, ◌==◌, if◌then◌else◌, slt}
use l_ost.Memory.{MmapEntry, Memory, init_memory}
use l_ost.Serial.{put_text, serial_init}
use l_ost.Serial.Console.{numeral}
use l_ost.Screen.{set_color, disp_str, textmode_print_load}
use l_ost.Interrupts.{init_idt, irq_install_handler, pic_remask}
use l_ost.Keyboard.{Keyboard}
use l_ost.Keyboard.Controller.{Controller, init_8042}
use l_ost.Ata.Identify.{AtaDrive32, ata_identify_all}
use l_ost.Storage.{Storage, get_fs_count}
use l_ost.Scheduler.{Registers, Scheduler, init_scheduler, kfork, schedule}
use l_ost.Timer.{count_tick}
use l_ost.Boot.{CpuidRegisters, System, Entries, Fresh, vendor, read_cpuid, max_kernel_size, unmask}

-- A line feed, and the carriage return and "[ DONE ]" behind a message.
abbrev pub line : List ℕ
line = 10 ∷ []

abbrev pub done : List ℕ
done = 13 ∷ codes "[ DONE ]"

-- A number as `kprintf` prints it for `%d`, below 2^31.
abbrev pub shown : (padding n : ℕ) → List ℕ
shown padding n = numeral n 10 padding

-- What `kmain` shows of the size of memory.
abbrev pub megabytes : Memory → List ℕ
megabytes m = codes "RAM: " ++ (shown 0 (m.max_address / 1024 / 1024) ++ codes "Mb")

-- The last two messages, and that of the size of the kernel.
abbrev pub test_numbers : (padding : ℕ) → List ℕ
test_numbers padding = codes "Real: " ++ shown padding 0x55aa ++ codes ", Test: " ++ shown 3 0x55aa

abbrev pub forked : (padding active_procs shell_pid : ℕ) → List ℕ
forked padding active_procs shell_pid =
    codes "forked"
    ++ line
    ++ codes " Active Procs: "
    ++ shown padding active_procs
    ++ codes ", PID: "
    ++ shown padding shell_pid
    ++ line

abbrev pub kernel_size : (padding size : ℕ) → List ℕ
kernel_size padding size = codes "Size of Kernel: " ++ shown padding size ++ line

-- What the start finds: the map of memory, the answers of the ports, and the processor. `preempted` is the
-- frame of a timer interrupt that comes in between the first `kfork` and the second. Before, an interrupt
-- finds no process to switch to, and `none` says that none comes in until `kmain` ends.
pub record Hardware (D : Type 0) : Type 0 where
  pub mmap : ℕ → MmapEntry
  pub mmap_count : ℕ
  pub com_ports : ℕ → ℕ
  pub echo : ℕ → ℕ
  pub respond : ℕ → List ℕ
  pub cpuid : ℕ → CpuidRegisters
  pub inb : (port : ℕ) → D → ℕ × D
  pub inw : (port : ℕ) → D → ℕ × D
  pub outb : (port value : ℕ) → D → D
  pub elapsed : D → ℕ
  pub eflags : ℕ
  pub preempted : Option Registers

-- The fresh pages of the start.
pub record Raw : Type 0 where
  pub master : AtaDrive32
  pub slave : AtaDrive32
  pub idle : Fresh
  pub shell : Fresh

module _ (call : ℕ → ℕ → ℕ) {D : Type 0} where
  -- `kprintf` or `kputs` of a text.
  abbrev pub say : List ℕ → System D → System D
  say text s = record s { serial = put_text call text s.serial }

  -- `disp_str`.
  abbrev pub display : (x y : ℕ) → List ℕ → System D → System D
  display x y text s = record s { screen = disp_str x y text s.screen }

  -- What `start_memory` leaves, behind `init_memory`.
  abbrev pub with_memory : (com_ports echo : ℕ → ℕ) → System D → Memory → System D
  with_memory com_ports echo s memory = record s {
    scheduler = record s.scheduler { memory = memory };
    screen = textmode_print_load (disp_str 40 12 (megabytes memory) (set_color 7 s.screen));
    serial =
        put_text call (codes "Finished" ++ line)
          (serial_init com_ports echo
            (put_text call (codes "Registering MMAP:" ++ line) s.serial)).1;
  }

  -- Up to the second message of the serial ports; `com_ports` and `echo` are what they answer.
  unfoldable pub start_memory :
      (mmap : ℕ → MmapEntry) (mmap_count : ℕ) (com_ports echo : ℕ → ℕ)
      → System D
      → Option (System D)
  start_memory mmap mmap_count com_ports echo s =
      elim (init_memory mmap mmap_count s.scheduler.memory) [
        | none ↦ none
        | some memory ↦ some (with_memory com_ports echo s memory)
      ]

  -- What `start_interrupts` leaves, behind `init_8042`.
  abbrev pub with_interrupts : Entries → System D → (k : Keyboard) (c : Controller) → System D
  with_interrupts e s keyboard controller =
      let i1 = init_idt e.isr0 e.isr_step e.irq0 e.irq_step e.softint s.interrupts in
      let i2 = unmask 1 (irq_install_handler e.irq0_timer_handler 0 i1).1 in
      let s1 =
        say (done ++ line ++ codes "[      ] Initializing 8042 Keyboard Controller")
          (say (codes "[      ] Loading IDT") s) in
      record (say (done ++ line) s1) {
        keyboard = keyboard;
        controller = controller;
        interrupts = pic_remask (irq_install_handler e.ps2_handler 1 (unmask 2 i2)).1;
      }

  -- From the table of interrupts to `pic_remask`.
  unfoldable pub start_interrupts : (respond : ℕ → List ℕ) → Entries → System D → Option (System D)
  start_interrupts respond e s = elim (init_8042 respond s.keyboard s.controller) [
    | none ↦ none
    | some (failed, (keyboard, controller)) ↦ some (with_interrupts e s keyboard controller)
  ]

  -- `call_cpuid`.
  unfoldable pub call_cpuid : (cpuid : ℕ → CpuidRegisters) → System D → System D
  call_cpuid cpuid s =
      let info = read_cpuid cpuid s.cpuid_info in
      record (say (codes "CPU Vendor: " ++ vendor info ++ line) s) { cpuid_info = info }

  -- The size of the kernel and its test, behind which a kernel that is too large stops.
  unfoldable pub check_size : (size : ℕ) → System D → Option (System D)
  check_size size s =
      if slt max_kernel_size size then none else some (say (kernel_size s.serial.padding size) s)

  -- `init_scheduler` with its messages, and the time that the start took.
  abbrev pub with_scheduler : Scheduler → System D → System D
  with_scheduler scheduler s = display 52 13 (shown 0 s.machine.clock.seconds) (
      display 40 13 (codes "Finished in Time:") (
        say (codes "finished" ++ line) (
          say (done ++ line)
            (record (say (codes "[      ] Initializing Scheduler") s) { scheduler = scheduler }))))

  unfoldable pub start_scheduler : System D → Option (System D)
  start_scheduler s = elim (init_scheduler s.scheduler) [
    | none ↦ none
    | some scheduler ↦ some (with_scheduler scheduler s)
  ]

  -- The warning where no filesystem is mounted.
  unfoldable pub warn : System D → System D
  warn s =
      if get_fs_count s.storage == 0
      then display 40 16 (codes "WARNING: Data may not be saved, no mounted filesystems!") s
      else s

  -- A timer interrupt with a process in the table, while `cpid` is 0: `schedule` does not save the frame
  -- of `kmain`, and goes on with a process, so that `kmain` ends here.
  unfoldable pub preempt : Registers → System D → Option (System D)
  preempt frame s = elim (schedule frame s.scheduler) [
    | none ↦ none
    | some (resumed, scheduler) ↦ some (record s {
      scheduler = scheduler;
      machine = record s.machine { clock = count_tick s.machine.clock };
    })
  ]

  -- The second process and the last messages.
  unfoldable pub fork_shell : (eflags : ℕ) → Entries → Fresh → System D → Option (System D)
  fork_shell eflags e shell_pages s =
      elim (kfork e.eshell 0 eflags shell_pages.process shell_pages.entry s.scheduler) [
        | none ↦ none
        | some (shell_pid, scheduler2) ↦ some (
            say (forked s.serial.padding scheduler2.active_procs shell_pid) (
              say (test_numbers s.serial.padding) (
                display 40 15 (codes "Booting into emergency shell!") (
                  display 40 14 (codes "Error: Cannot find lOSt.rc on any mounted filesystem")
                    (record s { scheduler = scheduler2 })))))
      ]

  -- The two processes, the shell behind the idle process if no interrupt comes in between.
  unfoldable pub start_processes :
      (eflags : ℕ) (preempted : Option Registers)
      → Entries
      → (idle_pages shell_pages : Fresh) → System D
      → Option (System D)
  start_processes eflags preempted e idle_pages shell_pages s =
      elim (kfork e.idle 0 eflags idle_pages.process idle_pages.entry s.scheduler) [
        | none ↦ none
        | some (idle_pid, scheduler1) ↦ elim preempted [
          | none ↦ fork_shell eflags e shell_pages (record s { scheduler = scheduler1 })
          | some frame ↦ preempt frame (record s { scheduler = scheduler1 })
        ]
      ]

  module _ (register_drive : AtaDrive32 → Memory × Storage → Memory × Storage) where
    -- `ata_identify_all`, whose result `kmain` does not look at.
    unfoldable pub identify_drives : (fuel : ℕ) → Hardware D → Raw → System D → Option (System D)
    identify_drives fuel h raw s =
        elim (ata_identify_all h.inb h.inw h.outb h.elapsed register_drive fuel raw.master raw.slave
          (s.scheduler.memory, s.storage) s.machine) [
            | none ↦ none
            | some (result, ((memory, storage), machine)) ↦ some (record s {
              scheduler = record s.scheduler { memory = memory };
              storage = storage;
              machine = machine;
            })
          ]

    -- What follows the drives.
    unfoldable pub finish : (size : ℕ) → Hardware D → Entries → Raw → System D → Option (System D)
    finish size h e raw s = elim (check_size size s) [
      | none ↦ none
      | some s1 ↦ elim (start_scheduler s1) [
        | none ↦ none
        | some s2 ↦ start_processes h.eflags h.preempted e raw.idle raw.shell (warn s2)
      ]
    ]

    -- `kmain`, for a kernel of `size` bytes.
    unfoldable pub kmain :
        (fuel size : ℕ) → Hardware D → Entries → Raw → System D → Option (System D)
    kmain fuel size h e raw s = elim (start_memory h.mmap h.mmap_count h.com_ports h.echo s) [
      | none ↦ none
      | some s1 ↦ elim (start_interrupts h.respond e s1) [
        | none ↦ none
        | some s2 ↦ elim (identify_drives fuel h raw (call_cpuid h.cpuid s2)) [
          | none ↦ none
          | some s3 ↦ finish size h e raw s3
        ]
      ]
    ]
