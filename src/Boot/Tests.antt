-- ===== src/Boot/Tests.antt =====
-- A machine with 2 MiB of memory and no drive, and its start.
use l_ost.Common.{
  ℕ, ◌≤◌, ◌≡◌, refl, true, false, ◌||◌, none, some, List, [], ◌∷◌, arith, ◌==◌, if◌then◌else◌,
}
use l_ost.Memory.{MmapEntry, Memory, empty_entry, init_memory, kmalloc}
use l_ost.Memory.Filling.{Filled, OneRegion, init_memory-Filled, allocate-Filled}
use l_ost.Keyboard.{request_register_driver}
use l_ost.Keyboard.Controller.{Documented, configured}
use l_ost.Ata.{read_byte, write_byte}
use l_ost.Ata.Identify.{AtaDrive32, ata_identify, ata_identify_all, identify_command}
use l_ost.Storage.{Storage, de_invalid_drive}
use l_ost.Timer.Waits.{after}
use l_ost.Scheduler.{Registers, Process, ProcEntry, Scheduler, empty, proc}
use l_ost.Scheduler.Rounds.{interrupts}
use l_ost.Boot.{System, Entries, Fresh}
use l_ost.Boot.Main.{Hardware, Raw, kmain}
use l_ost.Boot.Started.{TwoProcesses, Room, Filled-Room}
use l_ost.Boot.Steps.{Listening}
use l_ost.Boot.Ready.{Blank, kmain-Started, kmain-shell}

-- Usable memory up to 2 MiB.
abbrev two_mib : ℕ → MmapEntry
two_mib i = record {
  base_high = 0;
  base_low = 0;
  length_high = 0;
  length_low = 0x200000;
  attributes = 0;
  region_type = 1;
}

two_mib-OneRegion : OneRegion two_mib 0x200000
two_mib-OneRegion = record { base = refl; usable = refl; end = refl; signed = omega arith }

abbrev cold_memory : Memory
cold_memory = record {
  max_address = 0;
  total_usable = 0;
  page_table_size = 0;
  page_table = λ k. empty_entry;
}

booted :
    (m : Memory) × (init_memory two_mib 1 cold_memory ≡ some m)
    × (m.page_table_size ≡ 512)
    × Filled m 257
booted =
    init_memory-Filled two_mib 0x200000 cold_memory two_mib-OneRegion (omega arith) (omega arith)
      (omega arith)

-- The memory behind the identification of a drive that is not there.
abbrev identified_memory : Memory
identified_memory = (kmalloc 1 7 booted.0).1

identified_memory-Room : Room identified_memory
unfolding kmalloc
identified_memory-Room =
    let (m, run, size, filled) = booted in
    let (_, size', filled') =
      allocate-Filled 1 7 0 m 257 filled (omega arith) (omega (arith, size)) in
    Filled-Room _ 258 filled' (omega (arith, size', size))

-- A port that nothing answers.
abbrev inb : ℕ → ℕ → ℕ × ℕ
inb port d = (0, d)

abbrev outb : ℕ → ℕ → ℕ → ℕ
outb port value d = d

abbrev zero_words : Registers
zero_words = record {
  gs = 0;
  fs = 0;
  es = 0;
  ds = 0;
  edi = 0;
  esi = 0;
  ebp = 0;
  esp = 0;
  ebx = 0;
  edx = 0;
  ecx = 0;
  eax = 0;
  int_no = 0;
  err_code = 0;
  eip = 0;
  cs = 0;
  eflags = 0;
  useresp = 0;
  ss = 0;
}

abbrev zero_process : Process
zero_process = record {
  address = 0;
  memory_base = 0;
  memory_limit = 0;
  stack_base = 0;
  stack_limit = 0;
  regs = zero_words;
  allocated_pages = 0;
  lock = 0;
  priority = 0;
  abi = 0;
  stdin = 0;
  stdout = 0;
}

abbrev zero_page : Fresh
zero_page = record {
  process = zero_process;
  entry = record {
    address = 0;
    process = zero_process;
    pid = 0;
    ppid = 0;
    uid = 0;
    ring0 = false;
    path_to_exec = 0;
  };
}

abbrev zero_drive : AtaDrive32
zero_drive = record {
  drive_s = record {
    number = 0;
    drive_type = 0;
    read_only = false;
    removable = false;
    hidden = false;
    contains_pt = false;
    size_low = 0;
    size_high = 0;
    bytes_per_sector = 0;
  };
  ata = record { base_port = 0; slave = false; lba48 = false };
  command_port = 0;
}

abbrev raw : Raw
raw = record { master = zero_drive; slave = zero_drive; idle = zero_page; shell = zero_page }

-- A controller with one port that passes its test.
abbrev respond : ℕ → List ℕ
respond byte =
    if byte == 0x20
    then 0x45 ∷ []
    else if byte == 0xaa
    then 0x55 ∷ []
    else if byte == 0xab || byte == 0xa9
    then 0 ∷ []
    else []

respond-Documented : Documented respond 0x45 0x55 0 0
respond-Documented = record {
  read_stat = refl;
  test_self = refl;
  test_keyboard = refl;
  test_second = refl;
  write_stat = refl;
  enable = refl;
  enable_second = refl;
  keyboard_code = omega arith;
  mouse_code = omega arith;
}

respond-silent : respond (configured 0x45) ≡ []
unfolding configured
respond-silent = refl

abbrev hardware : Hardware ℕ
hardware = record {
  mmap = two_mib;
  mmap_count = 1;
  com_ports = λ i. 0;
  echo = λ port. 0;
  respond = respond;
  cpuid = λ leaf. record { ebx = 0x756e6547; ecx = 0x6c65746e; edx = 0x49656e69 };
  inb = inb;
  inw = inb;
  outb = outb;
  elapsed = λ d. 0;
  eflags = 0x202;
  preempted = none;
}

abbrev entries : Entries
entries = record {
  isr0 = 0x8000;
  isr_step = 16;
  irq0 = 0x8400;
  irq_step = 16;
  softint = 0x8800;
  irq0_timer_handler = 0x9000;
  ps2_handler = 0x9100;
  idle = 0xa000;
  eshell = 0xa100;
}

abbrev no_storage : Storage
no_storage = record { filesystems = λ i. none; drives = λ i. none; ramdisk = 0 }

abbrev off : System ℕ
off = record {
  scheduler = record {
    memory = cold_memory;
    cpid = 0;
    lapid = 0;
    active_procs = 0;
    proc_list = λ i. empty;
    enable_scheduler = false;
  };
  serial = record {
    com_base = λ i. 0;
    com_desc = λ i. record {
      listeners = λ j. 0;
      listener_data_buffer = λ j k. 0;
      listner_data_index = λ j. 0;
      listner_keys = λ j. 0;
      is_virtual = false;
    };
    padding = 0;
    auto_send_return = true;
    sent = [];
  };
  screen = record {
    cells = λ i. 0;
    base_color = 0;
    x = 0;
    y = 0;
    minx = 0;
    miny = 0;
    lock_last_line = false;
  };
  interrupts = record {
    idt_entries = λ i. record {
      offset_low = 0;
      segment_selector = 0;
      reserved = 0;
      flags = record { gate_type = 0; zero_bit = 0; dpl = 0; present = 0 };
      offset_high = 0;
    };
    irq_handlers = λ i. 0;
    master_pic_mask = 0;
    slave_pic_mask = 0;
    kernel_mode = true;
    sent = [];
  };
  keyboard = record {
    g_listener = none;
    ps2_listener = false;
    last_char = 0;
    last_key = 0;
    interrupt_fired = false;
    shift_down = false;
    caps_lock = false;
  };
  controller = record { queue = []; commands = []; reported = [] };
  machine = record {
    device = 0;
    clock = record { ticks = 0; seconds = 0; secs_start = 0; ticks_start = 0 };
  };
  storage = no_storage;
  cpuid_info = record { vendor_string = λ i. 0; ebx1 = 0; edx1 = 0; ecx1 = 0 };
}

off-Blank : Blank off
off-Blank = record {
  lapid = refl;
  cpid = refl;
  active_procs = refl;
  pit = refl;
  ps2kb = refl;
  commands = refl;
  reported = refl;
}

abbrev no_registration : AtaDrive32 → Memory × Storage → Memory × Storage
no_registration unit w = w

no_drive :
    ata_identify_all inb inb outb
      (λ d. 0)
      no_registration
      9
      zero_drive
      zero_drive
      (booted.0, no_storage)
      off.machine
    ≡ some (de_invalid_drive, ((identified_memory, no_storage), off.machine))
unfolding ata_identify_all ata_identify identify_command read_byte write_byte after
no_drive = refl

kmain-Started_example :
    (s' : System ℕ) × (kmain (λ f a. 0) no_registration 9 0x10000 hardware entries raw off
      ≡ some s')
    × Listening s'.interrupts 0x9000 0x9100
    × (s'.keyboard ≡ request_register_driver true off.keyboard)
    × (s'.storage ≡ no_storage)
    × TwoProcesses s'.scheduler 0xa000 0xa100
kmain-Started_example =
    kmain-Started (λ f a. 0) no_registration 9 0x10000 hardware entries raw off booted.0
      identified_memory no_storage off.machine 0x45 0x55 0 0 de_invalid_drive off-Blank booted.1
      respond-Documented respond-silent no_drive identified_memory-Room (omega arith) refl

kmain-shell_example :
    (s' : System ℕ) × (n : ℕ) × (k : Scheduler) × (p : ProcEntry) × (kmain
        (λ f a. 0)
        no_registration
        9
        0x10000
        hardware
        entries
        raw
        off
      ≡ some s')
    × (1 ≤ n)
    × (n ≤ 65536)
    × (interrupts n (λ i. zero_words) s'.scheduler ≡ some k)
    × (k.cpid ≡ 2)
    × (s'.scheduler.proc_list k.cpid ≡ proc p)
    × (p.process.regs.eip ≡ 0xa100)
kmain-shell_example =
    kmain-shell (λ f a. 0) no_registration 9 0x10000 hardware entries raw off booted.0
      identified_memory no_storage off.machine 0x45 0x55 0 0 de_invalid_drive (λ i. zero_words)
      off-Blank booted.1 respond-Documented respond-silent no_drive identified_memory-Room
      (omega arith) refl

-- A timer interrupt with a frame of zeros, behind the first `kfork`.
abbrev interrupted : Hardware ℕ
interrupted = record hardware { preempted = some zero_words }
