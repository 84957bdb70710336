-- ===== src/Floppy/Tests.antt =====
-- Places at concrete sectors, a channel, and a controller that is always ready.
use l_ost.Common.{
  ℕ, ◌+◌, ◌-◌, ◌*◌, ◌/◌, ◌%◌, ◌≤◌, ◌<◌, ◌≡◌, refl, true, false, none, some, List, [], ◌∷◌, ◌++◌,
  arith, ltb, ◌==◌, if◌then◌else◌,
}
use l_ost.Memory.{
  Memory, withheld_entry, available_entry, page_size, block_entry, kmalloc, allocate, find_pages,
  stops_at, check_free, check_free_from, mark_from,
}
use l_ost.Floppy.{lba_to_chs}
use l_ost.Floppy.Dma.{init_floppy_dma}
use l_ost.Floppy.Bounds.{Channel, transfer_place, programmed, init_floppy_dma-inside}
use l_ost.Floppy.Driver.{Fdc}
use l_ost.Floppy.Commands.{command_seq, select_drive, send_bytes, floppy_read}
use l_ost.Floppy.Reading.{Ready, floppy_read-command}

last_sector : lba_to_chs 2879 ≡ (79, (1, 18))
unfolding lba_to_chs
last_sector = refl

abbrev available : Memory
available = record {
  max_address = 0x10a000;
  total_usable = 0;
  page_table_size = 266;
  page_table = λ k. if ltb k 257 then withheld_entry else available_entry;
}

abbrev reset_channel : Channel
reset_channel = record { high_next = true; address = 7; count = 8; page = 9 }

dma_pages : (init_floppy_dma available).0 ≡ 0x101000
unfolding init_floppy_dma kmalloc allocate find_pages stops_at check_free check_free_from mark_from
dma_pages = refl

init_floppy_dma-inside_example :
    let (ptr, (taken, writes)) = init_floppy_dma available in
    let c' = programmed writes reset_channel in
    (c'.page * 65536 + c'.address ≡ ptr)
    × (c'.count + 1 ≡ 18 * 512)
    × (ptr % 65536 + 18 * 512 ≤ 65536
        → (i : ℕ) → i < c'.count + 1
        → (j : ℕ) × (j < 4)
          × (taken.page_table (transfer_place c' i / page_size) ≡ block_entry 4 6 0 j))
    × (65536 < ptr % 65536 + 18 * 512 → transfer_place c' (65536 - ptr % 65536) < ptr)
init_floppy_dma-inside_example =
    init_floppy_dma-inside available reset_channel (omega arith) (λ e. omega (arith, e, dma_pages))
      (omega (arith, dma_pages))

-- A controller of version 0x90 that is ready at each reading, and keeps what its data register gets.
abbrev inb : ℕ → List ℕ → ℕ × List ℕ
inb port d = (if port == 0x3f5 then 0x90 else 0x80, d)

abbrev outb : ℕ → ℕ → List ℕ → List ℕ
outb port value d = if port == 0x3f5 then d ++ value ∷ [] else d

keeps-Ready : Ready inb outb (λ d. d)
keeps-Ready = record {
  always = λ d. refl;
  reading = λ port d. refl;
  data_write = λ value d. refl;
  other_write = λ port value d other. ground (arith, other);
}

abbrev controller : Fdc (List ℕ)
controller = record {
  device = [];
  clock = record { ticks = 0; seconds = 0; secs_start = 0; ticks_start = 0 };
  irq_hit = false;
  locked_cal = true;
  dma_data_ptr = 0x101000;
  memory = available;
  interrupts = record {
    idt_entries = λ i. record {
      offset_low = 0;
      segment_selector = 0;
      reserved = 0;
      flags = record { gate_type = 0; zero_bit = 0; dpl = 0; present = 0 };
      offset_high = 0;
    };
    irq_handlers = λ i. 0;
    master_pic_mask = 0;
    slave_pic_mask = 0;
    kernel_mode = true;
    sent = [];
  };
  serial = record {
    com_base = λ i. 0;
    com_desc = λ i. record {
      listeners = λ j. 0;
      listener_data_buffer = λ j k. 0;
      listner_data_index = λ j. 0;
      listner_keys = λ j. 0;
      is_virtual = false;
    };
    padding = 0;
    auto_send_return = true;
    sent = [];
  };
}

floppy_read-command_example :
    (cyl : ℕ) × (head : ℕ) × (sector : ℕ) × (s1 : Fdc (List ℕ)) × (s2 : Fdc (List ℕ)) × ((cyl * 2
            + head)
          * 18
        + sector
      ≡ 100 + 1)
    × (cyl < 80)
    × (head < 2)
    × (1 ≤ sector)
    × (sector ≤ 18)
    × (select_drive (λ f a. 0) inb outb (λ d. d) (λ d. false) (λ d. 0) 9 1 controller ≡ some s1)
    × (send_bytes (λ f a. 0) inb outb (λ d. d) (λ d. false) (λ d. 0) 9 (command_seq 100 1) s1
        ≡ some (true, s2))
    × (s2.device
        ≡ 0xc6 ∷ (head * 4 + 1) ∷ cyl ∷ (head * 4 + 1) ∷ sector ∷ 2 ∷ 18 ∷ 0x1b ∷ 0xff ∷ [])
    × (floppy_read (λ f a. 0) inb outb (λ d. d) (λ d. false) (λ d. 0) 9 100 1 controller ≡ none)
floppy_read-command_example =
    floppy_read-command (λ f a. 0) inb outb (λ d. d) (λ d. false) (λ d. 0) (λ d. d) keeps-Ready 8
      100 1 controller (omega arith) (omega arith) (λ d. refl)
