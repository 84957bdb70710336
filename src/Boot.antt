-- ===== src/Boot.antt =====
-- The start of the kernel: `kmain` of kernel/main.c and `call_cpuid` of kernel/cpu/cpu.c, on the states
-- of the parts that they start. What `kprintf` sends for a text is that text, as the module
-- Serial.Printf shows, so that a message is a text here. `none` is a start that stops or does not come
-- back.
pub mod Main
pub mod Ready
pub mod Started
pub mod Steps
mod Tests
use l_ost.Common.{
  codes, ℕ, zero, suc, ◌+◌, ◌-◌, ◌*◌, ◌/◌, ◌%◌, ◌^◌, ◌≤◌, ◌<◌, ◌≡◌, ◌≢◌, refl, sym, ap, ◌∙◌, ◌↔◌,
  ◌⊎◌, inl, inr, Bool, true, false, ◌&&◌, ◌||◌, not, Option, none, some, List, [], ◌∷◌, ◌++◌, arith,
  ℕ_discrete, dec_lt, ltb, leb, ◌==◌, if◌then◌else◌, Bool-cases, Option-cases, length, u8, u16, u32,
  mask, bit_field, slt, promote,
}
use l_ost.Memory.{MmapEntry, Memory, init_memory}
use l_ost.Serial.{Serial, put_text, serial_init}
use l_ost.Serial.Printf.{Piece, output, literal, decimal}
use l_ost.Serial.Console.{numeral}
use l_ost.Screen.{Screen, set_color, disp_str, textmode_print_load}
use l_ost.Interrupts.{Interrupts, init_idt, irq_install_handler, pic_remask}
use l_ost.Keyboard.{Keyboard}
use l_ost.Keyboard.Controller.{Controller, init_8042}
use l_ost.Ata.{Machine}
use l_ost.Ata.Identify.{AtaDrive32, ata_identify_all}
use l_ost.Storage.{Storage, get_fs_count}
use l_ost.Scheduler.{Process, ProcEntry, Scheduler, init_scheduler, kfork}

-- `cpuid_info`, with its three unions as words.
pub record CpuidInfo : Type 0 where
  pub vendor_string : ℕ → ℕ
  pub ebx1 : ℕ
  pub edx1 : ℕ
  pub ecx1 : ℕ

-- The registers that a call of `cpuid` leaves.
pub record CpuidRegisters : Type 0 where
  pub ebx : ℕ
  pub ecx : ℕ
  pub edx : ℕ

-- The states of the parts. The page allocator's is in that of the scheduler.
pub record System (D : Type 0) : Type 0 where
  pub scheduler : Scheduler
  pub serial : Serial
  pub screen : Screen
  pub interrupts : Interrupts
  pub keyboard : Keyboard
  pub controller : Controller
  pub machine : Machine D
  pub storage : Storage
  pub cpuid_info : CpuidInfo

-- The addresses of functions that the start hands on.
pub record Entries : Type 0 where
  pub isr0 : ℕ
  pub isr_step : ℕ
  pub irq0 : ℕ
  pub irq_step : ℕ
  pub softint : ℕ
  pub irq0_timer_handler : ℕ
  pub ps2_handler : ℕ
  pub idle : ℕ
  pub eshell : ℕ

-- What the pages of a new process and of its entry hold.
pub record Fresh : Type 0 where
  pub process : Process
  pub entry : ProcEntry

-- The four bytes of a word, the lowest first.
abbrev pub word_bytes : ℕ → List ℕ
word_bytes w = w % 2 ^ 8 ∷ w / 2 ^ 8 % 2 ^ 8 ∷ w / 2 ^ 16 % 2 ^ 8 ∷ w / 2 ^ 24 % 2 ^ 8 ∷ []

-- The characters in front of the first null byte.
unfoldable pub up_to_null : List ℕ → List ℕ
up_to_null [] = []
up_to_null (c ∷ cs) = let rest = up_to_null cs in if c == 0 then [] else c ∷ rest

-- `vendor_string` as a text: a byte of zero stands behind it.
unfoldable pub vendor : CpuidInfo → List ℕ
vendor c = up_to_null (
    word_bytes (c.vendor_string 0)
    ++ (word_bytes (c.vendor_string 1) ++ word_bytes (c.vendor_string 2)))

unfoldable pub read_cpuid : (cpuid : ℕ → CpuidRegisters) → CpuidInfo → CpuidInfo
read_cpuid cpuid c = record c {
  vendor_string = λ i.
      if i == 0
      then (cpuid 0).ebx
      else if i == 1
      then (cpuid 0).edx
      else if i == 2
      then (cpuid 0).ecx
      else c.vendor_string i;
  ebx1 = (cpuid 1).ebx;
  edx1 = (cpuid 1).edx;
  ecx1 = (cpuid 1).ecx;
}

-- `MAX_KERNEL_SIZE`.
abbrev pub max_kernel_size : ℕ
max_kernel_size = 0x400 * 512

-- `master_pic_mask.data` with a bit of this weight set to 0.
abbrev pub unmask : (weight : ℕ) → Interrupts → Interrupts
unmask weight s = record s {
  master_pic_mask =
      if s.master_pic_mask / weight % 2 == 1 then s.master_pic_mask - weight else s.master_pic_mask;
}
