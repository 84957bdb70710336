-- ===== src/Interrupts/Tests.antt =====
-- The interrupt table at concrete entry points, and the theorems at them.
use l_ost.Common.{
  ℕ, ◌%◌, ◌++◌, ◌≡◌, refl, true, List, [], arith, ◌==◌, if◌then◌else◌, ◌<◌, ◌≤◌, some, none, false,
  get_elem?,
}
use l_ost.Serial.{Serial}
use l_ost.Screen.{Screen, set_color}
use l_ost.Scheduler.{Registers}
use l_ost.Interrupts.PanicTexts.{exceptions, opcodes}
use l_ost.Interrupts.Panic.{panic_text, listened, fhandler, fhandler-reached}
use l_ost.Serial.Wire.{wire, Real}
use l_ost.Screen.Cursor.{OnScreen}
use l_ost.Interrupts.{Gate, Interrupts, int_install_handler, irq_install_handler}

abbrev unset : Gate
unset = record {
  offset_low = 0;
  segment_selector = 0;
  reserved = 0;
  flags = record { gate_type = 0; zero_bit = 0; dpl = 0; present = 0 };
  offset_high = 0;
}

abbrev cold : Interrupts
cold = record {
  idt_entries = λ i. unset;
  irq_handlers = λ i. if i == 0x21 then 0x9000 else 0;
  master_pic_mask = 0;
  slave_pic_mask = 0;
  kernel_mode = true;
  sent = [];
}

timer_is_installed : (irq_install_handler 0x8000 0 cold).0 ≡ 0
unfolding irq_install_handler int_install_handler
timer_is_installed = refl

-- A general protection fault, number 13.
abbrev faulting : Registers
faulting = record {
  gs = 0x10;
  fs = 0x10;
  es = 0x10;
  ds = 0x10;
  edi = 0;
  esi = 0;
  ebp = 0x105000;
  esp = 0x104f00;
  ebx = 0;
  edx = 0;
  ecx = 0;
  eax = 0;
  int_no = 13;
  err_code = 0;
  eip = 0x20000;
  cs = 8;
  eflags = 0x202;
  useresp = 0x10;
  ss = 0x10;
}

abbrev port : Serial
port = record {
  com_base = λ i. 0x3f8;
  com_desc = λ i. record {
    listeners = λ j. 0;
    listener_data_buffer = λ j k. 0;
    listner_data_index = λ j. 0;
    listner_keys = λ j. 0;
    is_virtual = false;
  };
  padding = 1;
  auto_send_return = true;
  sent = [];
}

abbrev blank_screen : Screen
blank_screen = record {
  cells = λ i. 0;
  base_color = 7;
  x = 0;
  y = 0;
  minx = 0;
  miny = 0;
  lock_last_line = false;
}

port-Real : Real 0x3f8 true port
port-Real = record { base = refl; real = refl; returns = refl }

fhandler-reached_example :
    (13 < 32
      → (serial' : Serial) × (screen' : Screen) × (exception : List ℕ) × (name : List ℕ) × (fhandler
            (λ f a. 0)
            0xc0de
            0xf4
            60
            faulting
            (cold, (port, blank_screen))
          ≡ some (record cold { kernel_mode = true }, (serial', screen')))
        × (get_elem? exceptions 13 ≡ some exception)
        × (get_elem? opcodes (0xf4 % 256) ≡ some name)
        × (serial'.sent ≡ port.sent ++ wire true 0x3f8 (panic_text 0xf4 60 exception name faulting))
        × (listened 0xc0de port ≡ 0 → screen' ≡ set_color 0x1f blank_screen)
        × (OnScreen blank_screen → OnScreen screen'))
    × (32 ≤ 13 → fhandler (λ f a. 0) 0xc0de 0xf4 60 faulting (cold, (port, blank_screen)) ≡ none)
fhandler-reached_example =
    fhandler-reached (λ f a. 0) 0xc0de 0xf4 60 0x3f8 true faulting cold port blank_screen
      (omega arith) port-Real
