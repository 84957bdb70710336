-- ===== src/Floppy/Driver.antt =====
-- The floppy driver: kernel/drivers/floppy.c. The ports are arguments, as in the module Ata: `inb` and
-- `outb` on a state `D` of the hardware and `elapsed`, the timer interrupts during an access; `turn`
-- is one turn of a loop that does nothing. `fires` says whether during the last access or turn the
-- controller's interrupt came in, `floppy_irq_handler` stood at 0x26, and the interrupted code went on
-- afterwards. The source does not make sure of that: the handler is declared void, and `_irq_handler`
-- takes what it leaves in the register of the result as the frame to go on with. So where `fires` is
-- true the model supposes that this was the interrupted frame, and an interrupt that is lost or
-- does not come back is not modelled. `none` is a wait that has not ended within its fuel.
use l_ost.Common.{
  ℕ, zero, suc, ◌+◌, ◌-◌, ◌/◌, ◌%◌, Bool, true, false, ◌||◌, Option, none, some, List, ◌==◌,
  if◌then◌else◌, u8,
}
use l_ost.Memory.{Memory}
use l_ost.Serial.{Serial, put_text}
use l_ost.Interrupts.{Interrupts}
use l_ost.Timer.{Clock}
use l_ost.Timer.Waits.{after}

-- The variables of the driver, and the parts that it works on.
pub record Fdc (D : Type 0) : Type 0 where
  pub device : D
  pub clock : Clock
  pub irq_hit : Bool
  pub locked_cal : Bool
  pub dma_data_ptr : ℕ
  pub memory : Memory
  pub interrupts : Interrupts
  pub serial : Serial

-- The registers.
abbrev pub digital_output : ℕ
digital_output = 0x3f2

abbrev pub msr : ℕ
msr = 0x3f4

abbrev pub data_fifo : ℕ
data_fifo = 0x3f5

abbrev pub config_control : ℕ
config_control = 0x3f7

-- `(v & 0xc0) == 0x80`, `v & 0x80` and `v & 0x90`.
abbrev pub is_ready : ℕ → Bool
is_ready v = v / 64 % 4 == 2

abbrev pub is_request : ℕ → Bool
is_request v = v / 128 % 2 == 1

abbrev pub is_going : ℕ → Bool
is_going v = v / 128 % 2 == 1 || v / 16 % 2 == 1

-- The calls that wait for the controller, which call each other.
pub data Call : Type 0 where
  reset_controller : Call
  ready_loop : Call
  recal_drive : (i : ℕ) → Call
  recal_fdc : Call

module _ (call : ℕ → ℕ → ℕ) {D : Type 0} (inb : (port : ℕ) → D → ℕ × D)
    (outb : (port value : ℕ) → D → D) (turn : D → D) (fires : D → Bool) (elapsed : D → ℕ) where
  -- What an access or a turn leaves: the handler has set `irq_hit` where the interrupt came in and the
  -- interrupted code went on.
  unfoldable pub arrive : D → Fdc D → Fdc D
  arrive d s = record s {
    device = d;
    clock = after (elapsed s.device) s.clock;
    irq_hit = s.irq_hit || fires d;
  }

  unfoldable pub port_read : (port : ℕ) → Fdc D → ℕ × Fdc D
  port_read port s = ((inb port s.device).0, arrive (inb port s.device).1 s)

  unfoldable pub port_write : (port value : ℕ) → Fdc D → Fdc D
  port_write port value s = arrive (outb port (u8 value) s.device) s

  -- `kprintf` of a text.
  abbrev pub say : List ℕ → Fdc D → Fdc D
  say text s = record s { serial = put_text call text s.serial }

  -- `while(!irq_hit);`.
  unfoldable pub wait_irq : (fuel : ℕ) → Fdc D → Option (Fdc D)
  wait_irq zero s = none
  wait_irq (suc fuel) s =
      let rest = wait_irq fuel (arrive (turn s.device) s) in if s.irq_hit then some s else rest

  unfoldable pub sense_interupt : Fdc D → Fdc D
  sense_interupt s = (port_read data_fifo (port_read data_fifo (port_write data_fifo 8 s)).1).1

  -- `outb(DATA_FIFO, value)` behind a call.
  unfoldable pub then_write : (port value : ℕ) → Option (Fdc D) → Option (Fdc D)
  then_write port value none = none
  then_write port value (some s) = some (port_write port value s)

  -- The state of `reset_controller` in front of its wait.
  unfoldable pub pulse : Fdc D → Fdc D
  pulse s =
      port_write digital_output 0x0c
        (port_write digital_output 0 (port_read digital_output (record s { irq_hit = false })).1)

  -- `reset_controller`, `while((inb(MSR) & 0xc0) != 0x80) reset_controller();`, a round of the loop of
  -- `recal_fdc`, and `recal_fdc`.
  unfoldable pub control : (fuel : ℕ) → Call → Fdc D → Option (Fdc D)
  control zero c s = none
  control (suc fuel) reset_controller s = elim (wait_irq fuel (pulse s)) [
    | none ↦ none
    | some s1 ↦ elim s1.locked_cal [ true ↦ some s1 | false ↦ control fuel recal_fdc s1 ]
  ]
  control (suc fuel) ready_loop s = elim (is_ready (port_read msr s).0) [
    | true ↦ some (port_read msr s).1
    | false ↦ elim (control fuel reset_controller (port_read msr s).1) [
      | none ↦ none
      | some s1 ↦ control fuel ready_loop s1
    ]
  ]
  control (suc fuel) (recal_drive i) s =
      let dor = port_read digital_output s in
      elim (then_write data_fifo 7
        (control fuel ready_loop (port_write digital_output (dor.0 - dor.0 % 4 + i) dor.1))) [
          | none ↦ none
          | some s1 ↦ then_write data_fifo 7 (control fuel ready_loop s1)
        ]
  control (suc fuel) recal_fdc s = elim (control fuel (recal_drive 0) s) [
    | none ↦ none
    | some s1 ↦ control fuel (recal_drive 1) s1
  ]

  -- `while(!(inb(MSR) & 0x80));`.
  unfoldable pub wait_request : (fuel : ℕ) → Fdc D → Option (Fdc D)
  wait_request zero s = none
  wait_request (suc fuel) s =
      let rest = wait_request fuel (port_read msr s).1 in
      if is_request (port_read msr s).0 then some (port_read msr s).1 else rest
