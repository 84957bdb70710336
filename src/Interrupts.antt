-- ===== src/Interrupts.antt =====
-- The interrupt table, the handlers and the dispatch of kernel/cpu/idt.c. Handlers are numbered by
-- their addresses; what one does is an argument, on a state `S` of the rest of the kernel.
pub mod Gates
pub mod Dispatch
pub mod Handlers
pub mod PanicTexts
pub mod Panic
mod Tests
use l_ost.Common.{
  ℕ, zero, suc, ◌+◌, ◌-◌, ◌*◌, ◌/◌, ◌%◌, ◌^◌, ◌≤◌, ◌<◌, ◌≡◌, ◌≢◌, refl, sym, ap, ◌∙◌, ◌↔◌, ◌⊎◌, inl,
  inr, Bool, true, false, ◌&&◌, ◌||◌, not, Option, none, some, List, [], ◌∷◌, ◌++◌, arith,
  ℕ_discrete, dec_lt, ltb, leb, ◌==◌, if◌then◌else◌, Bool-cases, Option-cases, length, u8, u16, u32,
  mask, bit_field, slt, promote,
}

-- `struct idt_flags_s`.
pub record GateFlags : Type 0 where
  pub gate_type : ℕ
  pub zero_bit : ℕ
  pub dpl : ℕ
  pub present : ℕ

-- An element of `idt_entries`.
pub record Gate : Type 0 where
  pub offset_low : ℕ
  pub segment_selector : ℕ
  pub reserved : ℕ
  pub flags : GateFlags
  pub offset_high : ℕ

-- `idt_entries`, `_irq_handlers`, the two masks, and the bytes sent by `outb`.
pub record Interrupts : Type 0 where
  pub idt_entries : ℕ → Gate
  pub irq_handlers : ℕ → ℕ
  pub master_pic_mask : ℕ
  pub slave_pic_mask : ℕ
  pub kernel_mode : Bool
  pub sent : List (ℕ × ℕ)

abbrev pub gate_at : (address : ℕ) → GateFlags → Gate
gate_at address flags = record {
  offset_low = address % 2 ^ 16;
  segment_selector = 0x8;
  reserved = 0;
  flags = flags;
  offset_high = address / 2 ^ 16 % 2 ^ 16;
}

pub idt_set : (num address : ℕ) → GateFlags → Interrupts → Interrupts
idt_set num address flags s = record s {
  idt_entries = λ i. if i == u8 num then gate_at address flags else s.idt_entries i;
}

unfoldable pub int_install_handler : (handler int_num : ℕ) → Interrupts → ℕ × Interrupts
int_install_handler handler int_num s =
    if s.irq_handlers int_num == 0
    then (0, record s { irq_handlers = λ i. if i == int_num then handler else s.irq_handlers i })
    else (2 ^ 32 - 1, s)

unfoldable pub irq_install_handler : (handler irq_number : ℕ) → Interrupts → ℕ × Interrupts
irq_install_handler handler irq_number s = int_install_handler handler (irq_number + 0x20) s

pub irq_remap : Interrupts → Interrupts
irq_remap s = record s {
  sent =
      s.sent
      ++ (0x20, 0x11)
        ∷ (0xa0, 0x11)
        ∷ (0x21, 0x20)
        ∷ (0xa1, 0x28)
        ∷ (0x21, 4)
        ∷ (0xa1, 2)
        ∷ (0x21, 1)
        ∷ (0xa1, 1)
        ∷ (0x21, 0)
        ∷ (0xa1, 0)
        ∷ [];
}

-- `for(int i = 0; i < n; i++) idt_set(i + base, first + i * step, isr_flags);`.
pub set_gates : (i n : ℕ) → (base first step : ℕ) → GateFlags → Interrupts → Interrupts
set_gates i zero base first step flags s = s
set_gates i (suc n) base first step flags s =
    set_gates (i + 1) n base first step flags (idt_set (i + base) (first + i * step) flags s)

abbrev pub isr_flags : GateFlags
isr_flags = record { gate_type = 0xe; zero_bit = 0; dpl = 0; present = 1 }

-- `init_idt`, with the addresses of the entry points of idt.s: those of the exceptions and of the
-- interrupts stand at equal distances.
pub init_idt : (isr0 isr_step irq0 irq_step softint : ℕ) → Interrupts → Interrupts
init_idt isr0 isr_step irq0 irq_step softint s =
    let s1 =
      set_gates 0 16 32 irq0 irq_step isr_flags (set_gates 0 32 0 isr0 isr_step isr_flags s) in
    let s2 = idt_set 0x80 softint isr_flags (irq_remap s1) in
    let s3 : Interrupts = record s2 {
      sent = s2.sent ++ (0x21, 0xff) ∷ (0xa1, 0xff) ∷ [];
      slave_pic_mask = 0xff;
      master_pic_mask = 0xff;
    } in
    (int_install_handler softint 0x80 s3).1

unfoldable pub pic_remask : Interrupts → Interrupts
pic_remask s = record s {
  sent = s.sent ++ (0x21, s.master_pic_mask) ∷ (0xa1, s.slave_pic_mask) ∷ [];
}

-- The acknowledgements behind a handler. `int_no` is that of the frame which the handler returned.
pub acknowledge : (int_no : ℕ) → List (ℕ × ℕ)
acknowledge int_no =
    (if leb 0x28 int_no && ltb int_no 0x30 then (0xa0, 0x20) ∷ [] else [])
    ++ (if ltb int_no 0x30 then (0x20, 0x20) ∷ [] else [])

module _ {S R : Type 0}
    -- the interrupt number of a frame
    (number : R → ℕ)
    -- a handler, by its address
    (call : ℕ → R → S → R × S)
    -- `software_int`, and `schedule` of scheduler.c
    (software_int : R → S → R × S) (schedule : R → S → R × S)
    -- the message on an interrupt without a handler
    (complain : ℕ → S → S) where
  -- A call of the running process: it comes back before the acknowledgements.
  pub system_call : R → S → Interrupts → R × (S × Interrupts)
  system_call regs w s =
      let called = software_int regs w in
      let switched = schedule called.0 called.1 in
      (switched.0, (switched.1, record s { kernel_mode = false }))

  -- Any other interrupt: what its handler returns and leaves is the rest's `regs` and state.
  pub dispatch : R → S → Interrupts → R × (S × Interrupts)
  dispatch regs w s =
      let handler = s.irq_handlers (u8 (number regs)) in
      let ran : R × S =
        if handler == 0 then (regs, complain (number regs) w) else call handler regs w in
      (
        ran.0,
        (ran.1, record s { sent = s.sent ++ acknowledge (number ran.0); kernel_mode = false }),
      )

  -- `_irq_handler`, with the flag `ring0` of the running process. No handler changes the table.
  unfoldable pub irq_handler : (ring0 : Bool) → R → S → Interrupts → R × (S × Interrupts)
  irq_handler ring0 regs w s =
      if ring0 && number regs % 256 == 0x80 then system_call regs w s else dispatch regs w s
