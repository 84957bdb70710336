-- ===== src/Interrupts/Handlers.antt =====
-- Which handlers and masks the start of the interrupts in kernel/cpu/idt.c leaves.
use l_ost.Common.{
  ℕ, zero, suc, ◌+◌, ◌*◌, ◌≡◌, ◌≢◌, refl, ap, ◌∙◌, inl, inr, false, [], ◌∷◌, ◌++◌, arith, ◌==◌,
  if◌then◌else◌, Bool-cases,
}
use l_ost.Interrupts.{
  GateFlags, Interrupts, isr_flags, idt_set, set_gates, init_idt, irq_remap, int_install_handler,
  irq_install_handler,
}

idt_set-handlers :
    (num address : ℕ) (flags : GateFlags) (s : Interrupts)
    → (idt_set num address flags s).irq_handlers ≡ s.irq_handlers
unfolding idt_set
idt_set-handlers num address flags s = refl

set_gates-handlers :
    (n i base first step : ℕ) (flags : GateFlags) (s : Interrupts)
    → (set_gates i n base first step flags s).irq_handlers ≡ s.irq_handlers
unfolding set_gates
set_gates-handlers zero i base first step flags s = refl
set_gates-handlers (suc n) i base first step flags s =
    set_gates-handlers n (i + 1) base first step flags
      (idt_set (i + base) (first + i * step) flags s)
    ∙ idt_set-handlers (i + base) (first + i * step) flags s

-- A handler goes to a free number.
pub irq_install_handler-free :
    (handler n : ℕ) (s : Interrupts)
    → s.irq_handlers (n + 0x20) ≡ 0
    → (irq_install_handler handler n s).1
      ≡ record s { irq_handlers = λ i. if i == n + 0x20 then handler else s.irq_handlers i }
unfolding irq_install_handler int_install_handler
irq_install_handler-free handler n s free = rw (irq_install_handler, int_install_handler, free) refl

int_install_handler-others :
    (handler n j : ℕ) (s : Interrupts)
    → j ≢ n
    → (int_install_handler handler n s).1.irq_handlers j ≡ s.irq_handlers j
unfolding int_install_handler
int_install_handler-others handler n j s ne = elim (Bool-cases (s.irq_handlers n == 0)) [
  | inl free ↦
      let apart : (j == n) ≡ false = ground (arith, ne) in
      rw (int_install_handler, free, apart) refl
  | inr taken ↦ rw (int_install_handler, taken) refl
]

int_install_handler-mask :
    (handler n : ℕ) (s : Interrupts)
    → (int_install_handler handler n s).1.master_pic_mask ≡ s.master_pic_mask
unfolding int_install_handler
int_install_handler-mask handler n s = elim (Bool-cases (s.irq_handlers n == 0)) [
  | inl free ↦ rw (int_install_handler, free) refl
  | inr taken ↦ rw (int_install_handler, taken) refl
]

-- `init_idt` masks every line, and leaves every handler but that of the system calls.
pub init_idt-handlers :
    (isr0 isr_step irq0 irq_step softint : ℕ) (s : Interrupts)
    → ((init_idt isr0 isr_step irq0 irq_step softint s).master_pic_mask ≡ 0xff)
      × ((j : ℕ)
          → j ≢ 0x80
          → (init_idt isr0 isr_step irq0 irq_step softint s).irq_handlers j ≡ s.irq_handlers j)
unfolding init_idt irq_remap idt_set
init_idt-handlers isr0 isr_step irq0 irq_step softint s =
    let s1 = set_gates 0 32 0 isr0 isr_step isr_flags s in
    let s2 =
      idt_set 0x80 softint isr_flags (irq_remap (set_gates 0 16 32 irq0 irq_step isr_flags s1)) in
    let s3 : Interrupts = record s2 {
      sent = s2.sent ++ (0x21, 0xff) ∷ (0xa1, 0xff) ∷ [];
      slave_pic_mask = 0xff;
      master_pic_mask = 0xff;
    } in
    (
      int_install_handler-mask softint 0x80 s3,
      λ j ne.
          int_install_handler-others softint 0x80 j s3 ne
          ∙ ap (λ f. f j)
              (set_gates-handlers 16 0 32 irq0 irq_step isr_flags s1
                ∙ set_gates-handlers 32 0 0 isr0 isr_step isr_flags s),
    )
