-- ===== src/Interrupts/Gates.antt =====
-- Where the gates of the interrupt table lead after `init_idt` of kernel/cpu/idt.c.
use l_ost.Common.{
  ℕ, zero, suc, ◌+◌, ◌*◌, ◌^◌, ◌≤◌, ◌<◌, ◌≡◌, ◌≢◌, refl, ap, ◌∙◌, ◌⊎◌, inl, inr, true, false, arith,
  ℕ_discrete, ◌==◌, Bool-cases, u8,
}
use mathlib.Core.Path.{subst}
use l_ost.Interrupts.{
  GateFlags, Gate, Interrupts, gate_at, idt_set, int_install_handler, irq_remap, set_gates,
  isr_flags, init_idt,
}

-- The address that the processor reads from a gate.
pub target : Gate → ℕ
target g = g.offset_high * 2 ^ 16 + g.offset_low

-- A present interrupt gate of the kernel's code segment to an address.
pub record LeadsTo (s : Interrupts) (i address : ℕ) : Type 0 where
  pub offset : target (s.idt_entries i) ≡ address
  pub selector : (s.idt_entries i).segment_selector ≡ 0x8
  pub flags : (s.idt_entries i).flags ≡ isr_flags

gate_at-target :
    (address : ℕ) (flags : GateFlags) → address < 2 ^ 32 → target (gate_at address flags) ≡ address
unfolding target
gate_at-target address flags wide = omega arith

idt_set-here :
    (i address : ℕ) (s : Interrupts)
    → i < 256
    → (idt_set i address isr_flags s).idt_entries i ≡ gate_at address isr_flags
unfolding idt_set
idt_set-here i address s hi = let same : (i == u8 i) ≡ true = ground arith in rw same refl

idt_set-others :
    (i j address : ℕ) (s : Interrupts)
    → i < 256
    → j ≢ i
    → (idt_set i address isr_flags s).idt_entries j ≡ s.idt_entries j
unfolding idt_set
idt_set-others i j address s hi ne = let other : (j == u8 i) ≡ false = ground arith in rw other refl

set_gates-others :
    (i n base first step j : ℕ) (s : Interrupts)
    → i + n + base ≤ 256
    → (j < i + base) ⊎ (i + n + base ≤ j)
    → (set_gates i n base first step isr_flags s).idt_entries j ≡ s.idt_entries j
unfolding set_gates
set_gates-others i zero base first step j s hi apart = refl
set_gates-others i (suc n) base first step j s hi apart =
    let apart' : (j < i + 1 + base) ⊎ (i + 1 + n + base ≤ j) = elim apart [
      | inl lo ↦ inl (omega arith)
      | inr up ↦ inr (omega arith)
    ] in
    let ne : j ≢ i + base = elim apart [ inl lo ↦ λ e. omega arith | inr up ↦ λ e. omega arith ] in
    set_gates-others (i + 1) n base first step j (idt_set (i + base) (first + i * step) isr_flags s)
      (omega arith) apart'
    ∙ idt_set-others (i + base) j (first + i * step) s (omega arith) ne

set_gates-here :
    (i n base first step k : ℕ) (s : Interrupts)
    → i + n + base ≤ 256
    → i ≤ k
    → k < i + n
    → (set_gates i n base first step isr_flags s).idt_entries (k + base)
      ≡ gate_at (first + k * step) isr_flags
unfolding set_gates
set_gates-here i zero base first step k s hi lo up = absurd (omega arith)
set_gates-here i (suc n) base first step k s hi lo up = elim (ℕ_discrete i k) [
  | yes e ↦
      set_gates-others (i + 1) n base first step (k + base)
        (idt_set (i + base) (first + i * step) isr_flags s) (omega arith) (inl (omega arith))
      ∙ rw (e) (idt_set-here (k + base) (first + k * step) s (omega arith))
  | no ne ↦
      set_gates-here (i + 1) n base first step k (idt_set (i + base) (first + i * step) isr_flags s)
        (omega arith) (omega arith) (omega arith)
]

set_gates-start :
    (n first step k : ℕ) (s : Interrupts)
    → n ≤ 256
    → k < n
    → (set_gates 0 n 0 first step isr_flags s).idt_entries k ≡ gate_at (first + k * step) isr_flags
set_gates-start n first step k s hi up =
    let same : k + 0 ≡ k = omega arith in
    subst
      (λ j.
        (set_gates 0 n 0 first step isr_flags s).idt_entries j
        ≡ gate_at (first + k * step) isr_flags)
      same (set_gates-here 0 n 0 first step k s (omega arith) (omega arith) (omega arith))

int_install_handler-gates :
    (handler n : ℕ) (s : Interrupts)
    → (int_install_handler handler n s).1.idt_entries ≡ s.idt_entries
unfolding int_install_handler
int_install_handler-gates handler n s = elim (Bool-cases (s.irq_handlers n == 0)) [
  | inl e ↦ rw e refl
  | inr e ↦ rw e refl
]

init_idt-entry :
    (isr0 isr_step irq0 irq_step softint j : ℕ) (s : Interrupts)
    → (init_idt isr0 isr_step irq0 irq_step softint s).idt_entries j
      ≡ (idt_set 0x80 softint isr_flags (
            set_gates 0 16 32 irq0 irq_step isr_flags
              (set_gates 0 32 0 isr0 isr_step isr_flags s))).idt_entries
          j
unfolding init_idt irq_remap idt_set
init_idt-entry isr0 isr_step irq0 irq_step softint j s =
    ap (λ g. g j) (int_install_handler-gates softint 0x80 _)

gate-LeadsTo :
    (s : Interrupts) (i address : ℕ)
    → address < 2 ^ 32
    → s.idt_entries i ≡ gate_at address isr_flags
    → LeadsTo s i address
gate-LeadsTo s i address wide e = record {
  offset = rw e (gate_at-target address isr_flags wide);
  selector = rw e refl;
  flags = rw e refl;
}

-- Every gate that is set.
pub record Installed (s0 s : Interrupts) (isr0 isr_step irq0 irq_step softint : ℕ) : Type 0 where
  pub exceptions : (i : ℕ) → i < 32 → LeadsTo s i (isr0 + i * isr_step)
  pub interrupts : (i : ℕ) → i < 16 → LeadsTo s (i + 32) (irq0 + i * irq_step)
  pub calls : LeadsTo s 0x80 softint
  pub others : (i : ℕ) → 48 ≤ i → i ≢ 0x80 → s.idt_entries i ≡ s0.idt_entries i

-- After init_idt each of the first 48 gates and gate 0x80 is a present interrupt gate of the
-- kernel's code segment that leads to its entry point, for entry points at equal distances below
-- 2^32, and every other gate is as before.
pub init_idt-Installed :
    (isr0 isr_step irq0 irq_step softint : ℕ) (s : Interrupts)
    → isr0 + 32 * isr_step < 2 ^ 32
    → irq0 + 16 * irq_step < 2 ^ 32
    → softint < 2 ^ 32
    → Installed s
        (init_idt isr0 isr_step irq0 irq_step softint s)
        isr0
        isr_step
        irq0
        irq_step
        softint
init_idt-Installed isr0 isr_step irq0 irq_step softint s wide wide' wide'' =
    let s1 = set_gates 0 32 0 isr0 isr_step isr_flags s in
    let s2 = set_gates 0 16 32 irq0 irq_step isr_flags s1 in
    let end = init_idt isr0 isr_step irq0 irq_step softint s in
    let entry : (j : ℕ) → end.idt_entries j ≡ (idt_set 0x80 softint isr_flags s2).idt_entries j =
      λ j. init_idt-entry isr0 isr_step irq0 irq_step softint j s in
    record {
      exceptions = λ i hi. gate-LeadsTo end i (isr0 + i * isr_step) (grind arith) (
          entry i
          ∙ idt_set-others 0x80 i softint s2 (omega arith) (λ e. omega arith)
          ∙ set_gates-others 0 16 32 irq0 irq_step i s1 (omega arith) (inl (omega arith))
          ∙ set_gates-start 32 isr0 isr_step i s (omega arith) hi);
      interrupts = λ i hi. gate-LeadsTo end (i + 32) (irq0 + i * irq_step) (grind arith) (
          entry (i + 32)
          ∙ idt_set-others 0x80 (i + 32) softint s2 (omega arith) (λ e. omega arith)
          ∙ set_gates-here 0 16 32 irq0 irq_step i s1 (omega arith) (omega arith) (omega arith));
      calls =
          gate-LeadsTo end 0x80 softint wide''
            (entry 0x80 ∙ idt_set-here 0x80 softint s2 (omega arith));
      others = λ i lo ne.
          entry i
          ∙ idt_set-others 0x80 i softint s2 (omega arith) ne
          ∙ set_gates-others 0 16 32 irq0 irq_step i s1 (omega arith) (inr (omega arith))
          ∙ set_gates-others 0 32 0 isr0 isr_step i s (omega arith) (inr (omega arith));
    }
