-- ===== src/Interrupts/Dispatch.antt =====
-- Which interrupts `_irq_handler` of kernel/cpu/idt.c acknowledges, and where handlers are kept.
use l_ost.Common.{
  ℕ, suc, ◌-◌, ◌%◌, ◌^◌, ◌≡◌, ◌≢◌, refl, inl, inr, Bool, true, false, ◌&&◌, List, [], ◌∷◌, ◌++◌,
  arith, ltb, leb, ◌==◌, if◌then◌else◌, Bool-cases, u8,
}
use l_ost.Interrupts.{Interrupts, int_install_handler, acknowledge, dispatch, irq_handler}

pub int_install_handler-free :
    (handler n : ℕ) (s : Interrupts)
    → s.irq_handlers n ≡ 0
    → ((int_install_handler handler n s).0 ≡ 0)
      × ((int_install_handler handler n s).1.irq_handlers n ≡ handler)
      × ((k : ℕ) → k ≢ n → (int_install_handler handler n s).1.irq_handlers k ≡ s.irq_handlers k)
unfolding int_install_handler
int_install_handler-free handler n s free =
    let zeroth : (s.irq_handlers n == 0) ≡ true = ground arith in
    let here : (n == n) ≡ true = ground arith in
    (
      rw zeroth refl,
      rw (zeroth, here) refl,
      λ k ne. let other : (k == n) ≡ false = ground arith in rw (zeroth, other) refl,
    )

-- Once a handler is installed for an interrupt that had none, a second one is refused with -1 and
-- changes nothing.
pub install-twice :
    (first second n : ℕ) (s : Interrupts)
    → s.irq_handlers n ≡ 0
    → first ≢ 0
    → int_install_handler second n (int_install_handler first n s).1
      ≡ (2 ^ 32 - 1, (int_install_handler first n s).1)
unfolding int_install_handler
install-twice first second n s free real =
    let zeroth : (s.irq_handlers n == 0) ≡ true = ground arith in
    let here : (n == n) ≡ true = ground arith in
    let nonzero : (first == 0) ≡ false = ground arith in rw (zeroth, here, nonzero) refl

-- How often the command for the end of an interrupt goes to a controller.
pub count_port : (port : ℕ) → List (ℕ × ℕ) → ℕ
count_port port [] = 0
count_port port (c ∷ cs) = if c.0 == port then suc (count_port port cs) else count_port port cs

pub acknowledge-ports :
    (int_no : ℕ)
    → (count_port 0x20 (acknowledge int_no) ≡ (if ltb int_no 48 then 1 else 0))
      × (count_port 0xa0 (acknowledge int_no) ≡ (if leb 40 int_no && ltb int_no 48 then 1 else 0))
unfolding acknowledge count_port
acknowledge-ports int_no = elim (Bool-cases (ltb int_no 48)) [
  | inl e ↦ elim (Bool-cases (leb 40 int_no)) [
    | inl f ↦ rw (e, f) (refl, refl)
    | inr f ↦ rw (e, f) (refl, refl)
  ]
  | inr e ↦ elim (Bool-cases (leb 40 int_no)) [
    | inl f ↦ rw (e, f) (refl, refl)
    | inr f ↦ rw (e, f) (refl, refl)
  ]
]

module _ {S R : Type 0} (number : R → ℕ) (call : ℕ → R → S → R × S)
    (software_int schedule : R → S → R × S) (complain : ℕ → S → S) where
  -- An interrupt that is no call and has a handler comes back with what the handler returns, and
  -- what is acknowledged depends on the frame that the handler returns, not on the interrupt: the
  -- master controller once where its number is below 0x30, the slave once where it is from 0x28
  -- to 0x2f, and neither otherwise.
  pub irq_handler-acknowledged :
      (ring0 : Bool) (regs : R) (w : S) (s : Interrupts)
      → (ring0 && number regs % 256 == 0x80) ≡ false
      → s.irq_handlers (u8 (number regs)) ≢ 0
      → let (left, rest) = irq_handler number call software_int schedule complain ring0 regs w s in
        let (regs', w') = call (s.irq_handlers (u8 (number regs))) regs w in
        (left ≡ regs')
        × (rest.0 ≡ w')
        × (extra : List (ℕ × ℕ)) × (rest.1.sent ≡ s.sent ++ extra)
        × (count_port 0x20 extra ≡ (if ltb (number regs') 48 then 1 else 0))
        × (count_port 0xa0 extra
            ≡ (if leb 40 (number regs') && ltb (number regs') 48 then 1 else 0))
  unfolding irq_handler dispatch
  irq_handler-acknowledged ring0 regs w s plain handled =
      let nonzero : (s.irq_handlers (u8 (number regs)) == 0) ≡ false = ground arith in
      let (master, slave) =
        acknowledge-ports (number (call (s.irq_handlers (u8 (number regs))) regs w).0) in
      rw (plain, nonzero)
        (
          refl,
          refl,
          acknowledge (number (call (s.irq_handlers (u8 (number regs))) regs w).0),
          refl,
          master,
          slave,
        )
