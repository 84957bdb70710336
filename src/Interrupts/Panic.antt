-- ===== src/Interrupts/Panic.antt =====
-- `panic` and `_fhandler` of kernel/cpu/idt.c. Each text is what `kprintf` sends for it. `writer` is the
-- address of `write_screen_char`, which the shell makes a listener of the port: where it is one, it
-- gets each byte, and puts it on the screen.
use l_ost.Common.{
  ℕ, zero, suc, ◌+◌, ◌%◌, ◌≤◌, ◌<◌, ◌≡◌, refl, sym, ap, ◌∙◌, Bool, true, Option, none, some, List,
  [], ◌∷◌, ◌++◌, arith, ◌==◌, if◌then◌else◌, length,
}
use l_ost.Common.{codes, get_elem?}
use l_ost.Serial.{Serial, put_text}
use l_ost.Serial.Console.{numeral}
use mathlib.Core.List.{append_assoc}
use l_ost.Serial.Wire.{translated, wire, Real, put_text-wire, wire-append}
use l_ost.Serial.Printf.{decimal, output_of}
use l_ost.Screen.{Screen, set_color, write_screen}
use l_ost.Screen.Cursor.{OnScreen, set_color-OnScreen, write_screen-OnScreen}
use l_ost.Scheduler.{Registers}
use l_ost.Interrupts.{Interrupts}
use l_ost.Interrupts.PanicTexts.{exceptions, opcodes}

abbrev line : List ℕ
line = 10 ∷ []

-- `%x`, behind `padding = 8`.
abbrev hex : ℕ → List ℕ
hex n = numeral n 16 8

abbrev greeting : List ℕ
greeting =
    codes "f0und: Kernel panic!"
    ++ line
    ++ codes
        "Message: I'm sorry, your computer ran into an exception while running. Please be patient while we attempt to fetch information about what went wrong."
    ++ line

-- The messages behind `padding = 8`. `opcode` is the word at eip and `name` its text; `kernel.ss` stands
-- where the frame of a user has its stack pointer, and it is printed compared.
abbrev report : (opcode seconds : ℕ) (name : List ℕ) → Registers → List ℕ
report opcode seconds name regs =
    (codes "Occured at:    " ++ hex regs.eip ++ line)
    ++ (codes "Base Pointer:  " ++ hex regs.ebp ++ line)
    ++ (codes "Stack Pointer: " ++ hex regs.esp ++ line)
    ++ (codes "Opcode: "
        ++ hex opcode
        ++ codes " ("
        ++ name
        ++ codes ")| CS: "
        ++ hex regs.cs
        ++ codes " | DS: "
        ++ hex regs.ds
        ++ codes " | SS: "
        ++ hex (if regs.useresp == 0x10 then 1 else 0)
        ++ line)
    ++ (codes
          "When you are ready, please restart your computer to continue. Any data from before the exception unfortuantely may be lost."
        ++ line)
    ++ (codes "f0und: End Kernel Panic! Result: Critical Exception. Restart."
        ++ line
        ++ codes "Code: "
        ++ hex regs.int_no
        ++ hex regs.err_code
        ++ line)
    ++ (codes "Uptime: " ++ output_of 8 (decimal seconds) ++ codes "s")

-- The texts of `panic`, in their order.
abbrev exception_text : (exception : List ℕ) → List ℕ
exception_text exception = codes "Exception: " ++ exception ++ codes " Exception!" ++ line

unfoldable pub panic_text : (opcode seconds : ℕ) (exception name : List ℕ) → Registers → List ℕ
panic_text opcode seconds exception name regs =
    greeting ++ (exception_text exception ++ report opcode seconds name regs)

-- How many of the four listeners of the port are `writer`.
pub listened : (writer : ℕ) → Serial → ℕ
listened writer s =
    let d = s.com_desc 0 in
    (if d.listeners 0 == writer then 1 else 0)
    + (if d.listeners 1 == writer then 1 else 0)
    + (if d.listeners 2 == writer then 1 else 0)
    + (if d.listeners 3 == writer then 1 else 0)

-- A byte, for each of `n` listeners.
pub copies : (n c : ℕ) → List ℕ
copies zero c = []
copies (suc n) c = c ∷ copies n c

-- The bytes that `n` listeners get for the bytes of a character, and for a text.
pub heard_bytes : (n : ℕ) → List ℕ → List ℕ
heard_bytes n [] = []
heard_bytes n (c ∷ cs) = copies n c ++ heard_bytes n cs

unfoldable pub heard : (n : ℕ) (auto_send_return : Bool) → List ℕ → List ℕ
heard n auto [] = []
heard n auto (c ∷ cs) = heard_bytes n (translated auto c) ++ heard n auto cs

-- What a text that is sent leaves on the screen.
unfoldable pub echoed : (writer : ℕ) → Serial → List ℕ → Screen → Screen
echoed writer serial text =
    write_screen (heard (listened writer serial) serial.auto_send_return text)

module _ (call : ℕ → ℕ → ℕ) (writer : ℕ) where
  -- What `panic` prints.
  abbrev panicked : (opcode seconds : ℕ) (exception name : List ℕ) → Registers → Serial → Serial
  panicked opcode seconds exception name regs serial =
      let serial1 = put_text call greeting serial in
      let serial2 = put_text call (exception_text exception) serial1 in
      put_text call (report opcode seconds name regs) (record serial2 { padding = 8 })

  -- `panic`: the state in its last loop, which it does not leave. `none` is a text that is read from
  -- behind its table.
  unfoldable pub panic :
      (opcode seconds : ℕ) → Registers → Serial × Screen → Option (Serial × Screen)
  panic opcode seconds regs (serial, screen) = elim (get_elem? exceptions (regs.int_no % 256)) [
    | none ↦ none
    | some exception ↦ elim (get_elem? opcodes (opcode % 256)) [
      | none ↦ none
      | some name ↦ some (
        panicked opcode seconds exception name regs serial,
        echoed writer serial (panic_text opcode seconds exception name regs)
            (set_color 0x1f screen),
      )
    ]
  ]

  -- `_fhandler`, whose calls behind `panic` are never reached.
  unfoldable pub fhandler :
      (opcode seconds : ℕ)
      → Registers
      → Interrupts × (Serial × Screen)
      → Option (Interrupts × (Serial × Screen))
  fhandler opcode seconds regs (s, before) = elim (panic opcode seconds regs before) [
    | none ↦ none
    | some after ↦ some (record s { kernel_mode = true }, after)
  ]

get_elem?-some :
    (xs : List (List ℕ)) (i : ℕ) → i < length xs → (x : List ℕ) × (get_elem? xs i ≡ some x)
get_elem?-some [] i h = absurd (omega arith)
get_elem?-some (x ∷ xs) zero h = (x, refl)
get_elem?-some (x ∷ xs) (suc i) h = get_elem?-some xs i (omega arith)

get_elem?-none : (xs : List (List ℕ)) (i : ℕ) → length xs ≤ i → get_elem? xs i ≡ none
get_elem?-none [] i h = refl
get_elem?-none (x ∷ xs) zero h = absurd (omega arith)
get_elem?-none (x ∷ xs) (suc i) h = get_elem?-none xs i (omega arith)

heard_bytes-none : (cs : List ℕ) → heard_bytes 0 cs ≡ []
unfolding heard_bytes copies
heard_bytes-none [] = refl
heard_bytes-none (c ∷ cs) = heard_bytes-none cs

heard-none : (auto : Bool) (text : List ℕ) → heard 0 auto text ≡ []
unfolding heard
heard-none auto [] = refl
heard-none auto (c ∷ cs) = rw (heard_bytes-none (translated auto c)) (heard-none auto cs)

-- Without that listener the screen stays as it is.
echoed-unheard :
    (writer : ℕ) (serial : Serial) (text : List ℕ) (screen : Screen)
    → listened writer serial ≡ 0
    → echoed writer serial text screen ≡ screen
unfolding echoed write_screen
echoed-unheard writer serial text screen unheard =
    ap (λ n. write_screen (heard n serial.auto_send_return text) screen) unheard
    ∙ ap (λ cs. write_screen cs screen) (heard-none serial.auto_send_return text)

-- The three texts leave the port one after the other.
panicked-wire :
    (call : ℕ → ℕ → ℕ) (writer opcode seconds port : ℕ) (auto : Bool) (exception name : List ℕ)
    (regs : Registers) (serial : Serial)
    → Real port auto serial
    → (panicked call writer opcode seconds exception name regs serial).sent
      ≡ serial.sent ++ wire auto port (panic_text opcode seconds exception name regs)
unfolding panic_text
panicked-wire call writer opcode seconds port auto exception name regs serial r =
    let second : List ℕ = exception_text exception in
    let third : List ℕ = report opcode seconds name regs in
    let (r1, out1) = put_text-wire call greeting port auto serial r in
    let serial1 = put_text call greeting serial in
    let (r2, out2) = put_text-wire call second port auto serial1 r1 in
    let serial2 = put_text call second serial1 in
    let r3 : Real port auto (record serial2 { padding = 8 }) = record {
      base = r2.base;
      real = r2.real;
      returns = r2.returns;
    } in
    let (_, out3) = put_text-wire call third port auto (record serial2 { padding = 8 }) r3 in
    let first_wire = wire auto port greeting in
    let second_wire = wire auto port second in
    let third_wire = wire auto port third in
    out3
    ∙ ap (λ o. o ++ third_wire) (out2 ∙ ap (λ o. o ++ second_wire) out1)
    ∙ append_assoc (serial.sent ++ first_wire) second_wire third_wire
    ∙ append_assoc serial.sent first_wire (second_wire ++ third_wire)
    ∙ ap (λ o. serial.sent ++ (first_wire ++ o)) (sym (wire-append auto port second third))
    ∙ ap (λ o. serial.sent ++ o) (sym (wire-append auto port greeting (second ++ third)))

-- On a port that is there, for every opcode and the numbers below 32, fhandler reaches the last loop of
-- panic with kernel_mode set. By then the port has sent the three texts with the name of the exception
-- and that of the opcode. If write_screen_char is no listener of the port, the screen has the color 0x1f and
-- is else as it was; if it is one and the cursor was on the screen, the cursor is on the screen. For
-- any other number below 256 panic reads behind the table of exceptions.
pub fhandler-reached :
    (call : ℕ → ℕ → ℕ) (writer opcode seconds port : ℕ) (auto : Bool) (regs : Registers)
    (s : Interrupts) (serial : Serial) (screen : Screen)
    → regs.int_no < 256
    → Real port auto serial
    → (regs.int_no < 32
        → (serial' : Serial) × (screen' : Screen) × (exception : List ℕ) × (name : List ℕ)
          × (fhandler call writer opcode seconds regs (s, (serial, screen))
              ≡ some (record s { kernel_mode = true }, (serial', screen')))
          × (get_elem? exceptions regs.int_no ≡ some exception)
          × (get_elem? opcodes (opcode % 256) ≡ some name)
          × (serial'.sent
              ≡ serial.sent ++ wire auto port (panic_text opcode seconds exception name regs))
          × (listened writer serial ≡ 0 → screen' ≡ set_color 0x1f screen)
          × (OnScreen screen → OnScreen screen'))
      × (32 ≤ regs.int_no → fhandler call writer opcode seconds regs (s, (serial, screen)) ≡ none)
unfolding fhandler panic echoed
fhandler-reached call writer opcode seconds port auto regs s serial screen byte r =
    let whole : regs.int_no % 256 ≡ regs.int_no = omega (arith, byte) in
    (
      λ lo.
          (let (exception, named) = get_elem?-some exceptions regs.int_no lo in
            let (name, spelled) = get_elem?-some opcodes (opcode % 256) (omega arith) in
            let text : List ℕ = panic_text opcode seconds exception name regs in
            (
              panicked call writer opcode seconds exception name regs serial,
              echoed writer serial text (set_color 0x1f screen),
              exception,
              name,
              rw (fhandler, panic, whole, named, spelled) refl,
              named,
              spelled,
              panicked-wire call writer opcode seconds port auto exception name regs serial r,
              echoed-unheard writer serial text (set_color 0x1f screen),
              λ on.
                  (write_screen-OnScreen
                    (heard (listened writer serial) serial.auto_send_return text)
                    (set_color 0x1f screen) (set_color-OnScreen 0x1f screen on)).0,
            )),
      λ hi.
          let missing = get_elem?-none exceptions regs.int_no hi in
          rw (fhandler, panic, whole, missing) refl,
    )
