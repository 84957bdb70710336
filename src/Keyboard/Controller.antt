-- ===== src/Keyboard/Controller.antt =====
-- The start of the controller: `init_8042` of kernel/drivers/ps2.c. The controller holds the bytes that
-- wait at its data port, and what it answers to a command is an argument. The status port has its
-- lowest bit set where a byte waits, so that a wait on an empty port does not end.
use mathlib.Core.List.{append-nil}
use l_ost.Common.{codes, get_elem?}
use l_ost.Common.{
  true, zero, suc, ◌≤◌, arith, ℕ, ◌-◌, ◌/◌, ◌%◌, ◌≡◌, refl, inl, inr, Option, none, some, List, [],
  ◌∷◌, ◌++◌, ◌==◌, if◌then◌else◌, Bool-cases,
}
use l_ost.Keyboard.{Keyboard, request_register_driver}

-- The bytes at the data port, the commands that it got, and the messages that `init_8042` printed, as
-- their `error_codes`.
pub record Controller : Type 0 where
  pub queue : List ℕ
  pub commands : List ℕ
  pub reported : List (List ℕ)

-- `error_codes`.
abbrev pub error_codes : List (List ℕ)
error_codes =
    codes "Clock line stuck low"
    ∷ codes "Clock line stuck high"
    ∷ codes "Data line stuck low"
    ∷ codes "Data line stuck high"
    ∷ []

-- `while(inb(KB_STATUS) & 1) inb(KB_DATA);`.
abbrev pub drain : Controller → Controller
drain c = record c { queue = [] }

-- `while(!(inb(KB_STATUS) & 1));` and then `inb(KB_DATA)`.
unfoldable pub next_byte : Controller → Option (ℕ × Controller)
next_byte c = elim c.queue [ [] ↦ none | byte ∷ rest ↦ some (byte, record c { queue = rest }) ]

-- The byte of `stat` without `int1`, `int2` and `translation`.
unfoldable pub configured : (byte : ℕ) → ℕ
configured byte = byte - byte % 4 - (if byte / 64 % 2 == 1 then 64 else 0)

module _ (respond : ℕ → List ℕ) where
  -- `outb(KB_COMMAND, byte)`.
  abbrev pub command : (byte : ℕ) → Controller → Controller
  command byte c = record c { queue = c.queue ++ respond byte; commands = c.commands ++ byte ∷ [] }

  -- `if(test_result != 0) kprintf(…, error_codes[test_result - 1]);`. `none` is a text from behind the table.
  unfoldable pub report_test : (test_result : ℕ) → Controller → Option Controller
  report_test zero c = some c
  report_test (suc index) c = elim (get_elem? error_codes index) [
    | none ↦ none
    | some message ↦ some (record c { reported = c.reported ++ message ∷ [] })
  ]

  -- The test of the second port.
  unfoldable pub test_mouse : (stat : ℕ) → Controller → Option Controller
  test_mouse stat c = if stat / 32 % 2 == 1 then some c else elim (next_byte (command 0xa9 c)) [
    | none ↦ none
    | some (test_result, c1) ↦ elim (report_test test_result c1) [
      | none ↦ none
      | some c2 ↦ some (command 0xa8 c2)
    ]
  ]

  -- What follows the test of the controller: the tests of the ports, and the end.
  unfoldable pub test_ports : (stat : ℕ) → Controller → Option Controller
  test_ports stat c = elim (next_byte (command 0xab c)) [
    | none ↦ none
    | some (test_result, c1) ↦ elim (report_test test_result c1) [
      | none ↦ none
      | some c2 ↦ elim (test_mouse stat c2) [ none ↦ none | some c3 ↦ some (command 0xae c3) ]
    ]
  ]

  -- `init_8042`, which asks for a driver where it succeeds.
  unfoldable pub init_8042 : Keyboard → Controller → Option (ℕ × (Keyboard × Controller))
  init_8042 k c = elim (next_byte (command 0x20 (drain (command 0xa7 (command 0xad c))))) [
    | none ↦ none
    | some (byte, c1) ↦
        let stat = configured byte in
        elim (next_byte (command 0xaa (command stat (command 0x60 c1)))) [
          | none ↦ none
          | some (test, c2) ↦
              if test == 0x55
              then elim (test_ports stat c2) [
                | none ↦ none
                | some c3 ↦ some (0, (request_register_driver true k, c3))
              ]
              else some (1, (k, c2))
        ]
  ]

-- A controller that answers only the commands with an answer, each by one byte, and the tests of the
-- ports by a code from 0 to 4.
pub record Documented (respond : ℕ → List ℕ) (stat self_test keyboard mouse : ℕ) : Type 0 where
  pub read_stat : respond 0x20 ≡ stat ∷ []
  pub test_self : respond 0xaa ≡ self_test ∷ []
  pub test_keyboard : respond 0xab ≡ keyboard ∷ []
  pub test_second : respond 0xa9 ≡ mouse ∷ []
  pub write_stat : respond 0x60 ≡ []
  pub enable : respond 0xae ≡ []
  pub enable_second : respond 0xa8 ≡ []
  pub keyboard_code : keyboard ≤ 4
  pub mouse_code : mouse ≤ 4

-- What is reported of a test by its code.
abbrev pub complaint : (code : ℕ) → List (List ℕ)
complaint code =
    if code == 1
    then codes "Clock line stuck low" ∷ []
    else if code == 2
    then codes "Clock line stuck high" ∷ []
    else if code == 3
    then codes "Data line stuck low" ∷ []
    else if code == 4
    then codes "Data line stuck high" ∷ []
    else []

report_test-complaint :
    (respond : ℕ → List ℕ) (code : ℕ) (c : Controller)
    → code ≤ 4
    → report_test respond code c ≡ some (record c { reported = c.reported ++ complaint code })
unfolding report_test
report_test-complaint respond zero c h = rw (append-nil c.reported) refl
report_test-complaint respond (suc zero) c h = refl
report_test-complaint respond (suc (suc zero)) c h = refl
report_test-complaint respond (suc (suc (suc zero))) c h = refl
report_test-complaint respond (suc (suc (suc (suc zero)))) c h = refl
report_test-complaint respond (suc (suc (suc (suc (suc n))))) c h = absurd (omega arith)

-- The messages of a start behind the test of the controller.
abbrev pub complaints : (stat keyboard mouse : ℕ) → List (List ℕ)
complaints stat keyboard mouse =
    complaint keyboard ++ (if configured stat / 32 % 2 == 1 then [] else complaint mouse)

-- The commands of a start.
abbrev pub first_commands : (stat : ℕ) → List ℕ
first_commands stat = 0xad ∷ 0xa7 ∷ 0x20 ∷ 0x60 ∷ configured stat ∷ 0xaa ∷ []

abbrev pub port_commands : (stat : ℕ) → List ℕ
port_commands stat =
    if configured stat / 32 % 2 == 1 then 0xab ∷ 0xae ∷ [] else 0xab ∷ 0xa9 ∷ 0xa8 ∷ 0xae ∷ []

-- On a controller that answers as documented and does not take the configuration for a command with
-- an answer, `init_8042` comes back, whatever bytes waited before: with 1 behind the test of the
-- controller where that fails, and else with 0 behind the tests of the ports and with the driver asked
-- for. It sends exactly these commands, prints for each port that it tests the message of its code, and
-- leaves no byte waiting.
pub init_8042-Documented :
    (respond : ℕ → List ℕ) (stat self_test keyboard mouse : ℕ) (waiting : List ℕ) (k : Keyboard)
    → Documented respond stat self_test keyboard mouse
    → respond (configured stat) ≡ []
    → init_8042 respond k (record { queue = waiting; commands = []; reported = [] })
      ≡ some (
          if self_test == 0x55
          then (
            0,
            (
              request_register_driver true k,
              record {
                queue = [];
                commands = first_commands stat ++ port_commands stat;
                reported = complaints stat keyboard mouse;
              },
            ),
          )
          else (1, (k, record { queue = []; commands = first_commands stat; reported = [] })))
unfolding init_8042 next_byte test_ports test_mouse
init_8042-Documented respond stat self_test keyboard mouse waiting k d silent =
    let first : (c : Controller)
        → report_test respond keyboard c
          ≡ some (record c { reported = c.reported ++ complaint keyboard }) =
      λ c. report_test-complaint respond keyboard c d.keyboard_code in
    let second_port : (c : Controller)
        → report_test respond mouse c
          ≡ some (record c { reported = c.reported ++ complaint mouse }) =
      λ c. report_test-complaint respond mouse c d.mouse_code in
    elim (Bool-cases (self_test == 0x55)) [
      | inr fails ↦
          rw (init_8042, d.read_stat, next_byte, d.write_stat, silent, d.test_self, fails) refl
      | inl passes ↦ elim (Bool-cases (configured stat / 32 % 2 == 1)) [
        | inl second ↦
            rw
              (
                init_8042, d.read_stat, next_byte, d.write_stat, silent, d.test_self, passes,
                test_ports, d.test_keyboard, first, test_mouse, second, d.enable,
              )
              (rw (append-nil (complaint keyboard)) refl)
        | inr one ↦
            rw
              (
                init_8042, d.read_stat, next_byte, d.write_stat, silent, d.test_self, passes,
                test_ports, d.test_keyboard, first, test_mouse, one, d.test_second, second_port,
                d.enable_second, d.enable,
              )
              refl
      ]
    ]
