-- ===== src/Keyboard/Tests.antt =====
-- The keyboard at concrete states, and the theorems at them.
use l_ost.Common.{
  arith, ℕ, List, ◌++◌, ◌≡◌, refl, true, false, ◌||◌, none, some, [], ◌∷◌, ◌==◌, if◌then◌else◌,
}
use l_ost.Keyboard.Controller.{
  complaints, Documented, configured, init_8042, first_commands, port_commands,
  init_8042-Documented,
}
use l_ost.Keyboard.{
  request_register_driver, Keyboard, translate, get_ascii, kb_listener, deliver, ps2_handler,
}

abbrev quiet : Keyboard
quiet = record {
  g_listener = none;
  ps2_listener = true;
  last_char = 0;
  last_key = 0;
  interrupt_fired = false;
  shift_down = false;
  caps_lock = false;
}

abbrev listening : Keyboard
listening = record quiet { g_listener = some 7 }

-- Left shift, then the key of "a".
types_a : (ps2_handler 30 (ps2_handler 42 listening).0).1 ≡ (7, b'A') ∷ []
unfolding ps2_handler deliver kb_listener translate get_ascii
types_a = refl

-- A controller with two ports whose configuration is 0x45, and with a byte waiting.
abbrev controller : ℕ → List ℕ
controller byte =
    if byte == 0x20
    then 0x45 ∷ []
    else if byte == 0xaa
    then 0x55 ∷ []
    else if byte == 0xab || byte == 0xa9
    then 0 ∷ []
    else []

controller-Documented : Documented controller 0x45 0x55 0 0
controller-Documented = record {
  read_stat = refl;
  test_self = refl;
  test_keyboard = refl;
  test_second = refl;
  write_stat = refl;
  enable = refl;
  enable_second = refl;
  keyboard_code = omega arith;
  mouse_code = omega arith;
}

configured_45 : configured 0x45 ≡ 4
unfolding configured
configured_45 = refl

init_8042-Documented_example :
    init_8042 controller quiet (record { queue = 7 ∷ []; commands = []; reported = [] })
    ≡ some (
      0,
      (
        request_register_driver true quiet,
        record {
          queue = [];
          commands = first_commands 0x45 ++ port_commands 0x45;
          reported = complaints 0x45 0 0;
        },
      ),
    )
init_8042-Documented_example =
    init_8042-Documented controller 0x45 0x55 0 0 (7 ∷ []) quiet controller-Documented
      (rw configured_45 refl)
