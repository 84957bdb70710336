-- ===== src/Keyboard.antt =====
-- The keyboard: kernel/drivers/kb.c with the key codes of kb.h, and kernel/drivers/ps2.c, of which
-- Controller has the start. A listener is a function of another module, so it is a number here, and a
-- handler returns the calls that it makes: the listener and the character.
pub mod Layout
pub mod Events
pub mod Controller
mod Tests
use l_ost.Common.{
  codes, ℕ, zero, suc, ◌+◌, ◌-◌, ◌*◌, ◌/◌, ◌%◌, ◌^◌, ◌≤◌, ◌<◌, ◌≡◌, ◌≢◌, refl, sym, ap, ◌∙◌, ◌↔◌,
  ◌⊎◌, inl, inr, Bool, true, false, ◌&&◌, ◌||◌, not, Option, none, some, List, [], ◌∷◌, ◌++◌, arith,
  ℕ_discrete, dec_lt, ltb, leb, ◌==◌, if◌then◌else◌, Bool-cases, Option-cases, length, u8, u16, u32,
  mask, bit_field, slt, promote, get_or,
}
use Prim.Native.Nat.{bit_xor}
use mathlib.Core.List.{map}

-- The codes of `ControlChars` that the handler tests.
abbrev pub lshft : ℕ
lshft = 0x81

abbrev pub rshft : ℕ
rshft = 0x82

abbrev pub lalt : ℕ
lalt = 0x83

abbrev pub caps : ℕ
caps = 0x84

-- `KB_ERRORS`.
abbrev pub kb_err_invalid_fp : ℕ
kb_err_invalid_fp = 2

abbrev pub kb_err_dual_reg : ℕ
kb_err_dual_reg = 3

-- The variables of both files. `none` is the null pointer.
pub record Keyboard : Type 0 where
  pub g_listener : Option ℕ
  pub ps2_listener : Bool
  pub last_char : ℕ
  pub last_key : ℕ
  pub interrupt_fired : Bool
  pub shift_down : Bool
  pub caps_lock : Bool

-- `translated_kb_codes`, in three rows.
abbrev pub translated_kb_codes : List ℕ
translated_kb_codes =
    (0 ∷ 27 ∷ codes "1234567890-=" ++ (8 ∷ 9 ∷ codes "qwertyuiop[]"))
    ++ ((10 ∷ 0x81 ∷ 0x61 ∷ codes "sdfghjkl;'`" ++ (0x82 ∷ codes "\\zxcvbnm,./"))
        ++ (0x82 ∷ codes "*"
            ++ (0x83 ∷ codes " "
                ++ (0x84 ∷ 0x90 ∷ 0x91 ∷ 0x92 ∷ 0x93 ∷ 0x94 ∷ 0x95 ∷ 0x95 ∷ 0x96 ∷ 0x97 ∷ 0x98
                    ∷ 0x99 ∷ 0xa0 ∷ 0xa1 ∷ 0xb7 ∷ 0xb8 ∷ 0xb9 ∷ 0xbd ∷ 0xb4 ∷ 0xb5 ∷ 0xb6 ∷ 0xbb
                    ∷ 0xb1 ∷ 0xb2 ∷ 0xb3 ∷ 0xb0 ∷ 0xbe ∷ 0 ∷ 0 ∷ 0 ∷ 0x9a ∷ 0x9b ∷ 0 ∷ 0 ∷ 0
                    ∷ []))))

-- `translated_kb_codes[scancode]`. The table has an entry for each code up to 0x5b; behind it stand
-- the literal's null byte and then bytes of other objects, which are given as 0.
pub translate : ℕ → ℕ
translate scancode = get_or translated_kb_codes scancode 0

abbrev pub shifted_nums : List ℕ
shifted_nums = codes ")!@#$%^&*("

-- The `switch` of `get_ascii`.
pub shifted_symbol : ℕ → ℕ
shifted_symbol c =
    if c == b'`'
    then b'~'
    else if c == b'-'
    then b'_'
    else if c == b'='
    then b'+'
    else if c == b';'
    then b':'
    else if c == 39
    then 34
    else if c == b','
    then b'<'
    else if c == b'.'
    then b'>'
    else if c == b'/'
    then b'?'
    else if c == b'['
    then b'{'
    else if c == b']'
    then b'}'
    else if c == 92
    then b'|'
    else b' '

-- `get_ascii`. `scanned` is a `char`, so `(unsigned) scanned` extends its sign.
pub get_ascii : (scanned : ℕ) → (shift numlock : Bool) → ℕ
get_ascii scanned shift numlock =
    if shift
    then (if leb b'a' scanned && leb scanned b'z'
        then scanned - 0x20
        else if leb b'0' scanned && leb scanned b'9'
        then get_or shifted_nums (scanned - b'0') 0
        else shifted_symbol scanned)
    else if numlock && leb 0xb0 (promote scanned) && leb (promote scanned) 0xb9
    then bit_xor scanned 0x80
    else scanned

-- `kb_listener`: the calls that it makes.
pub kb_listener : Keyboard → ℕ → List (ℕ × ℕ)
kb_listener k key = elim k.g_listener [ none ↦ [] | some l ↦ (l, key) ∷ [] ]

-- `register_kb_listener`: the result, and the variables afterwards.
pub register_kb_listener : Option ℕ → Keyboard → ℕ × Keyboard
register_kb_listener none k = (kb_err_invalid_fp, k)
register_kb_listener (some l) k = elim k.g_listener [
  | none ↦ (0, record k { g_listener = some l })
  | some old ↦ (kb_err_dual_reg, k)
]

-- `register_handlers`, which `request_register_driver` calls with `kb_listener`.
pub register_handlers : Bool → Keyboard → Keyboard
register_handlers translated_handler k = record k { ps2_listener = translated_handler }

-- `request_register_driver`: the argument is `register_handlers` or the null pointer.
pub request_register_driver : Bool → Keyboard → Keyboard
request_register_driver driver_listener k = if driver_listener then register_handlers true k else k

-- `getchar` and `get_lastkey`.
pub getchar : Keyboard → ℕ × Keyboard
getchar k = (k.last_char, record k { interrupt_fired = false })

pub get_lastkey : Keyboard → ℕ
get_lastkey k = k.last_key

-- The part of the handler behind the `switch` on a key that is pressed.
pub deliver : ℕ → Keyboard → Keyboard × List (ℕ × ℕ)
deliver scancode k =
    let k' : Keyboard = record k {
      interrupt_fired = true;
      last_key = scancode;
      last_char = get_ascii (translate scancode) (k.shift_down || k.caps_lock) false;
    } in
    (k', if k.ps2_listener then kb_listener k' k'.last_char else [])

-- `ps2_handler` on the byte that the controller holds.
pub ps2_handler : ℕ → Keyboard → Keyboard × List (ℕ × ℕ)
ps2_handler scancode k =
    if ltb scancode 0x80
    then (if translate scancode == lshft || translate scancode == rshft
        then (record k { shift_down = true }, [])
        else if translate scancode == caps
        then (record k { caps_lock = not k.caps_lock }, [])
        else if translate scancode == lalt
        then (k, [])
        else deliver scancode k)
    else (if translate (bit_xor scancode 0x80) == lshft
          || translate (bit_xor scancode 0x80) == rshft
        then (record k { shift_down = false }, [])
        else (k, []))
