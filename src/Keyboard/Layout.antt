-- ===== src/Keyboard/Layout.antt =====
-- The characters that `get_ascii` gives.
use l_ost.Common.{
  ℕ, zero, suc, ◌+◌, ◌≤◌, ◌<◌, ◌≡◌, refl, Bool, true, false, ◌&&◌, arith, ℕ_discrete, ltb, leb,
  ◌==◌, promote,
}
use l_ost.Keyboard.{shifted_symbol, get_ascii}

-- Whether a test on codes accepts each of the first `codes`.
accepts : (test : ℕ → Bool) → (codes : ℕ) → Bool
accepts test zero = true
accepts test (suc codes) = accepts test codes && test codes

accepted :
    (test : ℕ → Bool) (codes : ℕ)
    → accepts test codes ≡ true
    → (code : ℕ) → code < codes
    → test code ≡ true
unfolding accepts
accepted test zero all code below = absurd (omega arith)
accepted test (suc codes) all code below = elim (ℕ_discrete code codes) [
  | no earlier ↦ accepted test codes (ground arith) code (omega arith)
  | yes last ↦ rw last (ground arith)
]

-- The number lock never changes the character of a byte: the code of a key on the number pad is
-- above 127, and its `char` extends to a negative number.
pub get_ascii-numlock :
    (scanned : ℕ) (shift : Bool)
    → scanned < 256
    → get_ascii scanned shift true ≡ get_ascii scanned shift false
unfolding get_ascii promote
get_ascii-numlock scanned true h = refl
get_ascii-numlock scanned false h = ground arith

shift_numlock :
    (scanned : ℕ) (numlock : Bool) → get_ascii scanned true numlock ≡ get_ascii scanned true false
unfolding get_ascii
shift_numlock scanned numlock = refl

shifted_table :
    accepts (λ c. leb 32 (get_ascii c true false) && ltb (get_ascii c true false) 127) 256 ≡ true
unfolding accepts get_ascii shifted_symbol
shifted_table = refl

letter_table : accepts (λ d. get_ascii (b'a' + d) true false == b'A' + d) 26 ≡ true
unfolding accepts get_ascii
letter_table = refl

-- With shift every byte gives a printable character, and a lower case letter its upper case letter.
pub get_ascii-shift :
    (scanned d : ℕ) (numlock : Bool)
    → scanned < 256
    → d < 26
    → (32 ≤ get_ascii scanned true numlock)
      × (get_ascii scanned true numlock < 127)
      × (get_ascii (b'a' + d) true numlock ≡ b'A' + d)
get_ascii-shift scanned d numlock h hd =
    rw (shift_numlock scanned numlock, shift_numlock (b'a' + d) numlock)
      (printable.0, printable.1, letter)
  where
    printable : (32 ≤ get_ascii scanned true false) × (get_ascii scanned true false < 127)
    printable = ground (arith, accepted _ 256 shifted_table scanned h)

    letter : get_ascii (b'a' + d) true false ≡ b'A' + d
    letter = ground (arith, accepted _ 26 letter_table d hd)
