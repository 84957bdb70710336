-- ===== src/Serial/Tests.antt =====
-- The console at a concrete port, and its theorems at it.
use l_ost.Common.{
  ℕ, ◌<◌, ◌≡◌, refl, true, false, some, List, [], ◌∷◌, arith, ◌==◌, if◌then◌else◌, length,
}
use l_ost.Text.{Bytes}
use l_ost.Text.Spelling.{IsStr}
use l_ost.Serial.{ComDesc, Serial, kprintf, put_text}
use l_ost.Serial.Printf.{
  Piece, literal, decimal, string, format, spelled, arguments, output, WellFormed, AllWellFormed,
  kprintf-pieces,
}
use l_ost.Serial.Wire.{Real, wire, put_text-wire}

abbrev answer : ℕ → ℕ → ℕ
answer listener c = c

abbrev quiet : ComDesc
quiet = record {
  listeners = λ i. 0;
  listener_data_buffer = λ i j. 0;
  listner_data_index = λ i. 0;
  listner_keys = λ i. 0;
  is_virtual = false;
}

abbrev console : Serial
console = record {
  com_base = λ i. 0x3f8;
  com_desc = λ i. quiet;
  padding = 1;
  auto_send_return = true;
  sent = [];
}

-- "n=%d %s" at 100 and "ok" at 200.
abbrev board : Bytes
board a =
    if a == 100
    then b'n'
    else if a == 101
    then b'='
    else if a == 102
    then b'%'
    else if a == 103
    then b'd'
    else if a == 104
    then b' '
    else if a == 105
    then b'%'
    else if a == 106
    then b's'
    else if a == 200
    then b'o'
    else if a == 201
    then b'k'
    else 0

abbrev pieces : List Piece
pieces =
    literal b'n' ∷ literal b'=' ∷ decimal 42 ∷ literal b' ' ∷ string 200 (b'o' ∷ b'k' ∷ []) ∷ []

board-IsStr : IsStr board 100 (format pieces)
unfolding format spelled
board-IsStr = (
  refl,
  omega arith,
  (
    refl,
    omega arith,
    (
      refl,
      omega arith,
      (refl, omega arith, (refl, omega arith, (refl, omega arith, (refl, omega arith, refl)))),
    ),
  ),
)

pieces-AllWellFormed : AllWellFormed 20 board pieces
unfolding AllWellFormed WellFormed
pieces-AllWellFormed = (
  omega arith,
  (
    omega arith,
    (
      omega arith,
      (omega arith, (((refl, omega arith, (refl, omega arith, refl)), omega arith), refl)),
    ),
  ),
)

length-format : length (format pieces) < 20
unfolding format spelled
length-format = omega arith

kprintf-pieces_example :
    kprintf answer 20 board 100 (arguments pieces) console
    ≡ some (put_text answer (output 1 pieces) console)
kprintf-pieces_example =
    kprintf-pieces answer pieces 20 100 board console board-IsStr pieces-AllWellFormed (omega arith)
      length-format

put_text-wire_example :
    Real 0x3f8 true (put_text answer (b'h' ∷ 10 ∷ []) console)
    × ((put_text answer (b'h' ∷ 10 ∷ []) console).sent ≡ wire true 0x3f8 (b'h' ∷ 10 ∷ []))
put_text-wire_example =
    put_text-wire answer (b'h' ∷ 10 ∷ []) 0x3f8 true console
      (record { base = refl; real = refl; returns = refl })
