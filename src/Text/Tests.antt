-- ===== src/Text/Tests.antt =====
-- The string routines at concrete memories.
use l_ost.Common.{
  ℕ, ◌+◌, ◌-◌, ◌^◌, ◌<◌, ◌≡◌, refl, inl, true, false, some, List, [], ◌∷◌, arith, ltb, ◌==◌,
  if◌then◌else◌, length,
}
use l_ost.Memory.{
  Memory, withheld_entry, available_entry, kmalloc, allocate, find_pages, stops_at, check_free,
  check_free_from, mark_from,
}
use l_ost.Text.Sprintf.{ksprintf}
use l_ost.Text.Pieces.{Away, Fits, AllFit}
use l_ost.Text.Formats.{ksprintf-kprintf}
use l_ost.Serial.{Serial, put_text, kprintf}
use l_ost.Serial.Printf.{
  Piece, literal, decimal, string, format, spelled, arguments, output, output_of, WellFormed,
  AllWellFormed,
}
use l_ost.Text.{Bytes, text, kstrlen, ltostr, ltostr_from, digit, kstrtol, kstrcat, kstrtok}
use l_ost.Text.Spelling.{IsStr, kstrlen-length}
use l_ost.Text.Numbers.{kstrtol-ltostr}
use l_ost.Text.Concat.{Joined, kstrcat-append}
use l_ost.Text.Tokens.{kstrtok-token}

-- "/a/b" at 16, "/" at 32, "42" at 48, zeros elsewhere.
abbrev memory : Bytes
memory a =
    if a == 16
    then b'/'
    else if a == 17
    then b'a'
    else if a == 18
    then b'/'
    else if a == 19
    then b'b'
    else if a == 32
    then b'/'
    else if a == 48
    then b'4'
    else if a == 49
    then b'2'
    else 0

abbrev path : List ℕ
path = b'/' ∷ b'a' ∷ b'/' ∷ b'b' ∷ []

abbrev slash : List ℕ
slash = b'/' ∷ []

abbrev forty_two : List ℕ
forty_two = b'4' ∷ b'2' ∷ []

path-IsStr : IsStr memory 16 path
path-IsStr =
    (refl, omega arith, (refl, omega arith, (refl, omega arith, (refl, omega arith, refl))))

slash-IsStr : IsStr memory 32 slash
slash-IsStr = (refl, omega arith, refl)

forty_two-IsStr : IsStr memory 48 forty_two
forty_two-IsStr = (refl, omega arith, (refl, omega arith, refl))

ltostr_hex :
    ltostr 0x55aa 16 8 ≡ some (text (b'0' ∷ b'0' ∷ b'0' ∷ b'0' ∷ b'5' ∷ b'5' ∷ b'A' ∷ b'A' ∷ []))
unfolding ltostr ltostr_from digit
ltostr_hex = refl

ltostr_42 : ltostr 42 10 0 ≡ some (text forty_two)
unfolding ltostr ltostr_from digit
ltostr_42 = refl

kstrlen-length_example : kstrlen 9 memory 16 ≡ some 4
kstrlen-length_example = kstrlen-length path 9 16 memory path-IsStr (omega arith)

kstrtol-ltostr_example :
    (cs : List ℕ) × (ltostr 42 10 0 ≡ some (text cs))
    × ((fuel str : ℕ) (m : Bytes)
        → IsStr m str cs
        → length cs < fuel
        → kstrtol fuel m str ≡ some 42)
kstrtol-ltostr_example = kstrtol-ltostr 42 0 (omega arith) (omega arith)

kstrtol_42 : kstrtol 9 memory 48 ≡ some 42
unfolding kstrtol l_ost.Text.strtol_from l_ost.Text.strtol_step l_ost.Common.promote
kstrtol_42 = refl

-- In place, with a zeroed byte behind: `first` is `dest`.
kstrcat-append_example :
    (m' : Bytes) × (kstrcat 20 16 16 48 memory ≡ some m') × Joined path forty_two [] 16 memory m'
kstrcat-append_example =
    kstrcat-append path forty_two [] 20 16 16 48 memory path-IsStr forty_two-IsStr refl
      (inl (omega arith)) (inl (omega arith)) (omega arith)

kstrtok-token_example :
    (m' : Bytes) × (static' : ℕ) × (kstrtok 9 16 32 0 memory ≡ some (16 + 1, static', m'))
    × IsStr m' (16 + 1) (b'a' ∷ [])
    × IsStr m' static' (b'b' ∷ [])
    × ((a : ℕ) → a < 16 + 1 → m' a ≡ memory a)
kstrtok-token_example =
    kstrtok-token slash slash b'a' [] (b'/' ∷ b'b' ∷ []) 9 16 32 0 16 memory (inl refl, omega arith)
      slash-IsStr path-IsStr (refl, tt) (refl, tt) refl (omega arith) (omega arith) (omega arith)

-- "%d %s" at 100, "ok" at 200 and "-" at 300.
abbrev formats : Bytes
formats a =
    if a == 100
    then b'%'
    else if a == 101
    then b'd'
    else if a == 102
    then b' '
    else if a == 103
    then b'%'
    else if a == 104
    then b's'
    else if a == 200
    then b'o'
    else if a == 201
    then b'k'
    else if a == 300
    then b'-'
    else 0

-- Minus 42, and "ok".
abbrev pieces : List Piece
pieces = decimal (2 ^ 32 - 42) ∷ literal b' ' ∷ string 200 (b'o' ∷ b'k' ∷ []) ∷ []

abbrev available : Memory
available = record {
  max_address = 0x104000;
  total_usable = 0;
  page_table_size = 260;
  page_table = λ k. if ltb k 257 then withheld_entry else available_entry;
}

abbrev console : Serial
console = record {
  com_base = λ i. 0x3f8;
  com_desc = λ i. record {
    listeners = λ j. 0;
    listener_data_buffer = λ j k. 0;
    listner_data_index = λ j. 0;
    listner_keys = λ j. 0;
    is_virtual = false;
  };
  padding = 0;
  auto_send_return = true;
  sent = [];
}

page_given : kmalloc 1 6 available ≡ (0x101000, (kmalloc 1 6 available).1)
unfolding kmalloc allocate find_pages stops_at check_free check_free_from mark_from
page_given = refl

formats-IsStr : IsStr formats 100 (format pieces)
unfolding format spelled
formats-IsStr = (
  refl,
  omega arith,
  (refl, omega arith, (refl, omega arith, (refl, omega arith, (refl, omega arith, refl)))),
)

pieces-AllWellFormed : AllWellFormed 5000 formats pieces
unfolding AllWellFormed WellFormed
pieces-AllWellFormed = (
  omega arith,
  (omega arith, (((refl, omega arith, (refl, omega arith, refl)), omega arith), refl)),
)

pieces-AllFit : AllFit 5000 6000 7000 300 0x101000 4096 formats pieces
unfolding AllFit Fits
pieces-AllFit = (
  omega arith,
  (omega arith, ((inl (omega arith), inl (omega arith), inl (omega arith)), omega arith)),
)

minus_42-output : output 0 pieces ≡ b'-' ∷ b'4' ∷ b'2' ∷ b' ' ∷ b'o' ∷ b'k' ∷ []
unfolding output output_of ltostr ltostr_from digit
minus_42-output = refl

format-Away : Away 5000 6000 7000 300 0x101000 4096 formats 100 (length (format pieces))
unfolding format spelled
format-Away = (inl (omega arith), inl (omega arith), inl (omega arith))

ksprintf-kprintf_example :
    (m' : Bytes) × (ksprintf 5000 6000 7000 300 100 (arguments pieces) available formats
      ≡ some (0x101000, record { memory = (kmalloc 1 6 available).1; bytes = m'; pages = 1 }))
    × IsStr m' 0x101000 (output 0 pieces)
    × (kprintf (λ f a. 0) 5000 formats 100 (arguments pieces) console
        ≡ some (put_text (λ f a. 0) (output 0 pieces) console))
unfolding format spelled
ksprintf-kprintf_example =
    ksprintf-kprintf (λ f a. 0) pieces 5000 6000 7000 300 100 0x101000 available
      (kmalloc 1 6 available).1 formats console page_given (λ a lo hi. ground (arith, lo))
      (record { scratch_apart = inl (omega arith); buffer_apart = inl (omega arith) })
      (refl, omega arith, refl) (inl (omega arith), inl (omega arith), inl (omega arith))
      formats-IsStr format-Away pieces-AllWellFormed pieces-AllFit
      (rw minus_42-output (omega arith)) (omega arith) refl
