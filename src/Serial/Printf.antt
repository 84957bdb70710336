-- ===== src/Serial/Printf.antt =====
-- `kprintf` of kernel/drivers/serial.c, against the pieces of a format.
use l_ost.Common.{
  ℕ, zero, suc, ◌+◌, ◌-◌, ◌^◌, ◌≤◌, ◌<◌, ◌≡◌, ◌≢◌, refl, sym, ap, ◌∙◌, inl, inr, true, false, some,
  List, [], ◌∷◌, ◌++◌, arith, ltb, ◌==◌, if◌then◌else◌, Bool-cases, length, u8,
}
use l_ost.Text.{Bytes}
use l_ost.Text.Spelling.{IsStr, IsStr-move}
use l_ost.Serial.{
  Serial, kputc, put_text, kputd, kputx, convert, takes_argument, directive, printf_from, kprintf,
}
use l_ost.Serial.Console.{
  numeral, put_text-append, kputs-put_text, put_number-numeral, kputc-padding, put_text-padding,
}

-- A part of a format, with the argument that it takes.
pub data Piece : Type 0 where
  literal : ℕ → Piece
  character : ℕ → Piece
  decimal : ℕ → Piece
  hexadecimal : ℕ → Piece
  octal : ℕ → Piece
  string : (address : ℕ) → List ℕ → Piece

-- A conversion with its letter and its argument, as opposed to a literal.
unfoldable pub spelled : Piece → List ℕ
spelled (literal c) = c ∷ []
spelled (character i) = b'%' ∷ b'c' ∷ []
spelled (decimal i) = b'%' ∷ b'd' ∷ []
spelled (hexadecimal i) = b'%' ∷ b'x' ∷ []
spelled (octal i) = b'%' ∷ b'o' ∷ []
spelled (string p xs) = b'%' ∷ b's' ∷ []

unfoldable pub format : List Piece → List ℕ
format [] = []
format (q ∷ qs) = spelled q ++ format qs

unfoldable pub arguments : List Piece → List ℕ
arguments [] = []
arguments (literal c ∷ qs) = arguments qs
arguments (character i ∷ qs) = i ∷ arguments qs
arguments (decimal i ∷ qs) = i ∷ arguments qs
arguments (hexadecimal i ∷ qs) = i ∷ arguments qs
arguments (octal i ∷ qs) = i ∷ arguments qs
arguments (string p xs ∷ qs) = p ∷ arguments qs

-- What a piece prints. A number is the pattern of an `int`.
unfoldable pub output_of : (padding : ℕ) → Piece → List ℕ
output_of padding (literal c) = c ∷ []
output_of padding (character i) = u8 i ∷ []
output_of padding (decimal i) =
    if ltb i (2 ^ 31) then numeral i 10 padding else b'-' ∷ numeral (2 ^ 32 - i) 10 padding
output_of padding (hexadecimal i) = numeral i 16 padding
output_of padding (octal i) = numeral i 8 0
output_of padding (string p xs) = xs

unfoldable pub output : (padding : ℕ) → List Piece → List ℕ
output padding [] = []
output padding (q ∷ qs) = output_of padding q ++ output padding qs

-- A literal is not `%`, a number is a word, and a string stands in memory within the fuel.
unfoldable pub WellFormed : (fuel : ℕ) → Bytes → Piece → Type 0
WellFormed fuel m (literal c) = c ≢ b'%'
WellFormed fuel m (character i) = i < 2 ^ 32
WellFormed fuel m (decimal i) = i < 2 ^ 32
WellFormed fuel m (hexadecimal i) = i < 2 ^ 32
WellFormed fuel m (octal i) = i < 2 ^ 32
WellFormed fuel m (string p xs) = IsStr m p xs × (length xs < fuel)

unfoldable pub AllWellFormed : (fuel : ℕ) → Bytes → List Piece → Type 0
AllWellFormed fuel m [] = fuel ≡ fuel
AllWellFormed fuel m (q ∷ qs) = WellFormed fuel m q × AllWellFormed fuel m qs

module _ (call : ℕ → ℕ → ℕ) where
  kputd-decimal :
      (i : ℕ) (s : Serial)
      → i ≤ 2 ^ 31
      → s.padding ≤ 49
      → kputd call i s ≡ some (put_text call (numeral i 10 s.padding) s)
  unfolding kputd
  kputd-decimal i s hi hp = elim (Bool-cases (ltb i (2 ^ 31))) [
    | inl e ↦ rw e (put_number-numeral call i 10 s.padding s (omega arith) (omega arith) hp)
    | inr e ↦
        let same : 2 ^ 32 - i ≡ i = ground arith in
        rw (e, same) (put_number-numeral call i 10 s.padding s (omega arith) (omega arith) hp)
  ]

  convert-decimal :
      (fuel i : ℕ) (m : Bytes) (s : Serial)
      → i < 2 ^ 32
      → s.padding ≤ 49
      → convert call fuel m b'd' i s ≡ some (put_text call (output_of s.padding (decimal i)) s)
  unfolding convert output_of put_text
  convert-decimal fuel i m s wide hp = elim (Bool-cases (ltb i (2 ^ 31))) [
    | inl e ↦ rw e (kputd-decimal i s (ground arith) hp)
    | inr e ↦
        let kept = kputc-padding call b'-' s in
        let printed = kputd-decimal (2 ^ 32 - i) (kputc call b'-' s) (ground arith) (rw kept hp) in
        rw e (
          printed
          ∙ ap (λ p. some (put_text call (numeral (2 ^ 32 - i) 10 p) (kputc call b'-' s))) kept)
  ]

  -- One step of the walk at each kind of byte.
  printf_from-literal :
      (walk fuel fmt c : ℕ) (m : Bytes) (args : List ℕ) (s : Serial)
      → m fmt ≡ c
      → c ≢ 0
      → c ≢ b'%'
      → printf_from call (suc walk) fuel m fmt args s
        ≡ printf_from call walk fuel m (fmt + 1) args (kputc call c s)
  unfolding printf_from
  printf_from-literal walk fuel fmt c m args s here more plain =
      let nonzero : (m fmt == 0) ≡ false = ground arith in
      let other : (m fmt == b'%') ≡ false = ground arith in
      rw (printf_from, nonzero, other, here) refl

  printf_from-conversion :
      (walk fuel fmt d i : ℕ) (m : Bytes) (args : List ℕ) (s s' : Serial)
      → m fmt ≡ b'%'
      → m (fmt + 1) ≡ d
      → takes_argument d ≡ true
      → convert call fuel m d i s ≡ some s'
      → printf_from call (suc walk) fuel m fmt (i ∷ args) s
        ≡ printf_from call walk fuel m (fmt + 2) args s'
  unfolding printf_from directive
  printf_from-conversion walk fuel fmt d i m args s s' here letter takes run =
      let nonzero : (m fmt == 0) ≡ false = ground arith in
      let percent : (m fmt == b'%') ≡ true = ground arith in
      rw (printf_from, nonzero, percent, letter, directive, takes, run) refl

  printf_from-end :
      (walk fuel fmt : ℕ) (m : Bytes) (args : List ℕ) (s : Serial)
      → m fmt ≡ 0
      → printf_from call (suc walk) fuel m fmt args s ≡ some s
  unfolding printf_from
  printf_from-end walk fuel fmt m args s ended =
      let zeroth : (m fmt == 0) ≡ true = ground arith in rw (printf_from, zeroth) refl

  -- The pieces behind `q`, printed behind it.
  put_text-pieces :
      (q : Piece) (qs : List Piece) (s : Serial)
      → put_text call
          (output (put_text call (output_of s.padding q) s).padding qs)
          (put_text call (output_of s.padding q) s)
        ≡ put_text call (output s.padding (q ∷ qs)) s
  unfolding output
  put_text-pieces q qs s =
      ap (λ p. put_text call (output p qs) (put_text call (output_of s.padding q) s))
        (put_text-padding call (output_of s.padding q) s)
      ∙ sym (put_text-append call (output_of s.padding q) (output s.padding qs) s)

  printf_from-piece :
      (walk fuel fmt d i : ℕ) (m : Bytes) (q : Piece) (qs : List Piece) (args : List ℕ) (s : Serial)
      → m fmt ≡ b'%'
      → m (fmt + 1) ≡ d
      → takes_argument d ≡ true
      → convert call fuel m d i s ≡ some (put_text call (output_of s.padding q) s)
      → printf_from call walk fuel m (fmt + 2) args (put_text call (output_of s.padding q) s)
        ≡ some (
            put_text call
              (output (put_text call (output_of s.padding q) s).padding qs)
              (put_text call (output_of s.padding q) s))
      → printf_from call (suc walk) fuel m fmt (i ∷ args) s
        ≡ some (put_text call (output s.padding (q ∷ qs)) s)
  printf_from-piece walk fuel fmt d i m q qs args s here letter takes run rest =
      printf_from-conversion walk fuel fmt d i m args s (put_text call (output_of s.padding q) s)
        here letter takes run
      ∙ rest
      ∙ ap (λ s'. some s') (put_text-pieces q qs s)

  printf_from-pieces :
      (qs : List Piece) (walk fuel fmt : ℕ) (m : Bytes) (s : Serial)
      → IsStr m fmt (format qs)
      → AllWellFormed fuel m qs
      → s.padding ≤ 49
      → length (format qs) < walk
      → printf_from call walk fuel m fmt (arguments qs) s
        ≡ some (put_text call (output s.padding qs) s)
  unfolding format arguments AllWellFormed WellFormed spelled takes_argument convert output_of
      put_text kputx output
  printf_from-pieces qs zero fuel fmt m s h wf hp enough = absurd (omega arith)
  printf_from-pieces [] (suc walk) fuel fmt m s h wf hp enough =
      printf_from-end walk fuel fmt m [] s h
  printf_from-pieces (literal c ∷ qs) (suc walk) fuel fmt m s h wf hp enough =
      printf_from-literal walk fuel fmt c m (arguments qs) s h.0 h.1 wf.0
      ∙ printf_from-pieces qs walk fuel (fmt + 1) m (kputc call c s) h.2 wf.1
          (rw (kputc-padding call c s) hp) (omega arith)
      ∙ ap (λ s'. some s') (put_text-pieces (literal c) qs s)
  printf_from-pieces (character i ∷ qs) (suc walk) fuel fmt m s h wf hp enough =
      printf_from-piece walk fuel fmt b'c' i m (character i) qs (arguments qs) s h.0 h.2.0 refl
        (refl)
        (printf_from-pieces qs walk fuel (fmt + 2) m
          (put_text call (output_of s.padding (character i)) s)
          (IsStr-move m (format qs) (fmt + 1 + 1) (fmt + 2) (omega arith) h.2.2) wf.1
          (rw (put_text-padding call (output_of s.padding (character i)) s) hp) (omega arith))
  printf_from-pieces (decimal i ∷ qs) (suc walk) fuel fmt m s h wf hp enough =
      printf_from-piece walk fuel fmt b'd' i m (decimal i) qs (arguments qs) s h.0 h.2.0 refl
        (convert-decimal fuel i m s wf.0 hp)
        (printf_from-pieces qs walk fuel (fmt + 2) m
          (put_text call (output_of s.padding (decimal i)) s)
          (IsStr-move m (format qs) (fmt + 1 + 1) (fmt + 2) (omega arith) h.2.2) wf.1
          (rw (put_text-padding call (output_of s.padding (decimal i)) s) hp) (omega arith))
  printf_from-pieces (hexadecimal i ∷ qs) (suc walk) fuel fmt m s h wf hp enough =
      printf_from-piece walk fuel fmt b'x' i m (hexadecimal i) qs (arguments qs) s h.0 h.2.0 refl
        (put_number-numeral call i 16 s.padding s wf.0 (omega arith) hp)
        (printf_from-pieces qs walk fuel (fmt + 2) m
          (put_text call (output_of s.padding (hexadecimal i)) s)
          (IsStr-move m (format qs) (fmt + 1 + 1) (fmt + 2) (omega arith) h.2.2) wf.1
          (rw (put_text-padding call (output_of s.padding (hexadecimal i)) s) hp) (omega arith))
  printf_from-pieces (octal i ∷ qs) (suc walk) fuel fmt m s h wf hp enough =
      printf_from-piece walk fuel fmt b'o' i m (octal i) qs (arguments qs) s h.0 h.2.0 refl
        (put_number-numeral call i 8 0 s wf.0 (omega arith) (omega arith))
        (printf_from-pieces qs walk fuel (fmt + 2) m
          (put_text call (output_of s.padding (octal i)) s)
          (IsStr-move m (format qs) (fmt + 1 + 1) (fmt + 2) (omega arith) h.2.2) wf.1
          (rw (put_text-padding call (output_of s.padding (octal i)) s) hp) (omega arith))
  printf_from-pieces (string p xs ∷ qs) (suc walk) fuel fmt m s h wf hp enough =
      printf_from-piece walk fuel fmt b's' p m (string p xs) qs (arguments qs) s h.0 h.2.0 refl
        (kputs-put_text call xs fuel p m s wf.0.0 wf.0.1)
        (printf_from-pieces qs walk fuel (fmt + 2) m
          (put_text call (output_of s.padding (string p xs)) s)
          (IsStr-move m (format qs) (fmt + 1 + 1) (fmt + 2) (omega arith) h.2.2) wf.1
          (rw (put_text-padding call (output_of s.padding (string p xs)) s) hp) (omega arith))

  -- kprintf of a format of literals and conversions, with the arguments that it takes, comes back
  -- and sends to kputc exactly the literals, characters, digits and strings in their order, a
  -- minus before a negative decimal; for a padding of at most 49, and with fuel for the format
  -- and for each string.
  pub kprintf-pieces :
      (qs : List Piece) (fuel fmt : ℕ) (m : Bytes) (s : Serial)
      → IsStr m fmt (format qs)
      → AllWellFormed fuel m qs
      → s.padding ≤ 49
      → length (format qs) < fuel
      → kprintf call fuel m fmt (arguments qs) s ≡ some (put_text call (output s.padding qs) s)
  unfolding kprintf
  kprintf-pieces qs fuel fmt m s h wf hp enough =
      printf_from-pieces qs fuel fuel fmt m s h wf hp enough
