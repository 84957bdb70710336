-- ===== src/Text/Pieces.antt =====
-- One piece of a format under `ksprintf` of kernel/memory/string.c.
use l_ost.Common.{
  length-append, ℕ, suc, ◌+◌, ◌-◌, ◌*◌, ◌^◌, ◌≤◌, ◌<◌, ◌≡◌, ◌≢◌, refl, sym, ◌∙◌, ◌⊎◌, inl, inr,
  true, false, Option, some, List, [], ◌∷◌, ◌++◌, arith, ltb, ◌==◌, Bool-cases, length, u8,
}
use mathlib.Core.Path.{subst}
use mathlib.Core.List.{append_assoc}
use l_ost.Text.{Bytes, text, ltostr}
use l_ost.Text.Spelling.{IsStr, IsStr-frame}
use l_ost.Text.Numbers.{length-ltostr}
use l_ost.Text.Sprintf.{
  Sprintf, is_case, append_letter, append_number, convert_case, sprintf_case, sprintf_from,
}
use l_ost.Text.Sheet.{Untouched, append-Sheet}
use l_ost.Text.Appends.{
  Placed, Page, grow-room, append_letter-Sheet, append_number-Sheet, append_string-Sheet,
}
use l_ost.Serial.Console.{numeral}
use l_ost.Serial.Printf.{
  Piece, literal, character, decimal, hexadecimal, octal, string, output_of, output, WellFormed,
}

-- The digits of a word are what `ltostr` prints.
ltostr-numeral :
    (number base : ℕ)
    → number < 2 ^ 32
    → 2 ≤ base
    → ltostr number base 0 ≡ some (text (numeral number base 0))
ltostr-numeral number base wide two =
    let (cs, run, lo, one, hi) = length-ltostr number base 0 wide two (omega arith) in
    let same : cs ≡ numeral number base 0 = rw (numeral, run) refl in
    subst (λ l. ltostr number base 0 ≡ some (text l)) same run

module _ (fuel scratch buffer minus final size : ℕ) (m0 : Bytes) where
  -- The `n` characters at `p` and the null byte behind them are not touched.
  abbrev pub Away : (p n : ℕ) → Type 0
  Away p n =
      ((p + n < final) ⊎ (final + size ≤ p))
      × ((p + n < scratch) ⊎ (scratch + 2 ≤ p))
      × ((p + n < buffer) ⊎ (buffer + 50 ≤ p))

  pub Away-Untouched :
      (p n a : ℕ)
      → Away p n
      → p ≤ a
      → a ≤ p + n
      → Untouched fuel scratch buffer minus final size m0 a
  Away-Untouched p n a (page, arrays, digits) lo hi = (
    elim page [ inl b ↦ inl (omega arith) | inr b ↦ inr (omega arith) ],
    elim arrays [ inl b ↦ inl (omega arith) | inr b ↦ inr (omega arith) ],
    elim digits [ inl b ↦ inl (omega arith) | inr b ↦ inr (omega arith) ],
  )

  -- A character is not the null byte, and a string is not touched.
  unfoldable pub Fits : Piece → Type 0
  Fits (literal c) = 0 ≤ 0
  Fits (character i) = u8 i ≢ 0
  Fits (decimal i) = 0 ≤ 0
  Fits (hexadecimal i) = 0 ≤ 0
  Fits (octal i) = 0 ≤ 0
  Fits (string p xs) = Away p (length xs)

  unfoldable pub AllFit : List Piece → Type 0
  AllFit [] = 0 ≤ 0
  AllFit (q ∷ qs) = Fits q × AllFit qs

  unfoldable pub Sound : Piece → Type 0
  Sound (literal c) = c ≢ 0
  Sound (character i) = 0 ≤ 0
  Sound (decimal i) = 0 ≤ 0
  Sound (hexadecimal i) = 0 ≤ 0
  Sound (octal i) = 0 ≤ 0
  Sound (string p xs) = 0 ≤ 0

  -- What the walk does with a piece.
  unfoldable pub step : Piece → Sprintf → Option Sprintf
  step (literal c) = append_letter fuel scratch buffer minus final c
  step (character i) = convert_case fuel scratch buffer minus final b'c' i
  step (decimal i) = convert_case fuel scratch buffer minus final b'd' i
  step (hexadecimal i) = convert_case fuel scratch buffer minus final b'x' i
  step (octal i) = convert_case fuel scratch buffer minus final b'o' i
  step (string p xs) = convert_case fuel scratch buffer minus final b's' p

  -- An untouched string is as it was.
  pub kept :
      (xs ys : List ℕ) (p : ℕ) (m : Bytes)
      → Page fuel scratch buffer minus final size m0 m xs
      → IsStr m0 p ys
      → Away p (length ys)
      → IsStr m p ys
  kept xs ys p m h written away =
      IsStr-frame ys p m0 m written
        (λ a lo hi. h.same a (Away-Untouched p (length ys) a away lo hi))

  -- A step that appends `ys`.
  unfoldable pub Appends : Piece → (xs ys : List ℕ) → Sprintf → Type 0
  Appends q xs ys s =
      (m' : Bytes) × (step q s ≡ some (record s { bytes = m' }))
      × Page fuel scratch buffer minus final size m0 m' (xs ++ ys)

  module _ (p : Placed scratch buffer final size) (enough : size ≤ fuel)
      (dash : IsStr m0 minus (b'-' ∷ [])) (dash_away : Away minus 1) where
    step-negative :
        (i : ℕ) (xs : List ℕ) (s : Sprintf)
        → Page fuel scratch buffer minus final size m0 s.bytes xs
        → size ≡ 4096 * s.pages
        → ltb i (2 ^ 31) ≡ false
        → i < 2 ^ 32
        → length xs + length (numeral (2 ^ 32 - i) 10 0) + 1 < size
        → Appends (decimal i) xs (b'-' ∷ numeral (2 ^ 32 - i) 10 0) s
    unfolding Appends step convert_case
    step-negative i xs s h whole negative wide room =
        let ys = numeral (2 ^ 32 - i) 10 0 in
        let (m1, run1, h1) =
          append-Sheet fuel scratch buffer minus final size m0 xs (b'-' ∷ []) minus s h
            (kept xs (b'-' ∷ []) minus s.bytes h dash dash_away) dash_away.0 (omega arith) enough in
        let size1 = length-append xs (b'-' ∷ []) in
        let (m', run, h') =
          append_number-Sheet fuel scratch buffer minus final size m0 (xs ++ b'-' ∷ []) ys
            (2 ^ 32 - i) 10 (record s { bytes = m1 }) h1 p (ground (arith, negative)) (omega arith)
            (ltostr-numeral (2 ^ 32 - i) 10 (ground (arith, negative)) (omega arith)) whole
            (omega (arith, size1, room)) enough in
        (
          m',
          rw (convert_case, negative, run1) run,
          subst (Page fuel scratch buffer minus final size m0 m') (append_assoc xs (b'-' ∷ []) ys)
              h',
        )

    step-number :
        (q : Piece) (i base : ℕ) (xs : List ℕ) (s : Sprintf)
        → Page fuel scratch buffer minus final size m0 s.bytes xs
        → size ≡ 4096 * s.pages
        → i < 2 ^ 32
        → 2 ≤ base
        → length xs + length (numeral i base 0) < size
        → step q s ≡ append_number fuel scratch buffer minus final i base s
        → Appends q xs (numeral i base 0) s
    unfolding Appends
    step-number q i base xs s h whole wide two room same =
        let (m', run, h') =
          append_number-Sheet fuel scratch buffer minus final size m0 xs (numeral i base 0) i base s
            h p wide two (ltostr-numeral i base wide two) whole room enough in
        (m', same ∙ run, h')

    pub step-Appends :
        (q : Piece) (xs : List ℕ) (s : Sprintf)
        → Page fuel scratch buffer minus final size m0 s.bytes xs
        → size ≡ 4096 * s.pages
        → WellFormed fuel m0 q
        → Fits q
        → Sound q
        → length xs + length (output_of 0 q) + 1 < size
        → Appends q xs (output_of 0 q) s
    unfolding Appends step convert_case Fits WellFormed output_of Sound
    step-Appends (literal c) xs s h whole wf fit some_char room =
        append_letter-Sheet fuel scratch buffer minus final size m0 xs c s h p some_char
          (omega arith) enough
    step-Appends (character i) xs s h whole wf fit some_char room =
        let (m', run, h') =
          append_letter-Sheet fuel scratch buffer minus final size m0 xs (u8 i) s h p fit
            (omega arith) enough in
        let stays =
          grow-room fuel scratch buffer minus final size m0 xs 1 s h (omega arith) enough in
        (m', rw (convert_case, stays) run, h')
    step-Appends (decimal i) xs s h whole wf fit some_char room =
        elim (Bool-cases (ltb i (2 ^ 31))) [
          | inl positive ↦
              let out : output_of 0 (decimal i) ≡ numeral i 10 0 = rw (output_of, positive) refl in
              let room' = subst (λ l. length xs + length l + 1 < size) out room in
              subst (λ l. Appends (decimal i) xs l s) (sym out)
                (step-number (decimal i) i 10 xs s h whole wf (omega arith) (omega (arith, room'))
                  (rw (convert_case, positive) refl))
          | inr negative ↦
              let out : output_of 0 (decimal i) ≡ b'-' ∷ numeral (2 ^ 32 - i) 10 0 =
                rw (output_of, negative) refl in
              let room' = subst (λ l. length xs + length l + 1 < size) out room in
              subst (λ l. Appends (decimal i) xs l s) (sym out)
                (step-negative i xs s h whole negative wf (omega (arith, room')))
        ]
    step-Appends (hexadecimal i) xs s h whole wf fit some_char room =
        step-number (hexadecimal i) i 16 xs s h whole wf (omega arith) (omega arith) refl
    step-Appends (octal i) xs s h whole wf fit some_char room =
        step-number (octal i) i 8 xs s h whole wf (omega arith) (omega arith) refl
    step-Appends (string str ys) xs s h whole wf fit some_char room =
        append_string-Sheet fuel scratch buffer minus final size m0 xs ys str s h
          (kept xs ys str s.bytes h wf.0 fit) fit.0 whole (omega arith) enough

    -- One step of the walk.
    pub sprintf_from-literal :
        (walk fmt c : ℕ) (args : List ℕ) (s s' : Sprintf)
        → s.bytes fmt ≡ c
        → c ≢ 0
        → c ≢ b'%'
        → append_letter fuel scratch buffer minus final c s ≡ some s'
        → sprintf_from fuel scratch buffer minus final (suc walk) fmt args s
          ≡ sprintf_from fuel scratch buffer minus final walk (fmt + 1) args s'
    unfolding sprintf_from
    sprintf_from-literal walk fmt c args s s' here more plain run =
        let nonzero : (s.bytes fmt == 0) ≡ false = ground arith in
        let other : (s.bytes fmt == b'%') ≡ false = ground arith in
        rw (sprintf_from, nonzero, other, here, run) refl

    pub sprintf_from-case :
        (walk fmt d i : ℕ) (args : List ℕ) (s s' : Sprintf)
        → s.bytes fmt ≡ b'%'
        → s.bytes (fmt + 1) ≡ d
        → is_case d ≡ true
        → convert_case fuel scratch buffer minus final d i s ≡ some s'
        → sprintf_from fuel scratch buffer minus final (suc walk) fmt (i ∷ args) s
          ≡ sprintf_from fuel scratch buffer minus final walk (fmt + 2) args s'
    unfolding sprintf_from sprintf_case
    sprintf_from-case walk fmt d i args s s' here letter takes run =
        let nonzero : (s.bytes fmt == 0) ≡ false = ground arith in
        let percent : (s.bytes fmt == b'%') ≡ true = ground arith in
        rw (sprintf_from, nonzero, percent, letter, sprintf_case, takes, run) refl

    -- The rest of the format behind a piece.
    unfoldable pub Finishes : (qs : List Piece) (walk fmt : ℕ) (args xs : List ℕ) → Sprintf → Type 0
    Finishes qs walk fmt args xs s =
        (m' : Bytes) × (sprintf_from fuel scratch buffer minus final walk fmt args s
          ≡ some (record s { bytes = m' }))
        × Page fuel scratch buffer minus final size m0 m' (xs ++ output 0 qs)

    pub Finishes-piece :
        (q : Piece) (qs : List Piece) (walk walk' fmt fmt' : ℕ) (args args' xs : List ℕ)
        (s : Sprintf) (m1 : Bytes)
        → sprintf_from fuel scratch buffer minus final walk fmt args s
          ≡ sprintf_from fuel scratch buffer minus final walk' fmt' args' (record s { bytes = m1 })
        → Finishes qs walk' fmt' args' (xs ++ output_of 0 q) (record s { bytes = m1 })
        → Finishes (q ∷ qs) walk fmt args xs s
    unfolding Finishes output
    Finishes-piece q qs walk walk' fmt fmt' args args' xs s m1 same (m', run, h) = (
      m',
      same ∙ run,
      subst (Page fuel scratch buffer minus final size m0 m')
          (append_assoc xs (output_of 0 q) (output 0 qs)) h,
    )
