-- ===== src/Serial/Console.antt =====
-- What `kputs`, `kputd` and `kputx` of kernel/drivers/serial.c send.
use l_ost.Common.{
  ℕ, zero, suc, ◌+◌, ◌^◌, ◌≤◌, ◌<◌, ◌≡◌, refl, ap, ◌∙◌, inl, inr, true, false, ◌&&◌, none, some,
  List, [], ◌∷◌, ◌++◌, arith, ◌==◌, Bool-cases, length,
}
use l_ost.Text.{Bytes, null, text, ltostr}
use l_ost.Text.Spelling.{IsStr}
use l_ost.Text.Numbers.{length-ltostr}
use l_ost.Serial.{Serial, outb, serial_write, kputc, kputs, put_text, put_number}

-- The digits of a number, as `ltostr` prints them.
abbrev pub numeral : (number base padding : ℕ) → List ℕ
numeral number base padding = elim (ltostr number base padding) [
  | none ↦ []
  | some p ↦ elim p [ null ↦ [] | text cs ↦ cs ]
]

module _ (call : ℕ → ℕ → ℕ) where
  pub put_text-append :
      (xs ys : List ℕ) (s : Serial)
      → put_text call (xs ++ ys) s ≡ put_text call ys (put_text call xs s)
  unfolding put_text
  put_text-append [] ys s = refl
  put_text-append (x ∷ xs) ys s = put_text-append xs ys (kputc call x s)

  pub kputs-put_text :
      (xs : List ℕ) (fuel p : ℕ) (m : Bytes) (s : Serial)
      → IsStr m p xs
      → length xs < fuel
      → kputs call fuel m p s ≡ some (put_text call xs s)
  unfolding kputs put_text
  kputs-put_text xs zero p m s h enough = absurd (omega arith)
  kputs-put_text [] (suc fuel) p m s h enough =
      let ended : (m p == 0) ≡ true = ground arith in rw ended refl
  kputs-put_text (x ∷ xs) (suc fuel) p m s h enough =
      let more : (m p == 0) ≡ false = ground (arith, h.0, h.1) in
      rw (more, h.0) (kputs-put_text xs fuel (p + 1) m (kputc call x s) h.2 (omega arith))

  put_number-text :
      (number base padding : ℕ) (cs : List ℕ) (s : Serial)
      → ltostr number base padding ≡ some (text cs)
      → put_number call number base padding s ≡ some (put_text call (numeral number base padding) s)
  unfolding put_number
  put_number-text number base padding cs s run =
      let printed : put_number call number base padding s ≡ some (put_text call cs s) =
        rw (run, put_number) refl in
      let digits : cs ≡ numeral number base padding = rw (numeral, run) refl in
      printed ∙ ap (λ ds. some (put_text call ds s)) digits

  pub put_number-numeral :
      (number base padding : ℕ) (s : Serial)
      → number < 2 ^ 32
      → 2 ≤ base
      → padding ≤ 49
      → put_number call number base padding s ≡ some (put_text call (numeral number base padding) s)
  put_number-numeral number base padding s wide hb hp =
      let (cs, run, lo, one, hi) = length-ltostr number base padding wide hb hp in
      put_number-text number base padding cs s run

  serial_write-padding :
      (port c : ℕ) (s : Serial) → (serial_write call port c s).padding ≡ s.padding
  unfolding serial_write outb
  serial_write-padding port c s = elim (Bool-cases (s.com_desc port).is_virtual) [
    | inl e ↦ rw e refl
    | inr e ↦ rw e refl
  ]

  pub kputc-padding : (c : ℕ) (s : Serial) → (kputc call c s).padding ≡ s.padding
  unfolding kputc
  kputc-padding c s = elim (Bool-cases (c == 8)) [
    | inl e ↦ elim (Bool-cases (c == 10 && s.auto_send_return)) [
      | inl f ↦ rw (e, f) (simp serial_write-padding)
      | inr f ↦ rw (e, f) (simp serial_write-padding)
    ]
    | inr e ↦ elim (Bool-cases (c == 10 && s.auto_send_return)) [
      | inl f ↦ rw (e, f) (simp serial_write-padding)
      | inr f ↦ rw (e, f) (simp serial_write-padding)
    ]
  ]

  pub put_text-padding : (xs : List ℕ) (s : Serial) → (put_text call xs s).padding ≡ s.padding
  unfolding put_text
  put_text-padding [] s = refl
  put_text-padding (x ∷ xs) s = put_text-padding xs (kputc call x s) ∙ kputc-padding x s
