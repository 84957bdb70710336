-- ===== src/Text/Sheet.antt =====
-- The page that `ksprintf` of kernel/memory/string.c fills, and what its steps append.
use l_ost.Common.{
  length-append, ℕ, zero, suc, ◌+◌, ◌-◌, ◌/◌, ◌%◌, ◌^◌, ◌≤◌, ◌<◌, ◌≡◌, ◌≢◌, refl, ◌∙◌, ◌⊎◌, inl,
  inr, ◌&&◌, none, some, List, [], ◌∷◌, ◌++◌, arith, ◌==◌, Bool-cases, Option-cases, length,
}
use mathlib.Core.Path.{subst}
use mathlib.Core.List.{append-nil}
use l_ost.Text.{Bytes, store, text, digit, ltostr_from, ltostr}
use l_ost.Text.Spelling.{IsStr, IsStr-frame}
use l_ost.Text.Concat.{kstrcat-append}
use l_ost.Text.Numbers.{length-ltostr}
use l_ost.Text.Sprintf.{Sprintf, lodge, ltostr_at, append}

-- No null byte.
abbrev pub Nonzero : List ℕ → Type 0
Nonzero [] = 0 ≤ 0
Nonzero (c ∷ cs) = (c ≢ 0) × Nonzero cs

digit-nonzero : (d : ℕ) → digit d ≢ 0
unfolding digit
digit-nonzero d e = ground arith

ltostr_from-Nonzero :
    (fuel base number padding : ℕ) (acc cs : List ℕ)
    → Nonzero acc
    → ltostr_from fuel base number padding acc ≡ some cs
    → Nonzero cs
unfolding ltostr_from
ltostr_from-Nonzero zero base number padding acc cs h run = absurd (ground (arith, run))
ltostr_from-Nonzero (suc fuel) base number padding acc cs h run =
    let acc' = digit (number % base) ∷ acc in
    let h' : Nonzero acc' = (digit-nonzero (number % base), h) in
    elim (Bool-cases (base == 0)) [
      | inl zeroth ↦
          let never : none ≡ some cs = rw (ltostr_from, zeroth) at run in
          absurd (ground (arith, never))
      | inr nonzero ↦ elim (Bool-cases (number / base == 0 && padding - 1 == 0)) [
        | inl done ↦
            let same : some acc' ≡ some cs = rw (ltostr_from, nonzero, done) at run in
            let equal : acc' ≡ cs = ground (arith, same) in subst Nonzero equal h'
        | inr more ↦
            ltostr_from-Nonzero fuel base (number / base) (padding - 1) acc' cs h'
              (rw (ltostr_from, nonzero, more) at run)
      ]
    ]

lodge-outside :
    (cs : List ℕ) (ret a : ℕ) (m : Bytes)
    → (a < ret) ⊎ (ret + length cs < a)
    → lodge ret cs m a ≡ m a
unfolding lodge
lodge-outside [] ret a m (inl lt) = ground arith
lodge-outside [] ret a m (inr gt) = ground arith
lodge-outside (c ∷ cs) ret a m (inl lt) =
    lodge-outside cs (ret + 1) a (store m ret c) (inl (omega arith)) ∙ ground arith
lodge-outside (c ∷ cs) ret a m (inr gt) =
    lodge-outside cs (ret + 1) a (store m ret c) (inr (omega arith)) ∙ ground arith

lodge-IsStr : (cs : List ℕ) (ret : ℕ) (m : Bytes) → Nonzero cs → IsStr (lodge ret cs m) ret cs
unfolding lodge
lodge-IsStr [] ret m h = ground arith
lodge-IsStr (c ∷ cs) ret m h = (
  lodge-outside cs (ret + 1) ret (store m ret c) (inl (omega arith)) ∙ ground arith,
  h.0,
  lodge-IsStr cs (ret + 1) (store m ret c) h.1,
)

ltostr-Nonzero :
    (number base padding : ℕ) (cs : List ℕ)
    → ltostr number base padding ≡ some (text cs)
    → Nonzero cs
unfolding ltostr
ltostr-Nonzero number base padding cs printed =
    let n = number + padding + 1 in
    elim (Bool-cases (base == 1)) [
      | inl one ↦ absurd (ground (arith, printed))
      | inr other ↦ elim (Option-cases (ltostr_from n base number padding [])) [
        | inl fails ↦ absurd (ground (arith, printed))
        | inr (digits, run) ↦
            let same : digits ≡ cs = ground (arith, printed) in
            subst Nonzero same
              (ltostr_from-Nonzero n base number padding [] digits (omega arith) run)
      ]
    ]

-- `ltostr` of a word: its text stands in the buffer, and no other byte is written.
pub ltostr_at-text :
    (buffer number base : ℕ) (cs : List ℕ) (m : Bytes)
    → number < 2 ^ 32
    → 2 ≤ base
    → ltostr number base 0 ≡ some (text cs)
    → (ret : ℕ) × (m' : Bytes) × (ltostr_at buffer number base m ≡ some (ret, m'))
      × IsStr m' ret cs
      × (buffer ≤ ret)
      × (ret + length cs < buffer + 50)
      × ((a : ℕ) → (a < buffer) ⊎ (buffer + 50 ≤ a) → m' a ≡ m a)
unfolding ltostr_at
ltostr_at-text buffer number base cs m wide two printed =
    let (cs', run, lo, one, hi) = length-ltostr number base 0 wide two (omega arith) in
    let same : cs' ≡ cs = ground (arith, run, printed) in
    let size : length cs ≤ 49 = subst (λ l. length l ≤ 49) same hi in
    let ret = buffer + 49 - length cs in
    (
      ret,
      lodge ret cs m,
      rw (ltostr_at, printed) refl,
      lodge-IsStr cs ret m (ltostr-Nonzero number base 0 cs printed),
      omega (arith, size),
      omega (arith, size),
      λ a out. lodge-outside cs ret a m (elim out [
        | inl before ↦ inl (omega (arith, size))
        | inr behind ↦ inr (omega (arith, size))
      ]),
    )

module _ (fuel scratch buffer minus final size : ℕ) (m0 : Bytes) where
  -- Not in the page, nor in the two bytes of the local arrays, nor in the buffer of `ltostr`.
  abbrev pub Untouched : ℕ → Type 0
  Untouched a =
      ((a < final) ⊎ (final + size ≤ a))
      × ((a < scratch) ⊎ (scratch + 2 ≤ a))
      × ((a < buffer) ⊎ (buffer + 50 ≤ a))

  -- The page holds `xs` and null bytes behind it, and what is not touched is as in `m0`.
  pub record Sheet (m : Bytes) (xs : List ℕ) : Type 0 where
    pub spelled : IsStr m final xs
    pub blank : (a : ℕ) → final + length xs ≤ a → a < final + size → m a ≡ 0
    pub short : length xs < size
    pub same : (a : ℕ) → Untouched a → m a ≡ m0 a

  -- A write elsewhere.
  pub Sheet-frame :
      (xs : List ℕ) (m m' : Bytes)
      → Sheet m xs
      → ((a : ℕ) → final ≤ a → a < final + size → m' a ≡ m a)
      → ((a : ℕ) → Untouched a → m' a ≡ m a)
      → Sheet m' xs
  Sheet-frame xs m m' h page other =
      let short = h.short in
      record {
        spelled = IsStr-frame xs final m m' h.spelled (λ a lo hi. page a lo (omega arith));
        blank = λ a lo hi. page a (omega arith) hi ∙ h.blank a lo hi;
        short = short;
        same = λ a out. other a out ∙ h.same a out;
      }

  pub append-Sheet :
      (xs ys : List ℕ) (second : ℕ) (s : Sprintf)
      → Sheet s.bytes xs
      → IsStr s.bytes second ys
      → (second + length ys < final) ⊎ (final + size ≤ second)
      → length xs + length ys < size
      → size ≤ fuel
      → (m' : Bytes) × (append fuel scratch buffer minus final second s
          ≡ some (record s { bytes = m' }))
        × Sheet m' (xs ++ ys)
  unfolding append
  append-Sheet xs ys second s h written apart room enough =
      let m = s.bytes in
      let (m', run, (spelled, same)) =
        kstrcat-append xs ys [] fuel final final second m h.spelled written
          (h.blank (final + length xs + length ys) (omega arith) (omega arith)) (inl (omega arith))
          (elim apart [ inl before ↦ inr before | inr behind ↦ inl (omega arith) ]) (omega arith) in
      let total = length-append xs ys in
      (
        m',
        rw (append, run) refl,
        record {
          spelled = subst (λ l. IsStr m' final (xs ++ l)) (append-nil ys) spelled;
          blank = λ a lo hi.
              same a (inr (omega (arith, total, lo))) ∙ h.blank a (omega (arith, total, lo)) hi;
          short = omega (arith, total, room);
          same = λ a out.
              same a (elim out.0 [
                | inl before ↦ inl before
                | inr behind ↦ inr (omega (arith, behind, room))
              ])
              ∙ h.same a out;
        },
      )
