-- ===== src/Text/Numbers.antt =====
-- `ltostr` and `kstrtol`.
use l_ost.Common.{
  ltb, promote, ℕ, zero, suc, ◌+◌, ◌-◌, ◌*◌, ◌/◌, ◌%◌, ◌^◌, ◌≤◌, ◌<◌, ◌≡◌, sym, ap, ◌∙◌, inl, inr,
  false, ◌&&◌, some, List, [], ◌∷◌, arith, ◌==◌, Bool-cases, length,
}
use native.Mathlib.Nat.{div-lt_iff_lt-mul, div-mul-le_self, pow-suc}
use l_ost.Text.{Bytes, text, digit, ltostr_from, ltostr, strtol_step, strtol_from, kstrtol}
use l_ost.Text.Spelling.{IsStr}

-- The number that `kstrtol` reads from a list of characters, from `ret` on.
pub value_from : ℕ → List ℕ → ℕ
value_from ret [] = ret
value_from ret (c ∷ cs) = value_from (strtol_step ret c) cs

strtol_from-value_from :
    (cs : List ℕ) (fuel str ret : ℕ) (m : Bytes)
    → IsStr m str cs
    → length cs < fuel
    → strtol_from fuel m str ret ≡ some (value_from ret cs)
unfolding strtol_from value_from
strtol_from-value_from cs zero str ret m h enough = absurd (omega arith)
strtol_from-value_from [] (suc fuel) str ret m h enough = ground arith
strtol_from-value_from (c ∷ cs) (suc fuel) str ret m h enough =
    let nonzero : (m str == 0) ≡ false = ground (arith, h.0, h.1) in
    rw (nonzero, h.0)
      (strtol_from-value_from cs fuel (str + 1) (strtol_step ret c) m h.2 (omega arith))

-- Reading one decimal digit takes `n / 10` to `n`.
strtol_step-digit : (n : ℕ) → n < 2 ^ 32 → strtol_step (n / 10) (digit (n % 10)) ≡ n
unfolding strtol_step digit promote
strtol_step-digit n h = ground arith

-- The loop in base ten prefixes what it has by the digits of its number, which read as that number.
ltostr_from-value_from :
    (fuel n p : ℕ) (acc : List ℕ)
    → n < 2 ^ 32
    → n + p < fuel
    → (cs : List ℕ) × (ltostr_from fuel 10 n p acc ≡ some cs) × (value_from 0 cs ≡ value_from n acc)
unfolding ltostr_from value_from
ltostr_from-value_from zero n p acc wide enough = absurd (omega arith)
ltostr_from-value_from (suc fuel) n p acc wide enough =
    elim (Bool-cases (n / 10 == 0 && p - 1 == 0)) [
      | inl done ↦
          let small : n / 10 ≡ 0 = ground arith in
          let read : strtol_step 0 (digit (n % 10)) ≡ n =
            ap (λ r. strtol_step r (digit (n % 10))) (sym small) ∙ strtol_step-digit n wide in
          (digit (n % 10) ∷ acc, rw done, ap (λ r. value_from r acc) read)
      | inr more ↦
          let less : n / 10 + (p - 1) < fuel = ground arith in
          let (cs, run, means) =
            ltostr_from-value_from fuel (n / 10) (p - 1) (digit (n % 10) ∷ acc) (omega arith)
              less in
          (cs, rw more run, means ∙ ap (λ r. value_from r acc) (strtol_step-digit n wide))
    ]

quotient-le : (n base : ℕ) → 2 ≤ base → n / base + n / base ≤ n
quotient-le n base h = twice (n / base) (div-mul-le_self n base)
  where
    twice : (q : ℕ) → q * base ≤ n → q + q ≤ n
    twice q le = grind arith

pub half_lt : (n base k : ℕ) → 2 ≤ base → n < 2 ^ suc k → n / base < 2 ^ k
half_lt n base k h lt =
    (div-lt_iff_lt-mul {k = base} (omega arith)).1 (double (2 ^ k) (omega (arith, lt, pow-suc 2 k)))
  where
    double : (t : ℕ) → n < t * 2 → n < t * base
    double t small = grind arith

-- The loop ends, and writes at least one digit, at least `p` and at most `k`, where `k` bounds both
-- the padding and the binary digits of the number.
ltostr_from-length :
    (fuel base k n p : ℕ) (acc : List ℕ)
    → 2 ≤ base
    → n < 2 ^ suc k
    → p ≤ suc k
    → n + p < fuel
    → (cs : List ℕ) × (ltostr_from fuel base n p acc ≡ some cs)
      × (p + length acc ≤ length cs)
      × (1 + length acc ≤ length cs)
      × (length cs ≤ suc k + length acc)
unfolding ltostr_from
ltostr_from-length zero base k n p acc hb wide hp enough = absurd (omega arith)
ltostr_from-length (suc fuel) base zero n p acc hb wide hp enough =
    let none_left : n / base ≡ 0 = omega (arith, half_lt n base 0 hb wide) in
    (digit (n % base) ∷ acc, ground arith, omega arith, omega arith, omega arith)
ltostr_from-length (suc fuel) base (suc k) n p acc hb wide hp enough =
    let nonzero : (base == 0) ≡ false = ground arith in
    elim (Bool-cases (n / base == 0 && p - 1 == 0)) [
      | inl done ↦
          (digit (n % base) ∷ acc, rw (nonzero, done), ground arith, omega arith, omega arith)
      | inr more ↦
          let less : n / base + (p - 1) < fuel = ground (arith, quotient-le n base hb) in
          let (cs, run, lo, one, hi) =
            ltostr_from-length fuel base k (n / base) (p - 1) (digit (n % base) ∷ acc) hb
              (half_lt n base (suc k) hb wide) (omega arith) less in
          (cs, rw (nonzero, more) run, omega arith, omega arith, omega arith)
    ]

-- In any base from 2 on and with a padding of at most 49, `ltostr` of an `unsigned int` comes back
-- with a string of at least one and at least `padding_count` digits, and of at most 49: it and its
-- null byte fit in the buffer of 50 bytes.
pub length-ltostr :
    (number base padding_count : ℕ)
    → number < 2 ^ 32
    → 2 ≤ base
    → padding_count ≤ 49
    → (cs : List ℕ) × (ltostr number base padding_count ≡ some (text cs))
      × (padding_count ≤ length cs)
      × (1 ≤ length cs)
      × (length cs ≤ 49)
unfolding ltostr
length-ltostr n base p wide hb hp =
    let (cs, run, lo, one, hi) =
      ltostr_from-length (n + p + 1) base 48 n p [] hb (omega arith) (omega arith) (omega arith) in
    let inside : ltb 49 (length cs) ≡ false = ground (arith, hi) in
    (cs, ground (arith, run, inside), omega arith, omega arith, omega arith)

-- `kstrtol` of what `ltostr` printed.
kstrtol-printed :
    (number padding_count : ℕ) (cs : List ℕ) (fuel str : ℕ) (m : Bytes)
    → number < 2 ^ 32
    → ltostr number 10 padding_count ≡ some (text cs)
    → IsStr m str cs
    → length cs < fuel
    → kstrtol fuel m str ≡ some number
unfolding ltostr kstrtol value_from
kstrtol-printed n p cs fuel str m wide printed h enough =
    let (cs', run, means) = ltostr_from-value_from (n + p + 1) n p [] wide (omega arith) in
    let same : cs' ≡ cs = ground (arith, run, printed) in
    rw (strtol_from-value_from cs fuel str 0 m h enough) (ap (λ v. some v) (rw (← same) means))

-- For a number of 32 bits and a padding of at most 49, `ltostr` in base ten comes back with a string,
-- and wherever that string stands in memory, `kstrtol` of it is the number.
pub kstrtol-ltostr :
    (number padding_count : ℕ)
    → number < 2 ^ 32
    → padding_count ≤ 49
    → (cs : List ℕ) × (ltostr number 10 padding_count ≡ some (text cs))
      × ((fuel str : ℕ) (m : Bytes)
          → IsStr m str cs
          → length cs < fuel
          → kstrtol fuel m str ≡ some number)
kstrtol-ltostr number padding_count wide fits =
    let (cs, printed, _, _, _) = length-ltostr number 10 padding_count wide (omega arith) fits in
    (
      cs,
      printed,
      λ fuel str m h enough.
          kstrtol-printed number padding_count cs fuel str m wide printed h enough,
    )
