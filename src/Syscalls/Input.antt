-- ===== src/Syscalls/Input.antt =====
-- What the reading of the standard input in kernel/cpu/idt.c gives the process, and what it leaves.
use l_ost.Common.{
  ℕ, zero, suc, ◌+◌, ◌-◌, ◌^◌, ◌≤◌, ◌<◌, ◌≡◌, ◌≢◌, refl, sym, ap, ◌∙◌, ◌⊎◌, inl, inr, false, some,
  arith, ℕ_discrete, dec_lt, ◌==◌, u32,
}
use l_ost.Text.{Bytes, store, strlen_from, kstrlen, kmemcpy}
use l_ost.Text.Copy.{kmemcpy_lem}
use l_ost.Fat.Names.{rounds}
use l_ost.Syscalls.{take_input}

-- A string of `n` characters at `p`.
pub record Line (m : Bytes) (p n : ℕ) : Type 0 where
  pub filled : (j : ℕ) → j < n → m (p + j) ≢ 0
  pub null : m (p + n) ≡ 0

strlen_from-Line :
    (fuel p n i : ℕ) (m : Bytes)
    → Line m p n
    → i ≤ n
    → n < i + fuel
    → strlen_from fuel m p i ≡ some n
unfolding strlen_from
strlen_from-Line zero p n i m line le more = absurd (omega arith)
strlen_from-Line (suc fuel) p n i m line le more = elim (ℕ_discrete i n) [
  | yes e ↦ rw (e, strlen_from, line.null) refl
  | no ne ↦
      let real : (m (p + i) == 0) ≡ false = ground (arith, line.filled i (omega arith)) in
      rw (strlen_from, real) (strlen_from-Line fuel p n (i + 1) m line (omega arith) (omega arith))
]

kstrlen-Line : (fuel p n : ℕ) (m : Bytes) → Line m p n → n < fuel → kstrlen fuel m p ≡ some n
unfolding kstrlen
kstrlen-Line fuel p n m line more = strlen_from-Line fuel p n 0 m line (omega arith) (omega arith)

-- A string that a copy elsewhere leaves.
Line-same :
    (m m' : Bytes) (p n : ℕ) → ((a : ℕ) → p ≤ a → a ≤ p + n → m' a ≡ m a) → Line m p n → Line m' p n
Line-same m m' p n same line = record {
  filled = λ j lt. λ e. line.filled j lt (sym (same (p + j) (omega arith) (omega arith)) ∙ e);
  null = same (p + n) (omega arith) (omega arith) ∙ line.null;
}

-- A string whose last characters are moved to its front has as many characters as before.
Line-moved :
    (m : Bytes) (p n count : ℕ)
    → count ≤ n
    → Line m p n
    → Line (kmemcpy (p + count) p (n - count) m) p n
Line-moved m p n count le line =
    let (inside, outside) = kmemcpy_lem (p + count) p (n - count) m (inl (omega arith)) in
    record {
      filled = λ j lt. λ e. elim (dec_lt j (n - count)) [
        | yes moved ↦
            line.filled (count + j) (omega arith) (ap m (omega arith) ∙ sym (inside j moved) ∙ e)
        | no kept ↦ line.filled j lt (sym (outside (p + j) (inr (omega arith))) ∙ e)
      ];
      null = outside (p + n) (inr (omega arith)) ∙ line.null;
    }

-- For a standard input of `n` characters, and a target elsewhere for at most as many, the moves come
-- back; the target holds the first characters, the characters behind them stand at the front of the
-- input, and the input has as many characters as before.
pub take_input-Line :
    (fuel stdin target count n : ℕ) (m : Bytes)
    → Line m stdin n
    → n < fuel
    → stdin + n < 2 ^ 32
    → n < 2 ^ 31
    → count ≤ n
    → (target + count ≤ stdin) ⊎ (stdin + n < target)
    → (m' : Bytes) × (take_input fuel stdin target count m ≡ some m')
      × ((j : ℕ) → j < count → m' (target + j) ≡ m (stdin + j))
      × ((j : ℕ) → j < n - count → m' (stdin + j) ≡ m (stdin + count + j))
      × Line m' stdin n
unfolding take_input
take_input-Line fuel stdin target count n m line more inside small le apart =
    let all : rounds count ≡ count = ground arith in
    let (given, rest) =
      kmemcpy_lem stdin target count m
        (elim apart [ inl before ↦ inl (omega arith) | inr behind ↦ inr (omega arith) ]) in
    let m1 = kmemcpy stdin target count m in
    let line1 : Line m1 stdin n =
      Line-same m m1 stdin n
        (λ a lo hi.
          rest a (elim apart [ inl before ↦ inr (omega arith) | inr behind ↦ inl (omega arith) ]))
        line in
    let from : u32 (stdin + count) ≡ stdin + count = omega arith in
    let moved : rounds (u32 (n + 2 ^ 32 - count)) ≡ n - count = ground arith in
    let (front, elsewhere) = kmemcpy_lem (stdin + count) stdin (n - count) m1 (inl (omega arith)) in
    let m2 = kmemcpy (stdin + count) stdin (n - count) m1 in
    let line2 : Line m2 stdin n = Line-moved m1 stdin n count le line1 in
    let m3 : Bytes = store m2 (stdin + n) 0 in
    let stored : (a : ℕ) → a ≢ stdin + n → m3 a ≡ m2 a = λ a ne. ground (arith, ne) in
    let measured = kstrlen-Line fuel stdin n m1 line1 more in
    let measured' = kstrlen-Line fuel stdin n m2 line2 more in
    (
      m3,
      rw (all, take_input, measured, from, moved, all, measured', from, moved, all) refl,
      λ j lt. elim apart [
        | inl before ↦
            stored (target + j) (omega arith)
            ∙ elsewhere (target + j) (inl (omega arith))
            ∙ given j lt
        | inr behind ↦
            stored (target + j) (omega arith)
            ∙ elsewhere (target + j) (inr (omega arith))
            ∙ given j lt
      ],
      λ j lt.
          stored (stdin + j) (omega arith)
          ∙ front j lt
          ∙ rest (stdin + count + j)
              (elim apart [ inl before ↦ inr (omega arith) | inr behind ↦ inl (omega arith) ]),
      record {
        filled = λ j lt. λ e. line2.filled j lt (sym (stored (stdin + j) (omega arith)) ∙ e);
        null = ground arith;
      },
    )
