-- ===== src/Shell/Editing.antt =====
-- The command line that `getch` of kernel/eshell/eshell.c edits in place, as a list of characters.
use l_ost.Common.{
  length-append, ℕ, suc, ◌+◌, ◌-◌, ◌^◌, ◌≤◌, ◌<◌, ◌≡◌, refl, ap, ◌∙◌, ◌⊎◌, inl, inr, true, false,
  Option, none, some, List, [], ◌∷◌, ◌++◌, arith, ℕ_discrete, ltb, ◌==◌, if◌then◌else◌, length, u32,
  slt, promote,
}
use mathlib.Core.Path.{subst}
use l_ost.Text.{Bytes, store}
use l_ost.Text.Spelling.{IsStr, IsStr-frame, kstrlen-length}
use l_ost.Text.Concat.{kstrcat-append}
use l_ost.Shell.Keys.{append_char, drop_char, edit_line}
use l_ost.Shell.Directory.{IsStr-cut}

-- What a user does to a line.
pub data Key : Type 0 where
  typed : ℕ → Key
  back : Key

unfoldable pub code_of : Key → ℕ
code_of (typed c) = c
code_of back = 8

-- The line without its last character.
unfoldable pub drop_last : List ℕ → List ℕ
drop_last [] = []
drop_last (x ∷ []) = []
drop_last (x ∷ (y ∷ ys)) = x ∷ drop_last (y ∷ ys)

unfoldable pub edited : List ℕ → Key → List ℕ
edited xs (typed c) = xs ++ c ∷ []
edited xs back = drop_last xs

unfoldable pub edited_all : List ℕ → List Key → List ℕ
edited_all xs [] = xs
edited_all xs (k ∷ ks) = edited_all (edited xs k) ks

-- A key that has its place: a printable character on a line that is not full, or a backspace on a
-- line that is not empty.
unfoldable pub Fits : List ℕ → Key → Type 0
Fits xs (typed c) = (32 ≤ c) × (c < 128) × (length xs < 4094)
Fits xs back = 1 ≤ length xs

unfoldable pub AllFit : List ℕ → List Key → Type 0
AllFit xs [] = 0 ≤ 0
AllFit xs (k ∷ ks) = Fits xs k × AllFit (edited xs k) ks

-- The page at `at` holds the line and null bytes behind it.
pub record Holds (m : Bytes) (at : ℕ) (xs : List ℕ) : Type 0 where
  pub spelled : IsStr m at xs
  pub blank : (a : ℕ) → at + length xs ≤ a → a < at + 4096 → m a ≡ 0
  pub short : length xs < 4096

-- `getch` on one key after the other.
pub edit_keys : (scratch at : ℕ) → List Key → Bytes → Option Bytes
edit_keys scratch at [] m = some m
edit_keys scratch at (k ∷ ks) m = elim (edit_line 4097 scratch at (code_of k) m) [
  | none ↦ none
  | some m' ↦ edit_keys scratch at ks m'
]

-- The two bytes at `scratch` lie outside the page.
abbrev pub Apart : (scratch at : ℕ) → Type 0
Apart scratch at = (at + 4096 ≤ scratch) ⊎ (scratch + 2 ≤ at)

append_char-Holds :
    (scratch at c : ℕ) (xs : List ℕ) (m : Bytes)
    → Holds m at xs
    → Apart scratch at
    → 32 ≤ c
    → length xs < 4094
    → (m' : Bytes) × (append_char 4097 scratch at c m ≡ some m') × Holds m' at (xs ++ c ∷ [])
unfolding append_char
append_char-Holds scratch at c xs m h apart lo room =
    let m0 : Bytes = store (store m scratch c) (scratch + 1) 0 in
    let kept : (a : ℕ) → at ≤ a → a < at + 4096 → m0 a ≡ m a = λ a from to. ground arith in
    let (m', run, joined) =
      kstrcat-append xs (c ∷ []) [] 4097 at at scratch m0
        (IsStr-frame xs at m m0 h.spelled λ a from to. kept a from (omega arith))
        (ground arith, (λ e. omega arith), ground arith)
        (kept (at + length xs + 1) (omega arith) (omega arith)
          ∙ h.blank (at + length xs + 1) (omega arith) (omega arith))
        (inl (omega arith))
        (elim apart [ inl behind ↦ inl (omega arith) | inr before ↦ inr (omega arith) ])
        (omega arith) in
    (
      m',
      run,
      record {
        spelled = joined.0;
        blank = λ a from to.
            let behind : at + length xs + 1 ≤ a = omega (arith, length-append xs (c ∷ [])) in
            joined.1 a (inr behind) ∙ kept a (omega arith) to ∙ h.blank a (omega arith) to;
        short = omega (arith, length-append xs (c ∷ []));
      },
    )

drop_last-split : (x : ℕ) (xs : List ℕ) → (z : ℕ) × (x ∷ xs ≡ drop_last (x ∷ xs) ++ z ∷ [])
unfolding drop_last
drop_last-split x [] = (x, refl)
drop_last-split x (y ∷ ys) = let (z, e) = drop_last-split y ys in (z, ap (λ r. x ∷ r) e)

length-drop_last : (x : ℕ) (xs : List ℕ) → length (drop_last (x ∷ xs)) ≡ length xs
unfolding drop_last
length-drop_last x [] = refl
length-drop_last x (y ∷ ys) = ap suc (length-drop_last y ys)

drop_char-Holds :
    (at x : ℕ) (xs : List ℕ) (m : Bytes)
    → Holds m at (x ∷ xs)
    → at + 4096 ≤ 2 ^ 32
    → (m' : Bytes) × (drop_char 4097 at m ≡ some m') × Holds m' at (drop_last (x ∷ xs))
unfolding drop_char
drop_char-Holds at x xs m h page =
    let short = h.short in
    let measured = kstrlen-length (x ∷ xs) 4097 at m h.spelled (omega arith) in
    let size = length-drop_last x xs in
    let place : u32 (at + length (x ∷ xs) + 2 ^ 32 - 1) ≡ at + length (drop_last (x ∷ xs)) =
      omega arith in
    let (z, split) = drop_last-split x xs in
    let m' : Bytes = store m (at + length (drop_last (x ∷ xs))) 0 in
    (
      m',
      rw (measured, drop_char, place) refl,
      record {
        spelled = IsStr-cut (drop_last (x ∷ xs)) (z ∷ []) at m (subst (IsStr m at) split h.spelled);
        blank = λ a from to. elim (ℕ_discrete a (at + length (drop_last (x ∷ xs)))) [
          | yes here ↦
              let same : (a == at + length (drop_last (x ∷ xs))) ≡ true = ground arith in
              rw same refl
          | no other ↦
              let differs : (a == at + length (drop_last (x ∷ xs))) ≡ false = ground arith in
              rw differs (h.blank a (omega arith) to)
        ];
        short = omega arith;
      },
    )

edit_line-Holds :
    (scratch at : ℕ) (k : Key) (xs : List ℕ) (m : Bytes)
    → Holds m at xs
    → Apart scratch at
    → at + 4096 ≤ 2 ^ 32
    → Fits xs k
    → (m' : Bytes) × (edit_line 4097 scratch at (code_of k) m ≡ some m') × Holds m' at (edited xs k)
unfolding edit_line code_of edited Fits promote
edit_line-Holds scratch at (typed c) xs m h apart page fits =
    let printable : slt (if ltb c 128 then c else c + 2 ^ 32 - 256) 32 ≡ false =
      ground (arith, fits.0, fits.1) in
    rw printable (append_char-Holds scratch at c xs m h apart fits.0 fits.2)
edit_line-Holds scratch at back [] m h apart page fits = absurd (omega arith)
edit_line-Holds scratch at back (x ∷ xs) m h apart page fits = drop_char-Holds at x xs m h page

edit_keys-step :
    (scratch at : ℕ) (k : Key) (ks : List Key) (m m1 : Bytes) (r : Option Bytes)
    → edit_line 4097 scratch at (code_of k) m ≡ some m1
    → edit_keys scratch at ks m1 ≡ r
    → edit_keys scratch at (k ∷ ks) m ≡ r
unfolding edit_keys
edit_keys-step scratch at k ks m m1 r run rest = rw (run, edit_keys) rest

-- The command line in its page implements a list of characters: a printable character on a line of
-- fewer than 4094 goes to its end, and a backspace on a line that is not empty takes the last one
-- away. After any such keys the walk has come back, and the page holds the list's text and null bytes.
pub edit_keys-Holds :
    (scratch at : ℕ) (ks : List Key) (xs : List ℕ) (m : Bytes)
    → Holds m at xs
    → Apart scratch at
    → at + 4096 ≤ 2 ^ 32
    → AllFit xs ks
    → (m' : Bytes) × (edit_keys scratch at ks m ≡ some m') × Holds m' at (edited_all xs ks)
unfolding AllFit edited_all edit_keys
edit_keys-Holds scratch at [] xs m h apart page fits = (m, refl, h)
edit_keys-Holds scratch at (k ∷ ks) xs m h apart page fits =
    let (m1, run, held) = edit_line-Holds scratch at k xs m h apart page fits.0 in
    let (m2, rest, end) = edit_keys-Holds scratch at ks (edited xs k) m1 held apart page fits.1 in
    (m2, edit_keys-step scratch at k ks m m1 (some m2) run rest, end)
