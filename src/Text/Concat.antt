-- ===== src/Text/Concat.antt =====
-- `kstrcat`.
use l_ost.Common.{
  ℕ, zero, suc, ◌+◌, ◌≤◌, ◌<◌, ◌≡◌, ◌≢◌, refl, ap, ◌∙◌, ◌⊎◌, inl, inr, false, some, List, [], ◌∷◌,
  ◌++◌, arith, ◌==◌, length,
}
use l_ost.Text.{Bytes, store, strcat_first, strcat_second, strcat_end, kstrcat}
use mathlib.Core.Path.{subst}
use l_ost.Common.{length-append}
use l_ost.Text.Spelling.{IsStr, IsStr-move, IsStr-frame, kstrlen-length}

-- From `p` on `m` holds the characters `xs`; nothing is said of what follows.
abbrev Spells : Bytes → ℕ → List ℕ → Type 0
Spells m p [] = Unit {0}
Spells m p (x ∷ xs) = (m p ≡ x) × (x ≢ 0) × Spells m (p + 1) xs

Spells-append :
    (xs ys : List ℕ) (p : ℕ) (m : Bytes)
    → Spells m p xs
    → IsStr m (p + length xs) ys
    → IsStr m p (xs ++ ys)
Spells-append [] ys p m h k = IsStr-move m ys (p + 0) p (omega arith) k
Spells-append (x ∷ xs) ys p m h k = (
  h.0,
  h.1,
  Spells-append xs ys (p + 1) m h.2
      (IsStr-move m ys (p + suc (length xs)) (p + 1 + length xs) (omega arith) k),
)

Spells-frame :
    (xs : List ℕ) (p : ℕ) (m m' : Bytes)
    → Spells m p xs
    → ((a : ℕ) → p ≤ a → a < p + length xs → m' a ≡ m a)
    → Spells m' p xs
Spells-frame [] p m m' h same = tt
Spells-frame (x ∷ xs) p m m' h same = (
  same p (omega arith) (omega arith) ∙ h.0,
  h.1,
  Spells-frame xs (p + 1) m m' h.2 λ a lo hi. same a (omega arith) (omega arith),
)

Spells-move : (m : Bytes) (xs : List ℕ) (p q : ℕ) → p ≡ q → Spells m p xs → Spells m q xs
Spells-move m xs p q e h = subst (λ r. Spells m r xs) e h

-- What a copying loop leaves: `xs` from `p` on, and everything else as it was.
abbrev Copied : Bytes → ℕ → List ℕ → Bytes → Type 0
Copied m p xs m' = Spells m' p xs × ((a : ℕ) → (a < p) ⊎ (p + length xs ≤ a) → m' a ≡ m a)

Copied-move :
    (m : Bytes) (xs : List ℕ) (m' : Bytes) (p q : ℕ) → p ≡ q → Copied m p xs m' → Copied m q xs m'
Copied-move m xs m' p q e h = subst (λ r. Copied m r xs m') e h

-- One round: `m1` is `m` with `x` written at `p`.
Copied-cons :
    (x : ℕ) (xs : List ℕ) (m m1 m' : Bytes) (p : ℕ)
    → m1 p ≡ x
    → x ≢ 0
    → ((a : ℕ) → a ≢ p → m1 a ≡ m a)
    → Copied m1 (p + 1) xs m'
    → Copied m p (x ∷ xs) m'
Copied-cons x xs m m1 m' p here ne frame (spelt, same) = (
  (same p (inl (omega arith)) ∙ here, ne, spelt),
  λ a out. elim out [
    | inl lt ↦ same a (inl (omega arith)) ∙ frame a (omega arith)
    | inr ge ↦ same a (inr (omega arith)) ∙ frame a (omega arith)
  ],
)

strcat_first-Copied :
    (xs : List ℕ) (fuel dest first at : ℕ) (m : Bytes)
    → IsStr m (first + at) xs
    → (dest ≤ first) ⊎ (first + length xs < dest)
    → length xs < fuel
    → (m' : Bytes) × (strcat_first fuel dest first at m ≡ some (at + length xs, m'))
      × Copied m (dest + at) xs m'
unfolding strcat_first
strcat_first-Copied xs zero dest first at m h apart enough = absurd (omega arith)
strcat_first-Copied [] (suc fuel) dest first at m h apart enough =
    (m, rw h (ap (λ k. some (k, m)) (omega arith)), (tt, λ a out. refl))
strcat_first-Copied (x ∷ xs) (suc fuel) dest first at m h apart enough =
    let more : (m (first + at) == 0) ≡ false = ground (arith, h.0, h.1) in
    let m1 : Bytes = store m (dest + at) (m (first + at)) in
    let (m', run, copied) =
      strcat_first-Copied xs fuel dest first (at + 1) m1
        (IsStr-move m1 xs (first + at + 1) (first + (at + 1)) (omega arith)
          (IsStr-frame xs (first + at + 1) m m1 h.2 λ a lo hi. ground arith))
        (elim apart [ inl e ↦ inl e | inr e ↦ inr (omega arith) ]) (omega arith) in
    (
      m',
      rw more (run ∙ ap (λ k. some (k, m')) (omega arith)),
      Copied-cons x xs m m1 m' (dest + at) (ground (arith, h.0)) h.1 (λ a ne. ground arith)
          (Copied-move m1 xs m' (dest + (at + 1)) (dest + at + 1) (omega arith) copied),
    )

strcat_second-Copied :
    (ys : List ℕ) (fuel dest at second : ℕ) (m : Bytes)
    → IsStr m second ys
    → (dest + at ≤ second) ⊎ (second + length ys < dest + at)
    → length ys < fuel
    → (m' : Bytes) × (strcat_second fuel dest at second m ≡ some m') × Copied m (dest + at) ys m'
unfolding strcat_second
strcat_second-Copied ys zero dest at second m h apart enough = absurd (omega arith)
strcat_second-Copied [] (suc fuel) dest at second m h apart enough = (m, rw h, (tt, λ a out. refl))
strcat_second-Copied (y ∷ ys) (suc fuel) dest at second m h apart enough =
    let more : (m second == 0) ≡ false = ground (arith, h.0, h.1) in
    let m1 : Bytes = store m (dest + at) (m second) in
    let (m', run, copied) =
      strcat_second-Copied ys fuel dest (at + 1) (second + 1) m1
        (IsStr-frame ys (second + 1) m m1 h.2 λ a lo hi. ground arith)
        (elim apart [ inl e ↦ inl (omega arith) | inr e ↦ inr (omega arith) ]) (omega arith) in
    (
      m',
      rw more run,
      Copied-cons y ys m m1 m' (dest + at) (ground (arith, h.0)) h.1 (λ a ne. ground arith)
          (Copied-move m1 ys m' (dest + (at + 1)) (dest + at + 1) (omega arith) copied),
    )

IsStr-end : (xs : List ℕ) (p : ℕ) (m : Bytes) → IsStr m p xs → m (p + length xs) ≡ 0
IsStr-end [] p m h = ap m {x = p + 0} {y = p} (omega arith) ∙ h
IsStr-end (x ∷ xs) p m h =
    ap m {x = p + suc (length xs)} {y = p + 1 + length xs} (omega arith)
    ∙ IsStr-end xs (p + 1) m h.2

-- `m'` holds the three strings one behind the other at `dest`, and is as `m` elsewhere.
abbrev pub Joined : (xs ys zs : List ℕ) (dest : ℕ) → Bytes → Bytes → Type 0
Joined xs ys zs dest m m' =
    IsStr m' dest (xs ++ (ys ++ zs))
    × ((a : ℕ) → (a < dest) ⊎ (dest + length xs + length ys ≤ a) → m' a ≡ m a)

both-Joined :
    (xs ys zs : List ℕ) (dest : ℕ) (m m1 m2 : Bytes)
    → IsStr m (dest + length xs + length ys) zs
    → Copied m dest xs m1
    → Copied m1 (dest + length xs) ys m2
    → Joined xs ys zs dest m m2
both-Joined xs ys zs dest m m1 m2 hz (spelt1, same1) (spelt2, same2) = (
  Spells-append xs (ys ++ zs) dest m2
      (Spells-frame xs dest m1 m2 spelt1 λ a lo hi. same2 a (inl (omega arith)))
      (Spells-append ys zs (dest + length xs) m2 spelt2 (
        IsStr-frame zs (dest + length xs + length ys) m m2 hz
          λ a lo hi. same2 a (inr (omega arith)) ∙ same1 a (inr (omega arith)))),
  λ a out. elim out [
    | inl lt ↦ same2 a (inl (omega arith)) ∙ same1 a (inl (omega arith))
    | inr ge ↦ same2 a (inr (omega arith)) ∙ same1 a (inr (omega arith))
  ],
)

-- The last assignment writes a null byte over a null byte.
strcat_end-Joined :
    (xs ys zs : List ℕ) (fuel dest : ℕ) (m m2 : Bytes)
    → Joined xs ys zs dest m m2
    → length xs + length ys + length zs < fuel
    → (m' : Bytes) × (strcat_end fuel dest m2 ≡ some m') × Joined xs ys zs dest m m'
unfolding strcat_end
strcat_end-Joined xs ys zs fuel dest m m2 (spelt, same) enough =
    let all : List ℕ = xs ++ (ys ++ zs) in
    let size : length all ≡ length xs + length ys + length zs =
      omega (arith, length-append xs (ys ++ zs), length-append ys zs) in
    let m' : Bytes = store m2 (dest + length all) 0 in
    let last : m2 (dest + length all) ≡ 0 = IsStr-end all dest m2 spelt in
    let unchanged : (a : ℕ) → m' a ≡ m2 a = λ a. ground arith in
    (
      m',
      rw (kstrlen-length all fuel dest m2 spelt (omega arith), strcat_end),
      (IsStr-frame all dest m2 m' spelt λ a lo hi. unchanged a, λ a out. unchanged a ∙ same a out),
    )

kstrcat-second :
    (xs ys zs : List ℕ) (fuel dest first second : ℕ) (m m1 : Bytes)
    → IsStr m second ys
    → IsStr m (dest + length xs + length ys) zs
    → strcat_first fuel dest first 0 m ≡ some (0 + length xs, m1)
    → Copied m dest xs m1
    → (dest + length xs + length ys ≤ second) ⊎ (second + length ys < dest)
    → length xs + length ys + length zs < fuel
    → (m' : Bytes) × (kstrcat fuel dest first second m ≡ some m') × Joined xs ys zs dest m m'
unfolding kstrcat
kstrcat-second xs ys zs fuel dest first second m m1 hy hz run1 copied1 clear enough =
    let (m2, run2, copied2) =
      strcat_second-Copied ys fuel dest (length xs) second m1
        (IsStr-frame ys second m m1 hy λ a lo hi.
          copied1.1 a (elim clear [ inl c ↦ inr (omega arith) | inr c ↦ inl (omega arith) ]))
        (elim clear [ inl c ↦ inl (omega arith) | inr c ↦ inr (omega arith) ]) (omega arith) in
    let (m', run3, done) =
      strcat_end-Joined xs ys zs fuel dest m m2
        (both-Joined xs ys zs dest m m1 m2 hz copied1 copied2) enough in
    (m', joined run2 run3, done)
  where
    joined :
        {m2 m' : Bytes}
        → strcat_second fuel dest (length xs) second m1 ≡ some m2
        → strcat_end fuel dest m2 ≡ some m'
        → kstrcat fuel dest first second m ≡ some m'
    joined r2 r3 = let at : 0 + length xs ≡ length xs = omega arith in rw (run1, kstrcat, at, r2) r3

-- `kstrcat` comes back with the two strings one behind the other at `dest`, then whatever string
-- `zs` stood behind them before: no null byte is written there. Nothing outside the two strings'
-- place changes. `dest` may be `first` itself, and the second string lies apart from the target.
pub kstrcat-append :
    (xs ys zs : List ℕ) (fuel dest first second : ℕ) (m : Bytes)
    → IsStr m first xs
    → IsStr m second ys
    → IsStr m (dest + length xs + length ys) zs
    → (dest ≤ first) ⊎ (first + length xs < dest)
    → (dest + length xs + length ys ≤ second) ⊎ (second + length ys < dest)
    → length xs + length ys + length zs < fuel
    → (m' : Bytes) × (kstrcat fuel dest first second m ≡ some m') × Joined xs ys zs dest m m'
kstrcat-append xs ys zs fuel dest first second m hx hy hz apart clear enough =
    let (m1, run1, copied1) =
      strcat_first-Copied xs fuel dest first 0 m
        (IsStr-move m xs first (first + 0) (omega arith) hx) apart (omega arith) in
    kstrcat-second xs ys zs fuel dest first second m m1 hy hz run1
      (Copied-move m xs m1 (dest + 0) dest (omega arith) copied1) clear enough
