-- ===== src/Text/Spelling.antt =====
-- When memory holds a string, and what `kstrlen` says of it.
use l_ost.Common.{
  ℕ, zero, suc, ◌+◌, ◌≤◌, ◌<◌, ◌≡◌, ◌≢◌, refl, ap, ◌∙◌, some, List, [], ◌∷◌, arith, length,
}
use mathlib.Core.Path.{subst}
use l_ost.Text.{Bytes, strlen_from, kstrlen}

-- From address `p` on, `m` holds the characters `xs` and then a null byte.
abbrev pub IsStr : Bytes → ℕ → List ℕ → Type 0
IsStr m p [] = m p ≡ 0
IsStr m p (x ∷ xs) = (m p ≡ x) × (x ≢ 0) × IsStr m (p + 1) xs

pub IsStr-move : (m : Bytes) (xs : List ℕ) (p q : ℕ) → p ≡ q → IsStr m p xs → IsStr m q xs
IsStr-move m xs p q e h = subst (λ r. IsStr m r xs) e h

strlen_from-length :
    (xs : List ℕ) (fuel s i : ℕ) (m : Bytes)
    → IsStr m (s + i) xs
    → length xs < fuel
    → strlen_from fuel m s i ≡ some (i + length xs)
unfolding strlen_from
strlen_from-length xs zero s i m h enough = absurd (omega arith)
strlen_from-length [] (suc fuel) s i m h enough = ground arith
strlen_from-length (x ∷ xs) (suc fuel) s i m h enough = ground (
  arith,
  strlen_from-length xs fuel s (i + 1) m
      (IsStr-move m xs (s + i + 1) (s + (i + 1)) (omega arith) h.2) (omega arith),
)

-- With fuel for its characters and the null byte, `kstrlen` returns the length of a string.
pub kstrlen-length :
    (xs : List ℕ) (fuel s : ℕ) (m : Bytes)
    → IsStr m s xs
    → length xs < fuel
    → kstrlen fuel m s ≡ some (length xs)
unfolding kstrlen
kstrlen-length xs fuel s m h enough =
    strlen_from-length xs fuel s 0 m (IsStr-move m xs s (s + 0) (omega arith) h) enough
    ∙ ap (λ n. some n) (omega arith)

-- Two strings at one address are one.
pub IsStr-unique : (xs ys : List ℕ) (p : ℕ) (m : Bytes) → IsStr m p xs → IsStr m p ys → xs ≡ ys
IsStr-unique [] [] p m h k = refl
IsStr-unique [] (y ∷ ys) p m h k = absurd (k.1 (omega arith))
IsStr-unique (x ∷ xs) [] p m h k = absurd (h.1 (omega arith))
IsStr-unique (x ∷ xs) (y ∷ ys) p m h k = ground (arith, IsStr-unique xs ys (p + 1) m h.2 k.2)

-- A string survives changes elsewhere.
pub IsStr-frame :
    (xs : List ℕ) (p : ℕ) (m m' : Bytes)
    → IsStr m p xs
    → ((a : ℕ) → p ≤ a → a ≤ p + length xs → m' a ≡ m a)
    → IsStr m' p xs
IsStr-frame [] p m m' h same = same p (omega arith) (omega arith) ∙ h
IsStr-frame (x ∷ xs) p m m' h same = (
  same p (omega arith) (omega arith) ∙ h.0,
  h.1,
  IsStr-frame xs (p + 1) m m' h.2 λ a lo hi. same a (omega arith) (omega arith),
)
