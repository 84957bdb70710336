-- ===== src/Text/Compare.antt =====
-- `kstrcmp` and `kmemcmp`.
use l_ost.Common.{
  ℕ, zero, suc, ◌+◌, ◌%◌, ◌≤◌, ◌<◌, ◌≡◌, refl, ap, ◌↔◌, some, List, [], ◌∷◌, arith, ℕ_discrete,
  length,
}
use l_ost.Common.Int.{ℤ, pos, sub_ℕ}
use l_ost.Text.{Bytes, char_difference, strcmp_from, kstrcmp, memcmp_from, kmemcmp}
use l_ost.Text.Spelling.{IsStr, IsStr-move, kstrlen-length}

-- The bytes of a string are bytes.
abbrev pub AreBytes : List ℕ → Type 0
AreBytes [] = Unit {0}
AreBytes (x ∷ xs) = (x < 256) × AreBytes xs

sub_ℕ-eq-zero : (a b : ℕ) → sub_ℕ a b ≡ pos 0 → a ≡ b
sub_ℕ-eq-zero a b h = ground arith

char_difference-eq-zero : (x y : ℕ) → x < 256 → y < 256 → char_difference x y ≡ pos 0 → x ≡ y
unfolding char_difference
char_difference-eq-zero x y hx hy h =
    let e = sub_ℕ-eq-zero ((x + 128) % 256) ((y + 128) % 256) h in omega arith

-- The loop on two strings of one length ends; with 0 exactly when they are the same.
strcmp_from-eq :
    (xs ys : List ℕ) (fuel s c i : ℕ) (m : Bytes)
    → IsStr m (s + i) xs
    → IsStr m (c + i) ys
    → AreBytes xs
    → AreBytes ys
    → length xs ≡ length ys
    → length xs < fuel
    → (d : ℤ) × (strcmp_from fuel m s c i ≡ some d) × ((d ≡ pos 0) ↔ (xs ≡ ys))
unfolding strcmp_from
strcmp_from-eq xs ys zero s c i m h k bx by same enough = absurd (omega arith)
strcmp_from-eq [] [] (suc fuel) s c i m h k bx by same enough =
    (pos 0, ground arith, (λ e. refl, λ e. refl))
strcmp_from-eq [] (y ∷ ys) (suc fuel) s c i m h k bx by same enough = absurd (omega arith)
strcmp_from-eq (x ∷ xs) [] (suc fuel) s c i m h k bx by same enough = absurd (omega arith)
strcmp_from-eq (x ∷ xs) (y ∷ ys) (suc fuel) s c i m h k bx by same enough = elim (ℕ_discrete x y) [
  | yes e ↦
      let (d, run, means) =
        strcmp_from-eq xs ys fuel s c (i + 1) m
          (IsStr-move m xs (s + i + 1) (s + (i + 1)) (omega arith) h.2)
          (IsStr-move m ys (c + i + 1) (c + (i + 1)) (omega arith) k.2) bx.1 by.1 (omega arith)
          (omega arith) in
      (d, ground arith, (λ z. ground (arith, means.0 z), λ z. means.1 (ground arith)))
  | no ne ↦ (
    char_difference x y,
    ground arith,
    (λ z. absurd (ne (char_difference-eq-zero x y bx.0 by.0 z)), λ z. absurd (ne (ground arith))),
  )
]

-- `kstrcmp` of two strings of bytes comes back, with 0 exactly when they are the same string.
pub kstrcmp_eq :
    (xs ys : List ℕ) (fuel s c : ℕ) (m : Bytes)
    → IsStr m s xs
    → IsStr m c ys
    → AreBytes xs
    → AreBytes ys
    → length xs < fuel
    → length ys < fuel
    → (d : ℤ) × (kstrcmp fuel m s c ≡ some d) × ((d ≡ pos 0) ↔ (xs ≡ ys))
unfolding kstrcmp
kstrcmp_eq xs ys fuel s c m h k bx by fx fy = elim (ℕ_discrete (length xs) (length ys)) [
  | yes e ↦
      let (d, run, means) =
        strcmp_from-eq xs ys fuel s c 0 m (IsStr-move m xs s (s + 0) (omega arith) h)
          (IsStr-move m ys c (c + 0) (omega arith) k) bx by e fx in
      (d, ground (arith, kstrlen-length xs fuel s m h fx, kstrlen-length ys fuel c m k fy), means)
  | no ne ↦ (
    sub_ℕ (length xs) (length ys),
    ground (arith, kstrlen-length xs fuel s m h fx, kstrlen-length ys fuel c m k fy),
    (λ z. absurd (ne (sub_ℕ-eq-zero (length xs) (length ys) z)), λ z. absurd (ne (ap length z))),
  )
]

memcmp_from-eq :
    (m : Bytes) (source dest n i : ℕ)
    → (memcmp_from m source dest n i ≡ pos 0)
      ↔ ((j : ℕ) → i ≤ j → j < i + n → m (source + j) ≡ m (dest + j))
unfolding memcmp_from
memcmp_from-eq m source dest zero i = (λ h j lo hi. absurd (omega arith), λ h. refl)
memcmp_from-eq m source dest (suc n) i =
    let rest = memcmp_from-eq m source dest n (i + 1) in
    elim (ℕ_discrete (m (source + i)) (m (dest + i))) [
      | yes e ↦ (
        λ h j lo hi. elim (ℕ_discrete i j) [
          | yes p ↦ rw (← p) e
          | no ne ↦ rest.0 (ground arith) j (omega arith) (omega arith)
        ],
        λ h. let tail = rest.1 (λ j lo hi. h j (omega arith) (omega arith)) in ground arith,
      )
      | no ne ↦ (
        λ h. absurd (ne (sub_ℕ-eq-zero (m (source + i)) (m (dest + i)) (ground arith))),
        λ h. absurd (ne (h i (omega arith) (omega arith))),
      )
    ]

-- `kmemcmp` returns 0 exactly when the two ranges of `num` bytes are equal.
pub kmemcmp_eq :
    (m : Bytes) (source dest num : ℕ)
    → (kmemcmp m source dest num ≡ pos 0) ↔ ((j : ℕ) → j < num → m (source + j) ≡ m (dest + j))
unfolding kmemcmp
kmemcmp_eq m source dest num =
    let (sound, complete) = memcmp_from-eq m source dest num 0 in
    (λ h j hi. sound h j (omega arith) (omega arith), λ h. complete λ j lo hi. h j (omega arith))
