-- ===== src/Shell/Directory.antt =====
-- What the command "cd ../" of kernel/eshell/eshell.c makes of a directory's string.
use l_ost.Common.{
  length-append, ℕ, zero, suc, ◌+◌, ◌≤◌, ◌<◌, ◌≡◌, ◌≢◌, refl, sym, ap, ◌∙◌, true, false, some, List,
  [], ◌∷◌, ◌++◌, arith, ltb, ◌==◌, if◌then◌else◌, length,
}
use mathlib.Core.Path.{subst}
use l_ost.Text.{Bytes, store}
use l_ost.Text.Spelling.{IsStr, IsStr-move, kstrlen-length}
use l_ost.Shell.Commands.{last_slash, parent_directory}

-- No character of a text is a slash.
unfoldable pub NoSlash : List ℕ → Type 0
NoSlash [] = 0 ≤ 0
NoSlash (c ∷ cs) = (c ≢ b'/') × NoSlash cs

-- A step of the walk over a character.
last_slash-step :
    (fuel at i last : ℕ) (m : Bytes)
    → m (at + i) ≢ 0
    → last_slash (suc fuel) m at i last
      ≡ last_slash fuel m at (i + 1) (if m (at + i) == b'/' then i else last)
unfolding last_slash
last_slash-step fuel at i last m more =
    let nonzero : (m (at + i) == 0) ≡ false = ground arith in rw nonzero refl

last_slash-end :
    (fuel at i last : ℕ) (m : Bytes)
    → m (at + i) ≡ 0
    → last_slash (suc fuel) m at i last ≡ some last
unfolding last_slash
last_slash-end fuel at i last m ended =
    let zeroth : (m (at + i) == 0) ≡ true = ground arith in rw zeroth refl

-- Behind the last slash the walk keeps its index.
last_slash-tail :
    (ys : List ℕ) (fuel at i last : ℕ) (m : Bytes)
    → IsStr m (at + i) ys
    → NoSlash ys
    → length ys < fuel
    → last_slash fuel m at i last ≡ some last
unfolding NoSlash
last_slash-tail ys zero at i last m h plain enough = absurd (omega arith)
last_slash-tail [] (suc fuel) at i last m h plain enough = last_slash-end fuel at i last m h
last_slash-tail (y ∷ ys) (suc fuel) at i last m h plain enough =
    let other : (m (at + i) == b'/') ≡ false = ground (arith, h.0, plain.0) in
    let rest =
      last_slash-tail ys fuel at (i + 1) last m
        (IsStr-move m ys (at + i + 1) (at + (i + 1)) (omega arith) h.2) plain.1 (omega arith) in
    last_slash-step fuel at i last m (λ e. h.1 (sym h.0 ∙ e)) ∙ rw other rest

last_slash-found :
    (xs ys : List ℕ) (fuel at i last : ℕ) (m : Bytes)
    → IsStr m (at + i) (xs ++ b'/' ∷ ys)
    → NoSlash ys
    → length xs + length ys + 1 < fuel
    → last_slash fuel m at i last ≡ some (i + length xs)
last_slash-found xs ys zero at i last m h plain enough = absurd (omega arith)
last_slash-found [] ys (suc fuel) at i last m h plain enough =
    let slash : (m (at + i) == b'/') ≡ true = ground (arith, h.0) in
    let rest =
      last_slash-tail ys fuel at (i + 1) i m
        (IsStr-move m ys (at + i + 1) (at + (i + 1)) (omega arith) h.2) plain (omega arith) in
    let here : last_slash fuel m at (i + 1) (if m (at + i) == b'/' then i else last) ≡ some i =
      rw slash rest in
    last_slash-step fuel at i last m (λ e. h.1 (sym h.0 ∙ e))
    ∙ here
    ∙ ap (λ n. some n) (omega arith)
last_slash-found (x ∷ xs) ys (suc fuel) at i last m h plain enough =
    let next = if m (at + i) == b'/' then i else last in
    let rest =
      last_slash-found xs ys fuel at (i + 1) next m
        (IsStr-move m (xs ++ b'/' ∷ ys) (at + i + 1) (at + (i + 1)) (omega arith) h.2) plain
        (omega arith) in
    last_slash-step fuel at i last m (λ e. h.1 (sym h.0 ∙ e))
    ∙ rest
    ∙ ap (λ n. some n) (omega arith)

-- A null byte behind the first part of a string ends it there.
pub IsStr-cut :
    (xs zs : List ℕ) (p : ℕ) (m : Bytes)
    → IsStr m p (xs ++ zs)
    → IsStr (store m (p + length xs) 0) p xs
IsStr-cut [] zs p m h = let here : (p == p + 0) ≡ true = ground arith in rw here refl
IsStr-cut (x ∷ xs) zs p m h =
    let other : (p == p + suc (length xs)) ≡ false = ground arith in
    let same : p + 1 + length xs ≡ p + suc (length xs) = omega arith in
    (
      rw other h.0,
      h.1,
      subst (λ q. IsStr (store m q 0) (p + 1) xs) same (IsStr-cut xs zs (p + 1) m h.2),
    )

-- On a directory of a path, a slash and a name without slash, of at least three characters in all
-- and with a path of at least one, "cd ../" comes back and leaves the path, and changes no other byte
-- than the slash.
pub parent_directory-path :
    (x : ℕ) (xs ys : List ℕ) (fuel at : ℕ) (m : Bytes)
    → IsStr m at ((x ∷ xs) ++ b'/' ∷ ys)
    → NoSlash ys
    → 1 ≤ length xs + length ys
    → length xs + length ys + 2 < fuel
    → (m' : Bytes) × (parent_directory fuel m at ≡ some m')
      × IsStr m' at (x ∷ xs)
      × ((a : ℕ) → a ≢ at + length (x ∷ xs) → m' a ≡ m a)
unfolding parent_directory
parent_directory-path x xs ys fuel at m h plain long enough =
    let size : length ((x ∷ xs) ++ b'/' ∷ ys) ≡ length xs + length ys + 2 =
      omega (arith, length-append xs (b'/' ∷ ys)) in
    let measured = kstrlen-length ((x ∷ xs) ++ b'/' ∷ ys) fuel at m h (omega arith) in
    let enough_left : ltb (length ((x ∷ xs) ++ b'/' ∷ ys)) 3 ≡ false = ground arith in
    let found : last_slash fuel m at 1 0 ≡ some (1 + length xs) =
      last_slash-found xs ys fuel at 1 0 m h.2 plain (omega arith) in
    let place : at + (1 + length xs) ≡ at + length (x ∷ xs) = omega arith in
    (
      store m (at + length (x ∷ xs)) 0,
      rw (measured, parent_directory, enough_left, found, place) refl,
      IsStr-cut (x ∷ xs) (b'/' ∷ ys) at m h,
      λ a ne. let other : (a == at + length (x ∷ xs)) ≡ false = ground arith in rw other refl,
    )
