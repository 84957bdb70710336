-- ===== src/Text/Tokens.antt =====
-- `kstrtok`.
use l_ost.Common.{
  ℕ, zero, suc, ◌+◌, ◌<◌, ◌≡◌, ◌≢◌, refl, ap, ◌∙◌, ◌⊎◌, Bool, true, false, ◌||◌, some, List, [],
  ◌∷◌, ◌++◌, arith, ◌==◌, if◌then◌else◌, length,
}
use l_ost.Text.{Bytes, store, is_delim, ended, token_at, skip_delims, end_token, strtok_at, kstrtok}
use l_ost.Text.Spelling.{IsStr, IsStr-frame, IsStr-move}

-- Whether a character is one of the delimiters.
abbrev pub has : ℕ → List ℕ → Bool
has c [] = false
has c (d ∷ ds) = (c == d) || has c ds

abbrev pub AllIn : List ℕ → List ℕ → Type 0
AllIn ds [] = Unit {0}
AllIn ds (x ∷ xs) = (has x ds ≡ true) × AllIn ds xs

abbrev pub NoneIn : List ℕ → List ℕ → Type 0
NoneIn ds [] = Unit {0}
NoneIn ds (x ∷ xs) = (has x ds ≡ false) × NoneIn ds xs

-- What follows a token is nothing, or begins with a delimiter.
abbrev pub Breaks : List ℕ → List ℕ → Type 0
Breaks ds [] = Unit {0}
Breaks ds (x ∷ xs) = has x ds ≡ true

abbrev pub tail : List ℕ → List ℕ
tail [] = []
tail (x ∷ xs) = xs

is_delim-has :
    (ds : List ℕ) (walk c delim : ℕ) (m : Bytes)
    → IsStr m delim ds
    → length ds < walk
    → is_delim walk m c delim ≡ some (has c ds)
unfolding is_delim
is_delim-has ds zero c delim m h enough = absurd (omega arith)
is_delim-has [] (suc walk) c delim m h enough = rw h
is_delim-has (d ∷ ds) (suc walk) c delim m h enough =
    ground (arith, is_delim-has ds walk c (delim + 1) m h.2 (omega arith))

has-zero : (ds : List ℕ) (delim : ℕ) (m : Bytes) → IsStr m delim ds → has 0 ds ≡ false
has-zero [] delim m h = refl
has-zero (d ∷ ds) delim m h = ground (arith, has-zero ds (delim + 1) m h.2)

module _ (ds : List ℕ) (walk delim : ℕ) (m : Bytes) (hd : IsStr m delim ds)
    (long : length ds < walk) where
  skip_delims-token_at :
      (pre : List ℕ) (t : ℕ) (more : List ℕ) (fuel p : ℕ)
      → IsStr m p (pre ++ (t ∷ more))
      → AllIn ds pre
      → has t ds ≡ false
      → length pre < fuel
      → skip_delims fuel walk m delim p ≡ some (token_at (p + length pre))
  unfolding skip_delims
  skip_delims-token_at pre t more zero p h all out enough = absurd (omega arith)
  skip_delims-token_at [] t more (suc fuel) p h all out enough =
      let test : is_delim walk m (m p) delim ≡ some false =
        is_delim-has ds walk (m p) delim m hd long ∙ rw h.0 (ap (λ b. some b) out) in
      let nonzero : (m p == 0) ≡ false = ground (arith, h.0, h.1) in
      rw (test, skip_delims, nonzero) (ap (λ a. some (token_at a)) (omega arith))
  skip_delims-token_at (x ∷ pre) t more (suc fuel) p h all out enough =
      let test : is_delim walk m (m p) delim ≡ some true =
        is_delim-has ds walk (m p) delim m hd long ∙ rw h.0 (ap (λ b. some b) all.0) in
      rw (test, skip_delims)
        (skip_delims-token_at pre t more fuel (p + 1) h.2 all.1 out (omega arith)
          ∙ ap (λ a. some (token_at a)) (omega arith))

  skip_delims-ended :
      (pre : List ℕ) (fuel p : ℕ)
      → IsStr m p pre
      → AllIn ds pre
      → length pre < fuel
      → skip_delims fuel walk m delim p ≡ some ended
  unfolding skip_delims
  skip_delims-ended pre zero p h all enough = absurd (omega arith)
  skip_delims-ended [] (suc fuel) p h all enough =
      let test : is_delim walk m (m p) delim ≡ some false =
        is_delim-has ds walk (m p) delim m hd long
        ∙ rw h (ap (λ b. some b) (has-zero ds delim m hd)) in
      rw (test, skip_delims, h)
  skip_delims-ended (x ∷ pre) (suc fuel) p h all enough =
      let test : is_delim walk m (m p) delim ≡ some true =
        is_delim-has ds walk (m p) delim m hd long ∙ rw h.0 (ap (λ b. some b) all.0) in
      rw (test, skip_delims) (skip_delims-ended pre fuel (p + 1) h.2 all.1 (omega arith))

  -- The token stands at `p`, ended by a null byte, and what follows it at the saved pointer.
  end_token-Cut :
      (tok rest : List ℕ) (fuel p : ℕ)
      → IsStr m p (tok ++ rest)
      → NoneIn ds tok
      → Breaks ds rest
      → length tok < fuel
      → (m' : Bytes) × (static' : ℕ) × (end_token fuel walk m delim p ≡ some (m', static'))
        × IsStr m' p tok
        × IsStr m' static' (tail rest)
        × ((a : ℕ) → a < p → m' a ≡ m a)
  unfolding end_token
  end_token-Cut tok rest zero p h out after enough = absurd (omega arith)
  end_token-Cut [] [] (suc fuel) p h out after enough = (m, p, rw h, h, h, λ a lt. refl)
  end_token-Cut [] (d ∷ rest) (suc fuel) p h out after enough =
      let test : is_delim walk m (m p) delim ≡ some true =
        is_delim-has ds walk (m p) delim m hd long ∙ rw h.0 (ap (λ b. some b) after) in
      let nonzero : (m p == 0) ≡ false = ground (arith, h.0, h.1) in
      let m' : Bytes = store m p 0 in
      (
        m',
        p + 1,
        rw (test, end_token, nonzero),
        ground arith,
        IsStr-frame rest (p + 1) m m' h.2 λ a lo hi. ground arith,
        λ a lt. ground arith,
      )
  end_token-Cut (x ∷ tok) rest (suc fuel) p h out after enough =
      let test : is_delim walk m (m p) delim ≡ some false =
        is_delim-has ds walk (m p) delim m hd long ∙ rw h.0 (ap (λ b. some b) out.0) in
      let nonzero : (m p == 0) ≡ false = ground (arith, h.0, h.1) in
      let (m', static', run, spelt, saved, same) =
        end_token-Cut tok rest fuel (p + 1) h.2 out.1 after (omega arith) in
      (
        m',
        static',
        rw (test, end_token, nonzero) run,
        (same p (omega arith) ∙ h.0, h.1, spelt),
        saved,
        λ a lt. same a (omega arith),
      )

-- The string that a call works on: its argument, or the saved pointer where that is null.
abbrev pub Starts : (to_tok static_str p : ℕ) → Type 0
Starts to_tok static_str p = ((to_tok ≡ p) ⊎ ((to_tok ≡ 0) × (static_str ≡ p))) × (p ≢ 0)

start-Starts :
    (to_tok static_str p : ℕ)
    → Starts to_tok static_str p
    → (if to_tok == 0 then static_str else to_tok) ≡ p
start-Starts to_tok static_str p s = ground arith

kstrtok-Starts :
    (fuel to_tok delim static_str p : ℕ) (m : Bytes)
    → Starts to_tok static_str p
    → kstrtok fuel to_tok delim static_str m ≡ strtok_at fuel p delim static_str m
unfolding kstrtok
kstrtok-Starts fuel to_tok delim static_str p m s =
    let nonzero : (p == 0) ≡ false = ground arith in
    rw (start-Starts to_tok static_str p s, nonzero)

IsStr-drop :
    (xs ys : List ℕ) (p : ℕ) (m : Bytes) → IsStr m p (xs ++ ys) → IsStr m (p + length xs) ys
IsStr-drop [] ys p m h = IsStr-move m ys p (p + 0) (omega arith) h
IsStr-drop (x ∷ xs) ys p m h =
    IsStr-move m ys (p + 1 + length xs) (p + suc (length xs)) (omega arith)
      (IsStr-drop xs ys (p + 1) m h.2)

-- `kstrtok` on a string of delimiters, a token, and a rest that is empty or begins with a delimiter
-- returns the address of the token, ends the token by a null byte, saves the address of what
-- follows the delimiter behind it, and writes nothing before the token.
pub kstrtok-token :
    (ds pre : List ℕ) (t : ℕ) (tok rest : List ℕ) (fuel to_tok delim static_str p : ℕ) (m : Bytes)
    → Starts to_tok static_str p
    → IsStr m delim ds
    → IsStr m p (pre ++ (t ∷ (tok ++ rest)))
    → AllIn ds pre
    → NoneIn ds (t ∷ tok)
    → Breaks ds rest
    → length ds < fuel
    → length pre < fuel
    → suc (length tok) < fuel
    → (m' : Bytes) × (static' : ℕ) × (kstrtok fuel to_tok delim static_str m
        ≡ some (p + length pre, static', m'))
      × IsStr m' (p + length pre) (t ∷ tok)
      × IsStr m' static' (tail rest)
      × ((a : ℕ) → a < p + length pre → m' a ≡ m a)
unfolding strtok_at
kstrtok-token ds pre t tok rest fuel to_tok delim static_str p m s hd h all out after fd fp ft =
    let h' = IsStr-drop pre (t ∷ (tok ++ rest)) p m h in
    let (m', static', run, spelt, saved, same) =
      end_token-Cut ds fuel delim m hd fd (t ∷ tok) rest fuel (p + length pre) h' out after ft in
    (
      m',
      static',
      kstrtok-Starts fuel to_tok delim static_str p m s
          ∙ rw
              (
                skip_delims-token_at ds fuel delim m hd fd pre t (tok ++ rest) fuel p h all out.0
                    fp,
                strtok_at,
              )
              (rw run),
      spelt,
      saved,
      same,
    )

-- On a string of delimiters only, the empty string included, `kstrtok` returns the null pointer and
-- changes neither the memory nor the saved pointer.
pub kstrtok-ended :
    (ds pre : List ℕ) (fuel to_tok delim static_str p : ℕ) (m : Bytes)
    → Starts to_tok static_str p
    → IsStr m delim ds
    → IsStr m p pre
    → AllIn ds pre
    → length ds < fuel
    → length pre < fuel
    → kstrtok fuel to_tok delim static_str m ≡ some (0, static_str, m)
unfolding strtok_at
kstrtok-ended ds pre fuel to_tok delim static_str p m s hd h all fd fp =
    kstrtok-Starts fuel to_tok delim static_str p m s
    ∙ rw (skip_delims-ended ds fuel delim m hd fd pre fuel p h all fp, strtok_at)
