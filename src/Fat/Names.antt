-- ===== src/Fat/Names.antt =====
-- The search of a directory by name: `search_dir` of kernel/filesystems/fat.c.
use l_ost.Common.{
  ℕ, zero, suc, ◌+◌, ◌-◌, ◌^◌, ◌≤◌, ◌<◌, ◌≡◌, ◌≢◌, refl, sym, ap, ◌∙◌, ◌⊎◌, inl, inr, Bool, true,
  false, Option, none, some, List, ◌∷◌, arith, ℕ_discrete, ltb, ◌==◌, if◌then◌else◌, Bool-cases,
  length, u32,
}
use l_ost.Common.Int.{ℤ, pos, negsuc}
use l_ost.Text.{Bytes, kstrlen, kmemcmp}
use l_ost.Text.Spelling.{IsStr, kstrlen-length}
use l_ost.Text.Compare.{kmemcmp_eq}

-- The first loop: where the first '.' of the string is, or 0.
unfoldable pub dot_from : (fuel : ℕ) → Bytes → (extension : ℕ) → Option ℕ
dot_from zero m extension = none
dot_from (suc fuel) m extension =
    let rest = dot_from fuel m (extension + 1) in
    if m extension == 46 then some extension else if m extension == 0 then some 0 else rest

-- An `int` as the number of rounds of a loop up to it.
abbrev pub rounds : ℕ → ℕ
rounds n = if ltb n (2 ^ 31) then n else 0

abbrev pub is_zero : ℤ → Bool
is_zero (pos n) = n == 0
is_zero (negsuc n) = false

is_zero-pos : (i : ℤ) → is_zero i ≡ true → i ≡ pos 0
is_zero-pos (pos n) h = ap (λ k. pos k) (ground (arith, h))
is_zero-pos (negsuc n) h = absurd (ground (arith, h))

-- `!kmemcmp(a, b, num)`.
unfoldable pub same_bytes : Bytes → (a b num : ℕ) → Bool
same_bytes m a b num = is_zero (kmemcmp m a b (rounds num))

-- The second loop, of `n` rounds, at the address of an entry of 32 bytes.
unfoldable pub search_from : (fuel n : ℕ) → Bytes → (name extension entry : ℕ) → Option ℕ
search_from fuel zero m name extension entry = some 0
search_from fuel (suc n) m name extension entry =
    let rest = search_from fuel n m name extension (entry + 32) in
    if same_bytes m name entry (u32 (extension + 2 ^ 32 - name))
    then if extension == 0 then some entry else elim (kstrlen fuel m extension) [
      | none ↦ none
      | some length ↦ if same_bytes m extension entry length then some entry else rest
    ]
    else rest

-- `search_dir`: the address of an entry, or 0.
unfoldable pub search_dir : (fuel : ℕ) → Bytes → (file dir dirsize : ℕ) → Option ℕ
search_dir fuel m file dir dirsize = elim (dot_from fuel m file) [
  | none ↦ none
  | some extension ↦ search_from fuel dirsize m file extension dir
]

-- What a search for the name at `file` comes to, by the name alone: one without a '.' is found in the
-- first entry, and one with a '.' behind its first character is not found.
pub data Outcome (fuel : ℕ) (m : Bytes) (file dir dirsize : ℕ) : ℕ → Type 0 where
  plain :
      (n : ℕ)
      → ((a : ℕ) → file ≤ a → a < file + n → (m a ≢ 46) × (m a ≢ 0))
      → m (file + n) ≡ 0
      → n < fuel
      → Outcome fuel m file dir dirsize (if dirsize == 0 then 0 else dir)
  dotted :
      (n : ℕ) (extension : List ℕ)
      → ((a : ℕ) → file ≤ a → a < file + n → (m a ≢ 46) × (m a ≢ 0))
      → IsStr m (file + n) (46 ∷ extension)
      → 0 < n
      → n < 2 ^ 31
      → n < fuel
      → length extension + 1 < fuel
      → length extension < 2 ^ 31 - 1
      → Outcome fuel m file dir dirsize 0

-- The first loop ends at `q`, where the first '.' or null byte is.
dot_from-end :
    (fuel p q : ℕ) (m : Bytes)
    → p ≤ q
    → q < p + fuel
    → ((a : ℕ) → p ≤ a → a < q → (m a ≢ 46) × (m a ≢ 0))
    → (m q ≡ 46) ⊎ (m q ≡ 0)
    → dot_from fuel m p ≡ some (if m q == 46 then q else 0)
unfolding dot_from
dot_from-end zero p q m le more name end = absurd (omega arith)
dot_from-end (suc fuel) p q m le more name end = elim (ℕ_discrete p q) [
  | yes e ↦ elim end [
    | inl dot ↦ rw (e, dot_from, dot) refl
    | inr null ↦ rw (e, dot_from, null) refl
  ]
  | no ne ↦
      let (no_dot, no_null) = name p (omega arith) (omega arith) in
      let dot : (m p == 46) ≡ false = ground (arith, no_dot) in
      let null : (m p == 0) ≡ false = ground (arith, no_null) in
      let next =
        dot_from-end fuel (p + 1) q m (omega arith) (omega arith)
          (λ a lo hi. name a (omega arith) hi) end in
      rw (dot_from, dot, null) next
]

same_bytes-none : (m : Bytes) (a b num : ℕ) → rounds num ≡ 0 → same_bytes m a b num ≡ true
unfolding same_bytes
same_bytes-none m a b num none_left =
    let equal : kmemcmp m a b 0 ≡ pos 0 = (kmemcmp_eq m a b 0).1 (λ j lt. absurd (omega arith)) in
    rw (same_bytes, none_left, equal) refl

same_bytes-first :
    (m : Bytes) (a b num : ℕ) → 0 < num → num < 2 ^ 31 → same_bytes m a b num ≡ true → m a ≡ m b
unfolding same_bytes
same_bytes-first m a b num some_left small same =
    let all : rounds num ≡ num = ground arith in
    let equal = (kmemcmp_eq m a b (rounds num)).0 (is_zero-pos (kmemcmp m a b (rounds num)) same) in
    ap m (omega arith) ∙ equal 0 (rw all some_left) ∙ ap m (omega arith)

search_from-plain :
    (fuel n : ℕ) (m : Bytes) (name entry : ℕ)
    → 0 < name
    → name ≤ 2 ^ 31
    → search_from fuel n m name 0 entry ≡ some (if n == 0 then 0 else entry)
unfolding search_from
search_from-plain fuel zero m name entry real low = refl
search_from-plain fuel (suc n) m name entry real low =
    let negative : rounds (u32 (0 + 2 ^ 32 - name)) ≡ 0 = ground arith in
    let positive : (suc n == 0) ≡ false = ground arith in
    rw (search_from, same_bytes-none m name entry (u32 (0 + 2 ^ 32 - name)) negative, positive) refl

search_from-dotted :
    (fuel n length : ℕ) (m : Bytes) (name extension entry : ℕ)
    → u32 (extension + 2 ^ 32 - name) ≢ 0
    → u32 (extension + 2 ^ 32 - name) < 2 ^ 31
    → 0 < extension
    → kstrlen fuel m extension ≡ some length
    → 0 < length
    → length < 2 ^ 31
    → m name ≢ m extension
    → search_from fuel n m name extension entry ≡ some 0
unfolding search_from
search_from-dotted fuel zero length m name extension entry count small real run some_left short ne =
    refl
search_from-dotted fuel (suc n) length m name extension entry count small real run some_left short
      ne =
    let rest =
      search_from-dotted fuel n length m name extension (entry + 32) count small real run some_left
        short ne in
    let nonzero : (extension == 0) ≡ false = ground arith in
    elim (Bool-cases (same_bytes m name entry (u32 (extension + 2 ^ 32 - name)))) [
      | inr differs ↦ rw (search_from, differs) rest
      | inl same ↦ elim (Bool-cases (same_bytes m extension entry length)) [
        | inr differs ↦ rw (search_from, same, nonzero, run, differs) rest
        | inl same' ↦ absurd (
            ne (
              same_bytes-first m name entry (u32 (extension + 2 ^ 32 - name)) (omega arith) small
                same
              ∙ sym (same_bytes-first m extension entry length some_left short same')))
      ]
    ]

-- For a name at an address that is not 0 and at most 2^31, `search_dir` comes back with what the name
-- alone decides: a name without '.' is found in the first entry of a directory that is not empty, and
-- a name with a '.' behind its first character is not found, whatever the entries hold.
pub search_dir-Outcome :
    (fuel file dir dirsize result : ℕ) (m : Bytes)
    → 0 < file
    → file ≤ 2 ^ 31
    → Outcome fuel m file dir dirsize result
    → search_dir fuel m file dir dirsize ≡ some result
unfolding search_dir
search_dir-Outcome fuel file dir dirsize result m real low (plain n name end more) =
    let dot = dot_from-end fuel file (file + n) m (omega arith) (omega arith) name (inr end) in
    let none_there : (if m (file + n) == 46 then file + n else 0) ≡ 0 = ground (arith, end) in
    rw (search_dir, dot, none_there) (search_from-plain fuel dirsize m file dir real low)
search_dir-Outcome fuel file dir dirsize result m real low
      (dotted n extension name spelt some_left short more more' short') =
    let dot = dot_from-end fuel file (file + n) m (omega arith) (omega arith) name (inl spelt.0) in
    let there : (if m (file + n) == 46 then file + n else 0) ≡ file + n = ground (arith, spelt.0) in
    let count : u32 (file + n + 2 ^ 32 - file) ≡ n = omega arith in
    let first = (name file (omega arith) (omega arith)).0 in
    rw (search_dir, dot, there)
      (search_from-dotted fuel dirsize (length (46 ∷ extension)) m file (file + n) dir
        (ground arith) (omega arith) (omega arith)
        (kstrlen-length (46 ∷ extension) fuel (file + n) m spelt (ground arith)) (ground arith)
        (ground arith) (λ e. first (e ∙ spelt.0)))
