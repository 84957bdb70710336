-- ===== src/Text.antt =====
-- The string and memory routines of kernel/memory/string.c, over a memory of bytes by address.
-- A loop that walks a string takes fuel, and `none` means that it has not ended with that fuel.
pub mod Spelling
pub mod Compare
pub mod Copy
pub mod Concat
pub mod Numbers
pub mod Tokens
pub mod Sprintf
pub mod Sheet
pub mod Appends
pub mod Pieces
pub mod Formats
mod Tests
use l_ost.Common.{
  promote, ℕ, zero, suc, ◌+◌, ◌-◌, ◌*◌, ◌/◌, ◌%◌, ◌^◌, ◌≤◌, ◌<◌, ◌≡◌, ◌≢◌, refl, sym, ap, ◌∙◌, ◌↔◌,
  ◌⊎◌, inl, inr, Bool, true, false, ◌&&◌, ◌||◌, not, Option, none, some, List, [], ◌∷◌, ◌++◌, arith,
  ℕ_discrete, dec_lt, ltb, leb, ◌==◌, if◌then◌else◌, Bool-cases, Option-cases, length, u8, u16, u32,
  mask, bit_field, slt,
}
use l_ost.Common.Int.{ℤ, pos, sub_ℕ}

-- The byte at each address.
abbrev pub Bytes : Type 0
Bytes = ℕ → ℕ

-- `*a = v`.
abbrev pub store : Bytes → ℕ → ℕ → Bytes
store m a v b = if b == a then v else m b

-- `while(*(s+i)) i++;`.
unfoldable pub strlen_from : (fuel : ℕ) → Bytes → (s i : ℕ) → Option ℕ
strlen_from zero m s i = none
strlen_from (suc fuel) m s i =
    let rest = strlen_from fuel m s (i + 1) in if m (s + i) == 0 then some i else rest

unfoldable pub kstrlen : (fuel : ℕ) → Bytes → ℕ → Option ℕ
kstrlen fuel m s = strlen_from fuel m s 0

-- `x - y` for two bytes read as `char`, which is signed.
pub char_difference : ℕ → ℕ → ℤ
char_difference x y = sub_ℕ ((x + 128) % 256) ((y + 128) % 256)

-- The loop of `kstrcmp`, for strings of one length.
unfoldable pub strcmp_from : (fuel : ℕ) → Bytes → (s c i : ℕ) → Option ℤ
strcmp_from zero m s c i = none
strcmp_from (suc fuel) m s c i =
    let rest = strcmp_from fuel m s c (i + 1) in
    if m (s + i) == 0
    then some (pos 0)
    else if m (s + i) == m (c + i)
    then rest
    else some (char_difference (m (s + i)) (m (c + i)))

unfoldable pub kstrcmp : (fuel : ℕ) → Bytes → (s c : ℕ) → Option ℤ
kstrcmp fuel m s c = elim (kstrlen fuel m s) [
  | none ↦ none
  | some n ↦ elim (kstrlen fuel m c) [
    | none ↦ none
    | some k ↦ if n == k then strcmp_from fuel m s c 0 else some (sub_ℕ n k)
  ]
]

-- The loop of `kmemcmp`, with `n` rounds left.
pub memcmp_from : Bytes → (source dest : ℕ) → ℕ → ℕ → ℤ
memcmp_from m source dest zero i = pos 0
memcmp_from m source dest (suc n) i =
    if m (source + i) == m (dest + i)
    then memcmp_from m source dest n (i + 1)
    else sub_ℕ (m (source + i)) (m (dest + i))

pub kmemcmp : Bytes → (source dest num : ℕ) → ℤ
kmemcmp m source dest num = memcmp_from m source dest num 0

-- The loop of `kmemcpy`: forwards, byte by byte.
unfoldable pub memcpy_from : (s d : ℕ) → ℕ → ℕ → Bytes → Bytes
memcpy_from s d zero i m = m
memcpy_from s d (suc n) i m = memcpy_from s d n (i + 1) (store m (d + i) (m (s + i)))

unfoldable pub kmemcpy : (s d bytes : ℕ) → Bytes → Bytes
kmemcpy s d bytes m = memcpy_from s d bytes 0 m

-- The loop of `kmemset`: `d[i] = val` on shorts, low byte first.
pub memset_from : (d val : ℕ) → ℕ → ℕ → Bytes → Bytes
memset_from d val zero i m = m
memset_from d val (suc n) i m =
    memset_from d val n (i + 1)
      (store (store m (d + 2 * i) (u8 val)) (d + 2 * i + 1) (u8 (val / 256)))

unfoldable pub kmemset : (d bytes val : ℕ) → Bytes → Bytes
kmemset d bytes val m = memset_from d val (bytes / 2) 0 m

-- `clearmem` assigns its own copy of the pointer, so no byte changes.
pub clearmem_from : (n ptr : ℕ) → Bytes → Bytes
clearmem_from zero ptr m = m
clearmem_from (suc n) ptr m = clearmem_from n 0 m

pub clearmem : (ptr count : ℕ) → Bytes → Bytes
clearmem ptr count m = clearmem_from count ptr m

-- What `ltostr` returns: a null pointer, or the text in its buffer.
pub data Printed : Type 0 where
  null : Printed
  text : List ℕ → Printed

-- `arr[d]`, for the 36 digits of `arr`.
pub digit : ℕ → ℕ
digit d = if ltb d 10 then b'0' + d else b'A' + d - 10

-- The `do … while` of `ltostr`. `acc` is what stands in the buffer from `ret` on. `none` stands for
-- a loop that has not ended, and for a division by zero.
pub ltostr_from : (fuel base number padding : ℕ) → List ℕ → Option (List ℕ)
ltostr_from zero base number padding acc = none
ltostr_from (suc fuel) base number padding acc =
    let acc' = digit (number % base) ∷ acc in
    let rest = ltostr_from fuel base (number / base) (padding - 1) acc' in
    if base == 0 then none else if number / base == 0 && padding - 1 == 0 then some acc' else rest

-- `none` is a number that has no end, and one whose digits begin in front of the buffer of 50 bytes.
unfoldable pub ltostr : (number base padding_count : ℕ) → Option Printed
ltostr number base padding_count =
    if base == 1
    then some null
    else elim (ltostr_from (number + padding_count + 1) base number padding_count []) [
      | none ↦ none
      | some digits ↦ if ltb 49 (length digits) then none else some (text digits)
    ]

-- `ret *= 10; ret += *str - '0';`.
pub strtol_step : ℕ → ℕ → ℕ
strtol_step ret c = u32 (u32 (ret * 10) + promote c + 2 ^ 32 - b'0')

pub strtol_from : (fuel : ℕ) → Bytes → (str ret : ℕ) → Option ℕ
strtol_from zero m str ret = none
strtol_from (suc fuel) m str ret =
    let rest = strtol_from fuel m (str + 1) (strtol_step ret (m str)) in
    if m str == 0 then some ret else rest

unfoldable pub kstrtol : (fuel : ℕ) → Bytes → ℕ → Option ℕ
kstrtol fuel m str = strtol_from fuel m str 0

-- `while(first[pos]) { dest[pos] = first[pos]; pos++; }`, with the position where it ends.
pub strcat_first : (fuel : ℕ) → (dest first at : ℕ) → Bytes → Option (ℕ × Bytes)
strcat_first zero dest first at m = none
strcat_first (suc fuel) dest first at m =
    let rest = strcat_first fuel dest first (at + 1) (store m (dest + at) (m (first + at))) in
    if m (first + at) == 0 then some (at, m) else rest

-- `while(*second) dest[pos++] = *(second++);`.
pub strcat_second : (fuel : ℕ) → (dest at second : ℕ) → Bytes → Option Bytes
strcat_second zero dest at second m = none
strcat_second (suc fuel) dest at second m =
    let rest = strcat_second fuel dest (at + 1) (second + 1) (store m (dest + at) (m second)) in
    if m second == 0 then some m else rest

-- `dest[kstrlen(dest)] = 0;`.
pub strcat_end : (fuel dest : ℕ) → Bytes → Option Bytes
strcat_end fuel dest m = elim (kstrlen fuel m dest) [
  | none ↦ none
  | some n ↦ some (store m (dest + n) 0)
]

unfoldable pub kstrcat : (fuel : ℕ) → (dest first second : ℕ) → Bytes → Option Bytes
kstrcat fuel dest first second m = elim (strcat_first fuel dest first 0 m) [
  | none ↦ none
  | some (at, m') ↦ elim (strcat_second fuel dest at second m') [
    | none ↦ none
    | some m'' ↦ strcat_end fuel dest m''
  ]
]

-- `is_delim`.
unfoldable pub is_delim : (fuel : ℕ) → Bytes → (c delim : ℕ) → Option Bool
is_delim zero m c delim = none
is_delim (suc fuel) m c delim =
    let rest = is_delim fuel m c (delim + 1) in
    if m delim == 0 then some false else if c == m delim then some true else rest

-- What the first loop of `kstrtok` ends with: the end of the string, or the start of a token.
pub data Skipped : Type 0 where
  ended : Skipped
  token_at : ℕ → Skipped

unfoldable pub skip_delims : (fuel walk : ℕ) → Bytes → (delim to_tok : ℕ) → Option Skipped
skip_delims zero walk m delim to_tok = none
skip_delims (suc fuel) walk m delim to_tok =
    let rest = skip_delims fuel walk m delim (to_tok + 1) in
    elim (is_delim walk m (m to_tok) delim) [
      | none ↦ none
      | some true ↦ rest
      | some false ↦ if m to_tok == 0 then some ended else some (token_at to_tok)
    ]

-- The second loop of `kstrtok`: the memory and `static_str` when it returns.
unfoldable pub end_token : (fuel walk : ℕ) → Bytes → (delim to_tok : ℕ) → Option (Bytes × ℕ)
end_token zero walk m delim to_tok = none
end_token (suc fuel) walk m delim to_tok =
    let rest = end_token fuel walk m delim (to_tok + 1) in
    if m to_tok == 0 then some (m, to_tok) else elim (is_delim walk m (m to_tok) delim) [
      | none ↦ none
      | some true ↦ some (store m to_tok 0, to_tok + 1)
      | some false ↦ rest
    ]

-- `kstrtok` behind its two tests on the null pointer.
unfoldable pub strtok_at :
    (fuel to_tok delim : ℕ) → (static_str : ℕ) → Bytes → Option (ℕ × ℕ × Bytes)
strtok_at fuel to_tok delim static_str m = elim (skip_delims fuel fuel m delim to_tok) [
  | none ↦ none
  | some ended ↦ some (0, static_str, m)
  | some (token_at ret) ↦ elim (end_token fuel fuel m delim ret) [
    | none ↦ none
    | some (m', static') ↦ some (ret, static', m')
  ]
]

-- `kstrtok`: the result, and `static_str` and the memory afterwards. 0 is the null pointer.
unfoldable pub kstrtok : (fuel to_tok delim : ℕ) → (static_str : ℕ) → Bytes → Option (ℕ × ℕ × Bytes)
kstrtok fuel to_tok delim static_str m =
    let start : ℕ = if to_tok == 0 then static_str else to_tok in
    if start == 0 then some (0, static_str, m) else strtok_at fuel start delim static_str m
