-- ===== src/Text/Sprintf.antt =====
-- `ksprintf` of kernel/memory/string.c. The memory of bytes holds the page that it fills at `final`,
-- the two bytes of its local arrays at `scratch`, the buffer of `ltostr`, and the constant "-".
use l_ost.Common.{
  ℕ, zero, suc, ◌+◌, ◌-◌, ◌*◌, ◌/◌, ◌^◌, Bool, true, false, ◌||◌, Option, none, some, List, [], ◌∷◌,
  ltb, leb, ◌==◌, if◌then◌else◌, length, u8,
}
use l_ost.Memory.{Memory, kmalloc}
use l_ost.Text.{Bytes, store, null, text, ltostr, kstrlen, kstrcat, kmemcpy}

-- The memory, and the variable `pages`.
pub record Sprintf : Type 0 where
  pub memory : Memory
  pub bytes : Bytes
  pub pages : ℕ

-- A text and its null byte, written from `ret` on.
unfoldable pub lodge : (ret : ℕ) → List ℕ → Bytes → Bytes
lodge ret [] m = store m ret 0
lodge ret (c ∷ cs) m = lodge (ret + 1) cs (store m ret c)

-- `ltostr` with its buffer: the address that it returns, and the memory.
unfoldable pub ltostr_at : (buffer number base : ℕ) → Bytes → Option (ℕ × Bytes)
ltostr_at buffer number base m = elim (ltostr number base 0) [
  | none ↦ none
  | some p ↦ elim p [
    | null ↦ none
    | text cs ↦ some (buffer + 49 - length cs, lodge (buffer + 49 - length cs) cs m)
  ]
]

-- The letters of the cases of the `switch`, each of which takes an argument.
unfoldable pub is_case : ℕ → Bool
is_case d = d == b'c' || d == b'd' || d == b'x' || d == b'o' || d == b's'

module _ (fuel scratch buffer minus final : ℕ) where
  -- `kstrcat(final, final, second)`.
  unfoldable pub append : (second : ℕ) → Sprintf → Option Sprintf
  append second s = elim (kstrcat fuel final final second s.bytes) [
    | none ↦ none
    | some m ↦ some (record s { bytes = m })
  ]

  -- The test in front of an `append` of `extra` characters: `tmp` is written, and `final` stays.
  unfoldable pub grow : (extra : ℕ) → Sprintf → Option Sprintf
  grow extra s = elim (kstrlen fuel s.bytes final) [
    | none ↦ none
    | some n ↦
        let (tmp, memory) = kmalloc (s.pages + 1) 6 s.memory in
        if leb (4096 * s.pages) (n + extra)
        then some
            (record { memory = memory; bytes = kmemcpy final tmp n s.bytes; pages = s.pages + 1 })
        else some s
  ]

  unfoldable pub append_letter : (c : ℕ) → Sprintf → Option Sprintf
  append_letter c s =
      append scratch (record s { bytes = store (store s.bytes scratch c) (scratch + 1) 0 })

  -- The case of a number, which prints it twice.
  unfoldable pub append_number : (i base : ℕ) → Sprintf → Option Sprintf
  append_number i base s = elim (ltostr_at buffer i base s.bytes) [
    | none ↦ none
    | some (first, m1) ↦ elim (kstrlen fuel m1 first) [
      | none ↦ none
      | some k ↦ elim (grow k (record s { bytes = m1 })) [
        | none ↦ none
        | some s1 ↦ elim (ltostr_at buffer i base s1.bytes) [
          | none ↦ none
          | some (second, m2) ↦ append second (record s1 { bytes = m2 })
        ]
      ]
    ]
  ]

  unfoldable pub append_string : (str : ℕ) → Sprintf → Option Sprintf
  append_string str s = elim (kstrlen fuel s.bytes str) [
    | none ↦ none
    | some k ↦ elim (grow k s) [ none ↦ none | some s1 ↦ append str s1 ]
  ]

  -- A case of the `switch`, on the argument that it takes.
  unfoldable pub convert_case : (d i : ℕ) → Sprintf → Option Sprintf
  convert_case d i s =
      if d == b'c'
      then elim (grow 1 s) [ none ↦ none | some s1 ↦ append_letter (u8 i) s1 ]
      else if d == b'd'
      then (if ltb i (2 ^ 31)
          then append_number i 10 s
          else elim (append minus s) [ none ↦ none | some s1 ↦ append_number (2 ^ 32 - i) 10 s1 ])
      else if d == b'x'
      then append_number i 16 s
      else if d == b'o'
      then append_number i 8 s
      else append_string i s

  unfoldable pub sprintf_case : (d : ℕ) → List ℕ → Sprintf → Option (List ℕ × Sprintf)
  sprintf_case d args s =
      if is_case d
      then elim args [
        | [] ↦ none
        | i ∷ rest ↦ elim (convert_case d i s) [ none ↦ none | some s' ↦ some (rest, s') ]
      ]
      else some (args, s)

  -- The two loops, which both end at a null byte, as one walk of `walk` steps.
  unfoldable pub sprintf_from : (walk fmt : ℕ) → List ℕ → Sprintf → Option Sprintf
  sprintf_from zero fmt args s = none
  sprintf_from (suc walk) fmt args s = elim (s.bytes fmt == 0) [
    | true ↦ some s
    | false ↦ elim (s.bytes fmt == b'%') [
      | true ↦ elim (sprintf_case (s.bytes (fmt + 1)) args s) [
        | none ↦ none
        | some (args', s') ↦ sprintf_from walk (fmt + 2) args' s'
      ]
      | false ↦ elim (append_letter (s.bytes fmt) s) [
        | none ↦ none
        | some s' ↦ sprintf_from walk (fmt + 1) args s'
      ]
    ]
  ]

-- `ksprintf`: the address of the text, and the memory.
unfoldable pub ksprintf :
    (fuel scratch buffer minus format : ℕ) → List ℕ → Memory → Bytes → Option (ℕ × Sprintf)
ksprintf fuel scratch buffer minus format args memory m = elim (kstrlen fuel m format) [
  | none ↦ none
  | some n ↦
      let pages = n / 4096 + 1 in
      let (final, taken) = kmalloc pages 6 memory in
      elim (sprintf_from fuel scratch buffer minus final fuel format args
        (record { memory = taken; bytes = m; pages = pages })) [
          | none ↦ none
          | some s ↦ some (final, s)
        ]
]
