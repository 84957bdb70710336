-- ===== src/Storage/Ramdisk.antt =====
-- What the ramdisk of kernel/drivers/storage.c keeps.
use l_ost.Common.{
  ℕ, zero, suc, ◌+◌, ◌-◌, ◌*◌, ◌/◌, ◌^◌, ◌≤◌, ◌<◌, ◌≡◌, refl, ap, ◌∙◌, ◌⊎◌, inl, inr, true, false,
  arith, dec_lt, ltb, leb, u32,
}
use l_ost.Text.{Bytes}
use l_ost.Storage.{Storage, copy_word, copy_words, place_at, ramdisk_write, ramdisk_read}

-- Two ranges of `n` bytes without a common byte.
abbrev pub Apart : (n a b : ℕ) → Type 0
Apart n a b = (a + n ≤ b) ⊎ (b + n ≤ a)

copy_word-outside :
    (src dest a : ℕ) (m : Bytes) → (a < dest) ⊎ (dest + 4 ≤ a) → copy_word src dest m a ≡ m a
copy_word-outside src dest a m (inl lo) = let out : leb dest a ≡ false = ground arith in rw out refl
copy_word-outside src dest a m (inr hi) =
    let out : ltb a (dest + 4) ≡ false = ground arith in
    let past : leb dest a ≡ true = ground arith in rw (past, out) refl

copy_word-inside :
    (src dest i : ℕ) (m : Bytes) → i < 4 → copy_word src dest m (dest + i) ≡ m (src + i)
copy_word-inside src dest i m hi =
    let past : leb dest (dest + i) ≡ true = ground arith in
    let below : ltb (dest + i) (dest + 4) ≡ true = ground arith in
    let same : dest + i - dest ≡ i = omega arith in rw (past, below, same) refl

copy_words-outside :
    (n src dest a : ℕ) (m : Bytes)
    → (a < dest) ⊎ (dest + 4 * n ≤ a)
    → copy_words n src dest m a ≡ m a
unfolding copy_words
copy_words-outside zero src dest a m out = refl
copy_words-outside (suc n) src dest a m out =
    let out' : (a < dest + 4) ⊎ (dest + 4 + 4 * n ≤ a) = elim out [
      | inl lo ↦ inl (omega arith)
      | inr hi ↦ inr (omega arith)
    ] in
    let out'' : (a < dest) ⊎ (dest + 4 ≤ a) = elim out [
      | inl lo ↦ inl lo
      | inr hi ↦ inr (omega arith)
    ] in
    copy_words-outside n (src + 4) (dest + 4) a (copy_word src dest m) out'
    ∙ copy_word-outside src dest a m out''

copy_words-inside :
    (n src dest i : ℕ) (m : Bytes)
    → i < 4 * n
    → Apart (4 * n) src dest
    → copy_words n src dest m (dest + i) ≡ m (src + i)
unfolding copy_words
copy_words-inside zero src dest i m hi apart = absurd (omega arith)
copy_words-inside (suc n) src dest i m hi apart = elim (dec_lt i 4) [
  | yes first ↦
      copy_words-outside n (src + 4) (dest + 4) (dest + i) (copy_word src dest m)
        (inl (omega arith))
      ∙ copy_word-inside src dest i m first
  | no later ↦
      let apart' : Apart (4 * n) (src + 4) (dest + 4) = elim apart [
        | inl lo ↦ inl (omega arith)
        | inr hi' ↦ inr (omega arith)
      ] in
      let out : (src + i < dest) ⊎ (dest + 4 ≤ src + i) = elim apart [
        | inl lo ↦ inl (omega arith)
        | inr hi' ↦ inr (omega arith)
      ] in
      let there : dest + i ≡ dest + 4 + (i - 4) = omega arith in
      let from : src + 4 + (i - 4) ≡ src + i = omega arith in
      ap (λ a. copy_words n (src + 4) (dest + 4) (copy_word src dest m) a) there
      ∙ copy_words-inside n (src + 4) (dest + 4) (i - 4) (copy_word src dest m) (omega arith) apart'
      ∙ ap (λ a. copy_word src dest m a) from
      ∙ copy_word-outside src dest (src + i) m out
]

pub ramdisk_write-inside :
    (s : Storage) (pos data_at size i : ℕ) (m : Bytes)
    → size * 512 < 2 ^ 32
    → i < size * 512
    → Apart (size * 512) data_at (place_at s pos)
    → ramdisk_write s pos data_at size m (place_at s pos + i) ≡ m (data_at + i)
unfolding ramdisk_write
ramdisk_write-inside s pos data_at size i m wide hi apart =
    let words : 4 * (u32 (size * 512) / 4) ≡ size * 512 = omega arith in
    copy_words-inside (u32 (size * 512) / 4) data_at (place_at s pos) i m (rw words hi)
      (rw words apart)

ramdisk_write-outside :
    (s : Storage) (pos data_at size a : ℕ) (m : Bytes)
    → size * 512 < 2 ^ 32
    → (a < place_at s pos) ⊎ (place_at s pos + size * 512 ≤ a)
    → ramdisk_write s pos data_at size m a ≡ m a
unfolding ramdisk_write
ramdisk_write-outside s pos data_at size a m wide out =
    let words : 4 * (u32 (size * 512) / 4) ≡ size * 512 = omega arith in
    copy_words-outside (u32 (size * 512) / 4) data_at (place_at s pos) a m (rw words out)

pub ramdisk_read-inside :
    (s : Storage) (pos data_at size i : ℕ) (m : Bytes)
    → size * 512 < 2 ^ 32
    → i < size * 512
    → Apart (size * 512) (place_at s pos) data_at
    → ramdisk_read s pos data_at size m (data_at + i) ≡ m (place_at s pos + i)
unfolding ramdisk_read
ramdisk_read-inside s pos data_at size i m wide hi apart =
    let words : 4 * (u32 (size * 512) / 4) ≡ size * 512 = omega arith in
    copy_words-inside (u32 (size * 512) / 4) (place_at s pos) data_at i m (rw words hi)
      (rw words apart)

-- What ramdisk_write stores at a position, ramdisk_read gives back from there byte for byte, for
-- fewer than 2^32 bytes, when neither buffer meets the place in the ramdisk, whose address is taken in
-- 32 bits, and neither they nor the place reach behind the last address.
pub ramdisk_read-ramdisk_write :
    (s : Storage) (pos source target size i : ℕ) (m : Bytes)
    → size * 512 < 2 ^ 32
    → i < size * 512
    → Apart (size * 512) source (place_at s pos)
    → Apart (size * 512) (place_at s pos) target
    → place_at s pos + size * 512 ≤ 2 ^ 32
    → source + size * 512 ≤ 2 ^ 32
    → target + size * 512 ≤ 2 ^ 32
    → ramdisk_read s pos target size (ramdisk_write s pos source size m) (target + i)
      ≡ m (source + i)
ramdisk_read-ramdisk_write s pos source target size i m wide hi from to inside inside_source
      inside_target =
    ramdisk_read-inside s pos target size i (ramdisk_write s pos source size m) wide hi to
    ∙ ramdisk_write-inside s pos source size i m wide hi from

-- Writing one sector of the ramdisk replaces all but the first four bytes of the sector at the
-- position before, below 4 GiB: positions are four bytes apart, not 512.
pub ramdisk_write-overlap :
    (s : Storage) (pos source target i : ℕ) (m : Bytes)
    → i < 508
    → s.ramdisk + 4 * (pos + 1) + 512 ≤ 2 ^ 32
    → Apart 512 source (place_at s (pos + 1))
    → Apart 512 (place_at s pos) target
    → ramdisk_read s pos target 1 (ramdisk_write s (pos + 1) source 1 m) (target + (4 + i))
      ≡ m (source + i)
ramdisk_write-overlap s pos source target i m hi inside from to =
    let there : place_at s pos + (4 + i) ≡ place_at s (pos + 1) + i = omega arith in
    ramdisk_read-inside s pos target 1 (4 + i) (ramdisk_write s (pos + 1) source 1 m) (omega arith)
      (omega arith) to
    ∙ ap (λ a. ramdisk_write s (pos + 1) source 1 m a) there
    ∙ ramdisk_write-inside s (pos + 1) source 1 i m (omega arith) (omega arith) from
