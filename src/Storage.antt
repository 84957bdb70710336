-- ===== src/Storage.antt =====
-- The tables of drives and filesystems and the ramdisk of kernel/drivers/storage.c, on the bytes of
-- memory. `read_from_drive` and `write_to_drive` take the ATA driver as an argument.
pub mod Table
pub mod Ramdisk
pub mod Detect
pub mod Partitions
pub mod Mounting
mod Tests
use l_ost.Common.{
  ℕ, zero, suc, ◌+◌, ◌-◌, ◌*◌, ◌/◌, ◌%◌, ◌^◌, ◌≤◌, ◌<◌, ◌≡◌, ◌≢◌, refl, sym, ap, ◌∙◌, ◌↔◌, ◌⊎◌, inl,
  inr, Bool, true, false, ◌&&◌, ◌||◌, not, Option, none, some, List, [], ◌∷◌, ◌++◌, arith,
  ℕ_discrete, dec_lt, ltb, leb, ◌==◌, if◌then◌else◌, Bool-cases, Option-cases, length, u8, u16, u32,
  mask, bit_field, slt, promote,
}
use l_ost.Text.{Bytes, store}

-- `enum Drive_Types`.
abbrev pub drive_null : ℕ
drive_null = 0

abbrev pub drive_virt : ℕ
drive_virt = 1

abbrev pub drive_pata28 : ℕ
drive_pata28 = 3

-- The error codes of kernel/cpu/ecodes.h that the drives use.
abbrev pub e_no_err : ℕ
e_no_err = 0

abbrev pub de_invalid_drive : ℕ
de_invalid_drive = 4

abbrev pub e_not_implemented : ℕ
e_not_implemented = 7

-- `drive32_t`.
pub record Drive : Type 0 where
  pub number : ℕ
  pub drive_type : ℕ
  pub read_only : Bool
  pub removable : Bool
  pub hidden : Bool
  pub contains_pt : Bool
  pub size_low : ℕ
  pub size_high : ℕ
  pub bytes_per_sector : ℕ

-- `filesystem32_t`.
pub record Filesystem : Type 0 where
  pub mount_id : ℕ
  pub fs_type : ℕ
  pub partition : ℕ
  pub drive : ℕ
  pub read_only : Bool
  pub system : Bool
  pub hidden : Bool
  pub removable : Bool
  pub start_low : ℕ
  pub start_high : ℕ
  pub sector_size_bytes : ℕ
  pub size_low : ℕ
  pub size_high : ℕ

-- `filesystems`, `drives` and `ramdisk`. A null pointer is `none`.
pub record Storage : Type 0 where
  pub filesystems : ℕ → Option Filesystem
  pub drives : ℕ → Option Drive
  pub ramdisk : ℕ

abbrev pub max_entries : ℕ
max_entries = 26

unfoldable pub is_some : {A : Type 0} → Option A → Bool
is_some none = false
is_some (some a) = true

-- Where `c += (t[i] != 0)` ends up from index `i` on.
unfoldable pub count_from : {A : Type 0} → (n i c : ℕ) → (ℕ → Option A) → ℕ
count_from zero i c t = c
count_from (suc n) i c t = count_from n (i + 1) (if is_some (t i) then c + 1 else c) t

unfoldable pub get_fs_count : Storage → ℕ
get_fs_count s = count_from max_entries 0 0 s.filesystems

-- `count` is the value that the variable, which is not initialised, has at first.
unfoldable pub get_drive_count : (count : ℕ) → Storage → ℕ
get_drive_count count s = u8 (count_from max_entries 0 count s.drives)

pub get_fs : (fs : ℕ) → Storage → Option Filesystem
get_fs fs s = s.filesystems fs

pub get_drive : (drive : ℕ) → Storage → Option Drive
get_drive drive s = s.drives drive

-- The first null index from `i` on.
unfoldable pub free_from_index : {A : Type 0} → (n i : ℕ) → (ℕ → Option A) → Option ℕ
free_from_index zero i t = none
free_from_index (suc n) i t =
    let rest = free_from_index n (i + 1) t in if is_some (t i) then rest else some i

unfoldable pub register_fs : Filesystem → Storage → ℕ × Storage
register_fs filesystem s = elim (free_from_index max_entries 0 s.filesystems) [
  | none ↦ (2 ^ 32 - 1, s)
  | some i ↦ (
    0,
    record s {
      filesystems =
          λ j. if j == i then some (record filesystem { mount_id = i }) else s.filesystems j;
    },
  )
]

-- The first steps of `register_drive`, up to the reading of the partition table.
unfoldable pub mount_drive : Drive → Storage → ℕ × Storage
mount_drive drive_to_register s = elim (free_from_index max_entries 0 s.drives) [
  | none ↦ (2 ^ 32 - 1, s)
  | some i ↦ (
    0,
    record s {
      drives = λ j. if j == i then some (record drive_to_register { number = i }) else s.drives j;
    },
  )
]

-- `*dest = *src` on a word of 32 bits.
abbrev pub copy_word : (src dest : ℕ) → Bytes → Bytes
copy_word src dest m a = if leb dest a && ltb a (dest + 4) then m (src + (a - dest)) else m a

-- A driver whose reading comes back from each call.
abbrev pub Answers :
    ((buffer : ℕ) → Drive → (sectors start : ℕ) → Bytes → Option (ℕ × Bytes)) → Type 0
Answers ata_read =
    (buffer : ℕ) (d : Drive) (sectors start : ℕ) (m : Bytes)
    → (x : ℕ × Bytes) × (ata_read buffer d sectors start m ≡ some x)

-- The loop of `ramdisk_write` and `ramdisk_read`, of `n` rounds, on buffers that do not reach behind the
-- last address.
pub copy_words : (n src dest : ℕ) → Bytes → Bytes
copy_words zero src dest m = m
copy_words (suc n) src dest m = copy_words n (src + 4) (dest + 4) (copy_word src dest m)

-- `ramdisk + pos`: `ramdisk` points to words of four bytes, and an address has 32 bits.
abbrev pub place_at : Storage → (pos : ℕ) → ℕ
place_at s pos = u32 (s.ramdisk + 4 * pos)

pub ramdisk_write : Storage → (pos data_at size : ℕ) → Bytes → Bytes
ramdisk_write s pos data_at size m = copy_words (u32 (size * 512) / 4) data_at (place_at s pos) m

pub ramdisk_read : Storage → (pos data_at size : ℕ) → Bytes → Bytes
ramdisk_read s pos data_at size m = copy_words (u32 (size * 512) / 4) (place_at s pos) data_at m

module _
    -- `ata_read` and `ata_write`, on a drive's entry; `none` is a call that does not come back
    (ata_read : (buffer : ℕ) → Drive → (sectors start : ℕ) → Bytes → Option (ℕ × Bytes))
    (ata_write : (buffer : ℕ) → Drive → (sectors start : ℕ) → Bytes → Option Bytes) where
  -- `none` where the source follows the null pointer of a drive that is not there, and where the call of
  -- the driver does not come back.
  unfoldable pub read_from_drive :
      Storage → (buffer sectors start drive : ℕ) → Bytes → Option (ℕ × Bytes)
  read_from_drive s buffer sectors start drive m = elim (s.drives drive) [
    | none ↦ none
    | some d ↦
        if d.drive_type == drive_null
        then some (de_invalid_drive, m)
        else if d.drive_type == drive_virt
        then some (e_no_err, ramdisk_read s start buffer sectors m)
        else if d.drive_type == drive_pata28
        then ata_read buffer d sectors start m
        else some (e_not_implemented, m)
  ]

  unfoldable pub write_to_drive :
      Storage → (buffer sectors start drive : ℕ) → Bytes → Option (ℕ × Bytes)
  write_to_drive s buffer sectors start drive m = elim (s.drives drive) [
    | none ↦ none
    | some d ↦
        if d.drive_type == drive_null
        then some (de_invalid_drive, m)
        else if d.drive_type == drive_virt
        then some (e_no_err, ramdisk_write s start buffer sectors m)
        else if d.drive_type == drive_pata28
        then elim (ata_write buffer d sectors start m) [
          | none ↦ none
          | some m' ↦ some (e_no_err, m')
        ]
        else some (e_not_implemented, m)
  ]
