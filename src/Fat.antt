-- ===== src/Fat.antt =====
-- The FAT driver of kernel/filesystems/fat.c on the bytes of memory: the volume with the records of
-- fat.h, and the cached part of its allocation table. Words are 32 bits, the lowest byte first.
-- `none` is a walk past its fuel, a division by zero, or a null pointer that is followed. Messages are
-- left out.
pub mod Cache
pub mod Chains
pub mod Files
pub mod Reading
pub mod Names
pub mod Mount
pub mod Open
pub mod Calls
mod Tests
use l_ost.Common.{
  ℕ, zero, suc, ◌+◌, ◌-◌, ◌*◌, ◌/◌, ◌%◌, ◌^◌, ◌≤◌, ◌<◌, ◌≡◌, ◌≢◌, refl, sym, ap, ◌∙◌, ◌↔◌, ◌⊎◌, inl,
  inr, Bool, true, false, ◌&&◌, ◌||◌, not, Option, none, some, List, [], ◌∷◌, ◌++◌, arith,
  ℕ_discrete, dec_lt, ltb, leb, ◌==◌, if◌then◌else◌, Bool-cases, Option-cases, length, u8, u16, u32,
  mask, bit_field, slt, promote,
}
use l_ost.Memory.{Memory, kmalloc}
use l_ost.Text.{Bytes, store}
use l_ost.Storage.{Drive, Storage, read_from_drive, write_to_drive}
use l_ost.Storage.Detect.{word_at, long_at}

-- `FILE` of kernel/drivers/storage.h.
pub record File : Type 0 where
  pub permission : ℕ
  pub mode : ℕ
  pub fs_type : ℕ
  pub position : ℕ
  pub filesystem_id : ℕ

-- The fields of `dirent_t` that the driver uses.
pub record Dirent : Type 0 where
  pub first_cluster_high : ℕ
  pub first_cluster : ℕ
  pub filesize_bytes : ℕ

-- `FAT_FILE`.
pub record FatFile : Type 0 where
  pub file_base : File
  pub start_cluster : ℕ
  pub current_cluster : ℕ
  pub dirent : Dirent
  pub position_in_cluster : ℕ

-- `fs_fat_t`, with the drive and the sector size of its `fs_base`.
pub record Volume : Type 0 where
  pub drive : ℕ
  pub sector_size_bytes : ℕ
  pub fat_offset_primary : ℕ
  pub fat_offset_secondary : ℕ
  pub sectors_per_fat : ℕ
  pub total_clusters : ℕ
  pub sectors_per_cluster : ℕ
  pub first_data_sector : ℕ
  pub root_dir_cluster : ℕ
  pub cached_clusters_start : ℕ
  pub cached_clusters_size : ℕ
  pub fat_cache : ℕ
  pub last_free_cluster : ℕ
  pub fat_cache_size : ℕ
  pub root_file : FatFile

-- What the driver works on besides a volume.
pub record Disk : Type 0 where
  pub memory : Bytes
  pub pages : Memory
  pub storage : Storage

-- `*(uint32_t *)a = v`.
pub store_long : Bytes → (a v : ℕ) → Bytes
store_long m a v =
    store
      (store (store (store m a (v % 2 ^ 8)) (a + 1) (v / 2 ^ 8 % 2 ^ 8)) (a + 2)
        (v / 2 ^ 16 % 2 ^ 8))
      (a + 3) (v / 2 ^ 24 % 2 ^ 8)

-- `cached_clusters_start / sector_size_bytes / BYTES_PER_FAT_ENTRY_32`, for a sector size that is not 0.
abbrev pub cache_base : Volume → ℕ
cache_base v = v.cached_clusters_start / v.sector_size_bytes / 4

-- The test of `get_next_cluster32` and `set_next_cluster32` for a cluster that is not cached.
unfoldable pub outside_cache : (cluster : ℕ) → Volume → Bool
outside_cache cluster v =
    ltb cluster (cache_base v) || ltb (u32 (cache_base v + v.cached_clusters_size)) cluster

-- The address of a cluster's entry in the cache.
unfoldable pub cache_entry : (cluster : ℕ) → Volume → ℕ
cache_entry cluster v = u32 (v.fat_cache + 4 * (cluster + 2 ^ 32 - cache_base v))

-- The entry that `set_next_cluster32` writes.
abbrev pub linked : (cluster next : ℕ) → ℕ
linked cluster next = if cluster == next then 2 ^ 32 - 1 else next

module _ (ata_read : (buffer : ℕ) → Drive → (sectors start : ℕ) → Bytes → Option (ℕ × Bytes))
    (ata_write : (buffer : ℕ) → Drive → (sectors start : ℕ) → Bytes → Option Bytes) where
  -- `read_from_drive`, with its result.
  unfoldable pub drive_read : (buffer sectors start drive : ℕ) → Disk → Option (ℕ × Disk)
  drive_read buffer sectors start drive d =
      elim (read_from_drive ata_read ata_write d.storage buffer sectors start drive d.memory) [
        | none ↦ none
        | some (result, m) ↦ some (result, record d { memory = m })
      ]

  unfoldable pub drive_write : (buffer sectors start drive : ℕ) → Disk → Option (ℕ × Disk)
  drive_write buffer sectors start drive d =
      elim (write_to_drive ata_read ata_write d.storage buffer sectors start drive d.memory) [
        | none ↦ none
        | some (result, m) ↦ some (result, record d { memory = m })
      ]

  -- `cache_fat32`. The address of a new buffer stays in its local variable.
  unfoldable pub cache_fat32 : (start : ℕ) → Volume → Disk → Option (Volume × Disk)
  cache_fat32 start v d =
      let fresh = kmalloc (v.fat_cache_size / 8 + 1) 6 d.pages in
      let buffer = if v.fat_cache == 0 then fresh.0 else v.fat_cache in
      let d1 : Disk = record d { pages = if v.fat_cache == 0 then fresh.1 else d.pages } in
      if v.sector_size_bytes / 4 == 0
      then none
      else elim (drive_read buffer v.fat_cache_size
          (u32 (start / (v.sector_size_bytes / 4) + v.fat_offset_primary)) v.drive d1) [
            | none ↦ none
            | some (result, d2) ↦ some (record v { cached_clusters_start = start }, d2)
          ]

  pub write_cache : Volume → Disk → Option Disk
  write_cache v d =
      elim (drive_write v.fat_cache v.fat_cache_size
        (u32 (v.fat_offset_primary + v.cached_clusters_start)) v.drive d) [
          | none ↦ none
          | some (result, d') ↦ some d'
        ]

  -- `get_next_cluster32`, which divides by the size of a sector first.
  unfoldable pub get_next_cluster32 : (cluster : ℕ) → Volume → Disk → Option (ℕ × (Volume × Disk))
  get_next_cluster32 cluster v d = elim (v.sector_size_bytes == 0) [
    | true ↦ none
    | false ↦ elim (if outside_cache cluster v then cache_fat32 cluster v d else some (v, d)) [
      | none ↦ none
      | some (v', d') ↦ some (long_at d'.memory (cache_entry cluster v'), (v', d'))
    ]
  ]

  unfoldable pub set_next_cluster32 : (cluster next : ℕ) → Volume → Disk → Option (Volume × Disk)
  set_next_cluster32 cluster next v d = elim (v.sector_size_bytes == 0) [
    | true ↦ none
    | false ↦
        elim (if outside_cache cluster v
          then elim (write_cache v d) [ none ↦ none | some d1 ↦ cache_fat32 cluster v d1 ]
          else some (v, d)) [
            | none ↦ none
            | some (v', d') ↦ some (
              v',
              record d' {
                memory = store_long d'.memory (cache_entry cluster v') (linked cluster next);
              },
            )
          ]
  ]

  -- The loop of `fat32_find_free_cluster`, over `n` clusters from `i` on; `c` is what it returns where
  -- no entry is 0.
  unfoldable pub find_free_from : (n i c : ℕ) → Volume → Disk → Option (ℕ × (Volume × Disk))
  find_free_from zero i c v d = some (c, (v, d))
  find_free_from (suc n) i c v d = elim (get_next_cluster32 i v d) [
    | none ↦ none
    | some (next, rest) ↦ elim (next == 0) [
      | true ↦ some (i, rest)
      | false ↦ find_free_from n (i + 1) c rest.0 rest.1
    ]
  ]

  unfoldable pub fat32_find_free_cluster : Volume → Disk → Option (ℕ × (Volume × Disk))
  fat32_find_free_cluster v d =
      let first = if v.last_free_cluster == 2 ^ 32 - 1 then 0 else v.last_free_cluster in
      elim (find_free_from (v.total_clusters - first) first v.last_free_cluster v d) [
        | none ↦ none
        | some (c, rest) ↦ some (c, (record rest.0 { last_free_cluster = c }, rest.1))
      ]
