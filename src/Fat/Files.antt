-- ===== src/Fat/Files.antt =====
-- Reading and writing files: `fat32_read` and `fat32_write` of kernel/filesystems/fat.c.
use l_ost.Common.{
  ℕ, zero, suc, ◌+◌, ◌-◌, ◌*◌, ◌/◌, ◌%◌, ◌^◌, true, false, ◌&&◌, Option, none, some, ltb, ◌==◌,
  if◌then◌else◌, u32, slt,
}
use l_ost.Text.{Bytes, kmemcpy}
use l_ost.Storage.{Drive}
use l_ost.Fat.{
  FatFile, Volume, Disk, drive_read, drive_write, get_next_cluster32, set_next_cluster32,
  fat32_find_free_cluster,
}

-- The sector where a cluster begins.
abbrev pub sector_of : Volume → (cluster : ℕ) → ℕ
sector_of v cluster = u32 (v.first_data_sector + cluster * v.sectors_per_cluster)

-- `((size / sector_size_bytes) + 1) * sectors_per_cluster`.
abbrev pub sectors_for : (size : ℕ) → Volume → ℕ
sectors_for size v = u32 ((size / v.sector_size_bytes + 1) * v.sectors_per_cluster)

-- What `fat32_read` leaves in the file.
abbrev pub after_read : (size cluster : ℕ) → Volume → FatFile → FatFile
after_read size cluster v file = record file {
  position_in_cluster = size % u32 (v.sectors_per_cluster * v.sector_size_bytes);
  file_base = record file.file_base { position = u32 (file.file_base.position + size) };
  current_cluster = cluster;
}

module _ (ata_read : (buffer : ℕ) → Drive → (sectors start : ℕ) → Bytes → Option (ℕ × Bytes))
    (ata_write : (buffer : ℕ) → Drive → (sectors start : ℕ) → Bytes → Option Bytes) where
  -- The body of the loop of `fat32_read`: the next cluster, and the position in the file's cluster.
  unfoldable pub read_cluster :
      (size buffer cluster position : ℕ) → Volume → Disk → Option (ℕ × (ℕ × (Volume × Disk)))
  read_cluster size buffer cluster position v d =
      elim (drive_read ata_read ata_write buffer v.sectors_per_cluster (sector_of v cluster) v.drive
        d) [
          | none ↦ none
          | some (result, d1) ↦
              let d2 : Disk = if position == 0 then d1 else record d1 {
                memory =
                    kmemcpy buffer (u32 (buffer + position)) (if ltb size (2 ^ 31) then size else 0)
                      d1.memory;
              } in
              elim (get_next_cluster32 ata_read ata_write cluster v d2) [
                | none ↦ none
                | some (next, rest) ↦ some (next, (if position == 0 then 0 else size, rest))
              ]
        ]

  -- The loop of `fat32_read`, of which `sectors` is an `int`.
  unfoldable pub read_from :
      (fuel size buffer sectors cluster position : ℕ)
      → Volume
      → Disk
      → Option (ℕ × (ℕ × (Volume × Disk)))
  read_from zero size buffer sectors cluster position v d = none
  read_from (suc fuel) size buffer sectors cluster position v d =
      elim (slt 0 sectors && ltb cluster 0xffffff8) [
        | false ↦ some (cluster, (position, (v, d)))
        | true ↦ elim (read_cluster size buffer cluster position v d) [
          | none ↦ none
          | some (next, (position', (v', d'))) ↦ elim (v'.sectors_per_cluster == 0) [
            | true ↦ none
            | false ↦
                read_from fuel size buffer (sectors / v'.sectors_per_cluster) next position' v' d'
          ]
        ]
      ]

  -- `fat32_read` on pointers that are not null, with a sector size that is not 0.
  unfoldable pub fat32_read :
      (fuel : ℕ) → FatFile → (size buffer : ℕ) → Volume → Disk → Option (FatFile × (Volume × Disk))
  fat32_read fuel file size buffer v d =
      elim (read_from fuel size buffer (sectors_for size v) file.current_cluster
        file.position_in_cluster v d) [
          | none ↦ none
          | some (cluster, (position, (v', d'))) ↦
              if u32 (v'.sectors_per_cluster * v'.sector_size_bytes) == 0
              then none
              else some (after_read size cluster v' file, (v', d'))
        ]

  -- The end of a round of `fat32_write`: the cluster to go on with.
  pub extend : (cluster : ℕ) → Volume → Disk → Option (ℕ × (Volume × Disk))
  extend cluster v d = elim (get_next_cluster32 ata_read ata_write cluster v d) [
    | none ↦ none
    | some (next, (v1, d1)) ↦
        if ltb next 0xfffffff
        then some (next, (v1, d1))
        else elim (fat32_find_free_cluster ata_read ata_write v1 d1) [
          | none ↦ none
          | some (free, (v2, d2)) ↦
              elim (set_next_cluster32 ata_read ata_write cluster free v2 d2) [
                | none ↦ none
                | some (v3, d3) ↦
                    elim (set_next_cluster32 ata_read ata_write free (2 ^ 32 - 1) v3 d3) [
                      | none ↦ none
                      | some rest ↦ some (free, rest)
                    ]
              ]
        ]
  ]

  -- The loop of `fat32_write`, of `n` rounds from round `i` on. The buffer is one of words of two
  -- bytes, so that a round goes on by twice the size of a cluster.
  pub write_from : (n i buffer cluster : ℕ) → Volume → Disk → Option (ℕ × (Volume × Disk))
  write_from zero i buffer cluster v d = some (0, (v, d))
  write_from (suc n) i buffer cluster v d =
      elim (drive_write ata_read ata_write
        (u32 (buffer + 2 * (i * (v.sector_size_bytes * v.sectors_per_cluster))))
        (if v.sectors_per_cluster == 0 then 8 else v.sectors_per_cluster) (sector_of v cluster)
        v.drive d) [
          | none ↦ none
          | some (result, d1) ↦ elim (result == 0) [
            | false ↦ some (2 ^ 32 - 1, (v, d1))
            | true ↦ elim (extend cluster v d1) [
              | none ↦ none
              | some (next, (v2, d2)) ↦ write_from n (i + 1) buffer next v2 d2
            ]
          ]
        ]

  pub fat32_write : FatFile → (size buffer : ℕ) → Volume → Disk → Option (ℕ × (Volume × Disk))
  fat32_write file size buffer v d =
      let step = u32 (v.sector_size_bytes * v.sectors_per_cluster) in
      if step == 0 then none else write_from (size / step + 1) 0 buffer file.start_cluster v d
