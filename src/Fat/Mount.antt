-- ===== src/Fat/Mount.antt =====
-- The registration of a volume: `fat32_register` of kernel/filesystems/fat.c.
use l_ost.Common.{
  ℕ, ◌+◌, ◌-◌, ◌*◌, ◌/◌, ◌^◌, ◌≡◌, refl, inl, inr, ◌&&◌, not, Option, none, some, ltb, ◌==◌,
  if◌then◌else◌, Bool-cases, u16, u32,
}
use l_ost.Memory.{kmalloc}
use l_ost.Text.{Bytes}
use l_ost.Storage.{
  Drive, read_from_drive, write_to_drive, drive_virt, e_no_err, ramdisk_read, ramdisk_write,
}
use l_ost.Storage.Detect.{word_at, long_at}
use l_ost.Fat.{Volume, Disk, store_long, drive_read, drive_write}

-- The fields of `fat32_ebpb_t` behind those of every boot record.
abbrev pub lba_beginning : ℕ
lba_beginning = 28

abbrev pub volume_sectors : Bytes → (boot : ℕ) → ℕ
volume_sectors m boot = word_at m (boot + 19)

-- The volume that `fat32_register` fills in from the boot record and from the page that the sector of
-- information was read to; `none` is a division by zero.
unfoldable pub fill_volume : Bytes → (boot fsinfo : ℕ) → Volume → Option Volume
fill_volume m boot fsinfo v =
    let reserved = word_at m (boot + 14) in
    let fat_c = m (boot + 16) in
    let fat_size = long_at m (boot + 36) in
    let root = long_at m (boot + 44) in
    let data_sectors = u32 (volume_sectors m boot + 2 ^ 32 - u32 (reserved + fat_c * fat_size)) in
    if m (boot + 13) == 0
    then none
    else some (record v {
      first_data_sector = u32 (fat_c * fat_size);
      fat_offset_primary = reserved;
      sectors_per_fat = u16 fat_size;
      total_clusters = data_sectors / m (boot + 13);
      sector_size_bytes = word_at m (boot + 11);
      root_dir_cluster = root;
      sectors_per_cluster = m (boot + 13);
      fat_cache_size = if ltb (word_at m (boot + 22)) 2048 then word_at m (boot + 22) else 2048;
      fat_offset_secondary =
          if ltb 1 fat_c then u32 (reserved + fat_size) else v.fat_offset_secondary;
      root_file = record v.root_file {
        start_cluster = root;
        current_cluster = root;
        dirent = record v.root_file.dirent { filesize_bytes = 4096 };
        file_base = record v.root_file.file_base {
          fs_type = 5;
          mode = 6;
          permission = 6;
          position = 0;
        };
      };
      last_free_cluster = long_at m (fsinfo + 492);
    })

module _ (ata_read : (buffer : ℕ) → Drive → (sectors start : ℕ) → Bytes → Option (ℕ × Bytes))
    (ata_write : (buffer : ℕ) → Drive → (sectors start : ℕ) → Bytes → Option Bytes) where
  -- The first guard: a boot record without its start gets it, in memory and on the drive.
  unfoldable pub rewrite_start : (drive buffer partition_start_lba : ℕ) → Disk → Option Disk
  rewrite_start drive buffer partition_start_lba d =
      let m = store_long d.memory (buffer + lba_beginning) partition_start_lba in
      if long_at d.memory (buffer + lba_beginning) == 0 && not (partition_start_lba == 0)
      then elim (drive_write ata_read ata_write buffer 1 partition_start_lba drive
          (record d { memory = m })) [ none ↦ none | some (result, d1) ↦ some d1 ]
      else some d

  -- `fat32_register` for the volume at the address `fs`: the address that it returns, or 0.
  unfoldable pub fat32_register :
      (fs drive buffer partition_start_lba : ℕ) → Volume → Disk → Option (ℕ × (Volume × Disk))
  fat32_register fs drive buffer partition_start_lba v d =
      let (fsinfo, pages) = kmalloc 8 6 d.pages in
      elim (rewrite_start drive buffer partition_start_lba (record d { pages = pages })) [
        | none ↦ none
        | some d1 ↦
            let sector =
              u32 (word_at d1.memory (buffer + 48) + long_at d1.memory (buffer + lba_beginning)) in
            elim (drive_read ata_read ata_write fsinfo 7 sector drive d1) [
              | none ↦ none
              | some (result, d2) ↦
                  if result == 0
                  then some (0, (v, d2))
                  else elim (fill_volume d2.memory buffer fsinfo v) [
                    | none ↦ none
                    | some v' ↦ some (fs, (v', d2))
                  ]
            ]
      ]

module _ (ata_read : (buffer : ℕ) → Drive → (sectors start : ℕ) → Bytes → Option (ℕ × Bytes))
    (ata_write : (buffer : ℕ) → Drive → (sectors start : ℕ) → Bytes → Option Bytes) where
  drive_read-virtual :
      (buffer sectors start drive : ℕ) (d : Disk) (e : Drive)
      → d.storage.drives drive ≡ some e
      → e.drive_type ≡ drive_virt
      → drive_read ata_read ata_write buffer sectors start drive d
        ≡ some
            (e_no_err, record d { memory = ramdisk_read d.storage start buffer sectors d.memory })
  unfolding drive_read read_from_drive
  drive_read-virtual buffer sectors start drive d e present kind =
      rw (drive_read, read_from_drive, present, kind) refl

  -- The guard in front comes back on a virtual drive, and changes no more than memory.
  rewrite_start-virtual :
      (drive buffer partition_start_lba : ℕ) (d : Disk) (e : Drive)
      → d.storage.drives drive ≡ some e
      → e.drive_type ≡ drive_virt
      → (m : Bytes) × (rewrite_start ata_read ata_write drive buffer partition_start_lba d
          ≡ some (record d { memory = m }))
  unfolding rewrite_start drive_write write_to_drive
  rewrite_start-virtual drive buffer start d e present kind =
      let m = store_long d.memory (buffer + lba_beginning) start in
      elim (Bool-cases (long_at d.memory (buffer + lba_beginning) == 0 && not (start == 0))) [
        | inl missing ↦ (
          ramdisk_write d.storage start buffer 1 m,
          rw (rewrite_start, missing, drive_write, write_to_drive, present, kind) refl,
        )
        | inr given ↦ (d.memory, rw (rewrite_start, given) refl)
      ]

  -- On a virtual drive that is in the table, `fat32_register` always returns the null pointer, and
  -- leaves the volume and the tables of drives and filesystems as they were: it takes the 0 by which
  -- the reading of the sectors reports no error for a failure.
  pub fat32_register-virtual :
      (fs drive buffer partition_start_lba : ℕ) (v : Volume) (d : Disk) (e : Drive)
      → d.storage.drives drive ≡ some e
      → e.drive_type ≡ drive_virt
      → (d' : Disk) × (fat32_register ata_read ata_write fs drive buffer partition_start_lba v d
          ≡ some (0, (v, d')))
        × (d'.storage ≡ d.storage)
  unfolding fat32_register
  fat32_register-virtual fs drive buffer start v d e present kind =
      let (fsinfo, pages) = kmalloc 8 6 d.pages in
      let d0 : Disk = record d { pages = pages } in
      let (m, rewritten) = rewrite_start-virtual drive buffer start d0 e present kind in
      let sector = u32 (word_at m (buffer + 48) + long_at m (buffer + lba_beginning)) in
      let read =
        drive_read-virtual fsinfo 7 sector drive (record d0 { memory = m }) e present kind in
      (
        record d0 { memory = ramdisk_read d.storage sector fsinfo 7 m },
        rw (rewritten, fat32_register, read) refl,
        refl,
      )
