-- ===== src/Storage/Detect.antt =====
-- `detect_fs` and `ramdisk_init` of kernel/drivers/storage.c, with the boot record of
-- kernel/filesystems/fat.h. The FAT driver's registration of a volume is an argument.
use l_ost.Common.{
  ℕ, ◌+◌, ◌-◌, ◌*◌, ◌/◌, ◌^◌, false, ◌||◌, Option, none, some, leb, ◌==◌, if◌then◌else◌, u32,
}
use l_ost.Memory.{Memory, kmalloc, kfree}
use l_ost.Text.{Bytes}
use l_ost.Storage.{
  Drive, Filesystem, Storage, drive_virt, max_entries, free_from_index, mount_drive,
}

-- Two and four bytes, the lowest first.
abbrev pub word_at : Bytes → ℕ → ℕ
word_at m a = m a + 2 ^ 8 * m (a + 1)

abbrev pub long_at : Bytes → ℕ → ℕ
long_at m a = word_at m a + 2 ^ 16 * word_at m (a + 2)

-- The fields of `fat_bpb_t` and `fat32_ebpb_t` that `detect_fs` reads.
pub record Bpb : Type 0 where
  pub bytes_per_sector : ℕ
  pub sectors_per_cluster : ℕ
  pub num_reserved_sectors : ℕ
  pub fat_c : ℕ
  pub root_dir_entries : ℕ
  pub sectors_in_vol : ℕ
  pub sectors_per_fat : ℕ
  pub large_sector_count : ℕ
  pub sectors_per_fat32 : ℕ

-- The record at an address, packed.
pub bpb_at : Bytes → ℕ → Bpb
bpb_at m a = record {
  bytes_per_sector = word_at m (a + 11);
  sectors_per_cluster = m (a + 13);
  num_reserved_sectors = word_at m (a + 14);
  fat_c = m (a + 16);
  root_dir_entries = word_at m (a + 17);
  sectors_in_vol = word_at m (a + 19);
  sectors_per_fat = word_at m (a + 22);
  large_sector_count = long_at m (a + 32);
  sectors_per_fat32 = long_at m (a + 36);
}

-- `total_clusters`. The `== 0` at the end of `root_dir_sectors` makes it a truth value.
pub total_clusters : Bpb → ℕ
total_clusters b =
    let fat_size = if b.sectors_per_fat == 0 then b.sectors_per_fat32 else b.sectors_per_fat in
    let root_dir_sectors =
      if (b.root_dir_entries * 32 + (b.bytes_per_sector - 1)) / b.bytes_per_sector == 0
      then 1
      else 0 in
    let sectors = if b.sectors_in_vol == 0 then b.large_sector_count else b.sectors_in_vol in
    let overhead = u32 (b.num_reserved_sectors + b.fat_c * fat_size + root_dir_sectors) in
    u32 (sectors + 2 ^ 32 - overhead) / b.sectors_per_cluster

-- `FS_FAT12`, `FS_FAT16` or `FS_FAT32`.
pub fat_type : (clusters : ℕ) → ℕ
fat_type clusters = if leb clusters 0xfff then 1 else if leb clusters 0xffff then 3 else 5

module _
    -- `fat32_register` on the address and the contents of a new filesystem: the address that it
    -- returns, what stands there, and the pages afterwards
    (fat32_register : ℕ → Filesystem → Memory → ℕ × (Filesystem × Memory)) where
  -- `detect_fs`; `raw` is what the fresh page holds. It always returns 0. With 26 filesystems the
  -- index is 0, whose entry is overwritten.
  pub detect_fs :
      Bytes
      → (part_start drive start_sector size_sectors partition : ℕ) → Filesystem
      → Storage × Memory
      → Option (Storage × Memory)
  detect_fs m part_start drive start_sector size_sectors partition raw (s, pages) =
      let id : ℕ = elim (free_from_index max_entries 0 s.filesystems) [ none ↦ 0 | some i ↦ i ] in
      let b = bpb_at m part_start in
      if word_at m (part_start + 2 * (512 + 28)) == 0xef53
      then some (s, pages)
      else if b.bytes_per_sector == 0 || b.sectors_per_cluster == 0
      then some (s, pages)
      else (let (check, pages1) = kmalloc 1 6 pages in
          let fs_type = fat_type (total_clusters b) in
          let fs : Filesystem = record raw {
            size_low = size_sectors;
            partition = partition;
            start_low = start_sector;
            mount_id = id;
            fs_type = fs_type;
          } in
          let placed : ℕ × (Filesystem × Memory) =
            if fs_type == 5 then fat32_register check fs pages1 else (check, (fs, pages1)) in
          let entry : Option Filesystem = if placed.0 == 0 then none else some placed.1.0 in
          let s' : Storage = record s {
            filesystems = λ j. if j == id then entry else s.filesystems j;
          } in
          elim (if placed.0 == check then some placed.1.1 else kfree check placed.1.1) [
            | none ↦ none
            | some pages2 ↦ some (s', pages2)
          ])

-- `ramdisk_init`, up to the registration of the drive, whose entry it fills in. `raw` is what the
-- fresh page holds. The first result is what it returns.
pub ramdisk_init : (size_sectors : ℕ) → Drive → Storage × Memory → ℕ × (Storage × Memory)
ramdisk_init size_sectors raw (s, pages) =
    let (disk, pages1) = kmalloc size_sectors 7 pages in
    let s1 : Storage = record s { ramdisk = disk } in
    let (address, pages2) = kmalloc 1 6 pages1 in
    let drive : Drive = record raw {
      bytes_per_sector = 512;
      contains_pt = false;
      size_high = 0;
      size_low = 512 * 4096;
      drive_type = drive_virt;
    } in
    if disk == 0
    then (2 ^ 32 - 1, (s1, pages1))
    else if address == 0
    then (2 ^ 32 - 1, (s1, pages2))
    else (0, ((mount_drive drive s1).1, pages2))
