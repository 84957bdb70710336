-- ===== src/Storage/Partitions.antt =====
-- `register_drive` of kernel/drivers/storage.c with the partition table of the first sector. The ATA
-- driver and the FAT driver's registration of a volume are arguments; the messages are left out.
use l_ost.Common.{
  ℕ, zero, suc, ◌+◌, ◌-◌, ◌*◌, ◌^◌, Bool, ◌||◌, Option, none, some, ◌==◌, if◌then◌else◌,
}
use l_ost.Memory.{Memory, kmalloc, kfree}
use l_ost.Text.{Bytes}
use l_ost.Storage.{
  Drive, Filesystem, Storage, max_entries, free_from_index, mount_drive, read_from_drive,
}
use l_ost.Storage.Detect.{long_at, detect_fs}

-- `partition_s`, without the places by cylinder, head and sector.
pub record Partition : Type 0 where
  pub drive_attributes : ℕ
  pub partiton_type : ℕ
  pub partition_start : ℕ
  pub size_sectors : ℕ

-- `mbr->partiton_table[j]`.
unfoldable pub partition_at : Bytes → (mbr j : ℕ) → Partition
partition_at m mbr j =
    let a = mbr + 446 + 16 * j in
    record {
      drive_attributes = m a;
      partiton_type = m (a + 4);
      partition_start = long_at m (a + 8);
      size_sectors = long_at m (a + 12);
    }

-- The partitions that are not looked at: none, a Linux one, and the type 0x7f.
unfoldable pub is_skipped : Partition → Bool
is_skipped p = p.partiton_type == 0 || p.partiton_type == 0x83 || p.partiton_type == 0x7f

module _ (ata_read : (buffer : ℕ) → Drive → (sectors start : ℕ) → Bytes → Option (ℕ × Bytes))
    (ata_write : (buffer : ℕ) → Drive → (sectors start : ℕ) → Bytes → Option Bytes)
    (fat32_register : ℕ → Filesystem → Memory → ℕ × (Filesystem × Memory))
    -- what the fresh page of a filesystem holds, for each partition
    (raw : ℕ → Filesystem) where
  -- The round of the loop for partition `j` of drive `i`. `none` is a block that kfree does not find.
  unfoldable pub register_partition :
      (mbr i j : ℕ) → Storage × (Memory × Bytes) → Option (Storage × (Memory × Bytes))
  register_partition mbr i j (s, (pages, m)) =
      let p = partition_at m mbr j in
      let (part_start, pages1) = kmalloc 1 7 pages in
      if is_skipped p
      then some (s, (pages, m))
      else elim (read_from_drive ata_read ata_write s part_start 8 p.partition_start i m) [
        | none ↦ none
        | some (result, m1) ↦
            let q = partition_at m1 mbr j in
            elim (detect_fs fat32_register m1 part_start i q.partition_start q.size_sectors j
              (raw j) (s, pages1)) [
                | none ↦ none
                | some (s1, pages2) ↦ elim (kfree part_start pages2) [
                  | none ↦ none
                  | some pages3 ↦ some (s1, (pages3, m1))
                ]
              ]
      ]

  -- The loop, with `n` rounds left.
  unfoldable pub register_partitions :
      (n mbr i j : ℕ) → Storage × (Memory × Bytes) → Option (Storage × (Memory × Bytes))
  register_partitions zero mbr i j w = some w
  register_partitions (suc n) mbr i j w = elim (register_partition mbr i j w) [
    | none ↦ none
    | some w1 ↦ register_partitions n mbr i (j + 1) w1
  ]

  -- `register_drive`. The address of the boot record is what read_from_drive returns.
  unfoldable pub register_drive :
      Drive → Storage × (Memory × Bytes) → Option (ℕ × (Storage × (Memory × Bytes)))
  register_drive drive_to_register (s, (pages, m)) = elim (free_from_index max_entries 0 s.drives) [
    | none ↦ some (2 ^ 32 - 1, (s, (pages, m)))
    | some i ↦
        let s1 = (mount_drive drive_to_register s).1 in
        let (page, pages1) = kmalloc 1 7 pages in
        elim (read_from_drive ata_read ata_write s1 page 1 0 i m) [
          | none ↦ none
          | some (mbr, m1) ↦ elim (register_partitions 4 mbr i 0 (s1, (pages1, m1))) [
            | none ↦ none
            | some w ↦ some (0, w)
          ]
        ]
  ]
