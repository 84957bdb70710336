-- ===== src/Storage/Tests.antt =====
-- The tables and the ramdisk at concrete addresses, and the theorems at them.
use l_ost.Common.{
  Option, ℕ, Bool-cases, true, inr, ◌+◌, ◌%◌, ◌≡◌, refl, inl, false, none, some, arith, ◌==◌,
  if◌then◌else◌,
}
use l_ost.Text.{Bytes}
use l_ost.Storage.{
  Drive, drive_pata28, mount_drive, read_from_drive, Filesystem, Storage, register_fs, Answers,
  get_drive_count, count_from, is_some, ramdisk_read, ramdisk_write, free_from_index,
}
use mathlib.Core.Path.{subst}
use l_ost.Memory.{Memory, empty_entry, kmalloc}
use l_ost.Storage.Partitions.{partition_at, is_skipped, register_drive}
use l_ost.Storage.Mounting.{DriveOutcome, register_drive-Outcome}
use l_ost.Storage.Ramdisk.{ramdisk_read-ramdisk_write}

abbrev fat : Filesystem
fat = record {
  mount_id = 0;
  fs_type = 5;
  partition = 0;
  drive = 0;
  read_only = false;
  system = false;
  hidden = false;
  removable = false;
  start_low = 2048;
  start_high = 0;
  sector_size_bytes = 512;
  size_low = 4096;
  size_high = 0;
}

abbrev storage : Storage
storage = record {
  filesystems = λ i. if i == 0 then some fat else none;
  drives = λ i. none;
  ramdisk = 0x10000;
}

abbrev memory : Bytes
memory a = a % 251

counts_what_was_there : get_drive_count 7 storage ≡ 7
unfolding get_drive_count count_from is_some
counts_what_was_there = refl

second_is_free : (register_fs fat storage).0 ≡ 0
unfolding register_fs free_from_index is_some
second_is_free = refl

ramdisk_read-ramdisk_write_example :
    ramdisk_read storage 8 0x40000 2 (ramdisk_write storage 8 0x1000 2 memory) (0x40000 + 700)
    ≡ memory (0x1000 + 700)
ramdisk_read-ramdisk_write_example =
    ramdisk_read-ramdisk_write storage 8 0x1000 0x40000 2 700 memory (omega arith) (omega arith)
      (inl (omega arith)) (inl (omega arith)) (omega arith) (omega arith) (omega arith)

-- A disk of zeros, and no pages.
abbrev zeros : Bytes
zeros a = 0

abbrev no_pages : Memory
no_pages = record {
  max_address = 0;
  total_usable = 0;
  page_table_size = 0;
  page_table = λ k. empty_entry;
}

abbrev ata_disk : Drive
ata_disk = record {
  number = 9;
  drive_type = drive_pata28;
  read_only = false;
  removable = false;
  hidden = false;
  contains_pt = false;
  size_low = 2048;
  size_high = 0;
  bytes_per_sector = 512;
}

abbrev zero_read : (buffer : ℕ) → Drive → (sectors start : ℕ) → Bytes → Option (ℕ × Bytes)
zero_read buffer d sectors start m = some (buffer, m)

abbrev zero_write : (buffer : ℕ) → Drive → (sectors start : ℕ) → Bytes → Option Bytes
zero_write buffer d sectors start m = some m

zeros_stay :
    (k page mbr : ℕ) (m1 : Bytes)
    → read_from_drive zero_read zero_write (mount_drive ata_disk storage).1 page 1 0 k zeros
      ≡ some (mbr, m1)
    → zeros ≡ m1
unfolding read_from_drive mount_drive free_from_index is_some
zeros_stay k page mbr m1 run = elim (Bool-cases (k == 0)) [
  | inl first ↦ ground (arith, first, run)
  | inr other ↦ absurd (ground (arith, other, run))
]

zeros_skipped : (mbr l : ℕ) → is_skipped (partition_at zeros mbr l) ≡ true
unfolding is_skipped partition_at
zeros_skipped mbr l = refl

zero_read-Answers : Answers zero_read
zero_read-Answers buffer d sectors start m = ((buffer, m), refl)

register_drive-Outcome_example :
    (code : ℕ) × (s' : Storage) × (pages' : Memory) × (m' : Bytes) × (register_drive zero_read
        zero_write
        (λ a f p. (a, (f, p)))
        (λ j. fat)
        ata_disk
        (storage, (no_pages, zeros))
      ≡ some (code, (s', (pages', m'))))
    × DriveOutcome ata_disk storage no_pages (code, (s', pages'))
register_drive-Outcome_example =
    register_drive-Outcome zero_read zero_write (λ a f p. (a, (f, p))) (λ j. fat) ata_disk storage
      no_pages zeros zero_read-Answers
      (λ k mbr m1 index run l hi.
        subst (λ m. is_skipped (partition_at m mbr l) ≡ true)
          (zeros_stay k (kmalloc 1 7 no_pages).0 mbr m1 run) (zeros_skipped mbr l))
