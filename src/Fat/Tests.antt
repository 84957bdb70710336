-- ===== src/Fat/Tests.antt =====
-- The FAT driver on a volume with four cached clusters, and its theorems there.
use l_ost.Common.{
  Option, ℕ, ◌≡◌, refl, ◌⊎◌, false, ◌&&◌, ◌||◌, none, some, [], ◌∷◌, arith, ltb, leb, ◌==◌,
  if◌then◌else◌,
}
use l_ost.Common.Int.{pos}
use l_ost.Memory.{
  withheld_entry, available_entry, kmalloc, allocate, find_pages, stops_at, check_free,
  check_free_from, mark_from,
}
use l_ost.Text.{
  Bytes, kstrlen, strlen_from, kstrcmp, strcmp_from, kmemcpy, memcpy_from, kstrtok, strtok_at,
  skip_delims, end_token, is_delim,
}
use l_ost.Storage.{Filesystem, Drive, drive_virt}
use l_ost.Fat.{FatFile, Volume, Disk}
use l_ost.Fat.Names.{Outcome, search_dir, search_dir-Outcome}
use l_ost.Fat.Mount.{fat32_register, fat32_register-virtual}
use l_ost.Fat.Calls.{Mounts, fread, fread-returns}
use l_ost.Fat.Open.{Opening, fat32_open_file, fat32_open_file-nothing}

-- A disk that answers every read with a byte of 7 and every write with nothing.
abbrev read_seven : (buffer : ℕ) → Drive → (sectors start : ℕ) → Bytes → Option (ℕ × Bytes)
read_seven buffer e sectors start m = some (buffer, λ a. if a == buffer then 7 else m a)

abbrev write_nothing : (buffer : ℕ) → Drive → (sectors start : ℕ) → Bytes → Option Bytes
write_nothing buffer e sectors start m = some m

abbrev root : FatFile
root = record {
  file_base = record { permission = 6; mode = 6; fs_type = 5; position = 0; filesystem_id = 0 };
  start_cluster = 2;
  current_cluster = 2;
  dirent = record { first_cluster_high = 0; first_cluster = 2; filesize_bytes = 4096 };
  position_in_cluster = 0;
}

abbrev volume : Volume
volume = record {
  drive = 0;
  sector_size_bytes = 512;
  fat_offset_primary = 32;
  fat_offset_secondary = 0;
  sectors_per_fat = 8;
  total_clusters = 4;
  sectors_per_cluster = 8;
  first_data_sector = 16;
  root_dir_cluster = 2;
  cached_clusters_start = 0;
  cached_clusters_size = 4;
  fat_cache = 0x8000;
  last_free_cluster = 1;
  fat_cache_size = 1;
  root_file = root;
}

abbrev virtual_drive : Drive
virtual_drive = record {
  number = 0;
  drive_type = drive_virt;
  read_only = false;
  removable = false;
  hidden = false;
  contains_pt = false;
  size_low = 4096;
  size_high = 0;
  bytes_per_sector = 512;
}

-- "/a" at 0x100, "/" at 0x200, "A.B" at 0x300.
abbrev bytes : Bytes
bytes a =
    if a == 0x100 || a == 0x200
    then 47
    else if a == 0x101
    then 97
    else if a == 0x300
    then 65
    else if a == 0x301
    then 46
    else if a == 0x302
    then 66
    else if leb 0x8000 a && ltb a 0x8008
    then 1
    else 0

abbrev disk : Disk
disk = record {
  memory = bytes;
  pages = record {
    max_address = 0;
    total_usable = 0;
    page_table_size = 4096;
    page_table = λ k. if ltb k 257 then withheld_entry else available_entry;
  };
  storage = record { filesystems = λ i. none; drives = λ i. some virtual_drive; ramdisk = 0x10000 };
}

search_dir-Outcome_example : search_dir 8 bytes 0x300 0x9000 16 ≡ some 0
search_dir-Outcome_example =
    search_dir-Outcome 8 0x300 0x9000 16 0 bytes (omega arith) (omega arith) (
      Outcome.dotted 1 (66 ∷ []) (λ a lo hi. (ground arith, ground arith))
        (refl, omega arith, (refl, omega arith, refl)) (omega arith) (omega arith) (omega arith)
        (ground arith) (ground arith))

fat32_register-virtual_example :
    (d' : Disk) × (fat32_register read_seven write_nothing 0xa000 0 0xb000 2048 volume disk
      ≡ some (0, (volume, d')))
    × (d'.storage ≡ disk.storage)
fat32_register-virtual_example =
    fat32_register-virtual read_seven write_nothing 0xa000 0 0xb000 2048 volume disk virtual_drive
      refl refl

abbrev opening : Opening
opening = record { static_str = 0; volume = volume; disk = disk }

path_is_not_root : kstrcmp 9 bytes 0x100 0x200 ≡ some (pos 1)
unfolding kstrcmp kstrlen strlen_from strcmp_from
path_is_not_root = refl

path_size : kstrlen 9 bytes 0x100 ≡ some 2
unfolding kstrlen strlen_from
path_size = refl

page_is_fresh : (kmalloc 1 6 disk.pages).0 ≡ 0x101000
unfolding kmalloc allocate find_pages stops_at check_free check_free_from mark_from
page_is_fresh = refl

-- "/a" with its slash as the only delimiter has the token "a".
abbrev cut : Bytes
cut = kmemcpy 0x100 0x101000 2 bytes

path_has_token : kstrtok 9 0x101000 0x200 0 cut ≡ some (0x101001, 0x101002, cut)
unfolding kstrtok strtok_at skip_delims end_token is_delim kmemcpy memcpy_from
path_has_token = refl

fat32_open_file-nothing_example :
    (fat32_open_file read_seven write_nothing 9 0x100 0x200 0x200 1 root.dirent root opening ≡ none)
    ⊎ ((o' : Opening) × (fat32_open_file read_seven write_nothing 9 0x100 0x200 0x200 1 root.dirent
            root opening
          ≡ some (none, o')))
fat32_open_file-nothing_example =
    fat32_open_file-nothing read_seven write_nothing 9 0x100 0x200 0x200 1 2 0x101001 0x101002
      (pos 1) cut root.dirent root opening path_is_not_root refl path_size
      (rw page_is_fresh path_has_token) (omega arith)

abbrev first_filesystem : Filesystem
first_filesystem = record {
  mount_id = 0;
  fs_type = 5;
  partition = 0;
  drive = 0;
  read_only = false;
  system = false;
  hidden = false;
  removable = false;
  start_low = 2048;
  start_high = 0;
  sector_size_bytes = 512;
  size_low = 4096;
  size_high = 0;
}

abbrev mounts : Mounts
mounts = record {
  volumes = λ i. volume;
  static_str = 0;
  disk = record disk { storage = record disk.storage { filesystems = λ i. some first_filesystem } };
}

fread-returns_example :
    (file' : FatFile) × (w' : Mounts) × (fread read_seven write_nothing 33 root 0x9000 1000 mounts
      ≡ some (file', w'))
    × (file'.file_base.position ≡ 1000)
    × (w'.disk.storage ≡ mounts.disk.storage)
fread-returns_example =
    fread-returns read_seven write_nothing root 0x9000 1000 mounts first_filesystem
      (λ b e n i m. ((b, λ a. if a == b then 7 else m a), refl)) refl refl (omega arith)
      (record { entry = virtual_drive; present = refl; sector = omega arith }) (omega arith)
      (omega arith)
