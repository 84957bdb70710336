-- ===== src/Fat/Calls.antt =====
-- The file calls of kernel/drivers/storage.c on the FAT driver: `fopen`, `fwrite` and `fread`. `none` is
-- a run that follows a null pointer, reads behind the table or does not come back.
use l_ost.Common.{
  ℕ, ◌+◌, ◌-◌, ◌*◌, ◌^◌, ◌≤◌, ◌<◌, ◌≡◌, ◌≢◌, refl, false, ◌||◌, not, Option, none, some, arith, ltb,
  ◌==◌, if◌then◌else◌, u8, u32, promote,
}
use l_ost.Text.{Bytes}
use l_ost.Storage.{Drive, Filesystem, Storage, max_entries, Answers}
use l_ost.Fat.{Dirent, FatFile, Volume, Disk}
use l_ost.Fat.Files.{fat32_read, fat32_write, after_read}
use l_ost.Fat.Open.{Opening, fat32_open_file}
use l_ost.Fat.Reading.{Readable, fat32_read-returns}

-- The volumes by the indices of their filesystems, `kstrtok`'s own pointer, and what the driver works
-- on.
pub record Mounts : Type 0 where
  pub volumes : ℕ → Volume
  pub static_str : ℕ
  pub disk : Disk

abbrev pub with_volume : (i : ℕ) → Volume → Disk → Mounts → Mounts
with_volume i v d w = record w { volumes = λ j. if j == i then v else w.volumes j; disk = d }

-- `filesystems[i]`, for an `int` in the table.
abbrev pub mounted : (i : ℕ) → Storage → Option Filesystem
mounted i s = if ltb i max_entries then s.filesystems i else none

module _ (ata_read : (buffer : ℕ) → Drive → (sectors start : ℕ) → Bytes → Option (ℕ × Bytes))
    (ata_write : (buffer : ℕ) → Drive → (sectors start : ℕ) → Bytes → Option Bytes) where
  -- `fopen`, with the strings "/" at `root` and `delim`.
  unfoldable pub fopen :
      (fuel name mode root delim : ℕ) → Dirent → FatFile → Mounts → Option (Option FatFile × Mounts)
  fopen fuel name mode root delim dirent raw w =
      let i = u32 (promote (w.disk.memory name) + 2 ^ 32 - 65) in
      let o : Opening = record { static_str = w.static_str; volume = w.volumes i; disk = w.disk } in
      if name == 0 then some (none, w) else elim (mounted i w.disk.storage) [
        | none ↦ none
        | some fs ↦
            if fs.fs_type == 3 || fs.fs_type == 5
            then elim (fat32_open_file ata_read ata_write fuel (name + 2) root delim (u8 mode)
                dirent raw o) [
                  | none ↦ none
                  | some (file, o') ↦ some (
                    file,
                    record (with_volume i o'.volume o'.disk w) { static_str = o'.static_str },
                  )
                ]
            else some (none, w)
      ]

  -- `fwrite` on a file that is not null, with its result.
  unfoldable pub fwrite : FatFile → (buffer size : ℕ) → Mounts → Option (ℕ × Mounts)
  fwrite file buffer size w =
      let i = file.file_base.filesystem_id in
      if file.file_base.fs_type == 5
      then elim (mounted i w.disk.storage) [
        | none ↦ none
        | some fs ↦ elim (fat32_write ata_read ata_write file size buffer (w.volumes i) w.disk) [
          | none ↦ none
          | some (result, (v, d)) ↦ some (result, with_volume i v d w)
        ]
      ]
      else some (0, w)

  -- `fread` on a file that is not null, and the file afterwards.
  unfoldable pub fread :
      (fuel : ℕ) → FatFile → (buffer size : ℕ) → Mounts → Option (FatFile × Mounts)
  fread fuel file buffer size w =
      let i = file.file_base.filesystem_id in
      if not (file.file_base.fs_type == 5) || buffer == 0
      then some (file, w)
      else elim (mounted i w.disk.storage) [
        | none ↦ none
        | some fs ↦
            elim (fat32_read ata_read ata_write fuel file size buffer (w.volumes i) w.disk) [
              | none ↦ none
              | some (file', (v, d)) ↦ some (file', with_volume i v d w)
            ]
      ]

  -- Where the ATA driver comes back from each reading, on a file of a mounted volume whose drive is in the
  -- table, with sectors of four bytes at least and clusters of two sectors at least and fewer than 2^32
  -- bytes, `fread` to a buffer that is not null comes back within 32 rounds; the file's position has grown by the size, in 32 bits, and the tables of
  -- drives and filesystems are as they were.
  pub fread-returns :
      (file : FatFile) (buffer size : ℕ) (w : Mounts) (fs : Filesystem)
      → Answers ata_read
      → mounted file.file_base.filesystem_id w.disk.storage ≡ some fs
      → file.file_base.fs_type ≡ 5
      → buffer ≢ 0
      → Readable (w.volumes file.file_base.filesystem_id) w.disk
      → 2 ≤ (w.volumes file.file_base.filesystem_id).sectors_per_cluster
      → (w.volumes file.file_base.filesystem_id).sectors_per_cluster
          * (w.volumes file.file_base.filesystem_id).sector_size_bytes
        < 2 ^ 32
      → (file' : FatFile) × (w' : Mounts) × (fread 33 file buffer size w ≡ some (file', w'))
        × (file'.file_base.position ≡ u32 (file.file_base.position + size))
        × (w'.disk.storage ≡ w.disk.storage)
  unfolding fread
  fread-returns file buffer size w fs answers there kind real r two fits =
      let i = file.file_base.filesystem_id in
      let (cluster, v, d, run, kept) =
        fat32_read-returns ata_read ata_write answers file size buffer (w.volumes i) w.disk r two
          fits in
      let goes : (not (file.file_base.fs_type == 5) || buffer == 0) ≡ false =
        ground (arith, kind) in
      (
        after_read size cluster (w.volumes i) file,
        with_volume i v d w,
        rw (fread, goes, there, run) refl,
        refl,
        kept.storage,
      )
