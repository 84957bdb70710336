-- ===== src/Fat/Reading.antt =====
-- `fat32_read` of kernel/filesystems/fat.c comes back.
use l_ost.Common.{
  ℕ, zero, suc, ◌+◌, ◌*◌, ◌/◌, ◌^◌, ◌≤◌, ◌<◌, ◌≡◌, refl, ◌∙◌, inl, inr, false, ◌&&◌, Option, some,
  arith, ltb, ◌==◌, if◌then◌else◌, Bool-cases, u32, slt,
}
use native.Mathlib.Nat.{mul-pos}
use l_ost.Text.Numbers.{half_lt}
use l_ost.Text.{Bytes, kmemcpy}
use l_ost.Storage.{
  Drive, Storage, read_from_drive, drive_null, drive_virt, drive_pata28, de_invalid_drive, e_no_err,
  e_not_implemented, ramdisk_read, Answers,
}
use l_ost.Storage.Detect.{long_at}
use l_ost.Memory.{kmalloc}
use l_ost.Fat.{
  Volume, Disk, FatFile, drive_read, cache_fat32, get_next_cluster32, outside_cache, cache_entry,
}
use l_ost.Fat.Files.{read_cluster, read_from, fat32_read, sectors_for, sector_of, after_read}

-- What reading keeps of a volume and its disk.
pub record Kept (v : Volume) (d : Disk) (v' : Volume) (d' : Disk) : Type 0 where
  pub drive : v'.drive ≡ v.drive
  pub sector_size : v'.sector_size_bytes ≡ v.sector_size_bytes
  pub cluster_size : v'.sectors_per_cluster ≡ v.sectors_per_cluster
  pub storage : d'.storage ≡ d.storage

-- The volume's drive is in the table, and its sectors hold at least one entry.
pub record Readable (v : Volume) (d : Disk) : Type 0 where
  pub entry : Drive
  pub present : d.storage.drives v.drive ≡ some entry
  pub sector : 4 ≤ v.sector_size_bytes

Kept-Readable : (v v' : Volume) (d d' : Disk) → Kept v d v' d' → Readable v d → Readable v' d'
Kept-Readable v v' d d' k r = record {
  entry = r.entry;
  present = rw (k.drive, k.storage) r.present;
  sector = rw k.sector_size r.sector;
}

Kept-memory :
    (v v' : Volume) (d d' : Disk) (m : Bytes)
    → Kept v (record d { memory = m }) v' d'
    → Kept v d v' d'
Kept-memory v v' d d' m k = record {
  drive = k.drive;
  sector_size = k.sector_size;
  cluster_size = k.cluster_size;
  storage = k.storage;
}

Readable-memory :
    (v : Volume) (d : Disk) (m : Bytes) → Readable v d → Readable v (record d { memory = m })
Readable-memory v d m r = record { entry = r.entry; present = r.present; sector = r.sector }

module _ (ata_read : (buffer : ℕ) → Drive → (sectors start : ℕ) → Bytes → Option (ℕ × Bytes))
    (ata_write : (buffer : ℕ) → Drive → (sectors start : ℕ) → Bytes → Option Bytes)
    (answers : Answers ata_read) where
  read_from_drive-back :
      (s : Storage) (buffer sectors start drive : ℕ) (m : Bytes) (e : Drive)
      → s.drives drive ≡ some e
      → (result : ℕ) × (m' : Bytes) × (read_from_drive ata_read ata_write s buffer sectors start
            drive m
          ≡ some (result, m'))
  unfolding read_from_drive
  read_from_drive-back s buffer sectors start drive m e present =
      elim (Bool-cases (e.drive_type == drive_null)) [
        | inl t ↦ (de_invalid_drive, m, rw (present, read_from_drive, t) refl)
        | inr t ↦ elim (Bool-cases (e.drive_type == drive_virt)) [
          | inl u ↦ (
            e_no_err,
            ramdisk_read s start buffer sectors m,
            rw (present, read_from_drive, t, u) refl,
          )
          | inr u ↦ elim (Bool-cases (e.drive_type == drive_pata28)) [
            | inl p ↦
                let ((result, m'), answer) = answers buffer e sectors start m in
                (result, m', rw (present, read_from_drive, t, u, p) answer)
            | inr p ↦ (e_not_implemented, m, rw (present, read_from_drive, t, u, p) refl)
          ]
        ]
      ]

  drive_read-back :
      (buffer sectors start drive : ℕ) (d : Disk) (e : Drive)
      → d.storage.drives drive ≡ some e
      → (result : ℕ) × (m' : Bytes) × (drive_read ata_read ata_write buffer sectors start drive d
          ≡ some (result, record d { memory = m' }))
  unfolding drive_read
  drive_read-back buffer sectors start drive d e present =
      let (result, m', run) =
        read_from_drive-back d.storage buffer sectors start drive d.memory e present in
      (result, m', rw (run, drive_read) refl)

  cache_fat32-back :
      (start : ℕ) (v : Volume) (d : Disk)
      → Readable v d
      → (v' : Volume) × (d' : Disk) × (cache_fat32 ata_read ata_write start v d ≡ some (v', d'))
        × Kept v d v' d'
  unfolding cache_fat32
  cache_fat32-back start v d r =
      let nonzero : (v.sector_size_bytes / 4 == 0) ≡ false = ground (arith, r.sector) in
      let fresh = kmalloc (v.fat_cache_size / 8 + 1) 6 d.pages in
      let d1 : Disk = record d { pages = if v.fat_cache == 0 then fresh.1 else d.pages } in
      let (result, m', run) =
        drive_read-back (if v.fat_cache == 0 then fresh.0 else v.fat_cache) v.fat_cache_size
          (u32 (start / (v.sector_size_bytes / 4) + v.fat_offset_primary)) v.drive d1 r.entry
          r.present in
      (
        record v { cached_clusters_start = start },
        record d1 { memory = m' },
        rw (nonzero, cache_fat32, run) refl,
        record { drive = refl; sector_size = refl; cluster_size = refl; storage = refl },
      )

  get_next-back :
      (cluster : ℕ) (v : Volume) (d : Disk)
      → Readable v d
      → (next : ℕ) × (v' : Volume) × (d' : Disk) × (get_next_cluster32 ata_read ata_write cluster v
            d
          ≡ some (next, (v', d')))
        × Kept v d v' d'
  unfolding get_next_cluster32
  get_next-back cluster v d r =
      let nonzero : (v.sector_size_bytes == 0) ≡ false = ground (arith, r.sector) in
      elim (Bool-cases (outside_cache cluster v)) [
        | inl out ↦
            let (v', d', run, kept) = cache_fat32-back cluster v d r in
            (
              long_at d'.memory (cache_entry cluster v'),
              v',
              d',
              rw (get_next_cluster32, nonzero, out, get_next_cluster32, run) refl,
              kept,
            )
        | inr held ↦ (
          long_at d.memory (cache_entry cluster v),
          v,
          d,
          rw (get_next_cluster32, nonzero, held) refl,
          record { drive = refl; sector_size = refl; cluster_size = refl; storage = refl },
        )
      ]

  read_cluster-back :
      (size buffer cluster position : ℕ) (v : Volume) (d : Disk)
      → Readable v d
      → (next : ℕ) × (position' : ℕ) × (v' : Volume) × (d' : Disk) × (read_cluster ata_read
            ata_write size buffer cluster position v d
          ≡ some (next, (position', (v', d'))))
        × Kept v d v' d'
  unfolding read_cluster
  read_cluster-back size buffer cluster position v d r =
      let (result, m, run) =
        drive_read-back buffer v.sectors_per_cluster (sector_of v cluster) v.drive d r.entry
          r.present in
      let d1 : Disk = record d { memory = m } in
      elim (Bool-cases (position == 0)) [
        | inl start ↦
            let (next, v', d', run', kept) = get_next-back cluster v d1 (Readable-memory v d m r) in
            (
              next,
              0,
              v',
              d',
              rw (run, read_cluster, start, run', start) refl,
              Kept-memory v v' d d' m kept,
            )
        | inr inside ↦
            let d2 : Disk = record d1 {
              memory =
                  kmemcpy buffer (u32 (buffer + position)) (if ltb size (2 ^ 31) then size else 0)
                    m;
            } in
            let (next, v', d', run', kept) =
              get_next-back cluster v d2 (Readable-memory v d d2.memory r) in
            (
              next,
              size,
              v',
              d',
              rw (run, read_cluster, inside, run', inside) refl,
              Kept-memory v v' d d' d2.memory kept,
            )
      ]

  read_from-back :
      (k fuel size buffer sectors cluster position : ℕ) (v : Volume) (d : Disk)
      → k < fuel
      → sectors < 2 ^ k
      → 2 ≤ v.sectors_per_cluster
      → Readable v d
      → (cluster' : ℕ) × (position' : ℕ) × (v' : Volume) × (d' : Disk) × (read_from ata_read
            ata_write fuel size buffer sectors cluster position v d
          ≡ some (cluster', (position', (v', d'))))
        × Kept v d v' d'
  unfolding read_from
  read_from-back k zero size buffer sectors cluster position v d more below two r =
      absurd (omega arith)
  read_from-back zero (suc f) size buffer sectors cluster position v d more below two r =
      let none_left : sectors ≡ 0 = omega arith in
      (
        cluster,
        position,
        v,
        d,
        rw (none_left, read_from) refl,
        record { drive = refl; sector_size = refl; cluster_size = refl; storage = refl },
      )
  read_from-back (suc k) (suc f) size buffer sectors cluster position v d more below two r =
      elim (Bool-cases (slt 0 sectors && ltb cluster 0xffffff8)) [
        | inr over ↦ (
          cluster,
          position,
          v,
          d,
          rw (read_from, over) refl,
          record { drive = refl; sector_size = refl; cluster_size = refl; storage = refl },
        )
        | inl goes_on ↦
            let (next, position', v', d', run, kept) =
              read_cluster-back size buffer cluster position v d r in
            let divides : (v'.sectors_per_cluster == 0) ≡ false =
              ground (arith, kept.cluster_size) in
            let (cluster', position'', v'', d'', run', kept') =
              read_from-back k f size buffer (sectors / v'.sectors_per_cluster) next position' v' d'
                (omega arith)
                (rw kept.cluster_size (half_lt sectors v.sectors_per_cluster k two below))
                (rw kept.cluster_size two) (Kept-Readable v v' d d' kept r) in
            (
              cluster',
              position'',
              v'',
              d'',
              rw (read_from, goes_on, run, divides, run') refl,
              record {
                drive = kept'.drive ∙ kept.drive;
                sector_size = kept'.sector_size ∙ kept.sector_size;
                cluster_size = kept'.cluster_size ∙ kept.cluster_size;
                storage = kept'.storage ∙ kept.storage;
              },
            )
      ]

  -- On a volume whose drive is in the table, with sectors of four bytes at least and clusters of two
  -- sectors at least and fewer than 2^32 bytes, `fat32_read` comes back within 32 rounds, whatever a
  -- driver answers that comes back from each call, and leaves the volume's drive and geometry and the table of drives as they were;
  -- the file's position has grown by the size, in 32 bits.
  pub fat32_read-returns :
      (file : FatFile) (size buffer : ℕ) (v : Volume) (d : Disk)
      → Readable v d
      → 2 ≤ v.sectors_per_cluster
      → v.sectors_per_cluster * v.sector_size_bytes < 2 ^ 32
      → (cluster : ℕ) × (v' : Volume) × (d' : Disk) × (fat32_read ata_read ata_write 33 file size
            buffer v d
          ≡ some (after_read size cluster v file, (v', d')))
        × Kept v d v' d'
  unfolding fat32_read
  fat32_read-returns file size buffer v d r two fits =
      let (cluster, position, v', d', run, kept) =
        read_from-back 32 33 size buffer (sectors_for size v) file.current_cluster
          file.position_in_cluster v d (omega arith) (ground arith) two r in
      let positive : 0 < v.sectors_per_cluster * v.sector_size_bytes =
        mul-pos (omega arith) (omega (arith, r.sector)) in
      let divides : (u32 (v'.sectors_per_cluster * v'.sector_size_bytes) == 0) ≡ false =
        rw (kept.cluster_size, kept.sector_size) (ground (arith, positive, fits)) in
      let same : after_read size cluster v' file ≡ after_read size cluster v file =
        rw (kept.cluster_size, kept.sector_size) refl in
      (cluster, v', d', rw (fat32_read, run, divides, same) refl, kept)
