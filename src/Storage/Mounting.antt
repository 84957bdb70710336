-- ===== src/Storage/Mounting.antt =====
-- The outcomes of `register_drive` of kernel/drivers/storage.c on a drive without a volume.
use l_ost.Common.{
  ℕ, zero, suc, ◌+◌, ◌-◌, ◌^◌, ◌≤◌, ◌<◌, ◌≡◌, ◌≢◌, refl, ap, ◌∙◌, inl, inr, true, false, Option,
  none, some, arith, ◌==◌, if◌then◌else◌, Option-cases,
}
use l_ost.Memory.{Memory, kmalloc}
use l_ost.Text.{Bytes}
use l_ost.Storage.{
  Answers, Drive, Filesystem, Storage, max_entries, is_some, free_from_index, mount_drive,
  read_from_drive,
}
use l_ost.Storage.Table.{Free, full, at, free_from_index-Free}
use l_ost.Storage.Partitions.{
  partition_at, is_skipped, register_partition, register_partitions, register_drive,
}

-- What `register_drive` leaves of the tables and the pages.
pub data DriveOutcome (drive : Drive) (s : Storage) (pages : Memory)
    : ℕ × (Storage × Memory) → Type 0 where
  refused :
      ((j : ℕ) → j < max_entries → is_some (s.drives j) ≡ true)
      → DriveOutcome drive s pages (2 ^ 32 - 1, (s, pages))
  registered :
      (k : ℕ) (s' : Storage)
      → k < max_entries
      → is_some (s.drives k) ≡ false
      → ((j : ℕ) → j < k → is_some (s.drives j) ≡ true)
      → s'.drives k ≡ some (record drive { number = k })
      → ((j : ℕ) → j ≢ k → s'.drives j ≡ s.drives j)
      → s'.filesystems ≡ s.filesystems
      → DriveOutcome drive s pages (0, (s', (kmalloc 1 7 pages).1))

module _ (ata_read : (buffer : ℕ) → Drive → (sectors start : ℕ) → Bytes → Option (ℕ × Bytes))
    (ata_write : (buffer : ℕ) → Drive → (sectors start : ℕ) → Bytes → Option Bytes)
    (fat32_register : ℕ → Filesystem → Memory → ℕ × (Filesystem × Memory))
    (raw : ℕ → Filesystem) where
  register_partitions-skipped :
      (n mbr i j : ℕ) (s : Storage) (pages : Memory) (m : Bytes)
      → ((l : ℕ) → j ≤ l → l < j + n → is_skipped (partition_at m mbr l) ≡ true)
      → register_partitions ata_read ata_write fat32_register raw n mbr i j (s, (pages, m))
        ≡ some (s, (pages, m))
  unfolding register_partitions register_partition
  register_partitions-skipped zero mbr i j s pages m all = refl
  register_partitions-skipped (suc n) mbr i j s pages m all =
      let here = all j (omega arith) (omega arith) in
      rw (register_partitions, register_partition, here)
        (register_partitions-skipped n mbr i (j + 1) s pages m
          (λ l lo hi. all l (omega arith) (omega arith)))

  -- The drive stands in its entry, so the first sector is read, whatever its type.
  read_from_drive-some :
      Answers ata_read
      → (drive : Drive) (s : Storage) (buffer sectors start k : ℕ) (m : Bytes)
      → s.drives k ≡ some drive
      → (r : ℕ × Bytes) × (read_from_drive ata_read ata_write s buffer sectors start k m ≡ some r)
  unfolding read_from_drive
  read_from_drive-some answers drive s buffer sectors start k m held =
      elim (Option-cases (read_from_drive ata_read ata_write s buffer sectors start k m)) [
        | inr (r, run) ↦ (r, run)
        | inl fails ↦
            let (x, answer) = answers buffer drive sectors start m in
            absurd (ground (arith, held, fails, answer))
      ]

  register_drive-run :
      (drive : Drive) (s : Storage) (pages : Memory) (m m1 : Bytes) (k mbr : ℕ)
      → free_from_index max_entries 0 s.drives ≡ some k
      → read_from_drive ata_read ata_write (mount_drive drive s).1 (kmalloc 1 7 pages).0 1 0 k m
        ≡ some (mbr, m1)
      → ((l : ℕ) → l < 4 → is_skipped (partition_at m1 mbr l) ≡ true)
      → register_drive ata_read ata_write fat32_register raw drive (s, (pages, m))
        ≡ some (0, ((mount_drive drive s).1, ((kmalloc 1 7 pages).1, m1)))
  unfolding register_drive
  register_drive-run drive s pages m m1 k mbr index run all =
      let rest =
        register_partitions-skipped 4 mbr k 0 (mount_drive drive s).1 (kmalloc 1 7 pages).1 m1
          (λ l lo hi. all l (omega arith)) in
      rw (register_drive, index, run, rest) refl

  Outcome-at :
      (drive : Drive) (s : Storage) (pages : Memory) (m : Bytes) (r : Option ℕ)
      → Answers ata_read
      → free_from_index max_entries 0 s.drives ≡ r
      → Free s.drives max_entries 0 r
      → ((k mbr : ℕ) (m1 : Bytes)
          → free_from_index max_entries 0 s.drives ≡ some k
          → read_from_drive ata_read ata_write (mount_drive drive s).1 (kmalloc 1 7 pages).0 1 0 k m
            ≡ some (mbr, m1)
          → (l : ℕ) → l < 4
          → is_skipped (partition_at m1 mbr l) ≡ true)
      → (code : ℕ) × (s' : Storage) × (pages' : Memory) × (m' : Bytes) × (register_drive ata_read
            ata_write fat32_register raw drive
            (s, (pages, m))
          ≡ some (code, (s', (pages', m'))))
        × DriveOutcome drive s pages (code, (s', pages'))
  unfolding register_drive mount_drive is_some
  Outcome-at drive s pages m none answers index (full all) no_volume = (
    2 ^ 32 - 1,
    s,
    pages,
    m,
    rw (register_drive, index) refl,
    refused (λ j hi. all j (omega arith) (omega arith)),
  )
  Outcome-at drive s pages m (some k) answers index (at _ lo hi free skipped) no_volume =
      let here : (k == k) ≡ true = ground arith in
      let other : (j : ℕ) → j ≢ k → (j == k) ≡ false = λ j ne. ground arith in
      let s' : Storage = record s {
        drives = λ j. if j == k then some (record drive { number = k }) else s.drives j;
      } in
      let mounted : (mount_drive drive s).1 ≡ s' = rw (mount_drive, index) refl in
      let held : (mount_drive drive s).1.drives k ≡ some (record drive { number = k }) =
        rw (mounted, here) refl in
      let ((mbr, m1), run) =
        read_from_drive-some answers (record drive { number = k }) (mount_drive drive s).1
          (kmalloc 1 7 pages).0 1 0 k m held in
      (
        0,
        s',
        (kmalloc 1 7 pages).1,
        m1,
        register_drive-run drive s pages m m1 k mbr index run (no_volume k mbr m1 index run)
            ∙ ap (λ x. some (0, (x, ((kmalloc 1 7 pages).1, m1)))) mounted,
        registered k s' (omega arith) free (λ j below. skipped j (omega arith) below) (rw here refl)
            (λ j ne. rw (other j ne) refl) refl,
      )

  -- Where the ATA driver comes back from each reading, and where the sector that is read from the new
  -- drive's entry names no partition to be looked at, register_drive comes back: with -1
  -- and nothing changed where all 26 entries of the drives are taken, and else with 0 and the
  -- drive, with its index as its number, at the first free index. No other entry of the drives and no
  -- filesystem changes then, and the page for the sector stays taken.
  pub register_drive-Outcome :
      (drive : Drive) (s : Storage) (pages : Memory) (m : Bytes)
      → Answers ata_read
      → ((k mbr : ℕ) (m1 : Bytes)
          → free_from_index max_entries 0 s.drives ≡ some k
          → read_from_drive ata_read ata_write (mount_drive drive s).1 (kmalloc 1 7 pages).0 1 0 k m
            ≡ some (mbr, m1)
          → (l : ℕ) → l < 4
          → is_skipped (partition_at m1 mbr l) ≡ true)
      → (code : ℕ) × (s' : Storage) × (pages' : Memory) × (m' : Bytes) × (register_drive ata_read
            ata_write fat32_register raw drive
            (s, (pages, m))
          ≡ some (code, (s', (pages', m'))))
        × DriveOutcome drive s pages (code, (s', pages'))
  register_drive-Outcome drive s pages m answers =
      Outcome-at drive s pages m (free_from_index max_entries 0 s.drives) answers refl
        (free_from_index-Free max_entries 0 s.drives)
