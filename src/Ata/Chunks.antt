-- ===== src/Ata/Chunks.antt =====
-- What `ata_read` of kernel/drivers/ata.c reads of whole chunks of 256 sectors.
use l_ost.Common.{ℕ, zero, suc, ◌+◌, ◌*◌, ◌/◌, ◌%◌, ◌≡◌, refl, ◌∙◌, true, false, some, u32}
use l_ost.Ata.{
  AtaDrive, Words, has, Machine, read_byte, wait_ready, read_command, read_sectors, ata28_read,
  read_chunks, ata_read,
}

module _ {D : Type 0} (inb : (port : ℕ) → D → ℕ × D) (inw : (port : ℕ) → D → ℕ × D)
    (outb : (port value : ℕ) → D → D) (elapsed : D → ℕ) where
  -- The status register of the drive has its ready bit, whatever the state.
  unfoldable pub Ready : AtaDrive → Type 0
  Ready drive = (d : D) → has (inb (drive.base_port + 7) d).0 0x40 ≡ true

  wait_ready-Ready :
      (fuel : ℕ) (drive : AtaDrive) (s : Machine D)
      → Ready drive
      → wait_ready inb inw outb elapsed (suc fuel) drive s
        ≡ some (read_byte inb inw outb elapsed (drive.base_port + 7) s).1
  unfolding wait_ready read_byte Ready
  wait_ready-Ready fuel drive s ready = rw (ready s.device) refl

  ata28_read-nothing :
      (fuel buffer start : ℕ) (drive : AtaDrive) (m : Words) (s : Machine D)
      → Ready drive
      → (s' : Machine D) × (ata28_read inb inw outb elapsed (suc fuel) buffer drive 0 start m s
          ≡ some (buffer, (m, s')))
  unfolding ata28_read read_sectors
  ata28_read-nothing fuel buffer start drive m s ready =
      let s1 = (read_byte inb inw outb elapsed (drive.base_port + 7) s).1 in
      let s2 = read_command inb inw outb elapsed drive 0 start s1 in
      (
        (read_byte inb inw outb elapsed (drive.base_port + 7) s2).1,
        rw (wait_ready-Ready fuel drive s ready, ata28_read, wait_ready-Ready fuel drive s2 ready)
            refl,
      )

  read_chunks-step :
      (fuel n i buffer start result : ℕ) (drive : AtaDrive) (m m' : Words) (s s' : Machine D)
      → ata28_read inb inw outb elapsed fuel
          (buffer + (i + 1) * 65536)
          drive
          0
          (u32 (start + i * 256))
          m
          s
        ≡ some (result, (m', s'))
      → read_chunks inb inw outb elapsed fuel (suc n) i buffer drive start m s
        ≡ read_chunks inb inw outb elapsed fuel n (i + 1) buffer drive start m' s'
  unfolding read_chunks
  read_chunks-step fuel n i buffer start result drive m m' s s' run = rw (run, read_chunks) refl

  read_chunks-nothing :
      (fuel n i buffer start : ℕ) (drive : AtaDrive) (m : Words) (s : Machine D)
      → Ready drive
      → (s' : Machine D) × (read_chunks inb inw outb elapsed (suc fuel) n i buffer drive start m s
          ≡ some (m, s'))
  unfolding read_chunks
  read_chunks-nothing fuel zero i buffer start drive m s ready = (s, refl)
  read_chunks-nothing fuel (suc n) i buffer start drive m s ready =
      let (s1, run) =
        ata28_read-nothing fuel (buffer + (i + 1) * 65536) (u32 (start + i * 256)) drive m s
          ready in
      let (s2, rest) = read_chunks-nothing fuel n (i + 1) buffer start drive m s1 ready in
      (
        s2,
        read_chunks-step (suc fuel) n i buffer start (buffer + (i + 1) * 65536) drive m m s s1 run
            ∙ rest,
      )

  ata_read-parts :
      (fuel buffer sectors start result : ℕ) (drive : AtaDrive) (m m1 m2 : Words)
      (s s1 s2 : Machine D)
      → drive.lba48 ≡ false
      → read_chunks inb inw outb elapsed fuel (sectors / 256) 0 buffer drive start m s
        ≡ some (m1, s1)
      → ata28_read inb inw outb elapsed fuel
          (buffer + sectors / 256 * 65536)
          drive
          (sectors % 256)
          (u32 (start + sectors / 256 * 65536 / 512))
          m1
          s1
        ≡ some (result, (m2, s2))
      → ata_read inb inw outb elapsed fuel buffer drive sectors start m s ≡ some (buffer, (m2, s2))
  unfolding ata_read
  ata_read-parts fuel buffer sectors start result drive m m1 m2 s s1 s2 short chunks rest =
      simp short (rw (chunks, ata_read, rest) refl)

  -- On a drive that is always ready and has no 48-bit addresses, ata_read of a multiple of 256
  -- sectors comes back with its buffer, as after a success, and has read nothing: the memory is as
  -- before.
  pub ata_read-nothing :
      (fuel buffer sectors start : ℕ) (drive : AtaDrive) (m : Words) (s : Machine D)
      → Ready drive
      → drive.lba48 ≡ false
      → sectors % 256 ≡ 0
      → (s' : Machine D) × (ata_read inb inw outb elapsed (suc fuel) buffer drive sectors start m s
          ≡ some (buffer, (m, s')))
  ata_read-nothing fuel buffer sectors start drive m s ready short whole =
      let (s1, chunks) = read_chunks-nothing fuel (sectors / 256) 0 buffer start drive m s ready in
      let at = buffer + sectors / 256 * 65536 in
      let from = u32 (start + sectors / 256 * 65536 / 512) in
      let (s2, rest) = ata28_read-nothing fuel at from drive m s1 ready in
      (
        s2,
        ata_read-parts (suc fuel) buffer sectors start at drive m m m s s1 s2 short chunks
            (rw whole rest),
      )
