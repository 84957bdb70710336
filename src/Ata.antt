-- ===== src/Ata.antt =====
-- The ATA driver of kernel/drivers/ata.c, with the identification in Identify. The ports are
-- arguments: `inb`, `inw` and `outb` on a state `D` of the hardware, and `elapsed`, the timer
-- interrupts during an access. Memory is taken in words of 16 bits, and buffers in words. `none` is
-- a wait that has not ended within its fuel.
pub mod Chunks
pub mod Identify
mod Tests
use l_ost.Common.{
  ℕ, zero, suc, ◌+◌, ◌-◌, ◌*◌, ◌/◌, ◌%◌, ◌^◌, ◌≤◌, ◌<◌, ◌≡◌, ◌≢◌, refl, sym, ap, ◌∙◌, ◌↔◌, ◌⊎◌, inl,
  inr, Bool, true, false, ◌&&◌, ◌||◌, not, Option, none, some, List, [], ◌∷◌, ◌++◌, arith,
  ℕ_discrete, dec_lt, ltb, leb, ◌==◌, if◌then◌else◌, Bool-cases, Option-cases, length, u8, u16, u32,
  mask, bit_field, slt, promote,
}
use l_ost.Timer.{Clock, wait_secs}
use l_ost.Timer.Waits.{after}
use l_ost.Storage.{e_not_implemented}

-- The fields of `ata_drive32_t` that reading and writing use.
pub record AtaDrive : Type 0 where
  pub base_port : ℕ
  pub slave : Bool
  pub lba48 : Bool

abbrev pub de_drive_err : ℕ
de_drive_err = 1

abbrev pub e_timeout : ℕ
e_timeout = 8

abbrev pub Words : Type 0
Words = ℕ → ℕ

-- `v & w` is not 0, for a power of two `w`.
abbrev pub has : (v w : ℕ) → Bool
has v w = v / w % 2 == 1

pub record Machine (D : Type 0) : Type 0 where
  pub device : D
  pub clock : Clock

-- `0xE0 | (drive->flags.slave << 4) | ((sectors >> 24) & 0xf)`.
abbrev pub head_register : AtaDrive → (sectors : ℕ) → ℕ
head_register drive sectors = 0xe0 + (if drive.slave then 0x10 else 0) + sectors / 2 ^ 24 % 16

module _ {D : Type 0} (inb : (port : ℕ) → D → ℕ × D) (inw : (port : ℕ) → D → ℕ × D)
    (outb : (port value : ℕ) → D → D) (elapsed : D → ℕ) where
  unfoldable pub read_byte : (port : ℕ) → Machine D → ℕ × Machine D
  read_byte port s =
      let read = inb port s.device in
      (read.0, record { device = read.1; clock = after (elapsed s.device) s.clock })

  unfoldable pub write_byte : (port value : ℕ) → Machine D → Machine D
  write_byte port value s = record s { device = outb port (u8 value) s.device }

  -- `while(!(inb(drive->base_port STATUS) & 0x40));`.
  pub wait_ready : (fuel : ℕ) → AtaDrive → Machine D → Option (Machine D)
  wait_ready zero drive s = none
  wait_ready (suc fuel) drive s =
      let read = read_byte (drive.base_port + 7) s in
      let rest = wait_ready fuel drive read.1 in if has read.0 0x40 then some read.1 else rest

  -- The loop of `poll_drive`.
  pub poll_from : (fuel : ℕ) → AtaDrive → (res : ℕ) → Machine D → Option (ℕ × Machine D)
  poll_from zero drive res s = none
  poll_from (suc fuel) drive res s =
      let read = read_byte (drive.base_port + 7) s in
      let rest = poll_from fuel drive read.0 read.1 in
      if not (has res 0x40 || not (has res 8)) || (has res 0x80 && not (wait_secs 0 s.clock).0)
      then (if has res 0x20 || has res 1
          then some (de_drive_err, (read_byte (drive.base_port + 1) s).1)
          else rest)
      else if (wait_secs 0 s.clock).0
      then some (e_timeout, s)
      else some (0, s)

  pub poll_drive : (fuel : ℕ) → AtaDrive → Machine D → Option (ℕ × Machine D)
  poll_drive fuel drive s =
      let read = read_byte (drive.base_port + 7) s in
      poll_from fuel drive read.0 (record read.1 { clock = (wait_secs 5 read.1.clock).1 })

  -- `poll_drive`, and up to `tries` more times while it fails.
  pub poll_again : (fuel tries : ℕ) → AtaDrive → Machine D → Option (ℕ × Machine D)
  poll_again fuel zero drive s = poll_drive fuel drive s
  poll_again fuel (suc tries) drive s = elim (poll_drive fuel drive s) [
    | none ↦ none
    | some (res, s') ↦ elim (res == 0) [
      | true ↦ some (res, s')
      | false ↦ poll_again fuel tries drive s'
    ]
  ]

  -- The 256 words of a sector.
  pub read_words : (n at : ℕ) → AtaDrive → Words → Machine D → Words × Machine D
  read_words zero at drive m s = (m, s)
  read_words (suc n) at drive m s =
      let read = inw drive.base_port s.device in
      read_words n (at + 1) drive (λ a. if a == at then read.0 else m a)
        (record s { device = read.1 })

  -- The loop of `ata28_read` over `n` sectors. The result is 0, or `buffer`.
  pub read_sectors :
      (fuel n at buffer : ℕ) → AtaDrive → Words → Machine D → Option (ℕ × (Words × Machine D))
  read_sectors fuel zero at buffer drive m s = some (buffer, (m, s))
  read_sectors fuel (suc n) at buffer drive m s = elim (poll_again fuel 6 drive s) [
    | none ↦ none
    | some (res, s') ↦ elim (res == 0) [
      | false ↦ some (0, (m, s'))
      | true ↦
          let read = read_words 256 at drive m s' in
          read_sectors fuel n (at + 256) buffer drive read.0 read.1
    ]
  ]

  -- The command of `ata28_read`, between the two waits.
  pub read_command : AtaDrive → (sectors start : ℕ) → Machine D → Machine D
  read_command drive sectors start s =
      let p = drive.base_port in
      write_byte (p + 7) 0x20 (
        write_byte (p + 5) (start / 2 ^ 16 % 256) (
          write_byte (p + 4) (start / 2 ^ 8 % 256) (
            write_byte (p + 3) (start % 256) (
              write_byte (p + 2) sectors
                (write_byte (p + 1) 0 (write_byte (p + 6) (head_register drive sectors) s))))))

  pub ata28_read :
      (fuel buffer : ℕ)
      → AtaDrive
      → (sectors start : ℕ) → Words
      → Machine D
      → Option (ℕ × (Words × Machine D))
  ata28_read fuel buffer drive sectors start m s = elim (wait_ready fuel drive s) [
    | none ↦ none
    | some s1 ↦ elim (wait_ready fuel drive (read_command drive sectors start s1)) [
      | none ↦ none
      | some s2 ↦ read_sectors fuel sectors buffer buffer drive m s2
    ]
  ]

  -- The loop of `ata_read` over `n` chunks from chunk `i` on. What a chunk returns is not looked at.
  pub read_chunks :
      (fuel n i buffer : ℕ)
      → AtaDrive
      → (start : ℕ) → Words
      → Machine D
      → Option (Words × Machine D)
  read_chunks fuel zero i buffer drive start m s = some (m, s)
  read_chunks fuel (suc n) i buffer drive start m s =
      elim (ata28_read fuel (buffer + (i + 1) * 65536) drive 0 (u32 (start + i * 256)) m s) [
        | none ↦ none
        | some (result, rest) ↦ read_chunks fuel n (i + 1) buffer drive start rest.0 rest.1
      ]

  -- `ata_read`; `end` is `sectors / 256 * 65536`, as a `long` of 32 bits below 2^31.
  pub ata_read :
      (fuel buffer : ℕ)
      → AtaDrive
      → (sectors start : ℕ) → Words
      → Machine D
      → Option (ℕ × (Words × Machine D))
  ata_read fuel buffer drive sectors start m s =
      if drive.lba48
      then some (e_not_implemented, (m, s))
      else elim (read_chunks fuel (sectors / 256) 0 buffer drive start m s) [
        | none ↦ none
        | some (m', s') ↦
            elim (ata28_read fuel (buffer + sectors / 256 * 65536) drive (sectors % 256)
              (u32 (start + sectors / 256 * 65536 / 512)) m' s') [
                | none ↦ none
                | some (result, rest) ↦ some (buffer, rest)
              ]
      ]

  -- The loop of `ata28_write` before its command: whether the drive is free, and not in error.
  pub wait_free : (fuel : ℕ) → AtaDrive → (stat : ℕ) → Machine D → Option (Bool × Machine D)
  wait_free zero drive stat s = none
  wait_free (suc fuel) drive stat s =
      let read = read_byte (drive.base_port + 7) s in
      let rest = wait_free fuel drive read.0 read.1 in
      if has stat 0x80 && not (has stat 8)
      then (if has read.0 1 || has read.0 0x20 || (wait_secs 0 read.1.clock).0
          then some (false, read.1)
          else rest)
      else some (true, s)

  -- The 256 words of a sector go out by `outw`, which is an argument.
  pub write_words : (outw : ℕ → ℕ → D → D) → (n at : ℕ) → AtaDrive → Words → Machine D → Machine D
  write_words outw zero at drive m s = s
  write_words outw (suc n) at drive m s =
      write_words outw n (at + 1) drive m
        (record s { device = outw drive.base_port (m at) s.device })

  pub write_sectors : (outw : ℕ → ℕ → D → D) → (n at : ℕ) → AtaDrive → Words → Machine D → Machine D
  write_sectors outw zero at drive m s = s
  write_sectors outw (suc n) at drive m s =
      write_sectors outw n (at + 256) drive m (write_words outw 256 at drive m s)

  -- The command of `ata28_write`.
  pub write_command : AtaDrive → (sectors start : ℕ) → Machine D → Machine D
  write_command drive sectors start s =
      let p = drive.base_port in
      write_byte (p + 7) 0x30 (
        write_byte (p + 5) (start / 2 ^ 16 % 256) (
          write_byte (p + 4) (start / 2 ^ 8 % 256) (
            write_byte (p + 3) (start % 256) (
              write_byte (p + 2) sectors
                (write_byte (p + 1) 0 (write_byte (p + 6) (head_register drive sectors) s))))))

  pub ata28_write :
      (outw : ℕ → ℕ → D → D)
      → (fuel buffer : ℕ) → AtaDrive
      → (sectors start : ℕ) → Words
      → Machine D
      → Option (ℕ × Machine D)
  ata28_write outw fuel buffer drive sectors start m s = elim (wait_ready fuel drive s) [
    | none ↦ none
    | some s1 ↦
        let read = read_byte (drive.base_port + 7) s1 in
        elim (wait_free fuel drive read.0
          (record read.1 { clock = (wait_secs 5 read.1.clock).1 })) [
            | none ↦ none
            | some (free, s2) ↦ elim free [
              | false ↦ some (65535, s2)
              | true ↦ elim (wait_ready fuel drive (write_command drive sectors start s2)) [
                | none ↦ none
                | some s3 ↦ some (
                  0,
                  write_byte (drive.base_port + 7) 0xe7
                      (write_sectors outw sectors buffer drive m s3),
                )
              ]
            ]
          ]
  ]

  pub write_chunks :
      (outw : ℕ → ℕ → D → D)
      → (fuel n i buffer : ℕ) → AtaDrive
      → (start : ℕ) → Words
      → Machine D
      → Option (Machine D)
  write_chunks outw fuel zero i buffer drive start m s = some s
  write_chunks outw fuel (suc n) i buffer drive start m s =
      elim (ata28_write outw fuel (buffer + (i + 1) * 65536) drive 0 (u32 (start + i * 256)) m s) [
        | none ↦ none
        | some (result, s') ↦ write_chunks outw fuel n (i + 1) buffer drive start m s'
      ]

  pub ata_write :
      (outw : ℕ → ℕ → D → D)
      → (fuel buffer : ℕ) → AtaDrive
      → (sectors start : ℕ) → Words
      → Machine D
      → Option (ℕ × Machine D)
  ata_write outw fuel buffer drive sectors start m s =
      if drive.lba48
      then some (e_not_implemented, s)
      else elim (write_chunks outw fuel (sectors / 256) 0 buffer drive start m s) [
        | none ↦ none
        | some s1 ↦
            elim (ata28_write outw fuel (buffer + sectors / 256 * 65536) drive (sectors % 256)
              (u32 (start + sectors / 256 * 65536 / 512)) m s1) [
                | none ↦ none
                | some (result, s2) ↦ some (0, s2)
              ]
      ]
