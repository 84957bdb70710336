-- ===== src/Ata/Identify.antt =====
-- The identification of drives in kernel/drivers/ata.c. The registration of a drive, of
-- kernel/drivers/storage.c, is an argument, which acts on the pages and on a state `T` of the rest of
-- the kernel. The words that a drive sends to a fresh page are a function here.
use l_ost.Common.{
  ℕ, zero, suc, ◌+◌, ◌*◌, ◌/◌, ◌%◌, ◌^◌, ◌≡◌, refl, ◌⊎◌, inl, inr, Bool, true, false, ◌||◌, not,
  Option, none, some, ◌==◌, if◌then◌else◌,
}
use l_ost.Timer.{wait_secs}
use l_ost.Timer.Waits.{after}
use l_ost.Memory.{Memory, kmalloc, kfree}
use l_ost.Storage.{Drive, drive_pata28, de_invalid_drive, e_not_implemented}
use l_ost.Ata.{AtaDrive, Machine, Words, has, e_timeout, read_byte, write_byte, read_words}

abbrev pub e_unknown : ℕ
e_unknown = 6

-- `ata_drive32_t`.
pub record AtaDrive32 : Type 0 where
  pub drive_s : Drive
  pub ata : AtaDrive
  pub command_port : ℕ

-- `IS_LBA48(a)`.
abbrev pub is_lba48 : Words → Bool
is_lba48 a = a 83 / 2 ^ 10 % 2 == 1

-- The fields that the words of a drive give: `GET_SZ28`, or `GET_SZ48L` and `GET_SZ48H`.
unfoldable pub identified : Words → Drive → Drive
identified a d = record d {
  removable = false;
  bytes_per_sector = 512;
  size_high = if is_lba48 a then a 102 + 2 ^ 16 * a 103 else d.size_high;
  size_low = if is_lba48 a then a 100 + 2 ^ 16 * a 101 else a 60 + 2 ^ 16 * a 61;
  drive_type = drive_pata28;
}

-- The byte of the head register, with its lowest bit for a slave.
abbrev pub mask_slave : (head : ℕ) → AtaDrive32 → ℕ
mask_slave head unit = head + (if unit.ata.slave then 1 else 0)

module _ {D : Type 0} (inb : (port : ℕ) → D → ℕ × D) (inw : (port : ℕ) → D → ℕ × D)
    (outb : (port value : ℕ) → D → D) (elapsed : D → ℕ) where
  -- The first loop of `poll_drive_i`: whether the drive has become ready before the time is over.
  unfoldable pub poll_busy : (fuel p : ℕ) → Machine D → Option (Bool × Machine D)
  poll_busy zero p s = none
  poll_busy (suc fuel) p s =
      let read = read_byte inb inw outb elapsed (p + 7) s in
      let rest = poll_busy fuel p read.1 in
      if has read.0 0x80
      then (if (wait_secs 0 read.1.clock).0 then some (false, read.1) else rest)
      else some (true, read.1)

  -- The last loop of `poll_drive_i`, which reads no port; the interrupts of a round are those of an
  -- access. The result is the error, or 0.
  unfoldable pub poll_status :
      (fuel status : ℕ) (timeout : Bool) → Machine D → Option (ℕ × Machine D)
  poll_status zero status timeout s = none
  poll_status (suc fuel) status timeout s =
      let s' : Machine D = record s { clock = after (elapsed s.device) s.clock } in
      let rest = poll_status fuel status (wait_secs 0 s'.clock).0 s' in
      if has status 8 || has status 1
      then some ((if has status 1 then e_unknown else 0), s)
      else if timeout
      then some (e_timeout, s)
      else rest

  -- `poll_drive_i` behind its first loop.
  unfoldable pub poll_signature : (fuel p : ℕ) → Machine D → Option (ℕ × Machine D)
  poll_signature fuel p s =
      let high = read_byte inb inw outb elapsed (p + 5) s in
      let mid = read_byte inb inw outb elapsed (p + 4) high.1 in
      let status = read_byte inb inw outb elapsed (p + 7) mid.1 in
      let wait = wait_secs 5 status.1.clock in
      if not (high.0 == 0)
      then some (e_not_implemented, high.1)
      else if not (mid.0 == 0)
      then some (e_not_implemented, mid.1)
      else poll_status fuel status.0 wait.0 (record status.1 { clock = wait.1 })

  unfoldable pub poll_drive_i : (fuel p : ℕ) → Machine D → Option (ℕ × Machine D)
  poll_drive_i fuel p s = elim (poll_busy fuel p (record s { clock = (wait_secs 5 s.clock).1 })) [
    | none ↦ none
    | some (ready, s1) ↦ if ready then poll_signature fuel p s1 else some (e_timeout, s1)
  ]

  -- The command of `ata_identify`, with `head` for the drive that it is about.
  unfoldable pub identify_command : (head p : ℕ) → Machine D → Machine D
  identify_command head p s =
      let w = write_byte inb inw outb elapsed in
      w (p + 7) 0xec (w (p + 5) 0 (w (p + 4) 0 (w (p + 3) 0 (w (p + 2) 0 (w (p + 6) head s)))))

  module _ {T : Type 0} (register_drive : AtaDrive32 → Memory × T → Memory × T) where
    -- A drive's words, and its registration.
    unfoldable pub register_unit : AtaDrive32 → Memory × T → Machine D → (Memory × T) × Machine D
    register_unit unit w s =
        let read = read_words inb inw outb elapsed 256 0 unit.ata (λ i. 0) s in
        (register_drive (record unit { drive_s = identified read.0 unit.drive_s }) w, read.1)

    -- The second half of `ata_identify`, about the slave; `raw` is what its fresh page holds.
    unfoldable pub identify_slave :
        AtaDrive32 → AtaDrive32 → Memory × T → Machine D → (Memory × T) × Machine D
    identify_slave master raw w s =
        let head = mask_slave 0xb0 master in
        let status =
          read_byte inb inw outb elapsed (master.ata.base_port + 7)
            (identify_command head master.ata.base_port s) in
        let slave : AtaDrive32 = record raw {
          ata = record raw.ata { base_port = master.ata.base_port; slave = true };
          command_port = master.command_port;
        } in
        let pages = (kmalloc 1 7 (kmalloc 1 7 w.0).1).1 in
        if status.0 == 0 then (w, status.1) else register_unit slave (pages, w.1) status.1

    unfoldable pub ata_identify :
        (fuel : ℕ)
        → AtaDrive32
        → AtaDrive32
        → Memory × T
        → Machine D
        → Option (ℕ × ((Memory × T) × Machine D))
    ata_identify fuel drive raw w s =
        let p = drive.ata.base_port in
        let status =
          read_byte inb inw outb elapsed (p + 7) (identify_command (mask_slave 0xa0 drive) p s) in
        if status.0 == 0
        then some (de_invalid_drive, (w, status.1))
        else elim (poll_drive_i fuel p status.1) [
          | none ↦ none
          | some (poll_res, s1) ↦
              if not (poll_res == 0)
              then some (poll_res, (w, s1))
              else (let (buffer, pages) = kmalloc 1 7 w.0 in
                  let (w1, s2) = register_unit drive (pages, w.1) s1 in
                  elim (kfree buffer w1.0) [
                    | none ↦ none
                    | some freed ↦ some (0, identify_slave drive raw (freed, w1.1) s2)
                  ])
        ]

    -- `ata_identify_all`, on the fresh page that holds `raw_master`.
    unfoldable pub ata_identify_all :
        (fuel : ℕ)
        → AtaDrive32
        → AtaDrive32
        → Memory × T
        → Machine D
        → Option (ℕ × ((Memory × T) × Machine D))
    ata_identify_all fuel raw_master raw w s =
        ata_identify fuel
          (record raw_master {
            ata = record raw_master.ata { base_port = 0x1f0 };
            command_port = 0x3f6;
          })
          raw ((kmalloc 1 7 w.0).1, w.1) s

  -- Where the status that was read once has neither its bit for data nor that for an error, the last
  -- wait of `poll_drive_i` never succeeds: within any number of rounds it is not over, or it ends with
  -- the error for a timeout, since it does not read the status again.
  pub poll_status-never :
      (fuel status : ℕ) (timeout : Bool) (s : Machine D)
      → has status 8 ≡ false
      → has status 1 ≡ false
      → (poll_status fuel status timeout s ≡ none)
        ⊎ ((s' : Machine D) × (poll_status fuel status timeout s ≡ some (e_timeout, s')))
  unfolding poll_status
  poll_status-never zero status timeout s drq err = inl refl
  poll_status-never (suc fuel) status false s drq err =
      let s' : Machine D = record s { clock = after (elapsed s.device) s.clock } in
      rw (poll_status, drq, err) (poll_status-never fuel status (wait_secs 0 s'.clock).0 s' drq err)
  poll_status-never (suc fuel) status true s drq err = inr (s, rw (poll_status, drq, err) refl)
