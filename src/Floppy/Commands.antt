-- ===== src/Floppy/Commands.antt =====
-- The start of the floppy controller and the reading of a cylinder: `init_floppy`, `floppy_mot_on` and
-- `floppy_read` of kernel/drivers/floppy.c.
use l_ost.Common.{
  ℕ, zero, suc, ◌+◌, ◌-◌, ◌*◌, ◌/◌, ◌%◌, ◌^◌, Bool, true, false, Option, none, some, List, [], ◌∷◌,
  ◌++◌, ◌==◌, if◌then◌else◌, u8,
}
use l_ost.Common.{◌>>=◌, codes}
use l_ost.Serial.Console.{numeral}
use l_ost.Interrupts.{Interrupts, irq_install_handler, pic_remask}
use l_ost.Timer.{wait_secs}
use l_ost.Floppy.{lba_to_chs}
use l_ost.Floppy.Dma.{init_floppy_dma}
use l_ost.Floppy.Driver.{
  Fdc, digital_output, msr, data_fifo, config_control, is_ready, is_going, Call, reset_controller,
  ready_loop, recal_fdc, port_read, port_write, say, control, wait_request,
}

-- The eight bytes behind the command of `floppy_read`, for a drive below 4.
unfoldable pub command_seq : (lba drive : ℕ) → List ℕ
unfolding lba_to_chs
command_seq lba drive =
    let (cyl, (head, sector)) = lba_to_chs lba in
    u8 (head * 4 + drive) ∷ u8 cyl ∷ u8 (head * 4 + drive) ∷ u8 sector ∷ 2 ∷ 18 ∷ 0x1b ∷ 0xff ∷ []

-- `master_pic_mask.data.floppy = 0`.
abbrev pub unmask_floppy : Interrupts → Interrupts
unmask_floppy s = record s {
  master_pic_mask =
      if s.master_pic_mask / 64 % 2 == 1 then s.master_pic_mask - 64 else s.master_pic_mask;
}

module _ (call : ℕ → ℕ → ℕ) {D : Type 0} (inb : (port : ℕ) → D → ℕ × D)
    (outb : (port value : ℕ) → D → D) (turn : D → D) (fires : D → Bool) (elapsed : D → ℕ) where
  abbrev put : (port value : ℕ) → Fdc D → Fdc D
  put = port_write call inb outb turn fires elapsed

  abbrev get : (port : ℕ) → Fdc D → ℕ × Fdc D
  get = port_read call inb outb turn fires elapsed

  abbrev run : (fuel : ℕ) → Call → Fdc D → Option (Fdc D)
  run = control call inb outb turn fires elapsed

  abbrev asked : (fuel : ℕ) → Fdc D → Option (Fdc D)
  asked = wait_request call inb outb turn fires elapsed

  -- A list of writes, in its order.
  unfoldable pub put_all : List (ℕ × ℕ) → Fdc D → Fdc D
  put_all [] s = s
  put_all ((port, value) ∷ rest) s = put_all rest (put port value s)

  -- The loop around SPECIFY, which is sent behind a reset only.
  unfoldable pub wait_specify : (fuel : ℕ) → Fdc D → Option (Fdc D)
  wait_specify zero s = none
  wait_specify (suc fuel) s = elim (is_ready (get msr s).0) [
    | true ↦ some (get msr s).1
    | false ↦ elim (run fuel reset_controller (get msr s).1) [
      | none ↦ none
      | some s1 ↦ wait_specify fuel (put data_fifo 3 s1)
    ]
  ]

  -- Up to the version of the controller.
  unfoldable pub read_version : (fuel handler : ℕ) → Fdc D → Option (ℕ × Fdc D)
  read_version fuel handler s = do
    let installed = (irq_install_handler handler 6 s.interrupts).1
    let open_line = unmask_floppy installed
    s1 ← run fuel ready_loop (record s { interrupts = pic_remask open_line })
    s2 ← asked fuel (put digital_output 0x3c (put config_control 0 s1))
    s3 ← asked fuel (put data_fifo 16 s2)
    some (get data_fifo s3)

  -- The commands CONFIG and SPECIFY with their bytes.
  unfoldable pub configure : (fuel : ℕ) → Fdc D → Option (Fdc D)
  configure fuel s = do
    s1 ← run fuel ready_loop s
    s2 ← asked fuel (put data_fifo 19 s1)
    s3 ← asked fuel (put data_fifo 0 s2)
    s4 ← asked fuel (put data_fifo 0x48 s3)
    s5 ← wait_specify fuel (put data_fifo 0 s4)
    some (put data_fifo 10 (put data_fifo 0x80 s5))

  -- From the recalibration on.
  unfoldable pub calibrate : (fuel : ℕ) → Fdc D → Option (Fdc D)
  calibrate fuel s = do
    s1 ← run fuel ready_loop s
    s2 ← run fuel recal_fdc s1
    s3 ← run fuel reset_controller (record (put data_fifo 0x94 s2) { locked_cal = true })
    let (ptr, (memory, writes)) = init_floppy_dma s3.memory
    let s4 = put_all writes (record s3 { memory = memory })
    let dor = get digital_output (record s4 { dma_data_ptr = ptr })
    let s5 = put digital_output (dor.0 - dor.0 % 4) dor.1
    some (
        say call inb outb turn fires elapsed
          (codes "DMA PTR: 0x" ++ numeral ptr 16 s5.serial.padding ++ codes "!" ++ 10 ∷ []) s5)

  -- `init_floppy`, which returns 0 in both cases; `handler` is `floppy_irq_handler`.
  unfoldable pub init_floppy : (fuel handler : ℕ) → Fdc D → Option (Fdc D)
  init_floppy fuel handler s = do
    (version, s1) ← read_version fuel handler s
    elim (version == 0x90) [
      | false ↦ some (say call inb outb turn fires elapsed (9 ∷ codes "Aborting!" ++ 10 ∷ []) s1)
      | true ↦ configure fuel s1 >>= calibrate fuel
    ]

  -- `floppy_mot_on`.
  unfoldable pub floppy_mot_on : (drive : ℕ) → Fdc D → Fdc D
  floppy_mot_on drive s =
      let dor = get digital_output s in put digital_output (dor.0 % 16 + 2 ^ (4 + drive % 4)) dor.1

  -- The wait in front of a byte of the command: whether the controller took it in three seconds.
  unfoldable pub wait_byte : (fuel : ℕ) → Fdc D → Option (Bool × Fdc D)
  wait_byte zero s = none
  wait_byte (suc fuel) s = elim (is_ready (get msr s).0) [
    | true ↦ some (true, (get msr s).1)
    | false ↦
        let (over, clock) = wait_secs 0 (get msr s).1.clock in
        elim over [
          | true ↦ some (false, record (get msr s).1 { clock = clock })
          | false ↦ wait_byte fuel (record (get msr s).1 { clock = clock })
        ]
  ]

  -- The loop over the bytes of the command: whether they were all taken.
  unfoldable pub send_bytes : (fuel : ℕ) → List ℕ → Fdc D → Option (Bool × Fdc D)
  send_bytes fuel [] s = some (true, s)
  send_bytes fuel (b ∷ bs) s = do
    (taken, s1) ← wait_byte fuel (record s { clock = (wait_secs 3 s.clock).1 })
    elim taken [ true ↦ send_bytes fuel bs (put data_fifo b s1) | false ↦ some (false, s1) ]

  -- `while(inb(MSR) & 0x90) kprintf("%x ", inb(DATA_FIFO));`.
  unfoldable pub print_results : (fuel : ℕ) → Fdc D → Option (Fdc D)
  print_results zero s = none
  print_results (suc fuel) s = elim (is_going (get msr s).0) [
    | false ↦ some (get msr s).1
    | true ↦
        let (v, s1) = get data_fifo (get msr s).1 in
        print_results fuel
          (say call inb outb turn fires elapsed (numeral v 16 s1.serial.padding ++ 32 ∷ []) s1)
  ]

  -- `floppy_read` up to its command, on a drive below 4.
  unfoldable pub select_drive : (fuel drive : ℕ) → Fdc D → Option (Fdc D)
  select_drive fuel drive s = do
    let dor = get digital_output (record s { irq_hit = false })
    let s1 = put config_control 0 (put digital_output (dor.0 / 4 % 4 * 4 + drive % 4) dor.1)
    s2 ← run fuel ready_loop (floppy_mot_on drive s1)
    some (put data_fifo 0xc6 s2)

  -- `floppy_read`: the pointer, or the null pointer where a byte is not taken.
  unfoldable pub floppy_read : (fuel lba drive : ℕ) → Fdc D → Option (ℕ × Fdc D)
  floppy_read fuel lba drive s = do
    s1 ← select_drive fuel drive s
    (taken, s2) ← send_bytes fuel (command_seq lba drive) s1
    elim taken [
      | false ↦ run fuel reset_controller s2 >>= (λ s3. some (0, s3))
      | true ↦ print_results fuel s2 >>= (λ s3. some (s3.dma_data_ptr, s3))
    ]
