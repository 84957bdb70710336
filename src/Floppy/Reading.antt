-- ===== src/Floppy/Reading.antt =====
-- What `floppy_read` of kernel/drivers/floppy.c sends to a controller that is always ready.
use l_ost.Common.{
  ℕ, zero, suc, ◌+◌, ◌*◌, ◌/◌, ◌%◌, ◌^◌, ◌≤◌, ◌<◌, ◌≡◌, ◌≢◌, refl, sym, ap, ◌∙◌, Bool, true, false,
  none, some, List, [], ◌∷◌, ◌++◌, arith, u8,
}
use mathlib.Core.List.{append_assoc, append-nil}
use l_ost.Timer.{wait_secs}
use l_ost.Floppy.{lba_to_chs}
use l_ost.Floppy.Driver.{
  Fdc, digital_output, msr, data_fifo, config_control, is_ready, is_going, ready_loop, port_read,
  port_write, arrive, control,
}
use l_ost.Floppy.Commands.{
  command_seq, floppy_mot_on, wait_byte, send_bytes, print_results, select_drive, floppy_read,
}

-- A controller that always takes a byte. `fifo` is what was written to its data register.
pub record Ready {D : Type 0} (inb : (port : ℕ) → D → ℕ × D) (outb : (port value : ℕ) → D → D)
    (fifo : D → List ℕ) : Type 0 where
  pub always : (d : D) → is_ready (inb msr d).0 ≡ true
  pub reading : (port : ℕ) (d : D) → fifo (inb port d).1 ≡ fifo d
  pub data_write : (value : ℕ) (d : D) → fifo (outb data_fifo value d) ≡ fifo d ++ value ∷ []
  pub other_write : (port value : ℕ) (d : D) → port ≢ data_fifo → fifo (outb port value d) ≡ fifo d

-- The bytes as they are written.
unfoldable pub bytes : List ℕ → List ℕ
bytes [] = []
bytes (b ∷ bs) = u8 b ∷ bytes bs

module _ (call : ℕ → ℕ → ℕ) {D : Type 0} (inb : (port : ℕ) → D → ℕ × D)
    (outb : (port value : ℕ) → D → D) (turn : D → D) (fires : D → Bool) (elapsed : D → ℕ)
    (fifo : D → List ℕ) (r : Ready inb outb fifo) where
  abbrev put : (port value : ℕ) → Fdc D → Fdc D
  put = port_write call inb outb turn fires elapsed

  abbrev get : (port : ℕ) → Fdc D → ℕ × Fdc D
  get = port_read call inb outb turn fires elapsed

  pub get-fifo : (port : ℕ) (s : Fdc D) → fifo (get port s).1.device ≡ fifo s.device
  unfolding port_read arrive
  get-fifo port s = r.reading port s.device

  pub get-ready : (s : Fdc D) → is_ready (get msr s).0 ≡ true
  unfolding port_read
  get-ready s = r.always s.device

  pub put-data :
      (value : ℕ) (s : Fdc D) → fifo (put data_fifo value s).device ≡ fifo s.device ++ u8 value ∷ []
  unfolding port_write arrive
  put-data value s = r.data_write (u8 value) s.device

  pub put-other :
      (port value : ℕ) (s : Fdc D)
      → port ≢ data_fifo
      → fifo (put port value s).device ≡ fifo s.device
  unfolding port_write arrive
  put-other port value s other = r.other_write port (u8 value) s.device other

  pub ready_loop-at_once :
      (fuel : ℕ) (s : Fdc D)
      → control call inb outb turn fires elapsed (suc fuel) ready_loop s ≡ some (get msr s).1
  unfolding control
  ready_loop-at_once fuel s = let ready = get-ready s in rw (control, ready) refl

  wait_byte-at_once :
      (fuel : ℕ) (s : Fdc D)
      → wait_byte call inb outb turn fires elapsed (suc fuel) s ≡ some (true, (get msr s).1)
  unfolding wait_byte
  wait_byte-at_once fuel s = let ready = get-ready s in rw (wait_byte, ready) refl

  send_bytes-all :
      (fuel : ℕ) (bs : List ℕ) (s : Fdc D)
      → (s' : Fdc D) × (send_bytes call inb outb turn fires elapsed (suc fuel) bs s
          ≡ some (true, s'))
        × (fifo s'.device ≡ fifo s.device ++ bytes bs)
  unfolding send_bytes bytes
  send_bytes-all fuel [] s = (s, refl, sym (append-nil (fifo s.device)))
  send_bytes-all fuel (b ∷ bs) s =
      let s0 : Fdc D = record s { clock = (wait_secs 3 s.clock).1 } in
      let taken = wait_byte-at_once fuel s0 in
      let s1 = put data_fifo b (get msr s0).1 in
      let (s', run, sent) = send_bytes-all fuel bs s1 in
      let one = put-data b (get msr s0).1 ∙ ap (λ l. l ++ u8 b ∷ []) (get-fifo msr s0) in
      (
        s',
        rw (send_bytes, taken) run,
        sent ∙ ap (λ l. l ++ bytes bs) one ∙ append_assoc (fifo s.device) (u8 b ∷ []) (bytes bs),
      )

  -- While the controller is ready, the last loop goes on.
  print_results-never :
      (fuel : ℕ) (s : Fdc D) → print_results call inb outb turn fires elapsed fuel s ≡ none
  unfolding print_results
  print_results-never zero s = refl
  print_results-never (suc fuel) s =
      let ready = get-ready s in
      let going : is_going (get msr s).0 ≡ true = ground (arith, ready) in
      rw (print_results, going) (print_results-never fuel _)

  select_drive-command :
      (fuel drive : ℕ) (s : Fdc D)
      → (s' : Fdc D) × (select_drive call inb outb turn fires elapsed (suc fuel) drive s ≡ some s')
        × (fifo s'.device ≡ fifo s.device ++ 0xc6 ∷ [])
  unfolding select_drive floppy_mot_on
  select_drive-command fuel drive s =
      let s0 : Fdc D = record s { irq_hit = false } in
      let dor = get digital_output s0 in
      let s1 = put digital_output (dor.0 / 4 % 4 * 4 + drive % 4) dor.1 in
      let s2 = put config_control 0 s1 in
      let dor2 = get digital_output s2 in
      let s3 = put digital_output (dor2.0 % 16 + 2 ^ (4 + drive % 4)) dor2.1 in
      let s4 = (get msr s3).1 in
      let kept =
        get-fifo msr s3
        ∙ put-other digital_output (dor2.0 % 16 + 2 ^ (4 + drive % 4)) dor2.1
            (λ e. omega (arith, e))
        ∙ get-fifo digital_output s2
        ∙ put-other config_control 0 s1 (λ e. omega (arith, e))
        ∙ put-other digital_output (dor.0 / 4 % 4 * 4 + drive % 4) dor.1 (λ e. omega (arith, e))
        ∙ get-fifo digital_output s0 in
      (
        put data_fifo 0xc6 s4,
        let ready = ready_loop-at_once fuel s3 in rw (select_drive, floppy_mot_on, ready) refl,
        put-data 0xc6 s4 ∙ ap (λ l. l ++ 0xc6 ∷ []) kept,
      )

  -- For a sector below 2880, a drive below 4 and a controller that is always ready and fires no interrupt,
  -- floppy_read sends the command 0xc6 and then, byte for byte, head and drive, the cylinder, head and
  -- drive again, the sector, and 2, 18, 0x1b, 0xff, where cylinder, head and sector are the place of that
  -- sector on a disk of 80 cylinders, 2 heads and 18 sectors. Its last loop waits for a controller that
  -- is not ready, and so it does not come back with any fuel above 0.
  pub floppy_read-command :
      (fuel lba drive : ℕ) (s : Fdc D)
      → lba < 2880
      → drive < 4
      → ((d : D) → fires d ≡ false)
      → (cyl : ℕ) × (head : ℕ) × (sector : ℕ) × (s1 : Fdc D) × (s2 : Fdc D) × ((cyl * 2 + head) * 18
            + sector
          ≡ lba + 1)
        × (cyl < 80)
        × (head < 2)
        × (1 ≤ sector)
        × (sector ≤ 18)
        × (select_drive call inb outb turn fires elapsed (suc fuel) drive s ≡ some s1)
        × (send_bytes call inb outb turn fires elapsed (suc fuel) (command_seq lba drive) s1
            ≡ some (true, s2))
        × (fifo s2.device
            ≡ fifo s.device
              ++ 0xc6
                ∷ (head * 4 + drive)
                ∷ cyl
                ∷ (head * 4 + drive)
                ∷ sector
                ∷ 2
                ∷ 18
                ∷ 0x1b
                ∷ 0xff
                ∷ [])
        × (floppy_read call inb outb turn fires elapsed (suc fuel) lba drive s ≡ none)
  unfolding floppy_read bytes command_seq lba_to_chs
  floppy_read-command fuel lba drive s hi few unfired =
      let (s1, run1, sent1) = select_drive-command fuel drive s in
      let (s2, run2, sent2) = send_bytes-all fuel (command_seq lba drive) s1 in
      let head = lba % 36 / 18 in
      let sector = lba % 36 % 18 + 1 in
      let place : (u8 (u8 (head * 4 + drive)) ≡ head * 4 + drive)
          × (u8 (u8 (lba / 36)) ≡ lba / 36)
          × (u8 (u8 sector) ≡ sector) =
        (omega (arith, few), omega (arith, hi), omega arith) in
      let never = print_results-never (suc fuel) s2 in
      (
        lba / 36,
        head,
        sector,
        s1,
        s2,
        omega arith,
        omega arith,
        omega arith,
        omega arith,
        omega arith,
        run1,
        run2,
        sent2
            ∙ ap (λ l. l ++ bytes (command_seq lba drive)) sent1
            ∙ append_assoc (fifo s.device) (0xc6 ∷ []) (bytes (command_seq lba drive))
            ∙ rw (place.0, place.1, place.2) refl,
        rw (floppy_read, run1, run2, never) refl,
      )
