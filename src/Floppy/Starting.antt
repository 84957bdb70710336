-- ===== src/Floppy/Starting.antt =====
-- What `init_floppy` of kernel/drivers/floppy.c sends to a controller that is always ready.
use l_ost.Common.{
  ℕ, suc, ◌+◌, ◌-◌, ◌%◌, ◌≤◌, ◌<◌, ◌≡◌, ◌≢◌, refl, sym, ap, ◌∙◌, inl, inr, Bool, true, false,
  Option, some, List, [], ◌∷◌, ◌++◌, arith, Bool-cases, u8,
}
use mathlib.Core.List.{append_assoc, append-nil}
use l_ost.Floppy.Dma.{init_floppy_dma, channel_writes}
use l_ost.Floppy.Driver.{
  Fdc, digital_output, msr, data_fifo, config_control, is_request, Call, reset_controller,
  recal_drive, recal_fdc, port_read, port_write, say, arrive, then_write, pulse, wait_irq, control,
  wait_request,
}
use l_ost.Common.{codes}
use l_ost.Serial.Console.{numeral}
use l_ost.Interrupts.{irq_install_handler, pic_remask}
use l_ost.Floppy.Commands.{
  unmask_floppy, put_all, wait_specify, read_version, configure, calibrate, init_floppy,
}
use l_ost.Floppy.Reading.{Ready, get-fifo, get-ready, put-data, put-other, ready_loop-at_once}

module _ (call : ℕ → ℕ → ℕ) {D : Type 0} (inb : (port : ℕ) → D → ℕ × D)
    (outb : (port value : ℕ) → D → D) (turn : D → D) (fires : D → Bool) (elapsed : D → ℕ)
    (fifo : D → List ℕ) (r : Ready inb outb fifo) where
  abbrev put : (port value : ℕ) → Fdc D → Fdc D
  put = port_write call inb outb turn fires elapsed

  abbrev get : (port : ℕ) → Fdc D → ℕ × Fdc D
  get = port_read call inb outb turn fires elapsed

  abbrev run : (fuel : ℕ) → Call → Fdc D → Option (Fdc D)
  run = control call inb outb turn fires elapsed

  -- A stretch of the driver that sends these bytes and keeps the driver's other variables.
  record Sends (bs : List ℕ) (s s' : Fdc D) : Type 0 where
    sent : fifo s'.device ≡ fifo s.device ++ bs
    memory : s'.memory ≡ s.memory
    locked : s'.locked_cal ≡ s.locked_cal

  Sends-append :
      (bs cs : List ℕ) (s s' s'' : Fdc D) → Sends bs s s' → Sends cs s' s'' → Sends (bs ++ cs) s s''
  Sends-append bs cs s s' s'' a b = record {
    sent = b.sent ∙ ap (λ l. l ++ cs) a.sent ∙ append_assoc (fifo s.device) bs cs;
    memory = b.memory ∙ a.memory;
    locked = b.locked ∙ a.locked;
  }

  Sends-get : (bs : List ℕ) (port : ℕ) (s0 s : Fdc D) → Sends bs s0 s → Sends bs s0 (get port s).1
  unfolding port_read arrive
  Sends-get bs port s0 s h = record {
    sent = get-fifo call inb outb turn fires elapsed fifo r port s ∙ h.sent;
    memory = h.memory;
    locked = h.locked;
  }

  Sends-other :
      (bs : List ℕ) (port value : ℕ) (s0 s : Fdc D)
      → port ≢ data_fifo
      → Sends bs s0 s
      → Sends bs s0 (put port value s)
  unfolding port_write arrive
  Sends-other bs port value s0 s other h = record {
    sent = put-other call inb outb turn fires elapsed fifo r port value s other ∙ h.sent;
    memory = h.memory;
    locked = h.locked;
  }

  Sends-data :
      (bs : List ℕ) (value : ℕ) (s0 s : Fdc D)
      → value < 256
      → Sends bs s0 s
      → Sends (bs ++ value ∷ []) s0 (put data_fifo value s)
  unfolding port_write arrive
  Sends-data bs value s0 s byte h =
      let same : u8 value ≡ value = omega (arith, byte) in
      record {
        sent =
            put-data call inb outb turn fires elapsed fifo r value s
            ∙ ap (λ l. l ++ u8 value ∷ []) h.sent
            ∙ append_assoc (fifo s0.device) bs (u8 value ∷ [])
            ∙ ap (λ v. fifo s0.device ++ (bs ++ v ∷ [])) same;
        memory = h.memory;
        locked = h.locked;
      }

  -- A byte, and the next look at the status.
  Sends-byte :
      (bs : List ℕ) (value : ℕ) (s0 s : Fdc D)
      → value < 256
      → Sends bs s0 s
      → Sends (bs ++ value ∷ []) s0 (get msr (put data_fifo value s)).1
  Sends-byte bs value s0 s byte h =
      Sends-get (bs ++ value ∷ []) msr s0 (put data_fifo value s) (Sends-data bs value s0 s byte h)

  Sends-none : (s : Fdc D) → Sends [] s s
  Sends-none s = record { sent = sym (append-nil (fifo s.device)); memory = refl; locked = refl }

  asked-at_once :
      (fuel : ℕ) (s : Fdc D)
      → wait_request call inb outb turn fires elapsed (suc fuel) s ≡ some (get msr s).1
  unfolding wait_request
  asked-at_once fuel s =
      let ready = get-ready call inb outb turn fires elapsed fifo r s in
      let request : is_request (get msr s).0 ≡ true = ground (arith, ready) in
      rw (wait_request, request) refl

  wait_specify-at_once :
      (fuel : ℕ) (s : Fdc D)
      → wait_specify call inb outb turn fires elapsed (suc fuel) s ≡ some (get msr s).1
  unfolding wait_specify
  wait_specify-at_once fuel s =
      let ready = get-ready call inb outb turn fires elapsed fifo r s in
      rw (wait_specify, ready) refl

  -- CONFIG with its bytes, and the bytes of SPECIFY without that command.
  configure-Sends :
      (fuel : ℕ) (s : Fdc D)
      → (s' : Fdc D) × (configure call inb outb turn fires elapsed (suc fuel) s ≡ some s')
        × Sends (19 ∷ 0 ∷ 0x48 ∷ 0 ∷ 0x80 ∷ 10 ∷ []) s s'
  unfolding configure
  configure-Sends fuel s =
      let first = ready_loop-at_once call inb outb turn fires elapsed fifo r fuel s in
      let s1 = (get msr s).1 in
      let t1 = put data_fifo 19 s1 in
      let s2 = (get msr t1).1 in
      let t2 = put data_fifo 0 s2 in
      let s3 = (get msr t2).1 in
      let t3 = put data_fifo 0x48 s3 in
      let s4 = (get msr t3).1 in
      let t4 = put data_fifo 0 s4 in
      let s5 = (get msr t4).1 in
      let t5 = put data_fifo 0x80 s5 in
      let run1 = asked-at_once fuel t1 in
      let run2 = asked-at_once fuel t2 in
      let run3 = asked-at_once fuel t3 in
      let run4 = wait_specify-at_once fuel t4 in
      let h1 = Sends-get [] msr s s (Sends-none s) in
      let h2 = Sends-byte [] 19 s s1 (omega arith) h1 in
      let h3 = Sends-byte (19 ∷ []) 0 s s2 (omega arith) h2 in
      let h4 = Sends-byte (19 ∷ 0 ∷ []) 0x48 s s3 (omega arith) h3 in
      let h5 = Sends-byte (19 ∷ 0 ∷ 0x48 ∷ []) 0 s s4 (omega arith) h4 in
      let h6 =
        Sends-data (19 ∷ 0 ∷ 0x48 ∷ 0 ∷ 0x80 ∷ []) 10 s t5 (omega arith)
          (Sends-data (19 ∷ 0 ∷ 0x48 ∷ 0 ∷ []) 0x80 s s5 (omega arith) h5) in
      (put data_fifo 10 t5, rw (configure, first, run1, run2, run3, run4) refl, h6)

  -- A round of the recalibration, which sends the byte 7 twice.
  recal_drive-Sends :
      (fuel i : ℕ) (s : Fdc D)
      → (s' : Fdc D) × (run (suc (suc fuel)) (recal_drive i) s ≡ some s') × Sends (7 ∷ 7 ∷ []) s s'
  unfolding control then_write
  recal_drive-Sends fuel i s =
      let dor = get digital_output s in
      let s1 = put digital_output (dor.0 - dor.0 % 4 + i) dor.1 in
      let run1 = ready_loop-at_once call inb outb turn fires elapsed fifo r fuel s1 in
      let s2 = (get msr s1).1 in
      let s3 = put data_fifo 7 s2 in
      let run2 = ready_loop-at_once call inb outb turn fires elapsed fifo r fuel s3 in
      let s4 = (get msr s3).1 in
      let h1 = Sends-get [] digital_output s s (Sends-none s) in
      let h2 =
        Sends-other [] digital_output (dor.0 - dor.0 % 4 + i) s dor.1 (λ e. omega (arith, e)) h1 in
      let h4 = Sends-byte [] 7 s s2 (omega arith) (Sends-get [] msr s s1 h2) in
      (
        put data_fifo 7 s4,
        rw (run1, control, run2) refl,
        Sends-data (7 ∷ []) 7 s s4 (omega arith) h4,
      )

  recal_fdc-Sends :
      (fuel : ℕ) (s : Fdc D)
      → (s' : Fdc D) × (run (suc (suc (suc fuel))) recal_fdc s ≡ some s')
        × Sends (7 ∷ 7 ∷ 7 ∷ 7 ∷ []) s s'
  unfolding control
  recal_fdc-Sends fuel s =
      let (s1, run1, h1) = recal_drive-Sends fuel 0 s in
      let (s2, run2, h2) = recal_drive-Sends fuel 1 s1 in
      (s2, rw (run1, control, run2) refl, Sends-append (7 ∷ 7 ∷ []) (7 ∷ 7 ∷ []) s s1 s2 h1 h2)

  module _ (idle : (d : D) → fifo (turn d) ≡ fifo d)
      (answers : (d : D) → fires (turn d) ≡ true) where
    wait_irq-Sends :
        (fuel : ℕ) (s : Fdc D)
        → (s' : Fdc D) × (wait_irq call inb outb turn fires elapsed (suc (suc fuel)) s ≡ some s')
          × Sends [] s s'
    unfolding wait_irq arrive
    wait_irq-Sends fuel s = elim (Bool-cases s.irq_hit) [
      | inl hit ↦ (s, rw (wait_irq, hit) refl, Sends-none s)
      | inr waits ↦
          let s1 = arrive call inb outb turn fires elapsed (turn s.device) s in
          (
            s1,
            rw (wait_irq, waits, answers s.device) refl,
            record {
              sent = idle s.device ∙ sym (append-nil (fifo s.device));
              memory = refl;
              locked = refl;
            },
          )
    ]

    -- `reset_controller` behind the lock.
    reset-Sends :
        (fuel : ℕ) (s : Fdc D)
        → s.locked_cal ≡ true
        → (s' : Fdc D) × (run (suc (suc (suc fuel))) reset_controller s ≡ some s') × Sends [] s s'
    unfolding control pulse
    reset-Sends fuel s locked =
        let s0 : Fdc D = record s { irq_hit = false } in
        let h0 : Sends [] s s0 = record {
          sent = sym (append-nil (fifo s.device));
          memory = refl;
          locked = refl;
        } in
        let d = get digital_output s0 in
        let s1 = put digital_output 0 d.1 in
        let s2 = put digital_output 0x0c s1 in
        let h1 =
          Sends-other [] digital_output 0 s d.1 (λ e. omega (arith, e))
            (Sends-get [] digital_output s s0 h0) in
        let h2 = Sends-other [] digital_output 0x0c s s1 (λ e. omega (arith, e)) h1 in
        let (s3, run3, h3) = wait_irq-Sends fuel s2 in
        let h = Sends-append [] [] s s2 s3 h2 h3 in
        let stays : s3.locked_cal ≡ true = h.locked ∙ locked in
        (s3, rw (control, pulse, run3, stays) refl, h)

    -- Writes that all go to other ports.
    NoData : List (ℕ × ℕ) → Type 0
    NoData [] = 0 ≤ 0
    NoData ((port, value) ∷ ws) = (port ≢ data_fifo) × NoData ws

    put_all-Sends :
        (ws : List (ℕ × ℕ)) (s0 s : Fdc D)
        → NoData ws
        → Sends [] s0 s
        → Sends [] s0 (put_all call inb outb turn fires elapsed ws s)
    unfolding put_all NoData
    put_all-Sends [] s0 s other h = h
    put_all-Sends ((port, value) ∷ ws) s0 s (here, rest) h =
        put_all-Sends ws s0 (put port value s) rest (Sends-other [] port value s0 s here h)

    channel_writes-NoData : (ptr : ℕ) → NoData (channel_writes ptr)
    unfolding NoData channel_writes
    channel_writes-NoData ptr = (
      (λ e. omega (arith, e)),
      (
        (λ e. omega (arith, e)),
        (
          (λ e. omega (arith, e)),
          (
            (λ e. omega (arith, e)),
            (
              (λ e. omega (arith, e)),
              (
                (λ e. omega (arith, e)),
                (
                  (λ e. omega (arith, e)),
                  ((λ e. omega (arith, e)), ((λ e. omega (arith, e)), omega arith)),
                ),
              ),
            ),
          ),
        ),
      ),
    )

    -- The recalibration of both drives, the lock, and the channel.
    calibrate-Sends :
        (fuel : ℕ) (s : Fdc D)
        → (s' : Fdc D) × (calibrate call inb outb turn fires elapsed (suc (suc (suc fuel))) s
            ≡ some s')
          × (fifo s'.device ≡ fifo s.device ++ 7 ∷ 7 ∷ 7 ∷ 7 ∷ 0x94 ∷ [])
          × (s'.locked_cal ≡ true)
          × (s'.dma_data_ptr ≡ (init_floppy_dma s.memory).0)
    unfolding calibrate init_floppy_dma port_read port_write arrive
    calibrate-Sends fuel s =
        let s1 = (get msr s).1 in
        let first = ready_loop-at_once call inb outb turn fires elapsed fifo r (suc (suc fuel)) s in
        let h1 = Sends-get [] msr s s (Sends-none s) in
        let (s2, run2, recal) = recal_fdc-Sends fuel s1 in
        let h2 = Sends-append [] (7 ∷ 7 ∷ 7 ∷ 7 ∷ []) s s1 s2 h1 recal in
        let t2 = put data_fifo 0x94 s2 in
        let h3 = Sends-data (7 ∷ 7 ∷ 7 ∷ 7 ∷ []) 0x94 s s2 (omega arith) h2 in
        let locked : Fdc D = record t2 { locked_cal = true } in
        let (s3, run3, reset) = reset-Sends fuel locked refl in
        let dma = init_floppy_dma s3.memory in
        let u3 : Fdc D = record s3 { memory = dma.1.0 } in
        let s4 = put_all call inb outb turn fires elapsed dma.1.1 u3 in
        let h4 = put_all-Sends dma.1.1 u3 u3 (channel_writes-NoData dma.0) (Sends-none u3) in
        let u4 : Fdc D = record s4 { dma_data_ptr = dma.0 } in
        let dor = get digital_output u4 in
        let s5 = put digital_output (dor.0 - dor.0 % 4) dor.1 in
        let h5 =
          Sends-other [] digital_output (dor.0 - dor.0 % 4) u4 dor.1 (λ e. omega (arith, e))
            (Sends-get [] digital_output u4 u4 (Sends-none u4)) in
        let sent =
          h5.sent
          ∙ append-nil (fifo s4.device)
          ∙ h4.sent
          ∙ append-nil (fifo s3.device)
          ∙ reset.sent
          ∙ append-nil (fifo t2.device)
          ∙ h3.sent in
        (
          say call inb outb turn fires elapsed
              (codes "DMA PTR: 0x" ++ numeral dma.0 16 s5.serial.padding ++ codes "!" ++ 10 ∷ [])
              s5,
          rw (first, calibrate, run2, run3) refl,
          sent,
          h5.locked ∙ (h4.locked ∙ reset.locked),
          ap (λ m. (init_floppy_dma m).0) (reset.memory ∙ h3.memory),
        )

    read_version-Sends :
        (fuel handler : ℕ) (s : Fdc D)
        → ((d : D) → (inb data_fifo d).0 ≡ 0x90)
        → (s' : Fdc D) × (read_version call inb outb turn fires elapsed (suc fuel) handler s
            ≡ some (0x90, s'))
          × Sends (16 ∷ []) s s'
    unfolding read_version port_read
    read_version-Sends fuel handler s version =
        let installed = (irq_install_handler handler 6 s.interrupts).1 in
        let open_line = unmask_floppy installed in
        let s0 : Fdc D = record s { interrupts = pic_remask open_line } in
        let h0 : Sends [] s s0 = record {
          sent = sym (append-nil (fifo s.device));
          memory = refl;
          locked = refl;
        } in
        let first = ready_loop-at_once call inb outb turn fires elapsed fifo r fuel s0 in
        let s1 = (get msr s0).1 in
        let t1 = put digital_output 0x3c (put config_control 0 s1) in
        let h1 =
          Sends-other [] digital_output 0x3c s (put config_control 0 s1) (λ e. omega (arith, e))
            (Sends-other [] config_control 0 s s1 (λ e. omega (arith, e))
              (Sends-get [] msr s s0 h0)) in
        let run1 = asked-at_once fuel t1 in
        let s2 = (get msr t1).1 in
        let t2 = put data_fifo 16 s2 in
        let run2 = asked-at_once fuel t2 in
        let h2 = Sends-byte [] 16 s s2 (omega arith) (Sends-get [] msr s t1 h1) in
        let s3 = (get msr t2).1 in
        (
          (get data_fifo s3).1,
          rw (first, read_version, run1, run2)
              (ap (λ v. some (v, (get data_fifo s3).1)) (version s3.device)),
          Sends-get (16 ∷ []) data_fifo s s3 h2,
        )

    -- On a controller that is always ready, has the version 0x90 and fires its interrupt while the
    -- driver waits for it, and where each such interrupt comes back to the code that it interrupted,
    -- init_floppy comes back. It has sent VERSION, CONFIG with its three bytes, the
    -- two bytes of SPECIFY without that command, the byte of RECALIBRATE four times, and LOCK;
    -- locked_cal is set, and dma_data_ptr is what init_floppy_dma returned.
    pub init_floppy-Started :
        (fuel handler : ℕ) (s : Fdc D)
        → ((d : D) → (inb data_fifo d).0 ≡ 0x90)
        → (s' : Fdc D) × (init_floppy call inb outb turn fires elapsed
              (suc (suc (suc fuel)))
              handler
              s
            ≡ some s')
          × (fifo s'.device
              ≡ fifo s.device ++ (16 ∷ 19 ∷ 0 ∷ 0x48 ∷ 0 ∷ 0x80 ∷ 10 ∷ 7 ∷ 7 ∷ 7 ∷ 7 ∷ 0x94 ∷ []))
          × (s'.locked_cal ≡ true)
          × (s'.dma_data_ptr ≡ (init_floppy_dma s.memory).0)
    unfolding init_floppy
    init_floppy-Started fuel handler s version =
        let (s1, run1, h1) = read_version-Sends (suc (suc fuel)) handler s version in
        let (s2, run2, h2) = configure-Sends (suc (suc fuel)) s1 in
        let (s3, run3, sent, locked, ptr) = calibrate-Sends fuel s2 in
        let h = Sends-append (16 ∷ []) (19 ∷ 0 ∷ 0x48 ∷ 0 ∷ 0x80 ∷ 10 ∷ []) s s1 s2 h1 h2 in
        (
          s3,
          rw (run1, init_floppy, run2) run3,
          sent
              ∙ ap (λ l. l ++ (7 ∷ 7 ∷ 7 ∷ 7 ∷ 0x94 ∷ [])) h.sent
              ∙ append_assoc (fifo s.device) (16 ∷ 19 ∷ 0 ∷ 0x48 ∷ 0 ∷ 0x80 ∷ 10 ∷ [])
                  (7 ∷ 7 ∷ 7 ∷ 7 ∷ 0x94 ∷ []),
          locked,
          ptr ∙ ap (λ m. (init_floppy_dma m).0) h.memory,
        )
