-- ===== src/Boot/Steps.antt =====
-- The steps of `kmain` of kernel/main.c, and which parts each one leaves as they are.
use l_ost.Common.{
  codes, ℕ, ◌≤◌, ◌≡◌, refl, sym, ap, ◌∙◌, inl, inr, true, false, none, some, List, [], ◌∷◌, ◌++◌,
  arith, ◌==◌, if◌then◌else◌, Bool-cases, slt,
}
use mathlib.Core.Path.{subst}
use l_ost.Memory.{MmapEntry, Memory, init_memory}
use l_ost.Interrupts.{Interrupts, init_idt, irq_install_handler, pic_remask}
use l_ost.Interrupts.Handlers.{irq_install_handler-free, init_idt-handlers}
use l_ost.Keyboard.{Keyboard, request_register_driver}
use l_ost.Keyboard.Controller.{
  Controller, init_8042, configured, Documented, first_commands, port_commands, complaints,
  init_8042-Documented,
}
use l_ost.Ata.{Machine}
use l_ost.Ata.Identify.{AtaDrive32, ata_identify_all}
use l_ost.Storage.{Storage, get_fs_count}
use l_ost.Timer.{count_tick}
use l_ost.Scheduler.{Registers, Frame, Scheduler, init_scheduler, kfork, schedule}
use l_ost.Boot.{CpuidRegisters, System, Entries, Fresh, max_kernel_size, unmask}
use l_ost.Boot.Main.{
  Hardware, Raw, with_memory, start_memory, with_interrupts, start_interrupts, call_cpuid,
  check_size, start_scheduler, with_scheduler, warn, forked, test_numbers, kernel_size, fork_shell,
  preempt, start_processes, identify_drives, finish, say, display,
}
use l_ost.Boot.Started.{TwoProcesses, OnlyIdle, Room, start_two, start_one}

-- The parts that a step leaves as they are.
pub record Same {D : Type 0} (s s' : System D) : Type 0 where
  pub interrupts : s'.interrupts ≡ s.interrupts
  pub keyboard : s'.keyboard ≡ s.keyboard
  pub storage : s'.storage ≡ s.storage

pub Same-trans : {D : Type 0} (s s' s'' : System D) → Same s s' → Same s' s'' → Same s s''
Same-trans s s' s'' a b = record {
  interrupts = b.interrupts ∙ a.interrupts;
  keyboard = b.keyboard ∙ a.keyboard;
  storage = b.storage ∙ a.storage;
}

-- The handlers and the masks of the first two lines, those of the timer and the keyboard.
pub record Listening (s : Interrupts) (timer ps2 : ℕ) : Type 0 where
  pub pit : s.irq_handlers 0x20 ≡ timer
  pub ps2kb : s.irq_handlers 0x21 ≡ ps2
  pub mask : s.master_pic_mask ≡ 0xfc
  pub written :
      (before : List (ℕ × ℕ)) × (s.sent ≡ before ++ (0x21, 0xfc) ∷ (0xa1, s.slave_pic_mask) ∷ [])

module _ (call : ℕ → ℕ → ℕ) {D : Type 0} where
  pub start_memory-run :
      (mmap : ℕ → MmapEntry) (mmap_count : ℕ) (com_ports echo : ℕ → ℕ) (s : System D) (m : Memory)
      → init_memory mmap mmap_count s.scheduler.memory ≡ some m
      → (s' : System D) × (start_memory call mmap mmap_count com_ports echo s ≡ some s')
        × (s'.scheduler ≡ record s.scheduler { memory = m })
        × (s'.controller ≡ s.controller)
        × (s'.machine ≡ s.machine)
        × Same s s'
  unfolding start_memory
  start_memory-run mmap mmap_count com_ports echo s m run = (
    with_memory call com_ports echo s m,
    rw (run, start_memory) refl,
    refl,
    refl,
    refl,
    record { interrupts = refl; keyboard = refl; storage = refl },
  )

  -- The interrupts behind the start.
  pub start_interrupts-Listening :
      (e : Entries) (s : System D) (k : Keyboard) (c : Controller)
      → s.interrupts.irq_handlers 0x20 ≡ 0
      → s.interrupts.irq_handlers 0x21 ≡ 0
      → Listening (with_interrupts call e s k c).interrupts e.irq0_timer_handler e.ps2_handler
  unfolding pic_remask
  start_interrupts-Listening e s k c free0 free1 =
      let i0 = s.interrupts in
      let i1 = init_idt e.isr0 e.isr_step e.irq0 e.irq_step e.softint i0 in
      let (masked, kept) = init_idt-handlers e.isr0 e.isr_step e.irq0 e.irq_step e.softint i0 in
      let pit =
        irq_install_handler-free e.irq0_timer_handler 0 i1
          (kept 0x20 (λ x. omega (arith, x)) ∙ free0) in
      let i2 : Interrupts = record i1 {
        irq_handlers = λ i. if i == 0x20 then e.irq0_timer_handler else i1.irq_handlers i;
        master_pic_mask = 0xfc;
      } in
      let ps2 =
        irq_install_handler-free e.ps2_handler 1 i2 (kept 0x21 (λ x. omega (arith, x)) ∙ free1) in
      let whole : (irq_install_handler e.ps2_handler 1
            (unmask 2 (unmask 1 (irq_install_handler e.irq0_timer_handler 0 i1).1))).1
          ≡ (irq_install_handler e.ps2_handler 1 i2).1 =
        rw (pit, masked) refl in
      rw (whole, ps2, pic_remask)
        (record { pit = refl; ps2kb = refl; mask = refl; written = (i1.sent, refl) })

  pub start_interrupts-run :
      (respond : ℕ → List ℕ) (stat self_test keyboard mouse : ℕ) (e : Entries) (s : System D)
      → Documented respond stat self_test keyboard mouse
      → respond (configured stat) ≡ []
      → s.controller.commands ≡ []
      → s.controller.reported ≡ []
      → (c : Controller) × (start_interrupts call respond e s
          ≡ some (
              with_interrupts call e s
                (if self_test == 0x55 then request_register_driver true s.keyboard else s.keyboard)
                c))
  unfolding start_interrupts
  start_interrupts-run respond stat self_test keyboard mouse e s d silent sent unreported =
      let run =
        init_8042-Documented respond stat self_test keyboard mouse s.controller.queue s.keyboard d
          silent in
      let fresh : s.controller
          ≡ record { queue = s.controller.queue; commands = []; reported = [] } =
        ap
          (λ l. record {
            queue = s.controller.queue;
            commands = l;
            reported = s.controller.reported;
          })
          sent
        ∙ ap (λ l. record { queue = s.controller.queue; commands = []; reported = l }) unreported in
      let run' = ap (λ c. init_8042 respond s.keyboard c) fresh ∙ run in
      elim (Bool-cases (self_test == 0x55)) [
        | inl passes ↦ (
          record {
            queue = [];
            commands = first_commands stat ++ port_commands stat;
            reported = complaints stat keyboard mouse;
          },
          rw (start_interrupts, run', passes) refl,
        )
        | inr fails ↦ (
          record { queue = []; commands = first_commands stat; reported = [] },
          rw (start_interrupts, run', fails) refl,
        )
      ]

  pub call_cpuid-Same :
      (cpuid : ℕ → CpuidRegisters) (s : System D)
      → ((call_cpuid call cpuid s).scheduler ≡ s.scheduler)
        × ((call_cpuid call cpuid s).machine ≡ s.machine)
        × Same s (call_cpuid call cpuid s)
  unfolding call_cpuid
  call_cpuid-Same cpuid s =
      (refl, refl, record { interrupts = refl; keyboard = refl; storage = refl })

  warn-Same : (s : System D) → ((warn call s).scheduler ≡ s.scheduler) × Same s (warn call s)
  unfolding warn
  warn-Same s = elim (Bool-cases (get_fs_count s.storage == 0)) [
    | inl none_mounted ↦
        rw (warn, none_mounted)
          (refl, record { interrupts = refl; keyboard = refl; storage = refl })
    | inr mounted ↦
        rw (warn, mounted) (refl, record { interrupts = refl; keyboard = refl; storage = refl })
  ]

  start_processes-run :
      (eflags : ℕ) (e : Entries) (idle_pages shell_pages : Fresh) (s : System D) (k1 k2 : Scheduler)
      → kfork e.idle 0 eflags idle_pages.process idle_pages.entry s.scheduler ≡ some (1, k1)
      → kfork e.eshell 0 eflags shell_pages.process shell_pages.entry k1 ≡ some (2, k2)
      → (s' : System D) × (start_processes call eflags none e idle_pages shell_pages s ≡ some s')
        × (s'.scheduler ≡ k2)
        × Same s s'
  unfolding start_processes fork_shell
  start_processes-run eflags e idle_pages shell_pages s k1 k2 run1 run2 =
      let s1 = display call 40 15 (codes "Booting into emergency shell!") (
        display call 40 14 (codes "Error: Cannot find lOSt.rc on any mounted filesystem")
          (record s { scheduler = k2 })) in
      (
        say call (forked s.serial.padding k2.active_procs 2)
            (say call (test_numbers s.serial.padding) s1),
        rw (run1, start_processes, fork_shell, run2) refl,
        refl,
        record { interrupts = refl; keyboard = refl; storage = refl },
      )

  -- Where an interrupt comes in behind the first `kfork`.
  start_processes-preempted :
      (eflags : ℕ) (frame : Registers) (resumed : Frame × Registers) (e : Entries)
      (idle_pages shell_pages : Fresh) (s : System D) (k1 k2 : Scheduler)
      → kfork e.idle 0 eflags idle_pages.process idle_pages.entry s.scheduler ≡ some (1, k1)
      → schedule frame k1 ≡ some (resumed, k2)
      → (s' : System D) × (start_processes call eflags (some frame) e idle_pages shell_pages s
          ≡ some s')
        × (s'.scheduler ≡ k2)
  unfolding start_processes preempt
  start_processes-preempted eflags frame resumed e idle_pages shell_pages s k1 k2 run1 run2 = (
    record s { scheduler = k2; machine = record s.machine { clock = count_tick s.machine.clock } },
    rw (run1, start_processes, preempt, run2) refl,
    refl,
  )

  check_size-small :
      (size : ℕ) (s : System D)
      → size ≤ max_kernel_size
      → (s' : System D) × (check_size call size s ≡ some s')
        × (s'.scheduler ≡ s.scheduler)
        × Same s s'
  unfolding check_size
  check_size-small size s small =
      let fits : slt max_kernel_size size ≡ false = ground (arith, small) in
      (
        say call (kernel_size s.serial.padding size) s,
        rw (check_size, fits) refl,
        refl,
        record { interrupts = refl; keyboard = refl; storage = refl },
      )

  start_scheduler-run :
      (s : System D) (k : Scheduler)
      → init_scheduler s.scheduler ≡ some k
      → (s' : System D) × (start_scheduler call s ≡ some s') × (s'.scheduler ≡ k) × Same s s'
  unfolding start_scheduler
  start_scheduler-run s k run = (
    with_scheduler call k s,
    rw (run, start_scheduler) refl,
    refl,
    record { interrupts = refl; keyboard = refl; storage = refl },
  )

  module _ (register_drive : AtaDrive32 → Memory × Storage → Memory × Storage) where
    pub finish-run :
        (size : ℕ) (h : Hardware D) (e : Entries) (raw : Raw) (s : System D)
        → size ≤ max_kernel_size
        → s.scheduler.lapid ≡ 0
        → s.scheduler.cpid ≡ 0
        → s.scheduler.active_procs ≡ 0
        → Room s.scheduler.memory
        → h.preempted ≡ none
        → (s' : System D) × (finish call register_drive size h e raw s ≡ some s')
          × TwoProcesses s'.scheduler e.idle e.eshell
          × Same s s'
    unfolding finish
    finish-run size h e raw s small last current none_yet room quiet =
        let (k0, k1, k2, run0, run1, run2, two) =
          start_two e.idle e.eshell h.eflags raw.idle raw.shell s.scheduler last current none_yet
            room in
        let (s1, sized, kept1, same1) = check_size-small size s small in
        let (s2, scheduled, table2, same2) =
          start_scheduler-run s1 k0 (ap init_scheduler kept1 ∙ run0) in
        let (kept3, same3) = warn-Same s2 in
        let run1' =
          ap (kfork e.idle 0 h.eflags raw.idle.process raw.idle.entry) (kept3 ∙ table2) ∙ run1 in
        let (s4, started, table4, same4) =
          start_processes-run h.eflags e raw.idle raw.shell (warn call s2) k1 k2 run1' run2 in
        (
          s4,
          rw (sized, finish, scheduled, quiet) started,
          subst (λ k. TwoProcesses k e.idle e.eshell) (sym table4) two,
          Same-trans s s2 s4 (Same-trans s s1 s2 same1 same2)
              (Same-trans s2 (warn call s2) s4 same3 same4),
        )

    pub finish-preempted :
        (size : ℕ) (h : Hardware D) (e : Entries) (raw : Raw) (frame : Registers) (s : System D)
        → size ≤ max_kernel_size
        → s.scheduler.lapid ≡ 0
        → s.scheduler.cpid ≡ 0
        → s.scheduler.active_procs ≡ 0
        → Room s.scheduler.memory
        → h.preempted ≡ some frame
        → (s' : System D) × (finish call register_drive size h e raw s ≡ some s')
          × OnlyIdle s'.scheduler e.idle
    unfolding finish
    finish-preempted size h e raw frame s small last current none_yet room interrupted =
        let (k0, k1, k2, resumed, run0, run1, run2, one) =
          start_one e.idle h.eflags raw.idle frame s.scheduler last current none_yet room in
        let (s1, sized, kept1, same1) = check_size-small size s small in
        let (s2, scheduled, table2, same2) =
          start_scheduler-run s1 k0 (ap init_scheduler kept1 ∙ run0) in
        let (kept3, same3) = warn-Same s2 in
        let run1' =
          ap (kfork e.idle 0 h.eflags raw.idle.process raw.idle.entry) (kept3 ∙ table2) ∙ run1 in
        let (s4, started, table4) =
          start_processes-preempted h.eflags frame resumed e raw.idle raw.shell (warn call s2) k1 k2
            run1' run2 in
        (
          s4,
          rw (sized, finish, scheduled, interrupted) started,
          subst (λ k. OnlyIdle k e.idle) (sym table4) one,
        )

    pub identify_drives-run :
        (fuel : ℕ) (h : Hardware D) (raw : Raw) (s : System D) (result : ℕ) (m : Memory)
        (t : Storage) (machine : Machine D)
        → ata_identify_all h.inb h.inw h.outb h.elapsed register_drive fuel raw.master raw.slave
            (s.scheduler.memory, s.storage)
            s.machine
          ≡ some (result, ((m, t), machine))
        → identify_drives call register_drive fuel h raw s
          ≡ some (record s {
            scheduler = record s.scheduler { memory = m };
            storage = t;
            machine = machine;
          })
    unfolding identify_drives
    identify_drives-run fuel h raw s result m t machine run = rw (run, identify_drives) refl
