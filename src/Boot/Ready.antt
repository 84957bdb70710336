-- ===== src/Boot/Ready.antt =====
-- What stands behind the whole of `kmain` of kernel/main.c.
use l_ost.Common.{
  ℕ, ◌≤◌, ◌≡◌, ◌≢◌, refl, sym, ap, ◌∙◌, true, false, none, some, [], arith, ◌==◌, if◌then◌else◌,
}
use mathlib.Core.Path.{subst}
use l_ost.Memory.{Memory, init_memory}
use l_ost.Keyboard.{request_register_driver}
use l_ost.Keyboard.Controller.{configured, Documented}
use l_ost.Ata.{Machine}
use l_ost.Ata.Identify.{AtaDrive32, ata_identify_all}
use l_ost.Storage.{Storage}
use l_ost.Scheduler.{Registers, ProcEntry, Scheduler, proc, is_empty}
use l_ost.Scheduler.Rounds.{interrupts, interrupts-reach}
use l_ost.Boot.{System, Entries, max_kernel_size}
use l_ost.Boot.Main.{
  Hardware, Raw, start_memory, with_interrupts, start_interrupts, call_cpuid, identify_drives,
  finish, kmain,
}
use l_ost.Boot.Started.{TwoProcesses, Room}
use l_ost.Boot.Steps.{
  Listening, start_memory-run, start_interrupts-Listening, start_interrupts-run, call_cpuid-Same,
  finish-run, identify_drives-run,
}

-- A system before its start: no process, and no handler of the timer and the keyboard.
pub record Blank {D : Type 0} (s : System D) : Type 0 where
  pub lapid : s.scheduler.lapid ≡ 0
  pub cpid : s.scheduler.cpid ≡ 0
  pub active_procs : s.scheduler.active_procs ≡ 0
  pub pit : s.interrupts.irq_handlers 0x20 ≡ 0
  pub ps2kb : s.interrupts.irq_handlers 0x21 ≡ 0
  pub commands : s.controller.commands ≡ []
  pub reported : s.controller.reported ≡ []

module _ (call : ℕ → ℕ → ℕ) {D : Type 0}
    (register_drive : AtaDrive32 → Memory × Storage → Memory × Storage) where
  -- The parts of `kmain` one after the other.
  kmain-parts :
      (fuel size : ℕ) (h : Hardware D) (e : Entries) (raw : Raw) (s s1 s2 s3 : System D)
      → start_memory call h.mmap h.mmap_count h.com_ports h.echo s ≡ some s1
      → start_interrupts call h.respond e s1 ≡ some s2
      → identify_drives call register_drive fuel h raw (call_cpuid call h.cpuid s2) ≡ some s3
      → kmain call register_drive fuel size h e raw s ≡ finish call register_drive size h e raw s3
  unfolding kmain
  kmain-parts fuel size h e raw s s1 s2 s3 run1 run2 run3 = rw (run1, kmain, run2, run3) refl

  -- The system in which `kmain` comes to the size of the kernel.
  kmain-finish :
      (fuel size : ℕ) (h : Hardware D) (e : Entries) (raw : Raw) (s : System D) (m0 m : Memory)
      (t : Storage) (machine : Machine D) (stat self_test keyboard mouse result : ℕ)
      → Blank s
      → init_memory h.mmap h.mmap_count s.scheduler.memory ≡ some m0
      → Documented h.respond stat self_test keyboard mouse
      → h.respond (configured stat) ≡ []
      → ata_identify_all h.inb h.inw h.outb h.elapsed register_drive fuel raw.master raw.slave
          (m0, s.storage)
          s.machine
        ≡ some (result, ((m, t), machine))
      → (s3 : System D) × (kmain call register_drive fuel size h e raw s
          ≡ finish call register_drive size h e raw s3)
        × (s3.scheduler ≡ record s.scheduler { memory = m })
        × Listening s3.interrupts e.irq0_timer_handler e.ps2_handler
        × (s3.keyboard
            ≡ (if self_test == 0x55 then request_register_driver true s.keyboard else s.keyboard))
        × (s3.storage ≡ t)
  kmain-finish fuel size h e raw s m0 m t machine stat self_test keyboard mouse result blank mapped
        d silent drives =
      let (s1, run1, table1, controller1, machine1, same1) =
        start_memory-run call h.mmap h.mmap_count h.com_ports h.echo s m0 mapped in
      let (c, run2) =
        start_interrupts-run call h.respond stat self_test keyboard mouse e s1 d silent
          (ap (λ x. x.commands) controller1 ∙ blank.commands)
          (ap (λ x. x.reported) controller1 ∙ blank.reported) in
      let k = if self_test == 0x55 then request_register_driver true s1.keyboard else s1.keyboard in
      let s2 = with_interrupts call e s1 k c in
      let (table2, machine2, same2) = call_cpuid-Same call h.cpuid s2 in
      let c2 = call_cpuid call h.cpuid s2 in
      let table : c2.scheduler ≡ record s.scheduler { memory = m0 } = table2 ∙ table1 in
      let run3 = identify_drives-run call register_drive fuel h raw c2 result m t machine (
        rw (ap (λ x. x.memory) table, same2.storage ∙ same1.storage, machine2 ∙ machine1) drives) in
      let s3 = record c2 {
        scheduler = record c2.scheduler { memory = m };
        storage = t;
        machine = machine;
      } in
      let free : s1.interrupts.irq_handlers ≡ s.interrupts.irq_handlers =
        ap (λ x. x.irq_handlers) same1.interrupts in
      let listening =
        start_interrupts-Listening call e s1 k c (ap (λ f. f 0x20) free ∙ blank.pit)
          (ap (λ f. f 0x21) free ∙ blank.ps2kb) in
      let keep_memory : Scheduler → Scheduler = λ x. record x { memory = m } in
      (
        s3,
        kmain-parts fuel size h e raw s s1 s2 s3 run1 run2 run3,
        ap keep_memory table,
        subst (λ i. Listening i e.irq0_timer_handler e.ps2_handler) (sym same2.interrupts)
            listening,
        same2.keyboard
            ∙ ap (λ x. if self_test == 0x55 then request_register_driver true x else x)
                same1.keyboard,
        refl,
      )

  -- On a blank system, where `init_memory` makes the map `m0` of pages, the keyboard controller answers as
  -- documented and does not take its configuration for a command with an answer, `ata_identify_all` comes
  -- back with the map `m`, which has a page for each of the scheduler's requests, the kernel is at most
  -- MAX_KERNEL_SIZE bytes, and no timer interrupt comes in between the first kfork and the end of kmain:
  -- kmain comes back. Then the handlers of the timer and of the
  -- keyboard stand at 0x20 and 0x21, the masks last written let those two lines of the first
  -- controller pass and no other, the keyboard's driver is asked for exactly if the controller passed its
  -- test, the mounted filesystems are those that ata_identify_all left, and the valid, enabled table of
  -- processes holds the idle process at 1, the shell at 2 and nothing else.
  pub kmain-Started :
      (fuel size : ℕ) (h : Hardware D) (e : Entries) (raw : Raw) (s : System D) (m0 m : Memory)
      (t : Storage) (machine : Machine D) (stat self_test keyboard mouse result : ℕ)
      → Blank s
      → init_memory h.mmap h.mmap_count s.scheduler.memory ≡ some m0
      → Documented h.respond stat self_test keyboard mouse
      → h.respond (configured stat) ≡ []
      → ata_identify_all h.inb h.inw h.outb h.elapsed register_drive fuel raw.master raw.slave
          (m0, s.storage)
          s.machine
        ≡ some (result, ((m, t), machine))
      → Room m
      → size ≤ max_kernel_size
      → h.preempted ≡ none
      → (s' : System D) × (kmain call register_drive fuel size h e raw s ≡ some s')
        × Listening s'.interrupts e.irq0_timer_handler e.ps2_handler
        × (s'.keyboard
            ≡ (if self_test == 0x55 then request_register_driver true s.keyboard else s.keyboard))
        × (s'.storage ≡ t)
        × TwoProcesses s'.scheduler e.idle e.eshell
  kmain-Started fuel size h e raw s m0 m t machine stat self_test keyboard mouse result blank mapped
        d silent drives room small quiet =
      let (s3, reached, table, listening, asked, mounted) =
        kmain-finish fuel size h e raw s m0 m t machine stat self_test keyboard mouse result blank
          mapped d silent drives in
      let last = ap (λ x. x.lapid) table ∙ blank.lapid in
      let current = ap (λ x. x.cpid) table ∙ blank.cpid in
      let none_yet = ap (λ x. x.active_procs) table ∙ blank.active_procs in
      let room3 = subst Room (sym (ap (λ x. x.memory) table)) room in
      let (s4, run4, two, same4) =
        finish-run call register_drive size h e raw s3 small last current none_yet room3 quiet in
      (
        s4,
        reached ∙ run4,
        subst (λ i. Listening i e.irq0_timer_handler e.ps2_handler) (sym same4.interrupts)
            listening,
        same4.keyboard ∙ asked,
        same4.storage ∙ mounted,
        two,
      )

  -- On a blank system where the map of pages, the keyboard controller, the drives, the room for the
  -- scheduler and the size of the kernel are as kmain-Started asks, and where no timer interrupt comes in
  -- between the first kfork and the end of kmain, kmain comes back, and from then on
  -- the shell becomes the running process after at least one and at most 65536 timer interrupts,
  -- whatever frames they come with; schedule comes back at each of them.
  pub kmain-shell :
      (fuel size : ℕ) (h : Hardware D) (e : Entries) (raw : Raw) (s : System D) (m0 m : Memory)
      (t : Storage) (machine : Machine D) (stat self_test keyboard mouse result : ℕ)
      (frames : ℕ → Registers)
      → Blank s
      → init_memory h.mmap h.mmap_count s.scheduler.memory ≡ some m0
      → Documented h.respond stat self_test keyboard mouse
      → h.respond (configured stat) ≡ []
      → ata_identify_all h.inb h.inw h.outb h.elapsed register_drive fuel raw.master raw.slave
          (m0, s.storage)
          s.machine
        ≡ some (result, ((m, t), machine))
      → Room m
      → size ≤ max_kernel_size
      → h.preempted ≡ none
      → (s' : System D) × (n : ℕ) × (k : Scheduler) × (p : ProcEntry) × (kmain call register_drive
            fuel size h e raw s
          ≡ some s')
        × (1 ≤ n)
        × (n ≤ 65536)
        × (interrupts n frames s'.scheduler ≡ some k)
        × (k.cpid ≡ 2)
        × (s'.scheduler.proc_list k.cpid ≡ proc p)
        × (p.process.regs.eip ≡ e.eshell)
  kmain-shell fuel size h e raw s m0 m t machine stat self_test keyboard mouse result frames blank
        mapped d silent drives room small quiet =
      let (s', run, listening, asked, mounted, two) =
        kmain-Started fuel size h e raw s m0 m t machine stat self_test keyboard mouse result blank
          mapped d silent drives room small quiet in
      let (p, held, eip) = two.second in
      let live : is_empty (s'.scheduler.proc_list 2) ≡ false = rw held refl in
      let some_active : s'.scheduler.active_procs ≢ 0 = λ none_left. ground (arith, two.count) in
      let (n, k, one, most, reached, here) =
        interrupts-reach 2 frames s'.scheduler two.valid some_active two.enabled (omega arith)
          (omega arith) live in
      (s', n, k, p, run, one, most, reached, here, ap s'.scheduler.proc_list here ∙ held, eip)
