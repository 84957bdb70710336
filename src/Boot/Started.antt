-- ===== src/Boot/Started.antt =====
-- What the start of the kernel leaves.
use l_ost.Common.{
  ℕ, ◌+◌, ◌*◌, ◌/◌, ◌≤◌, ◌≡◌, ◌≢◌, refl, sym, ap, ◌∙◌, inl, true, false, some, arith, ℕ_discrete,
  ◌==◌, u32,
}
use mathlib.Core.Path.{subst}
use l_ost.Memory.{Memory, page_size, kmalloc, kumalloc}
use l_ost.Memory.Filling.{Filled, allocate-Filled}
use l_ost.Scheduler.{
  Registers, Frame, schedule, save_running, resume, ProcEntry, empty, proc, ProcList, Scheduler,
  max_procs, is_empty, init_scheduler, kfork,
}
use l_ost.Scheduler.Valid.{Valid}
use l_ost.Scheduler.Switch.{
  NextLive-bounds, schedule-NextLive, save_running-others, save_running-active,
}
use l_ost.Scheduler.Slots.{FirstFree}
use l_ost.Scheduler.Kfork.{first_list, init_scheduler-first, Kforked, kfork-Kforked}
use l_ost.Boot.{Fresh}

-- The table of processes behind the start: the idle process at 1, the shell at 2.
pub record TwoProcesses (s : Scheduler) (idle eshell : ℕ) : Type 0 where
  pub valid : Valid s
  pub enabled : s.enable_scheduler ≡ true
  pub count : s.active_procs ≡ 2
  pub current : s.cpid ≡ 0
  pub first : (e : ProcEntry) × (s.proc_list 1 ≡ proc e) × (e.process.regs.eip ≡ idle)
  pub second : (e : ProcEntry) × (s.proc_list 2 ≡ proc e) × (e.process.regs.eip ≡ eshell)
  pub rest : (j : ℕ) → 3 ≤ j → s.proc_list j ≡ empty

-- The table of processes with the idle process alone, which runs.
pub record OnlyIdle (s : Scheduler) (idle : ℕ) : Type 0 where
  pub current : s.cpid ≡ 1
  pub count : s.active_procs ≡ 1
  pub first : (e : ProcEntry) × (s.proc_list 1 ≡ proc e) × (e.process.regs.eip ≡ idle)
  pub rest : (j : ℕ) → 2 ≤ j → s.proc_list j ≡ empty

-- The pages behind those of the table and of one process.
abbrev pub list_pages : Memory → Memory
list_pages m = (kmalloc (4 * max_procs / page_size) 6 m).1

abbrev pub process_pages : (pid : ℕ) → Memory → Memory
process_pages pid m = (kumalloc 1 6 pid (kmalloc 1 6 (kmalloc 1 6 m).1).1).1

-- There are pages for the table, and for the entries of two processes.
pub record Room (m : Memory) : Type 0 where
  pub list : (kmalloc (4 * max_procs / page_size) 6 m).0 ≢ 0
  pub first : (kmalloc 1 6 (kmalloc 1 6 (list_pages m)).1).0 ≢ 0
  pub second : (pid : ℕ) → (kmalloc 1 6 (kmalloc 1 6 (process_pages pid (list_pages m))).1).0 ≢ 0

-- 69 available pages are enough, where nothing behind the first of them is in use.
pub Filled-Room : (m : Memory) (f : ℕ) → Filled m f → f + 69 ≤ m.page_table_size → Room m
unfolding kmalloc kumalloc
Filled-Room m f filled enough =
    let from = filled.from in
    let (_, size1, m1) = allocate-Filled 64 6 0 m f filled (omega arith) (omega arith) in
    let (_, size2, m2) = allocate-Filled 1 6 0 _ _ m1 (omega arith) (omega (arith, size1)) in
    let (a3, size3, m3) =
      allocate-Filled 1 6 0 _ _ m2 (omega arith) (omega (arith, size1, size2)) in
    let sizes = size3 ∙ (size2 ∙ size1) in
    record {
      list = λ e.
          omega (arith, e, (allocate-Filled 64 6 0 m f filled (omega arith) (omega arith)).0, from);
      first = λ e. omega (arith, e, a3, from);
      second = λ pid.
          let (_, size4, m4) =
            allocate-Filled 1 6 pid _ _ m3 (omega arith) (omega (arith, sizes)) in
          let (_, size5, m5) =
            allocate-Filled 1 6 0 _ _ m4 (omega arith) (omega (arith, sizes, size4)) in
          let (a6, size6, m6) =
            allocate-Filled 1 6 0 _ _ m5 (omega arith) (omega (arith, sizes, size4, size5)) in
          λ e. omega (arith, e, a6, from);
    }

-- From an empty table the indices are given in order.
FirstFree-first : (k : ℕ) → 1 ≤ k → FirstFree first_list 0 k → k ≡ 1
FirstFree-first k lo f = elim (ℕ_discrete k 1) [
  | yes e ↦ e
  | no ne ↦ let taken = f.taken 1 (omega arith) (omega arith) in absurd (ground (arith, taken))
]

first_list-empty : (j : ℕ) → 3 ≤ j → first_list j ≡ empty
first_list-empty j lo = let apart : (j == 0) ≡ false = ground (arith, lo) in rw apart refl

first_list-bare : (j : ℕ) → 1 ≤ j → first_list j ≡ empty
first_list-bare j lo = let apart : (j == 0) ≡ false = ground (arith, lo) in rw apart refl

-- After a process at 1 the next one gets 2.
FirstFree-second :
    (k : ℕ) (t : ProcList)
    → FirstFree t 1 k
    → is_empty (t 1) ≡ false
    → is_empty (t 2) ≡ true
    → k ≡ 2
FirstFree-second k t f full free = elim (ℕ_discrete k 1) [
  | yes e ↦
      let empty_here : is_empty (t 1) ≡ true = rw (← e) f.free in absurd (cc (full, empty_here))
  | no ne ↦ elim (ℕ_discrete k 2) [
    | yes e ↦ e
    | no other ↦
        let lo = f.from in
        let taken = f.taken 2 (omega arith) (omega arith) in absurd (cc (taken, free))
  ]
]

-- Two processes that were made one after the other from the first table.
two_forked :
    (s0 s1 s2 : Scheduler) (idle eshell : ℕ)
    → s0.proc_list ≡ first_list
    → s0.cpid ≡ 0
    → s0.active_procs ≡ 0
    → s0.enable_scheduler ≡ true
    → Kforked s0 s1 idle 1
    → Kforked s1 s2 eshell 2
    → TwoProcesses s2 idle eshell
two_forked s0 s1 s2 idle eshell table current none_yet enabled f1 f2 =
    let (e1, held1, _, eip1, _, _) = f1.entry in
    let (e2, held2, _, eip2, _, _) = f2.entry in
    record {
      valid = f2.valid;
      enabled = f2.enabled ∙ (f1.enabled ∙ enabled);
      count = f2.count ∙ ap (λ n. u32 (n + 1)) (f1.count ∙ ap (λ n. u32 (n + 1)) none_yet);
      current = f2.current ∙ (f1.current ∙ current);
      first = (e1, f2.others 1 (λ e. omega (arith, e)) ∙ held1, eip1);
      second = (e2, held2, eip2);
      rest = λ j lo.
          f2.others j (λ e. omega (arith, e, lo))
          ∙ (f1.others j (λ e. omega (arith, e, lo))
              ∙ (ap (λ t. t j) table ∙ first_list-empty j lo));
    }

-- The first `kfork`, from the first table.
fork_first :
    (function eflags : ℕ) (raw : Fresh) (s : Scheduler)
    → Valid s
    → s.proc_list ≡ first_list
    → s.lapid ≡ 0
    → (kmalloc 1 6 (kmalloc 1 6 s.memory).1).0 ≢ 0
    → (s' : Scheduler) × (kfork function 0 eflags raw.process raw.entry s ≡ some (1, s'))
      × Kforked s s' function 1
fork_first function eflags raw s v table last page =
    let free : is_empty (s.proc_list 1) ≡ true = rw table refl in
    let (k, s', run, f) =
      kfork-Kforked function 0 eflags raw.process raw.entry s 1 v page (omega (arith, last))
        (omega arith) free in
    let first =
      subst (λ i. FirstFree first_list i k) last
        (subst (λ t. FirstFree t s.lapid k) table f.first) in
    let one : k ≡ 1 = FirstFree-first k f.nonzero first in
    (s', run ∙ ap (λ n. some (n, s')) one, subst (Kforked s s' function) one f)

-- The second one.
fork_second :
    (function eflags first_function : ℕ) (raw : Fresh) (s0 s : Scheduler)
    → Kforked s0 s first_function 1
    → s0.proc_list ≡ first_list
    → (kmalloc 1 6 (kmalloc 1 6 s.memory).1).0 ≢ 0
    → (s' : Scheduler) × (kfork function 0 eflags raw.process raw.entry s ≡ some (2, s'))
      × Kforked s s' function 2
fork_second function eflags first_function raw s0 s f1 table page =
    let free : is_empty (s.proc_list 2) ≡ true =
      rw (f1.others 2 (λ e. omega (arith, e)), table) refl in
    let (e1, held1, _, _, _, _) = f1.entry in
    let full : is_empty (s.proc_list 1) ≡ false = rw held1 refl in
    let (k, s', run, f) =
      kfork-Kforked function 0 eflags raw.process raw.entry s 2 f1.valid page
        (omega (arith, f1.last)) (omega arith) free in
    let first = subst (λ i. FirstFree s.proc_list i k) f1.last f.first in
    let two : k ≡ 2 = FirstFree-second k s.proc_list first full free in
    (s', run ∙ ap (λ n. some (n, s')) two, subst (Kforked s s' function) two f)

-- The table behind `init_scheduler` is valid.
first_list-Valid : (s : Scheduler) → s.proc_list ≡ first_list → s.cpid ≡ 0 → Valid s
first_list-Valid s table current = record {
  zeroth = ap (λ t. t 0) table;
  others = λ j lo.
      let apart : (j == 0) ≡ false = ground (arith, lo) in
      inl (ap (λ t. t j) table ∙ rw apart refl);
  running = ground (arith, current);
}

pub start_two :
    (idle eshell eflags : ℕ) (i_pages e_pages : Fresh) (s : Scheduler)
    → s.lapid ≡ 0
    → s.cpid ≡ 0
    → s.active_procs ≡ 0
    → Room s.memory
    → (s0 : Scheduler) × (s1 : Scheduler) × (s2 : Scheduler) × (init_scheduler s ≡ some s0)
      × (kfork idle 0 eflags i_pages.process i_pages.entry s0 ≡ some (1, s1))
      × (kfork eshell 0 eflags e_pages.process e_pages.entry s1 ≡ some (2, s2))
      × TwoProcesses s2 idle eshell
start_two idle eshell eflags i_pages e_pages s last current none_yet room =
    let s0 : Scheduler = record s {
      memory = list_pages s.memory;
      proc_list = first_list;
      enable_scheduler = true;
    } in
    let (s1, run1, f1) =
      fork_first idle eflags i_pages s0 (first_list-Valid s0 refl current) refl last room.first in
    let (pid1, memory1) = f1.memory in
    let page2 =
      subst (λ m. (kmalloc 1 6 (kmalloc 1 6 m).1).0 ≢ 0) (sym memory1) (room.second pid1) in
    let (s2, run2, f2) = fork_second eshell eflags idle e_pages s0 s1 f1 refl page2 in
    (
      s0,
      s1,
      s2,
      init_scheduler-first s room.list,
      run1,
      run2,
      two_forked s0 s1 s2 idle eshell refl current none_yet refl f1 f2,
    )

-- An interrupt behind the first `kfork` makes that process the running one.
pub start_one :
    (idle eflags : ℕ) (pages : Fresh) (frame : Registers) (s : Scheduler)
    → s.lapid ≡ 0
    → s.cpid ≡ 0
    → s.active_procs ≡ 0
    → Room s.memory
    → (s0 : Scheduler) × (s1 : Scheduler) × (s2 : Scheduler) × (resumed : Frame × Registers)
      × (init_scheduler s ≡ some s0)
      × (kfork idle 0 eflags pages.process pages.entry s0 ≡ some (1, s1))
      × (schedule frame s1 ≡ some (resumed, s2))
      × OnlyIdle s2 idle
start_one idle eflags pages frame s last current none_yet room =
    let s0 : Scheduler = record s {
      memory = list_pages s.memory;
      proc_list = first_list;
      enable_scheduler = true;
    } in
    let (s1, run1, f) =
      fork_first idle eflags pages s0 (first_list-Valid s0 refl current) refl last room.first in
    let (e, held, _, eip, _, _) = f.entry in
    let count : s1.active_procs ≡ 1 = f.count ∙ ap (λ n. u32 (n + 1)) none_yet in
    let others : (j : ℕ) → 2 ≤ j → s1.proc_list j ≡ empty =
      λ j lo. f.others j (λ e. omega (arith, e, lo)) ∙ first_list-bare j (omega arith) in
    let live : is_empty (s1.proc_list 1) ≡ false = rw held refl in
    let (k, p, after, _, run) =
      schedule-NextLive frame s1 1 f.valid (λ e. omega (arith, e, count)) f.enabled (omega arith)
        (omega arith) live in
    let (lo, below, here) = NextLive-bounds s1.cpid k s1.proc_list after in
    let idle_next : k ≡ 1 = elim (ℕ_discrete k 1) [
      | yes e ↦ e
      | no ne ↦
          let null : is_empty (s1.proc_list k) ≡ true = rw (others k (omega arith)) refl in
          absurd (cc (null, here))
    ] in
    let stopped : s1.cpid ≡ 0 = f.current ∙ current in
    let table : (j : ℕ) → 1 ≤ j → (save_running frame s1).proc_list j ≡ s1.proc_list j =
      λ j lo. save_running-others frame s1 j (λ e. omega (arith, e, lo, stopped)) in
    (
      s0,
      s1,
      record (save_running frame s1) { cpid = k },
      resume p,
      init_scheduler-first s room.list,
      run1,
      run,
      record {
        current = idle_next;
        count = save_running-active frame s1 ∙ count;
        first = (e, table 1 (omega arith) ∙ held, eip);
        rest = λ j lo. table j (omega arith) ∙ others j lo;
      },
    )
