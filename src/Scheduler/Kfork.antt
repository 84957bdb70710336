-- ===== src/Scheduler/Kfork.antt =====
-- The first processes: `init_scheduler` and `kfork` of kernel/proc/scheduler.c.
use l_ost.Common.{
  ℕ, ◌+◌, ◌*◌, ◌/◌, ◌≤◌, ◌<◌, ◌≡◌, ◌≢◌, refl, ap, inr, true, false, none, some, arith, ltb, ◌==◌,
  if◌then◌else◌, u16, u32,
}
use l_ost.Memory.{page_size, kmalloc, kumalloc}
use l_ost.Scheduler.{
  Process, ProcEntry, empty, sentinel, proc, ProcList, Scheduler, max_procs, is_empty, set_slot,
  get_proc, kernel_process, kfork_at, kfork, init_scheduler,
}
use l_ost.Scheduler.Valid.{Valid, set_slot-others}
use l_ost.Scheduler.Slots.{FirstFree, register_process-Registered}

-- The table that `init_scheduler` makes.
abbrev pub first_list : ProcList
first_list pid = if pid == 0 then sentinel else empty

pub init_scheduler-first :
    (s : Scheduler)
    → (kmalloc (4 * max_procs / page_size) 6 s.memory).0 ≢ 0
    → init_scheduler s
      ≡ some (record s {
        memory = (kmalloc (4 * max_procs / page_size) 6 s.memory).1;
        proc_list = first_list;
        enable_scheduler = true;
      })
unfolding init_scheduler
init_scheduler-first s given =
    let nonzero : ((kmalloc (4 * max_procs / page_size) 6 s.memory).0 == 0) ≡ false =
      ground (arith, given) in
    rw (init_scheduler, nonzero) refl

-- A process of the kernel that starts at `function`, at the index `k`.
pub record Kforked (s s' : Scheduler) (function k : ℕ) : Type 0 where
  pub first : FirstFree s.proc_list s.lapid k
  pub nonzero : 1 ≤ k
  pub entry :
      (e : ProcEntry) × (s'.proc_list k ≡ proc e)
      × (e.pid ≡ k)
      × (e.process.regs.eip ≡ function)
      × (e.ring0 ≡ true)
      × (e.process.lock ≡ 0)
  pub others : (j : ℕ) → j ≢ k → s'.proc_list j ≡ s.proc_list j
  pub last : s'.lapid ≡ k
  pub count : s'.active_procs ≡ u32 (s.active_procs + 1)
  pub enabled : s'.enable_scheduler ≡ s.enable_scheduler
  pub current : s'.cpid ≡ s.cpid
  pub memory :
      (pid : ℕ) × (s'.memory ≡ (kumalloc 1 6 pid (kmalloc 1 6 (kmalloc 1 6 s.memory).1).1).1)
  pub valid : Valid s'

kfork_at-run :
    (function count eflags pid : ℕ) (p : Process) (s : Scheduler) (e : ProcEntry)
    → pid < max_procs
    → s.proc_list pid ≡ proc e
    → kfork_at function count eflags pid p s
      ≡ some (
        pid,
        record s {
          memory = (kumalloc 1 6 pid s.memory).1;
          proc_list = set_slot s.proc_list pid (
              proc (record e {
                process = kernel_process function count (kumalloc 1 6 pid s.memory).0 eflags p;
                ring0 = true;
              }));
          active_procs = u32 (s.active_procs + 1);
        },
      )
unfolding kfork_at get_proc
kfork_at-run function count eflags pid p s e below held =
    let inside : ltb max_procs pid ≡ false = ground (arith, below) in
    rw (kfork_at, get_proc, inside, held) refl

pub kfork-Kforked :
    (function count eflags : ℕ) (raw_process : Process) (raw_entry : ProcEntry) (s : Scheduler)
    (q : ℕ)
    → Valid s
    → (kmalloc 1 6 (kmalloc 1 6 s.memory).1).0 ≢ 0
    → s.lapid ≤ q
    → q < max_procs
    → is_empty (s.proc_list q) ≡ true
    → (k : ℕ) × (s' : Scheduler) × (kfork function count eflags raw_process raw_entry s
        ≡ some (k, s'))
      × Kforked s s' function k
unfolding kfork
kfork-Kforked function count eflags raw_process raw_entry s q v page lo hi free =
    let (address, memory) = kmalloc 1 6 s.memory in
    let p : Process = record raw_process { address = address } in
    let s0 : Scheduler = record s { memory = memory } in
    let v0 : Valid s0 = record { zeroth = v.zeroth; others = v.others; running = v.running } in
    let (k, s1, run, r) = register_process-Registered none p raw_entry s0 q v0 page lo hi free in
    let (e, held, number, same, above) = r.entry in
    let pid : u16 k ≡ k = omega (arith, r.first.below) in
    let run' = kfork_at-run function count eflags k p s1 e r.first.below held in
    let new = record e {
      process = kernel_process function count (kumalloc 1 6 k s1.memory).0 eflags p;
      ring0 = true;
    } in
    let here : (k == k) ≡ true = ground arith in
    (
      k,
      record s1 {
        memory = (kumalloc 1 6 k s1.memory).1;
        proc_list = set_slot s1.proc_list k (proc new);
        active_procs = u32 (s1.active_procs + 1);
      },
      rw (run, kfork, pid, run') refl,
      record {
        first = record {
          from = r.first.from;
          below = r.first.below;
          free = r.first.free;
          taken = r.first.taken;
        };
        nonzero = r.nonzero;
        entry = (new, rw here refl, number, refl, refl, refl);
        others =
            λ j ne. let apart : (j == k) ≡ false = ground (arith, ne) in rw apart (r.others j ne);
        last = r.last;
        count = ap (λ n. u32 (n + 1)) r.count;
        enabled = r.enabled;
        current = r.current;
        memory = (k, ap (λ m. (kumalloc 1 6 k m).1) r.memory);
        valid = record {
          zeroth =
              let apart : (0 == k) ≡ false = ground (arith, r.nonzero) in rw apart r.valid.zeroth;
          others = set_slot-others s1.proc_list k (proc new) (inr (new, refl)) r.valid.others;
          running = r.valid.running;
        };
      },
    )
