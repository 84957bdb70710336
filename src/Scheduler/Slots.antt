-- ===== src/Scheduler/Slots.antt =====
-- Where kernel/proc/scheduler.c puts a new process, and what the end of one leaves.
use l_ost.Common.{
  ℕ, zero, suc, ◌+◌, ◌-◌, ◌^◌, ◌≤◌, ◌<◌, ◌≡◌, ◌≢◌, refl, ◌∙◌, inl, inr, true, false, Option, none,
  some, arith, ℕ_discrete, ltb, ◌==◌, Bool-cases, u16, u32,
}
use l_ost.Memory.{Memory, kmalloc}
use l_ost.Scheduler.{
  Process, ProcEntry, empty, proc, ProcList, Scheduler, max_procs, is_empty, set_slot, get_proc,
  find_slot, new_entry, register_at, register_process, release, exit_proc,
}
use l_ost.Scheduler.Valid.{Valid, set_slot-others}

-- The first free index in `[i, 65536)`.
pub record FirstFree (t : ProcList) (i k : ℕ) : Type 0 where
  pub from : i ≤ k
  pub below : k < max_procs
  pub free : is_empty (t k) ≡ true
  pub taken : (j : ℕ) → i ≤ j → j < k → is_empty (t j) ≡ false

find_slot-step :
    (fuel i k : ℕ) (t : ProcList)
    → is_empty (t i) ≡ false
    → i + 1 < max_procs
    → find_slot fuel t (i + 1) ≡ some k
    → find_slot (suc fuel) t i ≡ some k
unfolding find_slot
find_slot-step fuel i k t full hi run =
    let next : u16 (i + 1) ≡ i + 1 = omega arith in rw (full, next) run

find_slot-FirstFree :
    (fuel i p : ℕ) (t : ProcList)
    → i ≤ p
    → p < max_procs
    → p < i + fuel
    → is_empty (t p) ≡ true
    → (k : ℕ) × (find_slot fuel t i ≡ some k) × FirstFree t i k
unfolding find_slot
find_slot-FirstFree zero i p t lo hi enough free = absurd (omega arith)
find_slot-FirstFree (suc fuel) i p t lo hi enough free = elim (Bool-cases (is_empty (t i))) [
  | inr full ↦
      let ne : i ≢ p = λ e. ground arith in
      let (k, run, f) = find_slot-FirstFree fuel (i + 1) p t (omega arith) hi (omega arith) free in
      (
        k,
        find_slot-step fuel i k t full (omega arith) run,
        record {
          from = omega (arith, f.from);
          below = f.below;
          free = f.free;
          taken = λ j lo' hi'. elim (ℕ_discrete i j) [
            | yes e ↦ rw (← e) full
            | no ne' ↦ f.taken j (omega arith) hi'
          ];
        },
      )
  | inl here ↦ (
    i,
    rw here,
    record {
      from = omega arith;
      below = omega arith;
      free = here;
      taken = λ j lo' hi'. absurd (omega arith);
    },
  )
]

register_at-slot :
    (fuel address k : ℕ) (parent : Option ProcEntry) (p : Process) (raw : ProcEntry) (s : Scheduler)
    → find_slot fuel s.proc_list s.lapid ≡ some k
    → register_at fuel address parent p raw s
      ≡ some (
        k,
        record s {
          lapid = k;
          proc_list = set_slot s.proc_list k (proc (new_entry address parent p k raw));
        },
      )
unfolding register_at
register_at-slot fuel address k parent p raw s run = rw (run, register_at) refl

-- A new process in a free slot.
pub record Registered (s s' : Scheduler) (p : Process) (parent : Option ProcEntry) (k : ℕ)
    : Type 0 where
  pub first : FirstFree s.proc_list s.lapid k
  pub nonzero : 1 ≤ k
  pub memory : s'.memory ≡ (kmalloc 1 6 s.memory).1
  pub count : s'.active_procs ≡ s.active_procs
  pub last : s'.lapid ≡ k
  pub enabled : s'.enable_scheduler ≡ s.enable_scheduler
  pub current : s'.cpid ≡ s.cpid
  pub entry :
      (e : ProcEntry) × (s'.proc_list k ≡ proc e)
      × (e.pid ≡ k)
      × (e.process ≡ p)
      × (e.ppid ≡ elim parent [ none ↦ 0 | some q ↦ q.pid ])
  pub others : (j : ℕ) → j ≢ k → s'.proc_list j ≡ s.proc_list j
  pub valid : Valid s'

register_process-at :
    (parent : Option ProcEntry) (p : Process) (raw : ProcEntry) (s : Scheduler)
    → (kmalloc 1 6 s.memory).0 ≢ 0
    → register_process parent p raw s
      ≡ register_at max_procs
          (kmalloc 1 6 s.memory).0
          parent
          p
          raw
          (record s { memory = (kmalloc 1 6 s.memory).1 })
unfolding register_process
register_process-at parent p raw s given =
    let nonzero : ((kmalloc 1 6 s.memory).0 == 0) ≡ false = ground arith in rw nonzero refl

-- Writing process `e` into the free slot `k`.
fill-Registered :
    (parent : Option ProcEntry) (p : Process) (raw : ProcEntry) (s : Scheduler) (address k : ℕ)
    → Valid s
    → FirstFree s.proc_list s.lapid k
    → Registered s
        (record s {
          memory = (kmalloc 1 6 s.memory).1;
          lapid = k;
          proc_list = set_slot s.proc_list k (proc (new_entry address parent p k raw));
        })
        p
        parent
        k
fill-Registered parent p raw s address k v f =
    let nonzero : 1 ≤ k = elim (ℕ_discrete k 0) [
      | yes e ↦
          let full : is_empty (s.proc_list k) ≡ false = rw (e, v.zeroth) refl in
          absurd (cc (full, f.free))
      | no ne ↦ omega arith
    ] in
    let here : (k == k) ≡ true = ground arith in
    let apart : (0 == k) ≡ false = ground arith in
    record {
      first = f;
      nonzero = nonzero;
      memory = refl;
      count = refl;
      last = refl;
      enabled = refl;
      current = refl;
      entry = (new_entry address parent p k raw, rw here refl, refl, refl, refl);
      others = λ j ne. let other : (j == k) ≡ false = ground arith in rw other refl;
      valid = record {
        zeroth = rw apart v.zeroth;
        others =
            set_slot-others s.proc_list k (proc (new_entry address parent p k raw))
              (inr (new_entry address parent p k raw, refl)) v.others;
        running = v.running;
      };
    }

-- When a page is to be had, the table is valid and it has a null index from lapid on,
-- register_process comes back with the first such index, which is not 0. There it puts an entry
-- with that index as pid, the process, and the parent's pid or 0. It takes one page, changes no other
-- entry and not the count of active processes, and the table stays valid.
pub register_process-Registered :
    (parent : Option ProcEntry) (p : Process) (raw : ProcEntry) (s : Scheduler) (q : ℕ)
    → Valid s
    → (kmalloc 1 6 s.memory).0 ≢ 0
    → s.lapid ≤ q
    → q < max_procs
    → is_empty (s.proc_list q) ≡ true
    → (k : ℕ) × (s' : Scheduler) × (register_process parent p raw s ≡ some (k, s'))
      × Registered s s' p parent k
register_process-Registered parent p raw s q v given lo hi free =
    let (k, run, f) =
      find_slot-FirstFree max_procs s.lapid q s.proc_list lo hi (omega arith) free in
    let m = (kmalloc 1 6 s.memory).1 in
    let address = (kmalloc 1 6 s.memory).0 in
    (
      k,
      record s {
        memory = m;
        lapid = k;
        proc_list = set_slot s.proc_list k (proc (new_entry address parent p k raw));
      },
      register_process-at parent p raw s given
          ∙ register_at-slot max_procs address k parent p raw (record s { memory = m }) run,
      fill-Registered parent p raw s address k v f,
    )

-- What the end of a process at index `k` leaves in the table.
pub record Ended (s s' : Scheduler) (k : ℕ) : Type 0 where
  pub gone : s'.proc_list k ≡ empty
  pub others : (j : ℕ) → j ≢ k → s'.proc_list j ≡ s.proc_list j
  pub count : 1 ≤ s.active_procs → s.active_procs < 2 ^ 32 → s'.active_procs + 1 ≡ s.active_procs
  pub running : s'.cpid ≡ s.cpid
  pub valid : Valid s'

exit_proc-released :
    (k : ℕ) (s : Scheduler) (e : ProcEntry) (m : Memory)
    → k < max_procs
    → s.proc_list k ≡ proc e
    → release k e s.memory ≡ some m
    → exit_proc k s
      ≡ some (record s {
        memory = m;
        proc_list = set_slot s.proc_list k empty;
        active_procs = u32 (s.active_procs + 2 ^ 32 - 1);
      })
unfolding exit_proc get_proc
exit_proc-released k s e m hi held run =
    let inside : ltb max_procs k ≡ false = ground arith in
    rw (exit_proc, get_proc, inside, exit_proc, held, run) refl

pub exit_proc-Ended :
    (k : ℕ) (s : Scheduler) (e : ProcEntry) (m : Memory)
    → Valid s
    → 1 ≤ k
    → k < max_procs
    → s.proc_list k ≡ proc e
    → release k e s.memory ≡ some m
    → (s' : Scheduler) × (exit_proc k s ≡ some s') × (s'.memory ≡ m) × Ended s s' k
exit_proc-Ended k s e m v lo hi held run =
    let here : (k == k) ≡ true = ground arith in
    let apart : (0 == k) ≡ false = ground arith in
    (
      record s {
        memory = m;
        proc_list = set_slot s.proc_list k empty;
        active_procs = u32 (s.active_procs + 2 ^ 32 - 1);
      },
      exit_proc-released k s e m hi held run,
      refl,
      record {
        gone = rw here refl;
        others = λ j ne. let other : (j == k) ≡ false = ground arith in rw other refl;
        count = λ some_left bound. omega arith;
        running = refl;
        valid = record {
          zeroth = rw apart v.zeroth;
          others = set_slot-others s.proc_list k empty (inl refl) v.others;
          running = v.running;
        };
      },
    )
