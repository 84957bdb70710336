-- ===== src/Scheduler/Switch.antt =====
-- What a timer tick does to the processes: `schedule` of kernel/proc/scheduler.c.
use l_ost.Common.{ℕ, ◌≤◌, ◌<◌, ◌≡◌, ◌≢◌, refl, sym, ◌∙◌, inl, inr, true, false, some, arith, ◌==◌}
use mathlib.Core.Path.{subst}
use l_ost.Scheduler.{
  Registers, ProcEntry, proc, ProcList, Scheduler, Frame, max_procs, is_empty, save_regs,
  save_running, next_pid, resume, switch, schedule,
}
use l_ost.Scheduler.Next.{NextLive, next_pid-NextLive, NextLive-cong, later, round}
use l_ost.Scheduler.Valid.{
  Valid, unsaved, saved, saved_entry, save_running-Saving, save_running-live, save_running-Valid,
}

-- A process stands at index `k`.
pub live-proc :
    (s : Scheduler) (k : ℕ)
    → Valid s
    → 1 ≤ k
    → is_empty (s.proc_list k) ≡ false
    → (e : ProcEntry) × (s.proc_list k ≡ proc e)
live-proc s k v lo live = elim (v.others k lo) [ inl null ↦ absurd (cc) | inr held ↦ held ]

pub NextLive-bounds :
    (c k : ℕ) (t : ProcList) → NextLive t c k → (1 ≤ k) × (k < max_procs) × (is_empty (t k) ≡ false)
NextLive-bounds c k t (later f) = (omega (arith, f.from), f.below, f.live)
NextLive-bounds c k t (round all f) = (f.from, f.below, f.live)

-- `switch` once the index and the process there are known.
switch-at :
    (fuel k : ℕ) (s : Scheduler) (e : ProcEntry)
    → next_pid fuel s.proc_list s.cpid ≡ some k
    → s.proc_list k ≡ proc e
    → switch fuel s ≡ some (resume e, record s { cpid = k })
unfolding switch
switch-at fuel k s e run held = rw (run, switch, held) refl

switch-NextLive :
    (s : Scheduler) (p : ℕ)
    → Valid s
    → 1 ≤ p
    → p < max_procs
    → is_empty (s.proc_list p) ≡ false
    → (k : ℕ) × (e : ProcEntry) × NextLive s.proc_list s.cpid k
      × (s.proc_list k ≡ proc e)
      × (switch max_procs s ≡ some (resume e, record s { cpid = k }))
switch-NextLive s p v lo hi live =
    let zeroth : is_empty (s.proc_list 0) ≡ false = rw v.zeroth refl in
    let (k, run, after) =
      next_pid-NextLive max_procs s.cpid p s.proc_list v.running lo hi (omega arith) live zeroth in
    let (bound, below, here) = NextLive-bounds s.cpid k s.proc_list after in
    let (e, held) = live-proc s k v bound here in
    (k, e, after, held, switch-at max_procs k s e run held)

schedule-switch :
    (oldregs : Registers) (s : Scheduler)
    → s.active_procs ≢ 0
    → s.enable_scheduler ≡ true
    → schedule oldregs s ≡ switch max_procs (save_running oldregs s)
unfolding schedule
schedule-switch oldregs s active enabled =
    let nonzero : (s.active_procs == 0) ≡ false = ground arith in rw (nonzero, enabled) refl

save_running-cpid : (oldregs : Registers) (s : Scheduler) → (save_running oldregs s).cpid ≡ s.cpid
save_running-cpid oldregs s = elim (save_running-Saving oldregs s) [
  | unsaved e ↦ rw e refl
  | saved entry lo held e ↦ rw e refl
]

-- In a valid table with a process at some index, with the scheduler enabled and the count of
-- active processes not zero, schedule comes back with the frame of the process at the next index
-- that is not null, going round from 65535 to 1, and makes that index the running one. The
-- registers of the interrupted process are saved before that.
pub schedule-NextLive :
    (oldregs : Registers) (s : Scheduler) (p : ℕ)
    → Valid s
    → s.active_procs ≢ 0
    → s.enable_scheduler ≡ true
    → 1 ≤ p
    → p < max_procs
    → is_empty (s.proc_list p) ≡ false
    → (k : ℕ) × (e : ProcEntry) × NextLive s.proc_list s.cpid k
      × ((save_running oldregs s).proc_list k ≡ proc e)
      × (schedule oldregs s ≡ some (resume e, record (save_running oldregs s) { cpid = k }))
schedule-NextLive oldregs s p v active enabled lo hi live =
    let (k, e, after, held, run) =
      switch-NextLive (save_running oldregs s) p (save_running-Valid oldregs s v) lo hi
        (save_running-live oldregs s p ∙ live) in
    (
      k,
      e,
      NextLive-cong s.cpid k (save_running oldregs s).proc_list s.proc_list
          (λ j. sym (save_running-live oldregs s j))
          (subst (λ c. NextLive (save_running oldregs s).proc_list c k)
            (save_running-cpid oldregs s) after),
      held,
      schedule-switch oldregs s active enabled ∙ run,
    )

-- The entry that was running holds the registers at the interrupt, and no other entry changes.
pub record Saved (oldregs : Registers) (s s' : Scheduler) : Type 0 where
  pub own :
      (e : ProcEntry)
      → 1 ≤ s.cpid
      → s.proc_list s.cpid ≡ proc e
      → s'.proc_list s.cpid ≡ proc (saved_entry oldregs e)
  pub others : (j : ℕ) → j ≢ s.cpid → s'.proc_list j ≡ s.proc_list j
  pub valid : Valid s'
  pub memory : s'.memory ≡ s.memory

save_running-own :
    (oldregs : Registers) (s : Scheduler) (e : ProcEntry)
    → 1 ≤ s.cpid
    → s.proc_list s.cpid ≡ proc e
    → (save_running oldregs s).proc_list s.cpid ≡ proc (saved_entry oldregs e)
unfolding save_running save_regs
save_running-own oldregs s e lo held =
    let nonzero : (s.cpid == 0) ≡ false = ground arith in
    let here : (s.cpid == s.cpid) ≡ true = ground arith in rw (nonzero, save_regs, held, here) refl

pub save_running-others :
    (oldregs : Registers) (s : Scheduler) (j : ℕ)
    → j ≢ s.cpid
    → (save_running oldregs s).proc_list j ≡ s.proc_list j
save_running-others oldregs s j ne = elim (save_running-Saving oldregs s) [
  | unsaved e ↦ rw e refl
  | saved entry lo held e ↦ let apart : (j == s.cpid) ≡ false = ground arith in rw (e, apart) refl
]

pub save_running-active :
    (oldregs : Registers) (s : Scheduler) → (save_running oldregs s).active_procs ≡ s.active_procs
save_running-active oldregs s = elim (save_running-Saving oldregs s) [
  | unsaved e ↦ rw e refl
  | saved entry lo held e ↦ rw e refl
]

save_running-memory :
    (oldregs : Registers) (s : Scheduler) → (save_running oldregs s).memory ≡ s.memory
save_running-memory oldregs s = elim (save_running-Saving oldregs s) [
  | unsaved e ↦ rw e refl
  | saved entry lo held e ↦ rw e refl
]

-- In a valid table with a process at some index, with the scheduler enabled and the count of
-- active processes not zero, schedule comes back in a valid state in which the entry of the
-- process that was running differs only in its registers, which are those at the interrupt, and
-- every other entry and the page table are as before.
pub schedule-Saved :
    (oldregs : Registers) (s : Scheduler) (p : ℕ)
    → Valid s
    → s.active_procs ≢ 0
    → s.enable_scheduler ≡ true
    → 1 ≤ p
    → p < max_procs
    → is_empty (s.proc_list p) ≡ false
    → (frame : Frame × Registers) × (s' : Scheduler) × (schedule oldregs s ≡ some (frame, s'))
      × Saved oldregs s s'
schedule-Saved oldregs s p v active enabled lo hi live =
    let (k, e, after, held, run) = schedule-NextLive oldregs s p v active enabled lo hi live in
    let (bound, below, here) = NextLive-bounds s.cpid k s.proc_list after in
    let v' = save_running-Valid oldregs s v in
    (
      resume e,
      record (save_running oldregs s) { cpid = k },
      run,
      record {
        own = save_running-own oldregs s;
        others = save_running-others oldregs s;
        valid = record { zeroth = v'.zeroth; others = v'.others; running = below };
        memory = save_running-memory oldregs s;
      },
    )
