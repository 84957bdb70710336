-- ===== src/Scheduler/Valid.antt =====
-- The table of processes between two calls of kernel/proc/scheduler.c.
use l_ost.Common.{
  ℕ, ◌≤◌, ◌<◌, ◌≡◌, refl, ◌⊎◌, inl, inr, true, false, arith, ℕ_discrete, ◌==◌, Bool-cases,
}
use l_ost.Scheduler.{
  Registers, ProcEntry, Slot, empty, sentinel, proc, ProcList, Scheduler, max_procs, is_empty,
  set_slot, save_regs, save_running,
}

pub Slot-cases : (v : Slot) → (v ≡ empty) ⊎ ((v ≡ sentinel) ⊎ ((e : ProcEntry) × (v ≡ proc e)))
Slot-cases empty = inl refl
Slot-cases sentinel = inr (inl refl)
Slot-cases (proc e) = inr (inr (e, refl))

-- Index 0 holds the -1, no other index does, and `cpid` is an index.
pub record Valid (s : Scheduler) : Type 0 where
  pub zeroth : s.proc_list 0 ≡ sentinel
  pub others :
      (j : ℕ) → 1 ≤ j → (s.proc_list j ≡ empty) ⊎ ((e : ProcEntry) × (s.proc_list j ≡ proc e))
  pub running : s.cpid < max_procs

-- A write of a process or of null at an index from 1 on keeps the table's form.
pub set_slot-others :
    (t : ProcList) (pid : ℕ) (v : Slot)
    → (v ≡ empty) ⊎ ((e : ProcEntry) × (v ≡ proc e))
    → ((j : ℕ) → 1 ≤ j → (t j ≡ empty) ⊎ ((e : ProcEntry) × (t j ≡ proc e)))
    → (j : ℕ) → 1 ≤ j
    → (set_slot t pid v j ≡ empty) ⊎ ((e : ProcEntry) × (set_slot t pid v j ≡ proc e))
set_slot-others t pid v form h j lo = elim (Bool-cases (j == pid)) [
  | inl e ↦ rw e form
  | inr e ↦ rw e (h j lo)
]

-- The entry of the running process with its registers saved.
abbrev pub saved_entry : Registers → ProcEntry → ProcEntry
saved_entry oldregs e = record e { process = record e.process { regs = oldregs } }

pub data Saving (oldregs : Registers) (s s' : Scheduler) : Type 0 where
  unsaved : s' ≡ s → Saving oldregs s s'
  saved :
      (e : ProcEntry)
      → 1 ≤ s.cpid
      → s.proc_list s.cpid ≡ proc e
      → s' ≡ record s { proc_list = set_slot s.proc_list s.cpid (proc (saved_entry oldregs e)) }
      → Saving oldregs s s'

pub save_running-Saving :
    (oldregs : Registers) (s : Scheduler) → Saving oldregs s (save_running oldregs s)
unfolding save_running save_regs
save_running-Saving oldregs s = elim (Bool-cases (s.cpid == 0)) [
  | inl e ↦ unsaved (rw e refl)
  | inr e ↦ elim (Slot-cases (s.proc_list s.cpid)) [
    | inl null ↦ unsaved (rw (e, save_regs, null) refl)
    | inr (inl minus) ↦ unsaved (rw (e, save_regs, minus) refl)
    | inr (inr (entry, held)) ↦ saved entry (ground arith) held (rw (e, save_regs, held) refl)
  ]
]

pub saved-live :
    (oldregs : Registers) (s : Scheduler) (e : ProcEntry) (j : ℕ)
    → s.proc_list s.cpid ≡ proc e
    → is_empty (set_slot s.proc_list s.cpid (proc (saved_entry oldregs e)) j)
      ≡ is_empty (s.proc_list j)
saved-live oldregs s e j held = elim (ℕ_discrete j s.cpid) [
  | yes same ↦ let here : (s.cpid == s.cpid) ≡ true = ground arith in rw (same, held, here) refl
  | no ne ↦ let apart : (j == s.cpid) ≡ false = ground arith in rw apart refl
]

pub save_running-live :
    (oldregs : Registers) (s : Scheduler) (j : ℕ)
    → is_empty ((save_running oldregs s).proc_list j) ≡ is_empty (s.proc_list j)
save_running-live oldregs s j = elim (save_running-Saving oldregs s) [
  | unsaved e ↦ rw e refl
  | saved entry lo held e ↦ rw e (saved-live oldregs s entry j held)
]

pub save_running-Valid :
    (oldregs : Registers) (s : Scheduler) → Valid s → Valid (save_running oldregs s)
save_running-Valid oldregs s v = elim (save_running-Saving oldregs s) [
  | unsaved e ↦ rw e v
  | saved entry lo held e ↦
      let apart : (0 == s.cpid) ≡ false = ground arith in
      rw e (record {
        zeroth = rw apart v.zeroth;
        others =
            set_slot-others s.proc_list s.cpid (proc (saved_entry oldregs entry))
              (inr (saved_entry oldregs entry, refl)) v.others;
        running = v.running;
      })
]
