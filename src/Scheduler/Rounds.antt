-- ===== src/Scheduler/Rounds.antt =====
-- Every process gets its turn under `schedule` of kernel/proc/scheduler.c.
use l_ost.Common.{
  ℕ, zero, suc, ◌+◌, ◌-◌, ◌≤◌, ◌<◌, ◌≡◌, ◌≢◌, refl, sym, ◌∙◌, ◌⊎◌, inl, inr, true, false, Option,
  none, some, arith, ℕ_discrete, dec_lt, ltb, if◌then◌else◌,
}
use l_ost.Scheduler.{
  Registers, ProcList, Scheduler, Frame, max_procs, is_empty, schedule, save_running, resume,
}
use l_ost.Scheduler.Next.{NextLive, later, round}
use l_ost.Scheduler.Valid.{
  Valid, unsaved, saved, save_running-Saving, save_running-live, save_running-Valid,
}
use l_ost.Scheduler.Switch.{schedule-NextLive}

-- How many indices `schedule` goes through from `c` on until it comes to `p`.
pub distance : (c p : ℕ) → ℕ
distance c p = if ltb c p then p - c else max_procs + p - c - 1

-- A step goes to `p` or comes nearer.
NextLive-nearer :
    (c k p : ℕ) (t : ProcList)
    → c < max_procs
    → 1 ≤ p
    → p < max_procs
    → is_empty (t p) ≡ false
    → NextLive t c k
    → k ≢ p
    → distance k p < distance c p
unfolding distance
NextLive-nearer c k p t hc lo hi live (later f) ne =
    let reached : (c < p) → k ≤ p = λ ahead. elim (dec_lt p k) [
      | yes past ↦ let null = f.skipped p (omega arith) past in absurd (cc)
      | no near ↦ omega arith
    ] in
    elim (dec_lt c p) [
      | yes ahead ↦ let near = reached ahead in let bound = f.from in ground arith
      | no behind ↦ let bound = f.from in let below = f.below in ground arith
    ]
NextLive-nearer c k p t hc lo hi live (round none_later f) ne =
    let behind : p ≤ c = elim (dec_lt c p) [
      | yes ahead ↦ let null = none_later p ahead hi in absurd (cc)
      | no behind ↦ omega arith
    ] in
    let near : k ≤ p = elim (dec_lt p k) [
      | yes past ↦ let null = f.skipped p lo past in absurd (cc)
      | no near ↦ omega arith
    ] in
    let bound = f.from in ground arith

-- Timer interrupts one after the other, the first with the frame `frames 0`.
pub interrupts : (n : ℕ) → (frames : ℕ → Registers) → Scheduler → Option Scheduler
interrupts zero frames s = some s
interrupts (suc n) frames s = elim (schedule (frames 0) s) [
  | none ↦ none
  | some (frame, s') ↦ interrupts n (λ i. frames (i + 1)) s'
]

interrupts-step :
    (n : ℕ) (frames : ℕ → Registers) (s s' : Scheduler) (frame : Frame × Registers)
    (r : Option Scheduler)
    → schedule (frames 0) s ≡ some (frame, s')
    → interrupts n (λ i. frames (i + 1)) s' ≡ r
    → interrupts (suc n) frames s ≡ r
unfolding interrupts
interrupts-step n frames s s' frame r run rest = rw (run, interrupts) rest

-- What a process waits for.
record Waiting (s : Scheduler) (p : ℕ) : Type 0 where
  pub valid : Valid s
  pub active : s.active_procs ≢ 0
  pub enabled : s.enable_scheduler ≡ true
  pub live : is_empty (s.proc_list p) ≡ false

-- Saving the registers changes neither the count of processes nor the switch of the scheduler.
save_running-kept :
    (oldregs : Registers) (s : Scheduler)
    → ((save_running oldregs s).active_procs ≡ s.active_procs)
      × ((save_running oldregs s).enable_scheduler ≡ s.enable_scheduler)
save_running-kept oldregs s = elim (save_running-Saving oldregs s) [
  | unsaved e ↦ rw e (refl, refl)
  | saved entry lo held e ↦ rw e (refl, refl)
]

NextLive-first : (c k : ℕ) (t : ProcList) → NextLive t c k → (1 ≤ k) × (k < max_procs)
NextLive-first c k t (later f) = (omega (arith, f.from), f.below)
NextLive-first c k t (round none_later f) = (f.from, f.below)

-- A step runs `p`, or leaves it waiting with fewer indices between.
step-Waiting :
    (oldregs : Registers) (s : Scheduler) (p : ℕ)
    → 1 ≤ p
    → p < max_procs
    → Waiting s p
    → (frame : Frame × Registers) × (s' : Scheduler) × (schedule oldregs s ≡ some (frame, s'))
      × Waiting s' p
      × ((s'.cpid ≡ p) ⊎ (distance s'.cpid p < distance s.cpid p))
step-Waiting oldregs s p lo hi w =
    let (k, e, after, held, run) =
      schedule-NextLive oldregs s p w.valid w.active w.enabled lo hi w.live in
    let (bound, below) = NextLive-first s.cpid k s.proc_list after in
    let (active, enabled) = save_running-kept oldregs s in
    let v = save_running-Valid oldregs s w.valid in
    (
      resume e,
      record (save_running oldregs s) { cpid = k },
      run,
      record {
        valid = record { zeroth = v.zeroth; others = v.others; running = below };
        active = λ z. w.active (sym active ∙ z);
        enabled = enabled ∙ w.enabled;
        live = save_running-live oldregs s p ∙ w.live;
      },
      elim (ℕ_discrete k p) [
        | yes here ↦ inl here
        | no ne ↦ inr (NextLive-nearer s.cpid k p s.proc_list w.valid.running lo hi w.live after ne)
      ],
    )

reaches :
    (fuel p : ℕ) (frames : ℕ → Registers) (s : Scheduler)
    → 1 ≤ p
    → p < max_procs
    → Waiting s p
    → distance s.cpid p ≤ fuel
    → (n : ℕ) × (s' : Scheduler) × (1 ≤ n)
      × (n ≤ suc fuel)
      × (interrupts n frames s ≡ some s')
      × (s'.cpid ≡ p)
      × Valid s'
unfolding interrupts
reaches zero p frames s lo hi w near =
    let (frame, s1, run, w1, turn) = step-Waiting (frames 0) s p lo hi w in
    let here : s1.cpid ≡ p = elim turn [ inl e ↦ e | inr nearer ↦ absurd (omega arith) ] in
    (
      1,
      s1,
      omega arith,
      omega arith,
      interrupts-step 0 frames s s1 frame (some s1) run refl,
      here,
      w1.valid,
    )
reaches (suc fuel) p frames s lo hi w near =
    let (frame, s1, run, w1, turn) = step-Waiting (frames 0) s p lo hi w in
    elim turn [
      | inl here ↦ (
        1,
        s1,
        omega arith,
        omega arith,
        interrupts-step 0 frames s s1 frame (some s1) run refl,
        here,
        w1.valid,
      )
      | inr nearer ↦
          let (n, s2, one, most, rest, here, v) =
            reaches fuel p (λ i. frames (i + 1)) s1 lo hi w1 (omega arith) in
          (
            suc n,
            s2,
            omega arith,
            omega arith,
            interrupts-step n frames s s1 frame (some s2) run rest,
            here,
            v,
          )
    ]

distance-bound : (c p : ℕ) → c < max_procs → 1 ≤ p → p < max_procs → distance c p ≤ 65535
unfolding distance
distance-bound c p hc lo hi = ground arith

-- From a valid table, with the scheduler enabled and the count of active processes not zero, any
-- process of the list becomes the running one after some number of timer interrupts, at least one
-- and at most 65536, whatever frames they come with, and schedule comes back at each of them.
pub interrupts-reach :
    (p : ℕ) (frames : ℕ → Registers) (s : Scheduler)
    → Valid s
    → s.active_procs ≢ 0
    → s.enable_scheduler ≡ true
    → 1 ≤ p
    → p < max_procs
    → is_empty (s.proc_list p) ≡ false
    → (n : ℕ) × (s' : Scheduler) × (1 ≤ n)
      × (n ≤ 65536)
      × (interrupts n frames s ≡ some s')
      × (s'.cpid ≡ p)
interrupts-reach p frames s v active enabled lo hi live =
    let w : Waiting s p = record { valid = v; active = active; enabled = enabled; live = live } in
    let (n, s', one, most, run, here, v') =
      reaches 65535 p frames s lo hi w (distance-bound s.cpid p v.running lo hi) in
    (n, s', one, most, run, here)
