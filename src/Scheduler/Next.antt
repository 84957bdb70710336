-- ===== src/Scheduler/Next.antt =====
-- Which process `schedule` goes on with.
use l_ost.Common.{
  ℕ, zero, suc, ◌+◌, ◌-◌, ◌≤◌, ◌<◌, ◌≡◌, ◌≢◌, ◌∙◌, ◌⊎◌, inl, inr, true, false, some, arith,
  ℕ_discrete, ◌==◌, Bool-cases, u16,
}
use l_ost.Scheduler.{ProcList, max_procs, is_empty, next_from, next_pid}

-- Index `k` is the first in `[i, 65536)` that is not null.
pub record First (t : ProcList) (i k : ℕ) : Type 0 where
  pub from : i ≤ k
  pub below : k < max_procs
  pub live : is_empty (t k) ≡ false
  pub skipped : (j : ℕ) → i ≤ j → j < k → is_empty (t j) ≡ true

next_from-step :
    (fuel i k : ℕ) (t : ProcList)
    → is_empty (t i) ≡ true
    → i + 1 < max_procs
    → next_from fuel t (i + 1) ≡ some k
    → next_from (suc fuel) t i ≡ some k
unfolding next_from
next_from-step fuel i k t null hi run =
    let next : u16 (i + 1) ≡ i + 1 = omega arith in rw (null, next) run

next_from-First :
    (fuel i p : ℕ) (t : ProcList)
    → i ≤ p
    → p < max_procs
    → p < i + fuel
    → is_empty (t p) ≡ false
    → (k : ℕ) × (next_from fuel t i ≡ some k) × First t i k
unfolding next_from
next_from-First zero i p t lo hi enough live = absurd (omega arith)
next_from-First (suc fuel) i p t lo hi enough live = elim (Bool-cases (is_empty (t i))) [
  | inl null ↦
      let ne : i ≢ p = λ e. ground arith in
      let (k, run, f) = next_from-First fuel (i + 1) p t (omega arith) hi (omega arith) live in
      (
        k,
        next_from-step fuel i k t null (omega arith) run,
        record {
          from = omega (arith, f.from);
          below = f.below;
          live = f.live;
          skipped = λ j lo' hi'. elim (ℕ_discrete i j) [
            | yes e ↦ rw (← e) null
            | no ne' ↦ f.skipped j (omega arith) hi'
          ];
        },
      )
  | inr here ↦ (
    i,
    rw here,
    record {
      from = omega arith;
      below = omega arith;
      live = here;
      skipped = λ j lo' hi'. absurd (omega arith);
    },
  )
]

-- Past the last process the loop comes round to index 0.
next_from-zero :
    (fuel i : ℕ) (t : ProcList)
    → i ≤ max_procs
    → max_procs < i + fuel
    → ((j : ℕ) → i ≤ j → j < max_procs → is_empty (t j) ≡ true)
    → is_empty (t 0) ≡ false
    → next_from fuel t (u16 i) ≡ some 0
unfolding next_from
next_from-zero zero i t lo enough null zeroth = absurd (omega arith)
next_from-zero (suc fuel) i t lo enough null zeroth = elim (ℕ_discrete i max_procs) [
  | yes e ↦ let round : u16 i ≡ 0 = omega arith in rw (round, next_from, zeroth)
  | no ne ↦
      let same : u16 i ≡ i = omega arith in
      rw (same, next_from, null i (omega arith) (omega arith))
        (next_from-zero fuel (i + 1) t (omega arith) (omega arith)
          (λ j lo' hi'. null j (omega arith) hi') zeroth)
]

First-cong :
    (i k : ℕ) (t t' : ProcList)
    → ((j : ℕ) → is_empty (t' j) ≡ is_empty (t j))
    → First t i k
    → First t' i k
First-cong i k t t' same f = record {
  from = f.from;
  below = f.below;
  live = same k ∙ f.live;
  skipped = λ j lo hi. same j ∙ f.skipped j lo hi;
}

-- The process after `c` in the order of the indices, going round behind the last.
pub data NextLive (t : ProcList) (c k : ℕ) : Type 0 where
  later : First t (c + 1) k → NextLive t c k
  round : ((j : ℕ) → c < j → j < max_procs → is_empty (t j) ≡ true) → First t 1 k → NextLive t c k

-- Whether there is a process behind index `c`.
search_after :
    (n i : ℕ) (t : ProcList)
    → ((k : ℕ) × (i ≤ k) × (k < i + n) × (is_empty (t k) ≡ false))
      ⊎ ((j : ℕ) → i ≤ j → j < i + n → is_empty (t j) ≡ true)
search_after zero i t = inr λ j lo hi. absurd (omega arith)
search_after (suc n) i t = elim (Bool-cases (is_empty (t i))) [
  | inr here ↦ inl (i, omega arith, omega arith, here)
  | inl null ↦ elim (search_after n (i + 1) t) [
    | inl (k, lo, hi, live) ↦ inl (k, omega arith, omega arith, live)
    | inr all ↦ inr λ j lo hi. elim (ℕ_discrete i j) [
      | yes e ↦ rw (← e) null
      | no ne ↦ all j (omega arith) (omega arith)
    ]
  ]
]

next_pid-later :
    (fuel c k : ℕ) (t : ProcList)
    → c + 1 < max_procs
    → 1 ≤ k
    → next_from fuel t (c + 1) ≡ some k
    → next_pid fuel t c ≡ some k
unfolding next_pid
next_pid-later fuel c k t hi pos run =
    let next : u16 (c + 1) ≡ c + 1 = omega arith in
    let nonzero : (k == 0) ≡ false = ground arith in rw (next, run, next_pid, nonzero)

next_pid-round :
    (fuel c k : ℕ) (t : ProcList)
    → 1 ≤ k
    → next_from fuel t (u16 (c + 1)) ≡ some 0
    → next_from fuel t 1 ≡ some k
    → next_pid fuel t c ≡ some k
unfolding next_pid
next_pid-round fuel c k t pos none_later run =
    let nonzero : (k == 0) ≡ false = ground arith in
    rw (none_later, next_pid, run, next_pid, nonzero)

pub next_pid-NextLive :
    (fuel c p : ℕ) (t : ProcList)
    → c < max_procs
    → 1 ≤ p
    → p < max_procs
    → max_procs ≤ fuel
    → is_empty (t p) ≡ false
    → is_empty (t 0) ≡ false
    → (k : ℕ) × (next_pid fuel t c ≡ some k) × NextLive t c k
next_pid-NextLive fuel c p t hc lo hi enough live zeroth =
    elim (search_after (max_procs - (c + 1)) (c + 1) t) [
      | inl (q, lo', hi', live') ↦
          let (k, run, f) =
            next_from-First fuel (c + 1) q t lo' (omega arith) (omega arith) live' in
          let bound = f.from in
          let bound' = f.below in
          (k, next_pid-later fuel c k t (omega arith) (omega arith) run, later f)
      | inr none_later ↦
          let (k, run, f) = next_from-First fuel 1 p t lo hi (omega arith) live in
          let after : (j : ℕ) → c < j → j < max_procs → is_empty (t j) ≡ true =
            λ j lo' hi'. none_later j (omega arith) (omega arith) in
          (
            k,
            next_pid-round fuel c k t f.from
                (next_from-zero fuel (c + 1) t (omega arith) (omega arith)
                  (λ j lo' hi'. after j (omega arith) hi') zeroth)
                run,
            round after f,
          )
    ]

pub NextLive-cong :
    (c k : ℕ) (t t' : ProcList)
    → ((j : ℕ) → is_empty (t' j) ≡ is_empty (t j))
    → NextLive t c k
    → NextLive t' c k
NextLive-cong c k t t' same (later f) = later (First-cong (c + 1) k t t' same f)
NextLive-cong c k t t' same (round all f) =
    round (λ j lo hi. same j ∙ all j lo hi) (First-cong 1 k t t' same f)
