-- ===== src/Timer/Waits.antt =====
-- How long the waits wait.
use l_ost.Common.{
  ℕ, zero, suc, ◌+◌, ◌-◌, ◌/◌, ◌^◌, ◌<◌, ◌≡◌, ◌≢◌, refl, false, arith, leb, ◌==◌, u32,
}
use l_ost.Timer.{Clock, count_tick, wait_secs}

-- `n` interrupts, one after the other.
unfoldable pub after : ℕ → Clock → Clock
after zero c = c
after (suc n) c = after n (count_tick c)

after-starts :
    (n : ℕ) (c : Clock)
    → ((after n c).secs_start ≡ c.secs_start) × ((after n c).ticks_start ≡ c.ticks_start)
unfolding after count_tick
after-starts zero c = (refl, refl)
after-starts (suc n) c = after-starts n (count_tick c)

one_tick : (c : Clock) → c.ticks + 1 < 2 ^ 32 → (count_tick c).ticks ≡ c.ticks + 1
unfolding count_tick
one_tick c h = omega arith

one_second :
    (c : Clock)
    → c.seconds ≡ c.ticks / 18
    → c.ticks + 1 < 2 ^ 32
    → (count_tick c).seconds ≡ (c.ticks + 1) / 18
unfolding count_tick
one_second c h wide = ground arith

-- From counters that agree, and while the ticks do not wrap, `n` interrupts count `n` ticks, and
-- the seconds stay the eighteenth part of the ticks.
pub after-counters :
    (n : ℕ) (c : Clock)
    → c.seconds ≡ c.ticks / 18
    → c.ticks + n < 2 ^ 32
    → ((after n c).ticks ≡ c.ticks + n) × ((after n c).seconds ≡ (c.ticks + n) / 18)
unfolding after
after-counters zero c h wide = (omega arith, omega arith)
after-counters (suc n) c h wide =
    let tick = one_tick c (omega arith) in
    let second = one_second c h (omega arith) in
    let agree : (count_tick c).seconds ≡ (count_tick c).ticks / 18 = omega arith in
    let small : (count_tick c).ticks + n < 2 ^ 32 = omega arith in
    let rest = after-counters n (count_tick c) agree small in
    (omega (arith, rest.0), omega (arith, rest.1, tick))

-- `wait_secs(count)` says that the time is not over, and after `n` interrupts `wait_secs(0)` says
-- that it is over exactly when the second counter has moved on by `count`; while nothing wraps.
pub wait_secs-after :
    (count n : ℕ) (c : Clock)
    → count ≢ 0
    → c.seconds ≡ c.ticks / 18
    → c.ticks + n < 2 ^ 32
    → c.seconds + count < 2 ^ 32
    → ((wait_secs count c).0 ≡ false)
      × ((wait_secs 0 (after n (wait_secs count c).1)).0
          ≡ leb (c.seconds + count) ((c.ticks + n) / 18))
unfolding wait_secs
wait_secs-after count n c pos agree small wide =
    let start : u32 (c.seconds + count + 2 ^ 32 - 1) ≡ c.seconds + count - 1 = omega arith in
    let set : Clock = record c { secs_start = u32 (c.seconds + count + 2 ^ 32 - 1) } in
    let nonzero : (count == 0) ≡ false = ground arith in
    let later = after-counters n set agree small in
    let kept = (after-starts n set).0 in
    (rw (nonzero, start) (ground arith), rw (nonzero, kept, later.1, start) (ground arith))
