-- ===== src/Timer/Tests.antt =====
-- The clock at concrete states, and the theorems at them.
use l_ost.Common.{◌/◌, ◌≡◌, refl, true, false, arith, leb}
use l_ost.Timer.{Clock, wait_secs, wait_ticks, count_tick}
use l_ost.Timer.Waits.{after, wait_secs-after}

abbrev clock : Clock
clock = record { ticks = 40; seconds = 2; secs_start = 0; ticks_start = 0 }

waits_five_ticks : (wait_ticks 0 (after 5 (wait_ticks 5 clock).1)).0 ≡ true
unfolding wait_ticks after count_tick
waits_five_ticks = refl

wait_secs-after_example :
    ((wait_secs 1 clock).0 ≡ false)
    × ((wait_secs 0 (after 20 (wait_secs 1 clock).1)).0 ≡ leb 3 (60 / 18))
wait_secs-after_example = wait_secs-after 1 20 clock (omega arith) refl (omega arith) (omega arith)
