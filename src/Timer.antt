-- ===== src/Timer.antt =====
-- The clock of kernel/drivers/timer.c: the tick counter and the two waits.
pub mod Waits
mod Tests
use l_ost.Common.{
  ℕ, zero, suc, ◌+◌, ◌-◌, ◌*◌, ◌/◌, ◌%◌, ◌^◌, ◌≤◌, ◌<◌, ◌≡◌, ◌≢◌, refl, sym, ap, ◌∙◌, ◌↔◌, ◌⊎◌, inl,
  inr, Bool, true, false, ◌&&◌, ◌||◌, not, Option, none, some, List, [], ◌∷◌, ◌++◌, arith,
  ℕ_discrete, dec_lt, ltb, leb, ◌==◌, if◌then◌else◌, Bool-cases, Option-cases, length, u8, u16, u32,
  mask, bit_field, slt, promote,
}

-- The file's variables, and the `static int start` of each wait.
pub record Clock : Type 0 where
  pub ticks : ℕ
  pub seconds : ℕ
  pub secs_start : ℕ
  pub ticks_start : ℕ

-- `irq0_timer_handler` up to its call of the scheduler.
pub count_tick : Clock → Clock
count_tick c = record c {
  ticks = u32 (c.ticks + 1);
  seconds = if u32 (c.ticks + 1) % 18 == 0 then u32 (c.seconds + 1) else c.seconds;
}

pub wait_secs : (count : ℕ) → Clock → Bool × Clock
wait_secs count c = if count == 0 then (ltb c.secs_start c.seconds, c) else (
  ltb (u32 (c.seconds + count + 2 ^ 32 - 1)) c.seconds,
  record c { secs_start = u32 (c.seconds + count + 2 ^ 32 - 1) },
)

pub wait_ticks : (count : ℕ) → Clock → Bool × Clock
wait_ticks count c = if count == 0 then (ltb c.ticks_start c.ticks, c) else (
  ltb (u32 (c.ticks + count + 2 ^ 32 - 1)) c.ticks,
  record c { ticks_start = u32 (c.ticks + count + 2 ^ 32 - 1) },
)
