-- ===== src/Clock.antt =====
-- fuzz/xnu/osfmk/fakes/clock.c: time, which stands still, and conversions between its units. Numbers
-- have 64 bits, and NSEC_PER_SEC is 10 ^ 9.
mod Laws
mod Tests
use sock_fuzzer.Common.{
  ℕ, zero, suc, Option, none, some, ltb, if◌then◌else◌, ◌+◌, ◌-◌, ◌*◌, ◌/◌, ◌%◌, ◌^◌,
}

abbrev pub nsec_per_sec : ℕ
nsec_per_sec = 1000000000

abbrev pub absolutetime_to_nanoseconds : (abstime : ℕ) → ℕ
absolutetime_to_nanoseconds abstime = abstime

unfoldable pub clock_interval_to_absolutetime_interval : (interval scale_factor : ℕ) → ℕ
clock_interval_to_absolutetime_interval interval scale_factor =
    let nanosecs : ℕ = interval * scale_factor % 2 ^ 64 in
    let t64 : ℕ = nanosecs / nsec_per_sec in
    (t64 * 1 + (nanosecs - t64 * nsec_per_sec) * 1 / nsec_per_sec) % 2 ^ 64

-- Seconds and microseconds.
unfoldable pub absolutetime_to_microtime : (abstime : ℕ) → ℕ × ℕ
absolutetime_to_microtime abstime =
    let t64 : ℕ = abstime / 1 in (t64, (abstime - t64 * 1) / 1 % 2 ^ 32)

abbrev pub mach_absolute_time : ℕ
mach_absolute_time = 0

abbrev pub clock_get_system_microtime : ℕ × ℕ
clock_get_system_microtime = absolutetime_to_microtime mach_absolute_time

-- Seconds and nanoseconds, at a time.
unfoldable pub system_nanotime : (abstime : ℕ) → ℕ × ℕ
system_nanotime abstime =
    let t64 : ℕ = abstime / 1 in (t64, (abstime - t64 * 1) * nsec_per_sec % 2 ^ 64 / 1 % 2 ^ 32)

abbrev pub clock_get_system_nanotime : ℕ × ℕ
clock_get_system_nanotime = system_nanotime mach_absolute_time

-- What commpage_set_timestamp stores.
pub record Timestamp : Type 0 where
  pub g_abstime : ℕ
  pub g_sec : ℕ
  pub g_frac : ℕ
  pub g_scale : ℕ
  pub g_tick_per_sec : ℕ

unfoldable pub clock_gettimeofday_set_commpage :
    (abstime sec frac scale tick_per_sec : ℕ) → Timestamp → Timestamp
clock_gettimeofday_set_commpage abstime sec frac scale tick_per_sec stamp = record {
  g_abstime = abstime;
  g_sec = sec;
  g_frac = frac;
  g_scale = scale;
  g_tick_per_sec = tick_per_sec;
}

-- The loop of machine_delay_until, for at most some rounds: how many times it yields, none if it has not
-- ended by then. `now` is what mach_absolute_time answers after each yield.
module _ (now : ℕ → ℕ) (deadline : ℕ) where
  unfoldable pub delay_rounds : (rounds i : ℕ) → Option ℕ
  delay_rounds zero i = none
  delay_rounds (suc rounds) i =
      let rest = delay_rounds rounds (suc i) in if ltb (now i) deadline then rest else some (suc i)

-- The loop with the time of this file.
abbrev pub machine_delay_until : (deadline rounds : ℕ) → Option ℕ
machine_delay_until deadline rounds = delay_rounds (λ i. mach_absolute_time) deadline rounds 0
