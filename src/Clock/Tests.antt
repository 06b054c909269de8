-- ===== src/Clock/Tests.antt =====
-- Three milliseconds, and a clock that moves on.
use sock_fuzzer.Common.{◌≡◌, refl}
use sock_fuzzer.Clock.{Timestamp, clock_gettimeofday_set_commpage}

-- The page keeps what was stored last.
stamped : (stamp : Timestamp) → (clock_gettimeofday_set_commpage 1 2 3 4 5 stamp).g_frac ≡ 3
unfolding clock_gettimeofday_set_commpage
stamped stamp = refl
