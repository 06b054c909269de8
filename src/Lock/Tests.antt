-- ===== src/Lock/Tests.antt =====
-- Concrete sleeps: actions by their bits, a thread that waits and is woken.
use sock_fuzzer.Common.{◌≡◌, refl, some, arith}
use sock_fuzzer.Lock.{WaitResult, spin, ticket, mutex, mutex_spin_always, Answers}
use sock_fuzzer.Lock.Sleep.{lck_mtx_sleep}
use sock_fuzzer.Lock.Sleep.Laws.{Sleeps, lck_mtx_sleep-Sleeps}
use sock_fuzzer.Lock.Turnstile.{
  lck_sleep_with_inheritor, lck_spin_sleep_with_inheritor, lck_ticket_sleep_with_inheritor,
}

-- The thread waits, and its event wakes it.
abbrev woken : Answers
woken = record { asserted = WaitResult.waiting; blocked = WaitResult.awakened }

lck_mtx_sleep-Sleeps_example :
    Sleeps (lck_mtx_sleep 48 77 1 woken) mutex (some mutex_spin_always) WaitResult.awakened
lck_mtx_sleep-Sleeps_example = lck_mtx_sleep-Sleeps 48 77 1 woken (omega arith) mutex

-- The spin lock's and the ticket lock's function are instances of the one that the theorem is about.
inheritor_callers :
    (lck_spin_sleep_with_inheritor 1 77 5 1 0 woken
      ≡ lck_sleep_with_inheritor spin 1 77 5 1 0 woken)
    × (lck_ticket_sleep_with_inheritor 1 77 5 1 0 woken
        ≡ lck_sleep_with_inheritor ticket 1 77 5 1 0 woken)
unfolding lck_spin_sleep_with_inheritor lck_ticket_sleep_with_inheritor
inheritor_callers = (refl, refl)
