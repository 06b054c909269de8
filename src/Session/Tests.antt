-- ===== src/Session/Tests.antt =====
-- A session whose threads are all made, and one whose second thread is not.
use sock_fuzzer.Common.{
  ℕ, Bool, true, false, none, some, steps, ◌≡◌, refl, ◌↔◌, length, if◌then◌else◌, ◌==◌,
}
use sock_fuzzer.Process.{Waited, reap_init_children}
use sock_fuzzer.Session.{thread2, ended, aborted, reap_loop, handle_session}
use sock_fuzzer.Session.Order.{Life, unborn, released, live, Mode, keep}
use sock_fuzzer.Session.Laws.{idle, given, handle_session-order}

-- Two children end, and a third one is not ready.
abbrev two_children : ℕ → (ℕ → Waited) × Bool
two_children call = (λ i. record { retval = if i == 2 then 0 else 9; empty = false }, false)

handle_session-order_example :
    let session = handle_session (given true true true (reap_loop two_children 5 3 0)) in
    ((l : Life) × (steps (live thread2) unborn session.0 ≡ some l)
      × ((l ≡ released) ↔ (true ≡ true)))
    × ((m : Mode) × (steps keep (idle false true false) session.0 ≡ some m)
        × (m.open_session ≡ false))
    × (session.1 ≡ ended)
unfolding reap_init_children
handle_session-order_example =
    handle_session-order true true true false true false false thread2 two_children 5 2 refl

no_second : (handle_session (given true false true none)).1 ≡ aborted
unfolding handle_session
no_second = refl

call_count : length (handle_session (given true true true (some 1))).0 ≡ 41
unfolding handle_session
call_count = refl
