-- ===== src/Session/Order.antt =====
-- What a session owes to each of its threads and to the host, as two automata over its calls.
use sock_fuzzer.Common.{Bool, true, false, not, ◌&&◌, Option, none, some, if◌then◌else◌}
use sock_fuzzer.Session.{
  SessionThread, thread1, thread2, thread3, SessionCall, begin_session, end_session,
  set_interrupts_enabled, set_ready_for_preemption, set_data_provider, cloneproc,
  main_thread_create_waiting, set_continuation, run_until_empty, thread_abort, thread_deallocate,
  kill_all_non_init_procs,
}

-- A thread is made, is given a continuation before anything runs, runs, is aborted, runs
-- once more to see that, and is released.
pub data Life : Type 0 where
  unborn born ready ran stopping gone released : Life

abbrev pub same : SessionThread → SessionThread → Bool
same thread1 thread1 = true
same thread2 thread2 = true
same thread3 thread3 = true
same _ _ = false

abbrev make : Life → Option Life
make unborn = some born
make _ = none

abbrev continue_with : Life → Option Life
continue_with born = some ready
continue_with _ = none

abbrev run : Life → Option Life
run born = none
run ready = some ran
run stopping = some gone
run l = some l

abbrev abort : Life → Option Life
abort ran = some stopping
abort _ = none

abbrev free : Life → Option Life
free gone = some released
free _ = none

abbrev pub live : SessionThread → Life → SessionCall → Option Life
live t l (cloneproc u) = if same t u then make l else some l
live t l (main_thread_create_waiting u _) = if same t u then make l else some l
live t l (set_continuation u commands) = if same t u then continue_with l else some l
live t l run_until_empty = run l
live t l (thread_abort u) = if same t u then abort l else some l
live t l (thread_deallocate u) = if same t u then free l else some l
live t l _ = some l

-- The flags of the host that the session sets.
pub record Mode : Type 0 where
  pub open_session : Bool
  pub interrupts : Bool
  pub preemption : Bool
  pub provider : Bool

-- Threads run only in an open session with the bytes of the test case at hand, processes end with interrupts off, and
-- the session closes without those bytes.
abbrev pub keep : Mode → SessionCall → Option Mode
keep m begin_session = if m.open_session then none else some (record m { open_session = true })
keep m (set_interrupts_enabled on) = some (record m { interrupts = on })
keep m (set_ready_for_preemption on) =
    if on && not m.provider then none else some (record m { preemption = on })
keep m (set_data_provider on) = some (record m { provider = on })
keep m run_until_empty = if m.open_session && m.provider then some m else none
keep m kill_all_non_init_procs = if m.interrupts then none else some m
keep m end_session =
    if m.open_session && not m.provider then some (record m { open_session = false }) else none
keep m _ = some m
