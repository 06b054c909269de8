-- ===== src/Thread/Stop/Laws.antt =====
-- On the loops of XNUThreadStop and XNUThreadWait of fuzz/xnu/osfmk/api/thread.c.
use sock_fuzzer.Common.{ℕ, zero, suc, ◌+◌, ◌≤◌, ◌<◌, ◌≡◌, refl, Bool, true, false, some, arith}
use sock_fuzzer.Thread.{Thread, set_suspended, set_not_suspended}
use sock_fuzzer.Thread.Stop.{
  Turn, is_awakened, await_wake, until_not_suspended, until_stopped, thread_stop, thread_wait,
}

-- Suspending a thread that is not suspended stops it, and lifting the suspension gives it back as it
-- was.
pub set_not_suspended-set_suspended :
    (t : Thread)
    → t.suspended ≡ false
    → t.suspended_runnable ≡ false
    → (set_not_suspended (set_suspended t) ≡ t)
      × ((set_suspended t).suspended ≡ true)
      × ((set_suspended t).runnable ≡ false)
unfolding set_suspended set_not_suspended
set_not_suspended-set_suspended t a b =
    (back t.suspended t.suspended_runnable t.runnable a b, ground arith, ground arith)
  where
    back :
        (s r u : Bool)
        → s ≡ false
        → r ≡ false
        → let t' = record t { suspended = s; suspended_runnable = r; runnable = u } in
          set_not_suspended (set_suspended t') ≡ t'
    back true r u a' b' = absurd (ground arith)
    back false true u a' b' = absurd (ground arith)
    back false false true a' b' = refl
    back false false false a' b' = refl

set_suspended_lem :
    (t : Thread) → ((set_suspended t).suspended ≡ true) × ((set_suspended t).runnable ≡ false)
unfolding set_suspended
set_suspended_lem t = (ground arith, ground arith)

module _ (world : ℕ → Turn) where
  -- The thread after `k` turns, the first of which is number `i`.
  abbrev pub after_turns : (k i : ℕ) → Thread → Thread
  after_turns zero i t = t
  after_turns (suc k) i t = after_turns k (i + 1) (await_wake (world i) t).1

  -- Each of `k` turns finds the thread suspended and ends with THREAD_AWAKENED.
  unfoldable pub AllAwakened : (k i : ℕ) → Thread → Type 0
  AllAwakened zero i t = Unit
  AllAwakened (suc k) i t =
      (t.suspended ≡ true)
      × (is_awakened (await_wake (world i) t).0 ≡ true)
      × AllAwakened k (i + 1) (await_wake (world i) t).1

  until_not_suspended-end :
      (k n i : ℕ) (t : Thread)
      → k ≤ n
      → AllAwakened k i t
      → (after_turns k i t).suspended ≡ false
      → until_not_suspended world n i t ≡ some (true, after_turns k i t)
  unfolding until_not_suspended AllAwakened
  until_not_suspended-end zero zero i t le h e = ground arith
  until_not_suspended-end zero (suc n) i t le h e = ground arith
  until_not_suspended-end (suc k) zero i t le h e = absurd (omega arith)
  until_not_suspended-end (suc k) (suc n) i t le h e =
      simp (h.0, h.1)
        (until_not_suspended-end k n (i + 1) (await_wake (world i) t).1 (omega arith) h.2 e)

  until_not_suspended-fail :
      (k n i : ℕ) (t : Thread)
      → k < n
      → AllAwakened k i t
      → (after_turns k i t).suspended ≡ true
      → is_awakened (await_wake (world (k + i)) (after_turns k i t)).0 ≡ false
      → until_not_suspended world n i t
        ≡ some (false, (await_wake (world (k + i)) (after_turns k i t)).1)
  unfolding until_not_suspended AllAwakened
  until_not_suspended-fail zero zero i t lt h e f = absurd (omega arith)
  until_not_suspended-fail (suc k) zero i t lt h e f = absurd (omega arith)
  until_not_suspended-fail zero (suc n) i t lt h e f =
      let start : 0 + i ≡ i = omega arith in
      let f' : is_awakened (await_wake (world i) t).0 ≡ false = rw start at f in
      rw start (simp (e, f') refl)
  until_not_suspended-fail (suc k) (suc n) i t lt h e f =
      let next : k + (i + 1) ≡ suc k + i = omega arith in
      let ih =
        until_not_suspended-fail k n (i + 1) (await_wake (world i) t).1 (omega arith) h.2 e
          (rw next f) in
      simp (h.0, h.1) (rw next at ih)

  until_stopped-at_once :
      (until_not_runnable : Bool) (n i : ℕ) (t : Thread)
      → t.runnable ≡ false
      → until_stopped world until_not_runnable n i t ≡ some (true, t)
  unfolding until_stopped
  until_stopped-at_once until_not_runnable zero i t e = ground arith
  until_stopped-at_once until_not_runnable (suc n) i t e = ground arith

  -- Once every turn until the thread is no longer suspended has ended with THREAD_AWAKENED,
  -- XNUThreadStop ends, with success, and leaves the thread suspended and not runnable. The second loop
  -- makes no turn, since suspending a thread stops it, whether or not `until_not_runnable` is set.
  pub thread_stop-end :
      (until_not_runnable : Bool) (k n : ℕ) (t : Thread)
      → k ≤ n
      → AllAwakened k 0 t
      → (after_turns k 0 t).suspended ≡ false
      → (thread_stop world until_not_runnable n t ≡ some (true, set_suspended (after_turns k 0 t)))
        × ((set_suspended (after_turns k 0 t)).suspended ≡ true)
        × ((set_suspended (after_turns k 0 t)).runnable ≡ false)
  unfolding thread_stop
  thread_stop-end until_not_runnable k n t le h e =
      let s = set_suspended_lem (after_turns k 0 t) in
      (
        rw (thread_stop, until_not_suspended-end k n 0 t le h e)
            (until_stopped-at_once until_not_runnable n n _ s.1),
        s.0,
        s.1,
      )

  -- If a turn of the first loop ends with anything but THREAD_AWAKENED while the thread is still
  -- suspended, XNUThreadStop fails and leaves the thread as that turn left it.
  pub thread_stop-fail :
      (until_not_runnable : Bool) (k n : ℕ) (t : Thread)
      → k < n
      → AllAwakened k 0 t
      → (after_turns k 0 t).suspended ≡ true
      → is_awakened (await_wake (world k) (after_turns k 0 t)).0 ≡ false
      → thread_stop world until_not_runnable n t
        ≡ some (false, (await_wake (world k) (after_turns k 0 t)).1)
  unfolding thread_stop
  thread_stop-fail until_not_runnable k n t lt h e f =
      let start : k + 0 ≡ k = omega arith in
      rw (thread_stop, until_not_suspended-fail k n 0 t lt h e (rw start f), start) refl

  -- XNUThreadWait ends at the first turn that finds the thread not runnable, whatever the waits
  -- before it answered. Without `until_not_runnable` it makes no turn at all.
  pub thread_wait-end :
      (k n i : ℕ) (t : Thread)
      → k ≤ n
      → ((j : ℕ) → j < k → (after_turns j i t).runnable ≡ true)
      → (after_turns k i t).runnable ≡ false
      → (thread_wait world true n i t ≡ some (after_turns k i t))
        × (thread_wait world false n i t ≡ some t)
  unfolding thread_wait
  thread_wait-end zero zero i t le h e = (ground arith, refl)
  thread_wait-end zero (suc n) i t le h e = (ground arith, refl)
  thread_wait-end (suc k) zero i t le h e = absurd (omega arith)
  thread_wait-end (suc k) (suc n) i t le h e =
      let rest =
        thread_wait-end k n (i + 1) (await_wake (world i) t).1 (omega arith)
          (λ j lt. h (suc j) (omega arith)) e in
      (simp (h zero (omega arith)) rest.0, refl)
