-- ===== src/Lock/Sleep/Laws.antt =====
-- On the functions of fuzz/xnu/osfmk/fakes/locks.c that sleep on a lock.
use sock_fuzzer.Common.{
  ℕ, Bool, true, false, Option, none, some, List, [], ◌∷◌, ◌++◌, Outcome, ok, stop, panicked, ◌≡◌,
  ◌≤◌, ◌<◌, refl, if◌then◌else◌, arith, Bool-cases, inl, inr, ◌∙◌, ap, ◌==◌, ◌/◌, ◌%◌,
}
use sock_fuzzer.Lock.Action
use sock_fuzzer.Lock.{
  WaitResult, is_waiting, RwType, Mode, spin, mutex, mutex_spin, mutex_spin_always, rw_lock,
  LockCall, floor_end, Answers,
}
use sock_fuzzer.Lock.Discipline.{View, at_rest, step, run}
use sock_fuzzer.Lock.Sleep.{
  sleep_on, with_floor, rw_retake, mtx_retake, mtx_deadline_retake, lck_spin_sleep_grp,
  lck_spin_sleep_deadline, lck_rw_sleep, lck_mtx_sleep, lck_mtx_sleep_deadline,
}

-- How the lock is held after a sleep that began with `held` and would take `retake`.
abbrev pub held_after : (action : ℕ) → (held retake : Mode) → Answers → Option Mode
held_after action held retake s =
    if Action.unlocks action then none else some (if is_waiting s.asserted then retake else held)

-- How a mutex is held after a sleep that the bits of `action` describe.
abbrev pub asked_mode : (action : ℕ) → Mode
asked_mode action =
    if action / 8 % 2 == 1
    then mutex_spin
    else if action / 32 % 2 == 1
    then mutex_spin_always
    else mutex

abbrev pub asked_after : (action : ℕ) → (held : Mode) → Answers → Option Mode
asked_after action held s =
    if action % 2 == 1
    then none
    else some (if is_waiting s.asserted then asked_mode action else held)

abbrev pub result_of : Answers → WaitResult
result_of s = if is_waiting s.asserted then s.blocked else s.asserted

sleep_on-run :
    (action event interruptible : ℕ) (deadline : Option ℕ) (held retake : Mode) (s : Answers)
    (f : Bool)
    → run
        (record (at_rest (some held)) { floor = f })
        (sleep_on action event interruptible deadline retake s).0
      ≡ some (record (at_rest (held_after action held retake s)) { floor = f })
unfolding sleep_on run
sleep_on-run action event interruptible deadline held retake s f = ground arith

run-append : (v w : View) (xs ys : List LockCall) → run v xs ≡ some w → run v (xs ++ ys) ≡ run w ys
unfolding run
run-append v w [] ys e = ap (λ (u : Option View). elim u [ none ↦ none | some u' ↦ run u' ys ]) e
run-append v w (c ∷ cs) ys e = go (step v c) (λ v'. run-append v' w cs ys) e
  where
    go :
        (o : Option View)
        → ((v' : View) → run v' cs ≡ some w → run v' (cs ++ ys) ≡ run w ys)
        → (elim o [ none ↦ none | some v' ↦ run v' cs ]) ≡ some w
        → (elim o [ none ↦ none | some v' ↦ run v' (cs ++ ys) ]) ≡ run w ys
    go none ih e = cc
    go (some v') ih e = ih v' e

with_floor-run :
    (action : ℕ) (held : Mode) (after : Option Mode) (r : List LockCall × WaitResult)
    → ((f : Bool)
        → run (record (at_rest (some held)) { floor = f }) r.0
          ≡ some (record (at_rest after) { floor = f }))
    → (run (at_rest (some held)) (with_floor action r).0 ≡ some (at_rest after))
      × ((with_floor action r).1 ≡ r.1)
unfolding run
with_floor-run action held after r h = elim (Bool-cases (Action.promotes action)) [
  | inl p ↦ rw p (run-append _ _ r.0 (floor_end ∷ []) (h true), refl)
  | inr p ↦ rw p (h false, refl)
]

-- The sleep returns: no call is out of order, the lock ends as `after`, and the result is `result`.
abbrev pub Sleeps :
    Outcome (List LockCall × WaitResult)
    → (held : Mode) → (after : Option Mode) → WaitResult
    → Type 0
Sleeps o held after result =
    (r : List LockCall × WaitResult) × (o ≡ ok r)
    × (run (at_rest (some held)) r.0 ≡ some (at_rest after))
    × (r.1 ≡ result)

sleep_on-result :
    (action event interruptible : ℕ) (deadline : Option ℕ) (retake : Mode) (s : Answers)
    → (sleep_on action event interruptible deadline retake s).1 ≡ result_of s
unfolding sleep_on
sleep_on-result action event interruptible deadline retake s = ground arith

module _ (action event interruptible : ℕ) (s : Answers) (valid : action < 64) where
  known : Action.is_invalid action ≡ false
  known = ground arith

  floored :
      (deadline : Option ℕ) (held retake : Mode)
      → Sleeps
          (ok (with_floor action (sleep_on action event interruptible deadline retake s)))
          held
          (held_after action held retake s)
          (result_of s)
  floored deadline held retake =
      let f =
        with_floor-run action held (held_after action held retake s)
          (sleep_on action event interruptible deadline retake s)
          (sleep_on-run action event interruptible deadline held retake s) in
      (_, refl, f.0, f.1 ∙ sleep_on-result action event interruptible deadline retake s)

  -- A valid sleep on a spin lock keeps the calls in order. It ends with the lock held,
  -- or released if LCK_SLEEP_UNLOCK is set, and with the result of the block, or of assert_wait
  -- where that gives anything but THREAD_WAITING.
  pub lck_spin_sleep_grp-Sleeps :
      Sleeps
        (lck_spin_sleep_grp action event interruptible s)
        spin
        (held_after action spin spin s)
        (result_of s)
  unfolding lck_spin_sleep_grp
  lck_spin_sleep_grp-Sleeps = rw known (
    _,
    refl,
    sleep_on-run action event interruptible none spin spin s false,
    sleep_on-result action event interruptible none spin s,
  )

  -- With a deadline the sleep on a spin lock ends in the same way, whatever the deadline is.
  pub lck_spin_sleep_deadline-Sleeps :
      (deadline : ℕ)
      → Sleeps
          (lck_spin_sleep_deadline action event interruptible deadline s)
          spin
          (held_after action spin spin s)
          (result_of s)
  unfolding lck_spin_sleep_deadline
  lck_spin_sleep_deadline-Sleeps deadline = rw known (
    _,
    refl,
    sleep_on-run action event interruptible (some deadline) spin spin s false,
    sleep_on-result action event interruptible (some deadline) spin s,
  )

  -- A valid sleep on a reader-writer lock keeps the calls in order, inside a priority floor if one is
  -- asked for. After a wait the lock is held exclusively if LCK_SLEEP_EXCLUSIVE is set, shared if
  -- only LCK_SLEEP_SHARED is, and as before if neither is; LCK_SLEEP_UNLOCK releases it.
  pub lck_rw_sleep-Sleeps :
      (held : RwType)
      → Sleeps
          (lck_rw_sleep action event interruptible held s)
          (rw_lock held)
          (held_after action (rw_lock held) (rw_retake action held) s)
          (result_of s)
  unfolding lck_rw_sleep
  lck_rw_sleep-Sleeps held = rw known (floored none (rw_lock held) (rw_retake action held))

  mtx_sleep-retake :
      (held : Mode)
      → Sleeps
          (lck_mtx_sleep action event interruptible s)
          held
          (held_after action held (mtx_retake action) s)
          (result_of s)
  unfolding lck_mtx_sleep
  mtx_sleep-retake held = rw known (floored none held (mtx_retake action))

  -- A valid sleep on a mutex keeps the calls in order, and ends the priority floor if it starts one.
  -- The mutex is released if bit 0 of the action is set, LCK_SLEEP_UNLOCK. If not, it is held as before where
  -- assert_wait gives anything but THREAD_WAITING; after a wait it is held in spin mode if bit 3 is set,
  -- LCK_SLEEP_SPIN, else in spin-always mode if bit 5 is set, LCK_SLEEP_SPIN_ALWAYS, else as an ordinary mutex.
  -- The result is that of the block, or of assert_wait where that gives anything but THREAD_WAITING.
  pub lck_mtx_sleep-Sleeps :
      (held : Mode)
      → Sleeps
          (lck_mtx_sleep action event interruptible s)
          held
          (asked_after action held s)
          (result_of s)
  lck_mtx_sleep-Sleeps held =
      let asked : held_after action held (mtx_retake action) s ≡ asked_after action held s =
        ground arith in
      rw (← asked) (mtx_sleep-retake held)

  -- A valid sleep on a mutex with a deadline keeps the calls in order. After a wait the mutex is held
  -- in spin mode if LCK_SLEEP_SPIN is set and as an ordinary mutex if not, unless it is released.
  pub lck_mtx_sleep_deadline-Sleeps :
      (deadline : ℕ) (held : Mode)
      → Sleeps
          (lck_mtx_sleep_deadline action event interruptible deadline s)
          held
          (held_after action held (mtx_deadline_retake action) s)
          (result_of s)
  unfolding lck_mtx_sleep_deadline
  lck_mtx_sleep_deadline-Sleeps deadline held =
      rw known (floored (some deadline) held (mtx_deadline_retake action))

-- The two mutex sleeps differ: with LCK_SLEEP_SPIN_ALWAYS set and LCK_SLEEP_SPIN and
-- LCK_SLEEP_UNLOCK clear, a wait without a deadline takes the mutex back in spin-always mode, a wait
-- with one takes it back as an ordinary mutex.
pub lck_mtx_sleep_spin_always :
    (action event interruptible deadline : ℕ) (s : Answers) (held : Mode)
    → action < 64
    → Action.takes_spin_always action ≡ true
    → Action.takes_spin action ≡ false
    → Action.unlocks action ≡ false
    → is_waiting s.asserted ≡ true
    → Sleeps (lck_mtx_sleep action event interruptible s) held (some mutex_spin_always) s.blocked
      × Sleeps
          (lck_mtx_sleep_deadline action event interruptible deadline s)
          held
          (some mutex)
          s.blocked
lck_mtx_sleep_spin_always action event interruptible deadline s held valid always once unlocks
      waits =
    let plain = mtx_sleep-retake action event interruptible s valid held in
    let timed = lck_mtx_sleep_deadline-Sleeps action event interruptible s valid deadline held in
    (rw (once, always, unlocks, waits) at plain, rw (once, unlocks, waits) at timed)

-- With a bit outside LCK_SLEEP_MASK every one of the five panics before it makes a call.
pub sleep_panics :
    (action event interruptible deadline : ℕ) (held : RwType) (s : Answers)
    → 64 ≤ action
    → (lck_spin_sleep_grp action event interruptible s ≡ stop panicked)
      × (lck_spin_sleep_deadline action event interruptible deadline s ≡ stop panicked)
      × (lck_rw_sleep action event interruptible held s ≡ stop panicked)
      × (lck_mtx_sleep action event interruptible s ≡ stop panicked)
      × (lck_mtx_sleep_deadline action event interruptible deadline s ≡ stop panicked)
unfolding lck_spin_sleep_grp lck_spin_sleep_deadline lck_rw_sleep lck_mtx_sleep
    lck_mtx_sleep_deadline
sleep_panics action event interruptible deadline held s h =
    let bad : Action.is_invalid action ≡ true = ground arith in
    rw bad (refl, refl, refl, refl, refl)
