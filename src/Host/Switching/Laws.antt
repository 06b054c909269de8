-- ===== src/Host/Switching/Laws.antt =====
-- On ThreadSelect, SwitchFrom and ThreadBlock of fuzz/host/host.cc.
use sock_fuzzer.Common.{
  ℕ, suc, ◌+◌, ◌≤◌, Bool, true, false, not, ◌&&◌, ◌||◌, Option, none, List, [], ◌∷◌, ok, stop,
  aborted, if◌then◌else◌, ◌≡◌, refl, ap, ◌∙◌, ◌>>=◌, ◌≢◌, ◌↔◌, ◌⊎◌, inr, arith, ◌==◌,
}
use sock_fuzzer.Lock.{WaitResult}
use sock_fuzzer.Host.{
  Host, Scheduler, is_accepted, thread_t_to_handle, get_current_thread_t, get_wait_result,
}
use sock_fuzzer.Host.Flags.{is_runnable}
use sock_fuzzer.Host.Switching.{
  Continued, end_block, XnuCall, thread_enqueue_termination, thread_set_blocked, switch_from,
  thread_select, switch_to, still_running, thread_resumed, call_continuation, thread_block,
}

-- How often XNU is told to enqueue a thread for termination.
abbrev pub enqueues : List XnuCall → ℕ
enqueues [] = 0
enqueues (thread_enqueue_termination thread ∷ calls) = suc (enqueues calls)
enqueues (other ∷ calls) = enqueues calls

module _ {S Name : Type 0} (sched : Scheduler S) where
  -- Leaving a thread that the scheduler accepts leaves it runnable exactly if it does not wait, also
  -- where it is suspended. The thread counts as enqueued for termination afterwards exactly if it did
  -- before, or waits and is terminating.
  pub switch_from-runnable :
      (thread : ℕ) (host : Host S Name)
      → is_accepted sched (host.internal_to_handle thread) ≡ true
      → let left = (switch_from sched thread host).1 in
        (is_runnable sched left thread ≡ not (host.waiting thread))
        × (left.waiting thread ≡ host.waiting thread)
        × (left.enqueued thread
            ≡ (host.enqueued thread || (host.waiting thread && host.terminating thread)))
  unfolding switch_from thread_set_blocked
  switch_from-runnable thread host k =
      let handle : ℕ = thread_t_to_handle host thread in
      ground (
        arith,
        sched.make_runnable_lem handle handle host.scheduler,
        sched.make_not_runnable_lem handle handle host.scheduler,
      )

  -- A thread that is left twice is enqueued for termination at most once, whatever happens in between
  -- to anything but its mark of being enqueued. It is enqueued at once if it waits, is terminating and
  -- has no such mark.
  pub switch_from-enqueues :
      (thread : ℕ) (host later : Host S Name)
      → later.enqueued thread ≡ (switch_from sched thread host).1.enqueued thread
      → (enqueues (switch_from sched thread host).0 + enqueues (switch_from sched thread later).0
          ≤ 1)
        × ((enqueues (switch_from sched thread host).0 ≡ 1) ↔ (
            (host.waiting thread ≡ true)
            × (host.terminating thread ≡ true)
            × (host.enqueued thread ≡ false)))
  unfolding switch_from thread_set_blocked
  switch_from-enqueues thread host later same =
      (ground arith, (λ e. ground arith, λ h. ground arith))

  module _ (debug : Bool) (choose : Bool → S → ℕ × S) (main_handle main_thread : ℕ) where
    -- Selecting a thread asks the scheduler to go on with the current one only if that is runnable and
    -- neither terminating nor waiting nor suspended. It aborts exactly if the scheduler has no thread
    -- to run, the build is a debug build, and the main thread waits, and otherwise gives the
    -- scheduler's choice, or the main thread where there is none.
    pub thread_select-choice :
        (host : Host S Name)
        → let current = still_running sched debug choose main_handle main_thread host in
          let self = get_current_thread_t host in
          let chosen = choose current host.scheduler in
          ((current ≡ true) ↔ (
            (sched.is_runnable host.scheduler host.current_thread ≡ true)
            × (host.terminating self ≡ false)
            × (host.waiting self ≡ false)
            × (host.suspended self ≡ false)))
          × ((thread_select sched debug choose main_handle main_thread host ≡ stop aborted)
              ↔ ((chosen.0 ≡ 0) × (debug ≡ true) × (host.waiting main_thread ≡ true)))
          × ((thread_select sched debug choose main_handle main_thread host ≡ stop aborted)
              ⊎ (thread_select sched debug choose main_handle main_thread host
                  ≡ ok (
                    if chosen.0 == 0 then main_handle else chosen.0,
                    record host { scheduler = chosen.1 },
                  )))
    unfolding thread_select
    thread_select-choice host = (
      (λ e. ground arith, λ h. ground arith),
      (λ e. ground arith, λ h. ground arith),
      ground arith,
    )

    module _ (resumes : ℕ → Bool) (world : Host S Name → Host S Name) (here : ℕ) where
      resumed_plainly :
          (host : Host S Name) (self : ℕ)
          → get_current_thread_t host ≡ self
          → host.continuations self ≡ none
          → ((thread_resumed here host).0 ≡ none)
            × ((thread_resumed here host).1.waiting self ≡ false)
            × (get_wait_result (thread_resumed here host).1 self ≡ WaitResult.awakened)
      unfolding thread_resumed call_continuation
      resumed_plainly host self same e = (ground arith, ground arith, ground arith)

      ends_awakened :
          (self : ℕ) (r : Option Continued × Host S Name)
          → r.0 ≡ none
          → r.1.waiting self ≡ false
          → get_wait_result r.1 self ≡ WaitResult.awakened
          → end_block debug self r ≡ ok (inr WaitResult.awakened, r.1)
      ends_awakened self (continued, back) e idle result = ground arith

      switched_away :
          (host : Host S Name) (handle : ℕ)
          → handle ≢ host.current_thread
          → resumes handle ≡ true
          → let left = (switch_from sched (get_current_thread_t host) host).1 in
            switch_to sched debug choose main_handle main_thread resumes world here handle host
            ≡ thread_resumed here (record (world left) { current_thread = host.current_thread })
      unfolding switch_to
      switched_away host handle differs alive =
          let other : (handle == host.current_thread) ≡ false = ground arith in
          simp (other, alive) refl

      picked :
          (host : Host S Name) (handle : ℕ) (s : S)
          → choose (still_running sched debug choose main_handle main_thread host) host.scheduler
            ≡ (handle, s)
          → handle ≢ 0
          → thread_select sched debug choose main_handle main_thread host
            ≡ ok (handle, record host { scheduler = s })
      unfolding thread_select
      picked host handle s selected known = ground arith

      -- A thread that blocks, where another thread is selected and resumes, and that has no
      -- continuation when it runs again, has THREAD_AWAKENED as the result of its wait, whatever result
      -- others recorded for it in the meantime. It does not wait, and the block does not abort. The
      -- handle of the current thread keeps its thread in the meantime.
      pub thread_block-awakened :
          (host : Host S Name) (handle : ℕ) (s : S)
          → choose (still_running sched debug choose main_handle main_thread host) host.scheduler
            ≡ (handle, s)
          → handle ≢ 0
          → handle ≢ host.current_thread
          → resumes handle ≡ true
          → let self = get_current_thread_t host in
            let there = world (switch_from sched self (record host { scheduler = s })).1 in
            there.handle_to_internal host.current_thread
              ≡ host.handle_to_internal host.current_thread
            → there.continuations self ≡ none
            → (back : Host S Name) × (thread_block sched debug choose main_handle main_thread
                  resumes world here host
                ≡ ok (inr WaitResult.awakened, back))
              × (back.waiting self ≡ false)
      unfolding thread_block
      thread_block-awakened host handle s selected known differs alive kept plain =
          let self : ℕ = get_current_thread_t host in
          let chosen : Host S Name = record host { scheduler = s } in
          let there : Host S Name = world (switch_from sched self chosen).1 in
          let again : Host S Name = record there { current_thread = host.current_thread } in
          let same : get_current_thread_t again ≡ self = ground arith in
          let (silent, idle, result) = resumed_plainly again self same plain in
          (
            (thread_resumed here again).1,
            ap
                  (λ o. o >>= λ r. end_block debug self (
                    switch_to sched debug choose main_handle main_thread resumes world here r.0
                      r.1))
                  (picked host handle s selected known)
                ∙ ap (end_block debug self) (switched_away chosen handle differs alive)
                ∙ ends_awakened self (thread_resumed here again) silent idle result,
            idle,
          )
