-- ===== src/Host/Registration.antt =====
-- CreateThread, SetCurrentThreadT and ThreadDestroyed of fuzz/host/host.cc: the two maps between
-- threads and handles, and what is forgotten with a thread.
pub mod Laws
pub mod Recycled
use sock_fuzzer.Common.{
  ℕ, Bool, true, false, not, ◌&&◌, none, some, Outcome, ok, stop, aborted, if◌then◌else◌, ◌==◌,
  is_some, update,
}
use sock_fuzzer.Host.{Host, handle_to_thread_t}

module _ {S Name : Type 0} where
  -- Handle and thread are entered into both maps, over what stood there.
  abbrev pub enter : (thread handle : ℕ) → Host S Name → Host S Name
  enter thread handle host = record host {
    internal_to_handle = update host.internal_to_handle thread (some handle);
    handle_to_internal = update host.handle_to_internal handle (some thread);
  }

  -- `created` is what the scheduler's CreateThread answers: the handle and its state. `debug` is a
  -- build without NDEBUG.
  unfoldable pub create_thread :
      (debug : Bool) → (created : ℕ × S) → (thread : ℕ) → Host S Name → Outcome (ℕ × Host S Name)
  create_thread debug created thread host =
      if debug && not (thread == 0) && is_some (host.internal_to_handle thread)
      then stop aborted
      else if debug && is_some (host.handle_to_internal created.0)
      then stop aborted
      else ok (created.0, enter thread created.0 (record host { scheduler = created.1 }))

  unfoldable pub set_current_thread_t : (thread : ℕ) → Host S Name → Host S Name
  set_current_thread_t thread host = enter thread host.current_thread host

  -- Neither suspended_runnable_ nor readable_ids_ nor names_ is erased.
  abbrev pub forget : (handle thread : ℕ) → Host S Name → Host S Name
  forget handle thread host = record host {
    internal_to_handle = update host.internal_to_handle thread none;
    handle_to_internal = update host.handle_to_internal handle none;
    entry_contexts = update host.entry_contexts handle false;
    stack_pointers = update host.stack_pointers handle none;
    continuations = update host.continuations thread none;
    copyin_blocked = update host.copyin_blocked handle 0;
    suspended = update host.suspended thread false;
    terminating = update host.terminating thread false;
    waiting = update host.waiting thread false;
    wait_report = update host.wait_report thread false;
    uninterruptible = update host.uninterruptible thread false;
    enqueued = update host.enqueued thread false;
    wait_results = update host.wait_results thread none;
  }

  unfoldable pub thread_destroyed : (handle : ℕ) → Host S Name → Host S Name
  thread_destroyed handle host = forget handle (handle_to_thread_t host handle) host
