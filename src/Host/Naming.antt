-- ===== src/Host/Naming.antt =====
-- GetId, SetId, SetThreadName and DescribeThreadHandle of fuzz/host/host.cc: the printed name of a
-- thread.
pub mod Laws
use sock_fuzzer.Common.{ℕ, Option, none, some, ◌+◌, ◌%◌, ◌^◌, update}
use sock_fuzzer.Host.{Host, thread_t_to_handle}

module _ {S Name : Type 0} where
  unfoldable pub get_id : (handle : ℕ) → Host S Name → ℕ × Host S Name
  get_id handle host = elim (host.readable_ids handle) [
    | some id ↦ (id, host)
    | none ↦ (
      host.next_thread_id,
      record host {
        next_thread_id = (host.next_thread_id + 1) % 2 ^ 32;
        readable_ids = update host.readable_ids handle (some host.next_thread_id);
      },
    )
  ]

  -- XNU and the scheduler are told the name too.
  unfoldable pub set_thread_name : (thread : ℕ) → Name → Host S Name → Host S Name
  set_thread_name thread name host = record host {
    names = update host.names (thread_t_to_handle host thread) (some name);
  }

-- `user` and `kernel` print a number after the word.
module _ {S Name : Type 0} (user kernel : ℕ → Name) where
  unfoldable pub set_id : (thread id : ℕ) → Host S Name → Host S Name
  set_id thread id host =
      let handle : ℕ = thread_t_to_handle host thread in
      let numbered : Host S Name = record host {
        readable_ids = update host.readable_ids handle (some id);
      } in
      elim (host.names handle) [
        | some name ↦ numbered
        | none ↦ record numbered { names = update host.names handle (some (user id)) }
      ]

  unfoldable pub describe_thread_handle : (handle : ℕ) → Host S Name → Name × Host S Name
  unfolding get_id
  describe_thread_handle handle host = elim (host.names handle) [
    | some name ↦ (name, host)
    | none ↦ let (id, host') = get_id handle host in (kernel id, host')
  ]
