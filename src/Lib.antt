-- ===== src/Lib.antt =====
-- The kernel side of SockFuzzer: the C code that stands in for the parts of XNU which the fuzzer does
-- not link, and the interface between that kernel and the host program that schedules its threads.
-- The host (fuzz/host) runs kernel threads one at a time and answers hypercalls; the fakes
-- (fuzz/xnu/osfmk/fakes, fuzz/xnu/bsd/fakes) replace XNU's allocator, locks and thread switching by
-- code over libc and hypercalls; the interface (fuzz/xnu/osfmk/api, fuzz/xnu/bsd/api) lets the fuzz
-- target call into the kernel.
--
-- Common: names passed on from the libraries, Boolean tests, lists over the native numbers, and the
-- outcome of kernel code, which panics, aborts by a hypercall, or fails an assertion.
-- Zone: fuzz/xnu/osfmk/fakes/zalloc.c. Zone/Stack is zstack_push and zstack_pop, with the stack's array
-- as a list; Zone/Sizing is zone_elem_adjust_size and zone_get_min_alloc_granule; Zone/Registry is
-- zone_array with zone_create_find, zone_create_ext, zone_by_id and the security flags; Zone/Cache is
-- zcache_alloc_n, zcache_free_n, zalloc_n and zfree_nozero_n; Zone/Elements is
-- zalloc_ext with the functions over it and the writes to read-only zones, Zone/Views is
-- zone_view_startup_init, and
-- Zone/Arena is kmem_mb_alloc.
-- Lock: fuzz/xnu/osfmk/fakes/locks.c. Lock/Sleep is lck_spin_sleep_grp, lck_rw_sleep, lck_mtx_sleep and
-- their forms with a deadline; Lock/Turnstile is sleep_with_inheritor_and_turnstile and
-- wakeup_with_inheritor_and_turnstile with their callers. What they call is recorded as a list of calls,
-- which Lock/Discipline runs through an automaton.
-- Thread: fuzz/xnu/osfmk/api/thread.c, with the flags that fuzz/host/host.cc keeps for each thread.
-- Thread/Wait is XNUThreadMarkWaitLocked and the wake-up; Thread/Stop is XNUThreadStop and XNUThreadWait.
-- Walk: fuzz/xnu/osfmk/api/scheduler_state.c, GetTask, GetThread and print_thread.
-- Mcache: fuzz/xnu/bsd/fakes/mcache.c, with the objects of a cache linked through obj_next.
-- Copyio: fuzz/xnu/osfmk/fakes/copyio.c, over a user memory that maps addresses to bytes.
-- Process: KillAllNonInitProcs and XNUReapInitChildren of fuzz/xnu/bsd/api/bsd_backend.c.
-- Atomic: fuzz/xnu/osfmk/fakes/atomic.c, with what other threads do during a yield as an argument.
-- Pmap: the page counter of fuzz/xnu/osfmk/fakes/pmap.c.
-- Mbuf: mbuf_create of fuzz/xnu/bsd/fakes/mbuf.c and get_mbuf_data of fuzz/xnu/bsd/api/bsd_backend.c.
-- Host: fuzz/host/host.cc over an interface of the scheduler. Host/Registration is CreateThread,
-- SetCurrentThreadT and ThreadDestroyed; Host/Flags is the sets of threads, with the hypercalls of
-- fuzz/host/hypercall/hypercall.cc on them; Host/Switching is ThreadSelect, SwitchFrom, SwitchTo,
-- ThreadBlock, Yield and the continuations; Host/Naming and Host/Copying are the printed names and the
-- counters of BlockCopyin. Host/Flags uses the record of Thread as its view of one thread.
-- Ticket: fuzz/host/hw_ticket_lock_manager.cc over an interface of the virtual mutexes, and in
-- Ticket/Kernel the functions of fuzz/xnu/osfmk/fakes/sync/tlock.cc and the reservations of
-- fuzz/xnu/osfmk/fakes/locks.c.
-- Sync: the other locks of fuzz/xnu/osfmk/fakes/sync, mutex.cc, spin.cc, rw_lock.cc and locks.cc, as
-- lists of hypercalls, which Sync/Discipline runs through an automaton; Sync/Pointer is hw_lck_ptr_t.
-- Message: fuzz/handlers/mach_message.cc over an interface of the layout of XNU's structures.
-- Command: fuzz/handlers/command.cc and command_thread.cc. A command gives a list of calls of the kernel;
-- Message builds the messages that some of them carry, and the blocks and unblocks of copyin among them
-- are counted as in Host/Copying. Command/Wrappers is the wrappers of Mach traps in
-- fuzz/xnu/osfmk/api/osfmk_backend.c, which these calls go through.
-- Packet: fuzz/handlers/bsd.cc with the structures of bsd_types.h. Packet/Addresses is get_in6_addr and
-- get_sockaddr, Packet/Headers and Packet/Extensions are the headers, and Packet/Input is DoIpInput, which hands
-- over an mbuf of Mbuf.
-- Necp: fuzz/handlers/necp.cc. A request gives the call of necp_client_action_wrapper that it makes.
-- Session: HandleSession of fuzz/handlers/session.cc as the list of its calls, with the functions of
-- fuzz/xnu/osfmk/api/osfmk_backend.c that make threads, over the reaping of Process. Session/Order holds
-- two automata over the calls.
-- Executor: fuzz/executor/coroutine_executor.cc. Executor/Plan is the events of a run.
-- Logger: fuzz/host/logger.cc and logger.h, but for the text of messages.
-- Notify: fuzz/xnu/osfmk/fakes/mach_notify.c.
-- Clock: fuzz/xnu/osfmk/fakes/clock.c.
-- Stubs: functions of fuzz/xnu/bsd/fakes/stubs.c and fake_impls.c, and the readers of fuzzed bytes of
-- fuzz/host/hypercall/hypercall.cc, over an interface of libFuzzer's FuzzedDataProvider.
-- Dispatch: XNUDoRandomSyscall of fuzz/xnu/bsd/api/bsd_backend.c and DoRandomMachTrap of
-- fuzz/xnu/osfmk/api/osfmk_backend.c.
-- Interleaving: check_state and HostTestThread of fuzz/xnu/osfmk/api/osfmk_backend.c.
--
-- Bounds. The loop of zone_get_min_alloc_granule gets ZONE_MAX_ALLOC_SIZE rounds, which is enough
-- since a page has at least one byte; draining a stack gets as many rounds as it has elements, and
-- zfree_nozero_n one more for the pop that ends it. The loops of XNUThreadStop, XNUThreadWait,
-- HostTestThread, WakeupWaiters, WaitForValue and machine_delay_until, which wait for what other threads
-- do, the one of GenerateNameFromPointer, which waits for the random numbers, and the reaping of processes
-- get a number of turns. The 16 bits of a zone's fields and the 64 bits of a size are written out as
-- remainders.
--
-- What comes from XNU's headers and from the host is an argument: the constants of record Xnu, what
-- assert_wait and thread_block answer, the numbers that the fuzzer draws, and whether an allocation
-- succeeds. The scheduler and the virtual mutexes of third_party/concurrence are
-- interfaces, records of operations with what the code relies on as laws. What other threads do while one
-- blocks or yields is a function on the state, an argument. Of setjmp and longjmp only the way
-- back into HandleCommand is modelled. Not modelled:
-- the fuzz target and its flags, the text of messages, the functions that only abort or
-- return a constant, and tracing, logging and printing.
pub mod Atomic
pub mod Clock
pub mod Command
pub mod Common
pub mod Copyio
pub mod Dispatch
pub mod Executor
pub mod Host
pub mod Interleaving
pub mod Lock
pub mod Logger
pub mod Mbuf
pub mod Mcache
pub mod Message
pub mod Necp
pub mod Notify
pub mod Packet
pub mod Pmap
pub mod Process
pub mod Session
pub mod Stubs
pub mod Sync
pub mod Thread
pub mod Ticket
pub mod Walk
pub mod Zone
