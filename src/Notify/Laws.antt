-- ===== src/Notify/Laws.antt =====
-- On the references that fuzz/xnu/osfmk/fakes/mach_notify.c drops.
use sock_fuzzer.Common.{
  ℕ, List, [], ◌∷◌, if◌then◌else◌, ◌==◌, ◌≡◌, ◌+◌, ◌-◌, ◌≤◌, ◌<◌, ◌^◌, ◌%◌, arith,
}
use sock_fuzzer.Notify.{
  Ports, Notice, port_destroyed, send_once, port_deleted, send_possible, dead_name, no_senders,
  mach_notify,
}

abbrev pub times : (port : ℕ) → List ℕ → ℕ
times port [] = 0
times port (other ∷ others) = (if port == other then 1 else 0) + times port others

-- The port that a notification goes to, and the right that it carries: how often a port is one.
abbrev pub receiver : Notice → ℕ
receiver (port_destroyed notify rights) = notify
receiver (send_once notify) = notify
receiver (port_deleted notify name) = notify
receiver (send_possible notify name) = notify
receiver (no_senders notify mscount) = notify
receiver (dead_name notify name) = notify

abbrev pub carried : (port : ℕ) → Notice → ℕ
carried port (port_destroyed notify rights) = if port == rights then 1 else 0
carried port notice = 0

abbrev pub received_by : (port : ℕ) → List Notice → ℕ
received_by port [] = 0
received_by port (notice ∷ notices) =
    (if port == receiver notice then 1 else 0) + received_by port notices

abbrev pub carried_in : (port : ℕ) → List Notice → ℕ
carried_in port [] = 0
carried_in port (notice ∷ notices) = carried port notice + carried_in port notices

abbrev pub notify_all : List Notice → Ports → Ports
notify_all [] p = p
notify_all (notice ∷ notices) p = notify_all notices (mach_notify notice p)

mach_notify-counts :
    (port : ℕ) (notice : Notice) (p : Ports)
    → ((mach_notify notice p).ip_sorights port ≡ (
        if port == receiver notice
        then (p.ip_sorights port + (2 ^ 32 - 1)) % 2 ^ 32
        else p.ip_sorights port))
      × (times port (mach_notify notice p).released
          ≡ (if port == receiver notice then 1 else 0)
            + carried port notice
            + times port p.released)
unfolding mach_notify
mach_notify-counts port (port_destroyed notify rights) p = (ground arith, ground arith)
mach_notify-counts port (send_once notify) p = (ground arith, ground arith)
mach_notify-counts port (port_deleted notify name) p = (ground arith, ground arith)
mach_notify-counts port (send_possible notify name) p = (ground arith, ground arith)
mach_notify-counts port (no_senders notify mscount) p = (ground arith, ground arith)
mach_notify-counts port (dead_name notify name) p = (ground arith, ground arith)

-- When a port has at least as many send-once rights as notifications go to it, in 32 bits, each of these uses one of the rights,
-- and the port is released once for each, and once more for each notification that carries it as the
-- right that was destroyed.
pub notify_all-counts :
    (port : ℕ) (notices : List Notice) (p : Ports)
    → p.ip_sorights port < 2 ^ 32
    → received_by port notices ≤ p.ip_sorights port
    → ((notify_all notices p).ip_sorights port ≡ p.ip_sorights port - received_by port notices)
      × (times port (notify_all notices p).released
          ≡ received_by port notices + carried_in port notices + times port p.released)
notify_all-counts port [] p small enough = (omega arith, omega arith)
notify_all-counts port (notice ∷ notices) p small enough =
    let now = mach_notify-counts port notice p in
    let p' = mach_notify notice p in
    let less : p'.ip_sorights port
        ≡ p.ip_sorights port - (if port == receiver notice then 1 else 0) =
      ground (arith, now) in
    let rest = notify_all-counts port notices p' (ground (arith, less)) (ground (arith, less)) in
    (ground (arith, rest, less), ground (arith, rest, now))
