-- ===== src/Notify.antt =====
-- fuzz/xnu/osfmk/fakes/mach_notify.c: the notifications of ports, which are not sent. A port is a number; ip_release is
-- an XNU function, and its calls are recorded, the last one first.
mod Laws
mod Tests
use sock_fuzzer.Common.{ℕ, List, [], ◌∷◌, update, ◌+◌, ◌-◌, ◌%◌, ◌^◌}

-- What the kernel has for each port, 32 bits of send-once rights.
pub record Ports : Type 0 where
  pub ip_sorights : ℕ → ℕ
  pub released : List ℕ

-- The functions, which all answer KERN_SUCCESS.
pub data Notice : Type 0 where
  port_destroyed : (notify rights : ℕ) → Notice
  send_once : (notify : ℕ) → Notice
  port_deleted send_possible dead_name : (notify name : ℕ) → Notice
  no_senders : (notify mscount : ℕ) → Notice

abbrev pub use_soright : (port : ℕ) → Ports → Ports
use_soright port p = record p {
  ip_sorights = update p.ip_sorights port ((p.ip_sorights port + (2 ^ 32 - 1)) % 2 ^ 32);
}

abbrev pub ip_release : (port : ℕ) → Ports → Ports
ip_release port p = record p { released = port ∷ p.released }

unfoldable pub mach_notify : Notice → Ports → Ports
mach_notify (port_destroyed notify rights) p =
    ip_release rights (ip_release notify (use_soright notify p))
mach_notify (send_once notify) p = ip_release notify (use_soright notify p)
mach_notify (port_deleted notify name) p = ip_release notify (use_soright notify p)
mach_notify (send_possible notify name) p = ip_release notify (use_soright notify p)
mach_notify (no_senders notify mscount) p = ip_release notify (use_soright notify p)
mach_notify (dead_name notify name) p = ip_release notify (use_soright notify p)
