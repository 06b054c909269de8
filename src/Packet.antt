-- ===== src/Packet.antt =====
-- The packets and socket addresses that a test case asks for: fuzz/handlers/bsd.cc, with the structures
-- of fuzz/handlers/bsd_types.h as lists of bytes, on a machine that stores the low byte first.
pub mod Addresses
pub mod Headers
pub mod Extensions
pub mod Input
mod Families
mod Lengths
mod Delivery
pub mod Laws
pub mod Routing
mod Tests
use sock_fuzzer.Common.{ℕ, zero, suc, List, [], ◌∷◌, ◌+◌, ◌*◌, ◌/◌, ◌%◌}

-- An unsigned integer of some bytes, as memory holds it.
abbrev pub le : (bytes : ℕ) → (value : ℕ) → List ℕ
le zero value = []
le (suc bytes) value = value % 256 ∷ le bytes (value / 256)

abbrev pub bswap16 : ℕ → ℕ
bswap16 value = value % 256 * 256 + value / 256 % 256

abbrev pub bswap32 : ℕ → ℕ
bswap32 value =
    value % 256 * 16777216
    + value / 256 % 256 * 65536
    + value / 65536 % 256 * 256
    + value / 16777216 % 256
