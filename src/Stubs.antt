-- ===== src/Stubs.antt =====
-- The stubs of fuzz/xnu/osfmk/fakes and fuzz/xnu/bsd/fakes that compute something, and the functions of
-- fuzz/host/hypercall/hypercall.cc that read the bytes of a test case for them.
pub mod Bits
pub mod Random
pub mod Identifiers
pub mod BootArguments
mod Laws
mod Tests
