-- ===== src/Zone.antt =====
-- fuzz/xnu/osfmk/fakes/zalloc.c: the zone allocator that stands in for XNU's. One child for each
-- part of the file.
pub mod Stack
pub mod Sizing
pub mod Registry
pub mod Elements
pub mod Views
pub mod Arena
pub mod Cache
mod Tests
