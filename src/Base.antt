-- ===== src/Base.antt =====
-- base: bit operations, and the memory functions over an allocator.
pub mod Bits
pub mod Bitops
pub mod BlockOr
pub mod Memops
pub mod FindT
pub mod Allocate
pub mod Arena
mod Tests
