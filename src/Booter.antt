-- ===== src/Booter.antt =====
-- loader/booter: the boot loader's memory map and allocators.
pub mod MemoryMap
pub mod Paging
