-- ===== src/Pmm.antt =====
-- The physical memory manager, kernel/memory/pmm.cpp and kernel/memory/stack.cpp.
pub mod FrameStack
pub mod Boot
pub mod RoundTrip
pub mod Chunks
