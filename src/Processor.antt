-- ===== src/Processor.antt =====
-- The interrupt vectors, the handlers and the contexts of kernel/processor.
pub mod Vectors
pub mod Routing
pub mod Parallel
pub mod Context
pub mod Handle
