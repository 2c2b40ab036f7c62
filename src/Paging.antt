-- ===== src/Paging.antt =====
-- x86-64 paging: kernel/memory/x64paging.{h,cpp}.
pub mod Tables
pub mod Walk
pub mod Tree
pub mod Reads
pub mod Mapped
pub mod Map
pub mod Unmap
pub mod Recursive
pub mod Found
pub mod Unmapped
