-- ===== src/Utils.antt =====
-- kernel/utils: intrusive nodes, the free-list allocator and the containers built on them.
pub mod Nodes
pub mod Allocator
pub mod PriorityList
pub mod Vfq
pub mod HashMap
pub mod Raf
pub mod Locks
