-- ===== src/Net.antt =====
-- src/net: wires, nodes, their constructors and the memory that holds them.
pub mod Ctor
pub mod Heap
pub mod Wire
pub mod NodeAllocator
mod Tests
