-- ===== src/Collections.antt =====
-- packages/core/lib and packages/common/lib: the containers.
pub mod Nodes
pub mod LinkedList
pub mod Queue
mod Tests
