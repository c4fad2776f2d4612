-- ===== src/Index.antt =====
-- src/index: the B+ tree over the pager, and the map of the indexes of a table.
pub mod Node
pub mod Tree
pub mod IndexManager
mod Tests
