-- ===== src/Storage.antt =====
-- src/storage: the pager, the column files, the tables and their rows, and the serializer.
pub mod PageOps
pub mod Pager
pub mod Row
pub mod Column
pub mod Reader
pub mod History
pub mod Table
pub mod Serializer
pub mod BatchBuffer
mod Tests
mod RowTests
