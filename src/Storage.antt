-- ===== src/Storage.antt =====
-- src/storage: the database file, pages, records and the index.
pub mod Header
pub mod Page
pub mod Record
pub mod BTree
pub mod Table
