-- ===== src/TreeRec.antt =====
-- The in-memory storage engine, duro/treerec.
pub mod Bytes
pub mod Tree
pub mod Sorted
pub mod Field
pub mod Index
pub mod RecMap
pub mod Cursor
