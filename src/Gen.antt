-- ===== src/Gen.antt =====
-- The general-purpose containers and string functions of duro/gen.
pub mod HashTable
pub mod Strings
pub mod HashMap
