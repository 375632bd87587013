-- ===== src/Obj.antt =====
-- Types, operators and values: duro/obj.
pub mod Arrays
pub mod Builtins
pub mod Datetime
pub mod Keys
pub mod Tuples
pub mod Types
pub mod OpMap
