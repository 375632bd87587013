-- ===== src/Dli.antt =====
-- The language interface of duro/dli.
pub mod VarMap
