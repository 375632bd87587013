-- ===== src/Tests.antt =====
-- Runs of the model on small inputs, and each theorem at an input that meets its conditions.
mod Tree
mod Maps
mod Types
mod Arrays
mod Builtins
mod Tuples
mod Keys
mod Operators
mod Datetime
mod HashTable
mod Field
mod RecMap
mod Cursor
mod Indexes
