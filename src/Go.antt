-- ===== src/Go.antt =====
-- The parts of Go's language and standard library that the modelled code calls.
pub mod Text
pub mod Cuts
pub mod Sort
pub mod Path
pub mod Glob
pub mod Value
pub mod Assoc
pub mod Int
pub mod Replace
pub mod Trim
