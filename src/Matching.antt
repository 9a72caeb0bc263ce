-- ===== src/Matching.antt =====
-- The compiler and the matcher together, against the specification of templates.
pub mod Compiling
pub mod Machine
pub mod Routing
pub mod Tables
pub mod Stack
pub mod Bound
pub mod Examples
pub mod Deep
pub mod Merging
pub mod Segments
pub mod Hanging
pub mod Colons
