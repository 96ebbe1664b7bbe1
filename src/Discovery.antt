-- ===== src/Discovery.antt =====
-- internal/discovery: which groups and projects a run is about.
pub mod Filter
pub mod Groups
pub mod Fleet
pub mod Roots
pub mod Coordinator
