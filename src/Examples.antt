-- ===== src/Examples.antt =====
-- Concrete runs of the models.
mod Governance
mod Engine
mod Discovery
mod Groups
mod Fleet
mod License
mod Gitlab
mod Transport
mod Config
mod Pool
mod Run
mod Branches
mod Validation
mod Retention
pub mod Samples
