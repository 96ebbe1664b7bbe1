-- ===== src/License.antt =====
-- internal/license and pkg/version: the terms of the Business Source License.
pub mod Version
pub mod Model
pub mod Token
pub mod Policy
pub mod Enforce
