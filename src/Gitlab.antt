-- ===== src/Gitlab.antt =====
-- internal/gitlab: pagination and the retrying transport.
pub mod Pagination
pub mod Transport
