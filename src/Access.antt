-- ===== src/Access.antt =====
-- Login throttling, stream tickets and share-link quotas of ui/backend.
pub mod Tickets
pub mod LoginLimiter
pub mod ShareQuota
mod Examples
