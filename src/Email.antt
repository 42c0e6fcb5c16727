-- ===== src/Email.antt =====
-- The email automation of ui/backend: when a change of a trigger's health is told.
pub mod Fingerprints
pub mod Health
pub mod MailFilter
pub mod Drafts
mod Examples
