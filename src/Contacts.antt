-- ===== src/Contacts.antt =====
-- internal/mailview/dataplane: the lists and subscribers of tenants.
pub mod Tables
pub mod Service
pub mod Requests
pub mod Isolation
pub mod Linked
mod Examples
