-- ===== src/Control/Domains.antt =====
-- internal/mailview/control/domains.go, in parts.
pub mod Table
pub mod Ownership
pub mod Certificates
pub mod Routing
pub mod Renewal
pub mod Honesty
pub mod Calls
pub mod Proven
pub mod Routes
pub mod Rate
mod Examples
