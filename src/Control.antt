-- ===== src/Control.antt =====
-- internal/mailview/control: the Control Plane.
pub mod Db
pub mod Names
pub mod ApiKeys
pub mod Recovery
pub mod Mfa
pub mod Slugs
pub mod Seeds
pub mod Tenants
pub mod Domains
pub mod Rbac
pub mod Workflow
pub mod Impersonation
