-- ===== src/Auth.antt =====
-- Who may do what: the users of internal/auth and their permissions on lists.
pub mod Users
pub mod Permitted
pub mod Gate
pub mod Access
pub mod Credentials
mod Examples
mod Entrance
