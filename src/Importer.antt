-- ===== src/Importer.antt =====
-- internal/subimporter: the import of subscribers from CSV files.

pub mod Table
pub mod Session
pub mod Lines
mod Examples
