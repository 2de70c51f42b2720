-- ===== src/Jobs.antt =====
-- internal/mailview/job and internal/mailview/importjob: signed envelopes and subscriber imports.
pub mod Envelope
pub mod Import
