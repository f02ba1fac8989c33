-- ===== src/Logging.antt =====
-- shared/logging: the redaction of what is logged, the line of a record and the correlation context.
pub mod Redact
pub mod Sanitize
pub mod Correlation
