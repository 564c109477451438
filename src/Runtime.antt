-- ===== src/Runtime.antt =====
-- crates/runtime: the redaction of credentials.
pub mod Redact
pub mod Scan
pub mod Split
pub mod Url
pub mod Urls
pub mod Spans
pub mod Total
pub mod Blind
