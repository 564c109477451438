-- ===== src/Stream.antt =====
-- crates/stream: the normalized events, and their way to the consumer.
pub mod Types
pub mod Forward
pub mod Delivery
pub mod Backoff
pub mod Decode
pub mod Client
pub mod Supervised
pub mod Delays
