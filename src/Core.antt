-- ===== src/Core.antt =====
-- crates/iron-core: identities, limits, settings, envelopes and the deduplication table.
pub mod Id
pub mod Limits
pub mod Dedup
pub mod Envelope
pub mod Config
mod Tests
