-- ===== src/Nostr.antt =====
-- web/nostr-event-verifier.mjs: what checks the Nostr events that the browser receives.
mod Field
mod Curve
mod Bytes
pub mod Json
mod Event
mod Verify
mod Tests
