-- ===== src/Messages.antt =====
-- Messages: the ciphertext envelope and the request that routes it, src/server/message-*.mjs.
pub mod Envelope
pub mod Wire
pub mod Routing
pub mod Admission
mod Tests
