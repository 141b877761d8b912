-- ===== src/Sessions.antt =====
-- The in-memory stores of src/server/social-oauth-memory.mjs: the bounded store of pending
-- transactions and the session store.
pub mod Bounded
pub mod Store
pub mod Native
mod Tests
