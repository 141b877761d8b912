-- ===== src/Capability.antt =====
-- Opaque recipient capabilities: the store of src/server/opaque-recipient-capability.mjs, the issuer
-- and the resolver in front of it (opaque-recipient-capability-issuer.mjs and -resolver.mjs).
pub mod Syntax
pub mod Random
pub mod Configuration
pub mod Store
pub mod Admission
pub mod Issuer
pub mod Resolver
pub mod Service
mod Tests
