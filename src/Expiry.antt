-- ===== src/Expiry.antt =====
-- src/check-in/hold-expiry.service.ts. The operations are in the first child, the proofs in the
-- others.
pub mod Release
pub mod Keyspace
