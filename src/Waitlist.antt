-- ===== src/Waitlist.antt =====
-- src/waitlist/waitlist.service.ts. The operations are in the first two children, the proofs in the
-- others.
pub mod Queue
pub mod Assign
