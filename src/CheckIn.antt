-- ===== src/CheckIn.antt =====
-- src/check-in/check-in.service.ts. The operations are in the first four children, the proofs in
-- the others.
pub mod Steps
pub mod Start
pub mod Confirm
pub mod Cancel
