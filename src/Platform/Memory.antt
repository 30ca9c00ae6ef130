-- ===== src/Platform/Memory.antt =====
-- An implementation of the interfaces: tables and Redis as functions from keys, locks that are
-- always granted, transactions by copy. The examples run on it.
pub mod Scans
pub mod Lists
pub mod Ordered
pub mod Rows
pub mod Server
