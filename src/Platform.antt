-- ===== src/Platform.antt =====
-- What the program runs on and does not implement: PostgreSQL behind TypeORM, Redis, Redlock.
-- Each is a record of operations with the documented laws; a client takes them as a parameter.
pub mod Table
pub mod Backend
pub mod World
pub mod Memory
