-- ===== src/Domain.antt =====
-- src/common/types/enums.ts, the entities and the exceptions: the vocabulary of every service.
-- Identifiers are UUIDs, which the program only compares: a natural number stands for each.
-- Times are in milliseconds.
pub mod Enums
pub mod Entities
pub mod Errors
pub mod Dtos
