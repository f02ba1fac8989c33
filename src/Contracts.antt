-- ===== src/Contracts.antt =====
-- The shared contracts (shared/contracts): the enumerations and the records of the tables, the
-- requests, the responses and the event payloads.
pub mod Enums
pub mod Records
