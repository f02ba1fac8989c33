-- ===== src/Tests.antt =====
-- The theorems at concrete inputs, on a cache, text forms and tables written out as functions.
pub mod Fixtures
mod Create
mod Review
mod Controls
mod Aml
mod Requests
mod Runtime
pub mod Worker
mod Shell
mod Schema
mod Bus
