-- ===== src/Api.antt =====
-- What the parts of payments-api share: its errors and their HTTP rendering, the cache and the text
-- functions that the code is given, the state of a request and the validation of its headers.
pub mod Errors
pub mod Cache
pub mod World
pub mod Quiet
pub mod Validation
pub mod Auth
pub mod SecurityHeaders
pub mod Pipeline
