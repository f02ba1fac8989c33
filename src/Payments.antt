-- ===== src/Payments.antt =====
-- The use cases of payments-api (payments_api/use_cases): create, get and review a payment.
pub mod Create
pub mod Review
pub mod Wiring
pub mod Routes
pub mod Get
