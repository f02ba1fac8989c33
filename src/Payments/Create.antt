-- ===== src/Payments/Create.antt =====
-- `CreatePaymentUseCase` of payments_api/use_cases/create_payment.py.
pub mod Types
pub mod Replay
pub mod Controls
pub mod Persist
pub mod Execute
pub mod Quiet
pub mod QuietControls
pub mod Ending
pub mod Rounds
pub mod Refines
pub mod Idempotent
pub mod Retry
