-- ===== src/Controls.antt =====
-- The control layers of payments-api (payments_api/services): KYC, limits, rate limits, risk score,
-- anti-money-laundering rules and the idempotency lock.
pub mod Kyc
pub mod Risk
pub mod RateLimiter
pub mod Idempotency
pub mod Limits
pub mod Aml
