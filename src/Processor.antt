-- ===== src/Processor.antt =====
-- payments_processor: the worker that takes the request events of the outbox to the providers, and
-- publishes the events that came out of them.
pub mod World
pub mod Repositories
pub mod Provider
pub mod Worker
pub mod Fetch
pub mod Fanout
pub mod EventBus
pub mod Start
