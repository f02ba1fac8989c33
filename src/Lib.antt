-- ===== src/Lib.antt =====
-- The payments platform: payments-api takes requests, payments-processor carries them to the
-- providers. Paths are from the repository's root.
--
-- A request to create a payment passes the validation of its headers and its currency, is
-- answered from its stored response if its key has one, takes a lock in Redis, passes KYC, limits
-- and rate limits, is scored for risk and checked against money laundering, and is stored in one
-- commit with its event in the outbox and a snapshot of its response. An operator settles the
-- payments in review. The worker of payments-processor takes the request events of the outbox,
-- calls the provider behind a circuit breaker and with retries, stores how the payment ended, and
-- publishes the reports to the event bus. The provider mock stands in for the providers.
--
-- Base: numbers, Boolean tests, lists as tables, strings, and the monad of code that keeps a
--   state and may raise.
-- Contracts, Rails: shared/contracts, shared/constants and shared/utils/ids.py: the enums, the
--   rows, the bodies, the rails and the keys of the cache.
-- Db: the statements of services/payments-api/payments_api/repositories on lists of rows, and the
--   session's commit against the keys and unique constraints of shared/contracts/persistence.py;
--   Db/Seed for services/payments-api/payments_api/db/session.py; Db/Schema for the calls of
--   alembic, with alembic/versions/20260208_0001_initial_schema.py in Migration and the texts
--   that the models store in its columns in Stored.
-- Api: shared/utils/validation.py and, of services/payments-api/payments_api, core/errors.py,
--   core/error_handlers.py and enforce_api_auth of api/dependencies.py; Api/World is the state
--   that a request reads and writes, Api/Cache what it is given. SecurityHeaders is
--   shared/utils/http_security.py; Pipeline is what stands around the routes in main.py:
--   shared/logging/middleware.py, telemetry_middleware and the error handlers.
-- Controls: services/payments-api/payments_api/services, one module per service: KycService,
--   LimitsService, RateLimiterService, IdempotencyService, RiskScoreService, AmlRuleEngine.
-- Payments: services/payments-api/payments_api/use_cases: Create for create_payment.py (Types,
--   Replay, Controls, Persist and Execute are its code; Ending is the specification of what a
--   request may come to, Refines relates the two), Review for review_payment.py (Race for two
--   verdicts at once), Get for get_payment.py. Wiring is core/config.py with the builder of the
--   use case in api/dependencies.py, Routes is api/routes_payments.py.
-- Resilience: circuit_breaker.py, retry.py, backoff.py and bulkhead.py of shared/resilience.
-- Processor: services/payments-processor/payments_processor: Repositories for repositories and
--   the commands mark_processing.py and finalize_payment.py, Provider for call_provider.py,
--   adapter.py and strategy.py, Worker for the processing of events in workers/outbox_worker.py
--   (Rows for what it keeps of every row, Settles for the rounds of one event, Stale for one
--   whose payment has moved on), Fetch for the batch that it takes, Fanout for the publishing of
--   the reports and a whole iteration (Delivery for what the bus has accepted), EventBus for the
--   publishers of event_bus, Start for what main.py and core/config.py set up.
-- Logging: shared/logging: Redact and Sanitize for the formatter of logger.py, Correlation for
--   its context.
-- Mock: services/provider-mock/provider_mock: simulation/engine.py and api/routes_provider.py, as
--   the client of the processor reaches them.
-- Tests: a cache, text forms and tables written out as functions, and the code run on them.
--
-- A command of Redis, a text form of a number, a policy or a time, the reply of a provider, a
-- broker's client, the draws of a seeded generator, the character classes of a regular expression
-- and the version that the ORM shows after an update are parameters: records of functions (Redis,
-- Format, Http, KafkaClient, RabbitClient, Bus, Library, CharClass, Run). Where a theorem relies
-- on what such code does, a record names it: SetsOnce, Counts and KeepsLists for Redis, Accepts
-- for a bus, IsoIsPlain for the text of a time.  Other sessions are functions on the tables,
-- applied where the code awaits the database between a read and a write. A time is in
-- microseconds, in the breaker in seconds; money is in units of a common fraction of a cent. The
-- recursions are structural: the five rounds of the waiting loop and the attempts of a retry are
-- counted down from the numbers in the code, so no fuel is needed. The loop of run_forever is
-- endless: rounds_of counts its rounds, and Settles shows how many are enough.
--
-- Not modelled: failures of database queries other than the commits and the count after the
-- commit of a new payment, the column updated_at beyond the response that shows it, spans,
-- durations, gauges and log lines, the JSON bodies of the events on the bus, CORS, the lifespans
-- of the services and the bounds that the settings library checks; the tests, scripts and files
-- of the deployment. A fetched batch keeps the order of the table among rows of one time.
pub mod Base
pub mod Contracts
pub mod Rails
pub mod Db
pub mod Api
pub mod Controls
pub mod Payments
pub mod Resilience
pub mod Processor
pub mod Logging
pub mod Mock
pub mod Tests
