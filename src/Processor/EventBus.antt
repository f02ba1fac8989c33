-- ===== src/Processor/EventBus.antt =====
-- event_bus/: the publishers of the factory. The clients of the brokers (aiokafka, aio_pika) are
-- parameters. The key of a message is its routing key; its body is the event.
pub mod Laws
use Prim.Native.Char.{Char}
use Prim.Native.String
use global_payments_observab.Base.{
  ℕ, String, ◌<>◌, str_eq, Bool, true, false, Option, none, some, if◌then◌else◌,
}
use global_payments_observab.Base.Exec.{Outcome, ok, err}
use global_payments_observab.Contracts.Enums.{
  EventType, payment_requested, payment_confirmed, payment_failed, payment_review_required,
}
use global_payments_observab.Contracts.Records.{OutboxEvent}
use global_payments_observab.Processor.Fanout.{Bus}

-- The methods of `str` that the publishers call: `replace` of one text by another, `strip`, `lower`.
pub record TextMethods : Type 0 where
  pub replace : String → String → String → String
  pub strip : String → String
  pub lower : String → String

unfoldable pub event_type_value : EventType → String
event_type_value payment_requested = "PaymentRequested"
event_type_value payment_confirmed = "PaymentConfirmed"
event_type_value payment_failed = "PaymentFailed"
event_type_value payment_review_required = "PaymentReviewRequired"

-- `_routing_key` of both publishers, the prefix of RabbitMQ aside
unfoldable pub normalized_key : TextMethods → EventType → String
unfolding event_type_value
normalized_key T t = T.lower (T.replace "-" "_" (T.replace "." "_" (event_type_value t)))

unfoldable pub rabbit_routing_key : TextMethods → String → EventType → String
unfolding normalized_key
rabbit_routing_key T routing_prefix t = routing_prefix <> ("." <> normalized_key T t)

-- aiokafka: a producer is built, which fails if the package is missing, started, and sends. Its `start`
-- and `send_and_wait` return or raise.
pub record KafkaClient : Type 1 where
  pub Producer : Type 0
  pub State : Type 0
  pub build : String → State → Option Producer × State
  pub start : Producer → State → Bool × State
  pub send_and_wait : Producer → String → String → OutboxEvent → State → Bool × State
  pub stop : Producer → State → State

module _ (T : TextMethods) (K : KafkaClient) (bootstrap_servers topic : String) where
  -- KafkaEventBusPublisher: its `_producer`, beside the state of the client
  pub record KafkaPublisher : Type 0 where
    pub producer : Option K.Producer
    pub client : K.State

  abbrev pub started : K.Producer → Bool × K.State → Option K.Producer × KafkaPublisher
  started p (true, s) = (some p, record { producer = some p; client = s })
  started p (false, s) = (none, record { producer = some p; client = s })

  abbrev pub built : Option K.Producer × K.State → Option K.Producer × KafkaPublisher
  built (none, s) = (none, record { producer = none; client = s })
  built (some p, s) = started p (K.start p s)

  -- `_get_producer`: `none` if it raises. `_producer` is set before the producer starts.
  unfoldable pub get_producer : KafkaPublisher → Option K.Producer × KafkaPublisher
  get_producer b = elim b.producer [
    | none ↦ built (K.build bootstrap_servers b.client)
    | some p ↦ (some p, b)
  ]

  abbrev pub send : OutboxEvent → Option K.Producer × KafkaPublisher → Bool × KafkaPublisher
  send e (none, b) = (false, b)
  send e (some p, b) =
      let (sent, s) = K.send_and_wait p topic (normalized_key T e.event_type) e b.client in
      (sent, record b { client = s })

  -- `publish`
  unfoldable pub kafka_publish : OutboxEvent → KafkaPublisher → Bool × KafkaPublisher
  unfolding get_producer
  kafka_publish e b = send e (get_producer b)

  -- `close`
  unfoldable pub kafka_close : KafkaPublisher → KafkaPublisher
  kafka_close b = elim b.producer [
    | none ↦ b
    | some p ↦ record { producer = none; client = K.stop p b.client }
  ]

  abbrev pub kafka_bus : Bus
  kafka_bus = record { State = KafkaPublisher; is_enabled = true; publish = kafka_publish }

-- aio_pika: the connection, its channel and the exchange are asked for in this order; each of the calls
-- may raise.
pub record RabbitClient : Type 1 where
  pub Connection : Type 0
  pub Channel : Type 0
  pub Exchange : Type 0
  pub State : Type 0
  pub connect_robust : String → State → Option Connection × State
  pub open_channel : Connection → State → Option Channel × State
  pub declare_exchange : Channel → String → State → Option Exchange × State
  pub publish : Exchange → String → OutboxEvent → State → Bool × State

module _ (T : TextMethods) (R : RabbitClient) (url exchange_name routing_prefix : String) where
  -- RabbitMqEventBusPublisher
  pub record RabbitPublisher : Type 0 where
    pub connection : Option R.Connection
    pub channel : Option R.Channel
    pub exchange : Option R.Exchange
    pub client : R.State

  abbrev pub declared :
      RabbitPublisher → Option R.Exchange × R.State → Option R.Exchange × RabbitPublisher
  declared b (none, s) = (none, record b { client = s })
  declared b (some x, s) = (some x, record b { exchange = some x; client = s })

  abbrev pub opened :
      RabbitPublisher → Option R.Channel × R.State → Option R.Exchange × RabbitPublisher
  opened b (none, s) = (none, record b { client = s })
  opened b (some c, s) =
      declared (record b { channel = some c }) (R.declare_exchange c exchange_name s)

  abbrev pub connected :
      RabbitPublisher → Option R.Connection × R.State → Option R.Exchange × RabbitPublisher
  connected b (none, s) = (none, record b { client = s })
  connected b (some c, s) = opened (record b { connection = some c }) (R.open_channel c s)

  -- `_get_exchange`: `none` if it raises. `_exchange` is set last.
  unfoldable pub get_exchange : RabbitPublisher → Option R.Exchange × RabbitPublisher
  get_exchange b = elim b.exchange [
    | none ↦ connected b (R.connect_robust url b.client)
    | some x ↦ (some x, b)
  ]

  abbrev deliver : OutboxEvent → Option R.Exchange × RabbitPublisher → Bool × RabbitPublisher
  deliver e (none, b) = (false, b)
  deliver e (some x, b) =
      let (taken, s) = R.publish x (rabbit_routing_key T routing_prefix e.event_type) e b.client in
      (taken, record b { client = s })

  -- `publish`
  unfoldable pub rabbit_publish : OutboxEvent → RabbitPublisher → Bool × RabbitPublisher
  unfolding get_exchange
  rabbit_publish e b = deliver e (get_exchange b)

  abbrev pub rabbit_bus : Bus
  rabbit_bus = record { State = RabbitPublisher; is_enabled = true; publish = rabbit_publish }

-- NoopEventBusPublisher
abbrev pub noop_bus : Bus
noop_bus = record { State = Unit {0}; is_enabled = false; publish = λ e s. (true, s) }

-- What `build_event_bus_publisher` builds, with the settings that it passes on, and its errors.
pub data Publisher : Type 0 where
  noop : Publisher
  rabbitmq : (url exchange_name routing_prefix : String) → Publisher
  kafka : (bootstrap_servers topic : String) → Publisher

pub data BusError : Type 0 where
  missing_url missing_servers unsupported_backend : BusError

pub record BusSettings : Type 0 where
  pub event_bus_backend : String
  pub event_bus_url : Option String
  pub event_bus_exchange : String
  pub event_bus_routing_prefix : String
  pub event_bus_kafka_bootstrap_servers : String
  pub event_bus_kafka_topic : String

-- `if not text`
abbrev pub given : Option String → Option String
given none = none
given (some s) = if str_eq s "" then none else some s

abbrev rabbit_of : BusSettings → Option String → Outcome BusError Publisher
rabbit_of settings none = err missing_url
rabbit_of settings (some url) =
    ok (rabbitmq url settings.event_bus_exchange settings.event_bus_routing_prefix)

abbrev kafka_of : BusSettings → Option String → Outcome BusError Publisher
kafka_of settings none = err missing_servers
kafka_of settings (some servers) = ok (kafka servers settings.event_bus_kafka_topic)

unfoldable pub build_event_bus_publisher : TextMethods → BusSettings → Outcome BusError Publisher
build_event_bus_publisher T settings =
    let backend = T.lower (T.strip settings.event_bus_backend) in
    if str_eq backend "none"
    then ok noop
    else if str_eq backend "rabbitmq"
    then rabbit_of settings (given settings.event_bus_url)
    else if str_eq backend "kafka"
    then kafka_of settings (given (some settings.event_bus_kafka_bootstrap_servers))
    else err unsupported_backend
