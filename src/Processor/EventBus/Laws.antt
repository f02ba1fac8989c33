-- ===== src/Processor/EventBus/Laws.antt =====
-- What a failure to connect leaves behind in the two publishers.
use global_payments_observab.Base.{
  String, ◌≡◌, refl, ap, inl, inr, Bool, false, Option, none, some, List, [], ◌∷◌, Option-cases,
}
use global_payments_observab.Contracts.Records.{OutboxEvent}
use global_payments_observab.Processor.EventBus.{
  TextMethods, KafkaClient, KafkaPublisher, kafka_publish, get_producer, normalized_key,
  RabbitClient, RabbitPublisher, get_exchange, declared, opened, connected,
}

module _ (T : TextMethods) (K : KafkaClient) (bootstrap_servers topic : String) where
  -- the answers to one event after the other, and the publisher afterwards
  unfoldable pub published :
      List OutboxEvent
      → KafkaPublisher T K bootstrap_servers topic
      → List Bool × KafkaPublisher T K bootstrap_servers topic
  unfolding kafka_publish
  published [] b = ([], b)
  published (e ∷ es) b =
      let (sent, b') = kafka_publish T K bootstrap_servers topic e b in
      let (rest, b'') = published es b' in (sent ∷ rest, b'')

  -- What one producer answers to sends alone, none of which is preceded by a start.
  unfoldable pub sends : K.Producer → List OutboxEvent → K.State → List Bool × K.State
  sends p [] s = ([], s)
  sends p (e ∷ es) s =
      let (sent, s') = K.send_and_wait p topic (normalized_key T e.event_type) e s in
      let (rest, s'') = sends p es s' in (sent ∷ rest, s'')

  -- A publisher that has a producer only sends by it.
  kept_producer :
      (p : K.Producer) (es : List OutboxEvent) (s : K.State)
      → published es (record { producer = some p; client = s })
        ≡ ((sends p es s).0, record { producer = some p; client = (sends p es s).1 })
  unfolding published sends kafka_publish get_producer
  kept_producer p [] s = refl
  kept_producer p (e ∷ es) s =
      ap
        (λ ((rest, b) : List Bool × KafkaPublisher T K bootstrap_servers topic).
          ((K.send_and_wait p topic (normalized_key T e.event_type) e s).0 ∷ rest, b))
        (kept_producer p es (K.send_and_wait p topic (normalized_key T e.event_type) e s).1)

  -- Once the first producer of the Kafka publisher has failed to start, the event at hand is refused,
  -- and every event after it is sent by that same producer: the calls of the client are its sends
  -- alone, so it is never started again and no other producer is built, and the publisher still has it
  -- at the end.
  pub kafka_never_recovers :
      (b : KafkaPublisher T K bootstrap_servers topic) (p : K.Producer) (s s' : K.State)
      (e : OutboxEvent) (es : List OutboxEvent)
      → b.producer ≡ none
      → K.build bootstrap_servers b.client ≡ (some p, s)
      → K.start p s ≡ (false, s')
      → published (e ∷ es) b
        ≡ (false ∷ (sends p es s').0, record { producer = some p; client = (sends p es s').1 })
  unfolding published kafka_publish get_producer
  kafka_never_recovers b p s s' e es first is_built not_started =
      rw (first, is_built, not_started, kept_producer p es s') refl

module _ (T : TextMethods) (R : RabbitClient) (url exchange_name routing_prefix : String) where
  declared_keeps :
      (b : RabbitPublisher T R url exchange_name routing_prefix) (o : Option R.Exchange × R.State)
      → b.exchange ≡ none
      → let (x, b') = declared T R url exchange_name routing_prefix b o in b'.exchange ≡ x
  declared_keeps b (none, s) h = h
  declared_keeps b (some x, s) h = refl

  opened_keeps :
      (b : RabbitPublisher T R url exchange_name routing_prefix) (o : Option R.Channel × R.State)
      → b.exchange ≡ none
      → let (x, b') = opened T R url exchange_name routing_prefix b o in b'.exchange ≡ x
  opened_keeps b (none, s) h = h
  opened_keeps b (some c, s) h =
      declared_keeps (record b { channel = some c }) (R.declare_exchange c exchange_name s) h

  connected_keeps :
      (b : RabbitPublisher T R url exchange_name routing_prefix) (o : Option R.Connection × R.State)
      → b.exchange ≡ none
      → let (x, b') = connected T R url exchange_name routing_prefix b o in b'.exchange ≡ x
  connected_keeps b (none, s) h = h
  connected_keeps b (some c, s) h =
      opened_keeps (record b { connection = some c }) (R.open_channel c s) h

  -- The RabbitMQ publisher keeps an exchange exactly if it has declared it, so after a failure the next
  -- event connects again.
  pub get_exchange_keeps :
      (b : RabbitPublisher T R url exchange_name routing_prefix)
      → let (x, b') = get_exchange T R url exchange_name routing_prefix b in b'.exchange ≡ x
  unfolding get_exchange
  get_exchange_keeps b = elim (Option-cases b.exchange) [
    | inl missing ↦
        rw missing
          (connected_keeps (record b { exchange = none }) (R.connect_robust url b.client) refl)
    | inr (x, kept) ↦ rw kept refl
  ]
