-- ===== src/Tests/Bus.antt =====
-- The Kafka publisher, run.
use mathlib.Core.Path.{◌≡◌}
use global_payments_observab.Base.{refl, none, some, [], ◌∷◌, false}
use global_payments_observab.Base.{Bool}
use global_payments_observab.Processor.EventBus.{TextMethods, KafkaClient, KafkaPublisher}
use global_payments_observab.Processor.EventBus.Laws.{sends, published, kafka_never_recovers}
use global_payments_observab.Tests.Worker.{event, report}

-- A broker that is down, or up, while the publisher connects.
abbrev broker : KafkaClient
broker = record {
  Producer = Unit {0};
  State = Bool;
  build = λ servers s. (some tt, s);
  start = λ p s. (s, s);
  send_and_wait = λ p topic key e s. (s, s);
  stop = λ p s. s;
}

abbrev text_methods : TextMethods
text_methods = record { replace = λ old new s. s; strip = λ s. s; lower = λ s. s }

abbrev fresh_publisher : KafkaPublisher text_methods broker "kafka:9092" "payments"
fresh_publisher = record { producer = none; client = false }

kafka_never_recovers_example :
    published text_methods broker "kafka:9092" "payments" (event ∷ report ∷ []) fresh_publisher
    ≡ (false ∷ false ∷ [], record { producer = some tt; client = false })
unfolding sends
kafka_never_recovers_example =
    kafka_never_recovers text_methods broker "kafka:9092" "payments" fresh_publisher tt false false
      event (report ∷ []) refl refl refl
