-- ===== src/Engine/Handlers.antt =====
-- internal/engine/kafka_handler.go and storage_handler.go: the event handlers that pass events on to a
-- producer of internal/producer or to internal/storage, which are arguments. True is an error, as in
-- `EventHandler`; logging is left out.
use matchengine.Prelude.{Bool, ◌≡◌, refl, false, if◌then◌else◌, [], ◌∷◌, Option, some, none}
use matchengine.Models.Order.{Order}
use matchengine.Models.Trade.{Trade}
use matchengine.Engine.Process.{Event, traded, order_updated}
use matchengine.Engine.Events.{EventHandler, notify_chain}

-- `KafkaProducer`, which answers, and `AsyncProducer`, which does not.
pub record SyncProducer (A W : Type 0) : Type 0 where
  pub send_trade : Trade A → W → Bool × W
  pub send_order_update : Order A → W → Bool × W

pub record AsyncProducer (A W : Type 0) : Type 0 where
  pub send_trade : Trade A → W → W
  pub send_order : Order A → W → W

pub record KafkaHandler (A W : Type 0) : Type 0 where
  pub sync_producer : Option (SyncProducer A W)
  pub async_producer : Option (AsyncProducer A W)
  pub use_async : Bool

-- `MySQLStorage`, as its handler uses it.
pub record StorageHandler (A W : Type 0) : Type 0 where
  pub save_trade : Trade A → W → Bool × W
  pub save_order : Order A → W → Bool × W

module _ {A W : Type 0} where
  abbrev pub active_async : KafkaHandler A W → Option (AsyncProducer A W)
  active_async h = if h.use_async then h.async_producer else none

  unfoldable pub kafka_on_trade : KafkaHandler A W → Trade A → W → Bool × W
  kafka_on_trade h t w = elim (active_async h) [
    | some p ↦ (false, p.send_trade t w)
    | none ↦ elim h.sync_producer [ none ↦ (false, w) | some p ↦ p.send_trade t w ]
  ]

  unfoldable pub kafka_on_order_update : KafkaHandler A W → Order A → W → Bool × W
  kafka_on_order_update h o w = elim (active_async h) [
    | some p ↦ (false, p.send_order o w)
    | none ↦ elim h.sync_producer [ none ↦ (false, w) | some p ↦ p.send_order_update o w ]
  ]

  unfoldable pub kafka_handler : KafkaHandler A W → EventHandler A W
  kafka_handler h (traded t) w = kafka_on_trade h t w
  kafka_handler h (order_updated o) w = kafka_on_order_update h o w

  unfoldable pub storage_on_trade : StorageHandler A W → Trade A → W → Bool × W
  storage_on_trade h t w = h.save_trade t w

  unfoldable pub storage_on_order_update : StorageHandler A W → Order A → W → Bool × W
  storage_on_order_update h o w = h.save_order o w

  unfoldable pub storage_handler : StorageHandler A W → EventHandler A W
  storage_handler h (traded t) w = storage_on_trade h t w
  storage_handler h (order_updated o) w = storage_on_order_update h o w

  -- Storage is told of an event after Kafka, whether or not Kafka failed.
  pub notify_chain-kafka_storage :
      (k : KafkaHandler A W) (s : StorageHandler A W) (e : Event A) (w : W)
      → notify_chain (kafka_handler k ∷ storage_handler s ∷ []) e w
        ≡ (storage_handler s e (kafka_handler k e w).1).1
  unfolding notify_chain
  notify_chain-kafka_storage k s e w = refl
