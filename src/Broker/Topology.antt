-- ===== src/Broker/Topology.antt =====
-- When what the API and the reconciler publish gets into the consumer's queue.
use unith_task.Prelude.{
  ◌≡◌, refl, ◌∙◌, String, Bool, true, false, ◌||◌, List, [], ◌∷◌, arith, is_empty,
}
use unith_task.Config.{Settings}
use unith_task.Broker.{
  Amqp, Trouble, smooth, no_connection, no_channel, no_exchange, no_queue, connect, set_up, Boot,
  api, consumer, publisher, declare_names, boot, boot_all,
}

-- What RabbitMQ documents of these calls. A declaration adds no binding to a named exchange.
pub record IsAmqp {B : Type 0} (amqp : Amqp B) : Type 0 where
  pub exchange_there : (x : String) (b : B) → amqp.has_exchange x (amqp.declare_exchange x b) ≡ true
  pub queue_there : (q : String) (b : B) → amqp.has_queue q (amqp.declare_queue q b) ≡ true
  pub exchange_stays :
      (x q : String) (b : B)
      → amqp.has_exchange x b ≡ true
      → amqp.has_exchange x (amqp.declare_queue q b) ≡ true
  pub bound :
      (q x k : String) (b : B)
      → amqp.has_exchange x b ≡ true
      → amqp.has_queue q b ≡ true
      → amqp.routes x k q (amqp.bind q x k b) ≡ true
  pub exchange_binds_nothing :
      (x k q y : String) (b : B)
      → is_empty x ≡ false
      → amqp.routes x k q (amqp.declare_exchange y b) ≡ amqp.routes x k q b
  pub queue_binds_nothing :
      (x k q r : String) (b : B)
      → is_empty x ≡ false
      → amqp.routes x k q (amqp.declare_queue r b) ≡ amqp.routes x k q b

abbrev pub starts_consumer : List Boot → Bool
starts_consumer [] = false
starts_consumer (consumer ∷ xs) = true
starts_consumer (api t ∷ xs) = starts_consumer xs
starts_consumer (publisher exchange queue ∷ xs) = starts_consumer xs

module _ {B : Type 0} (amqp : Amqp B) (law : IsAmqp amqp) (s : Settings)
    (named : is_empty s.rabbitmq_exchange ≡ false) where
  -- The route that `publish_event` and the reconciler use.
  abbrev pub reaches_queue : B → Bool
  reaches_queue b = amqp.routes s.rabbitmq_exchange s.rabbitmq_queue s.rabbitmq_queue b

  set_up-reaches_queue : (b : B) → reaches_queue (set_up amqp s b) ≡ true
  unfolding set_up
  set_up-reaches_queue b =
      let there = amqp.declare_exchange s.rabbitmq_exchange b in
      law.bound s.rabbitmq_queue s.rabbitmq_exchange s.rabbitmq_queue
        (amqp.declare_queue s.rabbitmq_queue there)
        (law.exchange_stays s.rabbitmq_exchange s.rabbitmq_queue there
          (law.exchange_there s.rabbitmq_exchange b))
        (law.queue_there s.rabbitmq_queue there)

  boot-reaches_queue :
      (t : Trouble) (b : B) → reaches_queue (boot amqp s (api t) b) ≡ reaches_queue b
  unfolding boot connect
  boot-reaches_queue (no_connection e) b = refl
  boot-reaches_queue (no_channel e) b = refl
  boot-reaches_queue (no_exchange e) b = refl
  boot-reaches_queue (no_queue e) b = law.exchange_binds_nothing _ _ _ s.rabbitmq_exchange b named
  boot-reaches_queue smooth b =
      law.queue_binds_nothing s.rabbitmq_exchange s.rabbitmq_queue s.rabbitmq_queue s.rabbitmq_queue
        (amqp.declare_exchange s.rabbitmq_exchange b) named
      ∙ law.exchange_binds_nothing _ _ _ s.rabbitmq_exchange b named

  publisher-reaches_queue :
      (exchange queue : String) (b : B)
      → reaches_queue (boot amqp s (publisher exchange queue) b) ≡ reaches_queue b
  unfolding boot declare_names
  publisher-reaches_queue exchange queue b =
      law.queue_binds_nothing s.rabbitmq_exchange s.rabbitmq_queue s.rabbitmq_queue queue
        (amqp.declare_exchange exchange b) named
      ∙ law.exchange_binds_nothing _ _ _ exchange b named

  boot_all_bound :
      (xs : List Boot) (b : B)
      → reaches_queue b ≡ true
      → reaches_queue (boot_all amqp s xs b) ≡ true
  unfolding boot_all boot
  boot_all_bound [] b h = h
  boot_all_bound (consumer ∷ xs) b h = boot_all_bound xs _ (set_up-reaches_queue b)
  boot_all_bound (api t ∷ xs) b h = boot_all_bound xs _ (boot-reaches_queue t b ∙ h)
  boot_all_bound (publisher exchange queue ∷ xs) b h =
      boot_all_bound xs _ (publisher-reaches_queue exchange queue b ∙ h)

  -- However the API, the consumer and the publishing script start, in any order and number, with any
  -- failure of `connect` and any names for the script, where the exchange of the settings has a name
  -- that is not empty: what the API publishes gets into the queue exactly when a consumer has been
  -- started or the queue was bound before. The others declare the queue and do not bind it.
  pub boot_all-reaches_queue :
      (xs : List Boot) (b : B)
      → reaches_queue (boot_all amqp s xs b) ≡ starts_consumer xs || reaches_queue b
  unfolding boot_all boot
  boot_all-reaches_queue [] b = refl
  boot_all-reaches_queue (consumer ∷ xs) b = boot_all_bound xs _ (set_up-reaches_queue b)
  boot_all-reaches_queue (api t ∷ xs) b =
      let rest = boot_all-reaches_queue xs (boot amqp s (api t) b) in
      let same = boot-reaches_queue t b in ground (arith, rest, same)
  boot_all-reaches_queue (publisher exchange queue ∷ xs) b =
      let rest = boot_all-reaches_queue xs (boot amqp s (publisher exchange queue) b) in
      let same = publisher-reaches_queue exchange queue b in ground (arith, rest, same)
