-- ===== src/RabbitMq.antt =====
-- The publisher of chat messages to the message queue: class RabbitMqPublisher
-- (IMServer/IMServer/RabbitMqPublisher.h and .cpp). Its mutex makes each Publish one step.
-- librabbitmq is no part of the repository and stands behind an interface.
pub mod Handles
use aim_server.Common.{
  ℕ, Bool, true, false, ◌&&◌, Option, none, some, [], ◌∷◌, if◌then◌else◌, Bytes, c_string, is_empty,
  text,
}

-- struct amqp_connection_info behind amqp_parse_url; a vhost that is NULL is empty.
pub record ConnectionInfo : Type 0 where
  pub host : Bytes
  pub port : ℕ
  pub vhost : Bytes
  pub user : Bytes
  pub password : Bytes

-- Each call tells whether it ended with AMQP_STATUS_OK, or with AMQP_RESPONSE_NORMAL as its reply.
-- A connection is a number, `Broker` is the state of the library and of the broker.
pub record Amqp : Type 1 where
  pub Broker : Type 0
  pub parse_url : Bytes → Option ConnectionInfo
  pub new_connection : Broker → ℕ × Broker
  pub tcp_socket_new : ℕ → Broker → Bool × Broker
  pub socket_open : ℕ → Bytes → ℕ → Broker → Bool × Broker
  -- amqp_login by the plain method: vhost, user and password.
  pub login : ℕ → Bytes → Bytes → Bytes → Broker → Bool × Broker
  pub channel_open : ℕ → Broker → Bool × Broker
  -- A durable exchange of the type "direct".
  pub exchange_declare : ℕ → Bytes → Broker → Bool × Broker
  -- A persistent message: exchange, routing key and body.
  pub basic_publish : ℕ → Bytes → Bytes → Bytes → Broker → Bool × Broker
  -- amqp_channel_close and amqp_connection_close.
  pub close : ℕ → Broker → Broker
  pub destroy_connection : ℕ → Broker → Broker

pub record RabbitMqPublisher : Type 0 where
  pub url : Bytes
  pub exchange : Bytes
  pub conn : Option ℕ
  pub is_connected : Bool

-- The constructor.
pub new_publisher : Bytes → Bytes → RabbitMqPublisher
new_publisher url exchange = record {
  url = url;
  exchange = exchange;
  conn = none;
  is_connected = false;
}

unfoldable pub has_conn : Option ℕ → Bool
has_conn none = false
has_conn (some _) = true

-- An empty vhost stands for "/".
vhost_or_default : Bytes → Bytes
vhost_or_default vhost = if is_empty vhost then text "/" else vhost

module _ (a : Amqp) where
  -- A step of ensureConnected: if it fails, the new connection is destroyed.
  or_destroy : ℕ → Bool × a.Broker → (a.Broker → Option ℕ × a.Broker) → Option ℕ × a.Broker
  or_destroy h (false, b) next = (none, a.destroy_connection h b)
  or_destroy h (true, b) next = next b

  -- The steps of ensureConnected with a new connection, from the last one up.
  declare_exchange : RabbitMqPublisher → ℕ → a.Broker → Option ℕ × a.Broker
  unfolding or_destroy
  declare_exchange p h b =
      or_destroy h (a.exchange_declare h (c_string p.exchange) b) (λ b'. (some h, b'))

  open_channel : RabbitMqPublisher → ℕ → a.Broker → Option ℕ × a.Broker
  unfolding or_destroy declare_exchange
  open_channel p h b = or_destroy h (a.channel_open h b) (λ b'. declare_exchange p h b')

  log_in : RabbitMqPublisher → ConnectionInfo → ℕ → a.Broker → Option ℕ × a.Broker
  unfolding or_destroy vhost_or_default open_channel
  log_in p ci h b =
      or_destroy h (a.login h (vhost_or_default ci.vhost) ci.user ci.password b)
        (λ b'. open_channel p h b')

  open_socket : RabbitMqPublisher → ConnectionInfo → ℕ → a.Broker → Option ℕ × a.Broker
  unfolding or_destroy log_in
  open_socket p ci h b = or_destroy h (a.socket_open h ci.host ci.port b) (λ b'. log_in p ci h b')

  open_connection : RabbitMqPublisher → Option ConnectionInfo → a.Broker → Option ℕ × a.Broker
  unfolding or_destroy open_socket
  open_connection p none b = (none, b)
  open_connection p (some ci) b =
      let (h, b') = a.new_connection b in
      or_destroy h (a.tcp_socket_new h b') (λ b''. open_socket p ci h b'')

  keep : RabbitMqPublisher → Option ℕ × a.Broker → Bool × (RabbitMqPublisher × a.Broker)
  keep p (none, b) = (false, (p, b))
  keep p (some h, b) = (true, (record p { conn = some h; is_connected = true }, b))

  pub ensure_connected : RabbitMqPublisher → a.Broker → Bool × (RabbitMqPublisher × a.Broker)
  unfolding keep open_connection has_conn
  ensure_connected p b =
      if p.is_connected && has_conn p.conn
      then (true, (p, b))
      else keep p (open_connection p (a.parse_url (c_string p.url)) b)

  close_handle : Option ℕ → a.Broker → a.Broker
  close_handle none b = b
  close_handle (some h) b = a.destroy_connection h (a.close h b)

  pub close_conn : RabbitMqPublisher → a.Broker → RabbitMqPublisher × a.Broker
  unfolding close_handle
  close_conn p b = (record p { conn = none; is_connected = false }, close_handle p.conn b)

  -- The end of Publish: after a failure the connection is closed.
  published : RabbitMqPublisher → Bool × a.Broker → Bool × (RabbitMqPublisher × a.Broker)
  unfolding close_conn
  published p (true, b) = (true, (p, b))
  published p (false, b) = (false, close_conn p b)

  publish_on :
      Bytes
      → Bytes
      → Option ℕ
      → RabbitMqPublisher
      → a.Broker
      → Bool × (RabbitMqPublisher × a.Broker)
  unfolding published
  publish_on key body none p b = (false, (p, b))
  publish_on key body (some h) p b =
      published p (a.basic_publish h (c_string p.exchange) (c_string key) body b)

  publish_after :
      Bytes → Bytes → Bool × (RabbitMqPublisher × a.Broker) → Bool × (RabbitMqPublisher × a.Broker)
  unfolding publish_on
  publish_after key body (false, s) = (false, s)
  publish_after key body (true, (p, b)) = publish_on key body p.conn p b

  -- Publish.
  pub publish : Bytes → Bytes → RabbitMqPublisher → a.Broker → Bool × (RabbitMqPublisher × a.Broker)
  unfolding publish_after ensure_connected
  publish key body p b = publish_after key body (ensure_connected p b)
