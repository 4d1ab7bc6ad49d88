-- ===== src/RabbitMq/Handles.antt =====
-- Which connections RabbitMqPublisher (IMServer/IMServer/RabbitMqPublisher.cpp) holds.
use aim_server.Common.{
  ℕ, ◌≡◌, refl, ◌∙◌, ap, Bool, true, false, ◌&&◌, Option, none, some, List, ◌∷◌, arith, Bytes,
  c_string, if-elim,
}
use aim_server.RabbitMq.{
  ConnectionInfo, Amqp, RabbitMqPublisher, has_conn, or_destroy, declare_exchange, open_channel,
  log_in, open_socket, open_connection, keep, ensure_connected, close_handle, close_conn, published,
  publish_on, publish_after, publish, vhost_or_default,
}

-- What the manual of librabbitmq says of its connections: amqp_new_connection makes one,
-- amqp_destroy_connection frees it, and nothing else does either.
pub record Accounting (a : Amqp) : Type 0 where
  pub live : a.Broker → List ℕ
  pub at_new : (b : a.Broker) → live (a.new_connection b).1 ≡ (a.new_connection b).0 ∷ live b
  pub at_destroy :
      (h : ℕ) (b : a.Broker) (others : List ℕ)
      → live b ≡ h ∷ others
      → live (a.destroy_connection h b) ≡ others
  pub at_socket_new : (h : ℕ) (b : a.Broker) → live (a.tcp_socket_new h b).1 ≡ live b
  pub at_socket_open :
      (h : ℕ) (host : Bytes) (port : ℕ) (b : a.Broker)
      → live (a.socket_open h host port b).1 ≡ live b
  pub at_login :
      (h : ℕ) (vhost user password : Bytes) (b : a.Broker)
      → live (a.login h vhost user password b).1 ≡ live b
  pub at_channel_open : (h : ℕ) (b : a.Broker) → live (a.channel_open h b).1 ≡ live b
  pub at_exchange_declare :
      (h : ℕ) (name : Bytes) (b : a.Broker) → live (a.exchange_declare h name b).1 ≡ live b
  pub at_publish :
      (h : ℕ) (exchange key body : Bytes) (b : a.Broker)
      → live (a.basic_publish h exchange key body b).1 ≡ live b
  pub at_close : (h : ℕ) (b : a.Broker) → live (a.close h b) ≡ live b

both_true : (x y : Bool) → (x && y) ≡ true → true ≡ y
both_true x y h = ground arith

both_false : (x y : Bool) → x ≡ y → (x && y) ≡ false → y ≡ false
both_false x y e h = ground arith

no_conn : (o : Option ℕ) → has_conn o ≡ false → o ≡ none
unfolding has_conn
no_conn none h = refl
no_conn (some x) h = cc

flag_off : {o : Option ℕ} {f : Bool} → o ≡ none → f ≡ has_conn o → f ≡ false
unfolding has_conn
flag_off c e = e ∙ ap has_conn c

-- The connections besides that of the publisher, with it in front.
abbrev pub with_handle : Option ℕ → List ℕ → List ℕ
with_handle none others = others
with_handle (some h) others = h ∷ others

module _ (a : Amqp) (acc : Accounting a) (others : List ℕ) where
  -- The connections that are open are the others and the one that is held, and the flag says
  -- whether one is.
  pub record IsTracked (s : RabbitMqPublisher × a.Broker) : Type 0 where
    pub open_ones : acc.live s.1 ≡ with_handle s.0.conn others
    pub flag : s.0.is_connected ≡ has_conn s.0.conn

module _ (a : Amqp) (acc : Accounting a) (others : List ℕ) where
  -- A new connection is open if it is the result, and no other is.
  abbrev Opened : Option ℕ × a.Broker → Type 0
  Opened r = acc.live r.1 ≡ with_handle r.0 others

  or_destroy-Opened :
      (h : ℕ) (r : Bool × a.Broker) (next : a.Broker → Option ℕ × a.Broker)
      → acc.live r.1 ≡ h ∷ others
      → ((b : a.Broker) → acc.live b ≡ h ∷ others → Opened (next b))
      → Opened (or_destroy a h r next)
  unfolding or_destroy
  or_destroy-Opened h (false, b) next e then_opened = acc.at_destroy h b others e
  or_destroy-Opened h (true, b) next e then_opened = then_opened b e

  declare_exchange-Opened :
      (p : RabbitMqPublisher) (h : ℕ) (b : a.Broker)
      → acc.live b ≡ h ∷ others
      → Opened (declare_exchange a p h b)
  unfolding declare_exchange
  declare_exchange-Opened p h b e =
      or_destroy-Opened h (a.exchange_declare h (c_string p.exchange) b) (λ b'. (some h, b'))
        (acc.at_exchange_declare h (c_string p.exchange) b ∙ e) (λ b' e'. e')

  open_channel-Opened :
      (p : RabbitMqPublisher) (h : ℕ) (b : a.Broker)
      → acc.live b ≡ h ∷ others
      → Opened (open_channel a p h b)
  unfolding open_channel
  open_channel-Opened p h b e =
      or_destroy-Opened h (a.channel_open h b) (λ b'. declare_exchange a p h b')
        (acc.at_channel_open h b ∙ e) (declare_exchange-Opened p h)

  log_in-Opened :
      (p : RabbitMqPublisher) (ci : ConnectionInfo) (h : ℕ) (b : a.Broker)
      → acc.live b ≡ h ∷ others
      → Opened (log_in a p ci h b)
  unfolding log_in
  log_in-Opened p ci h b e =
      let vhost = vhost_or_default ci.vhost in
      or_destroy-Opened h (a.login h vhost ci.user ci.password b) (λ b'. open_channel a p h b')
        (acc.at_login h vhost ci.user ci.password b ∙ e) (open_channel-Opened p h)

  open_socket-Opened :
      (p : RabbitMqPublisher) (ci : ConnectionInfo) (h : ℕ) (b : a.Broker)
      → acc.live b ≡ h ∷ others
      → Opened (open_socket a p ci h b)
  unfolding open_socket
  open_socket-Opened p ci h b e =
      or_destroy-Opened h (a.socket_open h ci.host ci.port b) (λ b'. log_in a p ci h b')
        (acc.at_socket_open h ci.host ci.port b ∙ e) (log_in-Opened p ci h)

  open_connection-Opened :
      (p : RabbitMqPublisher) (ci : Option ConnectionInfo) (b : a.Broker)
      → acc.live b ≡ others
      → Opened (open_connection a p ci b)
  unfolding open_connection
  open_connection-Opened p none b e = e
  open_connection-Opened p (some ci) b e =
      let h = (a.new_connection b).0 in
      let b' = (a.new_connection b).1 in
      or_destroy-Opened h (a.tcp_socket_new h b') (λ b''. open_socket a p ci h b'')
        (acc.at_socket_new h b' ∙ (acc.at_new b ∙ ap (◌∷◌ h) e)) (open_socket-Opened p ci h)

  -- Where a call ends: with a connection if it returns true, and with none if it returns false.
  pub record Ended (r : Bool × (RabbitMqPublisher × a.Broker)) : Type 0 where
    pub tracked : IsTracked a acc others r.1
    pub result : r.0 ≡ has_conn r.1.0.conn

module _ (a : Amqp) (acc : Accounting a) (others : List ℕ) where
  keep-Ended :
      (p : RabbitMqPublisher) (r : Option ℕ × a.Broker)
      → p.conn ≡ none
      → p.is_connected ≡ false
      → acc.live r.1 ≡ with_handle r.0 others
      → Ended a acc others (keep a p r)
  unfolding keep has_conn
  keep-Ended p (none, b) c f e = ground arith
  keep-Ended p (some h, b) c f e = ground arith

  close_conn-IsTracked :
      (p : RabbitMqPublisher) (b : a.Broker) (o : Option ℕ)
      → p.conn ≡ o
      → acc.live b ≡ with_handle o others
      → acc.live (close_handle a o b) ≡ others
  unfolding close_handle
  close_conn-IsTracked p b none c e = e
  close_conn-IsTracked p b (some h) c e =
      acc.at_destroy h (a.close h b) others (acc.at_close h b ∙ e)

  ensure_connected-Ended :
      (p : RabbitMqPublisher) (b : a.Broker)
      → IsTracked a acc others (p, b)
      → Ended a acc others (ensure_connected a p b)
  unfolding ensure_connected
  ensure_connected-Ended p b t =
      let opened = open_connection a p (a.parse_url (c_string p.url)) b in
      if-elim (Ended a acc others) (p.is_connected && has_conn p.conn) (true, (p, b))
        (keep a p opened)
        (λ on. record { tracked = t; result = both_true p.is_connected (has_conn p.conn) on })
        (λ off.
          let c : p.conn ≡ none =
            no_conn p.conn (both_false p.is_connected (has_conn p.conn) t.flag off) in
          keep-Ended p opened c (flag_off c t.flag) (
            open_connection-Opened a acc others p (a.parse_url (c_string p.url)) b
              (t.open_ones ∙ ap (λ o. with_handle o others) c)))

  published-Ended :
      (p : RabbitMqPublisher) (h : ℕ) (r : Bool × a.Broker)
      → p.conn ≡ some h
      → p.is_connected ≡ true
      → acc.live r.1 ≡ h ∷ others
      → Ended a acc others (published a p r)
  unfolding published close_conn has_conn
  published-Ended p h (true, b) c f e = ground arith
  published-Ended p h (false, b) c f e = ground (arith, close_conn-IsTracked p b p.conn refl)

  publish_on-Ended :
      (key body : Bytes) (o : Option ℕ) (p : RabbitMqPublisher) (b : a.Broker)
      → p.conn ≡ o
      → IsTracked a acc others (p, b)
      → Ended a acc others (publish_on a key body o p b)
  unfolding publish_on has_conn
  publish_on-Ended key body none p b c t = record { tracked = t; result = rw c refl }
  publish_on-Ended key body (some h) p b c t =
      published-Ended p h (a.basic_publish h (c_string p.exchange) (c_string key) body b) c
        (t.flag ∙ ap has_conn c)
        (acc.at_publish h (c_string p.exchange) (c_string key) body b
          ∙ (t.open_ones ∙ ap (λ q. with_handle q others) c))

  publish_after-Ended :
      (key body : Bytes) (r : Bool × (RabbitMqPublisher × a.Broker))
      → Ended a acc others r
      → Ended a acc others (publish_after a key body r)
  unfolding publish_after
  publish_after-Ended key body (false, s) e = e
  publish_after-Ended key body (true, (p, b)) e =
      publish_on-Ended key body p.conn p b refl e.tracked

  -- However the broker answers, Publish leaks no connection and closes none that is not its own.
  -- It returns true with its connection kept for the next message, and after false, whichever step
  -- failed, it holds none, so that the next message connects again.
  pub publish-Ended :
      (key body : Bytes) (p : RabbitMqPublisher) (b : a.Broker)
      → IsTracked a acc others (p, b)
      → Ended a acc others (publish a key body p b)
  unfolding publish
  publish-Ended key body p b t =
      publish_after-Ended key body (ensure_connected a p b) (ensure_connected-Ended p b t)
