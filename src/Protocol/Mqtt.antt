-- ===== src/Protocol/Mqtt.antt =====
-- protocol/mqtt/broker.go: the authentication of a connection, the broker's own subscriptions, Start and
-- Stop. The MQTT library is an interface; a handler is a value of H.
pub mod Subscriptions
pub mod Refinement
use mathlib.Core.Option
use goichi.Prelude.{
  ℕ, zero, suc, Bool, true, false, not, ◌&&◌, Option, none, some, List, [], ◌∷◌, if◌then◌else◌,
  is_empty,
}
use goichi.Prelude.Text.{Bytes, codes}
use goichi.Http
use goichi.Http.{lookup, erase}
use goichi.Middleware.Jwt.{JwtLibrary, Verdict, valid, rejected, is_valid, validate_jwt}
use goichi.Protocol.{tls_enabled}
use goichi.Protocol.Settings.{MqttConfig, mqtt_defaults}

-- What the code calls on a *mqtt.Server in the state T: Subscribe and Unsubscribe of the inline client,
-- with their error, and the handler that the server holds for a filter and an id.
pub record MqttLibrary (T H : Type 0) : Type 0 where
  pub subscribe : Bytes → ℕ → H → T → T × Option Bytes
  pub unsubscribe : Bytes → ℕ → T → T × Option Bytes
  pub handler_of : T → Bytes → ℕ → Option H

pub record MqttBroker (T : Type 0) : Type 0 where
  pub config : MqttConfig
  pub server : T
  pub is_running : Bool
  pub injected : Bool
  pub auth_secret : Bytes
  pub auth_lookup : Bytes
  pub subs : List (Bytes × ℕ)
  pub sub_seq : ℕ

-- The code's own error, with the filter in it, or one of the library.
pub data SubscribeError : Type 0 where
  nil_handler from_library : Bytes → SubscribeError

module _ {T : Type 0} where
  unfoldable pub new_mqtt_broker : MqttConfig → T → MqttBroker T
  unfolding mqtt_defaults
  new_mqtt_broker config server = record {
    config = mqtt_defaults config;
    server = server;
    is_running = false;
    injected = false;
    auth_secret = [];
    auth_lookup = [];
    subs = [];
    sub_seq = 0;
  }

  unfoldable pub set_listener : MqttBroker T → MqttBroker T
  set_listener mb = record mb { injected = true }

  unfoldable pub set_auth_secret : Bytes → MqttBroker T → MqttBroker T
  set_auth_secret secret mb = record mb { auth_secret = secret }

  unfoldable pub set_auth_lookup : Bytes → MqttBroker T → MqttBroker T
  set_auth_lookup spec mb = record mb { auth_lookup = spec }

  -- The secret, and whether anonymous connections are permitted.
  unfoldable pub auth_state : MqttBroker T → Bytes × Bool
  auth_state mb = (mb.auth_secret, mb.config.allow_anonymous && not mb.config.auth_enabled)

  -- Whether a connection with a password is let in.
  unfoldable pub on_connect_authenticate : JwtLibrary → ℕ → Bytes → MqttBroker T → Bool
  unfolding auth_state validate_jwt
  on_connect_authenticate J now password mb =
      let (secret, allow_anonymous) = auth_state mb in
      if is_empty secret then allow_anonymous else is_valid (validate_jwt J now password secret)

  -- Whether the key pair can be loaded and the listener added; the result is whether Start gives no error.
  unfoldable pub start : Bool → Bool → MqttBroker T → MqttBroker T × Bool
  start key_pair added mb =
      if mb.is_running
      then (mb, true)
      else if not mb.config.base.enabled
      then (mb, true)
      else if tls_enabled mb.config.base && not key_pair
      then (mb, false)
      else if added
      then (record mb { is_running = true }, true)
      else (mb, false)

  -- The error is that of closing the server.
  unfoldable pub stop : Option Bytes → MqttBroker T → MqttBroker T × Option Bytes
  stop err mb = if mb.is_running then (record mb { is_running = false }, err) else (mb, none)

  module _ {H : Type 0} (L : MqttLibrary T H) where
    abbrev pub with_server : MqttBroker T → T × Option Bytes → MqttBroker T × Option SubscribeError
    with_server mb (s, err) = (record mb { server = s }, Option.map from_library err)

    -- A new filter takes the next id; the handler of a known one is removed first.
    abbrev pub subscribe_as :
        Bytes → H → MqttBroker T → Option ℕ → MqttBroker T × Option SubscribeError
    subscribe_as topic h mb none =
        let id = suc mb.sub_seq in
        with_server (record mb { sub_seq = id; subs = Http.insert topic id mb.subs })
          (L.subscribe topic id h mb.server)
    subscribe_as topic h mb (some id) =
        with_server mb (L.subscribe topic id h (L.unsubscribe topic id mb.server).0)

    -- A nil handler is refused.
    unfoldable pub subscribe :
        Bytes → Option H → MqttBroker T → MqttBroker T × Option SubscribeError
    subscribe topic none mb = (mb, some (nil_handler topic))
    subscribe topic (some h) mb = subscribe_as topic h mb (lookup topic mb.subs)

    abbrev pub unsubscribe_as :
        Bytes → MqttBroker T → Option ℕ → MqttBroker T × Option SubscribeError
    unsubscribe_as topic mb none = (record mb { subs = erase topic mb.subs }, none)
    unsubscribe_as topic mb (some id) =
        with_server (record mb { subs = erase topic mb.subs }) (L.unsubscribe topic id mb.server)

    unfoldable pub unsubscribe : Bytes → MqttBroker T → MqttBroker T × Option SubscribeError
    unsubscribe topic mb = unsubscribe_as topic mb (lookup topic mb.subs)
