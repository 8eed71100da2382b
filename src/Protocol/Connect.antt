-- ===== src/Protocol/Connect.antt =====
-- protocol/grpc/connect_server.go: authentication in front of the mux, Start and Stop. A listener is the
-- TLS layers on it and whether it is closed.
pub mod Restart
use goichi.Prelude.{
  ℕ, suc, Bool, true, false, not, ◌&&◌, Option, none, some, List, [], ◌∷◌, ◌++◌, if◌then◌else◌,
  is_empty,
}
use goichi.Prelude.Text.{Bytes, codes, trim_space}
use goichi.Middleware.Jwt.{JwtLibrary, is_valid, validate_jwt}
use goichi.Proxy.Forward.{trim_prefix}
use goichi.Protocol.{tls_enabled}
use goichi.Protocol.Settings.{GrpcConfig, grpc_defaults}

pub record Listener : Type 0 where
  pub tls_layers : ℕ
  pub is_closed : Bool

abbrev pub opened : Listener
opened = record { tls_layers = 0; is_closed = false }

-- H is a net/http handler; `mux` has the paths that Register maps. `serving` is the listener that Serve was
-- called with.
pub record ConnectServer (H : Type 0) : Type 0 where
  pub config : GrpcConfig
  pub is_running : Bool
  pub listener : Option Listener
  pub mux : List (Bytes × H)
  pub serving : Option Listener
  pub auth_secret : Bytes
  pub auth_lookup : Bytes

-- What a request gets.
pub data Answer (A : Type 0) : Type 0 where
  refused : ℕ → Bytes → Answer A
  passed : A → Answer A

abbrev pub bound : Bool → Option Listener → Option Listener
bound listens none = if listens then some opened else none
bound listens (some ln) = some ln

abbrev closed : Option Listener → Option Listener
closed none = none
closed (some ln) = some (record ln { is_closed = true })

module _ {H : Type 0} where
  unfoldable pub new_connect_server : GrpcConfig → ConnectServer H
  unfolding grpc_defaults
  new_connect_server config = record {
    config = grpc_defaults config;
    is_running = false;
    listener = none;
    mux = [];
    serving = none;
    auth_secret = [];
    auth_lookup = [];
  }

  unfoldable pub set_auth_secret : Bytes → ConnectServer H → ConnectServer H
  set_auth_secret secret cs = record cs { auth_secret = secret }

  unfoldable pub set_auth_lookup : Bytes → ConnectServer H → ConnectServer H
  set_auth_lookup spec cs = record cs { auth_lookup = spec }

  unfoldable pub set_listener : Listener → ConnectServer H → ConnectServer H
  set_listener ln cs = record cs { listener = some ln }

  unfoldable pub register_path : Bytes → H → ConnectServer H → ConnectServer H
  register_path path handler cs = record cs { mux = cs.mux ++ (path, handler) ∷ [] }

  -- `authorization` is the request's header of that name; `next` is what the mux gives.
  unfoldable pub auth_middleware :
      {A : Type 0} → JwtLibrary → ℕ → ConnectServer H → Bytes → A → Answer A
  unfolding trim_space validate_jwt
  auth_middleware J now cs authorization next =
      let raw = trim_space (trim_prefix authorization (codes "Bearer ")) in
      if not (is_empty cs.auth_secret) && not (is_valid (validate_jwt J now raw cs.auth_secret))
      then refused 401 (codes "{\"error\":\"unauthorized\"}")
      else passed next

  -- The listener is kept, wrapped where there is TLS.
  abbrev pub serve_on : Bool → ConnectServer H → Option Listener → ConnectServer H × Bool
  serve_on key_pair cs none = (cs, false)
  serve_on key_pair cs (some ln) =
      let wrapped =
        if tls_enabled cs.config.base then record ln { tls_layers = suc ln.tls_layers } else ln in
      if tls_enabled cs.config.base && not key_pair
      then (cs, false)
      else (record cs { listener = some wrapped; serving = some wrapped; is_running = true }, true)

  -- Whether the port is free and the key pair can be loaded; the result is whether Start gives no error.
  unfoldable pub start : Bool → Bool → ConnectServer H → ConnectServer H × Bool
  start listens key_pair cs =
      if cs.is_running then (cs, true) else serve_on key_pair cs (bound listens cs.listener)

  -- Shutdown closes the listener that is served, which the server keeps; the first argument is the error
  -- that it gives.
  unfoldable pub stop : Option Bytes → ConnectServer H → ConnectServer H × Option Bytes
  stop err cs =
      if cs.is_running
      then (record cs { is_running = false; listener = closed cs.listener; serving = none }, err)
      else (cs, none)
