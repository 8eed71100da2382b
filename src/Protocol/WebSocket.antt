-- ===== src/Protocol/WebSocket.antt =====
-- protocol/websocket/server.go: the checks of an upgrade request, the table of connections, Start and Stop.
-- The upgrader of the websocket library is an interface; W is a *websocket.Conn.
pub mod Origin
pub mod Admission
use goichi.Prelude.{
  ℕ, ◌+◌, Bool, true, false, not, ◌&&◌, ◌||◌, Option, none, some, List, [], ◌∷◌, ◌++◌, map,
  if◌then◌else◌, is_empty, any, length,
}
use goichi.Prelude.Text.{Bytes, codes, bytes_eq, trim_space}
use goichi.Prelude.Int.{ℤ, at_least}
use goichi.Http
use goichi.Http.{lookup, erase}
use goichi.Middleware.Jwt.{
  is_valid, JwtLibrary, Fields, valid, rejected, validate_jwt, extract_token,
}
use goichi.Protocol.{tls_enabled}
use goichi.Protocol.Settings.{WebSocketConfig, websocket_defaults}

-- The path and the host of a request, and strings.EqualFold, which folds Unicode. Upgrade with a
-- CheckOrigin: whether it gives no error and runs the connection.
pub record Upgrader (C : Type 0) : Type 0 where
  pub path : C → Bytes
  pub host : C → Bytes
  pub equal_fold : Bytes → Bytes → Bool
  pub upgrade : (C → Bool) → C → Bool

-- What a request gets: an error with its status, a connection, or the library's refusal.
pub data Answer : Type 0 where
  refused : ℕ → Bytes → Answer
  upgraded not_upgraded : Answer

pub record WebSocketServer (C W : Type 0) : Type 0 where
  pub config : WebSocketConfig
  pub is_running : Bool
  pub connections : List (Bytes × W)
  pub done_closed : Bool
  pub outer_mw : Option ((C → Answer) → C → Answer)
  pub auth_secret : Bytes
  pub auth_lookup : Bytes

-- What follows the first "://".
unfoldable pub after_scheme : Bytes → Option Bytes
after_scheme [] = none
after_scheme (a ∷ []) = none
after_scheme (a ∷ b ∷ []) = none
after_scheme (a ∷ b ∷ c ∷ s) =
    let rest = after_scheme (b ∷ c ∷ s) in
    if bytes_eq (a ∷ b ∷ c ∷ []) (codes "://") then some s else rest

unfoldable pub origin_host : Bytes → Bytes
unfolding after_scheme
origin_host origin = elim (after_scheme origin) [ none ↦ origin | some host ↦ host ]

abbrev pub allows : {C : Type 0} → Upgrader C → Bytes → Bytes → Bool
allows U origin o = bytes_eq o (codes "*") || U.equal_fold o origin

abbrev pub field_1 : {A B : Type 0} → A × B → B
field_1 p = p.1

module _ {C W : Type 0} where
  unfoldable pub new_web_socket_server : WebSocketConfig → WebSocketServer C W
  unfolding websocket_defaults
  new_web_socket_server config = record {
    config = websocket_defaults config;
    is_running = false;
    connections = [];
    done_closed = false;
    outer_mw = none;
    auth_secret = [];
    auth_lookup = [];
  }

  unfoldable pub set_auth_secret : Bytes → WebSocketServer C W → WebSocketServer C W
  set_auth_secret secret ws = record ws { auth_secret = secret }

  unfoldable pub set_auth_lookup : Bytes → WebSocketServer C W → WebSocketServer C W
  set_auth_lookup spec ws = record ws { auth_lookup = spec }

  unfoldable pub set_fast_http_outer_middleware :
      ((C → Answer) → C → Answer) → WebSocketServer C W → WebSocketServer C W
  set_fast_http_outer_middleware wrap ws = record ws { outer_mw = some wrap }

  -- Whether the port was free and the key pair could be loaded; the result is whether Start gives no
  -- error.
  unfoldable pub start : Bool → Bool → WebSocketServer C W → WebSocketServer C W × Bool
  start listens key_pair ws =
      if ws.is_running
      then (ws, true)
      else if not ws.config.base.enabled
      then (ws, true)
      else if not listens
      then (ws, false)
      else if tls_enabled ws.config.base && not key_pair
      then (ws, false)
      else (record ws { is_running = true }, true)

  -- `none` is the panic of a second close of the channel.
  unfoldable pub stop : WebSocketServer C W → Option (WebSocketServer C W)
  stop ws =
      if not ws.is_running
      then some ws
      else if ws.done_closed
      then none
      else some (record ws { is_running = false; done_closed = true })

  -- A connection's entry in the table, made when it is upgraded and removed when it ends.
  unfoldable pub connect : Bytes → W → WebSocketServer C W → WebSocketServer C W
  connect id conn ws = record ws { connections = Http.insert id conn ws.connections }

  unfoldable pub disconnect : Bytes → WebSocketServer C W → WebSocketServer C W
  disconnect id ws = record ws { connections = erase id ws.connections }

  -- The connections that are written to.
  abbrev pub broadcast : WebSocketServer C W → List W
  broadcast ws = map field_1 ws.connections

  -- The error of the write to a connection, or of the missing client.
  unfoldable pub send_to_client : (W → Option Bytes) → Bytes → WebSocketServer C W → Option Bytes
  unfolding lookup
  send_to_client write client_id ws = elim (lookup client_id ws.connections) [
    | none ↦ some (codes "client " ++ client_id ++ codes " not found")
    | some conn ↦ write conn
  ]

  module _ (U : Upgrader C) (R : Fields C) (J : JwtLibrary) where
    unfoldable pub check_origin : WebSocketServer C W → C → Bool
    check_origin ws ctx =
        let origin = trim_space (R.header (codes "Origin") ctx) in
        let oh = origin_host origin in
        if is_empty origin
        then true
        else if any (allows U origin) ws.config.allowed_origins
        then true
        else is_empty ws.config.allowed_origins
          && (not (is_empty oh) && U.equal_fold oh (U.host ctx))

    unfoldable pub check_auth : ℕ → WebSocketServer C W → C → Bool
    check_auth now ws ctx =
        if is_empty ws.auth_secret && not ws.config.require_auth
        then true
        else if is_empty ws.auth_secret && ws.config.require_auth
        then false
        else is_valid (validate_jwt J now (extract_token R ws.auth_lookup ctx) ws.auth_secret)

    abbrev pub upgrade : WebSocketServer C W → C → Answer
    upgrade ws ctx = if U.upgrade (check_origin ws) ctx then upgraded else not_upgraded

    unfoldable pub handle_request : ℕ → WebSocketServer C W → C → Answer
    unfolding check_origin check_auth origin_host trim_space validate_jwt extract_token
    handle_request now ws ctx =
        if ws.is_running && not (bytes_eq (U.path ctx) ws.config.path)
        then refused 404 (codes "Not Found")
        else if not (check_auth now ws ctx)
        then refused 401 (codes "Unauthorized")
        else if at_least (length ws.connections) ws.config.max_connections
        then refused 503 (codes "Too Many Connections")
        else upgrade ws ctx

    unfoldable pub handler : ℕ → WebSocketServer C W → C → Answer
    unfolding handle_request
    handler now ws = elim ws.outer_mw [
      | none ↦ handle_request now ws
      | some outer ↦ outer (handle_request now ws)
    ]
