-- ===== src/Protocol/Tests.antt =====
-- Small servers, at which the theorems on the protocols hold.
use goichi.Prelude.{
  ℕ, suc, ◌≡◌, refl, Bool, true, false, ◌&&◌, ◌||◌, Option, none, some, List, [], ◌∷◌, ◌==◌,
  if◌then◌else◌, arith,
}
use goichi.Prelude.Text.{equal_fold, Bytes, codes, bytes_eq}
use goichi.Prelude.Int.{pos}
use goichi.Http
use goichi.Tree.{has_prefix}
use goichi.Http.{Value, text, opaque, lookup}
use goichi.Middleware.Jwt.{JwtLibrary, Fields, extract_token, validate_jwt}
use goichi.Protocol.{ProtocolConfig}
use goichi.Protocol.Settings.{
  McpConfig, mcp_defaults, MqttConfig, WebSocketConfig, websocket_defaults,
}
use goichi.Protocol.Mcp.{
  Json, JsonRpcRequest, McpServer, new_mcp_server, register_tool, register_resource, Tool, Resource,
  unauthorized,
}
use goichi.Protocol.Mcp
use goichi.Protocol.Mcp.Registration.{
  Registration, tool, resource, register_all, IsWithinLimits, register_all-IsWithinLimits,
}
use goichi.Protocol.Mcp.Sessions.{Asked, opened, asked, handled, Session-refuses}
use goichi.Protocol.Mqtt.{MqttLibrary, new_mqtt_broker}
use goichi.Protocol.Mqtt.Subscriptions.{
  IsMqttLibrary, Call, subscribing, unsubscribing, spec, after, Refines,
}
use goichi.Protocol.Mqtt.Refinement.{after-Refines}
use goichi.Protocol.WebSocket
use goichi.Protocol.WebSocket.{
  Upgrader, upgraded, WebSocketServer, new_web_socket_server, start, connect, origin_host,
  check_origin, check_auth, handle_request,
}
use goichi.Protocol.WebSocket.Admission.{IsPermitted, handle_request-IsPermitted}

abbrev base : ProtocolConfig
base = record { enabled = true; port = pos 0; address = []; tls_cert_file = []; tls_key_file = [] }

abbrev mcp_config : McpConfig
mcp_config = record {
  base = base;
  max_tool_count = pos 1;
  max_resource_count = pos 1;
  timeout = pos 0;
  max_request_bytes = pos 0;
  require_auth = true;
}

-- A tool that counts its calls.
abbrev counter : Bytes → Tool ℕ
counter name = record {
  name = name;
  description = [];
  input_schema = opaque 0;
  handler = λ args n. (suc n, some (opaque n, none));
}

abbrev mcp_server : McpServer ℕ
mcp_server = new_mcp_server mcp_config

abbrev registrations : List (Registration ℕ)
registrations =
    tool (counter (codes "a"))
    ∷ tool (counter (codes "b"))
    ∷ resource (record {
      uri = codes "u";
      name = [];
      description = [];
      mime_type = [];
      content = opaque 0;
    })
    ∷ []

register_all-IsWithinLimits_example : IsWithinLimits 1 1 (register_all registrations mcp_server)
unfolding new_mcp_server mcp_defaults
register_all-IsWithinLimits_example =
    register_all-IsWithinLimits 1 1 registrations mcp_server (record {
      tool_limit = refl;
      resource_limit = refl;
      tools_within = omega arith;
      resources_within = omega arith;
    })

abbrev json : Json
json = record { token_of = λ s. s; call_of = λ s. some (s, opaque 0) }

-- A token is valid under the secret that it is.
abbrev tokens : JwtLibrary
tokens = record {
  parse = λ raw secret now. if bytes_eq raw secret then some [] else none;
  sign = λ claims secret. some secret;
  date = opaque;
}

abbrev asking : Bytes → Asked ℕ
asking method = record {
  now = 5;
  server = register_all registrations mcp_server;
  request = record { id = opaque 1; method = method; params = codes "a" };
}

-- A login without a token, and then the call of a tool.
Session-refuses_example :
    handled json tokens (asking (codes "tools/call")) false 3
    ≡ (false, (3, some (record { id = opaque 1; result = unauthorized })))
unfolding new_mcp_server mcp_defaults register_tool register_resource validate_jwt Mcp.initialize
    Mcp.answer Mcp.handle_request Http.insert
Session-refuses_example =
    Session-refuses json tokens (asked opened (asking (codes "initialize")) 0 refl) refl
      (asking (codes "tools/call")) 3 refl refl

-- The handlers of a server by filter and id.
abbrev Handlers : Type 0
Handlers = Bytes → ℕ → Option ℕ

abbrev with_handler : Bytes → ℕ → Option ℕ → Handlers → Handlers
with_handler topic id o s t i = if bytes_eq topic t && id == i then o else s t i

abbrev takes : Bytes → Bool
takes topic = bytes_eq topic (codes "a") || bytes_eq topic (codes "b")

-- A filter that it does not take is an error.
abbrev handlers : MqttLibrary Handlers ℕ
handlers = record {
  subscribe = λ topic id h s.
      if takes topic
      then (with_handler topic id (some h) s, none)
      else (s, some (codes "invalid filter"));
  unsubscribe = λ topic id s. (with_handler topic id none s, none);
  handler_of = λ s. s;
}

handlers-IsMqttLibrary : IsMqttLibrary handlers takes
handlers-IsMqttLibrary = record {
  sets = λ topic t id i h s ok. rw ok refl;
  clears = λ topic t id i s. refl;
}

abbrev mqtt_config : MqttConfig
mqtt_config = record {
  base = base;
  broker_path = [];
  max_message_size = pos 0;
  keep_alive = pos 0;
  max_queued_messages = pos 0;
  auth_enabled = false;
  allow_anonymous = false;
  max_connections = pos 0;
}

abbrev no_handlers : Handlers
no_handlers t i = none

abbrev calls : List (Call ℕ)
calls =
    subscribing (codes "a") 9
    ∷ unsubscribing (codes "b")
    ∷ subscribing (codes "a") 8
    ∷ subscribing (codes "b") 7
    ∷ []

after-Refines_example :
    Refines handlers
      (after handlers calls (new_mqtt_broker mqtt_config no_handlers)).subs
      (after handlers calls (new_mqtt_broker mqtt_config no_handlers)).server
      (spec calls)
after-Refines_example =
    after-Refines handlers takes handlers-IsMqttLibrary mqtt_config no_handlers calls (λ t i. refl)
      refl

abbrev socket_config : WebSocketConfig
socket_config = record {
  base = base;
  path = codes "/ws";
  max_connections = pos 2;
  read_buffer_size = pos 0;
  write_buffer_size = pos 0;
  handshake_timeout = pos 0;
  ping_interval = pos 0;
  pong_wait = pos 0;
  allowed_origins = [];
  require_auth = true;
}

-- A request is its Origin and its Authorization header.
abbrev Req : Type 0
Req = Bytes × Bytes

abbrev upgrader : Upgrader Req
upgrader = record {
  path = λ c. codes "/ws";
  host = λ c. codes "Shop";
  equal_fold = equal_fold;
  upgrade = λ check c. check c;
}

abbrev fields : Fields Req
fields = record {
  header = λ k c. if bytes_eq k (codes "Origin") then c.0 else c.1;
  query = λ k c. [];
  cookie = λ k c. [];
  set_header = λ k v c. c;
}

abbrev socket_server : WebSocketServer Req ℕ
socket_server = record (new_web_socket_server socket_config) { auth_secret = codes "s" }

abbrev request : Req
request = (codes " https://shop", codes "Bearer s")

handle_request-IsPermitted_example :
    IsPermitted upgrader fields tokens 5 (start true true socket_server).0 request
unfolding new_web_socket_server start WebSocket.handle_request check_origin check_auth origin_host
    validate_jwt extract_token websocket_defaults has_prefix
handle_request-IsPermitted_example =
    handle_request-IsPermitted upgrader fields tokens 5 (start true true socket_server).0 request
      (λ check h. h) refl
