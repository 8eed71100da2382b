-- ===== src/App/Tests.antt =====
-- An app with a WebSocket server and a nil route, at which the theorems on apps hold.
use goichi.Prelude.{◌≡◌, refl, true, false, none, some, List, [], ◌∷◌, ◌++◌}
use goichi.Prelude.Text.{Bytes, codes}
use goichi.Prelude.Int.{pos}
use goichi.Http
use goichi.Http.{FastHttp, Context, lookup, call}
use goichi.Middleware.Jwt.{JwtLibrary, Fields, JwtConfig}
use goichi.OpenApi.{security_none}
use goichi.Protocol.Registry.{ProtocolHandler, register, set_unified_auth}
use goichi.Router.{RouteEntry}
use goichi.Router.Dispatch.{served}
use goichi.Router.Compile.{compile}
use goichi.App.{
  Config, App, register_protocol, mount_protocol, set_jwt_auth, protected_app, new, use_app,
  use_protocol, use_all,
}
use goichi.App.Auth.{Setup, setting_jwt_auth, registering, after_calls, after_calls-covered}
use goichi.App.Recovery.{answered, behind_first, compile-recovers}

-- A request context is the body of its response.
abbrev http : FastHttp Bytes
http = record {
  method = λ c. codes "GET";
  path = λ c. codes "/";
  set_status = λ n c. c;
  set_content_type = λ t c. c;
  set_header = λ k v c. c;
  set_body = λ b c. b;
  reset_body = λ c. [];
  json_error = λ msg. some msg;
}

abbrev append_body : Bytes → Bytes → Bytes
append_body b c = c ++ b

abbrev fields : Fields Bytes
fields = record {
  header = λ k c. [];
  query = λ k c. [];
  cookie = λ k c. [];
  set_header = λ k v c. c;
}

abbrev no_tokens : JwtLibrary
no_tokens = record {
  parse = λ raw secret now. none;
  sign = λ claims secret. none;
  date = Http.opaque;
}

abbrev jwt_config : Bytes → JwtConfig Bytes
jwt_config secret = record { secret = secret; token_lookup = []; error_handler = none }

abbrev config : Config Bytes
config = record {
  server = record {
    app_name = [];
    multiprocess = false;
    num_children = pos 0;
    show_startup = none;
    startup_banner = [];
    enable_port_multiplexing = true;
    read_timeout = pos 0;
    write_timeout = pos 0;
    idle_timeout = pos 0;
    max_request_body_size = pos 0;
    tls_cert_file = [];
    tls_key_file = [];
  };
  routing = record { strict_slash = false; case_sensitive = false };
  docs = record {
    enable = false;
    path = [];
    title = [];
    desc = [];
    page_title = [];
    dark_mode = false;
    scalar_js_url = [];
    security = security_none;
    filter = none;
  };
  jwt = jwt_config [];
  security = security_none;
}

abbrev socket : ProtocolHandler Bytes
socket = record {
  name = codes "websocket";
  paths = codes "/ws" ∷ [];
  auth_aware = true;
  fast_http_aware = true;
  unary_interceptable = false;
  stream_interceptable = false;
  fast_http_handler = some served;
  http_handler = none;
  auth_secret = [];
  auth_lookup = [];
  is_running = false;
  outer_middleware = false;
  unary_source = false;
  stream_source = false;
}

abbrev calls : List (Setup Bytes)
calls = registering socket ∷ setting_jwt_auth 5 (jwt_config (codes "s")) ∷ []

abbrev app : App Bytes
app =
    after_calls http append_body fields no_tokens calls
      (new http append_body fields no_tokens 3 config)

-- The handler as it stands in the registry.
abbrev registered : ProtocolHandler Bytes
registered = record socket {
  auth_secret = codes "s";
  auth_lookup = codes "header:Authorization";
  outer_middleware = true;
}

abbrev expected : Bytes × Bytes
expected = (codes "s", codes "header:Authorization")

abbrev carried : ProtocolHandler Bytes → Bytes × Bytes
carried handler = (handler.auth_secret, handler.auth_lookup)

after_calls-covered_example : carried registered ≡ expected
unfolding new register_protocol mount_protocol set_jwt_auth protected_app use_all use_app
    use_protocol register set_unified_auth lookup Http.insert
after_calls-covered_example =
    after_calls-covered http append_body fields no_tokens 3 config calls (codes "websocket")
      registered expected refl refl refl

-- A nil handler.
abbrev entry : RouteEntry Bytes
entry = record { method = codes "GET"; path = codes "/"; handler = none; mws = []; info = 0 }

abbrev request : Context Bytes
request = record { request_ctx = []; params = []; jwt_claims = none; locals = [] }

compile-recovers_example :
    call (compile app.router entry) request
    ≡ answered http append_body (behind_first http append_body app.router entry request)
compile-recovers_example =
    compile-recovers http append_body fields no_tokens 3 config calls entry request
