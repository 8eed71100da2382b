-- ===== src/Protocol/RpcTests.antt =====
-- Small gRPC, Connect and GraphQL servers, at which the theorems on them hold.
use goichi.Prelude.{ℕ, ◌≡◌, refl, true, false, none, some, List, [], ◌∷◌, if◌then◌else◌}
use goichi.Prelude.Text.{Bytes, codes, bytes_eq}
use goichi.Prelude.Int.{pos}
use goichi.Http.{FastHttp, opaque}
use goichi.Middleware.Jwt.{JwtLibrary, Fields, extract_token, validate_jwt}
use goichi.Router.Dispatch.{served}
use goichi.Tree.{has_prefix}
use goichi.Protocol.{ProtocolConfig}
use goichi.Protocol.Settings.{GrpcConfig, GraphQlConfig}
use goichi.Protocol.Grpc.{GrpcLibrary, Interceptor, Built, GrpcServer, start, server_options}
use goichi.Protocol.Grpc
use goichi.Protocol.Grpc.Guard.{unary_of, streams_of, start-guarded}
use goichi.Protocol.Connect.{ConnectServer}
use goichi.Protocol.Connect.Restart.{restarted, restarted-is_closed}
use goichi.Protocol.GraphQl.{GraphQlLibrary, GraphQlServer, mounted_router, own_router}
use goichi.Protocol.GraphQl.Guard.{routers-shut_out}

abbrev base : ProtocolConfig
base = record {
  enabled = true;
  port = pos 8082;
  address = [];
  tls_cert_file = codes "cert";
  tls_key_file = codes "key";
}

abbrev grpc_config : GrpcConfig
grpc_config = record {
  base = base;
  max_concurrent_streams = pos 100;
  max_recv_msg_size = pos 4096;
  max_send_msg_size = pos 4096;
  keepalive_time = pos 60;
}

-- A token is valid under the secret that it is.
abbrev tokens : JwtLibrary
tokens = record {
  parse = λ raw secret now. if bytes_eq raw secret then some [] else none;
  sign = λ claims secret. some secret;
  date = λ n. opaque n;
}

-- A call is its authorization metadata; what it gives is a text.
abbrev chained : List (Interceptor Bytes Bytes) → Interceptor Bytes Bytes
chained [] h ctx = h ctx
chained (i ∷ is) h ctx = i (chained is h) ctx

abbrev grpc_library : GrpcLibrary Bytes Bytes Bytes
grpc_library = record {
  time_of = λ ctx. 0;
  from_incoming_context = some;
  get = λ md key. md ∷ [];
  with_claims = λ claims ctx. codes "known";
  claims_of = λ ctx. some [];
  unauthenticated = λ msg. msg;
  chain = chained;
}

abbrev grpc_server : GrpcServer Bytes Bytes
grpc_server = record {
  config = grpc_config;
  server = none;
  is_running = false;
  injected = false;
  has_register_func = true;
  unary_src = some ((λ h ctx. h ctx) ∷ []);
  stream_src = none;
  auth_secret = codes "s3";
  auth_lookup = [];
}

abbrev started_grpc : GrpcServer Bytes Bytes
started_grpc = record grpc_server {
  is_running = true;
  server =
      some (record { options = server_options grpc_library tokens grpc_server; registered = true });
}

-- A valid token: the service gets the context with the claims.
start-guarded_example :
    (b : Built Bytes Bytes) × (started_grpc.server ≡ some b)
    × (chained (unary_of b.options) (λ ctx. ctx) (codes "Bearer s3") ≡ codes "known")
    × (chained (streams_of b.options) (λ ctx. ctx) (codes "Bearer s3") ≡ codes "known")
unfolding Grpc.start goichi.Prelude.Text.trim_space has_prefix
start-guarded_example =
    start-guarded grpc_library tokens (λ i is h ctx. refl) true true grpc_server started_grpc
      (λ ctx. ctx) (codes "Bearer s3") refl refl refl refl

abbrev connect_server : ConnectServer ℕ
connect_server = record {
  config = grpc_config;
  is_running = false;
  listener = none;
  mux = [];
  serving = none;
  auth_secret = [];
  auth_lookup = [];
}

restarted-is_closed_example :
    ((restarted none connect_server).1 ≡ true)
    × ((restarted none connect_server).0.is_running ≡ true)
    × ((restarted none connect_server).0.serving
        ≡ some (record { tls_layers = 2; is_closed = true }))
restarted-is_closed_example = restarted-is_closed none connect_server refl refl

-- A request is its path and its token; a response is a text.
abbrev Req : Type 0
Req = Bytes × (Bytes × Bytes)

abbrev respond : Bytes → Req → Req
respond text (path, (token, body)) = (path, (token, text))

abbrev fast_http : FastHttp Req
fast_http = record {
  method = λ c. codes "POST";
  path = λ c. c.0;
  set_status = λ n c. c;
  set_content_type = λ t c. c;
  set_header = λ k v c. c;
  set_body = respond;
  reset_body = respond [];
  json_error = some;
}

abbrev fields : Fields Req
fields = record {
  header = λ k c. c.1.0;
  query = λ k c. [];
  cookie = λ k c. [];
  set_header = λ k v c. c;
}

abbrev graphql_library : GraphQlLibrary Req Bytes
graphql_library = record {
  handler_of = λ schema limit closed c. served (respond schema c);
  playground = λ path c. served c;
  error = λ msg status c. respond msg c;
}

abbrev graphql_config : GraphQlConfig
graphql_config = record {
  base = base;
  query_path = codes "/graphql";
  playground_path = codes "/play";
  max_query_depth = pos 10;
  timeout = pos 30;
  max_complexity = pos 1000;
  enable_playground = true;
  enable_introspection = true;
  require_auth = false;
}

abbrev graphql_server : GraphQlServer Req Bytes
graphql_server = record {
  config = graphql_config;
  is_running = true;
  server = none;
  outer_mw = none;
  schema = some (codes "users");
  auth_secret = codes "s3";
  auth_lookup = [];
}

abbrev query : Req
query = (codes "/graphql", (codes "Bearer s4", []))

routers-shut_out_example :
    (mounted_router fast_http fields tokens graphql_library graphql_server (codes "s3") [] 0 query
      ≡ mounted_router fast_http fields tokens graphql_library
          (record graphql_server { schema = none })
          (codes "s3")
          []
          0
          query)
    × (own_router fast_http fields tokens graphql_library graphql_server (codes "s3") [] 0 query
        ≡ own_router fast_http fields tokens graphql_library
            (record graphql_server { schema = none })
            (codes "s3")
            []
            0
            query)
unfolding extract_token validate_jwt has_prefix
routers-shut_out_example =
    routers-shut_out fast_http fields tokens graphql_library graphql_server none (codes "s3") [] 0
      query (refl, refl)

-- With the right token the schema is asked.
query_known :
    mounted_router fast_http fields tokens graphql_library graphql_server
      (codes "s3")
      []
      0
      (codes "/graphql", (codes "Bearer s3", []))
    ≡ served (codes "/graphql", (codes "Bearer s3", codes "users"))
unfolding mounted_router has_prefix
query_known = refl
