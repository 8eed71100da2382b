-- ===== src/Protocol/Grpc.antt =====
-- protocol/grpc/server.go: the interceptors of unified authentication, Start and Stop. The gRPC library is
-- an interface: X is a context, D its metadata, A what a call gives.
pub mod Guard
use goichi.Prelude.{
  ℕ, Bool, true, false, not, ◌&&◌, ◌||◌, Option, none, some, List, [], ◌∷◌, ◌++◌, if◌then◌else◌,
  is_empty,
}
use goichi.Prelude.Text.{Bytes, codes, trim_space}
use goichi.Prelude.Int.{ℤ, pos, less}
use goichi.Middleware.Jwt.{JwtLibrary, Claims, Verdict, valid, rejected, validate_jwt}
use goichi.Proxy.Forward.{trim_prefix}
use goichi.Protocol.{tls_enabled}
use goichi.Protocol.Settings.{GrpcConfig, grpc_defaults}

-- The time at which the token of a call is checked, metadata.FromIncomingContext and Get,
-- context.WithValue and Value under the key of the claims, the outcome of a call that is
-- unauthenticated, with its message, and what several interceptors make together.
pub record GrpcLibrary (X D A : Type 0) : Type 0 where
  pub time_of : X → ℕ
  pub from_incoming_context : X → Option D
  pub get : D → Bytes → List Bytes
  pub with_claims : Claims → X → X
  pub claims_of : X → Option Claims
  pub unauthenticated : Bytes → A
  pub chain : List ((X → A) → X → A) → (X → A) → X → A

-- A UnaryServerInterceptor or, where X is the context of the stream, a StreamServerInterceptor.
abbrev pub Interceptor : Type 0 → Type 0 → Type 0
Interceptor X A = (X → A) → X → A

-- What grpc.NewServer is given.
pub data ServerOption (X A : Type 0) : Type 0 where
  max_recv_msg_size max_send_msg_size max_concurrent_streams keepalive_seconds :
      ℤ → ServerOption X A
  creds : ServerOption X A
  chain_unary_interceptor chain_stream_interceptor : List (Interceptor X A) → ServerOption X A

-- A server of the library, and whether RegisterFunc was called on it.
pub record Built (X A : Type 0) : Type 0 where
  pub options : List (ServerOption X A)
  pub registered : Bool

-- `none` is a nil func, of the sources of interceptors.
pub record GrpcServer (X A : Type 0) : Type 0 where
  pub config : GrpcConfig
  pub server : Option (Built X A)
  pub is_running : Bool
  pub injected : Bool
  pub has_register_func : Bool
  pub unary_src : Option (List (Interceptor X A))
  pub stream_src : Option (List (Interceptor X A))
  pub auth_secret : Bytes
  pub auth_lookup : Bytes

abbrev pub when_any :
    {X A : Type 0}
    → (List (Interceptor X A) → ServerOption X A)
    → List (Interceptor X A)
    → List (ServerOption X A)
when_any option [] = []
when_any option (i ∷ is) = option (i ∷ is) ∷ []

module _ {X D A : Type 0} (G : GrpcLibrary X D A) (J : JwtLibrary) where
  abbrev pub first_value : List Bytes → Bytes
  first_value [] = []
  first_value (v ∷ vs) = trim_prefix (trim_space v) (codes "Bearer ")

  unfoldable pub token_of : D → Bytes
  unfolding trim_space
  token_of md =
      let vals = G.get md (codes "authorization") in
      first_value (if is_empty vals then G.get md (codes "Authorization") else vals)

  abbrev pub on_verdict : (X → A) → X → Verdict → A
  on_verdict handler ctx (valid claims) = handler (G.with_claims claims ctx)
  on_verdict handler ctx (rejected msg) = G.unauthenticated msg

  abbrev pub with_metadata : Bytes → (X → A) → X → Option D → A
  with_metadata secret handler ctx none = G.unauthenticated (codes "missing metadata")
  with_metadata secret handler ctx (some md) =
      let raw = token_of md in
      if is_empty raw
      then G.unauthenticated (codes "missing or empty token")
      else on_verdict handler ctx (validate_jwt J (G.time_of ctx) raw secret)

  unfoldable pub unified_auth_interceptor : Bytes → Interceptor X A
  unfolding token_of validate_jwt
  unified_auth_interceptor secret handler ctx =
      with_metadata secret handler ctx (G.from_incoming_context ctx)

  abbrev pub get_claims : X → Option Claims
  get_claims ctx = G.claims_of ctx

  -- The interceptor of unified authentication, if there is a secret, in front of those of the source.
  abbrev pub interceptors : Bytes → Option (List (Interceptor X A)) → List (Interceptor X A)
  interceptors secret src =
      let own = if is_empty secret then [] else unified_auth_interceptor secret ∷ [] in
      own ++ elim src [ none ↦ [] | some ints ↦ ints ]

  unfoldable pub server_options : GrpcServer X A → List (ServerOption X A)
  server_options gs =
      max_recv_msg_size gs.config.max_recv_msg_size
      ∷ max_send_msg_size gs.config.max_send_msg_size
      ∷ max_concurrent_streams gs.config.max_concurrent_streams
      ∷ ((if less (pos 0) gs.config.keepalive_time
            then keepalive_seconds gs.config.keepalive_time ∷ []
            else [])
          ++ ((if tls_enabled gs.config.base then creds ∷ [] else [])
              ++ (when_any chain_unary_interceptor (interceptors gs.auth_secret gs.unary_src)
                  ++ when_any chain_stream_interceptor
                      (interceptors gs.auth_secret gs.stream_src))))

  abbrev pub serving : Bool → GrpcServer X A → GrpcServer X A × Bool
  serving listens gs =
      if gs.injected || listens then (record gs { is_running = true }, true) else (gs, false)

  -- Whether the key pair can be loaded and the port is free; the result is whether Start gives no error.
  unfoldable pub start : Bool → Bool → GrpcServer X A → GrpcServer X A × Bool
  unfolding server_options unified_auth_interceptor
  start key_pair listens gs =
      if gs.is_running
      then (gs, true)
      else if not gs.config.base.enabled
      then (gs, true)
      else if tls_enabled gs.config.base && not key_pair
      then (gs, false)
      else serving listens (record gs {
        server = some (record { options = server_options gs; registered = gs.has_register_func });
      })

module _ {X A : Type 0} where
  unfoldable pub new_grpc_server : GrpcConfig → GrpcServer X A
  unfolding grpc_defaults
  new_grpc_server config = record {
    config = grpc_defaults config;
    server = none;
    is_running = false;
    injected = false;
    has_register_func = false;
    unary_src = none;
    stream_src = none;
    auth_secret = [];
    auth_lookup = [];
  }

  unfoldable pub set_listener : GrpcServer X A → GrpcServer X A
  set_listener gs = record gs { injected = true }

  unfoldable pub set_auth_secret : Bytes → GrpcServer X A → GrpcServer X A
  set_auth_secret secret gs = record gs { auth_secret = secret }

  unfoldable pub set_auth_lookup : Bytes → GrpcServer X A → GrpcServer X A
  set_auth_lookup spec gs = record gs { auth_lookup = spec }

  unfoldable pub set_unary_interceptor_source :
      List (Interceptor X A) → GrpcServer X A → GrpcServer X A
  set_unary_interceptor_source src gs = record gs { unary_src = some src }

  unfoldable pub set_stream_interceptor_source :
      List (Interceptor X A) → GrpcServer X A → GrpcServer X A
  set_stream_interceptor_source src gs = record gs { stream_src = some src }

  unfoldable pub stop : GrpcServer X A → GrpcServer X A
  stop gs = if gs.is_running then record gs { is_running = false } else gs
