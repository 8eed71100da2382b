-- ===== src/Protocol/GraphQl.antt =====
-- protocol/graphql/server.go: the handler of queries behind authentication, the two routers of Handler and
-- Start, and Stop. The GraphQL library and fasthttp's Error are an interface; S is an executable schema.
pub mod Guard
use goichi.Prelude.{
  ℕ, Bool, true, false, not, ◌&&◌, ◌||◌, Option, none, some, List, [], ◌∷◌, if◌then◌else◌, is_empty,
  length, leb, ◌-◌, drop,
}
use goichi.Prelude.Text.{Bytes, codes, bytes_eq}
use goichi.Prelude.Int.{ℤ, pos, less}
use goichi.Http.{FastHttp}
use goichi.Router.Dispatch.{Served, served}
use goichi.Middleware.Jwt.{JwtLibrary, Fields, is_valid, validate_jwt, extract_token}
use goichi.Protocol.{tls_enabled}
use goichi.Protocol.Settings.{GraphQlConfig, graphql_defaults}

abbrev RequestHandler : Type 0 → Type 0
RequestHandler C = C → Served C

-- A handler that reads the secret and the lookup of its server, and the clock, for each request.
abbrev pub LiveHandler : Type 0 → Type 0
LiveHandler C = (secret spec : Bytes) (now : ℕ) → C → Served C

-- A schema as a handler, with the limit of complexity if there is one and whether introspection is
-- disabled; the page of the playground for a path; ctx.Error with its message and status.
pub record GraphQlLibrary (C S : Type 0) : Type 0 where
  pub handler_of : S → Option ℤ → Bool → C → Served C
  pub playground : Bytes → C → Served C
  pub error : Bytes → ℕ → C → C

pub record GraphQlServer (C S : Type 0) : Type 0 where
  pub config : GraphQlConfig
  pub is_running : Bool
  pub server : Option (LiveHandler C)
  pub outer_mw : Option ((C → Served C) → C → Served C)
  pub schema : Option S
  pub auth_secret : Bytes
  pub auth_lookup : Bytes

-- strings.HasSuffix
abbrev pub has_suffix : Bytes → Bytes → Bool
has_suffix s suffix =
    leb (length suffix) (length s) && bytes_eq (drop (length s - length suffix) s) suffix

module _ {C S : Type 0} where
  unfoldable pub new_graphql_server : GraphQlConfig → Option S → GraphQlServer C S
  unfolding graphql_defaults
  new_graphql_server config schema = record {
    config = graphql_defaults config;
    is_running = false;
    server = none;
    outer_mw = none;
    schema = schema;
    auth_secret = [];
    auth_lookup = [];
  }

  unfoldable pub set_auth_secret : Bytes → GraphQlServer C S → GraphQlServer C S
  set_auth_secret secret gs = record gs { auth_secret = secret }

  unfoldable pub set_auth_lookup : Bytes → GraphQlServer C S → GraphQlServer C S
  set_auth_lookup spec gs = record gs { auth_lookup = spec }

  unfoldable pub set_fast_http_outer_middleware :
      ((C → Served C) → C → Served C) → GraphQlServer C S → GraphQlServer C S
  set_fast_http_outer_middleware wrap gs = record gs { outer_mw = some wrap }

  unfoldable pub stop : GraphQlServer C S → GraphQlServer C S
  stop gs = if gs.is_running then record gs { is_running = false } else gs

module _ {C S : Type 0} (F : FastHttp C) (R : Fields C) (J : JwtLibrary)
    (Q : GraphQlLibrary C S) where
  abbrev pub respond_json : Bytes → C → C
  respond_json body ctx = F.set_body body (F.set_content_type (codes "application/json") ctx)

  abbrev pub refuse : ℕ → Bytes → C → Served C
  refuse status body ctx = served (respond_json body (F.set_status status ctx))

  unfoldable pub with_auth : (required : Bool) → RequestHandler C → LiveHandler C
  unfolding extract_token validate_jwt
  with_auth required next secret spec now ctx =
      if is_empty secret && not required
      then next ctx
      else if is_empty secret
      then refuse 500 (codes "{\"errors\":[{\"message\":\"auth not configured\"}]}") ctx
      else if not (is_valid (validate_jwt J now (extract_token R spec ctx) secret))
      then refuse 401 (codes "{\"errors\":[{\"message\":\"unauthorized\"}]}") ctx
      else next ctx

  -- A server without a schema answers every query alike.
  unfoldable pub base_handler : GraphQlServer C S → C → Served C
  base_handler gs = elim gs.schema [
    | none ↦ λ ctx. served (respond_json (codes "{\"data\":{\"ping\":\"pong\"}}") ctx)
    | some schema ↦
        Q.handler_of schema
          (if less (pos 0) gs.config.max_complexity then some gs.config.max_complexity else none)
          (not gs.config.enable_introspection)
  ]

  unfoldable pub build_gql_handler : GraphQlServer C S → LiveHandler C
  unfolding with_auth base_handler
  build_gql_handler gs = with_auth gs.config.require_auth (base_handler gs)

  abbrev pub not_found : C → Served C
  not_found ctx = served (Q.error (codes "Not Found") 404 ctx)

  abbrev pub play_handler : GraphQlServer C S → C → Served C
  play_handler gs ctx =
      if gs.config.enable_playground then Q.playground gs.config.query_path ctx else not_found ctx

  -- The router of Handler, for an app's port.
  unfoldable pub mounted_router : GraphQlServer C S → LiveHandler C
  unfolding build_gql_handler
  mounted_router gs secret spec now ctx =
      let path = F.path ctx in
      if bytes_eq path gs.config.query_path
      then build_gql_handler gs secret spec now ctx
      else if bytes_eq path gs.config.playground_path
      then play_handler gs ctx
      else if has_suffix path (codes "/query") || has_suffix path (codes "/graphql")
      then build_gql_handler gs secret spec now ctx
      else not_found ctx

  -- The router of Start, for a port of its own.
  unfoldable pub own_router : GraphQlServer C S → LiveHandler C
  unfolding build_gql_handler
  own_router gs secret spec now ctx =
      let path = F.path ctx in
      if bytes_eq path gs.config.query_path
      then build_gql_handler gs secret spec now ctx
      else if bytes_eq path gs.config.playground_path
      then play_handler gs ctx
      else not_found ctx

  abbrev pub wrapped : GraphQlServer C S → LiveHandler C → LiveHandler C
  wrapped gs h secret spec now = elim gs.outer_mw [
    | none ↦ h secret spec now
    | some outer ↦ outer (h secret spec now)
  ]

  unfoldable pub handler : GraphQlServer C S → LiveHandler C
  unfolding mounted_router
  handler gs = wrapped gs (mounted_router gs)

  abbrev pub listening : Bool → Bool → GraphQlServer C S → GraphQlServer C S × Bool
  listening listens key_pair gs =
      if not listens
      then (gs, false)
      else if tls_enabled gs.config.base && not key_pair
      then (gs, false)
      else (record gs { is_running = true }, true)

  -- Whether the port is free and the key pair can be loaded; the result is whether Start gives no error.
  unfoldable pub start : Bool → Bool → GraphQlServer C S → GraphQlServer C S × Bool
  unfolding own_router
  start listens key_pair gs =
      if gs.is_running
      then (gs, true)
      else if not gs.config.base.enabled
      then (gs, true)
      else listening listens key_pair (record gs { server = some (wrapped gs (own_router gs)) })
