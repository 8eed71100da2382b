-- ===== src/App.antt =====
-- app.go, protocol.go and protocol_middleware.go: an application, made of a router, the protocol servers
-- and what they share.
pub mod Settings
pub use Settings.*
pub mod Serving
pub mod Supervisor
pub mod Listening
pub mod Auth
pub mod Recovery
mod Tests
use goichi.Prelude.{
  ℕ, Bool, true, false, not, ◌&&◌, ◌||◌, Option, none, some, List, [], ◌∷◌, ◌++◌, map,
  if◌then◌else◌, is_empty, is_some,
}
use goichi.Prelude.Text.{Bytes, codes}
use goichi.Prelude.Int.{ℤ, pos, positive_or}
use goichi.Http
use goichi.Http.{
  FastHttp, Context, Outcome, returned, panicked, Handler, Middleware, ErrorHandler, call, lookup,
}
use goichi.Group.{Group}
use goichi.OpenApi.{SecurityScheme}
use goichi.Middleware.Jwt.{JwtLibrary, Fields, JwtConfig, lookup_or_default, jwt}
use goichi.Middleware.Recover.{recover, security_headers}
use goichi.Protocol.{or_text, or_number}
use goichi.Protocol.Registry.{
  ProtocolHandler, ProtocolRegistry, Life, register, with_auth, set_unified_auth, unless_error,
  stop_all,
}
use goichi.Router
use goichi.Router.{
  RouteInfo, Router, new_router, rooted, use_middleware, set_auth_middleware, on_each,
}
use goichi.Router.Route.{hide_doc}
use goichi.Router.Dispatch.{Served, served, crashed, error_response, new_context}

-- A fasthttp.RequestHandler, and middleware of such handlers.
abbrev pub RequestHandler : Type 0 → Type 0
RequestHandler C = C → Served C

abbrev pub ProtocolFastHttpMiddleware : Type 0 → Type 0
ProtocolFastHttpMiddleware C = RequestHandler C → RequestHandler C

pub record App (C : Type 0) : Type 0 where
  pub router : Router C
  pub config : Config C
  pub docs_configs : List DocsConfig
  pub protocol_middlewares : List (ProtocolFastHttpMiddleware C)
  pub jwt_config : Option (JwtConfig C)
  pub registry : ProtocolRegistry C

abbrev pub group_prefix : Bytes → Bytes
group_prefix prefix = if is_empty prefix then codes "/" else rooted prefix

abbrev pub chain_protocol_fast_http :
    {C : Type 0} → List (ProtocolFastHttpMiddleware C) → RequestHandler C → RequestHandler C
chain_protocol_fast_http [] next = next
chain_protocol_fast_http (m ∷ mws) next = m (chain_protocol_fast_http mws next)

module _ {C : Type 0} where
  unfoldable pub use_app : List (Middleware C) → App C → App C
  unfolding use_middleware
  use_app m a = record a { router = use_middleware m a.router }

  unfoldable pub use_protocol : List (ProtocolFastHttpMiddleware C) → App C → App C
  use_protocol m a = record a { protocol_middlewares = a.protocol_middlewares ++ m }

  abbrev pub wrap_protocol_fast_http : App C → RequestHandler C → RequestHandler C
  wrap_protocol_fast_http a next = chain_protocol_fast_http a.protocol_middlewares next

  unfoldable pub set_error_handler : ErrorHandler C → App C → App C
  set_error_handler handler a = record a {
    router = record a.router { error_handler = some handler };
  }

  unfoldable pub add_docs : DocsConfig → App C → App C
  unfolding rooted
  add_docs config a =
      let server = a.config.server in
      let filled = record config {
        path = docs_path config.path;
        title = reference_title server config.title;
        page_title = reference_title server config.page_title;
      } in
      record a { docs_configs = a.docs_configs ++ filled ∷ [] }

  unfoldable pub group : Bytes → List (Middleware C) → Group C
  unfolding rooted
  group prefix m = record { prefix = group_prefix prefix; middlewares = m }

  -- A raw handler as a route's, and a route's context around a raw handler's.
  abbrev pub after_raw : Context C → Served C → Outcome C
  after_raw c (served ctx) = returned (record c { request_ctx = ctx }) none
  after_raw c (crashed ctx) = panicked (record c { request_ctx = ctx })

  abbrev pub raw_route : RequestHandler C → Context C → Outcome C
  raw_route h c = after_raw c (h c.request_ctx)

  unfoldable pub mount_at : RequestHandler C → List Bytes → Router C → Router C
  unfolding on_each
  mount_at h [] r = r
  mount_at h (p ∷ paths) r =
      let (r', routes) = Router.any_route p (some (raw_route h)) [] r in
      mount_at h paths (on_each hide_doc routes r')

  abbrev pub mount : Option (RequestHandler C) → List Bytes → Router C → Router C
  mount none paths r = r
  mount (some h) [] r = mount_at h (codes "/*path" ∷ []) r
  mount (some h) (p ∷ paths) r = mount_at h (p ∷ paths) r

  abbrev pub either :
      Option (RequestHandler C) → Option (RequestHandler C) → Option (RequestHandler C)
  either (some h) other = some h
  either none other = other

  -- What the hooks mount on the router, and the handler with what they install in it.
  unfoldable pub mount_protocol : ProtocolHandler C → App C → App C
  unfolding mount_at
  mount_protocol handler a =
      if a.config.server.enable_port_multiplexing
      then record a {
        router =
            mount (either handler.fast_http_handler handler.http_handler) handler.paths a.router;
      }
      else a

  abbrev pub hooked : ProtocolHandler C → ProtocolHandler C
  hooked handler = record handler {
    outer_middleware = handler.outer_middleware || handler.fast_http_aware;
    unary_source = handler.unary_source || handler.unary_interceptable;
    stream_source = handler.stream_source || handler.stream_interceptable;
  }

  abbrev pub inherit : Option (JwtConfig C) → ProtocolHandler C → ProtocolHandler C
  inherit none handler = handler
  inherit (some cfg) handler = with_auth cfg.secret cfg.token_lookup handler

  -- The registry has the handler that the later steps change.
  unfoldable pub register_protocol : ProtocolHandler C → App C → App C
  unfolding register mount_protocol
  register_protocol handler a =
      mount_protocol handler
        (record a { registry = register (hooked (inherit a.jwt_config handler)) a.registry })

  -- Protocols that the router serves are not started.
  abbrev pub is_mounted : Bool → ProtocolHandler C → Bool
  is_mounted multiplexed handler =
      multiplexed && (is_some handler.fast_http_handler || is_some handler.http_handler)

  unfoldable pub start_each : Life C → Bool → ProtocolRegistry C → ProtocolRegistry C × Option Bytes
  start_each L multiplexed [] = ([], none)
  start_each L multiplexed ((name, handler) ∷ r) =
      unless_error name
        (if is_mounted multiplexed handler then (handler, none) else L.start handler) r
        (start_each L multiplexed r)

  abbrev pub with_registry : App C → ProtocolRegistry C × Option Bytes → App C × Option Bytes
  with_registry a (r, err) = (record a { registry = r }, err)

  unfoldable pub start_all_protocols : Life C → App C → App C × Option Bytes
  unfolding start_each
  start_all_protocols L a =
      with_registry a (start_each L a.config.server.enable_port_multiplexing a.registry)

  unfoldable pub stop_all_protocols : Life C → App C → App C × Option Bytes
  unfolding stop_all
  stop_all_protocols L a = with_registry a (stop_all L a.registry)

module _ {C : Type 0} (F : FastHttp C) where
  abbrev pub after_middleware : Outcome C → Served C
  after_middleware (returned c none) = served c.request_ctx
  after_middleware (returned c (some err)) =
      served (error_response F 500 (codes "internal server error") c.request_ctx)
  after_middleware (panicked c) = crashed c.request_ctx

  unfoldable pub middleware_as_protocol : Middleware C → ProtocolFastHttpMiddleware C
  unfolding error_response
  middleware_as_protocol m next ctx =
      after_middleware (call (m (some (raw_route next))) (new_context F ctx []))

  unfoldable pub use_all : List (Middleware C) → App C → App C
  unfolding use_app use_protocol middleware_as_protocol
  use_all m a = use_protocol (map middleware_as_protocol m) (use_app m a)

  module _ (append_body : Bytes → C → C) (R : Fields C) (J : JwtLibrary) where
    -- The time is the one at which the JWT middleware reads the clock.
    unfoldable pub set_jwt_auth : ℕ → JwtConfig C → App C → App C
    unfolding jwt set_auth_middleware set_unified_auth
    set_jwt_auth now config a =
        let cfg = record config { token_lookup = lookup_or_default config.token_lookup } in
        record a {
          jwt_config = some cfg;
          router = set_auth_middleware (jwt F R J cfg now) a.router;
          registry = set_unified_auth cfg.secret cfg.token_lookup a.registry;
        }

    abbrev pub bare_app : Config C → App C
    bare_app config =
        let server = set_defaults config.server in
        record {
          router = new_router config.routing.strict_slash config.routing.case_sensitive;
          config = record config {
            server = record server { show_startup = some (show server.show_startup) };
            docs = docs_defaults server config.docs;
          };
          docs_configs = [];
          protocol_middlewares = [];
          jwt_config = none;
          registry = [];
        }

    -- Recovery from panics and the security headers, which every app has.
    unfoldable pub protected_app : Config C → App C
    unfolding use_app use_protocol use_all
    protected_app config = use_all (security_headers F ∷ []) (
        use_protocol (middleware_as_protocol (recover F append_body) ∷ [])
          (use_app (recover F append_body ∷ []) (bare_app config)))

    unfoldable pub new : ℕ → Config C → App C
    unfolding set_defaults docs_defaults new_router middleware_as_protocol recover security_headers
        protected_app set_jwt_auth
    new now config =
        if is_empty config.jwt.secret
        then protected_app config
        else set_jwt_auth now config.jwt (protected_app config)
