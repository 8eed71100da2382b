-- ===== src/App/Serving.antt =====
-- app.go and validation.go: what an application does before it listens, and the handler that it serves.
use goichi.Prelude.{
  ℕ, Bool, true, false, not, ◌&&◌, Option, none, some, List, [], ◌∷◌, ◌++◌, ◌==◌, if◌then◌else◌,
  is_empty,
}
use goichi.Prelude.Text.{Bytes, codes, bytes_eq}
use goichi.Prelude.Int.{pos, less}
use goichi.Http.{FastHttp, returned, on_ctx}
use goichi.OpenApi.{Reflection, generate_schema, scalar_html}
use goichi.Router.{RouteInfo, Router, add_route, on_info}
use goichi.Router.Route.{hide_doc, no_auth}
use goichi.Router.Compile.{build_once}
use goichi.Router.Dispatch.{Served, served, crashed, error_response, handle_request}
use goichi.App.{DocsConfig, App, RequestHandler}

abbrev pub complaint : Bool → Bytes → List Bytes → List Bytes
complaint b msg errs = if b then msg ∷ errs else errs

abbrev pub starts_with : ℕ → Bytes → Bool
starts_with b [] = false
starts_with b (c ∷ s) = c == b

module _ {C : Type 0} where
  -- The errors of the configuration; none of them is a nil error.
  unfoldable pub validate_config : App C → List Bytes
  validate_config a =
      let server = a.config.server in
      let docs = a.config.docs in
      complaint (is_empty server.app_name) (codes "appName is required") (
        complaint (is_empty a.config.jwt.secret && not (is_empty a.config.jwt.token_lookup))
          (codes "jwt secret is required when jwt auth is configured")
          (complaint (server.multiprocess && less server.num_children (pos 0))
            (codes "numChildren cannot be negative")
            (complaint
              (docs.enable && (not (is_empty docs.path) && not (starts_with b'/' docs.path)))
              (codes "docs path must start with '/'")
              (complaint (server.enable_port_multiplexing && is_empty a.registry)
                (codes "at least one protocol must be registered when port multiplexing is enabled")
                []))))

  -- A GET route of the framework: not in the documents, and without authentication.
  unfoldable pub own_route : Bytes → (C → C) → Router C → Router C
  unfolding add_route
  own_route path respond r =
      let (r', route) =
        add_route (codes "GET") path (some (λ c. returned (on_ctx respond c) none)) [] r in
      on_info no_auth route (on_info hide_doc route r')

  abbrev pub on_router : (Router C → Router C) → App C → App C
  on_router f a = record a { router = f a.router }

abbrev pub favicon_svg : Bytes
favicon_svg =
    codes
      "<svg xmlns=\"http://www.w3.org/2000/svg\" viewBox=\"0 0 32 32\">\n  <rect width=\"32\" height=\"32\" rx=\"8\" fill=\"#E24B4A\"/>\n  <text x=\"16\" y=\"23\" font-family=\"system-ui,sans-serif\" font-size=\"20\" font-weight=\"700\"\n        text-anchor=\"middle\" fill=\"#ffffff\">G</text>\n</svg>"

abbrev pub passes : Option (RouteInfo → Bool) → RouteInfo → Bool
passes none r = true
passes (some filter) r = filter r

abbrev pub is_documented : DocsConfig → RouteInfo → Bool
is_documented config r =
    not (bytes_eq r.path (codes "/favicon.ico")) && (not r.hide_doc && passes config.filter r)

-- The routes that the documents describe.
abbrev pub documented : DocsConfig → List RouteInfo → List RouteInfo
documented config [] = []
documented config (r ∷ routes) =
    if is_documented config r then r ∷ documented config routes else documented config routes

module _ {C : Type 0} (F : FastHttp C) where
  abbrev pub typed : Bytes → Bytes → C → C
  typed content_type body ctx = F.set_body body (F.set_content_type content_type ctx)

  unfoldable pub enable_health_check : Bytes → App C → App C
  unfolding own_route
  enable_health_check path a =
      on_router
        (own_route (if is_empty path then codes "/health" else path)
          (λ ctx. F.set_body (codes "OK") (F.set_status 200 ctx)))
        a

  abbrev pub respond_favicon : C → C
  respond_favicon ctx = F.set_body favicon_svg (
      F.set_header (codes "Cache-Control") (codes "public, max-age=86400")
        (F.set_content_type (codes "image/svg+xml") ctx))

  unfoldable pub register_favicon : App C → App C
  unfolding own_route
  register_favicon a = on_router (own_route (codes "/favicon.ico") respond_favicon) a

  -- A page at its path, and the schema beside it.
  unfoldable pub register_single_doc : Reflection → DocsConfig → App C → App C
  unfolding own_route
  register_single_doc R config a =
      let schema =
        generate_schema R config.security config.title config.desc
          (documented config a.router.routes) in
      let json_path = config.path ++ codes "/openapi.json" in
      let html = scalar_html config.page_title json_path config.dark_mode config.scalar_js_url in
      on_router
        (λ r.
          own_route config.path (typed (codes "text/html") html)
            (own_route json_path (typed (codes "application/json") schema) r))
        a

  unfoldable pub register_each_doc : Reflection → List DocsConfig → App C → App C
  register_each_doc R [] a = a
  register_each_doc R (config ∷ configs) a =
      register_each_doc R configs (register_single_doc R config a)

  -- The configured page has the app's security scheme and no filter.
  unfoldable pub register_all_docs : Reflection → App C → App C
  unfolding generate_schema scalar_html register_single_doc register_each_doc
  register_all_docs R a =
      let docs = record a.config.docs { security = a.config.security; filter = none } in
      register_each_doc R a.docs_configs
        (if a.config.docs.enable then register_single_doc R docs a else a)

  -- `none` is the error of the configuration.
  unfoldable pub prepare : Reflection → App C → Option (App C)
  unfolding validate_config register_favicon register_all_docs build_once
  prepare R a =
      if is_empty (validate_config a)
      then some (on_router (build_once F) (register_all_docs R (register_favicon a)))
      else none

  abbrev pub after_guard : Served C → Served C
  after_guard (served ctx) = served ctx
  after_guard (crashed ctx) =
      served (error_response F 500 (codes "internal server error") (F.reset_body ctx))

  unfoldable pub panic_guard : RequestHandler C → RequestHandler C
  unfolding error_response
  panic_guard next ctx = after_guard (next ctx)

-- The address in the banner.
unfoldable pub display_host : Bytes → Bool → Bytes
display_host addr tls =
    let scheme = if tls then codes "https://" else codes "http://" in
    if is_empty addr
    then scheme ++ codes "localhost"
    else if starts_with b':' addr
    then scheme ++ (codes "localhost" ++ addr)
    else scheme ++ addr

-- A request of the main listener: the app, and the response.
module _ {C : Type 0} (F : FastHttp C) where
  unfoldable pub serve : App C → C → App C × Served C
  unfolding handle_request panic_guard
  serve a ctx =
      let (router', response) = handle_request F a.router ctx in
      (record a { router = router' }, panic_guard F (λ ctx'. response) ctx)
