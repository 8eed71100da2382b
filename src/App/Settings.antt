-- ===== src/App/Settings.antt =====
-- app.go: the settings of an application, and their defaults.
use goichi.Prelude.{Bool, true, Option, none, some, ◌++◌, if◌then◌else◌, is_empty}
use goichi.Prelude.Text.{Bytes, codes}
use goichi.Prelude.Int.{ℤ, pos, positive_or}
use goichi.OpenApi.{SecurityScheme}
use goichi.Middleware.Jwt.{JwtConfig}
use goichi.Protocol.{or_text, or_number}
use goichi.Router.{RouteInfo, rooted}

pub record ServerConfig : Type 0 where
  pub app_name : Bytes
  pub multiprocess : Bool
  pub num_children : ℤ
  pub show_startup : Option Bool
  pub startup_banner : Bytes
  pub enable_port_multiplexing : Bool
  pub read_timeout : ℤ
  pub write_timeout : ℤ
  pub idle_timeout : ℤ
  pub max_request_body_size : ℤ
  pub tls_cert_file : Bytes
  pub tls_key_file : Bytes

pub record RoutingConfig : Type 0 where
  pub strict_slash : Bool
  pub case_sensitive : Bool

pub record DocsConfig : Type 0 where
  pub enable : Bool
  pub path : Bytes
  pub title : Bytes
  pub desc : Bytes
  pub page_title : Bytes
  pub dark_mode : Bool
  pub scalar_js_url : Bytes
  pub security : SecurityScheme
  pub filter : Option (RouteInfo → Bool)

pub record Config (C : Type 0) : Type 0 where
  pub server : ServerConfig
  pub routing : RoutingConfig
  pub docs : DocsConfig
  pub jwt : JwtConfig C
  pub security : SecurityScheme

-- Sixty seconds and two minutes in nanoseconds, thirty megabytes.
unfoldable pub set_defaults : ServerConfig → ServerConfig
set_defaults c = record c {
  app_name = or_text (codes "GoICHI") c.app_name;
  read_timeout = or_number (pos 60000000000) c.read_timeout;
  write_timeout = or_number (pos 60000000000) c.write_timeout;
  idle_timeout = or_number (pos 120000000000) c.idle_timeout;
  max_request_body_size = pos (positive_or 31457280 c.max_request_body_size);
}

abbrev pub docs_path : Bytes → Bytes
docs_path path = if is_empty path then codes "/docs" else rooted path

abbrev pub reference_title : ServerConfig → Bytes → Bytes
reference_title server title = or_text (server.app_name ++ codes " API Reference") title

-- The path and the title only where there are documents.
unfoldable pub docs_defaults : ServerConfig → DocsConfig → DocsConfig
unfolding rooted
docs_defaults server d =
    let page = record d { page_title = reference_title server d.page_title } in
    if d.enable
    then record page { path = docs_path d.path; title = reference_title server d.title }
    else page

abbrev pub show : Option Bool → Bool
show none = true
show (some b) = b
