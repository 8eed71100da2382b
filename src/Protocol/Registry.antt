-- ===== src/Protocol/Registry.antt =====
-- protocol/base.go and extensions.go: the protocol handlers by name. What a handler is capable of is
-- data, for the code asks for it by a type assertion; its Start and Stop are an interface.
use goichi.Prelude.{Bool, Option, none, some, List, [], ◌∷◌, if◌then◌else◌}
use goichi.Prelude.Text.{Bytes}
use goichi.Http
use goichi.Http.{lookup}
use goichi.Router.Dispatch.{Served}

-- `none` is a handler without the interface, so FastHTTPHandlerAware and HTTPHandlerAware give the
-- handler itself. The last three tell whether the app's middleware and interceptors were installed.
pub record ProtocolHandler (C : Type 0) : Type 0 where
  pub name : Bytes
  pub paths : List Bytes
  pub auth_aware : Bool
  pub fast_http_aware : Bool
  pub unary_interceptable : Bool
  pub stream_interceptable : Bool
  pub fast_http_handler : Option (C → Served C)
  pub http_handler : Option (C → Served C)
  pub auth_secret : Bytes
  pub auth_lookup : Bytes
  pub is_running : Bool
  pub outer_middleware : Bool
  pub unary_source : Bool
  pub stream_source : Bool

-- Start and Stop of a handler, with the error.
pub record Life (C : Type 0) : Type 0 where
  pub start : ProtocolHandler C → ProtocolHandler C × Option Bytes
  pub stop : ProtocolHandler C → ProtocolHandler C × Option Bytes

abbrev pub ProtocolRegistry : Type 0 → Type 0
ProtocolRegistry C = List (Bytes × ProtocolHandler C)

module _ {C : Type 0} where
  unfoldable pub register : ProtocolHandler C → ProtocolRegistry C → ProtocolRegistry C
  register handler r = Http.insert handler.name handler r

  -- SetAuthSecret and SetAuthLookup, where the handler has them.
  abbrev pub with_auth : Bytes → Bytes → ProtocolHandler C → ProtocolHandler C
  with_auth secret spec handler =
      if handler.auth_aware
      then record handler { auth_secret = secret; auth_lookup = spec }
      else handler

  unfoldable pub set_unified_auth : Bytes → Bytes → ProtocolRegistry C → ProtocolRegistry C
  set_unified_auth secret spec [] = []
  set_unified_auth secret spec ((name, handler) ∷ r) =
      (name, with_auth secret spec handler) ∷ set_unified_auth secret spec r

  -- A step that leaves the rest as it is where it gives an error.
  abbrev pub unless_error :
      Bytes
      → ProtocolHandler C × Option Bytes
      → ProtocolRegistry C
      → ProtocolRegistry C × Option Bytes
      → ProtocolRegistry C × Option Bytes
  unless_error name (handler, some err) r rest = ((name, handler) ∷ r, some err)
  unless_error name (handler, none) r rest = ((name, handler) ∷ rest.0, rest.1)

  unfoldable pub start_all : Life C → ProtocolRegistry C → ProtocolRegistry C × Option Bytes
  start_all L [] = ([], none)
  start_all L ((name, handler) ∷ r) = unless_error name (L.start handler) r (start_all L r)

  unfoldable pub stop_all : Life C → ProtocolRegistry C → ProtocolRegistry C × Option Bytes
  stop_all L [] = ([], none)
  stop_all L ((name, handler) ∷ r) =
      unless_error name (if handler.is_running then L.stop handler else (handler, none)) r
        (stop_all L r)
