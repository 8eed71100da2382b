-- ===== src/Router.antt =====
-- router.go and route.go: the route table as it is declared. A *RouteInfo is shared by the table's
-- list, the entry and the Route that the caller keeps, so it is an index into `routes`.
pub mod Route
pub mod Static
pub mod Paths
pub mod Compile
pub mod Dispatch
pub mod Table
pub mod Coverage
pub mod Methods
pub mod Auth
mod Tests
use goichi.Prelude.{
  ℕ, zero, suc, ◌+◌, Bool, true, false, not, ◌&&◌, Option, none, some, List, [], ◌∷◌, ◌++◌, map,
  ◌==◌, if◌then◌else◌, length,
}
use goichi.Prelude.Text.{Bytes, codes, bytes_eq}
use goichi.Http.{Value, Context, Outcome, Handler, Middleware, ErrorHandler}
use goichi.Tree.{Node}

pub record RouteInfo : Type 0 where
  pub method : Bytes
  pub path : Bytes
  pub summary : Bytes
  pub tags : List Bytes
  pub response_model : Option Value
  pub request_model : Option Value
  pub no_auth : Bool
  pub hide_doc : Bool
  pub content_type : Bytes

pub record RouteEntry (C : Type 0) : Type 0 where
  pub method : Bytes
  pub path : Bytes
  pub handler : Handler C
  pub mws : List (Middleware C)
  pub info : ℕ

pub record FallbackHandlers (C : Type 0) : Type 0 where
  pub not_found : Handler C
  pub not_allowed : Handler C
  pub options : Handler C

-- `built` is the state of buildOnce.
pub record Router (C : Type 0) : Type 0 where
  pub trees : List (Bytes × Node (Context C → Outcome C))
  pub middlewares : List (Middleware C)
  pub auth_middleware : Option (Middleware C)
  pub entries : List (RouteEntry C)
  pub routes : List RouteInfo
  pub error_handler : Option (ErrorHandler C)
  pub strict_slash : Bool
  pub case_sensitive : Bool
  pub built : Bool
  pub fallback : Option (FallbackHandlers C)

abbrev pub new_info : Bytes → Bytes → RouteInfo
new_info method path = record {
  method = method;
  path = path;
  summary = [];
  tags = [];
  response_model = none;
  request_model = none;
  no_auth = false;
  hide_doc = false;
  content_type = [];
}

-- The path that a route is declared with, made to start with '/'.
unfoldable pub rooted : Bytes → Bytes
rooted [] = b'/' ∷ []
rooted (c ∷ path) = if c == b'/' then c ∷ path else b'/' ∷ c ∷ path

abbrev pub any_methods : List Bytes
any_methods =
    codes "GET"
    ∷ codes "POST"
    ∷ codes "PUT"
    ∷ codes "PATCH"
    ∷ codes "DELETE"
    ∷ codes "OPTIONS"
    ∷ codes "HEAD"
    ∷ []

unfoldable pub modify : (RouteInfo → RouteInfo) → ℕ → List RouteInfo → List RouteInfo
modify f i [] = []
modify f zero (x ∷ xs) = f x ∷ xs
modify f (suc i) (x ∷ xs) = x ∷ modify f i xs

module _ {C : Type 0} where
  unfoldable pub new_router : Bool → Bool → Router C
  new_router strict_slash case_sensitive = record {
    trees = [];
    middlewares = [];
    auth_middleware = none;
    entries = [];
    routes = [];
    error_handler = none;
    strict_slash = strict_slash;
    case_sensitive = case_sensitive;
    built = false;
    fallback = none;
  }

  unfoldable pub use_middleware : List (Middleware C) → Router C → Router C
  use_middleware ms r = record r { middlewares = r.middlewares ++ ms }

  unfoldable pub set_auth_middleware : Middleware C → Router C → Router C
  set_auth_middleware m r = record r { auth_middleware = some m }

  -- The router and the new Route.
  unfoldable pub add_route :
      Bytes → Bytes → Handler C → List (Middleware C) → Router C → Router C × ℕ
  unfolding rooted
  add_route method path h m r =
      let path' = rooted path in
      let info = length r.routes in
      let entry : RouteEntry C = record {
        method = method;
        path = path';
        handler = h;
        mws = m;
        info = info;
      } in
      (
        record r {
          routes = r.routes ++ new_info method path' ∷ [];
          entries = r.entries ++ entry ∷ [];
        },
        info,
      )

  unfoldable pub add_each :
      List Bytes → Bytes → Handler C → List (Middleware C) → Router C → Router C × List ℕ
  unfolding add_route
  add_each [] path h m r = (r, [])
  add_each (method ∷ methods) path h m r =
      let (r', route) = add_route method path h m r in
      let (r'', routes) = add_each methods path h m r' in (r'', route ∷ routes)

  unfoldable pub any_route : Bytes → Handler C → List (Middleware C) → Router C → Router C × List ℕ
  unfolding add_each
  any_route path h m r = add_each any_methods path h m r

  abbrev pub on_info : (RouteInfo → RouteInfo) → ℕ → Router C → Router C
  on_info f route r = record r { routes = modify f route r.routes }

  -- The same method on every Route of a Routes.
  unfoldable pub on_each : (RouteInfo → RouteInfo) → List ℕ → Router C → Router C
  unfolding modify
  on_each f [] r = r
  on_each f (route ∷ routes) r = on_each f routes (on_info f route r)
