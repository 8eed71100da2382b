-- ===== src/Protocol/GraphQl/Guard.antt =====
-- What a request without a valid token learns of a schema.
use goichi.Prelude.{ℕ, ◌≡◌, refl, Bool, false, not, ◌&&◌, Option, is_empty}
use goichi.Prelude.Text.{Bytes}
use goichi.Http.{FastHttp}
use goichi.Router.Dispatch.{Served}
use goichi.Middleware.Jwt.{JwtLibrary, Fields, is_valid, validate_jwt, extract_token}
use goichi.Protocol.GraphQl.{
  GraphQlLibrary, GraphQlServer, with_auth, base_handler, build_gql_handler, mounted_router,
  own_router,
}

module _ {C S : Type 0} (F : FastHttp C) (R : Fields C) (J : JwtLibrary)
    (Q : GraphQlLibrary C S) where
  -- Authentication is needed, by a secret or by the settings, and the request has no valid token.
  abbrev pub IsShutOut : GraphQlServer C S → Bytes → Bytes → ℕ → C → Type 0
  IsShutOut gs secret spec now ctx =
      ((is_empty secret && not gs.config.require_auth) ≡ false)
      × (is_valid (validate_jwt J now (extract_token R spec ctx) secret) ≡ false)

  with_auth-shut_out :
      (required : Bool) (h h' : C → Served C) (secret spec : Bytes) (now : ℕ) (ctx : C)
      → (is_empty secret && not required) ≡ false
      → is_valid (validate_jwt J now (extract_token R spec ctx) secret) ≡ false
      → with_auth F R J Q required h secret spec now ctx
        ≡ with_auth F R J Q required h' secret spec now ctx
  unfolding with_auth
  with_auth-shut_out required h h' secret spec now ctx needed invalid = rw (needed, invalid) refl

  build_gql_handler-shut_out :
      (gs : GraphQlServer C S) (schema : Option S) (secret spec : Bytes) (now : ℕ) (ctx : C)
      → IsShutOut gs secret spec now ctx
      → build_gql_handler F R J Q gs secret spec now ctx
        ≡ build_gql_handler F R J Q (record gs { schema = schema }) secret spec now ctx
  unfolding build_gql_handler
  build_gql_handler-shut_out gs schema secret spec now ctx h =
      with_auth-shut_out gs.config.require_auth (base_handler F R J Q gs)
        (base_handler F R J Q (record gs { schema = schema })) secret spec now ctx h.0 h.1

  -- Where authentication is needed, by a secret or by the settings, a request without a valid token gets
  -- the same answer whatever the schema is, at every path, from the router of Handler and from that of
  -- Start.
  pub routers-shut_out :
      (gs : GraphQlServer C S) (schema : Option S) (secret spec : Bytes) (now : ℕ) (ctx : C)
      → IsShutOut gs secret spec now ctx
      → (mounted_router F R J Q gs secret spec now ctx
          ≡ mounted_router F R J Q (record gs { schema = schema }) secret spec now ctx)
        × (own_router F R J Q gs secret spec now ctx
            ≡ own_router F R J Q (record gs { schema = schema }) secret spec now ctx)
  unfolding mounted_router own_router
  routers-shut_out gs schema secret spec now ctx h =
      let same = build_gql_handler-shut_out gs schema secret spec now ctx h in
      (rw same refl, rw same refl)
