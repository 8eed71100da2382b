-- ===== src/Middleware/Jwt/Guard.antt =====
-- What the middleware lets through.
use goichi.Prelude.{
  ℕ, ◌≡◌, refl, sym, ap, ◌∙◌, true, false, Option, none, some, [], ◌∷◌, if◌then◌else◌, is_empty,
  is_some, if_of_false, inl, inr, Bool-cases, Option-cases,
}
use goichi.Prelude.Text.{Bytes, codes, cut_at}
use goichi.Http.{
  FastHttp, Context, Outcome, returned, failure, Handler, call, on_ctx, write_json_error,
}
use goichi.Router.{RouteEntry, Router, set_auth_middleware}
use goichi.Router.Compile.{is_no_auth, respond_error, compile}
use goichi.Router.Auth.{compile-rejects}
use goichi.Middleware.Jwt.{
  Claims, JwtLibrary, Fields, validate_jwt, extract_token, JwtConfig, reject, token_lookup,
  check_token, jwt, lookup_or_default, default_lookup,
}
use goichi.Middleware.Jwt.Presented.{has_colon, cut_at-colon, presented, extract_token-presented}

module _ {C : Type 0} (F : FastHttp C) (R : Fields C) (J : JwtLibrary) (cfg : JwtConfig C) where
  -- The token of a request, by the lookup of the settings where it has a colon and by the default else.
  abbrev pub token_in : Context C → Bytes
  token_in c =
      presented R
        (if has_colon cfg.token_lookup then cfg.token_lookup else codes "header:Authorization")
        c.request_ctx

  token_in-extract :
      (c : Context C) → extract_token R (token_lookup F R J cfg) c.request_ctx ≡ token_in c
  unfolding token_lookup
  token_in-extract c =
      extract_token-presented R (token_lookup F R J cfg) c.request_ctx
      ∙ ap (λ spec. presented R spec c.request_ctx) (by_lookup cfg.token_lookup)
    where
      by_cut :
          (s : Bytes)
          → (if is_some (cut_at b':' s) then s else codes "header:Authorization")
            ≡ (if has_colon s then s else codes "header:Authorization")
      by_cut s =
          ap (λ o. if is_some o then s else codes "header:Authorization") (cut_at-colon s)
          ∙ elim (Bool-cases (has_colon s)) [ inl k ↦ rw k refl | inr k ↦ rw k refl ]

      by_lookup :
          (s : Bytes)
          → (if is_some (cut_at b':' (lookup_or_default s))
              then lookup_or_default s
              else default_lookup)
            ≡ (if has_colon s then s else codes "header:Authorization")
      by_lookup [] = by_cut (codes "header:Authorization")
      by_lookup (c ∷ s) = by_cut (c ∷ s)

  -- The claims that the library reads in the request's token, where there is a token and a secret.
  abbrev pub claims_in : ℕ → Context C → Option Claims
  claims_in now c =
      if is_empty cfg.secret
      then none
      else if is_empty (token_in c)
      then none
      else J.parse (token_in c) cfg.secret now

  -- Why a request is rejected.
  abbrev pub reason : Context C → Bytes
  reason c =
      if is_empty cfg.secret
      then codes "server misconfiguration: missing JWT secret"
      else if is_empty (token_in c)
      then codes "missing or empty token"
      else codes "invalid token"

  reason_unset :
      (c : Context C)
      → is_empty cfg.secret ≡ true
      → reason c ≡ codes "server misconfiguration: missing JWT secret"
  reason_unset c unset = rw (unset, reason) refl

  reason_bare :
      (c : Context C)
      → is_empty cfg.secret ≡ false
      → is_empty (token_in c) ≡ true
      → reason c ≡ codes "missing or empty token"
  reason_bare c set bare = rw (set, bare, reason) refl

  reason_sent :
      (c : Context C)
      → is_empty cfg.secret ≡ false
      → is_empty (token_in c) ≡ false
      → reason c ≡ codes "invalid token"
  reason_sent c set sent = rw (set, sent, reason) refl

  -- A response of status 401 with a message, or what the error handler makes of it. Where the encoder
  -- fails, the error is its error and the body a fixed one.
  abbrev unauthorized : Bytes → Context C → Option Bytes → Outcome C
  unauthorized msg c (some body) =
      returned
        (on_ctx
          (λ ctx.
            F.set_body body (F.set_content_type (codes "application/json") (F.set_status 401 ctx)))
          c)
        none
  unauthorized msg c none =
      returned
        (on_ctx
          (λ ctx.
            F.set_body (codes "{\"error\":\"internal server error\"}")
              (F.set_content_type (codes "application/json") (F.set_status 401 ctx)))
          c)
        (some (failure (codes "json")))

  abbrev pub answered : Bytes → Context C → Option (Context C → Bytes → Outcome C) → Outcome C
  answered msg c (some handler) = handler c msg
  answered msg c none = unauthorized msg c (F.json_error msg)

  respond_error-unauthorized :
      (msg : Bytes) (c : Context C)
      → respond_error F 401 msg c ≡ unauthorized msg c (F.json_error msg)
  unfolding respond_error write_json_error
  respond_error-unauthorized msg c = elim (Option-cases (F.json_error msg)) [
    | inl k ↦ rw (k, respond_error, write_json_error) refl
    | inr (body, k) ↦ rw (k, respond_error, write_json_error) refl
  ]

  reject-answered :
      (msg : Bytes) (c : Context C) → reject F R J cfg msg c ≡ answered msg c cfg.error_handler
  unfolding reject
  reject-answered msg c = by_handler cfg.error_handler
    where
      by_handler :
          (h : Option (Context C → Bytes → Outcome C))
          → (elim h as (λ _. Outcome C) [ none ↦ respond_error F 401 msg c | some f ↦ f c msg ])
            ≡ answered msg c h
      by_handler none = respond_error-unauthorized msg c
      by_handler (some f) = refl

  -- The outcome by the claims in the request.
  abbrev pub guarded : Handler C → Context C → Option Claims → Outcome C
  guarded next c none = answered (reason c) c cfg.error_handler
  guarded next c (some claims) = call next (record c { jwt_claims = some claims })

  reject-reason :
      (msg : Bytes) (c : Context C)
      → reason c ≡ msg
      → reject F R J cfg msg c ≡ answered (reason c) c cfg.error_handler
  reject-reason msg c e = reject-answered msg c ∙ ap (λ m. answered m c cfg.error_handler) (sym e)

  check_token-guarded :
      (next : Handler C) (now : ℕ) (c : Context C)
      → is_empty cfg.secret ≡ false
      → check_token F R J cfg next now c ≡ guarded next c (claims_in now c)
  unfolding check_token validate_jwt
  check_token-guarded next now c set =
      rw (token_in-extract c) (elim (Bool-cases (is_empty (token_in c))) [
        | inl bare ↦ rw (set, bare) (reject-reason _ c (reason_bare c set bare))
        | inr sent ↦ elim (Option-cases (J.parse (token_in c) cfg.secret now)) [
          | inl e ↦ rw (set, sent, e) (reject-reason _ c (reason_sent c set sent))
          | inr (claims, e) ↦ rw (set, sent, e) refl
        ]
      ])

  jwt_set :
      (next : Handler C) (now : ℕ) (c : Context C)
      → is_empty cfg.secret ≡ false
      → call (jwt F R J cfg now next) c ≡ check_token F R J cfg next now c
  unfolding jwt
  jwt_set next now c set = ap (λ h. call h c) (if_of_false _ _ set)

  -- The middleware calls the next handler exactly when there is a secret and the request carries a
  -- token that the library accepts, and then with the token's claims. On every other branch it answers
  -- with the reason, by the error handler or with status 401, whatever the next handler is; with an empty
  -- secret that is every request.
  pub jwt-guarded :
      (next : Handler C) (now : ℕ) (c : Context C)
      → call (jwt F R J cfg now next) c ≡ guarded next c (claims_in now c)
  unfolding jwt
  jwt-guarded next now c = elim (Bool-cases (is_empty cfg.secret)) [
    | inl unset ↦ rw unset (reject-reason _ c (reason_unset c unset))
    | inr set ↦ jwt_set next now c set ∙ check_token-guarded next now c set
  ]

closed_without_secret :
    {C : Type 0} (F : FastHttp C) (R : Fields C) (J : JwtLibrary) (cfg : JwtConfig C) (now : ℕ)
    (next next' : Handler C)
    → cfg.secret ≡ []
    → jwt F R J cfg now next ≡ jwt F R J cfg now next'
unfolding jwt
closed_without_secret F R J cfg now next next' unset =
    let none_set : is_empty cfg.secret ≡ true = ap is_empty unset in rw none_set refl

-- Without a secret the middleware lets nothing through: behind it neither the handler nor the own
-- middleware of a route that does not opt out occurs in what the route compiles to.
pub compile-jwt_closed :
    {C : Type 0} (F : FastHttp C) (R : Fields C) (J : JwtLibrary) (cfg : JwtConfig C) (now : ℕ)
    (r : Router C) (e : RouteEntry C) (h : Handler C)
    → cfg.secret ≡ []
    → is_no_auth e r.routes ≡ false
    → compile (set_auth_middleware (jwt F R J cfg now) r) e
      ≡ compile (set_auth_middleware (jwt F R J cfg now) r) (record e { handler = h; mws = [] })
compile-jwt_closed F R J cfg now r e h unset guarded_route =
    compile-rejects r e (jwt F R J cfg now) h []
      (λ next next'. closed_without_secret F R J cfg now next next' unset) guarded_route
