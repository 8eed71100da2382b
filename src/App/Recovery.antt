-- ===== src/App/Recovery.antt =====
-- app.go: what becomes of a panic.
use goichi.Prelude.{
  ℕ, ◌≡◌, refl, sym, ap, subst, ◌∙◌, Option, none, some, List, [], ◌∷◌, ◌++◌, inl, inr, Bool-cases,
  Option-cases, if_of_true, if_of_false, is_empty, drop,
}
use goichi.Prelude.Text.{Bytes, codes}
use goichi.Http.{
  FastHttp, Context, Outcome, returned, panicked, Handler, Middleware, failure, call, on_ctx,
}
use goichi.Middleware.Jwt.{JwtLibrary, Fields}
use goichi.Middleware.Recover.{encode_error, after_panic, recover}
use goichi.Protocol.Registry.{ProtocolHandler}
use goichi.Router
use goichi.Router.{
  RouteInfo, RouteEntry, Router, new_router, use_middleware, set_auth_middleware, on_info,
  add_route, add_each, any_methods, on_each,
}
use goichi.Router.Route.{hide_doc}
use goichi.Router.Compile.{apply_chain, auth_part, is_no_auth, chain_of, compile}
use goichi.App.{
  Config, App, RequestHandler, use_app, use_protocol, use_all, add_docs, raw_route, mount_at, mount,
  either, mount_protocol, register_protocol, protected_app, set_jwt_auth, new,
}
use goichi.App.Auth.{
  Setup, setting_jwt_auth, registering, using, using_protocol, adding_docs, set_up, after_calls,
}

module _ {C : Type 0} where
  -- What is mounted or declared leaves the middleware of the router as it was.
  add_each-middlewares :
      (methods : List Bytes) (path : Bytes) (h : Handler C) (m : List (Middleware C)) (r : Router C)
      → (add_each methods path h m r).0.middlewares ≡ r.middlewares
  unfolding add_each add_route
  add_each-middlewares [] path h m r = refl
  add_each-middlewares (method ∷ methods) path h m r =
      add_each-middlewares methods path h m (add_route method path h m r).0

  on_each-middlewares :
      (f : RouteInfo → RouteInfo) (routes : List ℕ) (r : Router C)
      → (on_each f routes r).middlewares ≡ r.middlewares
  unfolding on_each
  on_each-middlewares f [] r = refl
  on_each-middlewares f (route ∷ routes) r = on_each-middlewares f routes (on_info f route r)

  mount_at-middlewares :
      (h : RequestHandler C) (paths : List Bytes) (r : Router C)
      → (mount_at h paths r).middlewares ≡ r.middlewares
  unfolding mount_at Router.any_route
  mount_at-middlewares h [] r = refl
  mount_at-middlewares h (p ∷ paths) r =
      let added = add_each any_methods p (some (raw_route h)) [] r in
      mount_at-middlewares h paths (on_each hide_doc added.1 added.0)
      ∙ on_each-middlewares hide_doc added.1 added.0
      ∙ add_each-middlewares any_methods p (some (raw_route h)) [] r

  mount-middlewares :
      (h : Option (RequestHandler C)) (paths : List Bytes) (r : Router C)
      → (mount h paths r).middlewares ≡ r.middlewares
  mount-middlewares none paths r = refl
  mount-middlewares (some h) [] r = mount_at-middlewares h (codes "/*path" ∷ []) r
  mount-middlewares (some h) (p ∷ paths) r = mount_at-middlewares h (p ∷ paths) r

  abbrev outer : App C → List (Middleware C)
  outer a = a.router.middlewares

  mount_protocol-outer :
      (handler : ProtocolHandler C) (a : App C) → outer (mount_protocol handler a) ≡ outer a
  unfolding mount_protocol
  mount_protocol-outer handler a = elim (Bool-cases a.config.server.enable_port_multiplexing) [
    | inl multiplexed ↦
        ap outer (if_of_true _ _ multiplexed)
        ∙ mount-middlewares (either handler.fast_http_handler handler.http_handler) handler.paths
            a.router
    | inr separate ↦ ap outer (if_of_false _ _ separate)
  ]

  module _ (F : FastHttp C) (append_body : Bytes → C → C) where
    -- What is written of the text that the encoder gives for the error, behind what the body has; the error
    -- of the encoder where it gives none.
    abbrev written : Context C → Option Bytes → Outcome C
    written c none =
        returned
          (on_ctx (λ ctx. F.set_content_type (codes "application/json") (F.set_status 500 ctx)) c)
          (some (failure (codes "json")))
    written c (some body) =
        returned
          (on_ctx
            (λ ctx.
              append_body (body ++ 10 ∷ [])
                (F.set_content_type (codes "application/json") (F.set_status 500 ctx)))
            c)
          none

    -- An outcome as it is, but a panic as status 500 with an error of a fixed text, on what the panic left.
    abbrev pub answered : Outcome C → Outcome C
    answered (returned c err) = returned c err
    answered (panicked c) = written c (F.json_error (codes "internal server error"))

    after_panic-answered : (o : Outcome C) → after_panic F append_body o ≡ answered o
    unfolding encode_error
    after_panic-answered (returned c err) = refl
    after_panic-answered (panicked c) =
        elim (Option-cases (F.json_error (codes "internal server error"))) [
          | inl e ↦ rw (e, encode_error) refl
          | inr (b, e) ↦ rw (e, encode_error) refl
        ]

    -- Recovery is the outermost middleware.
    abbrev IsRecovering : List (Middleware C) → Type 0
    IsRecovering ms = (inner : List (Middleware C)) × (ms ≡ recover F append_body ∷ inner)

    -- What a route runs behind the first middleware of its chain.
    abbrev pub behind_first : Router C → RouteEntry C → Context C → Outcome C
    behind_first r e c = call (apply_chain (drop 1 (chain_of r e)) e.handler) c

    compile-answered :
        (r : Router C) (e : RouteEntry C) (c : Context C)
        → IsRecovering r.middlewares
        → call (compile r e) c ≡ answered (behind_first r e c)
    unfolding compile chain_of apply_chain recover
    compile-answered r e c (inner, first) =
        let rest = auth_part r.auth_middleware (is_no_auth e r.routes) ++ e.mws in
        ap (λ ms. call (apply_chain (ms ++ rest) e.handler) c) first
        ∙ after_panic-answered (call (apply_chain (inner ++ rest) e.handler) c)
        ∙ ap (λ ms. answered (call (apply_chain (drop 1 (ms ++ rest)) e.handler) c)) (sym first)

    module _ (R : Fields C) (J : JwtLibrary) where
      new-IsRecovering :
          (now : ℕ) (config : Config C) → IsRecovering (outer (new F append_body R J now config))
      unfolding new protected_app use_all use_app use_protocol set_jwt_auth use_middleware
          set_auth_middleware new_router
      new-IsRecovering now config = elim (Bool-cases (is_empty config.jwt.secret)) [
        | inl unset ↦ (_, ap outer (if_of_true _ _ unset))
        | inr set ↦ (_, ap outer (if_of_false _ _ set))
      ]

      set_up-IsRecovering :
          (s : Setup C) (a : App C)
          → IsRecovering (outer a)
          → IsRecovering (outer (set_up F append_body R J s a))
      unfolding set_jwt_auth register_protocol use_app use_middleware use_protocol add_docs
          set_auth_middleware
      set_up-IsRecovering (setting_jwt_auth now cfg) a ok = ok
      set_up-IsRecovering (registering handler) a ok =
          subst IsRecovering (sym (mount_protocol-outer handler _)) ok
      set_up-IsRecovering (using m) a (inner, first) = (inner ++ m, ap (λ ms. ms ++ m) first)
      set_up-IsRecovering (using_protocol m) a ok = ok
      set_up-IsRecovering (adding_docs d) a ok = ok

      after_calls-IsRecovering :
          (now : ℕ) (config : Config C) (calls : List (Setup C))
          → IsRecovering
              (outer (after_calls F append_body R J calls (new F append_body R J now config)))
      after_calls-IsRecovering now config [] = new-IsRecovering now config
      after_calls-IsRecovering now config (s ∷ earlier) =
          set_up-IsRecovering s _ (after_calls-IsRecovering now config earlier)

      -- Whatever calls set an app up, what a route compiles to gives what the rest of its chain gives
      -- behind the recovery, but for a panic in the goroutine of the request, a nil handler included: then
      -- it gives an error of status 500 as JSON.
      pub compile-recovers :
          (now : ℕ) (config : Config C) (calls : List (Setup C)) (e : RouteEntry C) (c : Context C)
          → let r =
              (after_calls F append_body R J calls (new F append_body R J now config)).router in
            call (compile r e) c ≡ answered (behind_first r e c)
      compile-recovers now config calls e c =
          compile-answered
            (after_calls F append_body R J calls (new F append_body R J now config)).router e c
            (after_calls-IsRecovering now config calls)
