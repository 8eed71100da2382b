-- ===== src/Router/Auth.antt =====
-- The authentication middleware of a router and the routes that opt out of it.
use goichi.Prelude.{
  ℕ, zero, suc, ◌<◌, ◌≡◌, refl, sym, ap, ◌∙◌, true, false, Option, none, some, List, [], ◌∷◌, ◌++◌,
  length, get_elem?, arith,
}
use goichi.Prelude.Text.{Bytes}
use goichi.Http.{Handler, Middleware}
use goichi.Router.{
  RouteInfo, RouteEntry, Router, new_info, rooted, modify, add_route, on_info, set_auth_middleware,
}
use goichi.Router.Route.{no_auth}
use goichi.Router.Compile.{apply_chain, is_no_auth, auth_part, chain_of, compile}
use goichi.Router.Table.{has_slash}
use goichi.Router.Coverage.{Declared}

get_elem?-append_left :
    {A : Type 0} (xs ys : List A) (i : ℕ) → i < length xs → get_elem? (xs ++ ys) i ≡ get_elem? xs i
get_elem?-append_left [] ys i h = ground arith
get_elem?-append_left (x ∷ xs) ys zero h = refl
get_elem?-append_left (x ∷ xs) ys (suc i) h = get_elem?-append_left xs ys i (omega arith)

get_elem?-modify_last :
    (f : RouteInfo → RouteInfo) (xs : List RouteInfo) (x : RouteInfo)
    → get_elem? (modify f (length xs) (xs ++ x ∷ [])) (length xs) ≡ some (f x)
unfolding modify
get_elem?-modify_last f [] x = refl
get_elem?-modify_last f (y ∷ xs) x = get_elem?-modify_last f xs x

get_elem?-modify_other :
    (f : RouteInfo → RouteInfo) (xs ys : List RouteInfo) (i : ℕ)
    → i < length xs
    → get_elem? (modify f (length xs) (xs ++ ys)) i ≡ get_elem? xs i
unfolding modify
get_elem?-modify_other f [] ys i h = ground arith
get_elem?-modify_other f (x ∷ xs) ys zero h = refl
get_elem?-modify_other f (x ∷ xs) ys (suc i) h = get_elem?-modify_other f xs ys i (omega arith)

has_slash-rooted : (path : Bytes) → has_slash (rooted path) ≡ true
unfolding rooted
has_slash-rooted [] = ground arith
has_slash-rooted (c ∷ path) = ground arith

module _ {C : Type 0} where
  apply_chain-append :
      (xs ys : List (Middleware C)) (h : Handler C)
      → apply_chain (xs ++ ys) h ≡ apply_chain xs (apply_chain ys h)
  unfolding apply_chain
  apply_chain-append [] ys h = refl
  apply_chain-append (x ∷ xs) ys h = ap x (apply_chain-append xs ys h)

  auth_part-out : (a b : Option (Middleware C)) → auth_part a true ≡ auth_part b true
  unfolding auth_part
  auth_part-out none none = refl
  auth_part-out none (some n) = refl
  auth_part-out (some m) none = refl
  auth_part-out (some m) (some n) = refl

  -- A route that opts out of authentication compiles to the same handler whatever authentication
  -- middleware is installed, before or after.
  pub compile-no_auth :
      (r : Router C) (e : RouteEntry C) (auth : Middleware C)
      → is_no_auth e r.routes ≡ true
      → compile (set_auth_middleware auth r) e ≡ compile r e
  unfolding compile chain_of set_auth_middleware
  compile-no_auth r e auth out = rw out (
      ap (λ l. apply_chain (r.middlewares ++ (l ++ e.mws)) e.handler)
        (auth_part-out (some auth) r.auth_middleware))

  -- Where the authentication middleware does not call what it wraps, a route that does not opt out
  -- compiles to a handler in which neither the route's handler nor its own middleware occurs.
  pub compile-rejects :
      (r : Router C) (e : RouteEntry C) (auth : Middleware C) (h : Handler C)
      (mws : List (Middleware C))
      → ((next next' : Handler C) → auth next ≡ auth next')
      → is_no_auth e r.routes ≡ false
      → compile (set_auth_middleware auth r) e
        ≡ compile (set_auth_middleware auth r) (record e { handler = h; mws = mws })
  unfolding compile chain_of set_auth_middleware auth_part
  compile-rejects r e auth h mws ignores guarded = rw guarded (
      apply_chain-append r.middlewares (auth ∷ e.mws) e.handler
      ∙ ap (apply_chain r.middlewares)
          (unfold apply_chain in ignores (apply_chain e.mws e.handler) (apply_chain mws h))
      ∙ sym (apply_chain-append r.middlewares (auth ∷ mws) h))

  is_no_auth-at :
      (e : RouteEntry C) (infos : List RouteInfo) (i : RouteInfo)
      → get_elem? infos e.info ≡ some i
      → is_no_auth e infos ≡ i.no_auth
  unfolding is_no_auth
  is_no_auth-at e infos i h = rw (h, is_no_auth) refl

  is_no_auth-same :
      (e : RouteEntry C) (xs ys : List RouteInfo)
      → get_elem? xs e.info ≡ get_elem? ys e.info
      → is_no_auth e xs ≡ is_no_auth e ys
  unfolding is_no_auth
  is_no_auth-same e xs ys h = rw (h, is_no_auth) refl

  -- NoAuth on the Route that addRoute returned opts out the new entry, and no earlier one.
  pub add_route-no_auth :
      (r : Router C) (method path : Bytes) (h : Handler C) (m : List (Middleware C))
      (e e' : RouteEntry C)
      → e.info ≡ (add_route method path h m r).1
      → e'.info < length r.routes
      → (is_no_auth e
            (on_info no_auth (add_route method path h m r).1 (add_route method path h m r).0).routes
          ≡ true)
        × (is_no_auth e'
              (on_info no_auth
                (add_route method path h m r).1
                (add_route method path h m r).0).routes
            ≡ is_no_auth e' r.routes)
  unfolding add_route
  add_route-no_auth r method path h m e e' new old =
      let x = new_info method (rooted path) in
      let after = modify no_auth (length r.routes) (r.routes ++ x ∷ []) in
      (
        is_no_auth-at e after (no_auth x)
            (ap (λ n. get_elem? after n) new ∙ get_elem?-modify_last no_auth r.routes x),
        is_no_auth-same e' after r.routes
            (get_elem?-modify_other no_auth r.routes (x ∷ []) e'.info old),
      )

  Declared-append :
      (es : List (RouteEntry C)) (e : RouteEntry C)
      → Declared es
      → has_slash e.path ≡ true
      → Declared (es ++ e ∷ [])
  Declared-append [] e d h = ground (arith, h)
  Declared-append (x ∷ es) e d h = ground (arith, Declared-append es e, h)

  -- If the declared paths start with a slash, they do after one more route is added, whatever path the
  -- caller passes.
  pub add_route-Declared :
      (r : Router C) (method path : Bytes) (h : Handler C) (m : List (Middleware C))
      → Declared r.entries
      → Declared (add_route method path h m r).0.entries
  unfolding add_route
  add_route-Declared r method path h m d = Declared-append r.entries _ d (has_slash-rooted path)
