-- ===== src/Protocol/WebSocket/Admission.antt =====
-- Which upgrade requests get a connection.
use goichi.Prelude.{
  List, [], ◌∷◌, ℕ, ◌≡◌, refl, sym, ap, ◌∙◌, Bool, true, false, not, ◌&&◌, ◌||◌, none,
  if◌then◌else◌, is_empty, is_some, any, length, arith, inl, inr, Bool-cases, Option-cases,
  if_of_true, if_of_false,
}
use goichi.Prelude.Text.{Bytes, codes, bytes_eq, trim_space}
use goichi.Prelude.Int.{at_least}
use goichi.Middleware.Jwt.{is_valid, JwtLibrary, Fields, rejected, validate_jwt, extract_token}
use goichi.Protocol.WebSocket.{
  Upgrader, Answer, refused, upgraded, not_upgraded, WebSocketServer, origin_host, allows,
  check_origin, check_auth, upgrade, handle_request,
}
use goichi.Middleware.Jwt.Presented.{presented, extract_token-presented}
use goichi.Protocol.WebSocket.Origin.{IsHostOf, origin_host-IsHostOf}

refused_else :
    (b : Bool) (status : ℕ) (msg : Bytes) (a : Answer)
    → (if b then refused status msg else a) ≡ upgraded
    → (b ≡ false) × (a ≡ upgraded)
refused_else true status msg a h = cc h
refused_else false status msg a h = (refl, h)

upgraded_if : (b : Bool) → (if b then upgraded else not_upgraded) ≡ upgraded → b ≡ true
upgraded_if true h = refl
upgraded_if false h = cc h

module _ (jwt_library : JwtLibrary) (now : ℕ) (raw secret : Bytes)
    (set : is_empty secret ≡ false) where
  validate_bare :
      is_empty raw ≡ true
      → validate_jwt jwt_library now raw secret ≡ rejected (codes "missing or empty token")
  unfolding validate_jwt
  validate_bare bare = rw (set, bare) refl

  validate_unparsed :
      is_empty raw ≡ false
      → jwt_library.parse raw secret now ≡ none
      → validate_jwt jwt_library now raw secret ≡ rejected (codes "invalid token")
  unfolding validate_jwt
  validate_unparsed sent e = rw (set, sent, e) refl

  -- A token that is accepted under a secret was parsed.
  validate_jwt-parse :
      is_valid (validate_jwt jwt_library now raw secret) ≡ true
      → is_some (jwt_library.parse raw secret now) ≡ true
  validate_jwt-parse h = elim (Bool-cases (is_empty raw)) [
    | inl bare ↦ cc (sym (ap is_valid (validate_bare bare)) ∙ h)
    | inr sent ↦ elim (Option-cases (jwt_library.parse raw secret now)) [
      | inl e ↦ cc (sym (ap is_valid (validate_unparsed sent e)) ∙ h)
      | inr (claims, e) ↦ ap is_some e
    ]
  ]

abbrev pub origin_of : {C : Type 0} → Fields C → C → Bytes
origin_of R ctx = trim_space (R.header (codes "Origin") ctx)

nil_of_empty : {A : Type 0} (xs : List A) → is_empty xs ≡ true → xs ≡ []
nil_of_empty [] e = refl
nil_of_empty (x ∷ xs) e = cc e

module _ {C W : Type 0} (U : Upgrader C) (R : Fields C) (J : JwtLibrary) where
  -- An origin that is absent, that is "*" or the origin up to case in the list, or that is, with no list,
  -- one of the request's own host.
  pub data OriginPermitted (ws : WebSocketServer C W) (ctx : C) : Type 0 where
    absent : origin_of R ctx ≡ [] → OriginPermitted ws ctx
    listed :
        any
            (λ o. bytes_eq o (codes "*") || U.equal_fold o (origin_of R ctx))
            ws.config.allowed_origins
          ≡ true
        → OriginPermitted ws ctx
    own_host :
        (host : Bytes)
        → ws.config.allowed_origins ≡ []
        → IsHostOf (origin_of R ctx) host
        → U.equal_fold host (U.host ctx) ≡ true
        → OriginPermitted ws ctx

  -- What a request must fulfil: the server's path once it runs, a token that is valid under the secret
  -- where there is one, a secret where authentication is required, room for a connection, and an origin
  -- that is permitted.
  pub record IsPermitted (now : ℕ) (ws : WebSocketServer C W) (ctx : C) : Type 0 where
    pub on_path : (not ws.is_running || bytes_eq (U.path ctx) ws.config.path) ≡ true
    pub with_token :
        (is_empty ws.auth_secret
          || is_some (J.parse (presented R ws.auth_lookup ctx) ws.auth_secret now))
        ≡ true
    pub with_secret : (not ws.config.require_auth || not (is_empty ws.auth_secret)) ≡ true
    pub has_room : at_least (length ws.connections) ws.config.max_connections ≡ false
    pub from_origin : OriginPermitted ws ctx

  has_token :
      (now : ℕ) (ws : WebSocketServer C W) (ctx : C)
      → check_auth U R J now ws ctx ≡ true
      → is_empty ws.auth_secret ≡ false
      → is_some (J.parse (presented R ws.auth_lookup ctx) ws.auth_secret now) ≡ true
  unfolding check_auth
  has_token now ws ctx h set =
      ap (λ raw. is_some (J.parse raw ws.auth_secret now))
        (sym (extract_token-presented R ws.auth_lookup ctx))
      ∙ validate_jwt-parse J now (extract_token R ws.auth_lookup ctx) ws.auth_secret set (
          sym (
            if_of_false {b = is_empty ws.auth_secret && not ws.config.require_auth} _ _
              (ground (arith, set))
            ∙ if_of_false {b = is_empty ws.auth_secret && ws.config.require_auth} _ _
                (ground (arith, set)))
          ∙ h)

  has_secret :
      (now : ℕ) (ws : WebSocketServer C W) (ctx : C)
      → check_auth U R J now ws ctx ≡ true
      → ws.config.require_auth ≡ true
      → is_empty ws.auth_secret ≡ false
  unfolding check_auth
  has_secret now ws ctx h required = elim (Bool-cases (is_empty ws.auth_secret)) [
    | inl unset ↦ cc (
        sym (
          if_of_false {b = is_empty ws.auth_secret && not ws.config.require_auth} _ _
            (ground (arith, required))
          ∙ if_of_true {b = is_empty ws.auth_secret && ws.config.require_auth} _ _
              (ground (arith, unset, required)))
        ∙ h)
    | inr set ↦ set
  ]

  origin_allowed :
      (ws : WebSocketServer C W) (ctx : C)
      → check_origin U R J ws ctx ≡ true
      → OriginPermitted ws ctx
  unfolding check_origin
  origin_allowed ws ctx h = elim (Bool-cases (is_empty (origin_of R ctx))) [
    | inl none_sent ↦ absent (nil_of_empty (origin_of R ctx) none_sent)
    | inr sent ↦ elim (Bool-cases (any (allows U (origin_of R ctx)) ws.config.allowed_origins)) [
      | inl found ↦ listed found
      | inr other ↦
          own_host (origin_host (origin_of R ctx))
            (nil_of_empty ws.config.allowed_origins (ground (arith, h, sent, other)))
            (origin_host-IsHostOf (origin_of R ctx)) (ground (arith, h, sent, other))
    ]
  ]

  abbrev off_path : WebSocketServer C W → C → Bool
  off_path ws ctx = ws.is_running && not (bytes_eq (U.path ctx) ws.config.path)

  abbrev full : WebSocketServer C W → Bool
  full ws = at_least (length ws.connections) ws.config.max_connections

  -- What is left of the handler behind its checks.
  abbrev past_auth : WebSocketServer C W → C → Answer
  past_auth ws ctx =
      if full ws then refused 503 (codes "Too Many Connections") else upgrade U R J ws ctx

  abbrev past_path : ℕ → WebSocketServer C W → C → Answer
  past_path now ws ctx =
      if not (check_auth U R J now ws ctx)
      then refused 401 (codes "Unauthorized")
      else past_auth ws ctx

  past_checks :
      (now : ℕ) (ws : WebSocketServer C W) (ctx : C)
      → handle_request U R J now ws ctx ≡ upgraded
      → (off_path ws ctx ≡ false)
        × ((not (check_auth U R J now ws ctx) ≡ false)
            × ((full ws ≡ false) × (upgrade U R J ws ctx ≡ upgraded)))
  unfolding handle_request
  past_checks now ws ctx h =
      let (path_ok, h1) = refused_else (off_path ws ctx) _ _ (past_path now ws ctx) h in
      let (auth_ok, h2) =
        refused_else (not (check_auth U R J now ws ctx)) _ _ (past_auth ws ctx) h1 in
      (path_ok, (auth_ok, refused_else (full ws) _ _ (upgrade U R J ws ctx) h2))

  -- With an upgrader that runs a connection only where CheckOrigin agrees, a request that gets a
  -- connection was permitted in every respect: by its path, its token, the limit and its origin.
  pub handle_request-IsPermitted :
      (now : ℕ) (ws : WebSocketServer C W) (ctx : C)
      → ((check : C → Bool) → U.upgrade check ctx ≡ true → check ctx ≡ true)
      → handle_request U R J now ws ctx ≡ upgraded
      → IsPermitted now ws ctx
  handle_request-IsPermitted now ws ctx checks h =
      let (path_ok, (auth_ok, (room_ok, ran))) = past_checks now ws ctx h in
      let let_in : check_auth U R J now ws ctx ≡ true = ground (arith, auth_ok) in
      let origin_ok =
        checks (check_origin U R J ws) (upgraded_if (U.upgrade (check_origin U R J ws) ctx) ran) in
      record {
        on_path = ground (arith, path_ok);
        with_token = elim (Bool-cases (is_empty ws.auth_secret)) [
          | inl unset ↦ ground (arith, unset)
          | inr set ↦ ground (arith, set, has_token now ws ctx let_in set)
        ];
        with_secret = elim (Bool-cases ws.config.require_auth) [
          | inl required ↦ ground (arith, has_secret now ws ctx let_in required)
          | inr free ↦ ground (arith, free)
        ];
        has_room = room_ok;
        from_origin = origin_allowed ws ctx origin_ok;
      }
