-- ===== src/Protocol/Grpc/Guard.antt =====
-- What a call of a server that was started with a secret meets.
use goichi.Prelude.{
  ◌≡◌, refl, ap, ◌∙◌, Bool, true, false, Option, none, some, List, [], ◌∷◌, ◌++◌, arith, inl, inr,
  Bool-cases, Option-cases, is_empty, if◌then◌else◌,
}
use goichi.Prelude.Text.{Bytes, codes, trim_space}
use goichi.Prelude.Int.{ℤ, pos, less}
use goichi.Middleware.Jwt.{Claims, JwtLibrary, validate_jwt}
use goichi.Proxy.Forward.{trim_prefix}
use goichi.Protocol.{tls_enabled}
use goichi.Protocol.Grpc.{
  GrpcLibrary, Interceptor, ServerOption, keepalive_seconds, creds, chain_unary_interceptor,
  chain_stream_interceptor, Built, GrpcServer, first_value, token_of, on_verdict, with_metadata,
  unified_auth_interceptor, interceptors, when_any, server_options, start,
}

module _ {X A : Type 0} where
  -- The interceptors that a server of the library has by its options.
  abbrev pub unary_of : List (ServerOption X A) → List (Interceptor X A)
  unary_of [] = []
  unary_of (chain_unary_interceptor is ∷ options) = is ++ unary_of options
  unary_of (o ∷ options) = unary_of options

  abbrev pub streams_of : List (ServerOption X A) → List (Interceptor X A)
  streams_of [] = []
  streams_of (chain_stream_interceptor is ∷ options) = is ++ streams_of options
  streams_of (o ∷ options) = streams_of options

  abbrev pub source_of : Option (List (Interceptor X A)) → List (Interceptor X A)
  source_of none = []
  source_of (some is) = is

  append_nil : (is : List (Interceptor X A)) → is ++ [] ≡ is
  append_nil [] = refl
  append_nil (i ∷ is) = ap (λ js. i ∷ js) (append_nil is)

  unary_of-chains :
      (us ss : List (Interceptor X A))
      → unary_of (when_any chain_unary_interceptor us ++ when_any chain_stream_interceptor ss) ≡ us
  unary_of-chains [] [] = refl
  unary_of-chains [] (i ∷ is) = refl
  unary_of-chains (i ∷ is) [] = append_nil (i ∷ is)
  unary_of-chains (i ∷ is) (j ∷ js) = append_nil (i ∷ is)

  streams_of-chains :
      (us ss : List (Interceptor X A))
      → streams_of (when_any chain_unary_interceptor us ++ when_any chain_stream_interceptor ss)
        ≡ ss
  streams_of-chains [] [] = refl
  streams_of-chains [] (i ∷ is) = append_nil (i ∷ is)
  streams_of-chains (i ∷ is) [] = refl
  streams_of-chains (i ∷ is) (j ∷ js) = append_nil (j ∷ js)

  -- Options before the interceptors.
  abbrev settings_then : Bool → Bool → ℤ → List (ServerOption X A) → List (ServerOption X A)
  settings_then alive tls k options =
      (if alive then keepalive_seconds k ∷ [] else [])
      ++ ((if tls then creds ∷ [] else []) ++ options)

  interceptors-settings_then :
      (alive tls : Bool) (k : ℤ) (options : List (ServerOption X A))
      → (unary_of (settings_then alive tls k options) ≡ unary_of options)
        × (streams_of (settings_then alive tls k options) ≡ streams_of options)
  interceptors-settings_then true true k options = (refl, refl)
  interceptors-settings_then true false k options = (refl, refl)
  interceptors-settings_then false true k options = (refl, refl)
  interceptors-settings_then false false k options = (refl, refl)

module _ {X D A : Type 0} (G : GrpcLibrary X D A) (J : JwtLibrary) where
  of-server_options :
      (gs : GrpcServer X A)
      → (unary_of (server_options G J gs) ≡ interceptors G J gs.auth_secret gs.unary_src)
        × (streams_of (server_options G J gs) ≡ interceptors G J gs.auth_secret gs.stream_src)
  unfolding server_options
  of-server_options gs =
      let us = interceptors G J gs.auth_secret gs.unary_src in
      let ss = interceptors G J gs.auth_secret gs.stream_src in
      let passed =
        interceptors-settings_then (less (pos 0) gs.config.keepalive_time)
          (tls_enabled gs.config.base) gs.config.keepalive_time
          (when_any chain_unary_interceptor us ++ when_any chain_stream_interceptor ss) in
      (passed.0 ∙ unary_of-chains us ss, passed.1 ∙ streams_of-chains us ss)

  -- The first of the values of a header, without white space around it and the scheme.
  abbrev first_token : List Bytes → Bytes
  first_token [] = []
  first_token (v ∷ vs) = trim_prefix (trim_space v) (codes "Bearer ")

  -- The header is looked for under its name in small letters first.
  abbrev sent_token : D → Bytes
  sent_token md =
      if is_empty (G.get md (codes "authorization"))
      then first_token (G.get md (codes "Authorization"))
      else first_token (G.get md (codes "authorization"))

  abbrev for_claims : (X → A) → X → Option Claims → A
  for_claims inner ctx none = G.unauthenticated (codes "invalid token")
  for_claims inner ctx (some claims) = inner (G.with_claims claims ctx)

  abbrev for_token : Bytes → (X → A) → X → Bytes → A
  for_token secret inner ctx [] = G.unauthenticated (codes "missing or empty token")
  for_token secret inner ctx (b ∷ raw) =
      for_claims inner ctx (J.parse (b ∷ raw) secret (G.time_of ctx))

  abbrev for_metadata : Bytes → (X → A) → X → Option D → A
  for_metadata secret inner ctx none = G.unauthenticated (codes "missing metadata")
  for_metadata secret inner ctx (some md) = for_token secret inner ctx (sent_token md)

  -- What a call gets: the service behind `inner`, with the claims that the library reads in the token of
  -- its metadata, or why it is unauthenticated.
  abbrev pub guarded : Bytes → (X → A) → X → A
  guarded secret inner ctx = for_metadata secret inner ctx (G.from_incoming_context ctx)

  token_of-sent : (md : D) → token_of G J md ≡ sent_token md
  unfolding token_of
  token_of-sent md = elim (Bool-cases (is_empty (G.get md (codes "authorization")))) [
    | inl e ↦ rw e (same (G.get md (codes "Authorization")))
    | inr e ↦ rw e (same (G.get md (codes "authorization")))
  ]
    where
      same : (vs : List Bytes) → first_value G J vs ≡ first_token vs
      same [] = refl
      same (v ∷ vs) = refl

  checked-for_token :
      (secret : Bytes) (h : X → A) (ctx : X) (raw : Bytes)
      → is_empty secret ≡ false
      → (if is_empty raw
          then G.unauthenticated (codes "missing or empty token")
          else on_verdict G J h ctx (validate_jwt J (G.time_of ctx) raw secret))
        ≡ for_token secret h ctx raw
  unfolding validate_jwt
  checked-for_token secret h ctx [] set = refl
  checked-for_token secret h ctx (b ∷ raw) set =
      elim (Option-cases (J.parse (b ∷ raw) secret (G.time_of ctx))) [
        | inl e ↦ rw (set, e) refl
        | inr (claims, e) ↦ rw (set, e) refl
      ]

  with_metadata-guarded :
      (secret : Bytes) (h : X → A) (ctx : X) (md : Option D)
      → is_empty secret ≡ false
      → with_metadata G J secret h ctx md ≡ for_metadata secret h ctx md
  with_metadata-guarded secret h ctx none set = refl
  with_metadata-guarded secret h ctx (some md) set =
      checked-for_token secret h ctx (token_of G J md) set
      ∙ ap (for_token secret h ctx) (token_of-sent md)

  start-server :
      (key_pair listens : Bool) (gs gs' : GrpcServer X A)
      → gs.is_running ≡ false
      → gs.config.base.enabled ≡ true
      → start G J key_pair listens gs ≡ (gs', true)
      → gs'.server
        ≡ some (record { options = server_options G J gs; registered = gs.has_register_func })
  unfolding start
  start-server key_pair listens gs gs' stopped enabled e = ground arith

  -- The documented order of interceptors: the first is the outermost.
  module _
      (chain-cons : (i : Interceptor X A) (is : List (Interceptor X A)) (h : X → A) (ctx : X)
        → G.chain (i ∷ is) h ctx ≡ i (G.chain is h) ctx) where
    chain-interceptors :
        (secret : Bytes) (src : Option (List (Interceptor X A))) (h : X → A) (ctx : X)
        → is_empty secret ≡ false
        → G.chain (interceptors G J secret src) h ctx
          ≡ guarded secret (G.chain (source_of src) h) ctx
    unfolding unified_auth_interceptor
    chain-interceptors secret none h ctx set = rw set (
        chain-cons _ [] h ctx
        ∙ with_metadata-guarded secret (G.chain [] h) ctx (G.from_incoming_context ctx) set)
    chain-interceptors secret (some is) h ctx set = rw set (
        chain-cons _ is h ctx
        ∙ with_metadata-guarded secret (G.chain is h) ctx (G.from_incoming_context ctx) set)

    -- A stopped and enabled server with a secret that is started without an error has a server of the
    -- library in which a call, unary or streaming, reaches the interceptors of the source and then the
    -- service where the JWT library accepts the token of its metadata, with the claims that it reads; any
    -- other call is unauthenticated, with the reason, and reaches neither.
    pub start-guarded :
        (key_pair listens : Bool) (gs gs' : GrpcServer X A) (h : X → A) (ctx : X)
        → gs.is_running ≡ false
        → gs.config.base.enabled ≡ true
        → is_empty gs.auth_secret ≡ false
        → start G J key_pair listens gs ≡ (gs', true)
        → (b : Built X A) × (gs'.server ≡ some b)
          × (G.chain (unary_of b.options) h ctx
              ≡ guarded gs.auth_secret (G.chain (source_of gs.unary_src) h) ctx)
          × (G.chain (streams_of b.options) h ctx
              ≡ guarded gs.auth_secret (G.chain (source_of gs.stream_src) h) ctx)
    start-guarded key_pair listens gs gs' h ctx stopped enabled set e = (
      record { options = server_options G J gs; registered = gs.has_register_func },
      start-server key_pair listens gs gs' stopped enabled e,
      ap (λ is. G.chain is h ctx) (of-server_options gs).0
          ∙ chain-interceptors gs.auth_secret gs.unary_src h ctx set,
      ap (λ is. G.chain is h ctx) (of-server_options gs).1
          ∙ chain-interceptors gs.auth_secret gs.stream_src h ctx set,
    )
