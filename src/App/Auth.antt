-- ===== src/App/Auth.antt =====
-- Which protocol handlers have the authentication of the app, whatever the order of the calls.
use mathlib.Core.Option
use goichi.Prelude.{
  ℕ, ◌≡◌, refl, sym, ap, subst, ◌∙◌, Bool, true, false, Option, none, some, List, [], ◌∷◌,
  if◌then◌else◌, is_empty, inl, inr, Bool-cases, Option-cases, if_of_true, if_of_false,
}
use goichi.Prelude.Text.{Bytes, bytes_eq}
use goichi.Http.{FastHttp, Middleware, lookup}
use goichi.Http.Maps.{lookup-insert}
use goichi.Middleware.Jwt.{JwtLibrary, Fields, JwtConfig, lookup_or_default}
use goichi.Protocol.Registry.{
  ProtocolHandler, ProtocolRegistry, register, with_auth, set_unified_auth,
}
use goichi.App.{
  Config, DocsConfig, ProtocolFastHttpMiddleware, App, use_app, use_protocol, use_all, add_docs,
  hooked, inherit, mount_protocol, register_protocol, protected_app, set_jwt_auth, new,
}

-- The call that sets an app up: SetJWTAuth with the time, RegisterProtocol, Use, UseProtocol or AddDocs.
pub data Setup (C : Type 0) : Type 0 where
  setting_jwt_auth : ℕ → JwtConfig C → Setup C
  registering : ProtocolHandler C → Setup C
  using : List (Middleware C) → Setup C
  using_protocol : List (ProtocolFastHttpMiddleware C) → Setup C
  adding_docs : DocsConfig → Setup C

-- The secret and the lookup of a configuration, and those that are in force after some calls.
abbrev pub credentials : {C : Type 0} → JwtConfig C → Bytes × Bytes
credentials cfg = (cfg.secret, lookup_or_default cfg.token_lookup)

abbrev pub in_force : {C : Type 0} → Config C → List (Setup C) → Option (Bytes × Bytes)
in_force config [] = if is_empty config.jwt.secret then none else some (credentials config.jwt)
in_force config (setting_jwt_auth now cfg ∷ earlier) = some (credentials cfg)
in_force config (registering handler ∷ earlier) = in_force config earlier
in_force config (using m ∷ earlier) = in_force config earlier
in_force config (using_protocol m ∷ earlier) = in_force config earlier
in_force config (adding_docs d ∷ earlier) = in_force config earlier

abbrev both : {C : Type 0} → JwtConfig C → Bytes × Bytes
both cfg = (cfg.secret, cfg.token_lookup)

-- Where authentication is in force, the handler has its secret and its lookup, if it can have them.
abbrev IsCovered : {C : Type 0} → Option (Bytes × Bytes) → ProtocolHandler C → Type 0
IsCovered auth handler =
    (a : Bytes × Bytes)
    → auth ≡ some a
    → handler.auth_aware ≡ true
    → (handler.auth_secret, handler.auth_lookup) ≡ a

abbrev AllCovered : {C : Type 0} → Option (Bytes × Bytes) → ProtocolRegistry C → Type 0
AllCovered {C} auth r =
    (name : Bytes) (handler : ProtocolHandler C)
    → lookup name r ≡ some handler
    → IsCovered auth handler

module _ {C : Type 0} where
  lookup-set_unified_auth :
      (secret spec name : Bytes) (r : ProtocolRegistry C)
      → lookup name (set_unified_auth secret spec r)
        ≡ Option.map (with_auth secret spec) (lookup name r)
  unfolding lookup set_unified_auth
  lookup-set_unified_auth secret spec name [] = refl
  lookup-set_unified_auth secret spec name ((k, h) ∷ r) = elim (Bool-cases (bytes_eq k name)) [
    | inl same ↦ rw same refl
    | inr other ↦ rw other (lookup-set_unified_auth secret spec name r)
  ]

  abbrev carried : ProtocolHandler C → Bytes × Bytes
  carried handler = (handler.auth_secret, handler.auth_lookup)

  with_auth_unaware :
      (secret spec : Bytes) (handler : ProtocolHandler C)
      → handler.auth_aware ≡ false
      → with_auth secret spec handler ≡ handler
  with_auth_unaware secret spec handler h = if_of_false _ _ h

  with_auth-IsCovered :
      (secret spec : Bytes) (handler : ProtocolHandler C)
      → IsCovered (some (secret, spec)) (with_auth secret spec handler)
  with_auth-IsCovered secret spec handler a e aware = elim (Bool-cases handler.auth_aware) [
    | inl is_aware ↦ ap carried (if_of_true _ _ is_aware) ∙ cc e
    | inr not_aware ↦ cc (
        sym aware
        ∙ ap (λ h. h.auth_aware) (with_auth_unaware secret spec handler not_aware)
        ∙ not_aware)
  ]

  set_unified_auth-AllCovered :
      (secret spec : Bytes) (r : ProtocolRegistry C)
      → AllCovered (some (secret, spec)) (set_unified_auth secret spec r)
  set_unified_auth-AllCovered secret spec r name handler found =
      elim (Option-cases (lookup name r)) [
        | inl e ↦ cc (
            sym found
            ∙ lookup-set_unified_auth secret spec name r
            ∙ ap (Option.map (with_auth secret spec)) e)
        | inr (h, e) ↦
            let same : with_auth secret spec h ≡ handler = cc (
              ap (Option.map (with_auth secret spec)) (sym e)
              ∙ sym (lookup-set_unified_auth secret spec name r)
              ∙ found) in
            subst (IsCovered (some (secret, spec))) same (with_auth-IsCovered secret spec h)
      ]

  register-AllCovered :
      (auth : Option (Bytes × Bytes)) (handler : ProtocolHandler C) (r : ProtocolRegistry C)
      → IsCovered auth handler
      → AllCovered auth r
      → AllCovered auth (register handler r)
  unfolding register
  register-AllCovered auth handler r covered all name h found =
      elim (Bool-cases (bytes_eq handler.name name)) [
        | inl same ↦
            let this : handler ≡ h =
              cc (sym (lookup-insert handler.name name handler r ∙ if_of_true _ _ same) ∙ found) in
            subst (IsCovered auth) this covered
        | inr other ↦
            all name h
              (sym (lookup-insert handler.name name handler r ∙ if_of_false _ _ other) ∙ found)
      ]

  inherit-IsCovered :
      (cfg : Option (JwtConfig C)) (handler : ProtocolHandler C)
      → IsCovered (Option.map both cfg) (hooked (inherit cfg handler))
  inherit-IsCovered none handler = λ a e aware. cc e
  inherit-IsCovered (some cfg) handler = with_auth-IsCovered cfg.secret cfg.token_lookup handler

  -- The app keeps what is in force, and its handlers have it.
  abbrev IsSetUp : Option (Bytes × Bytes) → App C → Type 0
  IsSetUp auth a = (Option.map both a.jwt_config ≡ auth) × AllCovered auth a.registry

  mount_protocol-IsSetUp :
      (auth : Option (Bytes × Bytes)) (handler : ProtocolHandler C) (a : App C)
      → IsSetUp auth a
      → IsSetUp auth (mount_protocol handler a)
  unfolding mount_protocol
  mount_protocol-IsSetUp auth handler a ok =
      elim (Bool-cases a.config.server.enable_port_multiplexing) [
        | inl multiplexed ↦ subst (IsSetUp auth) (sym (if_of_true _ _ multiplexed)) ok
        | inr separate ↦ subst (IsSetUp auth) (sym (if_of_false _ _ separate)) ok
      ]

  register_protocol-IsSetUp :
      (auth : Option (Bytes × Bytes)) (handler : ProtocolHandler C) (a : App C)
      → IsSetUp auth a
      → IsSetUp auth (register_protocol handler a)
  unfolding register_protocol
  register_protocol-IsSetUp auth handler a (kept, all) =
      mount_protocol-IsSetUp auth handler
        (record a { registry = register (hooked (inherit a.jwt_config handler)) a.registry })
        (
          kept,
          register-AllCovered auth (hooked (inherit a.jwt_config handler)) a.registry
              (subst (λ o. IsCovered o (hooked (inherit a.jwt_config handler))) kept
                (inherit-IsCovered a.jwt_config handler))
              all,
        )

  module _ (F : FastHttp C) (append_body : Bytes → C → C) (R : Fields C) (J : JwtLibrary) where
    abbrev pub set_up : Setup C → App C → App C
    set_up (setting_jwt_auth now cfg) a = set_jwt_auth F append_body R J now cfg a
    set_up (registering handler) a = register_protocol handler a
    set_up (using m) a = use_app m a
    set_up (using_protocol m) a = use_protocol m a
    set_up (adding_docs d) a = add_docs d a

    -- The calls on an app, the last one first.
    abbrev pub after_calls : List (Setup C) → App C → App C
    after_calls [] a = a
    after_calls (c ∷ earlier) a = set_up c (after_calls earlier a)

    set_jwt_auth-IsSetUp :
        (now : ℕ) (cfg : JwtConfig C) (a : App C)
        → IsSetUp (some (credentials cfg)) (set_jwt_auth F append_body R J now cfg a)
    unfolding set_jwt_auth
    set_jwt_auth-IsSetUp now cfg a = (
      refl,
      set_unified_auth-AllCovered cfg.secret (lookup_or_default cfg.token_lookup) a.registry,
    )

    either_IsSetUp :
        (b : Bool) (o o' : Option (Bytes × Bytes)) (a a' : App C)
        → IsSetUp o a
        → IsSetUp o' a'
        → IsSetUp (if b then o else o') (if b then a else a')
    either_IsSetUp true o o' a a' ok ok' = ok
    either_IsSetUp false o o' a a' ok ok' = ok'

    new-IsSetUp :
        (now : ℕ) (config : Config C)
        → IsSetUp (in_force config []) (new F append_body R J now config)
    unfolding new protected_app use_all use_protocol use_app
    new-IsSetUp now config =
        let plain = protected_app F append_body R J config in
        either_IsSetUp (is_empty config.jwt.secret) none (some (credentials config.jwt)) plain
          (set_jwt_auth F append_body R J now config.jwt plain)
          (refl, λ name handler found a e aware. cc e) (set_jwt_auth-IsSetUp now config.jwt plain)

    set_up-IsSetUp :
        (c : Setup C) (config : Config C) (earlier : List (Setup C)) (a : App C)
        → IsSetUp (in_force config earlier) a
        → IsSetUp (in_force config (c ∷ earlier)) (set_up c a)
    unfolding use_app use_protocol add_docs
    set_up-IsSetUp (setting_jwt_auth now cfg) config earlier a ok = set_jwt_auth-IsSetUp now cfg a
    set_up-IsSetUp (registering handler) config earlier a ok =
        register_protocol-IsSetUp (in_force config earlier) handler a ok
    set_up-IsSetUp (using m) config earlier a ok = ok
    set_up-IsSetUp (using_protocol m) config earlier a ok = ok
    set_up-IsSetUp (adding_docs d) config earlier a ok = ok

    after_calls-IsSetUp :
        (now : ℕ) (config : Config C) (calls : List (Setup C))
        → IsSetUp (in_force config calls) (after_calls calls (new F append_body R J now config))
    after_calls-IsSetUp now config [] = new-IsSetUp now config
    after_calls-IsSetUp now config (c ∷ earlier) =
        set_up-IsSetUp c config earlier (after_calls earlier (new F append_body R J now config))
          (after_calls-IsSetUp now config earlier)

    -- Whatever the order in which protocols are registered and authentication is set, by New or by
    -- SetJWTAuth: a registered handler that can have authentication has the secret and the lookup that
    -- were set last, where they were set at all.
    pub after_calls-covered :
        (now : ℕ) (config : Config C) (calls : List (Setup C)) (name : Bytes)
        (handler : ProtocolHandler C) (auth : Bytes × Bytes)
        → lookup name (after_calls calls (new F append_body R J now config)).registry ≡ some handler
        → in_force config calls ≡ some auth
        → handler.auth_aware ≡ true
        → (handler.auth_secret, handler.auth_lookup) ≡ auth
    after_calls-covered now config calls name handler auth found set aware =
        (after_calls-IsSetUp now config calls).1 name handler found auth set aware
