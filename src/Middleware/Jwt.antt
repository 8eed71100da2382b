-- ===== src/Middleware/Jwt.antt =====
-- middleware/jwt.go: where a token is read, what a valid one is, the middleware, and EncodeJWT. The JWT
-- library and the request's fields are interfaces.
pub mod Presented
pub mod Guard
pub mod Tokens
mod Tests
use goichi.Prelude.{
  ℕ, zero, suc, ◌+◌, Bool, true, false, not, Option, none, some, List, [], ◌∷◌, ◌++◌, if◌then◌else◌,
  is_empty, is_some,
}
use goichi.Prelude.Text.{Bytes, codes, bytes_eq, trim_space, cut_at}
use goichi.Prelude.Int.{ℤ, pos, negsuc}
use goichi.Http
use goichi.Http.{
  Value, FastHttp, Context, Outcome, returned, panicked, Handler, Middleware, Error, failure, call,
  lookup, on_ctx,
}
use goichi.Proxy.Forward.{trim_prefix}
use goichi.Router.Compile.{respond_error}

abbrev pub Claims : Type 0
Claims = List (Bytes × Value)

-- jwt.Parse with an HMAC method and a required expiry, at a time: the claims of a valid token. SignedString
-- of a token with some claims, by HS256. NewNumericDate.
pub record JwtLibrary : Type 0 where
  pub parse : Bytes → Bytes → ℕ → Option Claims
  pub sign : Claims → Bytes → Option Bytes
  pub date : ℕ → Value

-- A request header, query argument or cookie, and the response header.
pub record Fields (C : Type 0) : Type 0 where
  pub header : Bytes → C → Bytes
  pub query : Bytes → C → Bytes
  pub cookie : Bytes → C → Bytes
  pub set_header : Bytes → Bytes → C → C

pub data Verdict : Type 0 where
  valid : Claims → Verdict
  rejected : Bytes → Verdict

abbrev pub is_valid : Verdict → Bool
is_valid (valid claims) = true
is_valid (rejected msg) = false

abbrev pub default_lookup : Bytes
default_lookup = codes "header:Authorization"

abbrev pub lookup_or_default : Bytes → Bytes
lookup_or_default s = if is_empty s then default_lookup else s

unfoldable pub validate_jwt : JwtLibrary → ℕ → Bytes → Bytes → Verdict
validate_jwt J now raw secret =
    if is_empty secret
    then rejected (codes "server misconfiguration: missing JWT secret")
    else if is_empty raw
    then rejected (codes "missing or empty token")
    else elim (J.parse raw secret now) [
      | none ↦ rejected (codes "invalid token")
      | some claims ↦ valid claims
    ]

module _ {C : Type 0} (R : Fields C) where
  abbrev pub read_field : Bytes → Bytes → C → Bytes
  read_field source key ctx =
      if bytes_eq source (codes "header")
      then trim_space (trim_prefix (R.header key ctx) (codes "Bearer "))
      else if bytes_eq source (codes "query")
      then R.query key ctx
      else if bytes_eq source (codes "cookie")
      then R.cookie key ctx
      else []

  unfoldable pub extract_token : Bytes → C → Bytes
  unfolding cut_at trim_space
  extract_token spec ctx = elim (cut_at b':' (lookup_or_default spec)) [
    | none ↦ []
    | some (source, key) ↦ read_field source key ctx
  ]

pub record JwtConfig (C : Type 0) : Type 0 where
  pub secret : Bytes
  pub token_lookup : Bytes
  pub error_handler : Option (Context C → Bytes → Outcome C)

module _ {C : Type 0} (F : FastHttp C) (R : Fields C) (J : JwtLibrary) (cfg : JwtConfig C) where
  unfoldable pub reject : Bytes → Context C → Outcome C
  unfolding respond_error
  reject reason c = elim cfg.error_handler [
    | none ↦ respond_error F 401 reason c
    | some f ↦ f c reason
  ]

  -- A lookup without a separator falls back to the default.
  unfoldable pub token_lookup : Bytes
  unfolding cut_at
  token_lookup =
      let spec = lookup_or_default cfg.token_lookup in
      if is_some (cut_at b':' spec) then spec else default_lookup

  abbrev pub set_jwt : Claims → Context C → Context C
  set_jwt claims c = record c { jwt_claims = some claims }

  abbrev pub on_verdict : Handler C → Context C → Verdict → Outcome C
  on_verdict next c (valid claims) = call next (set_jwt claims c)
  on_verdict next c (rejected msg) = reject msg c

  unfoldable pub check_token : Handler C → ℕ → Context C → Outcome C
  check_token next now c =
      let raw = extract_token R token_lookup c.request_ctx in
      if is_empty raw
      then reject (codes "missing or empty token") c
      else on_verdict next c (validate_jwt J now raw cfg.secret)

  -- The handler that the middleware makes, with the time at which it reads the clock.
  unfoldable pub jwt : ℕ → Middleware C
  unfolding check_token reject token_lookup extract_token validate_jwt
  jwt now next =
      if is_empty cfg.secret
      then some (reject (codes "server misconfiguration: missing JWT secret"))
      else some (check_token next now)

-- The claims with a value for a name that has none.
abbrev pub with_default : Bytes → Value → Claims → Claims
with_default k v claims = if is_some (lookup k claims) then claims else Http.insert k v claims

-- An hour, in nanoseconds.
abbrev pub default_token_ttl : ℕ
default_token_ttl = 3600000000000

abbrev pub ttl_of : ℤ → ℕ
ttl_of (pos zero) = default_token_ttl
ttl_of (pos (suc n)) = suc n
ttl_of (negsuc n) = default_token_ttl

abbrev pub stamped : JwtLibrary → ℤ → ℕ → Claims → Claims
stamped J ttl now claims =
    with_default (codes "iat") (J.date now)
      (with_default (codes "exp") (J.date (now + ttl_of ttl)) claims)

-- The token or an error.
unfoldable pub encode_jwt_with_ttl : JwtLibrary → Claims → Bytes → ℤ → ℕ → Option Bytes
unfolding Http.insert lookup
encode_jwt_with_ttl J claims secret ttl now =
    if is_empty secret then none else J.sign (stamped J ttl now claims) secret

abbrev pub encode_jwt : JwtLibrary → Claims → Bytes → ℕ → Option Bytes
encode_jwt J claims secret now = encode_jwt_with_ttl J claims secret (pos default_token_ttl) now

module _ {C : Type 0} (R : Fields C) (J : JwtLibrary) (cfg : JwtConfig C) where
  -- The claims that the handler left, signed into the response.
  abbrev pub sign_claims : ℕ → Context C → Option Claims → Outcome C
  sign_claims now c none = returned c none
  sign_claims now c (some claims) = elim (encode_jwt J claims cfg.secret now) [
    | none ↦ returned c (some (failure (codes "jwt")))
    | some s ↦
        returned (on_ctx (R.set_header (codes "Authorization") (codes "Bearer " ++ s)) c) none
  ]

  abbrev pub after_next : ℕ → Outcome C → Outcome C
  after_next now (panicked c) = panicked c
  after_next now (returned c (some err)) = returned c (some err)
  after_next now (returned c none) = sign_claims now c c.jwt_claims

  unfoldable pub jwt_encode : ℕ → Handler C → Context C → Outcome C
  unfolding encode_jwt_with_ttl
  jwt_encode now next c = after_next now (call next c)
