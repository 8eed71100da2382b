-- ===== src/Http.antt =====
-- core/types.go: handlers, middleware and the request context, with fasthttp's request context and
-- the JSON encoder as an interface.
pub mod Maps
pub mod Responses
use goichi.Prelude.{ℕ, Bool, true, false, Option, none, some, List, [], ◌∷◌, ◌++◌, if◌then◌else◌}
use goichi.Prelude.Text.{Bytes, codes, bytes_eq}

-- A value of type any: a string, or anything else by an identity that is never looked into.
pub data Value : Type 0 where
  text : Bytes → Value
  opaque : ℕ → Value

-- What the code calls on a *fasthttp.RequestCtx of type C. `json_error` is json.Marshal of
-- {"error": msg}, `none` where it fails.
pub record FastHttp (C : Type 0) : Type 0 where
  pub method : C → Bytes
  pub path : C → Bytes
  pub set_status : ℕ → C → C
  pub set_content_type : Bytes → C → C
  pub set_header : Bytes → Bytes → C → C
  pub set_body : Bytes → C → C
  pub reset_body : C → C
  pub json_error : Bytes → Option Bytes

-- An error: a *ValidationError with its fields, or any other with its message.
pub data Error : Type 0 where
  validation : List Bytes → Error
  failure : Bytes → Error

pub record Context (C : Type 0) : Type 0 where
  pub request_ctx : C
  pub params : List (Bytes × Bytes)
  pub jwt_claims : Option (List (Bytes × Value))
  pub locals : List (Bytes × Value)

-- A call of a handler returns an error or nil, or panics, and has changed the context.
pub data Outcome (C : Type 0) : Type 0 where
  returned : Context C → Option Error → Outcome C
  panicked : Context C → Outcome C

-- `none` is a nil func.
abbrev pub Handler : Type 0 → Type 0
Handler C = Option (Context C → Outcome C)

abbrev pub Middleware : Type 0 → Type 0
Middleware C = Handler C → Handler C

abbrev pub ErrorHandler : Type 0 → Type 0
ErrorHandler C = Context C → Error → Outcome C

-- A call of a nil func panics.
abbrev pub call : {C : Type 0} → Handler C → Context C → Outcome C
call none c = panicked c
call (some f) c = f c

-- A map as an association list: a lookup, and a store under a key.
module _ {V : Type 0} where
  unfoldable pub lookup : Bytes → List (Bytes × V) → Option V
  lookup k [] = none
  lookup k ((j, v) ∷ m) = if bytes_eq j k then some v else lookup k m

  unfoldable pub insert : Bytes → V → List (Bytes × V) → List (Bytes × V)
  insert k v [] = (k, v) ∷ []
  insert k v ((j, w) ∷ m) = if bytes_eq j k then (k, v) ∷ m else (j, w) ∷ insert k v m

  -- delete
  unfoldable pub erase : Bytes → List (Bytes × V) → List (Bytes × V)
  erase k [] = []
  erase k ((j, v) ∷ m) = let rest = erase k m in if bytes_eq j k then rest else (j, v) ∷ rest

-- strings.Join
unfoldable pub join : Bytes → List Bytes → Bytes
join sep [] = []
join sep (x ∷ []) = x
join sep (x ∷ y ∷ ys) = x ++ (sep ++ join sep (y ∷ ys))

module _ {C : Type 0} where
  unfoldable pub set : Bytes → Value → Context C → Context C
  unfolding insert
  set key val c = record c { locals = insert key val c.locals }

  unfoldable pub get : Bytes → Context C → Option Value
  unfolding lookup
  get key c = lookup key c.locals

  -- A missing parameter reads as the empty string.
  unfoldable pub param : Bytes → Context C → Bytes
  unfolding lookup
  param key c = elim (lookup key c.params) [ none ↦ [] | some v ↦ v ]

  abbrev pub on_ctx : (C → C) → Context C → Context C
  on_ctx f c = record c { request_ctx = f c.request_ctx }

  -- The error is nil unless the encoder fails; the body is set either way.
  unfoldable pub write_json_error : FastHttp C → Bytes → C → C × Option Error
  write_json_error F msg ctx = elim (F.json_error msg) [
    | none ↦ (
      F.set_body (codes "{\"error\":\"internal server error\"}")
          (F.set_content_type (codes "application/json") ctx),
      some (failure (codes "json")),
    )
    | some b ↦ (F.set_body b (F.set_content_type (codes "application/json") ctx), none)
  ]

-- ValidationError.Error
unfoldable pub error_text : List Bytes → Bytes
unfolding join
error_text fields = codes "validation failed: " ++ join (codes "; ") fields
