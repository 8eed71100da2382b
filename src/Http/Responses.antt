-- ===== src/Http/Responses.antt =====
-- core/types.go and utils/conv.go: how a handler reads a request and answers it.
use goichi.Prelude.{ℕ, Option, none, some, List, [], ◌∷◌, ◌++◌, if◌then◌else◌, is_empty}
use goichi.Prelude.Text.{Bytes, codes}
use goichi.Prelude.Int.{ℤ}
use goichi.Http.{Context, Outcome, returned, Value, FastHttp, failure, param, on_ctx}

-- strconv: what Atoi and ParseInt, ParseFloat and ParseBool read; a float is of type N.
abbrev pub or_default : {A : Type 0} → Option A → A → A
or_default none def = def
or_default (some a) def = a

abbrev pub to_int : (Bytes → Option ℤ) → Bytes → ℤ → ℤ
to_int atoi s def = or_default (atoi s) def

abbrev pub to_int64 : (Bytes → Option ℤ) → Bytes → ℤ → ℤ
to_int64 parse_int s def = or_default (parse_int s) def

abbrev pub to_float : {N : Type 0} → (Bytes → Option N) → Bytes → N → N
to_float parse_float s def = or_default (parse_float s) def

-- The claims of the request's token.
module _ {C : Type 0} where
  abbrev pub jwt : Context C → Option (List (Bytes × Value))
  jwt c = c.jwt_claims

  abbrev pub param_int : (Bytes → Option ℤ) → Bytes → ℤ → Context C → ℤ
  param_int atoi key def c = to_int atoi (param key c) def

-- A query argument and a header of a request context.
module _ {C : Type 0} (query_arg header_of : Bytes → C → Bytes) where
  abbrev pub query : Bytes → Context C → Bytes
  query key c = query_arg key c.request_ctx

  abbrev pub query_default : Bytes → Bytes → Context C → Bytes
  query_default key fallback c = let v = query key c in if is_empty v then fallback else v

  abbrev pub query_int : (Bytes → Option ℤ) → Bytes → ℤ → Context C → ℤ
  query_int atoi key def c = to_int atoi (query key c) def

  abbrev pub header : Bytes → Context C → Bytes
  header key c = header_of key c.request_ctx

-- The encoder of JSON, for values of type V, writes behind what the body has, with a newline; `none` is its
-- error. `message` is {"error": msg}.
pub record Encoder (C V : Type 0) : Type 0 where
  pub encode : V → Option Bytes
  pub append_body : Bytes → C → C
  pub message : Bytes → V

module _ {C V : Type 0} (F : FastHttp C) (E : Encoder C V) where
  abbrev pub status : ℕ → Context C → Context C
  status code c = on_ctx (F.set_status code) c

  unfoldable pub json : V → Context C → Outcome C
  json v c =
      let typed = on_ctx (F.set_content_type (codes "application/json")) c in
      elim (E.encode v) [
        | none ↦ returned typed (some (failure (codes "json")))
        | some b ↦ returned (on_ctx (E.append_body (b ++ 10 ∷ [])) typed) none
      ]

  abbrev pub ok_with : V → Context C → Outcome C
  ok_with v c = json v (status 200 c)

  abbrev pub created : V → Context C → Outcome C
  created v c = json v (status 201 c)

  abbrev pub no_content : Context C → Outcome C
  no_content c = returned (status 204 c) none

  -- An answer with a message, from BadRequest to InternalError.
  abbrev pub complain : ℕ → Bytes → Context C → Outcome C
  complain code msg c = json (E.message msg) (status code c)

  abbrev pub bad_request : Bytes → Context C → Outcome C
  bad_request = complain 400

  abbrev pub unauthorized : Bytes → Context C → Outcome C
  unauthorized = complain 401

  abbrev pub forbidden : Bytes → Context C → Outcome C
  forbidden = complain 403

  abbrev pub not_found : Bytes → Context C → Outcome C
  not_found = complain 404

  abbrev pub unprocessable_entity : Bytes → Context C → Outcome C
  unprocessable_entity = complain 422

  abbrev pub too_many_requests : Bytes → Context C → Outcome C
  too_many_requests = complain 429

  abbrev pub internal_error : Bytes → Context C → Outcome C
  internal_error = complain 500
