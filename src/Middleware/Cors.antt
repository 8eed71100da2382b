-- ===== src/Middleware/Cors.antt =====
-- middleware/cors.go: which origin is allowed, the headers of the answer, and itoa.
pub mod Origins
use goichi.Prelude.{
  ℕ, zero, suc, ◌+◌, ◌/◌, ◌%◌, Bool, true, false, Option, none, some, List, [], ◌∷◌, ◌++◌, ◌==◌,
  ◌||◌, if◌then◌else◌, is_empty,
}
use goichi.Prelude.Text.{Bytes, codes, bytes_eq}
use goichi.Prelude.Int.{ℤ, pos, negsuc}
use goichi.Http.{Context, Outcome, returned, Handler, call, join, on_ctx}
use goichi.Middleware.{Exchange}

pub record CorsConfig : Type 0 where
  pub allow_origins : List Bytes
  pub allow_methods : List Bytes
  pub allow_headers : List Bytes
  pub max_age : ℤ

abbrev pub default_cors_config : CorsConfig
default_cors_config = record {
  allow_origins = [];
  allow_methods =
      codes "GET"
      ∷ codes "POST"
      ∷ codes "PUT"
      ∷ codes "PATCH"
      ∷ codes "DELETE"
      ∷ codes "OPTIONS"
      ∷ [];
  allow_headers =
      codes "Origin" ∷ codes "Content-Type" ∷ codes "Authorization" ∷ codes "Accept" ∷ [];
  max_age = pos 86400;
}

-- The first entry that is "*" or the origin, or the empty string.
unfoldable pub allowed_origin : List Bytes → Bytes → Bytes
allowed_origin [] origin = []
allowed_origin (o ∷ os) origin =
    let rest = allowed_origin os origin in
    if bytes_eq o (codes "*") || bytes_eq o origin then o else rest

-- The loop of itoa, which writes the digits into a buffer of 20 bytes from its end.
unfoldable pub itoa_loop : ℕ → ℕ → Bytes → Bytes
itoa_loop zero n buf = buf
itoa_loop (suc room) n buf =
    let rest = itoa_loop room (n / 10) ((n % 10 + b'0') ∷ buf) in if n == 0 then buf else rest

unfoldable pub itoa : ℤ → Bytes
unfolding itoa_loop
itoa (pos zero) = codes "0"
itoa (pos (suc n)) = itoa_loop 20 (suc n) []
itoa (negsuc n) = []

module _ {C : Type 0} (E : Exchange C) (cfg : CorsConfig) where
  abbrev age_header : ℤ → C → C
  age_header (pos zero) ctx = ctx
  age_header (pos (suc n)) ctx =
      E.set_header (codes "Access-Control-Max-Age") (itoa (pos (suc n))) ctx
  age_header (negsuc n) ctx = ctx

  unfoldable pub cors_headers : C → C
  unfolding join allowed_origin itoa
  cors_headers ctx =
      let allowed = allowed_origin cfg.allow_origins (E.header (codes "Origin") ctx) in
      let varied = E.add_header (codes "Vary") (codes "Origin") ctx in
      if is_empty allowed
      then varied
      else age_header cfg.max_age (
          E.set_header (codes "Access-Control-Allow-Headers") (join (codes ", ") cfg.allow_headers)
            (E.set_header (codes "Access-Control-Allow-Methods")
              (join (codes ", ") cfg.allow_methods)
              (E.set_header (codes "Access-Control-Allow-Origin") allowed varied)))

  unfoldable pub cors : Handler C → Context C → Outcome C
  unfolding cors_headers
  cors next c =
      let c' = on_ctx cors_headers c in
      if bytes_eq (E.method c.request_ctx) (codes "OPTIONS")
      then returned (on_ctx (E.set_status 204) c') none
      else call next c'
