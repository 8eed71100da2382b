-- ===== src/Middleware/Recover.antt =====
-- middleware/recover.go and security_headers.go, the middleware that an app starts with.
use goichi.Prelude.{none, some, List, [], ◌∷◌, ◌++◌}
use goichi.Prelude.Text.{Bytes, codes}
use goichi.Http.{FastHttp, Context, Outcome, returned, panicked, Middleware, failure, call, on_ctx}

-- Context.JSON of {"error": msg}: an encoder writes behind what the body has, with a newline.
module _ {C : Type 0} (F : FastHttp C) (append_body : Bytes → C → C) where
  abbrev json_type : Context C → Context C
  json_type c = on_ctx (F.set_content_type (codes "application/json")) c

  unfoldable pub encode_error : Bytes → Context C → Outcome C
  encode_error msg c = elim (F.json_error msg) [
    | none ↦ returned (json_type c) (some (failure (codes "json")))
    | some b ↦ returned (on_ctx (append_body (b ++ 10 ∷ [])) (json_type c)) none
  ]

  abbrev pub after_panic : Outcome C → Outcome C
  after_panic (returned c err) = returned c err
  after_panic (panicked c) =
      encode_error (codes "internal server error") (on_ctx (F.set_status 500) c)

  unfoldable pub recover : Middleware C
  unfolding encode_error
  recover next = some (λ c. after_panic (call next c))

abbrev pub header_pairs : List (Bytes × Bytes)
header_pairs =
    (codes "X-Content-Type-Options", codes "nosniff")
    ∷ (codes "X-Frame-Options", codes "DENY")
    ∷ (codes "Referrer-Policy", codes "no-referrer")
    ∷ (codes "X-XSS-Protection", codes "0")
    ∷ (
      codes "Content-Security-Policy",
      codes
          "default-src 'self'; script-src 'self' cdn.jsdelivr.net; style-src 'self' cdn.jsdelivr.net 'unsafe-inline';",
    )
    ∷ (codes "Strict-Transport-Security", codes "max-age=63072000; includeSubDomains; preload")
    ∷ []

module _ {C : Type 0} (F : FastHttp C) where
  abbrev pub set_headers : List (Bytes × Bytes) → C → C
  set_headers [] ctx = ctx
  set_headers ((k, v) ∷ hs) ctx = set_headers hs (F.set_header k v ctx)

  unfoldable pub security_headers : Middleware C
  security_headers next = some (λ c. call next (on_ctx (set_headers header_pairs) c))
