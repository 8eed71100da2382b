-- ===== src/Middleware/Body.antt =====
-- middleware/bodylimit.go and compress.go. The compressors are an interface.
use goichi.Prelude.{
  suc, ◌/◌, Bool, true, false, ◌||◌, ◌&&◌, none, some, [], ◌∷◌, ◌++◌, if◌then◌else◌, length, leb,
  ltb, ◌==◌,
}
use goichi.Prelude.Text.{Bytes, codes, bytes_eq}
use goichi.Prelude.Int.{ℤ, pos, negsuc, less}
use goichi.Http.{FastHttp, Outcome, returned, panicked, Middleware, call, on_ctx}
use goichi.Middleware.{Exchange}
use goichi.Middleware.Cors.{itoa}

-- %d
abbrev pub decimal : ℤ → Bytes
decimal (pos n) = itoa (pos n)
decimal (negsuc n) = codes "-" ++ itoa (pos (suc n))

abbrev pub format_bytes : ℤ → Bytes
format_bytes (pos b) =
    if leb 1048576 b
    then decimal (pos (b / 1024 / 1024)) ++ codes " MB"
    else if leb 1024 b
    then decimal (pos (b / 1024)) ++ codes " KB"
    else decimal (pos b) ++ codes " B"
format_bytes (negsuc n) = decimal (negsuc n) ++ codes " B"

-- The body of the request.
module _ {C : Type 0} (F : FastHttp C) (request_body : C → Bytes) where
  abbrev pub too_large : ℤ → C → C
  too_large max_bytes ctx =
      F.set_body
        (codes "{\"error\":\"request body exceeds limit of "
          ++ (format_bytes max_bytes ++ codes "\"}"))
        (F.set_content_type (codes "application/json") (F.set_status 413 ctx))

  unfoldable pub body_limit : ℤ → Middleware C
  unfolding itoa
  body_limit max_bytes next = some (λ c.
      if less max_bytes (pos (length (request_body c.request_ctx)))
      then returned (on_ctx (too_large max_bytes) c) none
      else call next c)

abbrev pub is_prefix : Bytes → Bytes → Bool
is_prefix [] s = true
is_prefix (x ∷ sub) [] = false
is_prefix (x ∷ sub) (y ∷ s) = x == y && is_prefix sub s

-- Some part of s is sub: the loop starts at every place, the end included.
unfoldable pub find_substr : Bytes → Bytes → Bool
find_substr [] sub = is_prefix sub []
find_substr (c ∷ s) sub = is_prefix sub (c ∷ s) || find_substr s sub

unfoldable pub has_substr : Bytes → Bytes → Bool
unfolding find_substr
has_substr s sub =
    leb (length sub) (length s) && (bytes_eq s sub || (ltb 0 (length s) && find_substr s sub))

-- AppendGzipBytes and AppendDeflateBytes.
pub record Compressor : Type 0 where
  pub gzip : Bytes → Bytes
  pub deflate : Bytes → Bytes

module _ {C : Type 0} (E : Exchange C) (Z : Compressor) where
  abbrev pub encoded : Bytes → (Bytes → Bytes) → C → C
  encoded name compressor ctx = E.set_body (compressor (E.body ctx)) (
      E.set_header (codes "Vary") (codes "Accept-Encoding")
        (E.set_header (codes "Content-Encoding") name ctx))

  -- A response of less than 1024 bytes is left as it is.
  unfoldable pub compressed : C → C
  unfolding has_substr
  compressed ctx =
      let ae = E.header (codes "Accept-Encoding") ctx in
      if ltb (length (E.body ctx)) 1024
      then ctx
      else if has_substr ae (codes "gzip")
      then encoded (codes "gzip") Z.gzip ctx
      else if has_substr ae (codes "deflate")
      then encoded (codes "deflate") Z.deflate ctx
      else ctx

  abbrev pub after_compress : Outcome C → Outcome C
  after_compress (returned c none) = returned (on_ctx compressed c) none
  after_compress (returned c (some err)) = returned c (some err)
  after_compress (panicked c) = panicked c

  unfoldable pub compress : Middleware C
  unfolding compressed
  compress next = some (λ c. after_compress (call next c))
