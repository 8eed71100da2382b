-- ===== src/Middleware/Cache.antt =====
-- middleware/cache.go: the store with its times of expiry, and the handler around it. Times are in
-- nanoseconds; each reading of the clock is an argument.
pub mod Replay
use goichi.Prelude.{
  ℕ, zero, suc, ◌+◌, ◌-◌, Bool, true, false, not, ◌&&◌, Option, none, some, List, [], ◌∷◌, ltb, leb,
  ◌==◌, any, is_empty, if◌then◌else◌,
}
use goichi.Prelude.Text.{Bytes, codes, bytes_eq}
use goichi.Prelude.Int.{ℤ, pos, negsuc}
use goichi.Http
use goichi.Http.{Context, Outcome, returned, panicked, Handler, call, lookup, on_ctx}
use goichi.Middleware.{Exchange}

pub record CacheEntry : Type 0 where
  pub body : Bytes
  pub content_type : Bytes
  pub status : ℕ
  pub expires_at : ℕ

abbrev pub Store : Type 0
Store = List (Bytes × CacheEntry)

-- time.Now().After(e.expiresAt)
abbrev pub is_expired : ℕ → CacheEntry → Bool
is_expired now e = ltb e.expires_at now

unfoldable pub fresh : ℕ → Option CacheEntry → Option CacheEntry
fresh now none = none
fresh now (some e) = if is_expired now e then none else some e

unfoldable pub get : ℕ → Bytes → Store → Option CacheEntry
get now key s = fresh now (lookup key s)

unfoldable pub put : Bytes → CacheEntry → Store → Store
put key e s = Http.insert key e s

unfoldable pub evict : ℕ → Store → Store
evict now [] = []
evict now ((k, e) ∷ s) = let rest = evict now s in if is_expired now e then rest else (k, e) ∷ rest

pub record CacheConfig (C : Type 0) : Type 0 where
  pub ttl : ℤ
  pub key_func : Context C → Bytes
  pub methods : List Bytes

-- 30 seconds where none is set.
abbrev pub ttl_or_default : ℤ → ℤ
ttl_or_default (pos zero) = pos 30000000000
ttl_or_default (pos (suc n)) = pos (suc n)
ttl_or_default (negsuc n) = negsuc n

abbrev pub methods_or_default : List Bytes → List Bytes
methods_or_default ms = if is_empty ms then codes "GET" ∷ codes "HEAD" ∷ [] else ms

-- time.Now().Add(ttl)
abbrev pub deadline : ℕ → ℤ → ℕ
deadline now (pos n) = now + n
deadline now (negsuc n) = now - suc n

module _ {C : Type 0} (E : Exchange C) (cfg : CacheConfig C) where
  -- The method is one to cache, and the request has no Authorization header.
  unfoldable pub is_cacheable : Context C → Bool
  is_cacheable c =
      any (λ m. bytes_eq m (E.method c.request_ctx)) (methods_or_default cfg.methods)
      && is_empty (E.header (codes "Authorization") c.request_ctx)

  -- The answer from an entry.
  unfoldable pub replay : CacheEntry → C → C
  replay e ctx = E.set_body e.body (
      E.set_header (codes "X-Cache") (codes "HIT")
        (E.set_header (codes "Content-Type") e.content_type (E.set_status e.status ctx)))

  abbrev pub is_success : ℕ → Bool
  is_success status = leb 200 status && ltb status 300

  abbrev pub entry_of : ℕ → C → CacheEntry
  entry_of now ctx = record {
    body = E.body ctx;
    content_type = E.content_type ctx;
    status = E.status ctx;
    expires_at = deadline now (ttl_or_default cfg.ttl);
  }

  -- After the handler: a response with a status of 2xx is stored.
  unfoldable pub after_miss : Bytes → ℕ → Store → Outcome C → Store × Outcome C
  after_miss key now s (panicked c) = (s, panicked c)
  after_miss key now s (returned c (some err)) = (s, returned c (some err))
  after_miss key now s (returned c none) =
      if is_success (E.status c.request_ctx)
      then (put key (entry_of now c.request_ctx) s, returned c none)
      else (s, returned c none)

  abbrev pub mark_miss : Context C → Context C
  mark_miss c = on_ctx (E.set_header (codes "X-Cache") (codes "MISS")) c

  unfoldable pub serve :
      Handler C → ℕ → Context C → Store → Bytes → Option CacheEntry → Store × Outcome C
  serve next now c s key (some e) = (s, returned (on_ctx (replay e) c) none)
  serve next now c s key none = after_miss key now s (call next (mark_miss c))

  -- The handler, with the clock at the lookup and at the store.
  unfoldable pub cache : Handler C → ℕ → ℕ → Context C → Store → Store × Outcome C
  cache next now now' c s =
      let key = cfg.key_func c in
      if is_cacheable c then serve next now' c s key (get now key s) else (s, call next c)
