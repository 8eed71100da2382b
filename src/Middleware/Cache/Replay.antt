-- ===== src/Middleware/Cache/Replay.antt =====
-- What a stored response answers, and what eviction leaves.
use goichi.Prelude.{
  ℕ, ◌≤◌, ◌<◌, ◌≡◌, refl, ap, subst, ◌∙◌, Bool, true, false, none, some, [], ◌∷◌, arith, inl, inr,
  Bool-cases, is_some,
}
use goichi.Prelude.Text.{Bytes, codes, bytes_eq, bytes_eq_iff, bytes_eq_refl}
use goichi.Http.{Context, returned, Handler, call, lookup, on_ctx}
use goichi.Http.Maps.{lookup-insert}
use goichi.Middleware.{Exchange}
use goichi.Middleware.Cache.{
  CacheEntry, Store, is_expired, fresh, get, put, evict, CacheConfig, ttl_or_default, deadline,
  is_cacheable, replay, is_success, entry_of, after_miss, mark_miss, serve, cache,
}

module _ {C : Type 0} (E : Exchange C) (cfg : CacheConfig C) where
  stores :
      (next : Handler C) (now now' : ℕ) (c c' : Context C) (s : Store)
      → is_cacheable E cfg c ≡ true
      → get now (cfg.key_func c) s ≡ none
      → call next (mark_miss E cfg c) ≡ returned c' none
      → is_success E cfg (E.status c'.request_ctx) ≡ true
      → (cache E cfg next now now' c s).0
        ≡ put (cfg.key_func c) (entry_of E cfg now' c'.request_ctx) s
  unfolding cache serve after_miss
  stores next now now' c c' s ok miss out good = rw (ok, miss, out, good) refl

  answers :
      (next : Handler C) (now now' : ℕ) (d : Context C) (s : Store) (e : CacheEntry)
      → is_cacheable E cfg d ≡ true
      → get now (cfg.key_func d) s ≡ some e
      → cache E cfg next now now' d s ≡ (s, returned (on_ctx (replay E cfg e) d) none)
  unfolding cache serve
  answers next now now' d s e ok hit = rw (ok, hit) refl

  get-put :
      (now : ℕ) (key : Bytes) (e : CacheEntry) (s : Store)
      → is_expired now e ≡ false
      → get now key (put key e s) ≡ some e
  unfolding get put fresh
  get-put now key e s f = rw (lookup-insert key key e s, bytes_eq_refl key, f) refl

  -- After a miss whose handler returned with a status of 2xx, a cacheable request with the same key that
  -- comes before the time to live is over is answered with the status, the content type and the body of
  -- that response, marked as a hit, and calls no handler; the store stays. Time is read when the response
  -- is stored.
  pub cache-replays :
      (next next' : Handler C) (now now' later later' : ℕ) (c c' d : Context C) (s : Store)
      → is_cacheable E cfg c ≡ true
      → get now (cfg.key_func c) s ≡ none
      → call next (mark_miss E cfg c) ≡ returned c' none
      → 200 ≤ E.status c'.request_ctx
      → E.status c'.request_ctx < 300
      → is_cacheable E cfg d ≡ true
      → cfg.key_func d ≡ cfg.key_func c
      → later ≤ deadline now' (ttl_or_default cfg.ttl)
      → cache E cfg next' later later' d (cache E cfg next now now' c s).0 ≡ (
        (cache E cfg next now now' c s).0,
        returned
            (on_ctx
              (λ ctx. E.set_body (E.body c'.request_ctx) (
                E.set_header (codes "X-Cache") (codes "HIT") (
                  E.set_header
                    (codes "Content-Type")
                    (E.content_type c'.request_ctx)
                    (E.set_status (E.status c'.request_ctx) ctx))))
              d)
            none,
      )
  unfolding replay
  cache-replays next next' now now' later later' c c' d s ok miss out least most ok' same soon =
      let e = entry_of E cfg now' c'.request_ctx in
      let good : is_success E cfg (E.status c'.request_ctx) ≡ true = ground arith in
      let f : is_expired later e ≡ false = ground arith in
      rw (stores next now now' c c' s ok miss out good) (
        answers next' later later' d (put (cfg.key_func c) e s) e ok' (
          ap (λ k. get later k (put (cfg.key_func c) e s)) same
          ∙ get-put later (cfg.key_func c) e s f))

-- Each key has one entry.
abbrev pub has_key : Bytes → Store → Bool
has_key k s = is_some (lookup k s)

abbrev pub IsStore : Store → Type 0
IsStore [] = Unit
IsStore ((k, e) ∷ s) = (has_key k s ≡ false) × IsStore s

lookup-evict_missing :
    (now : ℕ) (key : Bytes) (s : Store) → has_key key s ≡ false → lookup key (evict now s) ≡ none
unfolding evict lookup
lookup-evict_missing now key [] h = refl
lookup-evict_missing now key ((k, e) ∷ s) h = ground (arith, lookup-evict_missing now key s)

-- In a store with one entry for each key, an eviction changes the result of no lookup that reads the
-- clock at its time or later.
pub get-evict :
    (now later : ℕ) (key : Bytes) (s : Store)
    → IsStore s
    → now ≤ later
    → get later key (evict now s) ≡ get later key s
unfolding evict get fresh lookup
get-evict now later key [] u h = refl
get-evict now later key ((k, e) ∷ s) (one, u) h = elim (Bool-cases (bytes_eq k key)) [
  | inl same ↦ ground (
    arith,
    same,
    lookup-evict_missing now key s
        (subst (λ x. has_key x s ≡ false) ((bytes_eq_iff k key).0 same) one),
  )
  | inr diff ↦ ground (arith, diff, get-evict now later key s u h)
]
