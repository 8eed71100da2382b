-- ===== src/Middleware/Tests.antt =====
-- Requests of two clients in one window, at which the theorems on the limiter hold.
use goichi.Prelude.{arith, ℕ, ◌≡◌, false, ◌≤◌, refl, none, some, List, [], ◌∷◌}
use goichi.Prelude.Text.{Bytes, codes}
use goichi.Prelude.Int.{pos}
use goichi.Http.{lookup, Context, Handler, returned}
use goichi.Middleware.{Exchange}
use goichi.Middleware.Cache.{CacheEntry, Store, CacheConfig, cache, is_cacheable, get, fresh}
use goichi.Middleware.Cache.Replay.{cache-replays}
use goichi.Middleware.RateLimit.Waiting.{after_events, admit-after_waiting}
use goichi.Middleware.RateLimit.{admit, Visitors}
use goichi.Middleware.RateLimit.Window.{Event, request, tick, admitted, admitted-le}

abbrev known : Visitors
known = (codes "a", record { count = 0; reset_at = 100 }) ∷ []

abbrev events : List Event
events =
    request (codes "a") 10 11
    ∷ request (codes "b") 20 20
    ∷ tick 30
    ∷ request (codes "a") 40 40
    ∷ request (codes "a") 50 51
    ∷ []

admitted-le_example : admitted (pos 2) 60 (codes "a") events known ≤ 2
unfolding lookup
admitted-le_example = admitted-le 2 60 (codes "a") events 100 known refl refl

-- A context: the method, the status and the body.
abbrev Req : Type 0
Req = Bytes × (ℕ × Bytes)

abbrev exchange : Exchange Req
exchange = record {
  method = λ c. c.0;
  header = λ k c. [];
  status = λ c. c.1.0;
  body = λ c. c.1.1;
  content_type = λ c. codes "text/plain";
  set_status = λ n c. (c.0, (n, c.1.1));
  set_body = λ b c. (c.0, (c.1.0, b));
  set_header = λ k v c. c;
  add_header = λ k v c. c;
}

abbrev config : CacheConfig Req
config = record { ttl = pos 50; key_func = λ c. codes "k"; methods = [] }

abbrev context : ℕ → Bytes → Context Req
context status body = record {
  request_ctx = (codes "GET", (status, body));
  params = [];
  jwt_claims = none;
  locals = [];
}

abbrev next : Handler Req
next = some (λ c. returned (context 200 (codes "hi")) none)

cache-replays_example :
    cache exchange config none 40 41
      (context 0 [])
      (cache exchange config next 1 2 (context 0 []) []).0
    ≡ (
      (cache exchange config next 1 2 (context 0 []) []).0,
      returned (context 200 (codes "hi")) none,
    )
unfolding is_cacheable get fresh lookup
cache-replays_example =
    cache-replays exchange config next none 1 2 40 41 (context 0 []) (context 200 (codes "hi"))
      (context 0 []) [] refl refl refl (omega arith) (omega arith) refl refl (omega arith)

abbrev entry : ℕ → CacheEntry
entry t = record { body = []; content_type = []; status = 200; expires_at = t }

abbrev store : Store
store = (codes "a", entry 10) ∷ (codes "b", entry 30) ∷ []

-- Three requests in a window of sixty, with a limit of two, and one after it.
admit-after_waiting_example :
    (admit (pos 2) 60 (codes "a") 112 112 (
      after_events
        (pos 2)
        60
        (request (codes "a") 10 11 ∷ request (codes "a") 20 20 ∷ request (codes "a") 50 51 ∷ [])
        [])).1
    ≡ false
admit-after_waiting_example =
    admit-after_waiting 2 60 51 112 112 (codes "a")
      (request (codes "a") 10 11 ∷ request (codes "a") 20 20 ∷ request (codes "a") 50 51 ∷ []) []
      (omega arith) tt refl (omega arith)
