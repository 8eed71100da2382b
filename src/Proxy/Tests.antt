-- ===== src/Proxy/Tests.antt =====
-- A pool of targets, at which the theorems on the proxy hold.
use goichi.Prelude.{
  ℕ, suc, ◌≤◌, ◌≡◌, refl, Bool, some, List, [], ◌∷◌, true, false, is_some, arith, if◌then◌else◌,
}
use goichi.Prelude.Text.{Bytes, codes, equal_fold}
use goichi.Proxy.Headers.{HeaderLibrary, Client}
use goichi.Prelude.Int.{ℤ, pos, negsuc}
use goichi.Proxy.Balancer.{
  Algorithm, round_robin, least_conn, Target, Balancer, pool, pool_from, pick, choose, active_of,
}
use goichi.Proxy.Balancer.Choice.{IsDraw, pick-total, pick-minimal}
use goichi.Proxy.Balancer.Fairness.{times_picked, times_picked-share}
use goichi.Proxy.Health.{HealthCheck, set_defaults}
use goichi.Proxy.Health.Streaks.{ever, ever-down}
use goichi.Proxy.Forward.{Config, Upstream, forward}
use goichi.Proxy.Setup.{new_proxy, new_target}
use goichi.Proxy.Forward.Sends.{IsSound, forward-IsSound}

abbrev target : ℤ → Bool → ℕ → Target
target w up n = record { url = codes "u"; weight = w; healthy = up; active = n; fails = 0 }

abbrev targets : List Target
targets = target (pos 2) true 5 ∷ target (pos 1) false 0 ∷ target (negsuc 0) true 3 ∷ []

abbrev balancer : Algorithm → Balancer
balancer algo = record { targets = targets; algo = algo; counter = 7 }

abbrev first : ℕ → ℕ
first n = 0

times_picked-share_example : times_picked 0 3 (balancer round_robin) [] first ≡ 2
unfolding pool pool_from
times_picked-share_example = times_picked-share (balancer round_robin) 0 [] first refl (omega arith)

first-IsDraw : IsDraw first
first-IsDraw n = omega arith

pick-total_example : is_some (pick (balancer least_conn) [] first).1 ≡ true
pick-total_example = pick-total (balancer least_conn) [] first first-IsDraw

pick-minimal_example : active_of targets 2 ≤ active_of targets 0
unfolding pick pool choose
pick-minimal_example = pick-minimal (balancer least_conn) [] first 2 0 refl refl refl

abbrev check : HealthCheck
check = record {
  enable = true;
  interval = pos 0;
  timeout = pos 0;
  path = [];
  fail_threshold = pos 2;
  success_threshold = pos 2;
}

ever-down_example :
    ever false (set_defaults check) (false ∷ true ∷ false ∷ false ∷ []) (target (pos 1) true 0)
    ≡ true
unfolding set_defaults
ever-down_example =
    ever-down (set_defaults check) (false ∷ true ∷ false ∷ false ∷ []) (target (pos 1) true 0) refl

-- An upstream that never answers; its state counts the requests sent.
abbrev dead : Upstream ℕ
dead = record {
  draw = λ s n. 0;
  drawn = λ s. s;
  prepare = λ uri s. s;
  send = λ i s. (suc s, some (codes "timeout"));
  deliver = λ s. s;
  reset = λ s. s;
}

abbrev config : Config
config = record {
  target = [];
  targets = [];
  strip_prefix = codes "/api";
  add_prefix = [];
  max_retries = pos 4;
}

forward-IsSound_example : IsSound targets targets 5 (2 ∷ 0 ∷ [])
unfolding forward set_defaults goichi.Proxy.Balancer.pool_from
forward-IsSound_example =
    forward-IsSound dead config [] (codes "/api/x") [] (balancer round_robin) 0

-- The headers of a message by name.
abbrev by_name : HeaderLibrary (Bytes → Bytes)
by_name = record {
  peek = λ k h. h k;
  set = λ n v h k. if equal_fold n k then v else h k;
  del = λ n h k. if equal_fold n k then [] else h k;
}

-- A message with a Connection header that names another one.
abbrev headers : Bytes → Bytes
headers k =
    if equal_fold (codes "Connection") k
    then codes "close, X-Secret"
    else if equal_fold (codes "X-Secret") k
    then codes "7"
    else []

abbrev client : Client
client = record {
  remote_ip = codes "10.0.0.1";
  host = codes "shop";
  is_tls = true;
  forwarded_for = [];
  forwarded_proto = [];
}

-- One address without a scheme, and the default algorithm.
new_proxy_test :
    new_proxy
      (record {
        target = codes "up:80/";
        targets = [];
        strip_prefix = [];
        add_prefix = [];
        max_retries = pos 0;
      })
      []
    ≡ record {
      targets = record (new_target (codes "http://up:80")) { healthy = true } ∷ [];
      algo = round_robin;
      counter = 0;
    }
unfolding new_proxy goichi.Proxy.Forward.normalize_url goichi.Proxy.Balancer.algorithm_of
new_proxy_test = refl
