-- ===== src/Proxy/Setup.antt =====
-- proxy/proxy.go: what a new proxy balances over, and how it reports an error.
use goichi.Prelude.{false, Option, none, some, List, [], ◌∷◌, ◌++◌, map, is_empty, if◌then◌else◌}
use goichi.Prelude.Text.{Bytes, codes}
use goichi.Prelude.Int.{pos}
use goichi.Http.{Context, FastHttp, Outcome, returned, write_json_error}
use goichi.Proxy.Balancer.{Target, Balancer, new_balancer}
use goichi.Proxy.Forward.{Config, set_defaults}

abbrev pub new_target : Bytes → Target
new_target url = record { url = url; weight = pos 0; healthy = false; active = 0; fails = 0 }

-- The pool, or the one target where there is no pool.
abbrev pub pool_of : Bytes → List Target → List Target
pool_of url [] = if is_empty url then [] else new_target url ∷ []
pool_of url (t ∷ ts) = t ∷ ts

-- `algo` is the setting Balancer.
unfoldable pub new_proxy : Config → (algo : Bytes) → Balancer
unfolding set_defaults new_balancer
new_proxy cfg algo = let c = set_defaults cfg in new_balancer (pool_of c.target c.targets) algo

unfoldable pub balance : List Bytes → Config → (algo : Bytes) → Balancer
unfolding new_proxy
balance urls cfg algo = new_proxy (record cfg { targets = map new_target urls }) algo

module _ {C : Type 0} (F : FastHttp C) where
  -- The error handler is `none` where it is nil.
  unfoldable pub fail : Option (Context C → Bytes → Context C) → Bytes → Context C → Outcome C
  unfolding write_json_error
  fail (some handler) err c = returned (handler c err) none
  fail none err c =
      let (ctx, e) = write_json_error F (codes "proxy: " ++ err) (F.set_status 502 c.request_ctx) in
      returned (record c { request_ctx = ctx }) e
