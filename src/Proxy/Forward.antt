-- ===== src/Proxy/Forward.antt =====
-- proxy/proxy.go: the settings, the upstream path, and Do with its retries. The client, the hooks and the
-- random numbers are an interface.
pub mod Retries
pub mod Sends
use goichi.Prelude.{
  ℕ, zero, suc, ◌+◌, ◌-◌, Bool, true, false, not, ◌&&◌, ◌||◌, Option, none, some, List, [], ◌∷◌,
  ◌++◌, map, ◌==◌, if◌then◌else◌, length, get_elem?, drop, any, is_empty,
}
use goichi.Prelude.Text.{Bytes, codes, trim_suffix_slash}
use goichi.Prelude.Int.{ℤ, pos, negsuc}
use goichi.Tree.{has_prefix}
use goichi.Proxy.Balancer.{Target, Balancer, pick}

-- strings.TrimPrefix
abbrev pub trim_prefix : Bytes → Bytes → Bytes
trim_prefix s prefix = if has_prefix s prefix false then drop (length prefix) s else s

unfoldable pub normalize_url : Bytes → Bytes
unfolding trim_suffix_slash has_prefix
normalize_url u = trim_suffix_slash (
    if not (is_empty u)
      && (not (has_prefix u (codes "http://") false) && not (has_prefix u (codes "https://") false))
    then codes "http://" ++ u
    else u)

pub record Config : Type 0 where
  pub target : Bytes
  pub targets : List Target
  pub strip_prefix : Bytes
  pub add_prefix : Bytes
  pub max_retries : ℤ

abbrev pub normalize_target : Target → Target
normalize_target t = record t { url = normalize_url t.url }

unfoldable pub set_defaults : Config → Config
unfolding normalize_url
set_defaults c = record c {
  target = if is_empty c.target then c.target else normalize_url c.target;
  targets = map normalize_target c.targets;
  strip_prefix = trim_suffix_slash c.strip_prefix;
  add_prefix = trim_suffix_slash c.add_prefix;
}

unfoldable pub rewrite_path : Config → Bytes → Bytes
unfolding has_prefix
rewrite_path cfg path =
    let stripped = if is_empty cfg.strip_prefix then path else trim_prefix path cfg.strip_prefix in
    let added = if is_empty cfg.add_prefix then stripped else cfg.add_prefix ++ stripped in
    if has_prefix added (codes "/") false then added else b'/' ∷ added

-- What Do calls, on the state S of the request, the client and the random numbers: rand.IntN at the
-- next pick; the request's address, host and hook before it is sent; DoTimeout with its error; the
-- copy of the response with its hook; res.Reset.
pub record Upstream (S : Type 0) : Type 0 where
  pub draw : S → ℕ → ℕ
  pub drawn : S → S
  pub prepare : Bytes → S → S
  pub send : ℕ → S → S × Option Bytes
  pub deliver : S → S
  pub reset : S → S

abbrev pub contains : ℕ → List ℕ → Bool
contains i xs = any (λ x. x == i) xs

unfoldable pub modify_target : (Target → Target) → ℕ → List Target → List Target
modify_target f i [] = []
modify_target f zero (t ∷ ts) = f t ∷ ts
modify_target f (suc i) (t ∷ ts) = t ∷ modify_target f i ts

abbrev pub enter : Target → Target
enter t = record t { active = suc t.active }

abbrev pub leave : Target → Target
leave t = record t { active = t.active - 1 }

abbrev pub on_target : (Target → Target) → ℕ → Balancer → Balancer
on_target f i b = record b { targets = modify_target f i b.targets }

abbrev pub url_of : Balancer → ℕ → Bytes
url_of b i = elim (get_elem? b.targets i) [ none ↦ [] | some t ↦ t.url ]

-- The end of Do: the response was delivered, or it fails with an error, `none` being ErrNoTarget.
pub data Result : Type 0 where
  delivered : Result
  failed : Option Bytes → Result

-- The targets tried, the last one first, stand before the result.
abbrev pub End : Type 0 → Type 0
End S = (Balancer × S) × (List ℕ × Result)

module _ {S : Type 0} (U : Upstream S) (key : Bytes) where
  -- A turn of the loop of pick: `again` is the rest of the loop.
  abbrev pub after_pick :
      List ℕ → Balancer × S → (Balancer × S) × Option ℕ → Option ℕ → (Balancer × S) × Option ℕ
  after_pick tried here again none = (here, none)
  after_pick tried here again (some i) = if contains i tried then again else (here, some i)

  -- The loop of pick, `n` turns of which are left.
  unfoldable pub pick_untried : ℕ → List ℕ → Balancer → S → (Balancer × S) × Option ℕ
  pick_untried zero tried b s = ((b, s), none)
  pick_untried (suc n) tried b s =
      let (b', t) = pick b key (U.draw s) in
      let again = pick_untried n tried b' (U.drawn s) in after_pick tried (b', U.drawn s) again t

  abbrev pub pick_target : List ℕ → Balancer → S → (Balancer × S) × Option ℕ
  pick_target tried b s = pick_untried (suc (length b.targets)) tried b s

  -- One request to one target.
  unfoldable pub send_to : Bytes → Bytes → ℕ → Balancer → S → (Balancer × S) × Option Bytes
  send_to path query i b s =
      let uri = url_of b i ++ (path ++ (if is_empty query then [] else b'?' ∷ query)) in
      let b' = on_target enter i b in
      let (s', err) = U.send i (U.prepare uri s) in ((on_target leave i b', s'), err)

  -- After the answer of one target: the next attempt follows a transport error.
  abbrev pub after_send : End S → List ℕ → Balancer × S → Option Bytes → End S
  after_send again tried here none = (here, (tried, delivered))
  after_send again tried here (some err) = again

  abbrev pub after_choice :
      Bytes
      → Bytes
      → (List ℕ → Option Bytes → Balancer → S → End S)
      → List ℕ
      → Option Bytes
      → Balancer × S
      → Option ℕ
      → End S
  after_choice path query next tried err here none = (here, (tried, failed err))
  after_choice path query next tried err (b, s) (some i) =
      let ((b', s'), e) = send_to path query i b s in
      after_send (next (i ∷ tried) e b' (U.reset s')) (i ∷ tried) (b', U.deliver s') e

  -- The loop of Do, with `n` attempts left.
  unfoldable pub attempt : Bytes → Bytes → ℕ → List ℕ → Option Bytes → Balancer → S → End S
  attempt path query zero tried err b s = ((b, s), (tried, failed err))
  attempt path query (suc n) tried err b s =
      let (here, t) = pick_target tried b s in
      after_choice path query (λ tried' e b' s'. attempt path query n tried' e b' s') tried err here
        t

-- p.cfg.MaxRetries + 1
abbrev pub attempts : ℤ → ℕ
attempts (pos n) = suc n
attempts (negsuc n) = 0

module _ {S : Type 0} (U : Upstream S) (cfg : Config) where
  -- Do, without the branch for upgrades.
  unfoldable pub forward : Bytes → Bytes → Bytes → Balancer → S → End S
  unfolding attempt pick_untried send_to pick modify_target rewrite_path
  forward key path query b s =
      attempt U key (rewrite_path cfg path) query (attempts cfg.max_retries) [] none b s
