-- ===== src/Proxy/Balancer.antt =====
-- proxy/balancer.go: the target pool. A *Target is an index into the pool's list, and an atomic
-- counter is a number that wraps as its type does.
pub mod Pool
pub mod Choice
pub mod Fairness
use Prim.Native.Nat.{bit_xor}
use goichi.Prelude.{
  ℕ, zero, suc, ◌+◌, ◌-◌, ◌*◌, ◌%◌, ◌^◌, Bool, true, false, Option, none, some, List, [], ◌∷◌, ◌++◌,
  map, ltb, if◌then◌else◌, length, get_elem?, replicate,
}
use goichi.Prelude.Text.{Bytes, codes, bytes_eq}
use goichi.Prelude.Int.{ℤ, positive_or}

pub data Algorithm : Type 0 where
  round_robin random least_conn ip_hash : Algorithm

pub record Target : Type 0 where
  pub url : Bytes
  pub weight : ℤ
  pub healthy : Bool
  pub active : ℕ
  pub fails : ℕ

pub record Balancer : Type 0 where
  pub targets : List Target
  pub algo : Algorithm
  pub counter : ℕ

abbrev pub wrap : ℕ → ℕ
wrap n = n % 2 ^ 64

abbrev pub weight : Target → ℕ
weight t = positive_or 1 t.weight

-- The setting is a string, and an unknown one falls back to round robin.
unfoldable pub algorithm_of : Bytes → Algorithm
algorithm_of s =
    if bytes_eq s (codes "round_robin")
    then round_robin
    else if bytes_eq s (codes "random")
    then random
    else if bytes_eq s (codes "least_conn")
    then least_conn
    else if bytes_eq s (codes "ip_hash")
    then ip_hash
    else round_robin

abbrev pub set_healthy : Target → Target
set_healthy t = record t { healthy = true }

unfoldable pub new_balancer : List Target → Bytes → Balancer
unfolding algorithm_of
new_balancer targets algo = record {
  targets = map set_healthy targets;
  algo = algorithm_of algo;
  counter = 0;
}

-- The healthy targets, the i-th from `i` on, each as often as its weight.
unfoldable pub pool_from : ℕ → List Target → List ℕ
pool_from i [] = []
pool_from i (t ∷ ts) =
    let rest = pool_from (suc i) ts in if t.healthy then replicate (weight t) i ++ rest else rest

unfoldable pub pool : Balancer → List ℕ
unfolding pool_from
pool b = pool_from 0 b.targets

-- The number of requests that a target has in flight.
abbrev pub active_of : List Target → ℕ → ℕ
active_of ts i = elim (get_elem? ts i) [ none ↦ 0 | some t ↦ t.active ]

unfoldable pub least : List Target → ℕ → List ℕ → ℕ
least ts best [] = best
least ts best (i ∷ is) = least ts (if ltb (active_of ts i) (active_of ts best) then i else best) is

unfoldable pub fnv1a_from : ℕ → Bytes → ℕ
fnv1a_from h [] = h
fnv1a_from h (c ∷ s) = fnv1a_from (wrap (bit_xor h c * 1099511628211)) s

unfoldable pub fnv1a : Bytes → ℕ
unfolding fnv1a_from
fnv1a s = fnv1a_from 14695981039346656037 s

-- counter.Add(1)
abbrev pub advance : Balancer → Balancer
advance b = record b { counter = wrap (suc b.counter) }

-- counter.Add(1) - 1, from the counter that Add has stored.
abbrev pub ticket : Balancer → ℕ
ticket b = wrap (b.counter + (2 ^ 64 - 1))

-- Pick from the pool by an algorithm; `draw` is rand.IntN at this call.
unfoldable pub choose : Algorithm → Balancer → List ℕ → Bytes → (ℕ → ℕ) → Balancer × Option ℕ
unfolding least fnv1a
choose algo b [] key draw = (b, none)
choose random b (i ∷ is) key draw = (b, get_elem? (i ∷ is) (draw (length (i ∷ is))))
choose least_conn b (i ∷ is) key draw = (b, some (least b.targets i is))
choose ip_hash b (i ∷ is) key draw = (b, get_elem? (i ∷ is) (fnv1a key % length (i ∷ is)))
choose round_robin b (i ∷ is) key draw =
    let b' = advance b in (b', get_elem? (i ∷ is) (ticket b' % length (i ∷ is)))

unfoldable pub pick : Balancer → Bytes → (ℕ → ℕ) → Balancer × Option ℕ
unfolding choose pool
pick b key draw = choose b.algo b (pool b) key draw
