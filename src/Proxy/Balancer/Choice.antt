-- ===== src/Proxy/Balancer/Choice.antt =====
-- Which target a pick may return.
use goichi.Prelude.{
  ℕ, suc, ◌≤◌, ◌<◌, ◌≡◌, refl, subst, Bool, true, false, some, List, [], ◌∷◌, ◌==◌, ltb,
  if◌then◌else◌, length, any, arith, is_some, is_empty, not, inl, inr, Bool-cases,
}
use goichi.Prelude.Text.{Bytes}
use goichi.Proxy.Balancer.{
  Algorithm, Target, Balancer, round_robin, random, least_conn, ip_hash, pool, pool_from, active_of,
  least, choose, pick,
}
use goichi.Proxy.Balancer.Pool.{
  is_healthy, share, count, count-pool_from, share-healthy, healthy-share, count-get_elem?,
  get_elem?-total, is_empty-pool_from,
}

-- rand.IntN(n) is less than n.
abbrev pub IsDraw : (ℕ → ℕ) → Type 0
IsDraw draw = (n : ℕ) → draw (suc n) < suc n

pub count-pool : (b : Balancer) (i : ℕ) → count i (pool b) ≡ share b.targets i
unfolding pool
count-pool b i =
    subst (λ k. count k (pool_from 0 b.targets) ≡ share b.targets i) (omega arith)
      (count-pool_from i 0 b.targets)

-- The better of two candidates is one of them.
count-two :
    (x a b : ℕ) (first : Bool) (xs : List ℕ)
    → 1 ≤ count x ((if first then b else a) ∷ xs)
    → 1 ≤ count x (a ∷ b ∷ xs)
count-two x a b true xs h = ground arith
count-two x a b false xs h = ground arith

count-least : (ts : List Target) (best : ℕ) (is : List ℕ) → 1 ≤ count (least ts best is) (best ∷ is)
unfolding least
count-least ts best [] = ground arith
count-least ts best (i ∷ is) =
    count-two _ best i (ltb (active_of ts i) (active_of ts best)) is
      (count-least ts (if ltb (active_of ts i) (active_of ts best) then i else best) is)

least-minimal :
    (ts : List Target) (best : ℕ) (is : List ℕ) (j : ℕ)
    → 1 ≤ count j (best ∷ is)
    → active_of ts (least ts best is) ≤ active_of ts j
unfolding least
least-minimal ts best [] j h = elim (Bool-cases (best == j)) [
  | inl same ↦ ground arith
  | inr other ↦ ground arith
]
least-minimal ts best (i ∷ is) j h = elim (Bool-cases (ltb (active_of ts i) (active_of ts best))) [
  | inl less ↦ rw less (ground (arith, less, least-minimal ts i is j, least-minimal ts i is i))
  | inr more ↦
      rw more (ground (arith, more, least-minimal ts best is j, least-minimal ts best is best))
]

count-choose :
    (algo : Algorithm) (b : Balancer) (is : List ℕ) (key : Bytes) (draw : ℕ → ℕ) (i : ℕ)
    → (choose algo b is key draw).1 ≡ some i
    → 1 ≤ count i is
unfolding choose
count-choose algo b [] key draw i e = cc e
count-choose random b (x ∷ is) key draw i e = count-get_elem? (x ∷ is) _ i e
count-choose ip_hash b (x ∷ is) key draw i e = count-get_elem? (x ∷ is) _ i e
count-choose round_robin b (x ∷ is) key draw i e = count-get_elem? (x ∷ is) _ i e
count-choose least_conn b (x ∷ is) key draw i e = ground (arith, count-least b.targets x is)

choose-total :
    (algo : Algorithm) (b : Balancer) (is : List ℕ) (key : Bytes) (draw : ℕ → ℕ)
    → IsDraw draw
    → is_some (choose algo b is key draw).1 ≡ not (is_empty is)
unfolding choose
choose-total algo b [] key draw d = refl
choose-total random b (x ∷ is) key draw d = get_elem?-total (x ∷ is) _ (d (length is))
choose-total ip_hash b (x ∷ is) key draw d = get_elem?-total (x ∷ is) _ (omega arith)
choose-total round_robin b (x ∷ is) key draw d = get_elem?-total (x ∷ is) _ (omega arith)
choose-total least_conn b (x ∷ is) key draw d = refl

-- A pick returns a target exactly when some target is healthy, under every algorithm, if a random
-- draw below n is below n.
pub pick-total :
    (b : Balancer) (key : Bytes) (draw : ℕ → ℕ)
    → IsDraw draw
    → is_some (pick b key draw).1 ≡ any (λ t. t.healthy) b.targets
unfolding pick pool
pick-total b key draw d =
    ground (arith, choose-total b.algo b (pool b) key draw d, is_empty-pool_from 0 b.targets)

-- The target that a pick returns is one of the pool's and healthy, under every algorithm.
pub pick-is_healthy :
    (b : Balancer) (key : Bytes) (draw : ℕ → ℕ) (i : ℕ)
    → (pick b key draw).1 ≡ some i
    → is_healthy b.targets i ≡ true
unfolding pick
pick-is_healthy b key draw i e =
    share-healthy b.targets i
      (ground (arith, count-choose b.algo b (pool b) key draw i e, count-pool b i))

least_conn-choose :
    (b : Balancer) (is : List ℕ) (key : Bytes) (draw : ℕ → ℕ) (i j : ℕ)
    → (choose least_conn b is key draw).1 ≡ some i
    → 1 ≤ count j is
    → active_of b.targets i ≤ active_of b.targets j
unfolding choose
least_conn-choose b [] key draw i j e c = cc e
least_conn-choose b (x ∷ is) key draw i j e c = ground (arith, least-minimal b.targets x is j c)

-- Under least_conn no healthy target has fewer requests in flight than the one that is picked.
pub pick-minimal :
    (b : Balancer) (key : Bytes) (draw : ℕ → ℕ) (i j : ℕ)
    → b.algo ≡ least_conn
    → (pick b key draw).1 ≡ some i
    → is_healthy b.targets j ≡ true
    → active_of b.targets i ≤ active_of b.targets j
unfolding pick
pick-minimal b key draw i j l e h =
    least_conn-choose b (pool b) key draw i j
      (subst (λ a. (choose a b (pool b) key draw).1 ≡ some i) l e)
      (ground (arith, healthy-share b.targets j h, count-pool b j))
