-- ===== src/Proxy/Balancer/Pool.antt =====
-- What the weighted pool of a balancer holds.
use goichi.Prelude.{
  ℕ, zero, suc, ◌+◌, ◌≤◌, ◌<◌, ◌≡◌, refl, Bool, true, false, some, List, [], ◌∷◌, ◌++◌, ◌==◌,
  if◌then◌else◌, length, get_elem?, replicate, any, arith, is_some, is_empty, not,
}
use goichi.Prelude.Int.{ℤ, pos, negsuc, positive_or}
use goichi.Proxy.Balancer.{Target, weight, pool_from}

-- Target `i` exists and is healthy.
abbrev pub is_healthy : List Target → ℕ → Bool
is_healthy [] i = false
is_healthy (t ∷ ts) zero = t.healthy
is_healthy (t ∷ ts) (suc i) = is_healthy ts i

-- How often target `i` stands in the pool: its weight if it is healthy.
abbrev pub share : List Target → ℕ → ℕ
share [] i = 0
share (t ∷ ts) zero = if t.healthy then weight t else 0
share (t ∷ ts) (suc i) = share ts i

abbrev pub count : ℕ → List ℕ → ℕ
count i [] = 0
count i (x ∷ xs) = if x == i then suc (count i xs) else count i xs

positive_or-positive : (z : ℤ) → 1 ≤ positive_or 1 z
positive_or-positive (pos zero) = omega arith
positive_or-positive (pos (suc n)) = omega arith
positive_or-positive (negsuc n) = omega arith

count-append : (i : ℕ) (xs ys : List ℕ) → count i (xs ++ ys) ≡ count i xs + count i ys
count-append i [] ys = omega arith
count-append i (x ∷ xs) ys = ground (arith, count-append i xs ys)

count-replicate : (i n j : ℕ) → count i (replicate n j) ≡ (if j == i then n else 0)
count-replicate i zero j = ground arith
count-replicate i (suc n) j = ground (arith, count-replicate i n j)

count-pool_from_below : (i k : ℕ) (ts : List Target) → i < k → count i (pool_from k ts) ≡ 0
unfolding pool_from
count-pool_from_below i k [] h = refl
count-pool_from_below i k (t ∷ ts) h = ground (
  arith,
  count-pool_from_below i (suc k) ts,
  count-append i (replicate (weight t) k) (pool_from (suc k) ts),
  count-replicate i (weight t) k,
)

pub count-pool_from : (i k : ℕ) (ts : List Target) → count (k + i) (pool_from k ts) ≡ share ts i
unfolding pool_from
count-pool_from i k [] = refl
count-pool_from zero k (t ∷ ts) = ground (
  arith,
  count-pool_from_below (k + 0) (suc k) ts,
  count-append (k + 0) (replicate (weight t) k) (pool_from (suc k) ts),
  count-replicate (k + 0) (weight t) k,
)
count-pool_from (suc i) k (t ∷ ts) = ground (
  arith,
  count-pool_from i (suc k) ts,
  count-append (k + suc i) (replicate (weight t) k) (pool_from (suc k) ts),
  count-replicate (k + suc i) (weight t) k,
)

pub share-healthy : (ts : List Target) (i : ℕ) → 1 ≤ share ts i → is_healthy ts i ≡ true
share-healthy [] i h = ground arith
share-healthy (t ∷ ts) zero h = ground arith
share-healthy (t ∷ ts) (suc i) h = share-healthy ts i h

pub healthy-share : (ts : List Target) (i : ℕ) → is_healthy ts i ≡ true → 1 ≤ share ts i
healthy-share [] i h = cc h
healthy-share (t ∷ ts) zero h = ground (arith, positive_or-positive t.weight)
healthy-share (t ∷ ts) (suc i) h = healthy-share ts i h

pub count-get_elem? : (xs : List ℕ) (n i : ℕ) → get_elem? xs n ≡ some i → 1 ≤ count i xs
count-get_elem? [] n i e = cc e
count-get_elem? (x ∷ xs) zero i e = ground arith
count-get_elem? (x ∷ xs) (suc n) i e = ground (arith, count-get_elem? xs n i e)

pub get_elem?-total : (xs : List ℕ) (n : ℕ) → n < length xs → is_some (get_elem? xs n) ≡ true
get_elem?-total [] n h = ground arith
get_elem?-total (x ∷ xs) zero h = refl
get_elem?-total (x ∷ xs) (suc n) h = get_elem?-total xs n (omega arith)

is_empty-replicate : (n i : ℕ) (xs : List ℕ) → 1 ≤ n → is_empty (replicate n i ++ xs) ≡ false
is_empty-replicate zero i xs h = ground arith
is_empty-replicate (suc n) i xs h = refl

pub is_empty-pool_from :
    (k : ℕ) (ts : List Target) → is_empty (pool_from k ts) ≡ not (any (λ t. t.healthy) ts)
unfolding pool_from
is_empty-pool_from k [] = refl
is_empty-pool_from k (t ∷ ts) = ground (
  arith,
  is_empty-pool_from (suc k) ts,
  is_empty-replicate (weight t) k (pool_from (suc k) ts) (positive_or-positive t.weight),
)
